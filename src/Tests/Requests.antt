-- ===== src/Tests/Requests.antt =====
-- A file system client with two requests, of which the first is in use.
use carrels.Base.{first_from, ◌≡◌, ◌==◌, refl, true, false, some, [], ◌∷◌, update}
use carrels.Fs.{FsClient, fs_request_allocate, fs_process_completions}
use carrels.Fs.Completions.{IsProcessed, fs_process_completions-IsProcessed}
use carrels.Fs.Pools.{Allocated, fs_request_allocate-Allocated}

abbrev client : FsClient
client = record {
  request_used = λ i. i == 0;
  request_complete = λ i. false;
  request_command = λ i. record { id = 0; type = 0; params = [] };
  request_completion = λ i. record { id = 0; status = 0; data_word = 0 };
  buffer_used = λ i. false;
  fs_share = λ a. 0;
  command_queue = [];
  completion_queue = [];
}

fs_request_allocate-Allocated_example : Allocated 2 client (fs_request_allocate 2 4096 client)
fs_request_allocate-Allocated_example = fs_request_allocate-Allocated 2 4096 client

abbrev client_after : FsClient
client_after = record client { request_used = update client.request_used 1 true }

second_allocated : fs_request_allocate 2 4096 client ≡ some (1, client_after)
unfolding fs_request_allocate first_from
second_allocated = refl

abbrev waiting : FsClient
waiting = record client {
  completion_queue =
      record { id = 0; status = 0; data_word = 7 }
      ∷ record { id = 9; status = 0; data_word = 8 }
      ∷ [];
}

fs_process_completions-IsProcessed_example :
    IsProcessed 2 waiting.completion_queue waiting (fs_process_completions 2 4096 waiting)
    × ((fs_process_completions 2 4096 waiting).completion_queue ≡ [])
fs_process_completions-IsProcessed_example = fs_process_completions-IsProcessed 2 4096 waiting
