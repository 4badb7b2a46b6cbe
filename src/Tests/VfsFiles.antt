-- ===== src/Tests/VfsFiles.antt =====
-- A server that answers every request with an error.
use carrels.Base.{◌++◌, first_from, ◌≡◌, refl, true, false, none, some, [], ◌∷◌, update}
use carrels.Fs.{
  FsCmd, FsCmpl, FsClient, fs_request_allocate, fs_request_free, fs_command_issue,
  fs_command_complete, wait_for, fs_command_blocking, fs_buffer_free,
}
use carrels.Vfs.{FsProtocol, run_command, size_file, vfs_error}
use carrels.Vfs.Sizing.{freed, size_file-closes}

abbrev pub protocol : FsProtocol
protocol = record {
  capacity = 2;
  buffer_size = 4096;
  file_open = 2;
  file_size = 7;
  file_read = 5;
  file_close = 3;
  status_success = 0;
}

abbrev pub refused : FsCmpl
refused = record { id = 0; status = 1; data_word = 0 }

abbrev answers : FsClient → FsClient
answers s = record s { request_complete = λ i. true; request_completion = λ i. refused }

abbrev pub fresh_client : FsClient
fresh_client = record {
  request_used = λ i. false;
  request_complete = λ i. false;
  request_command = λ i. record { id = 0; type = 0; params = [] };
  request_completion = λ i. refused;
  buffer_used = λ i. false;
  fs_share = λ a. 0;
  command_queue = [];
  completion_queue = [];
}

-- A client whose buffer 0 is in use.
abbrev holder : FsClient
holder = record fresh_client { buffer_used = update (λ i. false) 0 true }

abbrev size_cmd : FsCmd
size_cmd = record { id = 0; type = 7; params = 3 ∷ [] }

abbrev close_cmd : FsCmd
close_cmd = record { id = 0; type = 3; params = 3 ∷ [] }

-- The client behind a command in its first request.
abbrev after : FsClient → FsCmd → FsClient
after s cmd = record s {
  request_used = update (update s.request_used 0 true) 0 false;
  request_complete = update (λ i. true) 0 false;
  request_command = update s.request_command 0 cmd;
  command_queue = s.command_queue ++ cmd ∷ [];
}

holder_asked :
    run_command protocol answers 1 holder refused 7 (3 ∷ [])
    ≡ some (false, refused, after holder size_cmd)
unfolding run_command fs_command_blocking fs_request_allocate first_from fs_command_issue wait_for
    fs_command_complete fs_request_free
holder_asked = refl

holder_closed :
    run_command protocol answers 1 (after holder size_cmd) refused 3 (3 ∷ [])
    ≡ some (false, refused, after (after holder size_cmd) close_cmd)
unfolding run_command fs_command_blocking fs_request_allocate first_from fs_command_issue wait_for
    fs_command_complete fs_request_free
holder_closed = refl

size_file-closes_example :
    size_file protocol answers 1 holder refused 0 3
    ≡ some (vfs_error, freed 4096 (after (after holder size_cmd) close_cmd) 0)
size_file-closes_example =
    size_file-closes protocol answers 1 holder (after holder size_cmd)
      (after (after holder size_cmd) close_cmd) refused refused refused false false 0 3 (λ t. refl)
      holder_asked refl holder_closed

-- Where the buffer is free already, as `openfile` leaves it.
second_free_halts : size_file protocol answers 1 fresh_client refused 0 3 ≡ none
unfolding size_file run_command fs_command_blocking fs_request_allocate first_from fs_command_issue
    wait_for fs_command_complete fs_request_free fs_buffer_free
second_free_halts = refl
