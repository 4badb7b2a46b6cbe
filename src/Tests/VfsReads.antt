-- ===== src/Tests/VfsReads.antt =====
-- A server with a file of two bytes, which it serves in one chunk.
use carrels.Base.{
  ℕ, ◌≡◌, ◌==◌, ◌&&◌, refl, Bool, if◌then◌else◌, true, Option, none, some, List, [], ◌∷◌, codes,
  update, get_or, arith, first_from, memzero,
}
use carrels.Fs.{
  FsCmd, FsCmpl, FsClient, fs_request_allocate, fs_request_free, fs_buffer_allocate, fs_buffer_free,
  fs_command_issue, fs_command_complete, wait_for, fs_command_blocking,
}
use carrels.Vfs.{
  run_command, size_file, openfile, closefile, readfile, write_name, bytes_at,
  pico_vfs_readfile2buf,
}
use carrels.Vfs.Reading.{at_end, chunk, pico_vfs_readfile2buf-reads}
use carrels.Tests.VfsFiles.{protocol, refused, fresh_client}

abbrev is_first_read : FsCmd → Bool
is_first_read c = c.type == 5 && get_or c.params 1 0 == 0

abbrev answer_to : FsCmd → FsCmpl
answer_to c = record {
  id = c.id;
  status = 0;
  data_word = if c.type == 2 then 3 else if is_first_read c then 2 else 0;
}

abbrev serve : FsClient → List FsCmd → FsClient
serve s [] = s
serve s (c ∷ cs) =
    serve
      (record s {
        request_complete = update s.request_complete c.id true;
        request_completion = update s.request_completion c.id (answer_to c);
        fs_share = if is_first_read c then update (update s.fs_share 0 104) 1 105 else s.fs_share;
      })
      cs

abbrev server : FsClient → FsClient
server s = record (serve s s.command_queue) { command_queue = [] }

abbrev client_of {ℓ} : {A : Type ℓ} → Option (A × FsClient) → FsClient
client_of none = fresh_client
client_of (some (a, s)) = s

abbrev client_behind : Option (ℕ × List ℕ × FsClient) → FsClient
client_behind none = fresh_client
client_behind (some (n, bytes, s)) = s

abbrev opened_client : FsClient
opened_client = client_of (openfile protocol server 1 refused fresh_client (codes "a"))

abbrev read_client : FsClient
read_client = client_behind (readfile protocol server 1 refused opened_client 4096 3 0)

abbrev ended_client : FsClient
ended_client = client_behind (readfile protocol server 1 refused read_client 4096 3 2)

abbrev the_client : Option FsClient → FsClient
the_client none = fresh_client
the_client (some s) = s

abbrev closed_client : FsClient
closed_client = the_client (closefile protocol server 1 refused ended_client 3)

opened : openfile protocol server 1 refused fresh_client (codes "a") ≡ some (3, opened_client)
unfolding openfile size_file run_command fs_command_blocking fs_request_allocate first_from
    fs_command_issue wait_for fs_command_complete fs_request_free fs_buffer_allocate fs_buffer_free
    write_name memzero
opened = refl

first_chunk :
    readfile protocol server 1 refused opened_client 4096 3 0 ≡ some (2, codes "hi", read_client)
unfolding openfile size_file run_command fs_command_blocking fs_request_allocate first_from
    fs_command_issue wait_for fs_command_complete fs_request_free fs_buffer_allocate fs_buffer_free
    write_name readfile bytes_at memzero
first_chunk = refl

last_chunk : readfile protocol server 1 refused read_client 4096 3 2 ≡ some (2, [], ended_client)
unfolding openfile size_file run_command fs_command_blocking fs_request_allocate first_from
    fs_command_issue wait_for fs_command_complete fs_request_free fs_buffer_allocate fs_buffer_free
    write_name readfile bytes_at memzero
last_chunk = refl

closed : closefile protocol server 1 refused ended_client 3 ≡ some closed_client
unfolding openfile size_file run_command fs_command_blocking fs_request_allocate first_from
    fs_command_issue wait_for fs_command_complete fs_request_free fs_buffer_allocate fs_buffer_free
    write_name readfile bytes_at memzero closefile
closed = refl

pico_vfs_readfile2buf-reads_example :
    pico_vfs_readfile2buf protocol server 1 3 refused fresh_client (codes "a")
    ≡ some (some (2, codes "hi"), closed_client)
pico_vfs_readfile2buf-reads_example =
    pico_vfs_readfile2buf-reads protocol server 1 refused 3 3 fresh_client opened_client
      ended_client closed_client (codes "a") (codes "hi") opened refl
      (chunk 104 (105 ∷ []) (omega arith) first_chunk (at_end (omega arith) last_chunk)) closed
      (omega arith)
