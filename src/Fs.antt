-- ===== src/Fs.antt =====
-- lib/fs/helpers/helpers.c: the client's side of the file system protocol. The queues are libraries'
-- (lists here, oldest first), and so are the capacity of the queues and the size of a buffer.
pub mod Completions
pub mod Pools
use carrels.Base.{
  first_from, ℕ, zero, suc, ◌+◌, ◌-◌, ◌*◌, ◌/◌, if◌then◌else◌, Bool, true, false, not, ◌&&◌, ◌||◌,
  ◌==◌, Option, none, some, List, [], ◌∷◌, ◌++◌, length, ltb, leb, update, Memory, memzero, ◌>>=◌,
  ◌>>◌, assert,
}

pub record FsCmd : Type 0 where
  pub id : ℕ
  pub type : ℕ
  pub params : List ℕ

pub record FsCmpl : Type 0 where
  pub id : ℕ
  pub status : ℕ
  pub data_word : ℕ

-- `request_metadata`, `buffer_metadata`, the shared region and the two queues.
pub record FsClient : Type 0 where
  pub request_used : ℕ → Bool
  pub request_complete : ℕ → Bool
  pub request_command : ℕ → FsCmd
  pub request_completion : ℕ → FsCmpl
  pub buffer_used : ℕ → Bool
  pub fs_share : Memory
  pub command_queue : List FsCmd
  pub completion_queue : List FsCmpl

-- The first unused place of `n` from `i` on.
abbrev pub first_unused : (ℕ → Bool) → ℕ → ℕ → Option ℕ
first_unused used = first_from (λ j. not (used j))

module _ (fs_queue_capacity fs_buffer_size : ℕ) where
  -- `none` is the error code 1: every request is in use.
  unfoldable pub fs_request_allocate : FsClient → Option (ℕ × FsClient)
  fs_request_allocate s = do
    i ← first_unused s.request_used fs_queue_capacity 0
    some (i, record s { request_used = update s.request_used i true })

  -- `none` is a failed assertion, here and below.
  unfoldable pub fs_request_free : FsClient → ℕ → Option FsClient
  fs_request_free s request_id = do
    assert (ltb request_id fs_queue_capacity)
    assert (s.request_used request_id)
    some (record s {
      request_used = update s.request_used request_id false;
      request_complete = update s.request_complete request_id false;
    })

  abbrev pub num_buffers : ℕ
  num_buffers = fs_queue_capacity * 4

  -- The buffer's offset; `none` is the error code 1.
  unfoldable pub fs_buffer_allocate : FsClient → Option (ℕ × FsClient)
  fs_buffer_allocate s = do
    i ← first_unused s.buffer_used num_buffers 0
    some (i * fs_buffer_size, record s { buffer_used = update s.buffer_used i true })

  unfoldable pub fs_buffer_free : FsClient → ℕ → Option FsClient
  fs_buffer_free s buffer = do
    assert (ltb (buffer / fs_buffer_size) num_buffers)
    assert (s.buffer_used (buffer / fs_buffer_size))
    some (record s {
      buffer_used = update s.buffer_used (buffer / fs_buffer_size) false;
      fs_share = memzero s.fs_share buffer fs_buffer_size;
    })

  -- One round: a completion with a bad number is reported and passed over.
  unfoldable pub process_completion : FsClient → FsCmpl → FsClient
  process_completion s c = if leb fs_queue_capacity c.id then s else record s {
    request_completion = update s.request_completion c.id c;
    request_complete = update s.request_complete c.id true;
  }

  unfoldable pub process_all : FsClient → List FsCmpl → FsClient
  process_all s [] = s
  process_all s (c ∷ cs) = process_all (process_completion s c) cs

  -- All that is in the queue is consumed; the callers pass no flag function.
  unfoldable pub fs_process_completions : FsClient → FsClient
  fs_process_completions s = record (process_all s s.completion_queue) { completion_queue = [] }

  unfoldable pub fs_command_issue : FsClient → FsCmd → Option FsClient
  fs_command_issue s cmd = do
    assert (ltb cmd.id fs_queue_capacity)
    assert (s.request_used cmd.id)
    assert (not (length s.command_queue == fs_queue_capacity))
    some (record s {
      command_queue = s.command_queue ++ cmd ∷ [];
      request_command = update s.request_command cmd.id cmd;
    })

  unfoldable pub fs_command_complete : FsClient → ℕ → Option (FsCmd × FsCmpl)
  fs_command_complete s request_id = do
    assert (s.request_complete request_id)
    some (s.request_command request_id, s.request_completion request_id)

  module _ (blocking_wait : FsClient → FsClient) where
    -- The wait, as often as the fuel says; `none` when it is used up.
    unfoldable pub wait_for : ℕ → ℕ → FsClient → Option FsClient
    wait_for zero request_id s = if s.request_complete request_id then some s else none
    wait_for (suc n) request_id s =
        let later = wait_for n request_id (blocking_wait s) in
        if s.request_complete request_id then some s else later

    -- The result is no completion where the error code is -1.
    unfoldable pub fs_command_blocking : ℕ → FsClient → FsCmd → Option (Option FsCmpl × FsClient)
    fs_command_blocking fuel s cmd = elim (fs_request_allocate s) [
      | none ↦ some (none, s)
      | some (request_id, s1) ↦ do
        s2 ← fs_command_issue s1 (record cmd { id = request_id })
        s3 ← wait_for fuel request_id s2
        (command, completion) ← fs_command_complete s3 request_id
        s4 ← fs_request_free s3 request_id
        some (some completion, s4)
    ]
