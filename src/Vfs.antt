-- ===== src/Vfs.antt =====
-- src/util/pico_vfs.c: whole files over the file system client. `none` is a halt: a failed assertion,
-- the endless loop where no buffer is free, or a wait that the fuel does not reach.
pub mod Reading
pub mod Sizing
use carrels.Base.{
  ℕ, zero, suc, ◌+◌, ◌-◌, ◌*◌, ◌^◌, if◌then◌else◌, Bool, true, false, not, ◌||◌, ◌&&◌, ◌==◌, Option,
  none, some, List, [], ◌∷◌, ◌++◌, length, ltb, leb, get_or, Memory, ◌>>=◌, ◌>>◌, assert,
}
use carrels.Fs.{FsCmd, FsCmpl, FsClient, fs_buffer_allocate, fs_buffer_free, fs_command_blocking}

-- The numbers of the protocol, which is a library's.
pub record FsProtocol : Type 0 where
  pub capacity : ℕ
  pub buffer_size : ℕ
  pub file_open : ℕ
  pub file_size : ℕ
  pub file_read : ℕ
  pub file_close : ℕ
  pub status_success : ℕ

-- `(uint64_t)-1`.
abbrev pub vfs_error : ℕ
vfs_error = 2 ^ 64 - 1

-- A text and its terminator are copied to the shared region.
unfoldable pub write_name : Memory → ℕ → List ℕ → Memory
write_name mem dest name a =
    if leb dest a && ltb a (dest + length name + 1) then get_or name (a - dest) 0 else mem a

-- `n` bytes of the shared region.
unfoldable pub bytes_at : Memory → ℕ → ℕ → List ℕ
bytes_at mem a zero = []
bytes_at mem a (suc n) = mem a ∷ bytes_at mem (a + 1) n

-- A chunk in front of what the later rounds read.
abbrev pub behind : List ℕ → Option (ℕ × List ℕ) → Option (ℕ × List ℕ)
behind chunk none = none
behind chunk (some (pos, bytes)) = some (pos, chunk ++ bytes)

module _ (p : FsProtocol) (blocking_wait : FsClient → FsClient) (fuel : ℕ) where
  -- A command; `completion` keeps what it holds where no request is free. The flag is the error.
  unfoldable pub run_command : FsClient → FsCmpl → ℕ → List ℕ → Option (Bool × FsCmpl × FsClient)
  run_command s completion type params = do
    (answer, s') ←
        fs_command_blocking p.capacity p.buffer_size blocking_wait fuel s
          (record { id = 0; type = type; params = params })
    some (elim answer [ none ↦ (true, completion, s') | some c ↦ (false, c, s') ])

  abbrev pub succeeded : FsCmpl → Bool
  succeeded c = c.status == p.status_success

  -- `uninitialised` is what the local variable holds before the first completion.
  unfoldable pub closefile : FsCmpl → FsClient → ℕ → Option FsClient
  closefile uninitialised s fd = do
    (error, c, s') ← run_command s uninitialised p.file_close (fd ∷ [])
    some s'

  -- The file is open; a file whose size cannot be read is closed again, and the buffer of its name,
  -- which has been freed, is freed.
  unfoldable pub size_file : FsClient → FsCmpl → ℕ → ℕ → Option (ℕ × FsClient)
  size_file s opened buffer fd = do
    (error, sized, s1) ← run_command s opened p.file_size (fd ∷ [])
    elim (succeeded sized) [
      | true ↦ some (fd, s1)
      | false ↦ do
        (error', closed, s2) ← run_command s1 sized p.file_close (fd ∷ [])
        s3 ← fs_buffer_free p.capacity p.buffer_size s2 buffer
        some (vfs_error, s3)
    ]

  unfoldable pub openfile : FsCmpl → FsClient → List ℕ → Option (ℕ × FsClient)
  openfile uninitialised s fname = do
    (buffer, s1) ← fs_buffer_allocate p.capacity p.buffer_size s
    (error, opened, s2) ←
        run_command (record s1 { fs_share = write_name s1.fs_share buffer fname }) uninitialised
          p.file_open (buffer ∷ (length fname + 1) ∷ 0 ∷ [])
    s3 ← fs_buffer_free p.capacity p.buffer_size s2 buffer
    elim (succeeded opened) [
      | true ↦ size_file s3 opened buffer opened.data_word
      | false ↦ some (vfs_error, s3)
    ]

  -- Whether the file could be opened.
  unfoldable pub pico_vfs_file_exists : FsCmpl → FsClient → List ℕ → Option (Bool × FsClient)
  pico_vfs_file_exists uninitialised s path = do
    (fd, s1) ← openfile uninitialised s path
    elim (fd == vfs_error) [
      | true ↦ some (false, s1)
      | false ↦ do s2 ← closefile uninitialised s1 fd; some (true, s2)
    ]

  -- The new position, and what was read; -1 where the read failed.
  unfoldable pub readfile : FsCmpl → FsClient → ℕ → ℕ → ℕ → Option (ℕ × List ℕ × FsClient)
  readfile uninitialised s size fd pos = do
    (buffer, s1) ← fs_buffer_allocate p.capacity p.buffer_size s
    (error, c, s2) ← run_command s1 uninitialised p.file_read (fd ∷ pos ∷ buffer ∷ size ∷ [])
    s3 ← fs_buffer_free p.capacity p.buffer_size s2 buffer
    some (
        if error || not (succeeded c)
        then (vfs_error, [], s3)
        else (pos + c.data_word, bytes_at s2.fs_share buffer c.data_word, s3))

  -- The loop from `pos` on: the last position and what is in the buffer, which a failed read gives up.
  unfoldable pub read_from : ℕ → FsCmpl → FsClient → ℕ → ℕ → Option (Option (ℕ × List ℕ) × FsClient)
  read_from zero uninitialised s fd pos = none
  read_from (suc n) uninitialised s fd pos = do
    (next, chunk, s1) ← readfile uninitialised s p.buffer_size fd pos
    elim (next == vfs_error) [
      | true ↦ some (none, s1)
      | false ↦ elim (next == pos) [
        | true ↦ some (some (pos, []), s1)
        | false ↦ do (rest, s2) ← read_from n uninitialised s1 fd next; some (behind chunk rest, s2)
      ]
    ]

  abbrev pub finish_file :
      FsCmpl → ℕ → Option (ℕ × List ℕ) × FsClient → Option (Option (ℕ × List ℕ) × FsClient)
  finish_file uninitialised fd (none, s) = some (none, s)
  finish_file uninitialised fd (some r, s) = do s1 ← closefile uninitialised s fd; some (some r, s1)

  -- The length of the file and the bytes of the buffer, `none` with the error -1. `rounds` bounds the
  -- loop.
  unfoldable pub pico_vfs_readfile2buf :
      ℕ → FsCmpl → FsClient → List ℕ → Option (Option (ℕ × List ℕ) × FsClient)
  pico_vfs_readfile2buf rounds uninitialised s path = do
    (fd, s1) ← openfile uninitialised s path
    elim (fd == vfs_error) [
      | true ↦ some (none, s1)
      | false ↦ read_from rounds uninitialised s1 fd 0 >>= finish_file uninitialised fd
    ]
