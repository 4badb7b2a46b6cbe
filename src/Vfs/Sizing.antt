-- ===== src/Vfs/Sizing.antt =====
-- A file that opens and whose size cannot be read: src/util/pico_vfs.c, the end of `openfile`, which
-- frees the buffer of the name before it asks for the size.
use carrels.Base.{
  memzero, ◌&&◌, if◌then◌else◌, update, ℕ, zero, suc, ◌*◌, ◌/◌, ◌≡◌, refl, ◌∙◌, ap, inl, inr, Bool,
  false, ◌==◌, Bool-cases, Option-cases, Option, none, some, List, [], ◌∷◌, ltb, arith, Holds,
  Holds-bind, Holds-of, Holds-map, Holds-some, ◌>>=◌,
}
use carrels.Fs.{
  FsCmd, FsCmpl, FsClient, first_unused, fs_request_allocate, fs_request_free, fs_command_issue,
  fs_command_complete, wait_for, fs_command_blocking, fs_buffer_free,
}
use carrels.Vfs.{FsProtocol, run_command, size_file, vfs_error}

-- The buffers in use are those that were in use before.
abbrev SameBuffers : FsClient → FsClient → Type 0
SameBuffers s s' = s'.buffer_used ≡ s.buffer_used

issue-SameBuffers :
    (capacity size : ℕ) (s : FsClient) (cmd : FsCmd)
    → Holds (SameBuffers s) (fs_command_issue capacity size s cmd)
unfolding fs_command_issue
issue-SameBuffers capacity size s cmd = ground arith

request_free-SameBuffers :
    (capacity size : ℕ) (s : FsClient) (id : ℕ)
    → Holds (SameBuffers s) (fs_request_free capacity size s id)
unfolding fs_request_free
request_free-SameBuffers capacity size s id = ground arith

request_allocate-SameBuffers :
    (capacity size : ℕ) (s : FsClient)
    → Holds (λ r. SameBuffers s r.1) (fs_request_allocate capacity size s)
unfolding fs_request_allocate
request_allocate-SameBuffers capacity size s =
    Holds-bind (λ i. Unit {0}) _ (first_unused s.request_used capacity 0) _
      (Holds-of _ (first_unused s.request_used capacity 0) (λ i e. tt)) (λ i h. refl)

module _ (p : FsProtocol) (blocking_wait : FsClient → FsClient) (fuel : ℕ)
    (waits : (s : FsClient) → (blocking_wait s).buffer_used ≡ s.buffer_used) where
  wait_for-SameBuffers :
      (n id : ℕ) (s : FsClient)
      → Holds (SameBuffers s) (wait_for p.capacity p.buffer_size blocking_wait n id s)
  unfolding wait_for
  wait_for-SameBuffers zero id s = elim (Bool-cases (s.request_complete id)) [
    | inl arrived ↦ rw arrived refl
    | inr missing ↦ rw missing tt
  ]
  wait_for-SameBuffers (suc n) id s = elim (Bool-cases (s.request_complete id)) [
    | inl arrived ↦ rw arrived refl
    | inr missing ↦ rw missing (
        Holds-map _ _ (wait_for p.capacity p.buffer_size blocking_wait n id (blocking_wait s))
          (λ s' e. e ∙ waits s) (wait_for-SameBuffers n id (blocking_wait s)))
  ]

  blocking-SameBuffers :
      (s : FsClient) (cmd : FsCmd)
      → Holds
          (λ r. SameBuffers s r.1)
          (fs_command_blocking p.capacity p.buffer_size blocking_wait fuel s cmd)
  unfolding fs_command_blocking
  blocking-SameBuffers s cmd =
      elim (Option-cases (fs_request_allocate p.capacity p.buffer_size s)) [
        | inl full ↦ rw (Holds, full) refl
        | inr ((id, s1), e) ↦
            let kept =
              Holds-some (λ r. SameBuffers s r.1) _
                (request_allocate-SameBuffers p.capacity p.buffer_size s) e in
            rw (Holds, e)
              (Holds-bind _ _
                (fs_command_issue p.capacity p.buffer_size s1 (record cmd { id = id })) _
                (issue-SameBuffers p.capacity p.buffer_size s1 (record cmd { id = id }))
                (λ s2 k2.
                  Holds-bind _ _ (wait_for p.capacity p.buffer_size blocking_wait fuel id s2) _
                    (wait_for-SameBuffers fuel id s2)
                    (λ s3 k3.
                      Holds-bind (λ r. Unit {0}) _
                        (fs_command_complete p.capacity p.buffer_size s3 id) _
                        (Holds-of _ (fs_command_complete p.capacity p.buffer_size s3 id)
                          (λ r h. tt))
                        (λ r h.
                          Holds-bind _ _ (fs_request_free p.capacity p.buffer_size s3 id) _
                            (request_free-SameBuffers p.capacity p.buffer_size s3 id)
                            (λ s4 k4. k4 ∙ k3 ∙ k2 ∙ kept)))))
      ]

  command-SameBuffers :
      (s : FsClient) (c : FsCmpl) (type : ℕ) (params : List ℕ)
      → Holds (λ r. SameBuffers s r.2) (run_command p blocking_wait fuel s c type params)
  unfolding run_command
  command-SameBuffers s c type params =
      Holds-bind _ _
        (fs_command_blocking p.capacity p.buffer_size blocking_wait fuel s
          (record { id = 0; type = type; params = params }))
        _ (blocking-SameBuffers s (record { id = 0; type = type; params = params }))
        (λ (answer, s') k. elim (Option-cases answer) [
          | inl failed ↦ rw failed k
          | inr (done, e) ↦ rw e k
        ])

-- The buffer is free, and its bytes are zero.
abbrev pub freed : ℕ → FsClient → ℕ → FsClient
freed size s buffer = record s {
  buffer_used = update s.buffer_used (buffer / size) false;
  fs_share = memzero s.fs_share buffer size;
}

-- The buffer of the name is freed, and the error comes back.
abbrev free_and_fail : ℕ → ℕ → FsClient → ℕ → Option (ℕ × FsClient)
free_and_fail capacity size s buffer = do
  s' ← fs_buffer_free capacity size s buffer
  some (vfs_error, s')

free_and_fail_lem :
    (capacity size : ℕ) (s : FsClient) (buffer : ℕ)
    → free_and_fail capacity size s buffer ≡ (
        if ltb (buffer / size) (capacity * 4) && s.buffer_used (buffer / size)
        then some (vfs_error, freed size s buffer)
        else none)
unfolding fs_buffer_free
free_and_fail_lem capacity size s buffer = elim (Bool-cases (ltb (buffer / size) (capacity * 4))) [
  | inl inside ↦ elim (Bool-cases (s.buffer_used (buffer / size))) [
    | inl taken ↦ rw (inside, taken) refl
    | inr free ↦ rw (inside, free) refl
  ]
  | inr outside ↦ rw outside refl
]

-- A file is open and its size cannot be read. If the answer to the command that closes the file
-- arrives, and nothing takes or frees a buffer while the client waits: the client runs that command
-- and then frees the buffer of the name. It comes back with the error, in the state in which the close
-- is answered and the buffer free, exactly if that buffer was in use before the size was asked for; it
-- halts otherwise.
pub size_file-closes :
    (p : FsProtocol) (blocking_wait : FsClient → FsClient) (fuel : ℕ) (s s1 s2 : FsClient)
    (opened sized closed : FsCmpl) (error error' : Bool) (buffer fd : ℕ)
    → ((t : FsClient) → (blocking_wait t).buffer_used ≡ t.buffer_used)
    → run_command p blocking_wait fuel s opened p.file_size (fd ∷ []) ≡ some (error, sized, s1)
    → (sized.status == p.status_success) ≡ false
    → run_command p blocking_wait fuel s1 sized p.file_close (fd ∷ []) ≡ some (error', closed, s2)
    → size_file p blocking_wait fuel s opened buffer fd ≡ (
        if ltb (buffer / p.buffer_size) (p.capacity * 4) && s.buffer_used (buffer / p.buffer_size)
        then some (vfs_error, freed p.buffer_size s2 buffer)
        else none)
unfolding size_file
size_file-closes p blocking_wait fuel s s1 s2 opened sized closed error error' buffer fd waits asked
      failed closing =
    let asked_kept : SameBuffers s s1 =
      Holds-some (λ r. SameBuffers s r.2) _
        (command-SameBuffers p blocking_wait fuel waits s opened p.file_size (fd ∷ [])) asked in
    let closed_kept : SameBuffers s1 s2 =
      Holds-some (λ r. SameBuffers s1 r.2) _
        (command-SameBuffers p blocking_wait fuel waits s1 sized p.file_close (fd ∷ [])) closing in
    let same : s2.buffer_used (buffer / p.buffer_size) ≡ s.buffer_used (buffer / p.buffer_size) =
      ap (λ used. used (buffer / p.buffer_size)) (closed_kept ∙ asked_kept) in
    rw (asked, ◌>>=◌, failed, closing)
      (free_and_fail_lem p.capacity p.buffer_size s2 buffer
        ∙ ap
            (λ used.
              if ltb (buffer / p.buffer_size) (p.capacity * 4) && used
              then some (vfs_error, freed p.buffer_size s2 buffer)
              else none)
            same)
