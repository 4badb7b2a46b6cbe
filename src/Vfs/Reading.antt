-- ===== src/Vfs/Reading.antt =====
-- The loop that reads a whole file.
use carrels.Base.{
  ℕ, zero, suc, ◌+◌, ◌<◌, ◌≡◌, ◌==◌, ==_self, ap, false, some, List, [], ◌∷◌, ◌++◌, arith, length,
  length-append, ◌>>=◌,
}
use carrels.Fs.{FsCmpl, FsClient}
use carrels.Vfs.{
  FsProtocol, openfile, closefile, pico_vfs_readfile2buf, readfile, read_from, vfs_error,
}

module _ (p : FsProtocol) (blocking_wait : FsClient → FsClient) (fuel : ℕ) (uninitialised : FsCmpl)
    (fd : ℕ) where
  -- From `pos` on the file system serves these bytes: in chunks that are not empty, up to an empty one.
  pub data Serves : FsClient → ℕ → List ℕ → FsClient → Type 0 where
    at_end :
        {s s' : FsClient} {pos : ℕ}
        → pos < vfs_error
        → readfile p blocking_wait fuel uninitialised s p.buffer_size fd pos ≡ some (pos, [], s')
        → Serves s pos [] s'
    chunk :
        {s s1 s' : FsClient} {pos : ℕ} {bytes : List ℕ} (c : ℕ) (cs : List ℕ)
        → pos + length (c ∷ cs) < vfs_error
        → readfile p blocking_wait fuel uninitialised s p.buffer_size fd pos
          ≡ some (pos + length (c ∷ cs), c ∷ cs, s1)
        → Serves s1 (pos + length (c ∷ cs)) bytes s'
        → Serves s pos (c ∷ cs ++ bytes) s'

  -- The loop ends after at most one round for each byte and one more, with the whole file.
  pub read_from-Serves :
      (rounds : ℕ) {s s' : FsClient} {pos : ℕ} {bytes : List ℕ}
      → Serves s pos bytes s'
      → length bytes < rounds
      → read_from p blocking_wait fuel rounds uninitialised s fd pos
        ≡ some (some (pos + length bytes, bytes), s')
  unfolding read_from
  read_from-Serves zero served h = absurd (omega arith)
  read_from-Serves (suc n) {s} {s'} {pos} (at_end low e) h =
      let fine : (pos == vfs_error) ≡ false = ground arith in
      rw (◌>>=◌, e, fine, ==_self pos) (ap (λ q. some (some (q, []), s')) (omega arith))
  read_from-Serves (suc n) {s} {s'} {pos} (chunk {s1 = s1} {bytes = bytes} c cs low e rest) h =
      let total = length-append (c ∷ cs) bytes in
      let fine : (pos + length (c ∷ cs) == vfs_error) ≡ false = ground arith in
      let moved : (pos + length (c ∷ cs) == pos) ≡ false = ground arith in
      let later = read_from-Serves n rest (omega arith) in
      rw (◌>>=◌, e, fine, moved, later)
        (ap (λ q. some (some (q, c ∷ cs ++ bytes), s')) (omega (arith, total)))

  -- What a file that has been opened gives. If the file system then serves its bytes in chunks that are
  -- not empty, up to an empty one, as many rounds as there are bytes and one more are enough: the loop
  -- ends, the whole file is in the buffer in order, its length is returned, and the file is closed.
  pub pico_vfs_readfile2buf-reads :
      (rounds : ℕ) (s s1 s2 s3 : FsClient) (path bytes : List ℕ)
      → openfile p blocking_wait fuel uninitialised s path ≡ some (fd, s1)
      → (fd == vfs_error) ≡ false
      → Serves s1 0 bytes s2
      → closefile p blocking_wait fuel uninitialised s2 fd ≡ some s3
      → length bytes < rounds
      → pico_vfs_readfile2buf p blocking_wait fuel rounds uninitialised s path
        ≡ some (some (length bytes, bytes), s3)
  unfolding pico_vfs_readfile2buf
  pico_vfs_readfile2buf-reads rounds s s1 s2 s3 path bytes opened valid served closed enough =
      let read = read_from-Serves rounds served enough in
      rw (◌>>=◌, opened, valid, read, closed) (ap (λ n. some (some (n, bytes), s3)) (omega arith))
