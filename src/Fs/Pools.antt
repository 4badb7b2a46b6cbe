-- ===== src/Fs/Pools.antt =====
-- The pools of requests and of buffers.
use carrels.Base.{
  IsFirstFrom, first_from-IsFirstFrom, not, ℕ, ◌<◌, ◌≡◌, refl, true, false, Option, none, some,
  arith, ltb, update, subst, if◌then◌else◌, ◌==◌, ◌>>=◌,
}
use carrels.Fs.{FsClient, first_unused, fs_request_allocate, fs_request_free}

-- What an allocation of a request returns.
abbrev pub Allocated : ℕ → FsClient → Option (ℕ × FsClient) → Type 0
Allocated capacity s none = (j : ℕ) → j < capacity → s.request_used j ≡ true
Allocated capacity s (some (i, s')) =
    (i < capacity)
    × (s.request_used i ≡ false)
    × ((j : ℕ) → s'.request_used j ≡ (if i == j then true else s.request_used j))

Allocated-of :
    (capacity : ℕ) (s : FsClient) (o : Option ℕ)
    → IsFirstFrom (λ j. not (s.request_used j)) 0 capacity o
    → Allocated capacity s
        (o >>= λ i. some (i, record s { request_used = update s.request_used i true }))
Allocated-of capacity s none h = λ j lt. let b = h j (omega arith) lt in ground arith
Allocated-of capacity s (some i) (low, high, free, before) = (high, ground arith, λ j. ground arith)

-- An allocation takes a request that was not in use and marks it alone; it fails exactly when all
-- requests are in use.
pub fs_request_allocate-Allocated :
    (capacity size : ℕ) (s : FsClient) → Allocated capacity s (fs_request_allocate capacity size s)
unfolding fs_request_allocate
fs_request_allocate-Allocated capacity size s =
    Allocated-of capacity s (first_unused s.request_used capacity 0)
      (first_from-IsFirstFrom _ capacity 0 capacity (omega arith))

-- A request that has just been allocated can be freed, and then exactly the requests are in use
-- that were in use before.
pub fs_request_free-allocate :
    (capacity size : ℕ) (s s' : FsClient) (i j : ℕ)
    → fs_request_allocate capacity size s ≡ some (i, s')
    → (s'' : FsClient) × (fs_request_free capacity size s' i ≡ some s'')
      × (s''.request_used j ≡ s.request_used j)
unfolding fs_request_free
fs_request_free-allocate capacity size s s' i j e =
    let (small, free, used) : Allocated capacity s (some (i, s')) =
      subst (Allocated capacity s) e (fs_request_allocate-Allocated capacity size s) in
    let inside : ltb i capacity ≡ true = ground arith in
    let mine : s'.request_used i ≡ true = let u = used i in ground arith in
    rw (inside, mine) (_, refl, let u = used j in ground arith)
