-- ===== src/Fs/Completions.antt =====
-- What a notification of the file system server leaves in the requests.
use carrels.Base.{
  ℕ, ◌<◌, ◌≡◌, refl, ap, ◌∙◌, inl, inr, if◌then◌else◌, Bool, false, ◌||◌, ◌==◌, Bool-cases, List,
  [], ◌∷◌, leb, arith,
}
use carrels.Fs.{FsClient, FsCmpl, process_completion, process_all, fs_process_completions}

-- The last completion of a list that is for the request, and `before` where none is.
abbrev pub last_for : List FsCmpl → ℕ → FsCmpl → FsCmpl
last_for [] i before = before
last_for (c ∷ cs) i before = last_for cs i (if c.id == i then c else before)

abbrev pub mentions : List FsCmpl → ℕ → Bool
mentions [] i = false
mentions (c ∷ cs) i = c.id == i || mentions cs i

-- The requests that the completions are for are complete, with the last one that came for each.
pub record IsProcessed (capacity : ℕ) (cs : List FsCmpl) (s s' : FsClient) : Type 0 where
  pub complete :
      (i : ℕ) → i < capacity → s'.request_complete i ≡ (mentions cs i || s.request_complete i)
  pub completion :
      (i : ℕ) → i < capacity → s'.request_completion i ≡ last_for cs i (s.request_completion i)
  pub used : s'.request_used ≡ s.request_used
  pub buffers : s'.buffer_used ≡ s.buffer_used

process_completion-IsProcessed :
    (capacity size : ℕ) (c : FsCmpl) (s : FsClient)
    → IsProcessed capacity (c ∷ []) s (process_completion capacity size s c)
unfolding process_completion
process_completion-IsProcessed capacity size c s = elim (Bool-cases (leb capacity c.id)) [
  | inl bad ↦ rw bad (record {
    complete = λ i lt. ground arith;
    completion = λ i lt. ground arith;
    used = refl;
    buffers = refl;
  })
  | inr good ↦ rw good (record {
    complete = λ i lt. ground arith;
    completion = λ i lt. ground arith;
    used = refl;
    buffers = refl;
  })
]

process_all-IsProcessed :
    (capacity size : ℕ) (cs : List FsCmpl) (s : FsClient)
    → IsProcessed capacity cs s (process_all capacity size s cs)
unfolding process_all
process_all-IsProcessed capacity size [] s = record {
  complete = λ i lt. refl;
  completion = λ i lt. refl;
  used = refl;
  buffers = refl;
}
process_all-IsProcessed capacity size (c ∷ cs) s =
    let mid = process_completion capacity size s c in
    let first = process_completion-IsProcessed capacity size c s in
    let rest = process_all-IsProcessed capacity size cs mid in
    record {
      complete = λ i lt. rest.complete i lt ∙ (let e = first.complete i lt in ground arith);
      completion = λ i lt. rest.completion i lt ∙ ap (last_for cs i) (first.completion i lt);
      used = rest.used ∙ first.used;
      buffers = rest.buffers ∙ first.buffers;
    }

-- A notification of the server consumes the whole queue: exactly the requests that a completion is
-- for become complete, each with the last completion that came for it, and which requests and
-- buffers are in use does not change. Completions with a bad number change nothing.
pub fs_process_completions-IsProcessed :
    (capacity size : ℕ) (s : FsClient)
    → IsProcessed capacity s.completion_queue s (fs_process_completions capacity size s)
      × ((fs_process_completions capacity size s).completion_queue ≡ [])
unfolding fs_process_completions
fs_process_completions-IsProcessed capacity size s =
    let v = process_all-IsProcessed capacity size s.completion_queue s in
    (
      record {
        complete = v.complete;
        completion = v.completion;
        used = v.used;
        buffers = v.buffers;
      },
      refl,
    )
