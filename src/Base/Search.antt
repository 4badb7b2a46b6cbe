-- ===== src/Base/Search.antt =====
-- The loops that look for the first index that passes a test.
use Prim.Native.Nat.{ℕ, zero, suc, ◌+◌, ◌≤◌, ◌<◌}
use mathlib.Core.Path.{◌≡◌}
use mathlib.Core.Logic.{inl, inr}
use mathlib.Core.Bool.{Bool, true, false}
use mathlib.Core.Option.{Option, none, some}
use native.Mathlib.Omega.{arith}
use carrels.Base.Compare.{◌==◌, if◌then◌else◌, Bool-cases}

-- The first of `n` indices from `i` on that passes.
unfoldable pub first_from : (ℕ → Bool) → ℕ → ℕ → Option ℕ
first_from test zero i = none
first_from test (suc n) i = let rest = first_from test n (i + 1) in if test i then some i else rest

abbrev pub IsFirstFrom : (ℕ → Bool) → ℕ → ℕ → Option ℕ → Type 0
IsFirstFrom test lo hi none = (j : ℕ) → lo ≤ j → j < hi → test j ≡ false
IsFirstFrom test lo hi (some i) =
    (lo ≤ i) × (i < hi) × (test i ≡ true) × ((j : ℕ) → lo ≤ j → j < i → test j ≡ false)

IsFirstFrom-skip :
    (test : ℕ → Bool) (lo hi : ℕ) (o : Option ℕ)
    → test lo ≡ false
    → IsFirstFrom test (lo + 1) hi o
    → IsFirstFrom test lo hi o
IsFirstFrom-skip test lo hi none here h = λ j low high. elim (Bool-cases (lo == j)) [
  | inl same ↦ ground arith
  | inr later ↦ h j (ground arith) high
]
IsFirstFrom-skip test lo hi (some i) here (low, high, passes, before) = (
  omega arith,
  high,
  passes,
  λ j l r. elim (Bool-cases (lo == j)) [
    | inl same ↦ ground arith
    | inr later ↦ before j (ground arith) r
  ],
)

pub first_from-IsFirstFrom :
    (test : ℕ → Bool) (n lo hi : ℕ) → lo + n ≡ hi → IsFirstFrom test lo hi (first_from test n lo)
unfolding first_from
first_from-IsFirstFrom test zero lo hi e = λ j low high. absurd (omega arith)
first_from-IsFirstFrom test (suc n) lo hi e = elim (Bool-cases (test lo)) [
  | inl passes ↦ rw passes (omega arith, omega arith, passes, λ j low high. absurd (omega arith))
  | inr fails ↦ rw fails (
      IsFirstFrom-skip test lo hi (first_from test n (lo + 1)) fails
        (first_from-IsFirstFrom test n (lo + 1) hi (omega arith)))
]
