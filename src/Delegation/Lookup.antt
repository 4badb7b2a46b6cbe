-- ===== src/Delegation/Lookup.antt =====
-- `dlg_find_delegator`, which the loader's set-up calls for the chosen protocon.
use carrels.Base.{
  ℕ, zero, suc, ◌<◌, ◌≡◌, ◌≢◌, refl, inl, inr, ◌==◌, ==→≡, Bool-cases, Option, none, some, List, [],
  ◌∷◌, arith, get_elem?, Memory,
}
use carrels.Delegation.{dlg_find_delegator, delegator_pd_id}

-- No record of the list is for this protection domain.
abbrev pub Lacks : Memory → ℕ → List ℕ → Type 0
Lacks mem pd_id [] = Unit {0}
Lacks mem pd_id (d ∷ ds) = (delegator_pd_id mem d ≢ pd_id) × Lacks mem pd_id ds

-- The first record of the list for this protection domain, and none where it has none.
abbrev pub IsFirst : Memory → ℕ → List ℕ → Option ℕ → Type 0
IsFirst mem pd_id ds none = Lacks mem pd_id ds
IsFirst mem pd_id ds (some d) =
    (i : ℕ) × (get_elem? ds i ≡ some d)
    × (delegator_pd_id mem d ≡ pd_id)
    × ((j e : ℕ) → j < i → get_elem? ds j ≡ some e → delegator_pd_id mem e ≢ pd_id)

IsFirst-cons :
    (mem : Memory) (pd_id x : ℕ) (ds : List ℕ) (o : Option ℕ)
    → delegator_pd_id mem x ≢ pd_id
    → IsFirst mem pd_id ds o
    → IsFirst mem pd_id (x ∷ ds) o
IsFirst-cons mem pd_id x ds none ne f = (ne, f)
IsFirst-cons mem pd_id x ds (some d) ne (i, at, same, before) = (suc i, at, same, earlier)
  where
    earlier : (j e : ℕ) → j < suc i → get_elem? (x ∷ ds) j ≡ some e → delegator_pd_id mem e ≢ pd_id
    earlier zero e lt h = ground arith
    earlier (suc j) e lt h = before j e (omega arith) h

-- `dlg_find_delegator` returns the first record for the protection domain, and NULL exactly when
-- no record is for it.
pub dlg_find_delegator-IsFirst :
    (mem : Memory) (ds : List ℕ) (pd_id : ℕ)
    → IsFirst mem pd_id ds (dlg_find_delegator mem ds pd_id)
unfolding dlg_find_delegator
dlg_find_delegator-IsFirst mem [] pd_id = tt
dlg_find_delegator-IsFirst mem (d ∷ ds) pd_id = elim (Bool-cases (delegator_pd_id mem d == pd_id)) [
  | inl same ↦ rw same (zero, refl, ==→≡ _ _ same, λ j e lt. absurd (omega arith))
  | inr other ↦
      rw other
        (IsFirst-cons mem pd_id d ds _ (ground arith) (dlg_find_delegator-IsFirst mem ds pd_id))
]
