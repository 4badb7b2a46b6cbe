-- ===== src/Cri/Dispatch/Numbered.antt =====
-- The identifiers that src/orchestrator/cri_runtime.c hands out, by their numbers.
use carrels.Base.{
  Option-cases, ◌⊎◌, ℕ, ◌+◌, ◌^◌, ◌≤◌, ◌<◌, ◌≡◌, ◌==◌, refl, sym, ◌∙◌, subst, fun_ext, inl, inr,
  true, false, Bool-cases, Option, none, some, List, arith, update, IsFirstFrom,
  first_from-IsFirstFrom,
}
use carrels.Cri.Objects.{find, CriObject, zero_object, Table, allocate, first_object, is_free}
use carrels.Cri.Objects.View.{
  find-Seen, Distinct, Seen, IsPlaced, update-Distinct, hit, present_of, id_of,
}

-- One of the identifiers of the numbers up to `n`.
pub record IsIssued (name : ℕ → List ℕ) (n : ℕ) (id : List ℕ) : Type 0 where
  pub number : ℕ
  pub below : number ≤ n
  pub named : id ≡ name number

-- The objects of a table have identifiers that have been issued, and no two have the same.
pub record IsNumbered (name : ℕ → List ℕ) (n : ℕ) (table : Table) : Type 0 where
  pub distinct : Distinct table
  pub issued : (i : ℕ) → i < 32 → (table i).present ≡ true → IsIssued name n (table i).id

-- Different numbers have different names.
abbrev pub AreNames : (ℕ → List ℕ) → Type 0
AreNames name = (a b : ℕ) → a < 2 ^ 64 → b < 2 ^ 64 → name a ≡ name b → a ≡ b

later-IsIssued :
    (name : ℕ → List ℕ) (n m : ℕ) (id : List ℕ) → n ≤ m → IsIssued name n id → IsIssued name m id
later-IsIssued name n m id h v =
    let below = v.below in record { number = v.number; below = omega arith; named = v.named }

pub later-IsNumbered :
    (name : ℕ → List ℕ) (n m : ℕ) (table : Table)
    → n ≤ m
    → IsNumbered name n table
    → IsNumbered name m table
later-IsNumbered name n m table h v = record {
  distinct = v.distinct;
  issued = λ i lt p. later-IsIssued name n m (table i).id h (v.issued i lt p);
}

pub update-IsNumbered :
    (name : ℕ → List ℕ) (n : ℕ) (table : Table) (i : ℕ) (id : List ℕ) (o : CriObject)
    → IsNumbered name n table
    → IsPlaced table i id o
    → (o.present ≡ true → IsIssued name n o.id)
    → IsNumbered name n (update table i o)
update-IsNumbered name n table i id o v placed fresh = record {
  distinct = update-Distinct table i id o v.distinct placed;
  issued = λ j lt p. elim (hit table i o j) [
    | inl (ij, uj) ↦ subst (IsIssued name n) (sym (id_of uj)) (fresh (present_of uj p))
    | inr (nj, uj) ↦ subst (IsIssued name n) (sym (id_of uj)) (v.issued j lt (present_of uj p))
  ];
}

-- An object that has been found may be replaced by one of the same identifier, or by none.
pub found-IsPlaced :
    (table : Table) (i : ℕ) (id : List ℕ) (o : CriObject)
    → Distinct table
    → Seen table id (some i)
    → (o.present ≡ true → o.id ≡ id)
    → IsPlaced table i id o
found-IsPlaced table i id o distinct (lt, p, e) after = record {
  inside = lt;
  alone = λ j j_lt differ jp same. differ (distinct j i j_lt lt jp p (same ∙ sym e));
  before = λ h. e;
  after = after;
}

-- A free place, where there is one.
abbrev pub IsFreePlace : Table → Option (ℕ × Table) → Type 0
IsFreePlace table none = Unit
IsFreePlace table (some (i, table')) =
    (i < 32)
    × ((table i).present ≡ false)
    × (table' ≡ update table i (record zero_object { present = true }))

allocate-IsFreePlace : (table : Table) → IsFreePlace table (allocate table)
unfolding allocate
allocate-IsFreePlace table =
    go (first_object is_free table 32 0)
      (first_from-IsFirstFrom (λ j. is_free (table j)) 32 0 32 (omega arith))
  where
    go :
        (o : Option ℕ)
        → IsFirstFrom (λ j. is_free (table j)) 0 32 o
        → IsFreePlace table (elim o [
          | none ↦ none
          | some i ↦ some (i, update table i (record zero_object { present = true }))
        ])
    go none h = tt
    go (some i) (low, high, free, before) = (high, ground arith, refl)

-- The identifier of the next number names nothing yet.
pub fresh-IsPlaced :
    (name : ℕ → List ℕ) (n : ℕ) (table : Table) (i : ℕ) (o : CriObject)
    → AreNames name
    → n + 1 < 2 ^ 64
    → IsNumbered name n table
    → i < 32
    → (table i).present ≡ false
    → o.id ≡ name (n + 1)
    → IsPlaced table i (name (n + 1)) o
fresh-IsPlaced name n table i o names small v lt free e = record {
  inside = lt;
  alone = λ j j_lt differ p same.
      let issued = v.issued j j_lt p in
      let below = issued.below in
      let equal = names issued.number (n + 1) (omega arith) small (sym issued.named ∙ same) in
      absurd (omega arith);
  before = λ p. absurd (let f = free in cc);
  after = λ h. e;
}

pub update-update :
    (table : Table) (i : ℕ) (a b : CriObject) → update (update table i a) i b ≡ update table i b
update-update table i a b =
    fun_ext
      (λ j. elim (Bool-cases (i == j)) [ inl same ↦ rw same refl | inr other ↦ rw other refl ])

-- What a search for an identifier may find.
pub find-cases :
    (table : Table) (id : List ℕ)
    → ((find table id ≡ none) × Seen table id none)
      ⊎ ((i : ℕ) × (find table id ≡ some i) × Seen table id (some i))
find-cases table id = elim (Option-cases (find table id)) [
  | inl e ↦ inl (e, subst (Seen table id) e (find-Seen table id))
  | inr (i, e) ↦ inr (i, e, subst (Seen table id) e (find-Seen table id))
]

-- What the search for a free place may give.
pub allocate-cases :
    (table : Table)
    → (allocate table ≡ none)
      ⊎ ((p : ℕ × Table) × (allocate table ≡ some p) × IsFreePlace table (some p))
allocate-cases table = elim (Option-cases (allocate table)) [
  | inl e ↦ inl e
  | inr (p, e) ↦ inr (p, e, subst (IsFreePlace table) e (allocate-IsFreePlace table))
]
