-- ===== src/Cri/Objects/View.antt =====
-- A table as a map from identifiers to objects.
use carrels.Base.{
  ℕ, ◌<◌, ◌≡◌, ◌≢◌, ◌==◌, ==→≡, ==_self, refl, sym, ◌∙◌, ap, subst, inl, inr, ◌⊎◌, if◌then◌else◌,
  true, false, Bool-cases, Option, none, some, List, arith, update, same_text, same_text_self,
  same_text→≡, IsFirstFrom, first_from-IsFirstFrom,
}
use carrels.Cri.Objects.{CriObject, Table, find, has_id, first_object}

abbrev pub at_place : Table → Option ℕ → Option CriObject
at_place table none = none
at_place table (some i) = some (table i)

-- What a client sees under an identifier.
unfoldable pub view : Table → List ℕ → Option CriObject
view table id = at_place table (find table id)

-- No two objects have one identifier.
abbrev pub Distinct : Table → Type 0
Distinct table =
    (i j : ℕ)
    → i < 32
    → j < 32
    → (table i).present ≡ true
    → (table j).present ≡ true
    → (table i).id ≡ (table j).id
    → i ≡ j

abbrev pub Seen : Table → List ℕ → Option ℕ → Type 0
Seen table id none = (j : ℕ) → j < 32 → has_id id (table j) ≡ false
Seen table id (some i) = (i < 32) × ((table i).present ≡ true) × ((table i).id ≡ id)

Seen-of :
    (table : Table) (id : List ℕ) (o : Option ℕ)
    → IsFirstFrom (λ j. has_id id (table j)) 0 32 o
    → Seen table id o
Seen-of table id none h = λ j lt. h j (omega arith) lt
Seen-of table id (some i) (low, high, passes, before) =
    (high, ground arith, same_text→≡ (table i).id id (ground arith))

pub find-Seen : (table : Table) (id : List ℕ) → Seen table id (find table id)
unfolding find
find-Seen table id =
    Seen-of table id (first_object (has_id id) table 32 0)
      (first_from-IsFirstFrom (λ j. has_id id (table j)) 32 0 32 (omega arith))

ne_of : (i j : ℕ) → (i == j) ≡ false → j ≢ i
ne_of i j h e = ground arith

has_id_of : (o : CriObject) (id : List ℕ) → o.present ≡ true → o.id ≡ id → has_id id o ≡ true
has_id_of o id p e = ground (arith, same_text_self id, ap (λ t. same_text t id) e)

view_here :
    (table : Table) (i : ℕ) (id : List ℕ)
    → Distinct table
    → i < 32
    → (table i).present ≡ true
    → (table i).id ≡ id
    → view table id ≡ some (table i)
unfolding view
view_here table i id distinct lt p e = go (find table id) (find-Seen table id)
  where
    go : (o : Option ℕ) → Seen table id o → at_place table o ≡ some (table i)
    go none h = let b = h i lt in let c = has_id_of (table i) id p e in cc
    go (some k) (k_lt, k_p, k_e) =
        ap (λ j. some (table j)) (distinct k i k_lt lt k_p p (k_e ∙ sym e))

view_nowhere :
    (table : Table) (id : List ℕ)
    → ((j : ℕ) → j < 32 → (table j).present ≡ true → (table j).id ≢ id)
    → view table id ≡ none
unfolding view
view_nowhere table id h = go (find table id) (find-Seen table id)
  where
    go : (o : Option ℕ) → Seen table id o → at_place table o ≡ none
    go none v = refl
    go (some k) (lt, p, e) = absurd (h k lt p e)

-- Place `i` is the one that an identifier may have, and gets the object `o`.
pub record IsPlaced (table : Table) (i : ℕ) (id : List ℕ) (o : CriObject) : Type 0 where
  pub inside : i < 32
  pub alone : (j : ℕ) → j < 32 → j ≢ i → (table j).present ≡ true → (table j).id ≢ id
  pub before : (table i).present ≡ true → (table i).id ≡ id
  pub after : o.present ≡ true → o.id ≡ id

-- The two places that an index may be after an update.
abbrev Hit : Table → ℕ → CriObject → ℕ → Type 0
Hit table i o j = ((i ≡ j) × (update table i o j ≡ o)) ⊎ ((j ≢ i) × (update table i o j ≡ table j))

pub hit : (table : Table) (i : ℕ) (o : CriObject) (j : ℕ) → Hit table i o j
hit table i o j = elim (Bool-cases (i == j)) [
  | inl same ↦ inl (==→≡ i j same, rw same refl)
  | inr other ↦ inr (ne_of i j other, rw other refl)
]

pub present_of : {o o' : CriObject} → o ≡ o' → o.present ≡ true → o'.present ≡ true
present_of e p = subst (λ (t : CriObject). t.present ≡ true) e p

pub id_of : {o o' : CriObject} → o ≡ o' → o.id ≡ o'.id
id_of e = ap (λ (t : CriObject). t.id) e

pub update-Distinct :
    (table : Table) (i : ℕ) (id : List ℕ) (o : CriObject)
    → Distinct table
    → IsPlaced table i id o
    → Distinct (update table i o)
update-Distinct table i id o distinct v j k lt lt' p p' e = elim (hit table i o j) [
  | inl (ij, uj) ↦ elim (hit table i o k) [
    | inl (ik, uk) ↦ sym ij ∙ ik
    | inr (nk, uk) ↦ absurd (
        v.alone k lt' nk (present_of uk p')
          (sym (id_of uk) ∙ sym e ∙ id_of uj ∙ v.after (present_of uj p)))
  ]
  | inr (nj, uj) ↦ elim (hit table i o k) [
    | inl (ik, uk) ↦ absurd (
        v.alone j lt nj (present_of uj p)
          (sym (id_of uj) ∙ e ∙ id_of uk ∙ v.after (present_of uk p')))
    | inr (nk, uk) ↦
        distinct j k lt lt' (present_of uj p) (present_of uk p') (sym (id_of uj) ∙ e ∙ id_of uk)
  ]
]

abbrev pub if_present : CriObject → Option CriObject
if_present o = if o.present then some o else none

pub if_present-some : (o : CriObject) → o.present ≡ true → some o ≡ if_present o
if_present-some o p = simp p

if_present-none : (o : CriObject) → o.present ≡ false → none ≡ if_present o
if_present-none o p = simp p

view_placed :
    (table : Table) (i : ℕ) (id : List ℕ) (o : CriObject) (q : List ℕ)
    → Distinct table
    → IsPlaced table i id o
    → q ≡ id
    → view (update table i o) q ≡ if_present o
view_placed table i id o q distinct v e = elim (Bool-cases o.present) [
  | inl there ↦
      let u : update table i o i ≡ o = rw (==_self i) refl in
      view_here (update table i o) i q (update-Distinct table i id o distinct v) v.inside
        (present_of (sym u) there) (id_of u ∙ v.after there ∙ sym e)
      ∙ ap some u
      ∙ if_present-some o there
  | inr gone ↦
      view_nowhere (update table i o) q (λ j lt p f. elim (hit table i o j) [
        | inl (ij, uj) ↦ let t = present_of uj p in cc
        | inr (nj, uj) ↦ v.alone j lt nj (present_of uj p) (sym (id_of uj) ∙ f ∙ e)
      ])
      ∙ if_present-none o gone
]

same_text-ne : (q id : List ℕ) → same_text q id ≡ false → q ≢ id
same_text-ne q id other e =
    let self = same_text_self q in let moved = ap (λ t. same_text q t) e in cc

view_others :
    (table : Table) (i : ℕ) (id : List ℕ) (o : CriObject) (q : List ℕ)
    → Distinct table
    → IsPlaced table i id o
    → q ≢ id
    → view (update table i o) q ≡ view table q
unfolding view
view_others table i id o q distinct v differ = go (find table q) (find-Seen table q)
  where
    go : (found : Option ℕ) → Seen table q found → view (update table i o) q ≡ at_place table found
    go none unseen = view_nowhere (update table i o) q (λ j lt p f. elim (hit table i o j) [
      | inl (ij, uj) ↦ differ (sym f ∙ id_of uj ∙ v.after (present_of uj p))
      | inr (nj, uj) ↦
          let a = has_id_of (table j) q (present_of uj p) (sym (id_of uj) ∙ f) in
          let b = unseen j lt in cc
    ])
    go (some k) (lt, p, e) = elim (hit table i o k) [
      | inl (ik, uk) ↦
          let same : table k ≡ table i = ap table (sym ik) in
          absurd (differ (sym e ∙ id_of same ∙ v.before (present_of same p)))
      | inr (nk, uk) ↦
          view_here (update table i o) k q (update-Distinct table i id o distinct v) lt
            (present_of (sym uk) p) (id_of uk ∙ e)
          ∙ ap some uk
    ]

-- The map changes at that identifier alone.
pub view-update :
    (table : Table) (i : ℕ) (id : List ℕ) (o : CriObject) (q : List ℕ)
    → Distinct table
    → IsPlaced table i id o
    → view (update table i o) q ≡ (if same_text q id then if_present o else view table q)
view-update table i id o q distinct v = elim (Bool-cases (same_text q id)) [
  | inl named ↦ let e = same_text→≡ q id named in rw named (view_placed table i id o q distinct v e)
  | inr other ↦ rw other (view_others table i id o q distinct v (same_text-ne q id other))
]
