-- ===== src/Cri/Dispatch/Listing.antt =====
-- The list requests of src/orchestrator/cri_runtime.c, asked one after another as its cursor is meant
-- to be used.
use carrels.Base.{
  ℕ, zero, suc, ◌+◌, ◌-◌, ◌<◌, ◌≡◌, refl, sym, ◌∙◌, ap, inl, inr, if◌then◌else◌, true, false,
  Bool-cases, Option, none, some, List, [], ◌∷◌, arith, first_from,
}
use carrels.Orchestrator.State.{OrchestratorEnv}
use carrels.Cri.Objects.{
  CriObject, zero_object, Table, listed_as, first_object, is_present, list_one,
}
use carrels.Cri.State.{list_container, System}
use carrels.Cri.Dispatch.{dispatch, dispatch_container}

abbrev in_front : CriObject → Option (List CriObject) → Option (List CriObject)
in_front o none = none
in_front o (some os) = some (o ∷ os)

-- A client that asks until no object comes, each time with the cursor of the last response.
unfoldable pub ask_all : (ℕ → CriObject) → ℕ → ℕ → Option (List CriObject)
ask_all ask zero cursor = none
ask_all ask (suc fuel) cursor =
    let rest = ask_all ask fuel (ask cursor).cursor in
    if (ask cursor).present then in_front (ask cursor) rest else some []

-- The objects of the `n` places from `i` on, in order.
unfoldable pub objects_from : Table → ℕ → ℕ → List CriObject
objects_from table zero i = []
objects_from table (suc n) i =
    let rest = objects_from table n (i + 1) in
    if (table i).present then record (table i) { cursor = i + 1 } ∷ rest else rest

first_object-here :
    (table : Table) (n i : ℕ)
    → (table i).present ≡ true
    → first_object is_present table (suc n) i ≡ some i
unfolding first_from
first_object-here table n i here = simp here

first_object-skip :
    (table : Table) (n i : ℕ)
    → (table i).present ≡ false
    → first_object is_present table (suc n) i ≡ first_object is_present table n (i + 1)
unfolding first_from
first_object-skip table n i gone = simp gone

list_one-here :
    (table : Table) (i : ℕ)
    → i < 32
    → (table i).present ≡ true
    → list_one table i ≡ record (table i) { cursor = i + 1 }
unfolding list_one
list_one-here table i lt here =
    let e : 32 - i ≡ suc (31 - i) = omega arith in
    ap (λ n. listed_as table (first_object is_present table n i)) e
    ∙ ap (listed_as table) (first_object-here table (31 - i) i here)

list_one-skip :
    (table : Table) (i : ℕ)
    → i < 32
    → (table i).present ≡ false
    → list_one table i ≡ list_one table (i + 1)
unfolding list_one
list_one-skip table i lt gone =
    let e : 32 - i ≡ suc (32 - (i + 1)) = omega arith in
    ap (λ n. listed_as table (first_object is_present table n i)) e
    ∙ ap (listed_as table) (first_object-skip table (32 - (i + 1)) i gone)

list_one-end : (table : Table) → list_one table 32 ≡ record zero_object { cursor = 32 }
unfolding list_one first_from
list_one-end table = refl

ask_all-skip :
    (table : Table) (fuel i : ℕ)
    → list_one table i ≡ list_one table (i + 1)
    → ask_all (list_one table) fuel i ≡ ask_all (list_one table) fuel (i + 1)
unfolding ask_all
ask_all-skip table zero i e = refl
ask_all-skip table (suc fuel) i e =
    ap
      (λ (o : CriObject).
        if o.present then in_front o (ask_all (list_one table) fuel o.cursor) else some [])
      e

ask_all-here :
    (table : Table) (fuel i : ℕ) (o : CriObject)
    → list_one table i ≡ o
    → o.present ≡ true
    → ask_all (list_one table) (suc fuel) i ≡ in_front o (ask_all (list_one table) fuel o.cursor)
unfolding ask_all
ask_all-here table fuel i o e here =
    ap
      (λ (o : CriObject).
        if o.present then in_front o (ask_all (list_one table) fuel o.cursor) else some [])
      e
    ∙ ap (λ b. if b then in_front o (ask_all (list_one table) fuel o.cursor) else some []) here

ask_all-objects :
    (table : Table) (n fuel i : ℕ)
    → i + n ≡ 32
    → n < fuel
    → ask_all (list_one table) fuel i ≡ some (objects_from table n i)
unfolding ask_all objects_from
ask_all-objects table n zero i at h = absurd (omega arith)
ask_all-objects table zero (suc fuel) i at h =
    let e : i ≡ 32 = omega arith in
    ap (ask_all (list_one table) (suc fuel)) e
    ∙ ap
        (λ (o : CriObject).
          if o.present then in_front o (ask_all (list_one table) fuel o.cursor) else some [])
        (list_one-end table)
ask_all-objects table (suc n) (suc fuel) i at h = elim (Bool-cases (table i).present) [
  | inl here ↦
      ask_all-here table fuel i (record (table i) { cursor = i + 1 })
        (list_one-here table i (omega arith) here) here
      ∙ ap (in_front (record (table i) { cursor = i + 1 }))
          (ask_all-objects table n fuel (i + 1) (omega arith) (omega arith))
      ∙ ap
          (λ b. some (
            if b
            then record (table i) { cursor = i + 1 } ∷ objects_from table n (i + 1)
            else objects_from table n (i + 1)))
          (sym here)
  | inr gone ↦
      ask_all-skip table (suc fuel) i (list_one-skip table i (omega arith) gone)
      ∙ ask_all-objects table n (suc fuel) (i + 1) (omega arith) (omega arith)
      ∙ ap
          (λ b. some (
            if b
            then record (table i) { cursor = i + 1 } ∷ objects_from table n (i + 1)
            else objects_from table n (i + 1)))
          (sym gone)
]

-- Asking for the containers from cursor 0 on ends with the 33rd request at the latest, changes nothing,
-- and gives every container exactly once, in the order of the table, each with the cursor behind it.
pub dispatch_container-lists :
    (format_id : ℕ → List ℕ) (env : OrchestratorEnv) (s : System) (request : CriObject)
    → (ask_all
          (λ cursor.
            (dispatch format_id env s (record request { cursor = cursor }) list_container).1)
          33
          0
        ≡ some (objects_from s.runtime.containers 32 0))
      × ((cursor : ℕ)
          → (dispatch format_id env s (record request { cursor = cursor }) list_container).2 ≡ s)
unfolding dispatch dispatch_container
dispatch_container-lists format_id env s request =
    (ask_all-objects s.runtime.containers 32 33 0 (omega arith) (omega arith), λ cursor. refl)
