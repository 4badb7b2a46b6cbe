-- ===== src/Service/Registry/Rounds.antt =====
-- What one record of the database does to the registry.
use mathlib.Core.List.{append-nil}
use carrels.Base.{
  Holds, ap, ≢→==, ==_self, listed-snoc, listed, take, length-listed, take-all, take-append_left,
  length-append, ◌++◌, keep, length, ◌&&◌, ℕ, ◌≤◌, ◌<◌, ◌≡◌, ◌≢◌, refl, sym, ◌∙◌, inl, inr, true,
  false, List, [], ◌∷◌, arith, leb, ltb, Bool-cases, if◌then◌else◌, Memory, ◌==◌, ==→≡,
}
use carrels.Service.Types.{Quota, PcState, empty_quota}
use carrels.Service.Planner.Sources.{IsStocked}
use carrels.ServiceDb.{service_type, service_pd_id}
use carrels.Service.Registry.{add_service, register}

empty_quota-IsStocked : IsStocked empty_quota
empty_quota-IsStocked = record {
  small = λ t lt. omega arith;
  stored = λ t k lt below. absurd (omega arith);
}

add_service-IsStocked :
    (q : Quota) (type service : ℕ)
    → service ≢ 0
    → IsStocked q
    → IsStocked (add_service q type service)
unfolding add_service
add_service-IsStocked q type service ne v = record {
  small = λ t lt. let h = v.small t lt in ground arith;
  stored = λ t k lt below. let h = v.stored t k lt in ground arith;
}

-- Every protocon is stocked.
abbrev AllStocked : (ℕ → PcState) → Type 0
AllStocked states = (i : ℕ) → i < 16 → IsStocked (states i).resource_quota

-- No record of the list is at address 0.
abbrev NonNull : List ℕ → Type 0
NonNull [] = Unit {0}
NonNull (s ∷ ss) = (s ≢ 0) × NonNull ss

-- The services of the list that go to the protocon under the type, in order.
abbrev pub owned : Memory → ℕ → ℕ → List ℕ → List ℕ
owned mem pc_id type = keep (λ s. service_pd_id mem s == pc_id && service_type mem s == type)

-- The services of a type that a quota holds, in order.
abbrev pub stock : Quota → ℕ → List ℕ
stock q type = listed (q.avail_service_refs type) (q.avail_service_per_type type)

add_service-stock :
    (q : Quota) (type service : ℕ)
    → q.avail_service_per_type type ≤ 8
    → stock (add_service q type service) type ≡ take 8 (stock q type ++ service ∷ [])
unfolding add_service
add_service-stock q type service small =
    let f = q.avail_service_refs type in
    let n = q.avail_service_per_type type in
    let len : length (listed f n) ≡ n = length-listed f n in
    elim (Bool-cases (leb 8 n)) [
      | inl full ↦ rw full (
          sym (
            take-append_left 8 (listed f n) (service ∷ []) (ground arith)
            ∙ take-all 8 (listed f n) (ground arith)))
      | inr room ↦
          rw (room, ==_self type)
            (listed-snoc f n service
              ∙ sym (
                  take-all 8 (listed f n ++ service ∷ [])
                    (ground (arith, length-append (listed f n) (service ∷ [])))))
    ]

add_service-stock_other :
    (q : Quota) (type service t : ℕ) → type ≢ t → stock (add_service q type service) t ≡ stock q t
unfolding add_service
add_service-stock_other q type service t ne =
    elim (Bool-cases (leb 8 (q.avail_service_per_type type))) [
      | inl full ↦ rw full refl
      | inr room ↦ rw (room, ≢→== type t ne) refl
    ]

pub stock_kept :
    (q : Quota) (type : ℕ)
    → q.avail_service_per_type type ≤ 8
    → stock q type ≡ take 8 (stock q type ++ [])
stock_kept q type small = sym (take-append_left' ∙ take-all 8 (stock q type) fits)
  where
    fits : length (stock q type) ≤ 8
    fits = omega (arith, length-listed (q.avail_service_refs type) (q.avail_service_per_type type))

    take-append_left' : take 8 (stock q type ++ []) ≡ take 8 (stock q type)
    take-append_left' = ap (take 8) (append-nil (stock q type))

pub add_service-bound :
    (q : Quota) (type service t : ℕ)
    → q.avail_service_per_type t ≤ 8
    → (add_service q type service).avail_service_per_type t ≤ 8
unfolding add_service
add_service-bound q type service t small = ground arith

-- What the owner of a service makes of it, over all types.
pub add_service-owned :
    (q : Quota) (mem : Memory) (s pc_id type : ℕ)
    → q.avail_service_per_type type ≤ 8
    → (service_pd_id mem s == pc_id) ≡ true
    → stock (add_service q (service_type mem s) s) type
      ≡ take 8 (stock q type ++ owned mem pc_id type (s ∷ []))
add_service-owned q mem s pc_id type small mine = elim (Bool-cases (service_type mem s == type)) [
  | inl same ↦ rw (mine, same, ==→≡ _ _ same) (add_service-stock q type s small)
  | inr other ↦
      rw (mine, other)
        (add_service-stock_other q (service_type mem s) s type (ground arith)
          ∙ stock_kept q type small)
]

-- One round changes the quota of the owner alone, and only for a type that there is.
pub register-quota :
    (mem : Memory) (states : ℕ → PcState) (s pc_id : ℕ)
    → Holds
        (λ states'. (states' pc_id).resource_quota ≡ (
          if ltb (service_type mem s) 8 && service_pd_id mem s == pc_id
          then add_service (states pc_id).resource_quota (service_type mem s) s
          else (states pc_id).resource_quota))
        (register mem states s)
unfolding register
register-quota mem states s pc_id = elim (Bool-cases (leb 8 (service_type mem s))) [
  | inl big ↦ let small : ltb (service_type mem s) 8 ≡ false = ground arith in rw (big, small) refl
  | inr known ↦
      let small : ltb (service_type mem s) 8 ≡ true = ground arith in
      elim (Bool-cases (ltb (service_pd_id mem s) 16)) [
        | inl inside ↦ elim (Bool-cases (service_pd_id mem s == pc_id)) [
          | inl mine ↦ rw (known, small, inside, mine, ==→≡ _ _ mine) refl
          | inr other ↦ rw (known, small, inside, other) refl
        ]
        | inr outside ↦ rw (known, outside) tt
      ]
]
