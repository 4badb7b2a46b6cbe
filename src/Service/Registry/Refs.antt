-- ===== src/Service/Registry/Refs.antt =====
-- What the registry holds after `service_registry_create`.
use mathlib.Core.List.{append_assoc}
use carrels.Base.{
  Holds, Holds-some, Holds-map, subst, ap, take, take-take_append, ◌++◌, ◌&&◌, ℕ, ◌≤◌, ◌<◌, ◌≡◌,
  sym, ◌∙◌, inl, inr, false, Option, none, some, List, [], ◌∷◌, arith, ltb, Bool-cases, ◌>>=◌,
  if◌then◌else◌, Memory, ◌==◌,
}
use carrels.Service.Types.{Quota, PcState, empty_quota}
use carrels.ServiceDb.{SvcDb, service_type, service_pd_id}
use carrels.Service.Registry.{add_service, register, register_all, service_registry_create}
use carrels.Service.Registry.Rounds.{
  owned, stock, stock_kept, add_service-bound, add_service-owned, register-quota,
}

-- The quota `q'` is `q` after the services have been offered to it under the type: it holds what it
-- held and behind that, in order, as many of them as there is room for.
abbrev pub Offered : Quota → Quota → ℕ → List ℕ → Type 0
Offered q q' type ss =
    (stock q' type ≡ take 8 (stock q type ++ ss)) × (q'.avail_service_per_type type ≤ 8)

quota-Offered :
    (mem : Memory) (q : Quota) (s pc_id type : ℕ)
    → type < 8
    → q.avail_service_per_type type ≤ 8
    → Offered q
        (if ltb (service_type mem s) 8 && service_pd_id mem s == pc_id
          then add_service q (service_type mem s) s
          else q)
        type
        (owned mem pc_id type (s ∷ []))
quota-Offered mem q s pc_id type lt small = elim (Bool-cases (service_pd_id mem s == pc_id)) [
  | inl mine ↦ elim (Bool-cases (ltb (service_type mem s) 8)) [
    | inl known ↦
        rw (mine, known)
          (
            rw mine at (add_service-owned q mem s pc_id type small mine),
            add_service-bound q (service_type mem s) s type small,
          )
    | inr unknown ↦
        let differs : (service_type mem s == type) ≡ false = ground arith in
        rw (mine, unknown, differs) (stock_kept q type small, small)
  ]
  | inr other ↦ elim (Bool-cases (ltb (service_type mem s) 8)) [
    | inl known ↦ rw (other, known) (stock_kept q type small, small)
    | inr unknown ↦ rw (other, unknown) (stock_kept q type small, small)
  ]
]

Offered-trans :
    (q q' q'' : Quota) (type : ℕ) (xs ys : List ℕ)
    → Offered q q' type xs
    → Offered q' q'' type ys
    → Offered q q'' type (xs ++ ys)
Offered-trans q q' q'' type xs ys (e, small) (e', small') = (
  e'
      ∙ ap (λ l. take 8 (l ++ ys)) e
      ∙ take-take_append 8 (stock q type ++ xs) ys
      ∙ ap (take 8) (append_assoc (stock q type) xs ys),
  small',
)

owned-cons :
    (mem : Memory) (pc_id type s : ℕ) (ss : List ℕ)
    → owned mem pc_id type (s ∷ ss) ≡ owned mem pc_id type (s ∷ []) ++ owned mem pc_id type ss
owned-cons mem pc_id type s ss = ground arith

register_all-Offered :
    (mem : Memory) (ss : List ℕ) (states : ℕ → PcState) (pc_id type : ℕ)
    → type < 8
    → (states pc_id).resource_quota.avail_service_per_type type ≤ 8
    → Holds
        (λ states'.
          Offered
            (states pc_id).resource_quota
            (states' pc_id).resource_quota
            type
            (owned mem pc_id type ss))
        (register_all mem ss states)
unfolding register_all
register_all-Offered mem [] states pc_id type lt small =
    (stock_kept (states pc_id).resource_quota type small, small)
register_all-Offered mem (s ∷ ss) states pc_id type lt small =
    step (register mem states s) (register-quota mem states s pc_id)
      (λ mid. register_all-Offered mem ss mid pc_id type lt)
  where
    q : Quota
    q = (states pc_id).resource_quota

    next : Quota
    next =
        if ltb (service_type mem s) 8 && service_pd_id mem s == pc_id
        then add_service q (service_type mem s) s
        else q

    step :
        (o : Option (ℕ → PcState))
        → Holds (λ mid. (mid pc_id).resource_quota ≡ next) o
        → ((mid : ℕ → PcState)
            → (mid pc_id).resource_quota.avail_service_per_type type ≤ 8
            → Holds
                (λ states'.
                  Offered
                    (mid pc_id).resource_quota
                    (states' pc_id).resource_quota
                    type
                    (owned mem pc_id type ss))
                (register_all mem ss mid))
        → Holds
            (λ states'.
              Offered q (states' pc_id).resource_quota type (owned mem pc_id type (s ∷ ss)))
            (o >>= register_all mem ss)
    step none h ih = tt
    step (some mid) h ih =
        let first =
          subst (λ r. Offered q r type (owned mem pc_id type (s ∷ []))) (sym h)
            (quota-Offered mem q s pc_id type lt small) in
        Holds-map _ _ (register_all mem ss mid)
          (λ last later.
            subst (λ l. Offered q (last pc_id).resource_quota type l)
              (sym (owned-cons mem pc_id type s ss))
              (Offered-trans q (mid pc_id).resource_quota (last pc_id).resource_quota type
                (owned mem pc_id type (s ∷ [])) (owned mem pc_id type ss) first later))
          (ih mid first.1)

-- Where no protocon has a service yet, `service_registry_create` gives each protocon, under each
-- type, the first eight services of the database that are its own and of that type, in the
-- database's order, if it returns: it does unless a record names a protocon past the array.
pub service_registry_create-stock :
    (mem : Memory) (db : SvcDb) (states states' : ℕ → PcState) (pc_id type : ℕ)
    → type < 8
    → (states pc_id).resource_quota ≡ empty_quota
    → service_registry_create mem (some db) states ≡ some states'
    → stock (states' pc_id).resource_quota type ≡ take 8 (owned mem pc_id type db.services)
unfolding service_registry_create
service_registry_create-stock mem db states states' pc_id type lt none_yet h =
    let none_of_type = ap (λ (q : Quota). q.avail_service_per_type type) none_yet in
    let (given, small) =
      Holds-some _ (register_all mem db.services states)
        (register_all-Offered mem db.services states pc_id type lt (omega (arith, none_of_type)))
        h in
    given ∙ ap (λ (q : Quota). take 8 (stock q type ++ owned mem pc_id type db.services)) none_yet
