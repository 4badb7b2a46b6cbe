-- ===== src/Service/Planner/Sources.antt =====
-- Which service each entry of a request is given.
use carrels.Base.{
  ℕ, zero, suc, ◌+◌, ◌-◌, ◌≤◌, ◌<◌, ◌≡◌, ◌≢◌, refl, sym, ◌∙◌, ap, subst, true, false, Option, none,
  some, List, [], ◌∷◌, arith, length, get_elem?, take, update, ==_self, ◌==◌, ◌>>=◌, lt→ltb, ltb,
}
use carrels.Service.Types.{ManifestEntry, SvcReq, Quota, PcState, DeployPlan}
use carrels.Service.Manifest.Counts.{count_type, IsConsistent}
use carrels.Service.Planner.Choice.{service_planner_can_satisfy_request_iff}
use carrels.Service.Planner.{
  choose_sources, previous, service_planner_deploy_plan_init, service_planner_can_satisfy_request,
}

-- The type of every entry is an index of the arrays by type.
abbrev pub TypesFit : List ManifestEntry → Type 0
TypesFit [] = Unit {0}
TypesFit (e ∷ es) = (e.type < 8) × TypesFit es

-- What the loop needs of the cursors at entry `i`, with the entries `es` to come.
record Room (q : Quota) (cursor : ℕ → ℕ) (es : List ManifestEntry) (i : ℕ) : Type 0 where
  enough : (t : ℕ) → t < 8 → count_type t es ≤ cursor t
  small : (t : ℕ) → t < 8 → cursor t ≤ 8
  stored : (t k : ℕ) → t < 8 → k < cursor t → q.avail_service_refs t k ≢ 0
  fits : i + length es ≤ 16
  types : TypesFit es

Room-pos :
    (q : Quota) (cursor : ℕ → ℕ) (e : ManifestEntry) (es : List ManifestEntry) (i : ℕ)
    → Room q cursor (e ∷ es) i
    → (0 < cursor e.type) × (previous (cursor e.type) ≡ cursor e.type - 1)
Room-pos q cursor e es i v =
    let pos = v.enough e.type v.types.0 in
    let top = v.small e.type v.types.0 in
    let here = ==_self e.type in
    let positive : 0 < cursor e.type = ground arith in (positive, omega arith)

Room-next :
    (q : Quota) (cursor : ℕ → ℕ) (e : ManifestEntry) (es : List ManifestEntry) (i : ℕ)
    → Room q cursor (e ∷ es) i
    → Room q (update cursor e.type (previous (cursor e.type))) es (i + 1)
Room-next q cursor e es i v =
    let (pos, prev) = Room-pos q cursor e es i v in
    record {
      enough = λ t lt. let h = v.enough t lt in ground arith;
      small = λ t lt. let h = v.small t lt in ground arith;
      stored = λ t k lt below. let h = v.stored t k lt in ground arith;
      fits = omega (arith, v.fits);
      types = v.types.1;
    }

-- The source of entry `k`: the last service of its type that no earlier entry has taken.
abbrev pub source_at : Quota → (ℕ → ℕ) → List ManifestEntry → ℕ → ManifestEntry → ℕ
source_at q cursor es k e =
    q.avail_service_refs e.type (cursor e.type - 1 - count_type e.type (take k es))

abbrev Chosen : Quota → (ℕ → ℕ) → List ManifestEntry → ℕ → (ℕ → ℕ) → Option (ℕ → ℕ) → Type 0
Chosen q cursor es i s none = ⊥
Chosen q cursor es i s (some s') =
    ((k : ℕ) (e : ManifestEntry) → get_elem? es k ≡ some e → s' (i + k) ≡ source_at q cursor es k e)
    × ((j : ℕ) → j < i → s' j ≡ s j)

Chosen-cons :
    (q : Quota) (cursor : ℕ → ℕ) (e : ManifestEntry) (es : List ManifestEntry) (i : ℕ) (s : ℕ → ℕ)
    (o : Option (ℕ → ℕ))
    → Room q cursor (e ∷ es) i
    → Chosen q
        (update cursor e.type (previous (cursor e.type)))
        es
        (i + 1)
        (update s i (q.avail_service_refs e.type (previous (cursor e.type))))
        o
    → Chosen q cursor (e ∷ es) i s o
Chosen-cons q cursor e es i s none v c = c
Chosen-cons q cursor e es i s (some s') v (later, earlier) =
    (at, λ j lt. let h = earlier j (omega arith) in ground arith)
  where
    prev : previous (cursor e.type) ≡ cursor e.type - 1
    prev = (Room-pos q cursor e es i v).1

    at :
        (k : ℕ) (d : ManifestEntry)
        → get_elem? (e ∷ es) k ≡ some d
        → s' (i + k) ≡ source_at q cursor (e ∷ es) k d
    at zero d g =
        let h = earlier i (omega arith) in
        let i0 : i + 0 ≡ i = omega arith in ground (arith, prev, ap s' i0)
    at (suc k) d g =
        let h = later k d g in
        let shift : i + suc k ≡ i + 1 + k = omega arith in
        let count = count_type d.type (take k es) in
        let index : update cursor e.type (previous (cursor e.type)) d.type - 1 - count
            ≡ cursor d.type - 1 - count_type d.type (take (suc k) (e ∷ es)) =
          ground (arith, prev) in
        ap s' shift ∙ h ∙ ap (q.avail_service_refs d.type) index

choose_sources-Chosen :
    (q : Quota) (cursor : ℕ → ℕ) (es : List ManifestEntry) (i : ℕ) (s : ℕ → ℕ)
    → Room q cursor es i
    → Chosen q cursor es i s (choose_sources q cursor es i s)
unfolding choose_sources
choose_sources-Chosen q cursor [] i s v = (λ k e g. cc, λ j lt. refl)
choose_sources-Chosen q cursor (e ∷ es) i s v =
    let (pos, prev) = Room-pos q cursor e es i v in
    let nonnull = v.stored e.type (previous (cursor e.type)) v.types.0 (omega arith) in
    let top = v.small e.type v.types.0 in
    let t1 : ltb e.type 8 ≡ true = lt→ltb _ _ v.types.0 in
    let t2 : ltb (previous (cursor e.type)) 8 ≡ true = lt→ltb _ _ (omega arith) in
    let t3 : ltb i 16 ≡ true = lt→ltb _ _ (omega (arith, v.fits)) in
    let t4 : (q.avail_service_refs e.type (previous (cursor e.type)) == 0) ≡ false = ground arith in
    rw (t1, t2, t3, t4)
      (Chosen-cons q cursor e es i s _ v (
        choose_sources-Chosen q (update cursor e.type (previous (cursor e.type))) es (i + 1)
          (update s i (q.avail_service_refs e.type (previous (cursor e.type))))
          (Room-next q cursor e es i v)))

-- A protocon's stock: at most eight services of a type, none of them null.
pub record IsStocked (q : Quota) : Type 0 where
  pub small : (t : ℕ) → t < 8 → q.avail_service_per_type t ≤ 8
  pub stored : (t k : ℕ) → t < 8 → k < q.avail_service_per_type t → q.avail_service_refs t k ≢ 0

-- A request that agrees with its counters, over types that the arrays have.
pub record IsRequest (req : SvcReq) : Type 0 where
  pub consistent : IsConsistent req
  pub types : TypesFit req.service_entries

Room-init :
    (req : SvcReq) (q : Quota)
    → IsRequest req
    → IsStocked q
    → service_planner_can_satisfy_request req q.avail_service_per_type ≡ true
    → Room q q.avail_service_per_type req.service_entries 0
Room-init req q v stock sat = record {
  enough = λ t lt.
      let h = (service_planner_can_satisfy_request_iff req _).0 sat t lt in
      omega (arith, v.consistent.per_type t);
  small = stock.small;
  stored = stock.stored;
  fits = omega (arith, v.consistent.counted, v.consistent.fits);
  types = v.types;
}

-- What a finished plan has: the given fields, and for each entry of its request the last service
-- of the entry's type that no earlier entry has taken.
abbrev pub Assigned : DeployPlan → SvcReq → Quota → Option DeployPlan → Type 0
Assigned plan req q none = ⊥
Assigned plan req q (some plan') =
    (plan'.pc_id ≡ plan.pc_id)
    × ((k : ℕ) (e : ManifestEntry)
        → get_elem? req.service_entries k ≡ some e
        → plan'.service_sources k ≡ source_at q q.avail_service_per_type req.service_entries k e)

Chosen-Assigned :
    (plan : DeployPlan) (req : SvcReq) (q : Quota) (o : Option (ℕ → ℕ))
    → Chosen q q.avail_service_per_type req.service_entries 0 plan.service_sources o
    → Assigned plan req q (o >>= λ s. some (record plan { service_sources = s }))
Chosen-Assigned plan req q none c = c
Chosen-Assigned plan req q (some s) (at, before) =
    (refl, λ k e g. let z : k ≡ 0 + k = omega arith in ap s z ∙ at k e g)

-- For a request that agrees with its counters and a stocked protocon that can satisfy it, the plan
-- is made: no cursor wraps around, no access is out of bounds, no assertion fails, and each entry
-- gets the last service of its type that no earlier entry has taken.
pub service_planner_deploy_plan_init-Assigned :
    (plan : DeployPlan) (req : SvcReq) (state : PcState)
    → plan.req ≡ some req
    → IsRequest req
    → IsStocked state.resource_quota
    → service_planner_can_satisfy_request req state.resource_quota.avail_service_per_type ≡ true
    → Assigned plan req state.resource_quota (service_planner_deploy_plan_init plan state)
unfolding service_planner_deploy_plan_init
service_planner_deploy_plan_init-Assigned plan req state e v stock sat =
    subst
      (λ o. Assigned plan req state.resource_quota (
        o >>= λ r.
        choose_sources state.resource_quota state.resource_quota.avail_service_per_type
          r.service_entries 0 plan.service_sources
        >>= λ s. some (record plan { service_sources = s })))
      (sym e)
      (Chosen-Assigned plan req state.resource_quota _ (
        choose_sources-Chosen state.resource_quota _ req.service_entries 0 plan.service_sources
          (Room-init req state.resource_quota v stock sat)))
