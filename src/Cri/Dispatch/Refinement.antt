-- ===== src/Cri/Dispatch/Refinement.antt =====
-- The containers as a map from identifiers to objects, and `dispatch` as operations on that map.
use carrels.Base.{
  ℕ, ◌+◌, ◌^◌, ◌<◌, ◌≡◌, ◌≢◌, ◌==◌, refl, sym, ◌∙◌, ap, inl, inr, if◌then◌else◌, Bool, true, false,
  not, ◌&&◌, Bool-cases, Option, none, some, List, arith, update, same_text, same_text→≡,
}
use carrels.Orchestrator.State.{OrchestratorEnv}
use carrels.Orchestrator.Deployments.{orchestrator_cri_stop}
use carrels.Cri.Objects.{CriObject, zero_object, Table, find, allocate, set_image_ref}
use carrels.Cri.Objects.View.{
  view, at_place, Distinct, Seen, if_present, if_present-some, view-update,
}
use carrels.Cri.State.{
  CriOp, create_container, start_container, stop_container, remove_container, container_status,
  list_container, reopen_log, CriResult, cri_ok, cri_not_found, cri_invalid, cri_full, System,
}
use carrels.Cri.Dispatch.{
  Answered, next, removed, container_id_of, new_container, dispatch_container, starting, stopped_at,
  stop_as,
}
use carrels.Cri.Dispatch.Names.{IsFormat, container_id_of-AreNames}
use carrels.Cri.Dispatch.Numbered.{
  IsNumbered, AreNames, found-IsPlaced, IsFreePlace, fresh-IsPlaced, update-update, find-cases,
  allocate-cases,
}
use carrels.Cri.Dispatch.Invariant.{AreNumbered}

abbrev pub ObjectMap : Type 0
ObjectMap = List ℕ → Option CriObject

abbrev pub set : ObjectMap → List ℕ → Option CriObject → ObjectMap
set m id o q = if same_text q id then o else m q

-- A status, a response and a map.
abbrev pub MapAnswer : Type 0
MapAnswer = CriResult × CriObject × ObjectMap

abbrev pub only : CriResult → ObjectMap → MapAnswer
only status m = (status, zero_object, m)

abbrev pub start_spec : ObjectMap → ℕ → List ℕ → Option CriObject → MapAnswer
start_spec m now id none = only cri_not_found m
start_spec m now id (some o) = only cri_ok (set m id (some (starting now o)))

abbrev pub stop_spec : ObjectMap → ℕ → (ℕ → Bool) → List ℕ → Option CriObject → MapAnswer
stop_spec m now refuses id none = only cri_not_found m
stop_spec m now refuses id (some o) =
    if o.state == 1 && refuses o.network_ns
    then only cri_invalid m
    else only cri_ok (set m id (some (stopped_at now o)))

abbrev pub status_spec : ObjectMap → Option CriObject → MapAnswer
status_spec m none = only cri_not_found m
status_spec m (some o) = (cri_ok, o, m)

abbrev pub reopen_spec : ObjectMap → Option CriObject → MapAnswer
reopen_spec m none = only cri_not_found m
reopen_spec m (some o) = only cri_ok m

-- What a client is promised: `room` says whether there is a place for one more container, `refuses`
-- whether the protocon of a container cannot be stopped, and `fresh` is the container to create.
unfoldable pub container_spec :
    Bool → (ℕ → Bool) → ℕ → CriObject → ObjectMap → CriObject → CriOp → MapAnswer
container_spec room refuses now fresh m request create_container =
    if room then (cri_ok, fresh, set m fresh.id (some fresh)) else only cri_full m
container_spec room refuses now fresh m request start_container =
    start_spec m now request.id (m request.id)
container_spec room refuses now fresh m request stop_container =
    stop_spec m now refuses request.id (m request.id)
container_spec room refuses now fresh m request remove_container =
    only cri_ok (set m request.id none)
container_spec room refuses now fresh m request container_status = status_spec m (m request.id)
container_spec room refuses now fresh m request reopen_log = reopen_spec m (m request.id)
container_spec room refuses now fresh m request _ = only cri_invalid m

abbrev pub is_some : Option (ℕ × Table) → Bool
is_some none = false
is_some (some p) = true

-- The same answer, and tables that look like the map.
abbrev pub Refines : Answered → MapAnswer → Type 0
Refines (status, response, s) (status', response', m) =
    (status ≡ status')
    × (response ≡ response')
    × ((id : List ℕ) → view s.runtime.containers id ≡ m id)

view-found :
    (table : Table) (id : List ℕ) (o : Option ℕ)
    → find table id ≡ o
    → view table id ≡ at_place table o
unfolding view
view-found table id o e = ap (at_place table) e

-- The object that an identifier names is changed.
view-changed :
    (table : Table) (id : List ℕ) (i : ℕ) (o : CriObject)
    → Distinct table
    → Seen table id (some i)
    → o.present ≡ (table i).present
    → o.id ≡ (table i).id
    → (q : List ℕ) → view (update table i o) q ≡ set (view table) id (some o) q
view-changed table id i o distinct (lt, p, e) there same q =
    view-update table i id o q distinct
      (found-IsPlaced table i id o distinct (lt, p, e) (λ h. same ∙ e))
    ∙ ap (λ t. if same_text q id then t else view table q) (sym (if_present-some o (there ∙ p)))

view-removed :
    (table : Table) (id : List ℕ)
    → Distinct table
    → (q : List ℕ) → view (removed table (find table id)) q ≡ set (view table) id none q
view-removed table id distinct q = elim (find-cases table id) [
  | inl (e, seen) ↦ rw e (elim (Bool-cases (same_text q id)) [
    | inl same ↦ rw same (ap (view table) (same_text→≡ q id same) ∙ view-found table id none e)
    | inr other ↦ rw other refl
  ])
  | inr (i, e, seen) ↦ rw e (
      view-update table i id zero_object q distinct
        (found-IsPlaced table i id zero_object distinct seen (λ h. absurd (let f = h in cc))))
]

-- A new object in a free place.
view-created :
    (name : ℕ → List ℕ) (n : ℕ) (table : Table) (i : ℕ) (table' : Table) (o : CriObject)
    → AreNames name
    → n + 1 < 2 ^ 64
    → IsNumbered name n table
    → IsFreePlace table (some (i, table'))
    → o.present ≡ true
    → o.id ≡ name (next n)
    → (q : List ℕ) → view (update table' i o) q ≡ set (view table) o.id (some o) q
view-created name n table i table' o names small v (lt, free, e) there named q =
    let counted : next n ≡ n + 1 = omega arith in
    let named' : o.id ≡ name (n + 1) = named ∙ ap name counted in
    ap (λ t. view (update t i o) q) e
    ∙ ap (λ t. view t q) (update-update table i (record zero_object { present = true }) o)
    ∙ view-update table i (name (n + 1)) o q v.distinct
        (fresh-IsPlaced name n table i o names small v lt free named')
    ∙ ap (λ (t : List ℕ × Option CriObject). if same_text q t.0 then t.1 else view table q)
        (ap (λ t. (t, if_present o)) (sym named')
          ∙ ap (λ t. (o.id, t)) (sym (if_present-some o there)))

stop_as-Refines :
    (s : System) (id : List ℕ) (i : ℕ) (refused : Bool)
    → Distinct s.runtime.containers
    → Seen s.runtime.containers id (some i)
    → Refines (stop_as s i refused) (
        if refused
        then only cri_invalid (view s.runtime.containers)
        else only cri_ok (
            set
              (view s.runtime.containers)
              id
              (some (stopped_at (next s.runtime.timestamp) (s.runtime.containers i)))))
stop_as-Refines s id i true distinct seen = (refl, refl, λ q. refl)
stop_as-Refines s id i false distinct seen = (
  refl,
  refl,
  view-changed s.runtime.containers id i
      (stopped_at (next s.runtime.timestamp) (s.runtime.containers i)) distinct seen refl refl,
)

module _ (format_id : ℕ → List ℕ) (format : IsFormat format_id) (env : OrchestratorEnv) where
  -- What the code promises in a state.
  abbrev pub promised : System → CriObject → CriOp → MapAnswer
  promised s request =
      container_spec (is_some (allocate s.runtime.containers))
        (λ pc_id. not (orchestrator_cri_stop env s.orchestrator pc_id).1) (next s.runtime.timestamp)
        (new_container format_id s.runtime request) (view s.runtime.containers) request

  -- The runtime's table of containers is a map from identifiers to containers for its clients: each
  -- operation on one container gives the status, the response and the map of the specification. The
  -- identifiers must be apart, which every request keeps, the counter must not be at its end, and the
  -- printing library must print different numbers as different texts.
  pub dispatch_container-Refines :
      (s : System) (request : CriObject) (op : CriOp)
      → s.runtime.next_id + 1 < 2 ^ 64
      → AreNumbered format_id s.runtime
      → op ≢ list_container
      → Refines (dispatch_container format_id env s request op) (promised s request op)
  unfolding dispatch_container container_spec set_image_ref
  dispatch_container-Refines s request create_container small v other =
      elim (allocate-cases s.runtime.containers) [
        | inl e ↦ rw (dispatch_container, e) (refl, refl, λ q. refl)
        | inr ((i, table), e, free) ↦
            rw (dispatch_container, e)
              (
                refl,
                refl,
                view-created (container_id_of format_id) s.runtime.next_id s.runtime.containers i
                    table (new_container format_id s.runtime request)
                    (container_id_of-AreNames format_id format) small v.containers free refl refl,
              )
      ]
  dispatch_container-Refines s request start_container small v other =
      elim (find-cases s.runtime.containers request.id) [
        | inl (e, seen) ↦
            rw (dispatch_container, e, view-found s.runtime.containers request.id none e)
              (refl, refl, λ q. refl)
        | inr (i, e, seen) ↦
            rw (dispatch_container, e, view-found s.runtime.containers request.id (some i) e)
              (
                refl,
                refl,
                view-changed s.runtime.containers request.id i
                    (starting (next s.runtime.timestamp) (s.runtime.containers i))
                    v.containers.distinct seen refl refl,
              )
      ]
  dispatch_container-Refines s request stop_container small v other =
      elim (find-cases s.runtime.containers request.id) [
        | inl (e, seen) ↦
            rw (dispatch_container, e, view-found s.runtime.containers request.id none e)
              (refl, refl, λ q. refl)
        | inr (i, e, seen) ↦
            rw (dispatch_container, e, view-found s.runtime.containers request.id (some i) e)
              (stop_as-Refines _ request.id i _ v.containers.distinct seen)
      ]
  dispatch_container-Refines s request remove_container small v other =
      (refl, refl, view-removed s.runtime.containers request.id v.containers.distinct)
  dispatch_container-Refines s request container_status small v other =
      elim (find-cases s.runtime.containers request.id) [
        | inl (e, seen) ↦
            rw (dispatch_container, e, view-found s.runtime.containers request.id none e)
              (refl, refl, λ q. refl)
        | inr (i, e, seen) ↦
            rw (dispatch_container, e, view-found s.runtime.containers request.id (some i) e)
              (refl, refl, λ q. refl)
      ]
  dispatch_container-Refines s request reopen_log small v other =
      elim (find-cases s.runtime.containers request.id) [
        | inl (e, seen) ↦
            rw (dispatch_container, e, view-found s.runtime.containers request.id none e)
              (refl, refl, λ q. refl)
        | inr (i, e, seen) ↦
            rw (dispatch_container, e, view-found s.runtime.containers request.id (some i) e)
              (refl, refl, λ q. refl)
      ]
  dispatch_container-Refines s request list_container small v other = absurd (other refl)
  dispatch_container-Refines s request op small v other = (refl, refl, λ q. refl)
