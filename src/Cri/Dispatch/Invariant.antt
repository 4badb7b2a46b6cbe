-- ===== src/Cri/Dispatch/Invariant.antt =====
-- The identifiers of sandboxes and containers over a request.
use carrels.Base.{
  ℕ, ◌+◌, ◌^◌, ◌<◌, ◌≡◌, refl, sym, ◌∙◌, ap, subst, inl, inr, Bool, true, false, Bool-cases,
  Option-cases, Option, none, some, List, arith, update,
}
use carrels.Orchestrator.State.{OrchestratorEnv, orchestrator_cri_image_exists}
use carrels.Cri.Objects.{CriObject, zero_object, Table, find, find_image, set_image_ref}
use carrels.Cri.Objects.View.{Seen, find-Seen}
use carrels.Cri.State.{
  CriOp, hello, run_sandbox, stop_sandbox, remove_sandbox, sandbox_status, list_sandbox,
  create_container, start_container, stop_container, remove_container, container_status,
  list_container, reopen_log, pull_image, remove_image, image_status, list_image, unknown_op,
  CriRuntime, System,
}
use carrels.Cri.Dispatch.{
  Answered, next, removed, sandbox_id_of, container_id_of, new_container, dispatch_sandbox,
  dispatch_container, dispatch_image, dispatch, status_of, or_else, starting, stopped_at, stop_as,
}
use carrels.Cri.Dispatch.Names.{IsFormat, sandbox_id_of-AreNames, container_id_of-AreNames}
use carrels.Cri.Dispatch.Numbered.{
  find-cases, allocate-cases, IsIssued, IsNumbered, AreNames, later-IsNumbered, update-IsNumbered,
  found-IsPlaced, IsFreePlace, fresh-IsPlaced, update-update,
}

-- The two counted tables of the runtime.
pub record AreNumbered (format_id : ℕ → List ℕ) (r : CriRuntime) : Type 0 where
  pub sandboxes : IsNumbered (sandbox_id_of format_id) r.next_id r.sandboxes
  pub containers : IsNumbered (container_id_of format_id) r.next_id r.containers

-- A new object in a free place.
allocated-IsNumbered :
    (name : ℕ → List ℕ) (n : ℕ) (table : Table) (i : ℕ) (table' : Table) (o : CriObject)
    → AreNames name
    → n + 1 < 2 ^ 64
    → IsNumbered name n table
    → IsFreePlace table (some (i, table'))
    → o.id ≡ name (next n)
    → IsNumbered name (next n) (update table' i o)
allocated-IsNumbered name n table i table' o names small v (lt, free, e) named =
    let counted : next n ≡ n + 1 = omega arith in
    let e' : update table' i o ≡ update table i o =
      ap (λ t. update t i o) e ∙ update-update table i (record zero_object { present = true }) o in
    subst (IsNumbered name (next n)) (sym e') (
      update-IsNumbered name (next n) table i (name (n + 1)) o
        (later-IsNumbered name n (next n) table (omega arith) v)
        (fresh-IsPlaced name n table i o names small v lt free (named ∙ ap name counted))
        (λ p. record { number = next n; below = omega arith; named = named }))

-- A found object, changed in place.
changed-IsNumbered :
    (name : ℕ → List ℕ) (n : ℕ) (table : Table) (id : List ℕ) (i : ℕ) (o : CriObject)
    → IsNumbered name n table
    → Seen table id (some i)
    → (o.present ≡ true → o.id ≡ (table i).id)
    → IsNumbered name n (update table i o)
changed-IsNumbered name n table id i o v (lt, p, e) same =
    update-IsNumbered name n table i id o v
      (found-IsPlaced table i id o v.distinct (lt, p, e) (λ h. same h ∙ e))
      (λ h. subst (IsIssued name n) (sym (same h)) (v.issued i lt p))

removed-IsNumbered :
    (name : ℕ → List ℕ) (n : ℕ) (table : Table) (id : List ℕ) (found : Option ℕ)
    → IsNumbered name n table
    → Seen table id found
    → IsNumbered name n (removed table found)
removed-IsNumbered name n table id none v seen = v
removed-IsNumbered name n table id (some i) v seen =
    changed-IsNumbered name n table id i zero_object v seen (λ h. absurd (let f = h in cc))

abbrev After : (ℕ → List ℕ) → Answered → Type 0
After format_id (status, response, s) = AreNumbered format_id s.runtime

-- An answer that leaves the tables as they are.
status_of-AreNumbered :
    (format_id : ℕ → List ℕ) (s : System) (table : Table) (found : Option ℕ)
    → AreNumbered format_id s.runtime
    → After format_id (status_of s table found)
status_of-AreNumbered format_id s table none v = v
status_of-AreNumbered format_id s table (some i) v = v

module _ (format_id : ℕ → List ℕ) (format : IsFormat format_id) where
  sandbox-AreNumbered :
      (s : System) (request : CriObject) (op : CriOp)
      → s.runtime.next_id + 1 < 2 ^ 64
      → AreNumbered format_id s.runtime
      → After format_id (dispatch_sandbox format_id s request op)
  unfolding dispatch_sandbox
  sandbox-AreNumbered s request run_sandbox small v = elim (allocate-cases s.runtime.sandboxes) [
    | inl e ↦ rw (dispatch_sandbox, e) v
    | inr ((i, table), e, free) ↦
        rw (dispatch_sandbox, e)
          (record {
            sandboxes =
                allocated-IsNumbered (sandbox_id_of format_id) s.runtime.next_id s.runtime.sandboxes
                  i table _ (sandbox_id_of-AreNames format_id format) small v.sandboxes free refl;
            containers =
                later-IsNumbered (container_id_of format_id) s.runtime.next_id
                  (next s.runtime.next_id) s.runtime.containers (omega arith) v.containers;
          })
  ]
  sandbox-AreNumbered s request stop_sandbox small v =
      elim (find-cases s.runtime.sandboxes request.id) [
        | inl (e, seen) ↦ rw (dispatch_sandbox, e) v
        | inr (i, e, seen) ↦
            rw (dispatch_sandbox, e)
              (record {
                sandboxes =
                    changed-IsNumbered (sandbox_id_of format_id) s.runtime.next_id
                      s.runtime.sandboxes request.id i
                      (record (s.runtime.sandboxes i) { state = 1 }) v.sandboxes seen (λ h. refl);
                containers = v.containers;
              })
      ]
  sandbox-AreNumbered s request remove_sandbox small v = record {
    sandboxes =
        removed-IsNumbered (sandbox_id_of format_id) s.runtime.next_id s.runtime.sandboxes
          request.id (find s.runtime.sandboxes request.id) v.sandboxes
          (find-Seen s.runtime.sandboxes request.id);
    containers = v.containers;
  }
  sandbox-AreNumbered s request sandbox_status small v =
      status_of-AreNumbered format_id s s.runtime.sandboxes (find s.runtime.sandboxes request.id) v
  sandbox-AreNumbered s request list_sandbox small v = v
  sandbox-AreNumbered s request op small v = v

  -- The container that a request names gets another object of its identifier.
  changed_container :
      (s : System) (id : List ℕ) (i : ℕ) (o : CriObject)
      → AreNumbered format_id s.runtime
      → Seen s.runtime.containers id (some i)
      → o.id ≡ (s.runtime.containers i).id
      → IsNumbered (container_id_of format_id) s.runtime.next_id (update s.runtime.containers i o)
  changed_container s id i o v seen same =
      changed-IsNumbered (container_id_of format_id) s.runtime.next_id s.runtime.containers id i o
        v.containers seen (λ h. same)

  stop_as-AreNumbered :
      (s : System) (id : List ℕ) (i : ℕ) (refused : Bool)
      → AreNumbered format_id s.runtime
      → Seen s.runtime.containers id (some i)
      → After format_id (stop_as s i refused)
  stop_as-AreNumbered s id i true v seen = v
  stop_as-AreNumbered s id i false v seen = record {
    sandboxes = v.sandboxes;
    containers =
        changed_container s id i (stopped_at (next s.runtime.timestamp) (s.runtime.containers i)) v
          seen refl;
  }

  container-AreNumbered :
      (env : OrchestratorEnv) (s : System) (request : CriObject) (op : CriOp)
      → s.runtime.next_id + 1 < 2 ^ 64
      → AreNumbered format_id s.runtime
      → After format_id (dispatch_container format_id env s request op)
  unfolding dispatch_container set_image_ref
  container-AreNumbered env s request create_container small v =
      elim (allocate-cases s.runtime.containers) [
        | inl e ↦ rw (dispatch_container, e) v
        | inr ((i, table), e, free) ↦
            rw (dispatch_container, e)
              (record {
                sandboxes =
                    later-IsNumbered (sandbox_id_of format_id) s.runtime.next_id
                      (next s.runtime.next_id) s.runtime.sandboxes (omega arith) v.sandboxes;
                containers =
                    allocated-IsNumbered (container_id_of format_id) s.runtime.next_id
                      s.runtime.containers i table (new_container format_id s.runtime request)
                      (container_id_of-AreNames format_id format) small v.containers free refl;
              })
      ]
  container-AreNumbered env s request start_container small v =
      elim (find-cases s.runtime.containers request.id) [
        | inl (e, seen) ↦ rw (dispatch_container, e) v
        | inr (i, e, seen) ↦
            rw (dispatch_container, e)
              (record {
                sandboxes = v.sandboxes;
                containers =
                    changed_container s request.id i
                      (starting (next s.runtime.timestamp) (s.runtime.containers i)) v seen refl;
              })
      ]
  container-AreNumbered env s request stop_container small v =
      elim (find-cases s.runtime.containers request.id) [
        | inl (e, seen) ↦ rw (dispatch_container, e) v
        | inr (i, e, seen) ↦
            rw (dispatch_container, e) (stop_as-AreNumbered _ request.id i _ v seen)
      ]
  container-AreNumbered env s request remove_container small v = record {
    sandboxes = v.sandboxes;
    containers =
        removed-IsNumbered (container_id_of format_id) s.runtime.next_id s.runtime.containers
          request.id (find s.runtime.containers request.id) v.containers
          (find-Seen s.runtime.containers request.id);
  }
  container-AreNumbered env s request container_status small v =
      status_of-AreNumbered format_id s s.runtime.containers (find s.runtime.containers request.id)
        v
  container-AreNumbered env s request list_container small v = v
  container-AreNumbered env s request reopen_log small v =
      elim (find-cases s.runtime.containers request.id) [
        | inl (e, seen) ↦ rw (dispatch_container, e) v
        | inr (i, e, seen) ↦ rw (dispatch_container, e) v
      ]
  container-AreNumbered env s request op small v = v

  -- The images do not matter.
  kept :
      (s : System) (images : Table)
      → AreNumbered format_id s.runtime
      → AreNumbered format_id (record s.runtime { images = images })
  kept s images v = record { sandboxes = v.sandboxes; containers = v.containers }

  image-AreNumbered :
      (s : System) (request : CriObject) (op : CriOp)
      → AreNumbered format_id s.runtime
      → After format_id (dispatch_image s request op)
  unfolding dispatch_image
  image-AreNumbered s request pull_image v =
      elim (Bool-cases (orchestrator_cri_image_exists s.orchestrator request.image)) [
        | inl exists ↦ elim (Option-cases (find_image s.runtime.images request.image)) [
          | inl missing ↦ elim (allocate-cases s.runtime.images) [
            | inl full ↦ rw (dispatch_image, exists, missing, full) v
            | inr (p, place, free) ↦ rw (dispatch_image, exists, missing, place) (kept s _ v)
          ]
          | inr (i, found) ↦ rw (dispatch_image, exists, found) v
        ]
        | inr unknown ↦ rw (dispatch_image, unknown) v
      ]
  image-AreNumbered s request remove_image v = kept s _ v
  image-AreNumbered s request image_status v =
      status_of-AreNumbered format_id s s.runtime.images
        (or_else (find s.runtime.images request.id) (find_image s.runtime.images request.image)) v
  image-AreNumbered s request list_image v = v
  image-AreNumbered s request op v = v

  -- A request of any kind keeps the identifiers of the sandboxes apart, and those of the containers:
  -- they have been issued under different numbers, none above the counter. The counter must not be at
  -- its end, and the printing library must print different numbers as different texts.
  pub dispatch-AreNumbered :
      (env : OrchestratorEnv) (s : System) (request : CriObject) (op : CriOp)
      → s.runtime.next_id + 1 < 2 ^ 64
      → AreNumbered format_id s.runtime
      → AreNumbered format_id (dispatch format_id env s request op).2.runtime
  unfolding dispatch
  dispatch-AreNumbered env s request hello small v = v
  dispatch-AreNumbered env s request run_sandbox small v =
      sandbox-AreNumbered s request run_sandbox small v
  dispatch-AreNumbered env s request stop_sandbox small v =
      sandbox-AreNumbered s request stop_sandbox small v
  dispatch-AreNumbered env s request remove_sandbox small v =
      sandbox-AreNumbered s request remove_sandbox small v
  dispatch-AreNumbered env s request sandbox_status small v =
      sandbox-AreNumbered s request sandbox_status small v
  dispatch-AreNumbered env s request list_sandbox small v =
      sandbox-AreNumbered s request list_sandbox small v
  dispatch-AreNumbered env s request pull_image small v = image-AreNumbered s request pull_image v
  dispatch-AreNumbered env s request remove_image small v =
      image-AreNumbered s request remove_image v
  dispatch-AreNumbered env s request image_status small v =
      image-AreNumbered s request image_status v
  dispatch-AreNumbered env s request list_image small v = image-AreNumbered s request list_image v
  dispatch-AreNumbered env s request unknown_op small v = v
  dispatch-AreNumbered env s request op small v = container-AreNumbered env s request op small v
