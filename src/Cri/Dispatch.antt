-- ===== src/Cri/Dispatch.antt =====
-- `dispatch` of src/orchestrator/cri_runtime.c: what a request does to the tables.
pub mod Invariant
pub mod Listing
pub mod Names
pub mod Numbered
pub mod Refinement
use carrels.Base.{
  ℕ, zero, suc, ◌+◌, ◌%◌, ◌^◌, ◌==◌, if◌then◌else◌, Bool, true, false, not, ◌&&◌, Option, none,
  some, List, [], ◌∷◌, ◌++◌, update, codes, same_text, copy_string,
}
use carrels.Orchestrator.State.{Orchestrator, OrchestratorEnv, orchestrator_cri_image_exists}
use carrels.Orchestrator.Deployments.{orchestrator_cri_stop}
use carrels.Cri.State.{
  CriOp, hello, run_sandbox, stop_sandbox, remove_sandbox, sandbox_status, list_sandbox,
  create_container, start_container, stop_container, remove_container, container_status,
  list_container, reopen_log, pull_image, remove_image, image_status, list_image, unknown_op,
  CriResult, cri_ok, cri_not_found, cri_invalid, cri_full, CriRuntime, System,
}
use carrels.Cri.Objects.{
  CriObject, zero_object, Table, find, find_image, allocate, list_one, set_image_ref, first_object,
  has_id, cri_max_objects,
}

-- `++n` on a `uint64_t`.
abbrev pub next : ℕ → ℕ
next n = (n + 1) % 2 ^ 64

abbrev pub reason_buffer : ℕ
reason_buffer = 64

abbrev pub with_reason : List ℕ → CriObject → CriObject
with_reason text o = record o { reason = copy_string reason_buffer text }

-- What a request gives: its status, the response and the system behind it.
abbrev pub Answered : Type 0
Answered = CriResult × CriObject × System

abbrev pub set_runtime : System → CriRuntime → System
set_runtime s r = record s { runtime = r }

abbrev pub plain : System → CriResult → Answered
plain s status = (status, zero_object, s)

-- An object as the response, where there is one.
abbrev pub status_of : System → Table → Option ℕ → Answered
status_of s table none = plain s cri_not_found
status_of s table (some i) = (cri_ok, table i, s)

abbrev pub removed : Table → Option ℕ → Table
removed table none = table
removed table (some i) = update table i zero_object

abbrev pub starting : ℕ → CriObject → CriObject
starting now o = with_reason (codes "CarrelsStarting") (record o { state = 1; started_at = now })

abbrev pub stopped_at : ℕ → CriObject → CriObject
stopped_at now o = with_reason (codes "CarrelsStopped") (record o { state = 2; finished_at = now })

-- A running container that the monitor does not stop is left as it is.
abbrev pub stop_as : System → ℕ → Bool → Answered
stop_as s i true = plain s cri_invalid
stop_as s i false =
    let r = s.runtime in
    plain
      (set_runtime s (record r {
        containers = update r.containers i (stopped_at (next r.timestamp) (r.containers i));
        timestamp = next r.timestamp;
      }))
      cri_ok

-- `%08lx`, of the printing library, is a parameter.
module _ (format_id : ℕ → List ℕ) where
  abbrev pub sandbox_id_of : ℕ → List ℕ
  sandbox_id_of n = copy_string 64 (codes "carrels-sandbox-" ++ format_id n)

  abbrev pub container_id_of : ℕ → List ℕ
  container_id_of n = copy_string 64 (codes "carrels-container-" ++ format_id n)

  abbrev pub new_sandbox : CriRuntime → CriObject → CriObject
  new_sandbox r request = with_reason (codes "CarrelsReady") (record request {
    present = true;
    id = sandbox_id_of (next r.next_id);
    created_at = next r.timestamp;
    ip = copy_string 48 (codes "192.0.2.1");
  })

  abbrev pub new_container : CriRuntime → CriObject → CriObject
  new_container r request = with_reason (codes "CarrelsCreated") (
      set_image_ref (record request {
        present = true;
        id = container_id_of (next r.next_id);
        created_at = next r.timestamp;
      }))

  unfoldable pub dispatch_sandbox : System → CriObject → CriOp → Answered
  dispatch_sandbox s request run_sandbox = elim (allocate s.runtime.sandboxes) [
    | none ↦ plain s cri_full
    | some (i, table) ↦
        let r = s.runtime in
        let o = new_sandbox r request in
        (
          cri_ok,
          o,
          set_runtime s (record r {
            sandboxes = update table i o;
            next_id = next r.next_id;
            timestamp = next r.timestamp;
          }),
        )
  ]
  dispatch_sandbox s request stop_sandbox = elim (find s.runtime.sandboxes request.id) [
    | none ↦ plain s cri_ok
    | some i ↦
        let r = s.runtime in
        plain
          (set_runtime s
            (record r { sandboxes = update r.sandboxes i (record (r.sandboxes i) { state = 1 }) }))
          cri_ok
  ]
  dispatch_sandbox s request remove_sandbox =
      let r = s.runtime in
      plain
        (set_runtime s (record r { sandboxes = removed r.sandboxes (find r.sandboxes request.id) }))
        cri_ok
  dispatch_sandbox s request sandbox_status =
      status_of s s.runtime.sandboxes (find s.runtime.sandboxes request.id)
  dispatch_sandbox s request list_sandbox = (cri_ok, list_one s.runtime.sandboxes request.cursor, s)
  dispatch_sandbox s request _ = plain s cri_invalid

  -- A container is started once the reply has been sent.
  unfoldable pub dispatch_container : OrchestratorEnv → System → CriObject → CriOp → Answered
  dispatch_container env s request create_container = elim (allocate s.runtime.containers) [
    | none ↦ plain s cri_full
    | some (i, table) ↦
        let r = s.runtime in
        let o = new_container r request in
        (
          cri_ok,
          o,
          set_runtime s (record r {
            containers = update table i o;
            next_id = next r.next_id;
            timestamp = next r.timestamp;
          }),
        )
  ]
  dispatch_container env s request start_container = elim (find s.runtime.containers request.id) [
    | none ↦ plain s cri_not_found
    | some i ↦
        let r = s.runtime in
        plain
          (set_runtime s (record r {
            containers = update r.containers i (starting (next r.timestamp) (r.containers i));
            timestamp = next r.timestamp;
            start_after_reply = some i;
          }))
          cri_ok
  ]
  dispatch_container env s request stop_container = elim (find s.runtime.containers request.id) [
    | none ↦ plain s cri_not_found
    | some i ↦
        let r = s.runtime in
        let running = (r.containers i).state == 1 in
        let (o, stopped) = orchestrator_cri_stop env s.orchestrator (r.containers i).network_ns in
        let asked = record s { orchestrator = if running then o else s.orchestrator } in
        stop_as asked i (running && not stopped)
  ]
  dispatch_container env s request remove_container =
      let r = s.runtime in
      plain
        (set_runtime s
          (record r { containers = removed r.containers (find r.containers request.id) }))
        cri_ok
  dispatch_container env s request container_status =
      status_of s s.runtime.containers (find s.runtime.containers request.id)
  dispatch_container env s request list_container =
      (cri_ok, list_one s.runtime.containers request.cursor, s)
  dispatch_container env s request reopen_log = elim (find s.runtime.containers request.id) [
    | none ↦ plain s cri_not_found
    | some i ↦ plain s cri_ok
  ]
  dispatch_container env s request _ = plain s cri_invalid

-- A new image is named by its reference.
abbrev pub new_image : CriObject → CriObject
new_image request =
    let o = set_image_ref (record request { present = true }) in
    record o { id = copy_string 64 o.image_ref }

-- The first of two places.
abbrev pub or_else : Option ℕ → Option ℕ → Option ℕ
or_else none other = other
or_else (some i) other = some i

unfoldable pub dispatch_image : System → CriObject → CriOp → Answered
dispatch_image s request pull_image =
    let r = s.runtime in
    if not (orchestrator_cri_image_exists s.orchestrator request.image)
    then plain s cri_not_found
    else elim (find_image r.images request.image) [
      | some i ↦ (cri_ok, r.images i, s)
      | none ↦ elim (allocate r.images) [
        | none ↦ plain s cri_full
        | some (i, table) ↦
            let o = new_image request in
            (cri_ok, o, set_runtime s (record r { images = update table i o }))
      ]
    ]
dispatch_image s request remove_image =
    let r = s.runtime in
    plain (set_runtime s (record r { images = removed r.images (find r.images request.id) })) cri_ok
dispatch_image s request image_status =
    let r = s.runtime in
    status_of s r.images (or_else (find r.images request.id) (find_image r.images request.image))
dispatch_image s request list_image = (cri_ok, list_one s.runtime.images request.cursor, s)
dispatch_image s request _ = plain s cri_invalid

unfoldable pub dispatch : (ℕ → List ℕ) → OrchestratorEnv → System → CriObject → CriOp → Answered
dispatch format_id env s request hello = (cri_ok, record zero_object { present = true }, s)
dispatch format_id env s request run_sandbox = dispatch_sandbox format_id s request run_sandbox
dispatch format_id env s request stop_sandbox = dispatch_sandbox format_id s request stop_sandbox
dispatch format_id env s request remove_sandbox =
    dispatch_sandbox format_id s request remove_sandbox
dispatch format_id env s request sandbox_status =
    dispatch_sandbox format_id s request sandbox_status
dispatch format_id env s request list_sandbox = dispatch_sandbox format_id s request list_sandbox
dispatch format_id env s request pull_image = dispatch_image s request pull_image
dispatch format_id env s request remove_image = dispatch_image s request remove_image
dispatch format_id env s request image_status = dispatch_image s request image_status
dispatch format_id env s request list_image = dispatch_image s request list_image
dispatch format_id env s request unknown_op = plain s cri_invalid
dispatch format_id env s request op = dispatch_container format_id env s request op
