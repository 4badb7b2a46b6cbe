-- ===== src/Orchestrator/Deployments.antt =====
-- Deployments to a chosen protocon: src/orchestrator/orchestrator.c, `load_targeted_elf_payload`,
-- `print_deploy_result`, and what the container runtime calls.
pub mod Slots
use carrels.Base.{
  first_from, ℕ, zero, suc, ◌+◌, ◌-◌, ◌%◌, ◌^◌, ◌==◌, if◌then◌else◌, Bool, true, false, not, ◌&&◌,
  ◌||◌, Option, none, some, List, [], ◌∷◌, ltb, leb, test_bit, set_bit, clear_bit,
}
use carrels.Orchestrator.State.{
  Orchestrator, OrchestratorEnv, Answer, Event, called, spawned, deploy_completed, note, ppcall,
  image_to_filename, orchestrator_cri_image_exists,
}

-- A deployment ends: one that the container runtime asked for is reported to it, and a failed one
-- gives its slot back.
unfoldable pub complete : Orchestrator → ℕ → Bool → Orchestrator
complete o pc_id failed =
    if o.deploy_from_cri
    then record (note o (deploy_completed pc_id failed)) {
      cri_slots_in_use = if failed then clear_bit o.cri_slots_in_use pc_id else o.cri_slots_in_use;
      deploy_from_cri = false;
      deploy_pending = false;
    }
    else record o { deploy_pending = false }

-- The cothread, once the file system is up.
unfoldable pub load_targeted_elf_payload : OrchestratorEnv → Orchestrator → Orchestrator
load_targeted_elf_payload env o =
    let (o1, answer) =
      ppcall env o
        (22 ∷ o.deploy_pc_id ∷ o.deploy_peer_mask ∷ (if o.deploy_peers_all then 1 else 0) ∷ []) in
    if not (env.reads_file o.trace o.fname_buf)
    then complete o o.deploy_pc_id true
    else if answer.label == 0
    then o1
    else complete o1 o1.deploy_pc_id true

-- `none` is the error -1.
unfoldable pub monitor_protocon_is_running :
    OrchestratorEnv → Orchestrator → ℕ → Orchestrator × Option Bool
monitor_protocon_is_running env o pc_id =
    let (o1, answer) = ppcall env o (10 ∷ []) in
    if leb env.max_protocon_ports pc_id
    then (o, none)
    else if not (answer.label == 0)
    then (o1, none)
    else (o1, some (test_bit (answer.mr 0) pc_id))

abbrev pub is_running : Option Bool → Bool
is_running none = false
is_running (some running) = running

-- `MON_DEPLOY_IN_PROGRESS` is a parameter: it is counted from seL4's errors.
unfoldable pub print_deploy_result : OrchestratorEnv → ℕ → Orchestrator → Orchestrator
print_deploy_result env mon_deploy_in_progress o =
    let (o1, answer) = ppcall env o (23 ∷ []) in
    let pc_id = answer.mr 0 % 2 ^ 32 in
    let (o2, running) = monitor_protocon_is_running env o1 pc_id in
    if answer.label == mon_deploy_in_progress
    then o1
    else if o1.deploy_from_cri && answer.label == 0
    then complete o2 pc_id (not (is_running running))
    else complete o1 pc_id (not (answer.label == 0))

-- The first slot of `n` from `id` on that is not in use; `none` when all are.
abbrev pub first_slot : ℕ → ℕ → ℕ → Option ℕ
first_slot slots = first_from (λ id. not (test_bit slots id))

-- A free slot has been found. `yield` is what the cothreads do before the caller goes on.
unfoldable pub start_in_slot :
    OrchestratorEnv → (Orchestrator → Orchestrator) → Orchestrator → ℕ → Orchestrator × Option ℕ
start_in_slot env yield o id =
    if env.spawns o.trace
    then (
      yield (record (note o (spawned true)) {
        deploy_pc_id = id;
        deploy_peer_mask = 0;
        deploy_peers_all = false;
        deploy_pending = true;
        deploy_from_cri = true;
        cri_slots_in_use = set_bit o.cri_slots_in_use id;
      }),
      some id,
    )
    else (
      record o {
        deploy_pc_id = id;
        deploy_peer_mask = 0;
        deploy_peers_all = false;
        deploy_pending = false;
        deploy_from_cri = false;
        cri_slots_in_use = clear_bit (set_bit o.cri_slots_in_use id) id;
      },
      none,
    )

-- The protocon that was chosen, or `none`, the error -1.
unfoldable pub orchestrator_cri_start :
    OrchestratorEnv
    → (Orchestrator → Orchestrator)
    → Orchestrator
    → List ℕ
    → Orchestrator × Option ℕ
orchestrator_cri_start env yield o image =
    if o.deploy_pending || not (orchestrator_cri_image_exists o image)
    then (o, none)
    else elim (image_to_filename image) [
      | none ↦ (o, none)
      | some file ↦
          let o1 = record o { fname_buf = file } in
          elim (first_slot o.cri_slots_in_use env.max_protocon_ports 0) [
            | none ↦ (o1, none)
            | some id ↦ start_in_slot env yield o1 id
          ]
    ]

-- Whether the protocon was stopped.
unfoldable pub orchestrator_cri_stop : OrchestratorEnv → Orchestrator → ℕ → Orchestrator × Bool
orchestrator_cri_stop env o pc_id =
    let (o1, answer) = ppcall env o (6 ∷ pc_id ∷ []) in
    let (o2, running) = monitor_protocon_is_running env o1 pc_id in
    if leb env.max_protocon_ports pc_id || not (test_bit o.cri_slots_in_use pc_id)
    then (o, false)
    else if not (answer.label == 0)
    then (o1, false)
    else elim running [
      | none ↦ (o2, false)
      | some still ↦
          if still
          then (o2, false)
          else (record o2 { cri_slots_in_use = clear_bit o2.cri_slots_in_use pc_id }, true)
    ]
