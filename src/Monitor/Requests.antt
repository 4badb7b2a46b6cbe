-- ===== src/Monitor/Requests.antt =====
-- src/monitor/request: stop, suspend, resume, query and the loader's support calls. A protocon id
-- or a channel is a `microkit_channel`, an unsigned number.
pub mod Lifecycles
pub mod Query
use carrels.Base.{
  ℕ, zero, suc, ◌+◌, ◌≡◌, ◌==◌, if◌then◌else◌, Bool, true, false, not, ◌&&◌, ◌||◌, Option, none,
  some, List, [], ◌∷◌, ltb, leb, update, set_bit, ◌>>=◌, ◌>>◌, assert, memzero,
}
use carrels.Service.Types.{active, passive, suspended, same_state, pc_child_per_monitor_max_num}
use carrels.Monitor.State.{
  Monitor, Env, Reply, reply, Outcome, PcMonitorError, no_error, invalid_pc_id, stopped, resumed,
  loaded_trustedlo, emit, is_live, invalid_pc, monitor_get_pcid_from_ch,
  monitor_main_notify_orchestrator, pc_monitor_protocon_base_channel,
  protocon_state_check_lifecycle_state, protocon_state_set_lifecycle_state,
  protocon_state_retrieve_context, set_state,
}
use carrels.Monitor.Network.{monitor_acl_release_protocon}

-- `ORC_MONITOR_REGION_SIZE`.
abbrev pub orc_monitor_region_size : ℕ
orc_monitor_region_size = 0x800000

-- The loader and the trampoline are put back and the payload region is cleared. An assertion halts
-- the monitor if the loader's ELF file cannot be loaded.
unfoldable pub monitor_main_load_trustedlo : Env → Monitor → ℕ → Option Monitor
monitor_main_load_trustedlo env m cid = do
  assert (env.loads_elf cid)
  some (
      emit
        (record m {
          memory = memzero m.memory (env.container_image cid) orc_monitor_region_size;
          container_images = update m.container_images cid none;
        })
        (loaded_trustedlo cid))

-- The loader's context is copied back into the protocon's state. For a channel that is no
-- protocon's the destination is NULL.
unfoldable pub monitor_call_backup_protocon_loading_context : Monitor → ℕ → Outcome
monitor_call_backup_protocon_loading_context m ch =
    let cid = monitor_get_pcid_from_ch ch in
    do
      old ← protocon_state_retrieve_context m cid
      some (
        set_state m cid (record (m.protocon_states cid) { context = m.loader_context cid }),
        reply no_error,
      )

unfoldable pub monitor_call_restore_protocon : Env → Monitor → ℕ → Outcome
monitor_call_restore_protocon env m ch =
    let cid = monitor_get_pcid_from_ch ch in
    if cid == invalid_pc then some (monitor_main_notify_orchestrator m, reply no_error) else do
      m' ← monitor_main_load_trustedlo env (protocon_state_set_lifecycle_state m cid passive) cid
      some (monitor_main_notify_orchestrator m', reply no_error)

unfoldable pub monitor_call_stop_and_restore_protocon : Env → Monitor → ℕ → Outcome
monitor_call_stop_and_restore_protocon env m target_pd_id =
    if leb pc_child_per_monitor_max_num target_pd_id
    then some (m, reply invalid_pc_id)
    else monitor_call_restore_protocon env
        (emit (monitor_acl_release_protocon env m target_pd_id) (stopped target_pd_id))
        (target_pd_id + pc_monitor_protocon_base_channel)

unfoldable pub monitor_call_suspend_protocon : Monitor → ℕ → Monitor × Reply
monitor_call_suspend_protocon m target_pd_id =
    if leb pc_child_per_monitor_max_num target_pd_id
    then (m, reply invalid_pc_id)
    else let cid = monitor_get_pcid_from_ch (target_pd_id + pc_monitor_protocon_base_channel) in
      let m' =
        if cid == invalid_pc
        then m
        else if not (protocon_state_check_lifecycle_state m cid active)
        then m
        else emit (protocon_state_set_lifecycle_state m cid suspended) (stopped target_pd_id) in
      (monitor_main_notify_orchestrator m', reply no_error)

unfoldable pub monitor_call_resume_protocon : Monitor → ℕ → Monitor × Reply
monitor_call_resume_protocon m target_pd_id =
    if leb pc_child_per_monitor_max_num target_pd_id
    then (m, reply invalid_pc_id)
    else let cid = monitor_get_pcid_from_ch (target_pd_id + pc_monitor_protocon_base_channel) in
      let m' =
        if cid == invalid_pc
        then m
        else if not (protocon_state_check_lifecycle_state m cid suspended)
        then m
        else protocon_state_set_lifecycle_state (emit m (resumed target_pd_id)) cid active in
      (monitor_main_notify_orchestrator m', reply no_error)

-- It prints the states, and changes nothing.
unfoldable pub monitor_call_list_protocons : Monitor → Monitor × Reply
monitor_call_list_protocons m = (m, reply no_error)

-- The rounds from protocon `i` on, `n` of them left.
unfoldable pub query_bits : Monitor → ℕ → ℕ → ℕ → ℕ → ℕ
query_bits m self_id zero i bitmap = bitmap
query_bits m self_id (suc n) i bitmap =
    query_bits m self_id n (i + 1)
      (if is_live m i && not (i == self_id) then set_bit bitmap i else bitmap)

unfoldable pub monitor_call_query_protocons : Monitor → ℕ → Monitor × Reply
monitor_call_query_protocons m ch =
    let self_id = monitor_get_pcid_from_ch ch in
    (
      m,
      record {
        label = no_error;
        words = query_bits m self_id pc_child_per_monitor_max_num 0 0 ∷ self_id ∷ [];
      },
    )
