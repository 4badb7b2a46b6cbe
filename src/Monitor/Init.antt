-- ===== src/Monitor/Init.antt =====
-- src/monitor/init/minit.c, after the files have been read: the number of protocons and the state
-- of each. `none` is a halt, which the source writes as an endless loop or a crash.
pub mod Fresh
pub mod Storage
use carrels.Base.{
  ℕ, zero, suc, ◌+◌, ◌*◌, ◌≡◌, ◌==◌, if◌then◌else◌, Bool, true, false, Option, none, some, List,
  ltb, leb, update, ◌>>=◌, ◌>>◌, assert,
}
use carrels.Delegation.{DlgHeader}
use carrels.ServiceDb.{SvcDb}
use carrels.Service.Types.{passive, PcState, pc_child_per_monitor_max_num}
use carrels.Service.Registry.{service_registry_create}
use carrels.Monitor.State.{
  Monitor, Env, PcMonitorError, no_error, invalid_req_pc_num, succeeds, set_state,
  protocon_state_memzero_services, protocon_state_memzero_context,
  protocon_state_memzero_symb_header, protocon_state_set_lifecycle_state,
}
use carrels.Monitor.Requests.{monitor_main_load_trustedlo}
use carrels.Monitor.Network.{monitor_acl_initialise}

unfoldable pub ca_monitor_init_validate_pc_count : ℕ → PcMonitorError
ca_monitor_init_validate_pc_count pc_count =
    if ltb pc_child_per_monitor_max_num pc_count then invalid_req_pc_num else no_error

unfoldable pub ca_monitor_init_get_pcnum : Monitor → ℕ → Option Monitor
unfolding ca_monitor_init_validate_pc_count
ca_monitor_init_get_pcnum m delegator_cnt = do
  assert (succeeds (ca_monitor_init_validate_pc_count delegator_cnt))
  some (record m { num_pc = delegator_cnt })

-- `PROTOCON_MKTSYMB_BASE` and `PROTOCON_MKTSYMB_SLOT_SIZE`.
abbrev pub symb_slot : ℕ → ℕ
symb_slot pc_id = 0xaaaaa20000 + pc_id * 0x1000

-- The symbol file is read to the protocon's slot; the monitor crashes if it cannot be read.
unfoldable pub protocon_state_init_symb_header : (ℕ → Bool) → Monitor → ℕ → Option Monitor
protocon_state_init_symb_header has_symbols m pc_id = do
  assert (has_symbols pc_id)
  some (set_state m pc_id (record (m.protocon_states pc_id) { sym_base = symb_slot pc_id }))

-- One round of `ca_monitor_init_protocon_states`.
unfoldable pub init_protocon : Env → (ℕ → Bool) → Monitor → ℕ → Option Monitor
init_protocon env has_symbols m i =
    let m1 = set_state m i (record (m.protocon_states i) { pc_id = i }) in
    let m2 =
      protocon_state_memzero_symb_header
        (protocon_state_memzero_context (protocon_state_memzero_services m1 i) i) i in
    do
      m3 ← protocon_state_init_symb_header has_symbols m2 i
      m4 ← monitor_main_load_trustedlo env m3 i
      some (protocon_state_set_lifecycle_state m4 i passive)

-- The rounds from protocon `i` on, `n` of them left.
unfoldable pub init_protocons : Env → (ℕ → Bool) → ℕ → ℕ → Monitor → Option Monitor
init_protocons env has_symbols zero i m = some m
init_protocons env has_symbols (suc n) i m =
    init_protocon env has_symbols m i >>= init_protocons env has_symbols n (i + 1)

unfoldable pub ca_monitor_init_protocon_states :
    Env → (ℕ → Bool) → SvcDb → Monitor → ℕ → Option Monitor
ca_monitor_init_protocon_states env has_symbols svc m pc_num = do
  m1 ← init_protocons env has_symbols pc_num 0 m
  states ← service_registry_create m1.memory (some svc) m1.protocon_states
  some (record m1 { protocon_states = states })

-- The cothread waits until the delegation file has been read, and then runs to its end.
unfoldable pub ca_monitor_init_states :
    Env → (ℕ → Bool) → DlgHeader → SvcDb → Monitor → Option Monitor
ca_monitor_init_states env has_symbols dlg svc m = do
  m1 ← ca_monitor_init_get_pcnum (record m { delegators = dlg.delegators }) dlg.delegator_count
  m2 ← ca_monitor_init_protocon_states env has_symbols svc m1 m1.num_pc
  some (monitor_acl_initialise m2 m2.num_pc)
