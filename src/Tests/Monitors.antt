-- ===== src/Tests/Monitors.antt =====
-- A monitor of four protocons: 0 is active and lets 1 in, 1 is suspended, 2 and 3 are passive.
use carrels.Base.{
  ℕ, ◌+◌, ◌*◌, ◌≤◌, ◌<◌, ◌≡◌, ◌≢◌, refl, ◌↔◌, true, false, not, ◌&&◌, ◌||◌, none, some, [], ◌∷◌,
  arith, test_bit, if◌then◌else◌, ◌==◌, ltb, Holds,
}
use carrels.Tests.Files.{dlg_file, svc_file, svc_db, dlg_header}
use carrels.Service.Types.{
  Lifecycle, active, passive, suspended, same_state, empty_quota, zero_context,
}
use carrels.Service.Installer.{service_installer_apply, install_all}
use carrels.Service.Manifest.{PayloadInfo}
use carrels.Monitor.State.{
  Monitor, Env, reply, no_error, succeeds, stopped, resumed, notified_orchestrator,
  monitor_get_pcid_from_ch, is_live,
}
use carrels.Monitor.Network.{monitor_acl_apply_deployment, monitor_acl_release_protocon}
use carrels.Monitor.Network.Peers.{Reported, monitor_acl_apply_deployment-Reported}
use carrels.Monitor.Network.Release.{monitor_acl_release_protocon-forgets}
use carrels.Monitor.Requests.{
  monitor_call_suspend_protocon, monitor_call_resume_protocon, monitor_call_query_protocons,
  monitor_call_stop_and_restore_protocon, monitor_call_backup_protocon_loading_context,
}
use carrels.Monitor.Requests.Query.{monitor_call_query_protocons-map}
use carrels.Monitor.Requests.Lifecycles.{
  state_of, monitor_call_suspend_protocon-lifecycle, monitor_call_resume_protocon-lifecycle,
  monitor_call_stop_and_restore_protocon-lifecycle,
  monitor_call_backup_protocon_loading_context_iff,
}
use carrels.Monitor.Deploy.{
  no_request, record_request, monitor_call_deploy_to_protocon, monitor_call_deploy_first_half,
  protocon_deploy_to_protocon, monitor_call_deploy_second_half, carry_out, install,
  protocon_pre_instantiate, protocon_start, protocon_init_txlo_info, protocon_init_txlo_context,
  protocon_restart_loader, protocon_load_payload, protocon_deploy_plan_check, deploy_parsed,
  monitor_check_deploy_num,
}
use carrels.Delegation.{dlg_find_delegator}
use carrels.Service.Types.{deploy_plan_reset, deploy_plan_memzero_services}
use carrels.Service.Manifest.{service_manifest_parse, parse_entries}
use carrels.Service.Planner.{
  service_planner_select_protocon_by_id, service_planner_deploy_plan_init, choose_sources,
  is_candidate, service_planner_can_satisfy_request, satisfies_from,
}
use carrels.Service.Registry.{service_registry_create, register_all, register}
use carrels.Base.{Option, some, Bool, read_u16, read_u32, read_u64, byte, memcpy, memzero}
use carrels.Monitor.State.{PcMonitorError, protocon_state_retrieve_context}
use carrels.Monitor.Requests.{monitor_main_load_trustedlo}
use carrels.Monitor.Init.{
  ca_monitor_init_get_pcnum, ca_monitor_init_validate_pc_count, ca_monitor_init_protocon_states,
  init_protocons, init_protocon, protocon_state_init_symb_header,
}
use carrels.Monitor.Deploy.Requests.{
  wanted_mask, IsAcceptable, monitor_call_deploy_to_protocon_iff, deploy_request_active-rejects,
}
use carrels.Monitor.Deploy.Started.{Targeted, protocon_deploy_to_protocon-Targeted}
use carrels.Monitor.Deploy.Second.{Finished, monitor_call_deploy_second_half-Finished}
use carrels.Monitor.Init.{ca_monitor_init_states}
use carrels.Monitor.Init.Fresh.{IsFresh, ca_monitor_init_states-IsFresh}

abbrev pub env : Env
env = record {
  vswitch_okay = λ t. true;
  vswitch_code = λ t. 0;
  spawns = λ t. true;
  loads_elf = λ i. true;
  writes_registers = λ i. true;
  max_switch_count = 4;
  bundle_size = λ mem p. 0;
  image_header_size = 32;
  entry_matches = true;
  container_image = λ i. 4096 * (i + 1);
  txlo_xrt_req = λ i. 0;
  loader_program = 64;
}

abbrev life_of : ℕ → Lifecycle
life_of i = if i == 0 then active else if i == 1 then suspended else passive

abbrev four : Monitor
four = record {
  protocon_states = λ i. record {
    pc_id = i;
    context = zero_context;
    life_cycle_state = life_of i;
    resource_quota = empty_quota;
    sym_base = 0;
  };
  num_pc = 4;
  pd_io_acl_rule = 0;
  peer_policy = λ i. if i == 0 then 2 else 0;
  monitored_protocon_count = 4;
  req_pc_num = 0;
  deploy_request_active = false;
  deploy_request = no_request;
  deploy_result = record {
    target_pc = 0;
    connected_peer_mask = 0;
    rejected_peer_mask = 0;
    unavailable_peer_mask = 0;
    error = no_error;
    ready = false;
  };
  deploy_pending = false;
  delegators = 16 ∷ 54 ∷ [];
  memory = dlg_file;
  loader_context = λ i. zero_context;
  loader_metadata = λ i. none;
  container_images = λ i. none;
  trace = [];
}

abbrev pub empty : Monitor
empty = record four { memory = svc_file }

abbrev busy : Monitor
busy = record four { deploy_request_active = true }

monitor_acl_apply_deployment-Reported_example :
    Reported env four 1 5 (monitor_acl_apply_deployment env four 1 5)
monitor_acl_apply_deployment-Reported_example = monitor_acl_apply_deployment-Reported env four 1 5

monitor_acl_release_protocon-forgets_example :
    ((monitor_acl_release_protocon env four 1).protocon_states ≡ four.protocon_states)
    × ((j i : ℕ)
        → test_bit ((monitor_acl_release_protocon env four 1).peer_policy j) i
          ≡ (if j == 1 || ltb j 4 && i == 1 then false else test_bit (four.peer_policy j) i))
monitor_acl_release_protocon-forgets_example =
    monitor_acl_release_protocon-forgets env four 1 (omega arith)

monitor_call_query_protocons-map_example :
    (bitmap : ℕ) × (monitor_call_query_protocons four 24
      ≡ (four, record { label = no_error; words = bitmap ∷ monitor_get_pcid_from_ch 24 ∷ [] }))
    × ((j : ℕ)
        → test_bit bitmap j
          ≡ (ltb j 16 && (is_live four j && not (j == monitor_get_pcid_from_ch 24))))
monitor_call_query_protocons-map_example = monitor_call_query_protocons-map four 24

monitor_call_suspend_protocon-lifecycle_example :
    ((monitor_call_suspend_protocon four 0).1 ≡ reply no_error)
    × ((j : ℕ)
        → state_of (monitor_call_suspend_protocon four 0).0 j
          ≡ (if 0 == j && same_state active active then suspended else state_of four j))
    × ((monitor_call_suspend_protocon four 0).0.trace
        ≡ notified_orchestrator ∷ (if same_state active active then stopped 0 ∷ [] else []))
monitor_call_suspend_protocon-lifecycle_example =
    monitor_call_suspend_protocon-lifecycle four 0 (omega arith)

monitor_call_resume_protocon-lifecycle_example :
    ((monitor_call_resume_protocon four 1).1 ≡ reply no_error)
    × ((j : ℕ)
        → state_of (monitor_call_resume_protocon four 1).0 j
          ≡ (if 1 == j && same_state suspended suspended then active else state_of four j))
    × ((monitor_call_resume_protocon four 1).0.trace
        ≡ notified_orchestrator ∷ (if same_state suspended suspended then resumed 1 ∷ [] else []))
monitor_call_resume_protocon-lifecycle_example =
    monitor_call_resume_protocon-lifecycle four 1 (omega arith)

monitor_call_stop_and_restore_protocon-lifecycle_example :
    (m' : Monitor) × (monitor_call_stop_and_restore_protocon env four 1 ≡ some (m', reply no_error))
    × ((j : ℕ) → state_of m' j ≡ (if 1 == j then passive else state_of four j))
    × (m'.container_images 1 ≡ none)
    × ((j i : ℕ)
        → test_bit (m'.peer_policy j) i
          ≡ (if j == 1 || ltb j 4 && i == 1 then false else test_bit (four.peer_policy j) i))
monitor_call_stop_and_restore_protocon-lifecycle_example =
    monitor_call_stop_and_restore_protocon-lifecycle env four 1 (omega arith) (omega arith) refl

monitor_call_backup_protocon_loading_context_iff_example :
    (monitor_call_backup_protocon_loading_context four 1 ≢ none) ↔ ((24 ≤ 1) × (1 < 40))
monitor_call_backup_protocon_loading_context_iff_example =
    monitor_call_backup_protocon_loading_context_iff four 1

monitor_call_deploy_to_protocon_iff_example :
    ((monitor_call_deploy_to_protocon env four 2 3 0).1 ≡ reply no_error
      ↔ IsAcceptable env four 2 3 0)
    × (IsAcceptable env four 2 3 0
        → (monitor_call_deploy_to_protocon env four 2 3 0).0
          ≡ record (record_request four 2 (wanted_mask four 2 3 0)) { deploy_pending = true })
monitor_call_deploy_to_protocon_iff_example = monitor_call_deploy_to_protocon_iff env four 2 3 0

acceptable : IsAcceptable env four 2 3 0
unfolding same_state test_bit
acceptable = record {
  exists = omega arith;
  available = refl;
  flag = omega arith;
  peers = λ e. omega arith;
  not_self = λ e. refl;
  idle = refl;
  spawned = refl;
}

deploy_request_active-rejects_example :
    ((monitor_call_deploy_first_half env busy 1).0 ≡ busy)
    × (succeeds (monitor_call_deploy_first_half env busy 1).1.label ≡ false)
    × ((monitor_call_deploy_to_protocon env busy 2 3 0).0 ≡ busy)
    × (succeeds (monitor_call_deploy_to_protocon env busy 2 3 0).1.label ≡ false)
deploy_request_active-rejects_example = deploy_request_active-rejects env busy 1 2 3 0 refl

abbrev image : PayloadInfo
image = record { header_payload = 0; elf_payload_size = 1; service_count = 0; service_entries = [] }

protocon_deploy_to_protocon-Targeted_example :
    Holds (Targeted four 3) (protocon_deploy_to_protocon env (λ m. m) four image 3)
protocon_deploy_to_protocon-Targeted_example =
    protocon_deploy_to_protocon-Targeted env (λ m. m) four image 3 (λ n j. refl)

monitor_call_deploy_second_half-Finished_example :
    Holds (Finished false) (monitor_call_deploy_second_half env (λ m. m) four)
monitor_call_deploy_second_half-Finished_example =
    monitor_call_deploy_second_half-Finished env (λ m. m) four

ca_monitor_init_states-IsFresh_example :
    Holds (IsFresh dlg_header) (ca_monitor_init_states env (λ i. true) dlg_header svc_db empty)
ca_monitor_init_states-IsFresh_example =
    ca_monitor_init_states-IsFresh env (λ i. true) dlg_header svc_db empty

-- The inputs above are such that the handlers return.
abbrev returns {ℓ} : {A : Type ℓ} → Option A → Bool
returns none = false
returns (some a) = true

abbrev error_of : Option (Monitor × PcMonitorError) → Bool
error_of none = false
error_of (some (m, e)) = succeeds e

deployed : error_of (protocon_deploy_to_protocon env (λ m. m) four image 3) ≡ true
unfolding protocon_deploy_to_protocon carry_out install protocon_pre_instantiate protocon_start
    protocon_init_txlo_info protocon_init_txlo_context protocon_restart_loader protocon_load_payload
    protocon_deploy_plan_check service_planner_select_protocon_by_id
    service_planner_deploy_plan_init choose_sources is_candidate service_planner_can_satisfy_request
    satisfies_from same_state service_manifest_parse parse_entries deploy_plan_reset
    deploy_plan_memzero_services dlg_find_delegator read_u16 read_u32 read_u64 byte memcpy
    protocon_state_retrieve_context service_installer_apply install_all
deployed = refl

second_half_returns : returns (monitor_call_deploy_second_half env (λ m. m) four) ≡ true
unfolding monitor_call_deploy_second_half deploy_parsed monitor_check_deploy_num
second_half_returns = refl

init_returns : returns (ca_monitor_init_states env (λ i. true) dlg_header svc_db empty) ≡ true
unfolding ca_monitor_init_states ca_monitor_init_get_pcnum ca_monitor_init_validate_pc_count
    ca_monitor_init_protocon_states init_protocons init_protocon protocon_state_init_symb_header
    monitor_main_load_trustedlo service_registry_create register_all register read_u16 read_u32
    read_u64 byte memzero
init_returns = refl
