-- ===== src/Monitor/Deploy.antt =====
-- src/monitor/request/deploy.c. A deployment has two halves: the call checks and records the
-- request and spawns a cothread; the cothread loads the image, installs the services and starts the
-- protocon. The cothread reads files, and while it waits for them the monitor serves other calls:
-- what those make of the state is the parameter `wait`.
pub mod Requests
pub mod Second
pub mod Started
use carrels.Base.{
  ℕ, zero, suc, ◌+◌, ◌-◌, ◌%◌, ◌^◌, ◌≡◌, ◌==◌, if◌then◌else◌, Bool, true, false, not, ◌&&◌, ◌||◌,
  Option, none, some, List, [], ◌∷◌, ltb, leb, update, Memory, memcpy, test_bit, clear_bit, ◌>>=◌,
  ◌>>◌, assert,
}
use carrels.Delegation.{dlg_find_delegator, delegator_record_size}
use carrels.Service.Types.{
  active, passive, PcState, LoaderContext, DeployPlan, zero_plan, SvcReq, empty_req,
  pc_child_per_monitor_max_num,
}
use carrels.Service.Manifest.{PayloadInfo, service_manifest_header_parse, service_manifest_parse}
use carrels.Service.Planner.{service_planner_select_protocon, service_planner_select_protocon_by_id}
use carrels.Service.Installer.{Patch, service_installer_apply}
use carrels.Monitor.State.{
  Monitor, Env, Reply, reply, DeployRequest, DeployResult, Image, PcMonitorError, no_error,
  invalid_pc_id, invalid_req_pc_num, fail_to_init_coroutine, fail_to_deploy, no_avail_pc,
  invalid_peer_set, pc_unavailable, deploy_in_progress, succeeds, emit, read_data, installed,
  privileged, restarted, monitor_main_notify_orchestrator, protocon_state_check_lifecycle_state,
  protocon_state_set_lifecycle_state, protocon_state_retrieve_context,
}
use carrels.Monitor.Network.{Masks, monitor_acl_apply_deployment}

-- `ORC_MONITOR_REGION_CLIENT_PAYLOAD_BASE`, the value of `__carrels_payload_start`.
abbrev pub carrels_payload_start : ℕ
carrels_payload_start = 0x7000000

abbrev pub no_request : DeployRequest
no_request = record { num_req_pc = 0; target_pc = 0; requested_peer_mask = 0; targeted = false }

unfoldable pub monitor_reset_deploy_request : Monitor → ℕ → Monitor × PcMonitorError
monitor_reset_deploy_request m num_req_pc =
    if m.deploy_request_active then (m, fail_to_deploy) else (
      record m {
        deploy_request = record no_request { num_req_pc = num_req_pc % 2 ^ 32 };
        req_pc_num = num_req_pc % 2 ^ 32;
        deploy_request_active = true;
      },
      no_error,
    )

abbrev pub monitor_deploy_refresh_request : Monitor → Monitor
monitor_deploy_refresh_request m = record m {
  req_pc_num = 0;
  deploy_request = no_request;
  deploy_request_active = false;
}

abbrev pub monitor_finish_deploy_request : Monitor → Monitor
monitor_finish_deploy_request m =
    monitor_main_notify_orchestrator (monitor_deploy_refresh_request m)

unfoldable pub monitor_check_deploy_num : Monitor → ℕ → PcMonitorError
monitor_check_deploy_num m num_req_pc =
    if ltb num_req_pc 1 || ltb m.num_pc num_req_pc then invalid_req_pc_num else no_error

unfoldable pub protocon_deploy_plan_check : DeployPlan → PcMonitorError
protocon_deploy_plan_check plan =
    if leb pc_child_per_monitor_max_num plan.pc_id then no_avail_pc else no_error

-- The symbols and the ELF file are copied behind the image header, which is kept as a record.
unfoldable pub protocon_load_payload : Env → Monitor → ℕ → ℕ → ℕ → ℕ → Monitor
protocon_load_payload env m pc_id dest src elf_size =
    let sym_base = (m.protocon_states pc_id).sym_base in
    let sym_size = env.bundle_size m.memory sym_base in
    let sym_offset = env.image_header_size in
    let elf_offset = sym_offset + sym_size in
    record m {
      container_images = update m.container_images pc_id (
          some (record {
            mktsymb_offset = sym_offset;
            mktsymb_size = sym_size;
            elf_offset = elf_offset;
            elf_size = elf_size;
            mktsymb_source = sym_base;
            elf_source = src;
          }));
      memory =
          memcpy (memcpy m.memory (dest + sym_offset) sym_base sym_size) (dest + elf_offset) src
            elf_size;
    }

-- The plan gets the image's place and the loader's entry, and the payload is loaded there.
unfoldable pub protocon_pre_instantiate :
    Env → Monitor → DeployPlan → PayloadInfo → Option (Monitor × DeployPlan)
protocon_pre_instantiate env m plan payload =
    let dest = env.container_image plan.pc_id in
    do
      assert (not (dest == 0))
      assert env.entry_matches
      some (
        protocon_load_payload env m plan.pc_id dest payload.header_payload payload.elf_payload_size,
        record plan { pc_base = dest; pc_entry = env.loader_program },
      )

-- The delegator's record is copied for the loader: it must exist and fit a page.
unfoldable pub protocon_init_txlo_info : Monitor → ℕ → Option Monitor
protocon_init_txlo_info m pc_id = do
  src ← dlg_find_delegator m.memory m.delegators pc_id
  assert (leb (delegator_record_size m.memory src) 4096)
  some (record m { loader_metadata = update m.loader_metadata pc_id (some src) })

abbrev pub initial_context : Env → LoaderContext → ℕ → LoaderContext
initial_context env c pc_id = record {
  switch_count = if leb env.max_switch_count c.switch_count then 1 else c.switch_count;
  child_id = pc_id;
  channel = 10 + 64 + 15;
  call_id = 20;
}

unfoldable pub protocon_init_txlo_context : Env → Monitor → ℕ → Option Monitor
protocon_init_txlo_context env m pc_id = do
  c ← protocon_state_retrieve_context m pc_id
  some (record m { loader_context = update m.loader_context pc_id (initial_context env c pc_id) })

-- A thread that cannot be restarted crashes the monitor.
unfoldable pub protocon_restart_loader : Env → Monitor → ℕ → ℕ → Option Monitor
protocon_restart_loader env m pc_id entry_point = do
  assert (env.writes_registers pc_id)
  some (emit m (restarted pc_id entry_point))

unfoldable pub protocon_start : Env → Monitor → DeployPlan → Option Monitor
protocon_start env m plan = do
  m1 ← protocon_init_txlo_info m plan.pc_id
  m2 ← protocon_init_txlo_context env m1 plan.pc_id
  protocon_restart_loader env
      (protocon_state_set_lifecycle_state (emit m2 (privileged plan.pc_id)) plan.pc_id active)
      plan.pc_id plan.pc_entry

-- Where the image's ELF file stands; the image has just been loaded.
abbrev pub protocon_image_elf : Monitor → DeployPlan → ℕ
protocon_image_elf m plan = elim (m.container_images plan.pc_id) [
  | none ↦ plan.pc_base
  | some image ↦ plan.pc_base + image.elf_offset
]

module _ (env : Env) (wait : Monitor → Monitor) where
  -- A data file is read into memory, which the cothread waits for: what comes of the read is `wait`'s.
  abbrev pub read_file : Monitor → Patch → Monitor
  read_file m patch = wait (emit m (read_data patch))

  -- The services are installed, and the loader's requests are written for the protocon.
  unfoldable pub install : Monitor → DeployPlan → SvcReq → Monitor
  install m plan req =
      let (m', xrt) =
        service_installer_apply (λ s. s.memory) read_file m (protocon_image_elf m plan) req
          plan.service_sources in
      emit m' (installed plan.pc_id xrt)

  -- What `protocon_deploy` and `protocon_deploy_to_protocon` do with a plan.
  unfoldable pub carry_out :
      Monitor → PayloadInfo → SvcReq → DeployPlan → Option (Monitor × PcMonitorError)
  carry_out m info req plan =
      if not (succeeds (protocon_deploy_plan_check plan))
      then some (m, protocon_deploy_plan_check plan)
      else do
        (m1, plan1) ← protocon_pre_instantiate env m plan info
        m2 ← protocon_start env (install m1 plan1 req) plan1
        some (m2, no_error)

  unfoldable pub protocon_deploy : Monitor → PayloadInfo → Option (Monitor × PcMonitorError)
  protocon_deploy m info = do
    req ← service_manifest_parse m.memory info empty_req
    plan ← service_planner_select_protocon env.txlo_xrt_req req zero_plan m.protocon_states
    carry_out m info req plan

  unfoldable pub protocon_deploy_to_protocon :
      Monitor → PayloadInfo → ℕ → Option (Monitor × PcMonitorError)
  protocon_deploy_to_protocon m info pc_id = do
    req ← service_manifest_parse m.memory info empty_req
    plan ←
        service_planner_select_protocon_by_id env.txlo_xrt_req req zero_plan m.protocon_states pc_id
    carry_out m info req plan

  -- The loop of an untargeted deployment: it stops at the first protocon that is not deployed.
  unfoldable pub deploy_times : ℕ → Monitor → PayloadInfo → Option Monitor
  deploy_times zero m info = some m
  deploy_times (suc n) m info = do
    (m', error) ← protocon_deploy m info
    elim (succeeds error) [ true ↦ deploy_times n m' info | false ↦ some m' ]

  abbrev pub set_error : Monitor → PcMonitorError → Monitor
  set_error m e = record m { deploy_result = record m.deploy_result { error = e } }

  abbrev pub set_ready : Monitor → Monitor
  set_ready m = record m { deploy_result = record m.deploy_result { ready = true } }

  abbrev pub set_masks : Monitor → Option Masks → Monitor
  set_masks m none = m
  set_masks m (some k) = record m {
    deploy_result = record m.deploy_result {
      connected_peer_mask = k.connected;
      rejected_peer_mask = k.rejected;
      unavailable_peer_mask = k.unavailable;
    };
  }

  -- The peers are connected once the protocon has been started.
  unfoldable pub connect_peers : Monitor → DeployRequest → PcMonitorError → Monitor
  connect_peers m request error =
      let (m', error', masks) =
        monitor_acl_apply_deployment env m request.target_pc request.requested_peer_mask in
      if succeeds error then set_error (set_masks m' masks) error' else m

  unfoldable pub deploy_targeted : Monitor → PayloadInfo → Option Monitor
  deploy_targeted m info = do
    (m', error) ← protocon_deploy_to_protocon m info m.deploy_request.target_pc
    some (set_ready (connect_peers (set_error m' error) m'.deploy_request error))

  -- What follows the parse of the image: by whether the request is targeted, and what was parsed.
  unfoldable pub deploy_parsed : Monitor → Bool → Option PayloadInfo → Option Monitor
  deploy_parsed m true none =
      some (monitor_finish_deploy_request (set_ready (set_error m fail_to_deploy)))
  deploy_parsed m false none = some (monitor_finish_deploy_request m)
  deploy_parsed m true (some info) = do
    m' ← deploy_targeted m info
    some (monitor_finish_deploy_request m')
  deploy_parsed m false (some info) = do
    m' ← deploy_times m.deploy_request.num_req_pc m info
    some (monitor_finish_deploy_request m')

  -- The cothread, from its start to its end.
  unfoldable pub monitor_call_deploy_second_half : Monitor → Option Monitor
  monitor_call_deploy_second_half start =
      let m = record start { deploy_pending = false } in
      let request = m.deploy_request in
      if not request.targeted && not (succeeds (monitor_check_deploy_num m request.num_req_pc))
      then some (monitor_finish_deploy_request m)
      else deploy_parsed m request.targeted
          (service_manifest_header_parse m.memory carrels_payload_start)

-- The cothread is spawned. The calls yield to it before they reply, so it may run up to its first wait
-- before the reply: here all that it does is a later event, behind the reply.
unfoldable pub monitor_deploy_second_half : Env → Monitor → Monitor × PcMonitorError
monitor_deploy_second_half env m =
    if env.spawns m.trace
    then (record m { deploy_pending = true }, no_error)
    else (monitor_finish_deploy_request m, fail_to_init_coroutine)

unfoldable pub monitor_call_deploy_first_half : Env → Monitor → ℕ → Monitor × Reply
monitor_call_deploy_first_half env m num_req_pc =
    let checked = monitor_check_deploy_num m num_req_pc in
    let (m1, reset) = monitor_reset_deploy_request m num_req_pc in
    let (m2, spawned) = monitor_deploy_second_half env m1 in
    if not (succeeds checked)
    then (m, reply checked)
    else if not (succeeds reset)
    then (m1, reply reset)
    else (m2, reply spawned)

-- The record of an accepted request.
abbrev pub record_request : Monitor → ℕ → ℕ → Monitor
record_request m pc_id peer_mask = record m {
  deploy_request = record {
    num_req_pc = 1;
    target_pc = pc_id % 2 ^ 32;
    requested_peer_mask = peer_mask % 2 ^ 32;
    targeted = true;
  };
  deploy_request_active = true;
  deploy_result = record {
    target_pc = pc_id % 2 ^ 32;
    connected_peer_mask = 0;
    rejected_peer_mask = 0;
    unavailable_peer_mask = 0;
    error = deploy_in_progress;
    ready = false;
  };
}

abbrev pub after_spawn : Monitor × PcMonitorError → Monitor × Reply
after_spawn (m, error) = if succeeds error then (m, reply no_error) else (
  record m { deploy_result = record m.deploy_result { error = error; ready = true } },
  reply error,
)

-- `all` stands for every other protocon; a mask must name no protocon that there is not, and not
-- the target.
unfoldable pub monitor_call_deploy_to_protocon : Env → Monitor → ℕ → ℕ → ℕ → Monitor × Reply
monitor_call_deploy_to_protocon env m pc_id peer_mask peers_all =
    let mask = if peers_all == 0 then peer_mask else clear_bit (2 ^ m.num_pc - 1) pc_id in
    if leb m.num_pc pc_id
    then (m, reply invalid_pc_id)
    else if not (protocon_state_check_lifecycle_state m pc_id passive)
    then (m, reply pc_unavailable)
    else if ltb 1 peers_all
    then (m, reply invalid_peer_set)
    else if peers_all == 0 && leb (2 ^ m.num_pc) peer_mask
    then (m, reply invalid_peer_set)
    else if test_bit mask pc_id
    then (m, reply invalid_peer_set)
    else if m.deploy_request_active
    then (m, reply fail_to_deploy)
    else after_spawn (monitor_deploy_second_half env (record_request m pc_id mask))

unfoldable pub monitor_call_deploy_result : Monitor → Monitor × Reply
monitor_call_deploy_result m =
    let r = m.deploy_result in
    if not r.ready then (m, reply deploy_in_progress) else (
      m,
      record {
        label = r.error;
        words =
            r.target_pc ∷ r.connected_peer_mask ∷ r.rejected_peer_mask ∷ r.unavailable_peer_mask
            ∷ [];
      },
    )
