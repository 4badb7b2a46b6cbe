-- ===== src/Monitor/State.antt =====
-- The monitor's globals (src/monitor/entry.c, src/monitor/request, src/monitor/init), and the small
-- functions on them of include/carrels-monitor.h and include/pcmcall. The monitor is one thread:
-- a call runs to its end, or up to a point where its cothread waits for the file system. A handler
-- is a function on the state; `none` is a halt: an assertion that fails, `microkit_internal_crash`,
-- or an access out of bounds.
use carrels.Base.{
  ℕ, ◌+◌, ◌-◌, if◌then◌else◌, Bool, true, false, ◌||◌, Option, none, some, List, [], ◌∷◌, ltb, leb,
  update, Memory,
}
use carrels.Service.Types.{
  Lifecycle, active, suspended, same_state, PcState, LoaderContext, zero_context, empty_quota,
  pc_child_per_monitor_max_num,
}
use carrels.Service.Installer.{XrtReq, Patch}

-- include/pcmcall/error.h.
pub data PcMonitorError : Type 0 where
  no_error dummy_error invalid_pc_id invalid_req_pc_num : PcMonitorError
  fail_to_init_coroutine fail_to_deploy no_avail_pc vswitch_error : PcMonitorError
  invalid_peer_set pc_unavailable deploy_in_progress : PcMonitorError

abbrev pub succeeds : PcMonitorError → Bool
succeeds no_error = true
succeeds _ = false

-- The label of a reply and its message registers.
pub record Reply : Type 0 where
  pub label : PcMonitorError
  pub words : List ℕ

abbrev pub reply : PcMonitorError → Reply
reply e = record { label = e; words = [] }

-- What the monitor does to the rest of the system.
pub data Effect : Type 0 where
  notified_orchestrator : Effect
  stopped resumed loaded_trustedlo privileged : ℕ → Effect
  vswitch_acl : ℕ → ℕ → ℕ → Effect
  read_data : Patch → Effect
  installed : ℕ → XrtReq → Effect
  restarted : ℕ → ℕ → Effect

-- The systems below the monitor and the generated layout. The answers of the vSwitch and of the
-- cothread library may depend on all that has happened, newest first.
pub record Env : Type 0 where
  pub vswitch_okay : List Effect → Bool
  pub vswitch_code : List Effect → ℕ
  pub spawns : List Effect → Bool
  pub loads_elf : ℕ → Bool
  pub writes_registers : ℕ → Bool
  pub max_switch_count : ℕ
  pub bundle_size : Memory → ℕ → ℕ
  pub image_header_size : ℕ
  pub entry_matches : Bool
  pub container_image : ℕ → ℕ
  pub txlo_xrt_req : ℕ → ℕ
  pub loader_program : ℕ

-- include/pcmcall/deploy.h.
pub record DeployRequest : Type 0 where
  pub num_req_pc : ℕ
  pub target_pc : ℕ
  pub requested_peer_mask : ℕ
  pub targeted : Bool

pub record DeployResult : Type 0 where
  pub target_pc : ℕ
  pub connected_peer_mask : ℕ
  pub rejected_peer_mask : ℕ
  pub unavailable_peer_mask : ℕ
  pub error : PcMonitorError
  pub ready : Bool

-- The header that `protocon_load_payload` writes in front of a client's image, and what it copies.
pub record Image : Type 0 where
  pub mktsymb_offset : ℕ
  pub mktsymb_size : ℕ
  pub elf_offset : ℕ
  pub elf_size : ℕ
  pub mktsymb_source : ℕ
  pub elf_source : ℕ

-- `loader_context`, `loader_metadata` and `container_images` are the regions of each protocon that
-- the monitor shares with its loader; `deploy_pending` says that the cothread of a deployment has
-- been spawned and has not run yet.
pub record Monitor : Type 0 where
  pub protocon_states : ℕ → PcState
  pub num_pc : ℕ
  pub pd_io_acl_rule : ℕ
  pub peer_policy : ℕ → ℕ
  pub monitored_protocon_count : ℕ
  pub req_pc_num : ℕ
  pub deploy_request_active : Bool
  pub deploy_request : DeployRequest
  pub deploy_result : DeployResult
  pub deploy_pending : Bool
  pub delegators : List ℕ
  pub memory : Memory
  pub loader_context : ℕ → LoaderContext
  pub loader_metadata : ℕ → Option ℕ
  pub container_images : ℕ → Option Image
  pub trace : List Effect

-- A handler's outcome.
abbrev pub Outcome : Type 0
Outcome = Option (Monitor × Reply)

abbrev pub emit : Monitor → Effect → Monitor
emit m e = record m { trace = e ∷ m.trace }

abbrev pub monitor_main_notify_orchestrator : Monitor → Monitor
monitor_main_notify_orchestrator m = emit m notified_orchestrator

abbrev pub pc_monitor_protocon_base_channel : ℕ
pc_monitor_protocon_base_channel = 24

abbrev pub invalid_pc : ℕ
invalid_pc = 0xffc

unfoldable pub monitor_get_pcid_from_ch : ℕ → ℕ
monitor_get_pcid_from_ch ch =
    if ltb ch pc_monitor_protocon_base_channel
      || leb (pc_monitor_protocon_base_channel + pc_child_per_monitor_max_num) ch
    then invalid_pc
    else ch - pc_monitor_protocon_base_channel

abbrev pub protocon_state_get_lifecycle_state : Monitor → ℕ → Lifecycle
protocon_state_get_lifecycle_state m pc_id = (m.protocon_states pc_id).life_cycle_state

abbrev pub protocon_state_check_lifecycle_state : Monitor → ℕ → Lifecycle → Bool
protocon_state_check_lifecycle_state m pc_id state =
    same_state (protocon_state_get_lifecycle_state m pc_id) state

abbrev pub set_state : Monitor → ℕ → PcState → Monitor
set_state m pc_id s = record m { protocon_states = update m.protocon_states pc_id s }

abbrev pub protocon_state_set_lifecycle_state : Monitor → ℕ → Lifecycle → Monitor
protocon_state_set_lifecycle_state m pc_id state =
    set_state m pc_id (record (m.protocon_states pc_id) { life_cycle_state = state })

-- NULL for an index past the array.
unfoldable pub protocon_state_retrieve_context : Monitor → ℕ → Option LoaderContext
protocon_state_retrieve_context m pc_id =
    if leb pc_child_per_monitor_max_num pc_id then none else some (m.protocon_states pc_id).context

abbrev pub protocon_state_memzero_services : Monitor → ℕ → Monitor
protocon_state_memzero_services m pc_id =
    set_state m pc_id (record (m.protocon_states pc_id) { resource_quota = empty_quota })

abbrev pub protocon_state_memzero_context : Monitor → ℕ → Monitor
protocon_state_memzero_context m pc_id =
    set_state m pc_id (record (m.protocon_states pc_id) { context = zero_context })

abbrev pub protocon_state_memzero_symb_header : Monitor → ℕ → Monitor
protocon_state_memzero_symb_header m pc_id =
    set_state m pc_id (record (m.protocon_states pc_id) { sym_base = 0 })

-- Whether a protocon counts as running for its peers.
abbrev pub is_live : Monitor → ℕ → Bool
is_live m pc_id =
    protocon_state_check_lifecycle_state m pc_id active
    || protocon_state_check_lifecycle_state m pc_id suspended
