-- ===== src/Tests/Reachables.antt =====
-- A monitor that has been initialised and has served a call.
use carrels.Base.{◌≡◌, refl, true, Option, none, some, read_u16, read_u32, read_u64, byte, memzero}
use carrels.Tests.Files.{svc_db, dlg_header}
use carrels.Tests.Monitors.{env, empty}
use carrels.Service.Registry.{service_registry_create, register_all, register}
use carrels.Monitor.State.{Monitor, reply, no_error}
use carrels.Monitor.Requests.{monitor_main_load_trustedlo, monitor_call_suspend_protocon}
use carrels.Monitor.Init.{
  ca_monitor_init_states, ca_monitor_init_get_pcnum, ca_monitor_init_validate_pc_count,
  ca_monitor_init_protocon_states, init_protocons, init_protocon, protocon_state_init_symb_header,
}
use carrels.Monitor.Calls.{Words, call_of, handle_call, monitor_main_handle_pccall}
use carrels.Monitor.Steps.{protected, idle, handled, started, then_event}
use carrels.Monitor.Steps.Calls.{IsSane}
use carrels.Monitor.Steps.Reach.{monitor_reachable-IsSane}

abbrev result_of : Option Monitor → Monitor
result_of none = empty
result_of (some m) = m

abbrev start : Monitor
start = result_of (ca_monitor_init_states env (λ i. true) dlg_header svc_db empty)

initialised : ca_monitor_init_states env (λ i. true) dlg_header svc_db empty ≡ some start
unfolding ca_monitor_init_states ca_monitor_init_get_pcnum ca_monitor_init_validate_pc_count
    ca_monitor_init_protocon_states init_protocons init_protocon protocon_state_init_symb_header
    monitor_main_load_trustedlo service_registry_create register_all register read_u16 read_u32
    read_u64 byte memzero
initialised = refl

abbrev suspend_first : Words
suspend_first = record { mr1 = 0; mr2 = 0; mr3 = 0 }

abbrev later : Monitor
later = (monitor_call_suspend_protocon start 0).0

suspends : monitor_main_handle_pccall env start 3 24 suspend_first ≡ some (later, reply no_error)
unfolding monitor_main_handle_pccall handle_call call_of monitor_call_suspend_protocon
suspends = refl

monitor_reachable-IsSane_example : IsSane dlg_header.delegator_count later
monitor_reachable-IsSane_example =
    monitor_reachable-IsSane env (λ m. m) (λ i. true) dlg_header svc_db empty start later
      (record { untargeted = refl; none_pending = refl }) initialised (λ m. idle)
      (then_event started (handled (protected 3 24 suspend_first suspends)))
