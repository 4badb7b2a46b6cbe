-- ===== src/Monitor/Fault.antt =====
-- src/monitor/fault/fault.c: a fault of a protocon's thread, which the kernel reports to the
-- monitor.
pub mod Outcomes
use carrels.Base.{
  ℕ, ◌+◌, ◌≡◌, ◌==◌, if◌then◌else◌, Bool, true, false, not, ◌&&◌, ◌||◌, Option, none, some, List,
  ◌>>=◌,
}
use carrels.Monitor.State.{
  Monitor, Env, stopped, emit, monitor_main_notify_orchestrator, pc_monitor_protocon_base_channel,
}
use carrels.Monitor.Requests.{monitor_call_restore_protocon}

-- The kinds of fault that the handler tells apart. `seL4_Fault_VMFault` carries the instruction
-- pointer and the address.
pub data FaultLabel : Type 0 where
  vm_fault : ℕ → ℕ → FaultLabel
  other_fault : FaultLabel

-- `ip | address` is 0 exactly when both are. Only a VM fault sets the flag.
unfoldable pub notify_flag : FaultLabel → Bool
notify_flag (vm_fault ip address) = not (ip == 0 && address == 0)
notify_flag other_fault = false

unfoldable pub monitor_main_handle_fault : Env → Monitor → ℕ → FaultLabel → Option Monitor
monitor_main_handle_fault env m child label =
    let m1 = emit m (stopped child) in
    if not (notify_flag label) then some m1 else do
      (m2, answer) ←
          monitor_call_restore_protocon env (monitor_main_notify_orchestrator m1)
            (child + pc_monitor_protocon_base_channel)
      some m2
