-- ===== src/Monitor/Steps.antt =====
-- src/monitor/entry.c: the monitor as the kernel runs it, one event after another.
pub mod Calls
pub mod Deployment
pub mod Quiet
pub mod Reach
pub mod Second
pub mod Startup
use carrels.Base.{ℕ, ◌≡◌, Bool, true, Option, some}
use carrels.Monitor.State.{Monitor, Env, Reply}
use carrels.Monitor.Calls.{Words, monitor_main_handle_pccall}
use carrels.Monitor.Fault.{FaultLabel, monitor_main_handle_fault}
use carrels.Monitor.Deploy.{monitor_call_deploy_second_half}

-- The entry points that run to their end: a protected call, and a fault.
pub data MonitorStep (env : Env) : Monitor → Monitor → Type 0 where
  protected :
      {m m' : Monitor} {r : Reply} (call_id ch : ℕ) (w : Words)
      → monitor_main_handle_pccall env m call_id ch w ≡ some (m', r)
      → MonitorStep env m m'
  fault :
      {m m' : Monitor} (child : ℕ) (label : FaultLabel)
      → monitor_main_handle_fault env m child label ≡ some m'
      → MonitorStep env m m'

-- What happens while a cothread waits.
pub data Run (env : Env) (m : Monitor) : Monitor → Type 0 where
  idle : Run env m m
  then_step : {m' m'' : Monitor} → Run env m m' → MonitorStep env m' m'' → Run env m m''

abbrev pub IsWait : Env → (Monitor → Monitor) → Type 0
IsWait env wait = (m : Monitor) → Run env m (wait m)

-- An event of the monitor: a step, or the cothread of a deployment that has been spawned.
pub data MonitorEvent (env : Env) (wait : Monitor → Monitor) : Monitor → Monitor → Type 0 where
  handled : {m m' : Monitor} → MonitorStep env m m' → MonitorEvent env wait m m'
  deployed :
      {m m' : Monitor}
      → m.deploy_pending ≡ true
      → monitor_call_deploy_second_half env wait m ≡ some m'
      → MonitorEvent env wait m m'

pub data Reachable (env : Env) (wait : Monitor → Monitor) (m : Monitor) : Monitor → Type 0 where
  started : Reachable env wait m m
  then_event :
      {m' m'' : Monitor}
      → Reachable env wait m m'
      → MonitorEvent env wait m' m''
      → Reachable env wait m m''
