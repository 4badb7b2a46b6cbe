-- ===== src/Cri/Events.antt =====
-- `notified` of src/orchestrator/orchestrator.c: how a notification reaches the shell, the container
-- runtime, or the deployment that is pending, and what the end of a deployment is to the runtime.
pub mod Reports
use carrels.Base.{ℕ, ◌==◌, if◌then◌else◌, Bool, List, [], ◌∷◌}
use carrels.Orchestrator.State.{
  Orchestrator, OrchestratorEnv, Event, called, spawned, deploy_completed,
}
use carrels.Orchestrator.Deployments.{print_deploy_result}
use carrels.Cri.State.{CriRuntime, System}
use carrels.Cri.Transport.{CriEnv, cri_runtime_deploy_complete, cri_runtime_notified}

-- The runtime hears of the end of a deployment, the last thing that the orchestrator does then.
abbrev pub heard : CriRuntime → List Event → CriRuntime
heard r (deploy_completed pc_id failed ∷ t) = cri_runtime_deploy_complete r pc_id failed
heard r (called words ∷ t) = r
heard r (spawned targeted ∷ t) = r
heard r [] = r

-- The monitor's notification.
unfoldable pub monitor_notified : OrchestratorEnv → ℕ → System → System
monitor_notified env mon_deploy_in_progress s =
    let o = print_deploy_result env mon_deploy_in_progress s.orchestrator in
    if s.orchestrator.deploy_pending
    then record { runtime = heard s.runtime o.trace; orchestrator = o }
    else s

-- The channels that the build gives to the console and to the transport.
pub record Channels : Type 0 where
  pub serial : ℕ
  pub vsock : ℕ

abbrev pub monitor_channel : ℕ
monitor_channel = 30

-- `resume` is what the file system's completions and the cothreads that wait for the channel do, and
-- `type_in` what the shell makes of the characters that wait.
unfoldable pub notified :
    CriEnv
    → (System → System)
    → Channels
    → ℕ
    → (System → ℕ → System)
    → (System → System)
    → System
    → ℕ
    → List (List ℕ)
    → System
notified env yield channels mon_deploy_in_progress resume type_in s ch packets =
    let s1 = resume s ch in
    if ch == channels.serial
    then type_in s1
    else if ch == channels.vsock
    then cri_runtime_notified env yield s1 packets
    else if ch == monitor_channel
    then monitor_notified env.orchestrator_env mon_deploy_in_progress s1
    else s1
