-- ===== src/Tests/Endings.antt =====
-- A container whose deployment ends, and characters from the console.
use carrels.Base.{
  ℕ, ◌≡◌, ◌<◌, ◌==◌, refl, inl, inr, if◌then◌else◌, true, false, Bool, Bool-cases, some, List, [],
  ◌∷◌, ◌++◌, map, arith, codes, same_text, test_bit,
}
use carrels.Tests.Orchestrators.{idle}
use carrels.Tests.Runtimes.{runtime, container}
use carrels.Orchestrator.State.{OrchestratorEnv}
use carrels.Orchestrator.Deployments.{monitor_protocon_is_running}
use carrels.Orchestrator.Commands.{shell_normalise_input}
use carrels.Orchestrator.Input.{orche_handle_serial_event}
use carrels.Orchestrator.Input.Chunks.{IsFed, orche_handle_serial_event-IsFed}
use carrels.Cri.Objects.{CriObject, zero_object, Table}
use carrels.Cri.Objects.View.{view, Distinct}
use carrels.Cri.State.{System}
use carrels.Cri.Transport.{is_starting}
use carrels.Cri.Events.{monitor_notified}
use carrels.Cri.Events.Reports.{IsOver, ended_object, monitor_notified-reports}

abbrev starting_container : CriObject
starting_container = record container { reason = codes "CarrelsStarting" }

abbrev table : Table
table i = if i == 0 then starting_container else zero_object

abbrev is_query : List ℕ → Bool
is_query [] = false
is_query (call ∷ words) = call == 10

-- Protocon 2 has been deployed and runs.
abbrev running_env : OrchestratorEnv
running_env = record {
  microkit_ppcall = λ t words. record { label = 0; mr = λ i. if is_query words then 4 else 2 };
  spawns = λ t. true;
  reads_file = λ t name. true;
  max_protocon_ports = 4;
}

abbrev waiting_system : System
waiting_system = record {
  runtime = record runtime { containers = table };
  orchestrator = record idle {
    deploy_pending = true;
    deploy_from_cri = true;
    cri_slots_in_use = 5;
  };
}

table-Distinct : Distinct table
table-Distinct i j lt lt' p q e = ground arith

alone : (j : ℕ) → j < 32 → is_starting 2 (table j) ≡ true → j ≡ 0
alone j lt h = elim (Bool-cases (j == 0)) [
  | inl first ↦ ground (arith, first)
  | inr other ↦ absurd (let f = rw other at h in cc)
]

monitor_notified-reports_example :
    IsOver waiting_system.orchestrator 2 false
      (monitor_notified running_env 15 waiting_system).orchestrator
    × ((id : List ℕ)
        → view (monitor_notified running_env 15 waiting_system).runtime.containers id ≡ (
            if same_text id starting_container.id
            then some (ended_object 8 false starting_container)
            else view table id))
unfolding same_text monitor_protocon_is_running test_bit
monitor_notified-reports_example =
    monitor_notified-reports running_env 15 waiting_system 0 refl refl refl table-Distinct
      (record { inside = omega arith; starts = refl; alone = alone })

orche_handle_serial_event-IsFed_example :
    IsFed
      (λ (s : List ℕ) c. s ++ c)
      64
      []
      (map shell_normalise_input (codes "flip"))
      (orche_handle_serial_event (λ (s : List ℕ) c. s ++ c) 64 [] (codes "flip"))
orche_handle_serial_event-IsFed_example =
    orche_handle_serial_event-IsFed (λ (s : List ℕ) c. s ++ c) 64 [] (codes "flip") (omega arith)
