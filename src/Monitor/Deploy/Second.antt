-- ===== src/Monitor/Deploy/Second.antt =====
-- How the cothread of a deployment ends.
use carrels.Base.{
  ◌≡◌, refl, inl, inr, Bool, true, false, not, ◌&&◌, Option, none, some, List, ◌∷◌, Holds,
  Holds-bind, Holds-of, Bool-cases, arith,
}
use carrels.Service.Manifest.{PayloadInfo, service_manifest_header_parse}
use carrels.Monitor.State.{Monitor, Env, Effect, notified_orchestrator, succeeds}
use carrels.Monitor.Deploy.{
  no_request, deploy_targeted, deploy_times, deploy_parsed, protocon_deploy_to_protocon,
  monitor_call_deploy_second_half, monitor_check_deploy_num, carrels_payload_start,
}

-- No deployment is under way, the orchestrator has just been notified, and if the request was
-- targeted its result can be fetched.
abbrev pub Finished : Bool → Monitor → Type 0
Finished was_targeted m =
    (m.deploy_request_active ≡ false)
    × (m.deploy_request ≡ no_request)
    × ((t : List Effect) × (m.trace ≡ notified_orchestrator ∷ t))
    × (was_targeted ≡ true → m.deploy_result.ready ≡ true)

deploy_targeted-ready :
    (env : Env) (wait : Monitor → Monitor) (m : Monitor) (info : PayloadInfo)
    → Holds (λ m'. m'.deploy_result.ready ≡ true) (deploy_targeted env wait m info)
unfolding deploy_targeted
deploy_targeted-ready env wait m info =
    Holds-bind (λ r. Unit {0}) _
      (protocon_deploy_to_protocon env wait m info m.deploy_request.target_pc) _
      (Holds-of _ _ (λ a e. tt)) (λ r u. refl)

deploy_parsed-Finished :
    (env : Env) (wait : Monitor → Monitor) (m : Monitor) (targeted : Bool) (o : Option PayloadInfo)
    → Holds (Finished targeted) (deploy_parsed env wait m targeted o)
unfolding deploy_parsed
deploy_parsed-Finished env wait m true none = (refl, refl, (_, refl), λ e. refl)
deploy_parsed-Finished env wait m false none = (refl, refl, (_, refl), λ e. cc)
deploy_parsed-Finished env wait m true (some info) =
    Holds-bind _ (Finished true) (deploy_targeted env wait m info) _
      (deploy_targeted-ready env wait m info) (λ m' r. (refl, refl, (_, refl), λ e. r))
deploy_parsed-Finished env wait m false (some info) =
    Holds-bind (λ m'. Unit {0}) (Finished false)
      (deploy_times env wait m.deploy_request.num_req_pc m info) _ (Holds-of _ _ (λ a e. tt))
      (λ m' r. (refl, refl, (_, refl), λ e. cc))

-- However a deployment ends, unless the monitor halts, the next one can be asked for, the
-- orchestrator has just been notified, and the result of a targeted deployment can be fetched.
pub monitor_call_deploy_second_half-Finished :
    (env : Env) (wait : Monitor → Monitor) (m : Monitor)
    → Holds (Finished m.deploy_request.targeted) (monitor_call_deploy_second_half env wait m)
unfolding monitor_call_deploy_second_half
monitor_call_deploy_second_half-Finished env wait m =
    elim (Bool-cases (
      not m.deploy_request.targeted
      && not (
          succeeds (
            monitor_check_deploy_num (record m { deploy_pending = false })
              m.deploy_request.num_req_pc)))) [
                | inl bad ↦ rw bad (refl, refl, (_, refl), λ e. ground arith)
                | inr good ↦ rw good (
                    deploy_parsed-Finished env wait (record m { deploy_pending = false })
                      m.deploy_request.targeted
                      (service_manifest_header_parse m.memory carrels_payload_start))
              ]
