-- ===== src/Monitor/Deploy/Started.antt =====
-- What a deployment does to the lifecycles.
use carrels.Base.{
  ℕ, ◌<◌, ◌≤◌, ◌≡◌, refl, ◌∙◌, ap, inl, inr, true, ◌&&◌, arith, ltb, leb, update, Holds, Holds-map,
  Holds-bind, Holds-of, if◌then◌else◌, ◌==◌, Bool-cases,
}
use carrels.Service.Types.{
  Lifecycle, active, passive, same_state, PcState, DeployPlan, SvcReq, empty_req, zero_plan,
}
use carrels.Service.Manifest.{PayloadInfo, service_manifest_parse}
use carrels.Service.Installer.Rounds.{service_installer_apply-keeps}
use carrels.Service.Planner.{service_planner_select_protocon_by_id, is_candidate}
use carrels.Service.Planner.Choice.{service_planner_select_protocon_by_id-pc_id}
use carrels.Monitor.State.{Monitor, Env, PcMonitorError, succeeds}
use carrels.Monitor.Requests.Lifecycles.{state_of}
use carrels.Monitor.Deploy.{
  protocon_pre_instantiate, protocon_load_payload, protocon_init_txlo_info,
  protocon_init_txlo_context, protocon_restart_loader, protocon_start, install, read_file,
  protocon_image_elf, carry_out, protocon_deploy_plan_check, protocon_deploy_to_protocon,
}

protocon_pre_instantiate-states :
    (env : Env) (m : Monitor) (plan : DeployPlan) (info : PayloadInfo)
    → Holds
        (λ (r : Monitor × DeployPlan).
          (r.0.protocon_states ≡ m.protocon_states) × (r.1.pc_id ≡ plan.pc_id))
        (protocon_pre_instantiate env m plan info)
unfolding protocon_pre_instantiate protocon_load_payload
protocon_pre_instantiate-states env m plan info = ground arith

abbrev Starts : Monitor → ℕ → Monitor → Type 0
Starts m pc_id m' = (j : ℕ) → state_of m' j ≡ (if pc_id == j then active else state_of m j)

protocon_init_txlo_info-states :
    (m : Monitor) (pc_id : ℕ)
    → Holds (λ m'. m'.protocon_states ≡ m.protocon_states) (protocon_init_txlo_info m pc_id)
unfolding protocon_init_txlo_info
protocon_init_txlo_info-states m pc_id = ground arith

protocon_init_txlo_context-states :
    (env : Env) (m : Monitor) (pc_id : ℕ)
    → Holds (λ m'. m'.protocon_states ≡ m.protocon_states) (protocon_init_txlo_context env m pc_id)
unfolding protocon_init_txlo_context
protocon_init_txlo_context-states env m pc_id = ground arith

protocon_restart_loader-states :
    (env : Env) (m : Monitor) (pc_id entry : ℕ)
    → Holds
        (λ m'. m'.protocon_states ≡ m.protocon_states)
        (protocon_restart_loader env m pc_id entry)
unfolding protocon_restart_loader
protocon_restart_loader-states env m pc_id entry = ground arith

abbrev life : (ℕ → PcState) → ℕ → Lifecycle
life s j = (s j).life_cycle_state

life-update :
    (s : ℕ → PcState) (pc_id j : ℕ)
    → life (update s pc_id (record (s pc_id) { life_cycle_state = active })) j
      ≡ (if pc_id == j then active else life s j)
life-update s pc_id j = ground arith

protocon_start-Starts :
    (env : Env) (m : Monitor) (plan : DeployPlan)
    → Holds (Starts m plan.pc_id) (protocon_start env m plan)
unfolding protocon_start
protocon_start-Starts env m plan =
    Holds-bind _ (Starts m plan.pc_id) (protocon_init_txlo_info m plan.pc_id) _
      (protocon_init_txlo_info-states m plan.pc_id)
      (λ m1 e1.
        Holds-bind _ (Starts m plan.pc_id) (protocon_init_txlo_context env m1 plan.pc_id) _
          (protocon_init_txlo_context-states env m1 plan.pc_id)
          (λ m2 e2.
            Holds-map _ (Starts m plan.pc_id)
              (protocon_restart_loader env _ plan.pc_id plan.pc_entry)
              (λ m3 e3 j.
                ap (λ s. life s j) e3
                ∙ life-update m2.protocon_states plan.pc_id j
                ∙ ap (λ s. if plan.pc_id == j then active else life s j) (e2 ∙ e1))
              (protocon_restart_loader-states env _ plan.pc_id plan.pc_entry)))

-- A successful deployment starts one of the 16 protocons and changes no other lifecycle; a failed
-- one changes nothing at all.
abbrev pub Deployed : Monitor → ℕ → Monitor × PcMonitorError → Type 0
Deployed m pc_id (m', error) =
    if succeeds error then (pc_id < 16) × Starts m pc_id m' else (m' ≡ m) × (16 ≤ pc_id)

module _ (env : Env) (wait : Monitor → Monitor)
    (keeps : (m : Monitor) (j : ℕ) → state_of (wait m) j ≡ state_of m j) where
  install-states :
      (m : Monitor) (plan : DeployPlan) (req : SvcReq) (j : ℕ)
      → state_of (install env wait m plan req) j ≡ state_of m j
  unfolding install
  install-states m plan req =
      service_installer_apply-keeps (λ s. s.memory) (read_file env wait)
        (λ s. (j : ℕ) → state_of s j ≡ state_of m j) (λ s patch h j. keeps _ j ∙ h j) m
        (protocon_image_elf m plan) req plan.service_sources (λ j. refl)

  carry_out-Deployed :
      (m : Monitor) (info : PayloadInfo) (req : SvcReq) (plan : DeployPlan)
      → Holds (Deployed m plan.pc_id) (carry_out env wait m info req plan)
  unfolding carry_out protocon_deploy_plan_check
  carry_out-Deployed m info req plan = elim (Bool-cases (leb 16 plan.pc_id)) [
    | inl missing ↦ rw missing (refl, ground arith)
    | inr found ↦ rw found (
        Holds-bind _ (Deployed m plan.pc_id) (protocon_pre_instantiate env m plan info) _
          (protocon_pre_instantiate-states env m plan info)
          (λ r e.
            Holds-bind _ (Deployed m plan.pc_id)
              (protocon_start env (install env wait r.0 r.1 req) r.1) _
              (protocon_start-Starts env (install env wait r.0 r.1 req) r.1)
              (λ m2 s. (
                ground arith,
                λ j.
                    s j
                    ∙ ap
                        (λ (p : ℕ).
                          if p == j then active else state_of (install env wait r.0 r.1 req) j)
                        e.1
                    ∙ ap (λ (l : Lifecycle). if plan.pc_id == j then active else l)
                        (install-states r.0 r.1 req j ∙ ap (λ t. life t j) e.0),
              ))))
  ]

-- The protocon that was asked for is one of the 16, was passive, and is the only one that starts;
-- or nothing has changed.
abbrev pub Targeted : Monitor → ℕ → Monitor × PcMonitorError → Type 0
Targeted m pc_id (m', error) =
    if succeeds error
    then (pc_id < 16) × (same_state (state_of m pc_id) passive ≡ true) × Starts m pc_id m'
    else m' ≡ m

Deployed-Targeted :
    (m : Monitor) (req : SvcReq) (chosen pc_id : ℕ) (r : Monitor × PcMonitorError)
    → chosen ≡ (if ltb pc_id 16 && is_candidate req (m.protocon_states pc_id) then pc_id else 16)
    → Deployed m chosen r
    → Targeted m pc_id r
unfolding is_candidate
Deployed-Targeted m req chosen pc_id (m', error) e d = elim (Bool-cases (succeeds error)) [
  | inl fine ↦
      let (inside, starts) = rw fine at d in
      let same : chosen ≡ pc_id = ground arith in
      rw fine (
        ground arith,
        ground arith,
        λ j. starts j ∙ ap (λ (p : ℕ). if p == j then active else state_of m j) same,
      )
  | inr failed ↦ let (kept, none_found) = rw failed at d in rw failed kept
]

-- A targeted deployment that does not halt, where the calls served in the meantime change no
-- lifecycle, either starts the protocon that was asked for, which was passive, and changes no other
-- lifecycle, or fails and changes nothing.
pub protocon_deploy_to_protocon-Targeted :
    (env : Env) (wait : Monitor → Monitor) (m : Monitor) (info : PayloadInfo) (pc_id : ℕ)
    → ((n : Monitor) (j : ℕ) → state_of (wait n) j ≡ state_of n j)
    → Holds (Targeted m pc_id) (protocon_deploy_to_protocon env wait m info pc_id)
unfolding protocon_deploy_to_protocon
protocon_deploy_to_protocon-Targeted env wait m info pc_id keeps =
    Holds-bind (λ r. Unit {0}) (Targeted m pc_id) (service_manifest_parse m.memory info empty_req) _
      (Holds-of _ _ (λ a e. tt))
      (λ req u.
        Holds-bind
          (λ plan.
            plan.pc_id
            ≡ (if ltb pc_id 16 && is_candidate req (m.protocon_states pc_id) then pc_id else 16))
          (Targeted m pc_id)
          (service_planner_select_protocon_by_id env.txlo_xrt_req req zero_plan m.protocon_states
            pc_id)
          _
          (Holds-of _ _ (λ plan e.
            service_planner_select_protocon_by_id-pc_id env.txlo_xrt_req req zero_plan plan
              m.protocon_states pc_id e))
          (λ plan e.
            Holds-map (Deployed m plan.pc_id) (Targeted m pc_id)
              (carry_out env wait m info req plan)
              (λ r d. Deployed-Targeted m req plan.pc_id pc_id r e d)
              (carry_out-Deployed env wait keeps m info req plan)))
