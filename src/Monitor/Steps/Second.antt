-- ===== src/Monitor/Steps/Second.antt =====
-- The cothread of a deployment as a whole.
use carrels.Base.{
  ℕ, zero, suc, ◌≡◌, ap, refl, ◌∙◌, inl, inr, Bool, true, false, not, ◌&&◌, Bool-cases, Option,
  none, some, Holds, Holds-map, Holds-bind, Holds-of,
}
use carrels.Service.Types.{DeployPlan, SvcReq, empty_req, zero_plan}
use carrels.Service.Installer.{service_installer_apply}
use carrels.Service.Installer.Rounds.{service_installer_apply-keeps}
use carrels.Service.Manifest.{PayloadInfo, service_manifest_parse, service_manifest_header_parse}
use carrels.Service.Planner.{service_planner_select_protocon, service_planner_select_protocon_by_id}
use carrels.Monitor.State.{
  read_data, Monitor, Env, DeployRequest, PcMonitorError, succeeds, fail_to_deploy, emit,
}
use carrels.Monitor.Network.{Masks, monitor_acl_apply_deployment}
use carrels.Monitor.Deploy.{
  protocon_pre_instantiate, protocon_start, install, read_file, protocon_image_elf, carry_out,
  protocon_deploy_plan_check, protocon_deploy, protocon_deploy_to_protocon, deploy_times,
  deploy_targeted, deploy_parsed, connect_peers, set_masks, set_error, set_ready,
  monitor_call_deploy_second_half, monitor_check_deploy_num, monitor_finish_deploy_request,
  carrels_payload_start,
}
use carrels.Monitor.Steps.Quiet.{Quiet, Quiet-refl, Quiet-of, Quiet-trans}
use carrels.Monitor.Steps.Calls.{IsPeerSet, IsSane, Quiet-IsSane}
use carrels.Monitor.Steps.Deployment.{
  apply_deployment-IsSane, apply_deployment-pending, protocon_pre_instantiate-Quiet,
  protocon_start-Quiet,
}

module _ (env : Env) (wait : Monitor → Monitor)
    (quiet : (m : Monitor) → m.deploy_request_active ≡ true → Quiet m (wait m)) where
  abbrev DeployQuiet : Monitor → Monitor × PcMonitorError → Type 0
  DeployQuiet m r = Quiet m r.0

  install-Quiet :
      (m : Monitor) (plan : DeployPlan) (req : SvcReq)
      → m.deploy_request_active ≡ true
      → Quiet m (install env wait m plan req)
  unfolding install
  install-Quiet m plan req busy =
      let apply = service_installer_apply (λ s. s.memory) (read_file env wait) m in
      Quiet-trans m (apply (protocon_image_elf m plan) req plan.service_sources).0 _
        (service_installer_apply-keeps (λ s. s.memory) (read_file env wait) (Quiet m)
          (λ s patch q. Quiet-trans m s _ q (
            Quiet-trans s (emit s (read_data patch)) _
              (Quiet-of s (emit s (read_data patch)) refl refl refl refl refl refl)
              (quiet (emit s (read_data patch)) (q.active ∙ busy))))
          m (protocon_image_elf m plan) req plan.service_sources (Quiet-refl m))
        (Quiet-of _ _ refl refl refl refl refl refl)

  carry_out-Quiet :
      (m : Monitor) (info : PayloadInfo) (req : SvcReq) (plan : DeployPlan)
      → m.deploy_request_active ≡ true
      → Holds (DeployQuiet m) (carry_out env wait m info req plan)
  unfolding carry_out
  carry_out-Quiet m info req plan busy =
      elim (Bool-cases (succeeds (protocon_deploy_plan_check plan))) [
        | inl fine ↦ rw fine (
            Holds-bind _ (DeployQuiet m) (protocon_pre_instantiate env m plan info) _
              (protocon_pre_instantiate-Quiet env m plan info)
              (λ r q1.
                let q2 = install-Quiet r.0 r.1 req (q1.active ∙ busy) in
                Holds-bind _ (DeployQuiet m) (protocon_start env (install env wait r.0 r.1 req) r.1)
                  _ (protocon_start-Quiet env (install env wait r.0 r.1 req) r.1)
                  (λ m2 q3.
                    Quiet-trans m r.0 m2 q1
                      (Quiet-trans r.0 (install env wait r.0 r.1 req) m2 q2 q3))))
        | inr bad ↦ rw bad (Quiet-refl m)
      ]

  deploy-Quiet :
      (m : Monitor) (info : PayloadInfo)
      → m.deploy_request_active ≡ true
      → Holds (DeployQuiet m) (protocon_deploy env wait m info)
  unfolding protocon_deploy
  deploy-Quiet m info busy =
      Holds-bind (λ r. Unit {0}) (DeployQuiet m) (service_manifest_parse m.memory info empty_req) _
        (Holds-of _ _ (λ a e. tt))
        (λ req u.
          Holds-bind (λ plan. Unit {0}) (DeployQuiet m)
            (service_planner_select_protocon env.txlo_xrt_req req zero_plan m.protocon_states) _
            (Holds-of _ _ (λ a e. tt)) (λ plan u'. carry_out-Quiet m info req plan busy))

  deploy_to_protocon-Quiet :
      (m : Monitor) (info : PayloadInfo) (pc_id : ℕ)
      → m.deploy_request_active ≡ true
      → Holds (DeployQuiet m) (protocon_deploy_to_protocon env wait m info pc_id)
  unfolding protocon_deploy_to_protocon
  deploy_to_protocon-Quiet m info pc_id busy =
      Holds-bind (λ r. Unit {0}) (DeployQuiet m) (service_manifest_parse m.memory info empty_req) _
        (Holds-of _ _ (λ a e. tt))
        (λ req u.
          Holds-bind (λ plan. Unit {0}) (DeployQuiet m)
            (service_planner_select_protocon_by_id env.txlo_xrt_req req zero_plan m.protocon_states
              pc_id)
            _ (Holds-of _ _ (λ a e. tt)) (λ plan u'. carry_out-Quiet m info req plan busy))

  deploy_times-Quiet :
      (k : ℕ) (m : Monitor) (info : PayloadInfo)
      → m.deploy_request_active ≡ true
      → Holds (Quiet m) (deploy_times env wait k m info)
  unfolding deploy_times
  deploy_times-Quiet zero m info busy = Quiet-refl m
  deploy_times-Quiet (suc k) m info busy =
      Holds-bind _ (Quiet m) (protocon_deploy env wait m info) _ (deploy-Quiet m info busy)
        (λ r q. go r.0 (succeeds r.1) q (deploy_times-Quiet k r.0 info (q.active ∙ busy)))
    where
      go :
          (m' : Monitor) (fine : Bool)
          → Quiet m m'
          → Holds (Quiet m') (deploy_times env wait k m' info)
          → Holds (Quiet m) (elim fine [ true ↦ deploy_times env wait k m' info | false ↦ some m' ])
      go m' true q rest =
          Holds-map (Quiet m') (Quiet m) (deploy_times env wait k m' info)
            (λ m'' q'. Quiet-trans m m' m'' q q') rest
      go m' false q rest = q

  set_masks-Quiet : (m : Monitor) (masks : Option Masks) → Quiet m (set_masks env wait m masks)
  set_masks-Quiet m none = Quiet-refl m
  set_masks-Quiet m (some k) = Quiet-of m _ refl refl refl refl refl refl

  set_error-IsSane :
      (n : ℕ) (m : Monitor) (e : PcMonitorError) → IsSane n m → IsSane n (set_error env wait m e)
  set_error-IsSane n m e = Quiet-IsSane n m _ (Quiet-of m _ refl refl refl refl refl refl)

  connect_peers-IsSane :
      (n : ℕ) (m : Monitor) (request : DeployRequest) (error : PcMonitorError)
      → IsSane n m
      → IsPeerSet n request.target_pc request.requested_peer_mask
      → IsSane n (connect_peers env wait m request error)
  unfolding connect_peers
  connect_peers-IsSane n m request error v peers = elim (Bool-cases (succeeds error)) [
    | inl fine ↦
        let w =
          apply_deployment-IsSane env n m request.target_pc request.requested_peer_mask v peers in
        rw fine (
          set_error-IsSane n _ _ (
            Quiet-IsSane n _ _
              (set_masks-Quiet
                (monitor_acl_apply_deployment env m request.target_pc request.requested_peer_mask).0
                (monitor_acl_apply_deployment env m request.target_pc
                  request.requested_peer_mask).2)
              w))
    | inr failed ↦ rw failed v
  ]

  set_masks-pending :
      (m : Monitor) (masks : Option Masks)
      → (set_masks env wait m masks).deploy_pending ≡ m.deploy_pending
  set_masks-pending m none = refl
  set_masks-pending m (some k) = refl

  connect_peers-pending :
      (m : Monitor) (request : DeployRequest) (error : PcMonitorError)
      → (connect_peers env wait m request error).deploy_pending ≡ m.deploy_pending
  unfolding connect_peers
  connect_peers-pending m request error = elim (Bool-cases (succeeds error)) [
    | inl fine ↦ rw fine (
        set_masks-pending
          (monitor_acl_apply_deployment env m request.target_pc request.requested_peer_mask).0
          (monitor_acl_apply_deployment env m request.target_pc request.requested_peer_mask).2
        ∙ apply_deployment-pending env m request.target_pc request.requested_peer_mask)
    | inr failed ↦ rw failed refl
  ]

  -- The deployment is not pending while it is carried out.
  abbrev Carried : ℕ → Monitor → Type 0
  Carried n m = IsSane n m × (m.deploy_pending ≡ false)

  deploy_targeted-Carried :
      (n : ℕ) (m : Monitor) (info : PayloadInfo)
      → m.deploy_request_active ≡ true
      → m.deploy_request.targeted ≡ true
      → Carried n m
      → Holds (Carried n) (deploy_targeted env wait m info)
  unfolding deploy_targeted
  deploy_targeted-Carried n m info busy targeted (v, done) =
      Holds-bind _ (Carried n)
        (protocon_deploy_to_protocon env wait m info m.deploy_request.target_pc) _
        (deploy_to_protocon-Quiet m info m.deploy_request.target_pc busy)
        (λ r q.
          let m1 = set_error env wait r.0 r.1 in
          let w = Quiet-IsSane n m r.0 q v in
          let made =
            connect_peers-IsSane n m1 r.0.deploy_request r.1 (set_error-IsSane n r.0 r.1 w)
              (w.request (ap (λ x. x.targeted) q.request ∙ targeted)) in
          (
            Quiet-IsSane n _ _ (Quiet-of _ _ refl refl refl refl refl refl) made,
            connect_peers-pending m1 r.0.deploy_request r.1 ∙ q.pending ∙ done,
          ))

  -- A finished deployment is no longer pending.
  finish-IsSane :
      (n : ℕ) (m : Monitor)
      → m.deploy_pending ≡ false
      → IsSane n m
      → IsSane n (monitor_finish_deploy_request m)
  finish-IsSane n m done v = record {
    number = v.number;
    count = v.count;
    pending = λ h. absurd (let d = done in cc);
    request = λ t. absurd (let f = t in cc);
    peers = v.peers;
  }

  deploy_parsed-IsSane :
      (n : ℕ) (m : Monitor) (targeted : Bool) (o : Option PayloadInfo)
      → m.deploy_request_active ≡ true
      → m.deploy_request.targeted ≡ targeted
      → Carried n m
      → Holds (IsSane n) (deploy_parsed env wait m targeted o)
  unfolding deploy_parsed
  deploy_parsed-IsSane n m true none busy e (v, done) =
      let failed = set_ready env wait (set_error env wait m fail_to_deploy) in
      finish-IsSane n failed done
        (Quiet-IsSane n m failed (Quiet-of m failed refl refl refl refl refl refl) v)
  deploy_parsed-IsSane n m false none busy e (v, done) = finish-IsSane n m done v
  deploy_parsed-IsSane n m true (some info) busy e c =
      Holds-bind _ (IsSane n) (deploy_targeted env wait m info) _
        (deploy_targeted-Carried n m info busy e c) (λ m' r. finish-IsSane n m' r.1 r.0)
  deploy_parsed-IsSane n m false (some info) busy e (v, done) =
      Holds-bind _ (IsSane n) (deploy_times env wait m.deploy_request.num_req_pc m info) _
        (deploy_times-Quiet m.deploy_request.num_req_pc m info busy)
        (λ m' q. finish-IsSane n m' (q.pending ∙ done) (Quiet-IsSane n m m' q v))

  pub second_half-IsSane :
      (n : ℕ) (start : Monitor)
      → start.deploy_pending ≡ true
      → IsSane n start
      → Holds (IsSane n) (monitor_call_deploy_second_half env wait start)
  unfolding monitor_call_deploy_second_half
  second_half-IsSane n start pending v =
      let m = record start { deploy_pending = false } in
      let w : IsSane n m = record {
        number = v.number;
        count = v.count;
        pending = λ h. absurd (let f = h in cc);
        request = v.request;
        peers = v.peers;
      } in
      elim (Bool-cases (
        not m.deploy_request.targeted
        && not (succeeds (monitor_check_deploy_num m m.deploy_request.num_req_pc)))) [
          | inl bad ↦ rw bad (finish-IsSane n m refl w)
          | inr good ↦ rw good (
              deploy_parsed-IsSane n m start.deploy_request.targeted
                (service_manifest_header_parse m.memory carrels_payload_start) (v.pending pending)
                refl (w, refl))
        ]
