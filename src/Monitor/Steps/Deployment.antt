-- ===== src/Monitor/Steps/Deployment.antt =====
-- What the cothread of a deployment makes of the deployment and of the peers.
use carrels.Base.{
  ℕ, zero, suc, ◌+◌, ◌≡◌, ◌==◌, ==→≡, refl, sym, ◌∙◌, inl, inr, Bool-cases, Option, none, some,
  arith, leb, update, Holds, Holds-map, Holds-bind, Holds-of,
}
use carrels.Service.Types.{DeployPlan, active}
use carrels.Service.Manifest.{PayloadInfo}
use carrels.Delegation.{dlg_find_delegator, delegator_record_size}
use carrels.Monitor.State.{
  Monitor, Env, emit, privileged, protocon_state_set_lifecycle_state,
  protocon_state_retrieve_context,
}
use carrels.Monitor.Network.{
  Masks, no_peers, apply_peer, apply_from, then_peers, finish_masks, monitor_acl_apply_deployment,
}
use carrels.Monitor.Deploy.{
  protocon_pre_instantiate, protocon_load_payload, protocon_init_txlo_info,
  protocon_init_txlo_context, protocon_restart_loader, protocon_start,
}
use carrels.Monitor.Steps.Quiet.{Quiet, Quiet-refl, Quiet-of, Quiet-trans}
use carrels.Monitor.Steps.Calls.{IsPeerSet, IsSane, Quiet-IsSane}

apply_peer-Quiet :
    (env : Env) (m : Monitor) (pc_id requested peer : ℕ) (k : Masks)
    → Quiet m (apply_peer env m pc_id requested peer k).0
unfolding apply_peer
apply_peer-Quiet env m pc_id requested peer k =
    Quiet-of m (apply_peer env m pc_id requested peer k).0 (ground arith) (ground arith)
      (ground arith) (ground arith) (ground arith) (ground arith)

then_peers-Quiet :
    (m : Monitor) (o : Monitor × Option Masks) (f : Monitor → Masks → Monitor × Option Masks)
    → Quiet m o.0
    → ((m' : Monitor) (k : Masks) → Quiet m' (f m' k).0)
    → Quiet m (then_peers o f).0
then_peers-Quiet m (m', none) f q later = q
then_peers-Quiet m (m', some k) f q later = Quiet-trans m m' (f m' k).0 q (later m' k)

apply_from-Quiet :
    (env : Env) (pc_id requested n peer : ℕ) (m : Monitor) (k : Masks)
    → Quiet m (apply_from env m pc_id requested n peer k).0
unfolding apply_from
apply_from-Quiet env pc_id requested zero peer m k = Quiet-refl m
apply_from-Quiet env pc_id requested (suc n) peer m k =
    then_peers-Quiet m (apply_peer env m pc_id requested peer k) _
      (apply_peer-Quiet env m pc_id requested peer k)
      (λ m' k'. apply_from-Quiet env pc_id requested n (peer + 1) m' k')

finish_masks-Quiet :
    (m : Monitor) (o : Monitor × Option Masks) → Quiet m o.0 → Quiet m (finish_masks o).0
finish_masks-Quiet m (m', none) q = q
finish_masks-Quiet m (m', some k) q = q

-- A protocon that there is gets peers that there are.
pub apply_deployment-IsSane :
    (env : Env) (n : ℕ) (m : Monitor) (pc_id requested : ℕ)
    → IsSane n m
    → IsPeerSet n pc_id requested
    → IsSane n (monitor_acl_apply_deployment env m pc_id requested).0
unfolding monitor_acl_apply_deployment
apply_deployment-IsSane env n m pc_id requested v (exists, peers) =
    elim (Bool-cases (leb m.monitored_protocon_count pc_id)) [
      | inl outside ↦ rw outside v
      | inr inside ↦
          let m' = record m { peer_policy = update m.peer_policy pc_id requested } in
          rw inside (
            Quiet-IsSane n m' _
              (finish_masks-Quiet m' _
                (apply_from-Quiet env pc_id requested m.monitored_protocon_count 0 m' no_peers))
              (record {
                number = v.number;
                count = v.count;
                pending = v.pending;
                request = v.request;
                peers = λ j i b. elim (Bool-cases (pc_id == j)) [
                  | inl same ↦
                      let e = ==→≡ pc_id j same in
                      let (below, differ) = peers i (rw same at b) in
                      (below, λ d. differ (d ∙ sym e))
                  | inr other ↦ v.peers j i (rw other at b)
                ];
              }))
    ]

pub apply_deployment-pending :
    (env : Env) (m : Monitor) (pc_id requested : ℕ)
    → (monitor_acl_apply_deployment env m pc_id requested).0.deploy_pending ≡ m.deploy_pending
unfolding monitor_acl_apply_deployment
apply_deployment-pending env m pc_id requested =
    elim (Bool-cases (leb m.monitored_protocon_count pc_id)) [
      | inl outside ↦ rw outside refl
      | inr inside ↦
          let m' = record m { peer_policy = update m.peer_policy pc_id requested } in
          rw inside
            (finish_masks-Quiet m' _ (
              apply_from-Quiet env pc_id requested m.monitored_protocon_count 0 m'
                no_peers)).pending
    ]

pub protocon_pre_instantiate-Quiet :
    (env : Env) (m : Monitor) (plan : DeployPlan) (info : PayloadInfo)
    → Holds (λ (r : Monitor × DeployPlan). Quiet m r.0) (protocon_pre_instantiate env m plan info)
unfolding protocon_pre_instantiate protocon_load_payload
protocon_pre_instantiate-Quiet env m plan info =
    elim (Bool-cases (env.container_image plan.pc_id == 0)) [
      | inl missing ↦ rw missing tt
      | inr placed ↦ elim (Bool-cases env.entry_matches) [
        | inl fine ↦ rw (placed, fine) (Quiet-of m _ refl refl refl refl refl refl)
        | inr bad ↦ rw (placed, bad) tt
      ]
    ]

protocon_init_txlo_info-Quiet :
    (m : Monitor) (pc_id : ℕ) → Holds (Quiet m) (protocon_init_txlo_info m pc_id)
unfolding protocon_init_txlo_info
protocon_init_txlo_info-Quiet m pc_id =
    Holds-bind (λ src. Unit {0}) (Quiet m) (dlg_find_delegator m.memory m.delegators pc_id) _
      (Holds-of _ _ (λ a e. tt))
      (λ src u. elim (Bool-cases (leb (delegator_record_size m.memory src) 4096)) [
        | inl fits ↦ rw fits (Quiet-of m _ refl refl refl refl refl refl)
        | inr over ↦ rw over tt
      ])

protocon_init_txlo_context-Quiet :
    (env : Env) (m : Monitor) (pc_id : ℕ) → Holds (Quiet m) (protocon_init_txlo_context env m pc_id)
unfolding protocon_init_txlo_context
protocon_init_txlo_context-Quiet env m pc_id =
    Holds-bind (λ c. Unit {0}) (Quiet m) (protocon_state_retrieve_context m pc_id) _
      (Holds-of _ _ (λ a e. tt)) (λ c u. Quiet-of m _ refl refl refl refl refl refl)

protocon_restart_loader-Quiet :
    (env : Env) (m : Monitor) (pc_id entry : ℕ)
    → Holds (Quiet m) (protocon_restart_loader env m pc_id entry)
unfolding protocon_restart_loader
protocon_restart_loader-Quiet env m pc_id entry = elim (Bool-cases (env.writes_registers pc_id)) [
  | inl written ↦ rw written (Quiet-of m _ refl refl refl refl refl refl)
  | inr broken ↦ rw broken tt
]

pub protocon_start-Quiet :
    (env : Env) (m : Monitor) (plan : DeployPlan) → Holds (Quiet m) (protocon_start env m plan)
unfolding protocon_start
protocon_start-Quiet env m plan =
    Holds-bind _ (Quiet m) (protocon_init_txlo_info m plan.pc_id) _
      (protocon_init_txlo_info-Quiet m plan.pc_id)
      (λ m1 q1.
        Holds-bind _ (Quiet m) (protocon_init_txlo_context env m1 plan.pc_id) _
          (protocon_init_txlo_context-Quiet env m1 plan.pc_id)
          (λ m2 q2.
            let m3 =
              protocon_state_set_lifecycle_state (emit m2 (privileged plan.pc_id)) plan.pc_id
                active in
            Holds-map (Quiet m3) (Quiet m) (protocon_restart_loader env m3 plan.pc_id plan.pc_entry)
              (λ m4 q4. Quiet-trans m m1 m4 q1 (
                Quiet-trans m1 m2 m4 q2
                  (Quiet-trans m2 m3 m4 (Quiet-of m2 m3 refl refl refl refl refl refl) q4)))
              (protocon_restart_loader-Quiet env m3 plan.pc_id plan.pc_entry)))
