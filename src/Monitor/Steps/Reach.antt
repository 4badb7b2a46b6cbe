-- ===== src/Monitor/Steps/Reach.antt =====
-- What holds whatever events the monitor handles.
use carrels.Base.{
  ℕ, ◌≤◌, ◌≡◌, refl, ◌∙◌, ap, inl, inr, Bool, true, false, Bool-cases, some, arith, test_bit-zero,
  Holds, Holds-some, Holds-map, Holds-bind, Holds-of, zero, suc, ◌+◌, ltb,
}
use carrels.Delegation.{DlgHeader}
use carrels.ServiceDb.{SvcDb}
use carrels.Monitor.State.{Monitor, Env, Reply, DeployRequest}
use carrels.Monitor.Calls.{
  Call, call_of, deploy, deploy_to_protocon, Words, handle_call, monitor_main_handle_pccall,
}
use carrels.Monitor.Fault.{monitor_main_handle_fault}
use carrels.Monitor.Deploy.{monitor_call_deploy_second_half}
use carrels.Monitor.Init.{
  ca_monitor_init_states, ca_monitor_init_get_pcnum, ca_monitor_init_validate_pc_count,
  init_protocon, init_protocons, protocon_state_init_symb_header, ca_monitor_init_protocon_states,
}
use carrels.Monitor.Network.{monitor_acl_initialise}
use carrels.Monitor.Requests.{monitor_main_load_trustedlo}
use carrels.Service.Registry.{service_registry_create}
use carrels.Monitor.Steps.{
  MonitorStep, protected, fault, Run, idle, then_step, IsWait, MonitorEvent, handled, deployed,
  Reachable, started, then_event,
}
use carrels.Monitor.Steps.Quiet.{Quiet, Quiet-refl, Quiet-of, Quiet-trans, fault-Quiet}
use carrels.Monitor.Steps.Calls.{
  other_call-Quiet, busy_call-Quiet, first_half-IsSane, targeted-IsSane, IsSane, Quiet-IsSane,
}
use carrels.Monitor.Steps.Second.{second_half-IsSane}

MonitorStep-Quiet :
    {env : Env} {m m' : Monitor}
    → MonitorStep env m m'
    → m.deploy_request_active ≡ true
    → Quiet m m'
unfolding monitor_main_handle_pccall
MonitorStep-Quiet {env} {m} {m'} (protected call_id ch w e) busy =
    Holds-some (λ (r : Monitor × Reply). Quiet m r.0)
      (monitor_main_handle_pccall env m call_id ch w)
      (busy_call-Quiet env (call_of call_id) m ch w busy) e
MonitorStep-Quiet {env} {m} {m'} (fault child label e) busy =
    Holds-some (Quiet m) (monitor_main_handle_fault env m child label)
      (fault-Quiet env m child label) e

Run-Quiet :
    {env : Env} {m m' : Monitor} → Run env m m' → m.deploy_request_active ≡ true → Quiet m m'
Run-Quiet idle busy = Quiet-refl _
Run-Quiet (then_step run step) busy =
    let q = Run-Quiet run busy in Quiet-trans _ _ _ q (MonitorStep-Quiet step (q.active ∙ busy))

call-IsSane :
    (env : Env) (n : ℕ) (call : Call) (m : Monitor) (ch : ℕ) (w : Words)
    → n ≤ 16
    → IsSane n m
    → Holds (λ (r : Monitor × Reply). IsSane n r.0) (handle_call env call m ch w)
unfolding handle_call
call-IsSane env n deploy m ch w few v = first_half-IsSane env n w.mr1 m v
call-IsSane env n deploy_to_protocon m ch w few v = targeted-IsSane env n m w.mr1 w.mr2 w.mr3 few v
call-IsSane env n call m ch w few v =
    Holds-map (λ (r : Monitor × Reply). Quiet m r.0) (λ (r : Monitor × Reply). IsSane n r.0)
      (handle_call env call m ch w) (λ r q. Quiet-IsSane n m r.0 q v)
      (other_call-Quiet env call m ch w refl)

MonitorEvent-IsSane :
    {env : Env} {wait : Monitor → Monitor} {m m' : Monitor} (n : ℕ)
    → n ≤ 16
    → IsWait env wait
    → MonitorEvent env wait m m'
    → IsSane n m
    → IsSane n m'
unfolding monitor_main_handle_pccall
MonitorEvent-IsSane {env} {wait} {m} n few waits (handled (protected call_id ch w e)) v =
    Holds-some (λ (r : Monitor × Reply). IsSane n r.0)
      (monitor_main_handle_pccall env m call_id ch w)
      (call-IsSane env n (call_of call_id) m ch w few v) e
MonitorEvent-IsSane {env} {wait} {m} {m'} n few waits (handled (fault child label e)) v =
    Quiet-IsSane n m m'
      (Holds-some (Quiet m) (monitor_main_handle_fault env m child label)
        (fault-Quiet env m child label) e)
      v
MonitorEvent-IsSane {env} {wait} {m} n few waits (deployed pending e) v =
    Holds-some (IsSane n) (monitor_call_deploy_second_half env wait m)
      (second_half-IsSane env wait (λ m1 busy. Run-Quiet (waits m1) busy) n m pending v) e

Reachable-IsSane :
    {env : Env} {wait : Monitor → Monitor} {m m' : Monitor} (n : ℕ)
    → n ≤ 16
    → IsWait env wait
    → IsSane n m
    → Reachable env wait m m'
    → IsSane n m'
Reachable-IsSane n few waits v started = v
Reachable-IsSane n few waits v (then_event before event) =
    MonitorEvent-IsSane n few waits event (Reachable-IsSane n few waits v before)

init_protocon-Quiet :
    (env : Env) (has_symbols : ℕ → Bool) (m : Monitor) (i : ℕ)
    → Holds (Quiet m) (init_protocon env has_symbols m i)
unfolding init_protocon protocon_state_init_symb_header monitor_main_load_trustedlo
init_protocon-Quiet env has_symbols m i = elim (Bool-cases (has_symbols i)) [
  | inl found ↦ elim (Bool-cases (env.loads_elf i)) [
    | inl loads ↦ rw (found, loads) (Quiet-of m _ refl refl refl refl refl refl)
    | inr broken ↦ rw (found, broken) tt
  ]
  | inr missing ↦ rw missing tt
]

init_protocons-Quiet :
    (env : Env) (has_symbols : ℕ → Bool) (n i : ℕ) (m : Monitor)
    → Holds (Quiet m) (init_protocons env has_symbols n i m)
unfolding init_protocons
init_protocons-Quiet env has_symbols zero i m = Quiet-refl m
init_protocons-Quiet env has_symbols (suc n) i m =
    Holds-bind (Quiet m) (Quiet m) (init_protocon env has_symbols m i) _
      (init_protocon-Quiet env has_symbols m i)
      (λ mid q.
        Holds-map (Quiet mid) (Quiet m) (init_protocons env has_symbols n (i + 1) mid)
          (λ m' q'. Quiet-trans m mid m' q q') (init_protocons-Quiet env has_symbols n (i + 1) mid))

-- The globals before the initialisation, which the program's loader has cleared.
pub record IsCleared (m : Monitor) : Type 0 where
  pub untargeted : m.deploy_request.targeted ≡ false
  pub none_pending : m.deploy_pending ≡ false

init_protocon_states-Quiet :
    (env : Env) (has_symbols : ℕ → Bool) (svc : SvcDb) (m : Monitor) (n : ℕ)
    → Holds (Quiet m) (ca_monitor_init_protocon_states env has_symbols svc m n)
unfolding ca_monitor_init_protocon_states
init_protocon_states-Quiet env has_symbols svc m n =
    Holds-bind (Quiet m) (Quiet m) (init_protocons env has_symbols n 0 m) _
      (init_protocons-Quiet env has_symbols n 0 m)
      (λ mid q.
        Holds-bind (λ states. Unit {0}) (Quiet m)
          (service_registry_create mid.memory (some svc) mid.protocon_states) _
          (Holds-of _ _ (λ a e. tt))
          (λ states u. Quiet-trans m mid _ q (Quiet-of mid _ refl refl refl refl refl refl)))

pub init_states-IsSane :
    (env : Env) (has_symbols : ℕ → Bool) (dlg : DlgHeader) (svc : SvcDb) (m : Monitor)
    → IsCleared m
    → Holds
        (λ m'. IsSane dlg.delegator_count m' × (dlg.delegator_count ≤ 16))
        (ca_monitor_init_states env has_symbols dlg svc m)
unfolding ca_monitor_init_states ca_monitor_init_get_pcnum ca_monitor_init_validate_pc_count
    monitor_acl_initialise
init_states-IsSane env has_symbols dlg svc m c = elim (Bool-cases (ltb 16 dlg.delegator_count)) [
  | inl many ↦ rw many tt
  | inr few ↦ rw few (
      Holds-bind _ _ (ca_monitor_init_protocon_states env has_symbols svc _ dlg.delegator_count) _
        (init_protocon_states-Quiet env has_symbols svc _ dlg.delegator_count)
        (λ m' q. (
          record {
            number = q.num_pc;
            count = q.num_pc;
            pending = λ h. absurd (let d = c.none_pending in let e = q.pending in cc);
            request = λ t. absurd (
                let same = ap (λ (d : DeployRequest). d.targeted) q.request in
                let d = c.untargeted in cc);
            peers = λ j i b. absurd (let z = test_bit-zero i in cc);
          },
          ground arith,
        )))
]

-- From its initialisation on, whatever calls, faults and deployments come in whatever order, and
-- whatever is served while a deployment waits for the file system, the monitor keeps: there are as many
-- protocons as delegators, and no protocon has itself or a protocon that there is not as a peer; a
-- deployment that is pending is under way.
pub monitor_reachable-IsSane :
    (env : Env) (wait : Monitor → Monitor) (has_symbols : ℕ → Bool) (dlg : DlgHeader) (svc : SvcDb)
    (m start m' : Monitor)
    → IsCleared m
    → ca_monitor_init_states env has_symbols dlg svc m ≡ some start
    → IsWait env wait
    → Reachable env wait start m'
    → IsSane dlg.delegator_count m'
monitor_reachable-IsSane env wait has_symbols dlg svc m start m' cleared initialised waits reached =
    let (v, few) =
      Holds-some (λ m1. IsSane dlg.delegator_count m1 × (dlg.delegator_count ≤ 16))
        (ca_monitor_init_states env has_symbols dlg svc m)
        (init_states-IsSane env has_symbols dlg svc m cleared) initialised in
    Reachable-IsSane dlg.delegator_count few waits v reached
