-- ===== src/Monitor/Steps/Quiet.antt =====
-- What the monitor's calls leave alone.
use carrels.Base.{
  ℕ, zero, suc, ◌+◌, ◌≡◌, ◌==◌, refl, sym, ◌∙◌, ap, inl, inr, true, Bool-cases, arith, leb,
  test_bit, test_bit-zero, Holds, Holds-map, Holds-bind,
}
use carrels.Monitor.State.{
  Monitor, Env, Reply, Effect, emit, monitor_get_pcid_from_ch, stopped, notified_orchestrator,
  monitor_main_notify_orchestrator, protocon_state_retrieve_context,
}
use carrels.Service.Types.{PcState}
use carrels.Monitor.Network.{
  monitor_call_set_vswitch_acl, monitor_acl_release_protocon, release_peer, release_from,
}
use carrels.Monitor.Network.Release.{release_peer-Forgotten}
use carrels.Monitor.Requests.{
  monitor_main_load_trustedlo, monitor_call_backup_protocon_loading_context,
  monitor_call_restore_protocon, monitor_call_stop_and_restore_protocon,
  monitor_call_suspend_protocon, monitor_call_resume_protocon,
}
use carrels.Monitor.Fault.{FaultLabel, monitor_main_handle_fault, notify_flag}

-- The deployment and the number of protocons stay, and no protocon gets another peer.
pub record Quiet (m m' : Monitor) : Type 0 where
  pub num_pc : m'.num_pc ≡ m.num_pc
  pub count : m'.monitored_protocon_count ≡ m.monitored_protocon_count
  pub active : m'.deploy_request_active ≡ m.deploy_request_active
  pub pending : m'.deploy_pending ≡ m.deploy_pending
  pub request : m'.deploy_request ≡ m.deploy_request
  pub fewer : (j i : ℕ) → test_bit (m'.peer_policy j) i ≡ true → test_bit (m.peer_policy j) i ≡ true

pub Quiet-refl : (m : Monitor) → Quiet m m
Quiet-refl m = record {
  num_pc = refl;
  count = refl;
  active = refl;
  pending = refl;
  request = refl;
  fewer = λ j i h. h;
}

pub Quiet-trans : (m m' m'' : Monitor) → Quiet m m' → Quiet m' m'' → Quiet m m''
Quiet-trans m m' m'' a b = record {
  num_pc = b.num_pc ∙ a.num_pc;
  count = b.count ∙ a.count;
  active = b.active ∙ a.active;
  pending = b.pending ∙ a.pending;
  request = b.request ∙ a.request;
  fewer = λ j i h. a.fewer j i (b.fewer j i h);
}

-- A change of the lifecycles, the regions, the memory or the trace is quiet.
pub Quiet-of :
    (m m' : Monitor)
    → m'.num_pc ≡ m.num_pc
    → m'.monitored_protocon_count ≡ m.monitored_protocon_count
    → m'.deploy_request_active ≡ m.deploy_request_active
    → m'.deploy_pending ≡ m.deploy_pending
    → m'.deploy_request ≡ m.deploy_request
    → m'.peer_policy ≡ m.peer_policy
    → Quiet m m'
Quiet-of m m' a b c d e f = record {
  num_pc = a;
  count = b;
  active = c;
  pending = d;
  request = e;
  fewer = λ j i h. ap (λ p. test_bit (p j) i) (sym f) ∙ h;
}

-- The lifecycle changes first, or the trace last.
Quiet-after :
    (m : Monitor) (states : ℕ → PcState) (m' : Monitor)
    → Quiet (record m { protocon_states = states }) m'
    → Quiet m m'
Quiet-after m states m' q =
    Quiet-trans m (record m { protocon_states = states }) m'
      (Quiet-of m _ refl refl refl refl refl refl) q

Quiet-emit : (m m' : Monitor) (e : Effect) → Quiet m m' → Quiet m (emit m' e)
Quiet-emit m m' e q = Quiet-trans m m' (emit m' e) q (Quiet-of m' _ refl refl refl refl refl refl)

pub set_vswitch_acl-Quiet :
    (env : Env) (m : Monitor) (a b c : ℕ) → Quiet m (monitor_call_set_vswitch_acl env m a b c).0
unfolding monitor_call_set_vswitch_acl
set_vswitch_acl-Quiet env m a b c =
    Quiet-of m (monitor_call_set_vswitch_acl env m a b c).0 (ground arith) (ground arith)
      (ground arith) (ground arith) (ground arith) (ground arith)

load_trustedlo-Quiet :
    (env : Env) (m : Monitor) (cid : ℕ) → Holds (Quiet m) (monitor_main_load_trustedlo env m cid)
unfolding monitor_main_load_trustedlo
load_trustedlo-Quiet env m cid = elim (Bool-cases (env.loads_elf cid)) [
  | inl loads ↦ rw loads (Quiet-of m _ refl refl refl refl refl refl)
  | inr broken ↦ rw broken tt
]

restore-Quiet :
    (env : Env) (m : Monitor) (ch : ℕ)
    → Holds (λ (r : Monitor × Reply). Quiet m r.0) (monitor_call_restore_protocon env m ch)
unfolding monitor_call_restore_protocon
restore-Quiet env m ch = elim (Bool-cases (monitor_get_pcid_from_ch ch == 0xffc)) [
  | inl unknown ↦ rw unknown (Quiet-of m _ refl refl refl refl refl refl)
  | inr known ↦ rw known (
      Holds-bind _ _ (monitor_main_load_trustedlo env _ (monitor_get_pcid_from_ch ch)) _
        (load_trustedlo-Quiet env _ (monitor_get_pcid_from_ch ch))
        (λ m' q. Quiet-emit m m' notified_orchestrator (Quiet-after m _ m' q)))
]

pub suspend-Quiet : (m : Monitor) (pc : ℕ) → Quiet m (monitor_call_suspend_protocon m pc).0
unfolding monitor_call_suspend_protocon
suspend-Quiet m pc =
    Quiet-of m (monitor_call_suspend_protocon m pc).0 (ground arith) (ground arith) (ground arith)
      (ground arith) (ground arith) (ground arith)

pub resume-Quiet : (m : Monitor) (pc : ℕ) → Quiet m (monitor_call_resume_protocon m pc).0
unfolding monitor_call_resume_protocon
resume-Quiet m pc =
    Quiet-of m (monitor_call_resume_protocon m pc).0 (ground arith) (ground arith) (ground arith)
      (ground arith) (ground arith) (ground arith)

pub backup-Quiet :
    (m : Monitor) (ch : ℕ)
    → Holds
        (λ (r : Monitor × Reply). Quiet m r.0)
        (monitor_call_backup_protocon_loading_context m ch)
unfolding monitor_call_backup_protocon_loading_context protocon_state_retrieve_context
backup-Quiet m ch = elim (Bool-cases (leb 16 (monitor_get_pcid_from_ch ch))) [
  | inl missing ↦ rw missing tt
  | inr found ↦ rw found (Quiet-of m _ refl refl refl refl refl refl)
]

release_peer-Quiet :
    (env : Env) (m : Monitor) (pc_id peer : ℕ) → Quiet m (release_peer env m pc_id peer)
unfolding release_peer
release_peer-Quiet env m pc_id peer = record {
  num_pc = ground arith;
  count = ground arith;
  active = ground arith;
  pending = ground arith;
  request = ground arith;
  fewer = λ j i h. let f = (release_peer-Forgotten env m pc_id peer).2 j i in ground arith;
}

release_from-Quiet :
    (env : Env) (pc_id n peer : ℕ) (m : Monitor) → Quiet m (release_from env m pc_id n peer)
unfolding release_from
release_from-Quiet env pc_id zero peer m = Quiet-refl m
release_from-Quiet env pc_id (suc n) peer m =
    Quiet-trans m (release_peer env m pc_id peer) _ (release_peer-Quiet env m pc_id peer)
      (release_from-Quiet env pc_id n (peer + 1) (release_peer env m pc_id peer))

release-Quiet :
    (env : Env) (m : Monitor) (pc_id : ℕ) → Quiet m (monitor_acl_release_protocon env m pc_id)
unfolding monitor_acl_release_protocon
release-Quiet env m pc_id = elim (Bool-cases (leb m.monitored_protocon_count pc_id)) [
  | inl outside ↦ rw outside (Quiet-refl m)
  | inr inside ↦
      let q = release_from-Quiet env pc_id m.monitored_protocon_count 0 m in
      rw inside (record {
        num_pc = q.num_pc;
        count = q.count;
        active = q.active;
        pending = q.pending;
        request = q.request;
        fewer = λ j i h. let f = q.fewer j i in let z = test_bit-zero i in ground arith;
      })
]

pub stop_and_restore-Quiet :
    (env : Env) (m : Monitor) (pc_id : ℕ)
    → Holds
        (λ (r : Monitor × Reply). Quiet m r.0)
        (monitor_call_stop_and_restore_protocon env m pc_id)
unfolding monitor_call_stop_and_restore_protocon
stop_and_restore-Quiet env m pc_id = elim (Bool-cases (leb 16 pc_id)) [
  | inl outside ↦ rw outside (Quiet-refl m)
  | inr inside ↦
      let released = monitor_acl_release_protocon env m pc_id in
      let q = Quiet-emit m released (stopped pc_id) (release-Quiet env m pc_id) in
      rw inside (
        Holds-map _ _
          (monitor_call_restore_protocon env (emit released (stopped pc_id)) (pc_id + 24))
          (λ r q'. Quiet-trans m (emit released (stopped pc_id)) r.0 q q')
          (restore-Quiet env (emit released (stopped pc_id)) (pc_id + 24)))
]

pub fault-Quiet :
    (env : Env) (m : Monitor) (child : ℕ) (label : FaultLabel)
    → Holds (Quiet m) (monitor_main_handle_fault env m child label)
unfolding monitor_main_handle_fault
fault-Quiet env m child label =
    let m1 = emit m (stopped child) in
    let q = Quiet-emit m m (stopped child) (Quiet-refl m) in
    elim (Bool-cases (notify_flag label)) [
      | inl told ↦
          let m2 = monitor_main_notify_orchestrator m1 in
          let q2 = Quiet-emit m m1 notified_orchestrator q in
          rw told (
            Holds-bind _ _ (monitor_call_restore_protocon env m2 (child + 24)) _
              (restore-Quiet env m2 (child + 24)) (λ r q3. Quiet-trans m m2 r.0 q2 q3))
      | inr quiet ↦ rw quiet q
    ]
