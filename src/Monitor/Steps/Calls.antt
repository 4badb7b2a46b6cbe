-- ===== src/Monitor/Steps/Calls.antt =====
-- What a call makes of the deployment and of the peers.
use carrels.Base.{
  ℕ, ◌+◌, ◌-◌, ◌%◌, ◌^◌, ◌≤◌, ◌<◌, ◌≡◌, ◌≢◌, ◌==◌, refl, sym, ◌∙◌, ap, subst, inl, inr,
  if◌then◌else◌, Bool, true, false, ◌&&◌, List, ◌∷◌, Bool-cases, arith, ltb, leb, test_bit, Holds,
}
use carrels.Monitor.State.{
  Monitor, Env, Reply, reply, DeployRequest, succeeds, no_error, Effect, notified_orchestrator,
  monitor_get_pcid_from_ch,
}
use carrels.Monitor.Deploy.{
  no_request, monitor_call_deploy_to_protocon, monitor_call_deploy_first_half,
  monitor_deploy_second_half, monitor_check_deploy_num, monitor_reset_deploy_request,
  monitor_call_deploy_result,
}
use carrels.Monitor.Requests.{monitor_call_list_protocons, monitor_call_query_protocons}
use carrels.Monitor.Deploy.Requests.{
  IsAcceptable, monitor_call_deploy_to_protocon_iff, recorded_peers, first_half_busy, targeted_busy,
}
use carrels.Monitor.Calls.{
  Call, deploy, suspend, resume, list_protocons, terminate_ext, query_protocons, flip_acl_rule,
  set_vswitch_acl, backup_context, terminate, deploy_to_protocon, deploy_result, undefined_call,
  Words, channel_of, handle_call,
}
use carrels.Monitor.Steps.Quiet.{
  Quiet, Quiet-refl, Quiet-of, set_vswitch_acl-Quiet, suspend-Quiet, resume-Quiet, backup-Quiet,
  stop_and_restore-Quiet,
}

abbrev starts_deployment : Call → Bool
starts_deployment deploy = true
starts_deployment deploy_to_protocon = true
starts_deployment _ = false

-- The calls that start no deployment.
pub other_call-Quiet :
    (env : Env) (call : Call) (m : Monitor) (ch : ℕ) (w : Words)
    → starts_deployment call ≡ false
    → Holds (λ (r : Monitor × Reply). Quiet m r.0) (handle_call env call m ch w)
unfolding handle_call monitor_call_list_protocons monitor_call_query_protocons
    monitor_call_deploy_result
other_call-Quiet env deploy m ch w h = absurd (let f = h in cc)
other_call-Quiet env deploy_to_protocon m ch w h = absurd (let f = h in cc)
other_call-Quiet env deploy_result m ch w h =
    let same : m ≡ (monitor_call_deploy_result m).0 = ground arith in
    subst (Quiet m) same (Quiet-refl m)
other_call-Quiet env flip_acl_rule m ch w h = Quiet-of m _ refl refl refl refl refl refl
other_call-Quiet env set_vswitch_acl m ch w h = set_vswitch_acl-Quiet env m w.mr1 w.mr2 w.mr3
other_call-Quiet env backup_context m ch w h = backup-Quiet m ch
other_call-Quiet env terminate m ch w h = stop_and_restore-Quiet env m ((ch + 2 ^ 32 - 24) % 2 ^ 32)
other_call-Quiet env suspend m ch w h = suspend-Quiet m (channel_of w.mr1)
other_call-Quiet env resume m ch w h = resume-Quiet m (channel_of w.mr1)
other_call-Quiet env list_protocons m ch w h = Quiet-refl m
other_call-Quiet env query_protocons m ch w h = Quiet-refl m
other_call-Quiet env terminate_ext m ch w h =
    stop_and_restore-Quiet env m
      (if leb 24 ch then monitor_get_pcid_from_ch ch else channel_of w.mr1)
other_call-Quiet env undefined_call m ch w h = Quiet-refl m

-- While a deployment is under way, no call touches it.
pub busy_call-Quiet :
    (env : Env) (call : Call) (m : Monitor) (ch : ℕ) (w : Words)
    → m.deploy_request_active ≡ true
    → Holds (λ (r : Monitor × Reply). Quiet m r.0) (handle_call env call m ch w)
unfolding handle_call
busy_call-Quiet env deploy m ch w busy =
    subst (Quiet m) (sym (first_half_busy env m w.mr1 busy)) (Quiet-refl m)
busy_call-Quiet env deploy_to_protocon m ch w busy =
    subst (Quiet m) (sym (targeted_busy env m w.mr1 w.mr2 w.mr3 busy)) (Quiet-refl m)
busy_call-Quiet env call m ch w busy = other_call-Quiet env call m ch w refl

-- A target that there is, and peers that there are and that are not the target.
abbrev pub IsPeerSet : ℕ → ℕ → ℕ → Type 0
IsPeerSet n target mask = (target < n) × ((j : ℕ) → test_bit mask j ≡ true → (j < n) × (j ≢ target))

-- There are `n` protocons; a spawned deployment is under way; what it is to connect are protocons that
-- there are; and so are the peers of every protocon, itself excepted.
pub record IsSane (n : ℕ) (m : Monitor) : Type 0 where
  pub number : m.num_pc ≡ n
  pub count : m.monitored_protocon_count ≡ n
  pub pending : m.deploy_pending ≡ true → m.deploy_request_active ≡ true
  pub request :
      m.deploy_request.targeted ≡ true
      → IsPeerSet n m.deploy_request.target_pc m.deploy_request.requested_peer_mask
  pub peers : (j i : ℕ) → test_bit (m.peer_policy j) i ≡ true → (i < n) × (i ≢ j)

pub Quiet-IsSane : (n : ℕ) (m m' : Monitor) → Quiet m m' → IsSane n m → IsSane n m'
Quiet-IsSane n m m' q v = record {
  number = q.num_pc ∙ v.number;
  count = q.count ∙ v.count;
  pending = λ h. q.active ∙ v.pending (sym q.pending ∙ h);
  request =
      subst
        (λ (d : DeployRequest). d.targeted ≡ true → IsPeerSet n d.target_pc d.requested_peer_mask)
        (sym q.request) v.request;
  peers = λ j i h. v.peers j i (q.fewer j i h);
}

-- No deployment is pending while none is under way.
not_pending :
    (n : ℕ) (m : Monitor) → IsSane n m → m.deploy_request_active ≡ false → m.deploy_pending ≡ false
not_pending n m v idle = elim (Bool-cases m.deploy_pending) [
  | inl pending ↦ absurd (let busy = v.pending pending in cc)
  | inr none_pending ↦ none_pending
]

-- A request that is not targeted, and a deployment that runs exactly if it is pending.
untargeted-IsSane :
    (n : ℕ) (m : Monitor) (num_pc num : ℕ) (active pending : Bool) (trace : List Effect)
    → (pending ≡ true → active ≡ true)
    → IsSane n m
    → IsSane n (record m {
      req_pc_num = num_pc;
      deploy_request = record no_request { num_req_pc = num };
      deploy_request_active = active;
      deploy_pending = pending;
      trace = trace;
    })
untargeted-IsSane n m num_pc num active pending trace h v = record {
  number = v.number;
  count = v.count;
  pending = h;
  request = λ t. absurd (let f = t in cc);
  peers = v.peers;
}

pub first_half-IsSane :
    (env : Env) (n k : ℕ) (m : Monitor)
    → IsSane n m
    → IsSane n (monitor_call_deploy_first_half env m k).0
unfolding monitor_call_deploy_first_half monitor_reset_deploy_request monitor_deploy_second_half
first_half-IsSane env n k m v = elim (Bool-cases (succeeds (monitor_check_deploy_num m k))) [
  | inl good ↦ elim (Bool-cases m.deploy_request_active) [
    | inl busy ↦ subst (IsSane n) (sym (first_half_busy env m k busy)) v
    | inr idle ↦ elim (Bool-cases (env.spawns m.trace)) [
      | inl spawned ↦
          rw (good, idle, spawned)
            (untargeted-IsSane n m (k % 2 ^ 32) (k % 2 ^ 32) true true m.trace (λ h. refl) v)
      | inr no_cothread ↦
          rw (good, idle, no_cothread)
            (untargeted-IsSane n m 0 0 false m.deploy_pending (notified_orchestrator ∷ m.trace)
              (λ h. absurd (let quiet = not_pending n m v idle in cc)) v)
    ]
  ]
  | inr bad ↦ rw bad v
]

module _ (env : Env) (n : ℕ) (m : Monitor) (pc_id peer_mask peers_all : ℕ) where
  abbrev targeted_answer : Monitor × Reply
  targeted_answer = monitor_call_deploy_to_protocon env m pc_id peer_mask peers_all

  accepted_reply : succeeds targeted_answer.1.label ≡ true → targeted_answer.1 ≡ reply no_error
  unfolding monitor_call_deploy_to_protocon monitor_deploy_second_half
  accepted_reply h = ground arith

  -- A refused request leaves everything, or ends the deployment that could not be spawned.
  refused-IsSane :
      IsSane n m → succeeds targeted_answer.1.label ≡ false → IsSane n targeted_answer.0
  unfolding monitor_call_deploy_to_protocon monitor_deploy_second_half
  refused-IsSane v h = record {
    number = ground (arith, v.number);
    count = ground (arith, v.count);
    pending = ground (arith, v.pending);
    request = λ t.
        let same : m.deploy_request ≡ targeted_answer.0.deploy_request = ground (arith, h, t) in
        subst
          (λ (d : DeployRequest). d.targeted ≡ true → IsPeerSet n d.target_pc d.requested_peer_mask)
          same v.request t;
    peers = λ j i b.
        let same : targeted_answer.0.peer_policy ≡ m.peer_policy = ground arith in
        v.peers j i (sym (ap (λ p. test_bit (p j) i) same) ∙ b);
  }

  recorded_target : n ≤ 16 → IsSane n m → pc_id < m.num_pc → pc_id % 2 ^ 32 ≡ pc_id
  recorded_target few v h = let e = v.number in omega arith

  recorded_IsPeerSet :
      (bit : Bool) (j : ℕ)
      → IsSane n m
      → pc_id < m.num_pc
      → pc_id % 2 ^ 32 ≡ pc_id
      → (if j == pc_id then false else ltb j m.num_pc && bit) ≡ true
      → (j < n) × (j ≢ pc_id % 2 ^ 32)
  recorded_IsPeerSet bit j v h fits passes =
      let e = v.number in (ground arith, λ same. ground arith)

  accepted-IsSane :
      n ≤ 16 → IsSane n m → succeeds targeted_answer.1.label ≡ true → IsSane n targeted_answer.0
  accepted-IsSane few v h =
      let (iff, recorded) = monitor_call_deploy_to_protocon_iff env m pc_id peer_mask peers_all in
      let fine : IsAcceptable env m pc_id peer_mask peers_all = iff.0 (accepted_reply h) in
      subst (IsSane n) (sym (recorded fine)) (record {
        number = v.number;
        count = v.count;
        pending = λ p. refl;
        request = λ t. (
          let e = v.number in
              let fits = recorded_target few v fine.exists in omega (arith, fine.exists),
          λ j b. recorded_IsPeerSet _ j v fine.exists (recorded_target few v fine.exists) (
              sym (
                recorded_peers env m pc_id peer_mask peers_all j
                  (subst (λ k. k ≤ 16) (sym v.number) few) fine)
              ∙ b),
        );
        peers = v.peers;
      })

  pub targeted-IsSane : n ≤ 16 → IsSane n m → IsSane n targeted_answer.0
  targeted-IsSane few v = elim (Bool-cases (succeeds targeted_answer.1.label)) [
    | inl accepted ↦ accepted-IsSane few v accepted
    | inr refused ↦ refused-IsSane v refused
  ]
