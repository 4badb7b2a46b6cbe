-- ===== src/Monitor/Deploy/Requests.antt =====
-- Which deployment requests the monitor takes, and what it records of them.
use carrels.Base.{
  ℕ, zero, suc, ◌-◌, ◌%◌, ◌^◌, ◌≤◌, ◌<◌, ◌≡◌, ◌↔◌, refl, ◌∙◌, ap, inl, inr, true, false, ◌&&◌,
  arith, ltb, leb, test_bit, clear_bit, test_bit-clear_bit, test_bit-ones, test_bit-above,
  clear_bit-le, if◌then◌else◌, ◌==◌, ==→≡, Bool-cases,
}
use native.Mathlib.Nat.{pow-suc}
use carrels.Service.Types.{passive}
use carrels.Monitor.State.{
  Monitor, Env, Reply, reply, no_error, succeeds, protocon_state_check_lifecycle_state,
}
use carrels.Monitor.Deploy.{
  monitor_call_deploy_to_protocon, monitor_call_deploy_first_half, monitor_deploy_second_half,
  record_request, monitor_check_deploy_num, monitor_reset_deploy_request,
}

-- The peer mask of a request.
abbrev pub wanted_mask : Monitor → ℕ → ℕ → ℕ → ℕ
wanted_mask m pc_id peer_mask peers_all =
    if peers_all == 0 then peer_mask else clear_bit (2 ^ m.num_pc - 1) pc_id

-- A request for a passive protocon, with peers that there are and that are not the protocon
-- itself, while no deployment is under way and a cothread can be had.
pub record IsAcceptable (env : Env) (m : Monitor) (pc_id peer_mask peers_all : ℕ) : Type 0 where
  pub exists : pc_id < m.num_pc
  pub available : protocon_state_check_lifecycle_state m pc_id passive ≡ true
  pub flag : peers_all ≤ 1
  pub peers : peers_all ≡ 0 → peer_mask < 2 ^ m.num_pc
  pub not_self : peers_all ≡ 0 → test_bit peer_mask pc_id ≡ false
  pub idle : m.deploy_request_active ≡ false
  pub spawned : env.spawns m.trace ≡ true

all_not_self : (n pc_id : ℕ) → test_bit (clear_bit (2 ^ n - 1) pc_id) pc_id ≡ false
all_not_self n pc_id = ground (arith, test_bit-clear_bit (2 ^ n - 1) pc_id pc_id)

module _ (env : Env) (m : Monitor) (pc_id peer_mask peers_all : ℕ) where
  abbrev answer : Monitor × Reply
  answer = monitor_call_deploy_to_protocon env m pc_id peer_mask peers_all

  accepted-IsAcceptable : answer.1 ≡ reply no_error → IsAcceptable env m pc_id peer_mask peers_all
  unfolding monitor_call_deploy_to_protocon monitor_deploy_second_half
  accepted-IsAcceptable h = record {
    exists = ground arith;
    available = ground arith;
    flag = ground arith;
    peers = λ e. ground arith;
    not_self = λ e. ground arith;
    idle = ground arith;
    spawned = ground arith;
  }

  IsAcceptable-accepted :
      IsAcceptable env m pc_id peer_mask peers_all
      → answer ≡ (
        record (record_request m pc_id (wanted_mask m pc_id peer_mask peers_all)) {
          deploy_pending = true;
        },
        reply no_error,
      )
  unfolding monitor_call_deploy_to_protocon monitor_deploy_second_half
  IsAcceptable-accepted v =
      let out : leb m.num_pc pc_id ≡ false = ground (arith, v.exists) in
      let one : ltb 1 peers_all ≡ false = ground (arith, v.flag) in
      elim (Bool-cases (peers_all == 0)) [
        | inl named ↦
            let e = ==→≡ peers_all 0 named in
            let known : leb (2 ^ m.num_pc) peer_mask ≡ false = ground (arith, v.peers e) in
            rw (named, out, v.available, one, known, v.not_self e, v.idle, v.spawned) refl
        | inr all_others ↦
            rw (all_others, out, v.available, one, all_not_self m.num_pc pc_id, v.idle, v.spawned)
              refl
      ]

-- The targeted call is answered without an error exactly for an acceptable request, and then
-- records the request and starts the cothread.
pub monitor_call_deploy_to_protocon_iff :
    (env : Env) (m : Monitor) (pc_id peer_mask peers_all : ℕ)
    → ((monitor_call_deploy_to_protocon env m pc_id peer_mask peers_all).1 ≡ reply no_error
        ↔ IsAcceptable env m pc_id peer_mask peers_all)
      × (IsAcceptable env m pc_id peer_mask peers_all
          → (monitor_call_deploy_to_protocon env m pc_id peer_mask peers_all).0
            ≡ record (record_request m pc_id (wanted_mask m pc_id peer_mask peers_all)) {
              deploy_pending = true;
            })
monitor_call_deploy_to_protocon_iff env m pc_id peer_mask peers_all = (
  (
    accepted-IsAcceptable env m pc_id peer_mask peers_all,
    λ v.
        ap (λ (a : Monitor × Reply). a.1) (IsAcceptable-accepted env m pc_id peer_mask peers_all v),
  ),
  λ v. ap (λ (a : Monitor × Reply). a.0) (IsAcceptable-accepted env m pc_id peer_mask peers_all v),
)

pow_mono : (n k : ℕ) → n ≤ k → 2 ^ n ≤ 2 ^ k
pow_mono zero zero h = omega arith
pow_mono zero (suc k) h = omega (arith, pow-suc 2 k, pow_mono zero k (omega arith))
pow_mono (suc n) zero h = absurd (omega arith)
pow_mono (suc n) (suc k) h = omega (arith, pow-suc 2 n, pow-suc 2 k, pow_mono n k (omega arith))

wanted_mask-lt :
    (env : Env) (m : Monitor) (pc_id peer_mask peers_all : ℕ)
    → IsAcceptable env m pc_id peer_mask peers_all
    → wanted_mask m pc_id peer_mask peers_all < 2 ^ m.num_pc
wanted_mask-lt env m pc_id peer_mask peers_all v = elim (Bool-cases (peers_all == 0)) [
  | inl named ↦ rw named (v.peers (==→≡ peers_all 0 named))
  | inr all_others ↦
      rw all_others
        (omega (arith, clear_bit-le (2 ^ m.num_pc - 1) pc_id, pow_mono 0 m.num_pc (omega arith)))
]

named_peers :
    (n pc_id mask j : ℕ)
    → mask < 2 ^ n
    → test_bit mask pc_id ≡ false
    → test_bit mask j ≡ (if j == pc_id then false else ltb j n && test_bit mask j)
named_peers n pc_id mask j small absent = elim (Bool-cases (j == pc_id)) [
  | inl self ↦ rw self (ap (test_bit mask) (==→≡ j pc_id self) ∙ absent)
  | inr other ↦ ground (arith, test_bit-above n mask j small)
]

all_peers :
    (n pc_id j : ℕ)
    → test_bit (clear_bit (2 ^ n - 1) pc_id) j ≡ (if j == pc_id then false else ltb j n && true)
all_peers n pc_id j = ground (arith, test_bit-clear_bit (2 ^ n - 1) pc_id j, test_bit-ones n j)

-- The peers that an accepted request records are protocons that there are and never the target;
-- with `all` they are all the others.
pub recorded_peers :
    (env : Env) (m : Monitor) (pc_id peer_mask peers_all j : ℕ)
    → m.num_pc ≤ 16
    → IsAcceptable env m pc_id peer_mask peers_all
    → test_bit
        (record_request m pc_id
          (wanted_mask m pc_id peer_mask peers_all)).deploy_request.requested_peer_mask
        j
      ≡ (if j == pc_id
          then false
          else ltb j m.num_pc && (if peers_all == 0 then test_bit peer_mask j else true))
recorded_peers env m pc_id peer_mask peers_all j few v =
    let small = wanted_mask-lt env m pc_id peer_mask peers_all v in
    let fits : wanted_mask m pc_id peer_mask peers_all % 2 ^ 32
        ≡ wanted_mask m pc_id peer_mask peers_all =
      omega (arith, pow_mono m.num_pc 16 few) in
    ap (λ x. test_bit x j) fits ∙ elim (Bool-cases (peers_all == 0)) [
      | inl named ↦
          let e = ==→≡ peers_all 0 named in
          rw named (named_peers m.num_pc pc_id peer_mask j (v.peers e) (v.not_self e))
      | inr all_others ↦ rw all_others (all_peers m.num_pc pc_id j)
    ]

pub first_half_busy :
    (env : Env) (m : Monitor) (n : ℕ)
    → m.deploy_request_active ≡ true
    → (monitor_call_deploy_first_half env m n).0 ≡ m
unfolding monitor_call_deploy_first_half monitor_reset_deploy_request monitor_check_deploy_num
first_half_busy env m n busy = ground arith

first_half_fails :
    (env : Env) (m : Monitor) (n : ℕ)
    → m.deploy_request_active ≡ true
    → succeeds (monitor_call_deploy_first_half env m n).1.label ≡ false
unfolding monitor_call_deploy_first_half monitor_reset_deploy_request monitor_check_deploy_num
first_half_fails env m n busy = ground arith

pub targeted_busy :
    (env : Env) (m : Monitor) (pc_id peer_mask peers_all : ℕ)
    → m.deploy_request_active ≡ true
    → (monitor_call_deploy_to_protocon env m pc_id peer_mask peers_all).0 ≡ m
unfolding monitor_call_deploy_to_protocon
targeted_busy env m pc_id peer_mask peers_all busy = ground arith

targeted_fails :
    (env : Env) (m : Monitor) (pc_id peer_mask peers_all : ℕ)
    → m.deploy_request_active ≡ true
    → succeeds (monitor_call_deploy_to_protocon env m pc_id peer_mask peers_all).1.label ≡ false
unfolding monitor_call_deploy_to_protocon
targeted_fails env m pc_id peer_mask peers_all busy = ground arith

-- While a deployment is under way neither call starts another: the state stays as it is, and the
-- reply is an error.
pub deploy_request_active-rejects :
    (env : Env) (m : Monitor) (n pc_id peer_mask peers_all : ℕ)
    → m.deploy_request_active ≡ true
    → ((monitor_call_deploy_first_half env m n).0 ≡ m)
      × (succeeds (monitor_call_deploy_first_half env m n).1.label ≡ false)
      × ((monitor_call_deploy_to_protocon env m pc_id peer_mask peers_all).0 ≡ m)
      × (succeeds (monitor_call_deploy_to_protocon env m pc_id peer_mask peers_all).1.label ≡ false)
deploy_request_active-rejects env m n pc_id peer_mask peers_all busy = (
  first_half_busy env m n busy,
  first_half_fails env m n busy,
  targeted_busy env m pc_id peer_mask peers_all busy,
  targeted_fails env m pc_id peer_mask peers_all busy,
)
