-- ===== src/Monitor/Network/Peers.antt =====
-- What a deployment's three masks say, and what the vSwitch is asked.
pub mod Sorting
pub mod Granting
use carrels.Base.{
  subst, ◌∷◌, ℕ, zero, suc, ◌+◌, ◌≤◌, ◌<◌, ◌≡◌, ◌⊎◌, refl, inl, inr, Bool, true, false, not, ◌&&◌,
  ◌||◌, Option, none, some, List, arith, ltb, leb, update, test_bit, set_bit, test_bit-set_bit,
  test_bit-zero, if◌then◌else◌, ◌==◌, ==→≡, Bool-cases,
}
use carrels.Service.Types.{active, suspended, same_state, PcState}
use carrels.Monitor.State.{
  Monitor, Env, Effect, is_live, vswitch_acl, no_error, invalid_pc_id, vswitch_error,
  PcMonitorError,
}
use carrels.Monitor.Network.{
  Masks, no_peers, apply_peer, apply_from, then_peers, finish_masks, monitor_acl_apply_deployment,
}
use carrels.Monitor.Network.Peers.Sorting.{
  is_connected, is_rejected, is_unavailable, Sorted, apply_from-Sorted,
}
use carrels.Monitor.Network.Peers.Granting.{
  Granted, nothing_asked, Refused, Traced, apply_from-Traced,
}

-- The outcome of a deployment to `pc_id`. Success: of the monitored peers that were asked for,
-- `connected` has those that run and have asked for the protocon as well, `rejected` those that run
-- and have not, and `unavailable` those that do not run; the vSwitch granted each connection. Failure:
-- the protocon is not monitored, and nothing changes, or the vSwitch refused a connection.
module _ (env : Env) (m : Monitor) (pc_id requested : ℕ) where
  abbrev policy_of : ℕ → ℕ
  policy_of = update m.peer_policy pc_id requested

  abbrev pub Reported : Monitor × PcMonitorError × Option Masks → Type 0
  Reported (m', error, none) =
      ((error ≡ invalid_pc_id) × (m.monitored_protocon_count ≤ pc_id) × (m' ≡ m))
      ⊎ ((error ≡ vswitch_error)
          × (pc_id < m.monitored_protocon_count)
          × (m'.protocon_states ≡ m.protocon_states)
          × (m'.peer_policy ≡ policy_of)
          × Refused env pc_id (is_connected m.protocon_states policy_of pc_id requested)
              m.monitored_protocon_count m.trace m'.trace)
  Reported (m', error, some k) =
      (error ≡ no_error)
      × (pc_id < m.monitored_protocon_count)
      × (m'.protocon_states ≡ m.protocon_states)
      × (m'.peer_policy ≡ policy_of)
      × Granted env pc_id (is_connected m.protocon_states policy_of pc_id requested) m.trace
          m.monitored_protocon_count m'.trace
      × ((j : ℕ)
          → (test_bit k.connected j ≡ (
              ltb j m.monitored_protocon_count
              && is_connected m.protocon_states policy_of pc_id requested j))
            × (test_bit k.rejected j ≡ (
                ltb j m.monitored_protocon_count
                && is_rejected m.protocon_states policy_of pc_id requested j))
            × (test_bit k.unavailable j ≡ (
                ltb j m.monitored_protocon_count
                && is_unavailable m.protocon_states policy_of pc_id requested j)))

  Sorted-Reported :
      (o : Monitor × Option Masks)
      → pc_id < m.monitored_protocon_count
      → Sorted pc_id requested m.protocon_states policy_of 0 m.monitored_protocon_count no_peers o
      → Traced env
          (record m { peer_policy = policy_of })
          pc_id
          requested
          m.monitored_protocon_count
          o
      → Reported (finish_masks o)
  Sorted-Reported (m', none) lt r (e, e', refusal) = inr (refl, lt, e, e', refusal)
  Sorted-Reported (m', some k) lt (e, e', con, rej, una) g = (
    refl,
    lt,
    e,
    e',
    g,
    λ j.
        let z = test_bit-zero j in
        let a = con j in
        let b = rej j in let c = una j in (ground arith, ground arith, ground arith),
  )

-- `monitor_acl_apply_deployment` of a protocon that is not monitored fails with `MON_INVALID_PC_ID` and
-- changes nothing. Otherwise it records the mask as the protocon's policy, and lifecycles and the
-- other policies stay. It asks the vSwitch, in order, for each monitored peer that was asked for, runs
-- and has asked for the protocon as well, until one is refused. If one is, the call fails with
-- `MON_VSWITCH_ERROR`; if all are granted, it succeeds, those peers are reported as connected, the
-- running peers that have not asked for the protocon as rejected, and those that do not run as
-- unavailable.
pub monitor_acl_apply_deployment-Reported :
    (env : Env) (m : Monitor) (pc_id requested : ℕ)
    → Reported env m pc_id requested (monitor_acl_apply_deployment env m pc_id requested)
unfolding monitor_acl_apply_deployment
monitor_acl_apply_deployment-Reported env m pc_id requested =
    let m1 = record m { peer_policy = update m.peer_policy pc_id requested } in
    let count = m.monitored_protocon_count in
    elim (Bool-cases (leb count pc_id)) [
      | inl outside ↦ rw outside (inl (refl, ground arith, refl))
      | inr inside ↦ rw inside (
          Sorted-Reported env m pc_id requested _ (ground arith)
            (apply_from-Sorted env pc_id requested count 0 count m1 no_peers (omega arith))
            (apply_from-Traced env m1 pc_id requested count count 0 m.trace no_peers (omega arith)
              nothing_asked))
    ]
