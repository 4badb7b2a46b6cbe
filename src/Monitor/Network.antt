-- ===== src/Monitor/Network.antt =====
-- src/monitor/request/network.c: which protocons may talk through the vSwitch. Two protocons are
-- connected when each has named the other as a peer.
pub mod Peers
pub mod Release
use carrels.Base.{
  ℕ, zero, suc, ◌+◌, ◌≡◌, ◌==◌, if◌then◌else◌, Bool, true, false, not, ◌&&◌, ◌||◌, Option, none,
  some, List, [], ◌∷◌, ltb, leb, update, test_bit, set_bit, clear_bit,
}
use carrels.Service.Types.{active, suspended}
use carrels.Monitor.State.{
  Monitor, Env, Reply, reply, PcMonitorError, no_error, invalid_pc_id, vswitch_error, succeeds,
  vswitch_acl, emit, is_live,
}

-- The vSwitch is asked once. `okay` stands for a reply with label 0 and `VSWITCH_ERR_OKAY`.
unfoldable pub monitor_call_set_vswitch_acl : Env → Monitor → ℕ → ℕ → ℕ → Monitor × Reply
monitor_call_set_vswitch_acl env m port0 port1 allow =
    let m' = emit m (vswitch_acl port0 port1 allow) in
    if env.vswitch_okay m'.trace
    then (m', reply no_error)
    else (m', record { label = vswitch_error; words = env.vswitch_code m'.trace ∷ [] })

unfoldable pub monitor_acl_initialise : Monitor → ℕ → Monitor
monitor_acl_initialise m num_protocons = record m {
  monitored_protocon_count = num_protocons;
  peer_policy = λ i. 0;
}

-- One round of the release: a reply of the vSwitch is not looked at.
unfoldable pub release_peer : Env → Monitor → ℕ → ℕ → Monitor
unfolding monitor_call_set_vswitch_acl
release_peer env m pc_id peer =
    if peer == pc_id
    then m
    else let m' = (monitor_call_set_vswitch_acl env m pc_id peer 0).0 in
      record m' { peer_policy = update m'.peer_policy peer (clear_bit (m'.peer_policy peer) pc_id) }

-- The rounds from `peer` on, `n` of them left.
unfoldable pub release_from : Env → Monitor → ℕ → ℕ → ℕ → Monitor
release_from env m pc_id zero peer = m
release_from env m pc_id (suc n) peer =
    release_from env (release_peer env m pc_id peer) pc_id n (peer + 1)

unfoldable pub monitor_acl_release_protocon : Env → Monitor → ℕ → Monitor
monitor_acl_release_protocon env m pc_id =
    let released = release_from env m pc_id m.monitored_protocon_count 0 in
    if leb m.monitored_protocon_count pc_id
    then m
    else record released { peer_policy = update released.peer_policy pc_id 0 }

-- The three masks that the loop gathers.
pub record Masks : Type 0 where
  pub connected : ℕ
  pub rejected : ℕ
  pub unavailable : ℕ

abbrev pub no_peers : Masks
no_peers = record { connected = 0; rejected = 0; unavailable = 0 }

-- One round of the deployment's loop; `none` is the early return with `MON_VSWITCH_ERROR`.
unfoldable pub apply_peer : Env → Monitor → ℕ → ℕ → ℕ → Masks → Monitor × Option Masks
unfolding monitor_call_set_vswitch_acl
apply_peer env m pc_id requested peer k =
    if not (test_bit requested peer)
    then (m, some k)
    else if not (is_live m peer)
    then (m, some (record k { unavailable = set_bit k.unavailable peer }))
    else if not (test_bit (m.peer_policy peer) pc_id)
    then (m, some (record k { rejected = set_bit k.rejected peer }))
    else let (m', answer) = monitor_call_set_vswitch_acl env m pc_id peer 1 in
      if succeeds answer.label
      then (m', some (record k { connected = set_bit k.connected peer }))
      else (m', none)

abbrev pub then_peers :
    Monitor × Option Masks → (Monitor → Masks → Monitor × Option Masks) → Monitor × Option Masks
then_peers (m, none) f = (m, none)
then_peers (m, some k) f = f m k

-- The rounds from `peer` on, `n` of them left.
unfoldable pub apply_from : Env → Monitor → ℕ → ℕ → ℕ → ℕ → Masks → Monitor × Option Masks
apply_from env m pc_id requested zero peer k = (m, some k)
apply_from env m pc_id requested (suc n) peer k =
    then_peers (apply_peer env m pc_id requested peer k)
      (λ m' k'. apply_from env m' pc_id requested n (peer + 1) k')

abbrev pub finish_masks : Monitor × Option Masks → Monitor × PcMonitorError × Option Masks
finish_masks (m, none) = (m, vswitch_error, none)
finish_masks (m, some k) = (m, no_error, some k)

-- The masks are the output parameters, which an error leaves alone.
unfoldable pub monitor_acl_apply_deployment :
    Env → Monitor → ℕ → ℕ → Monitor × PcMonitorError × Option Masks
monitor_acl_apply_deployment env m pc_id requested =
    let m' = record m { peer_policy = update m.peer_policy pc_id requested } in
    if leb m.monitored_protocon_count pc_id
    then (m, invalid_pc_id, none)
    else finish_masks (apply_from env m' pc_id requested m.monitored_protocon_count 0 no_peers)
