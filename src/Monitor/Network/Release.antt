-- ===== src/Monitor/Network/Release.antt =====
-- What is left of a protocon's connections when it is released.
use carrels.Base.{
  ℕ, zero, suc, ◌+◌, ◌<◌, ◌≡◌, refl, ◌∙◌, false, not, ◌&&◌, ◌||◌, arith, ltb, leb, test_bit,
  clear_bit, test_bit-clear_bit, if◌then◌else◌, ◌==◌, test_bit-zero,
}
use carrels.Monitor.State.{Monitor, Env}
use carrels.Monitor.Network.{release_peer, release_from, monitor_acl_release_protocon}

-- The peers from `lo` on and below `hi`, the protocon itself excepted, no longer name it; nothing
-- else of the policies changes, nor any lifecycle.
abbrev pub Forgotten : Monitor → ℕ → ℕ → ℕ → Monitor → Type 0
Forgotten m pc_id lo hi m' =
    (m'.protocon_states ≡ m.protocon_states)
    × (m'.monitored_protocon_count ≡ m.monitored_protocon_count)
    × ((j i : ℕ)
        → test_bit (m'.peer_policy j) i ≡ (
            if leb lo j && ltb j hi && not (j == pc_id) && i == pc_id
            then false
            else test_bit (m.peer_policy j) i))

release_peer-policy :
    (env : Env) (m : Monitor) (pc_id peer j : ℕ)
    → (release_peer env m pc_id peer).peer_policy j ≡ (
        if not (peer == pc_id) && peer == j
        then clear_bit (m.peer_policy j) pc_id
        else m.peer_policy j)
unfolding release_peer
release_peer-policy env m pc_id peer j = ground arith

release_peer-states :
    (env : Env) (m : Monitor) (pc_id peer : ℕ)
    → ((release_peer env m pc_id peer).protocon_states ≡ m.protocon_states)
      × ((release_peer env m pc_id peer).monitored_protocon_count ≡ m.monitored_protocon_count)
unfolding release_peer
release_peer-states env m pc_id peer = ground arith

pub release_peer-Forgotten :
    (env : Env) (m : Monitor) (pc_id peer : ℕ)
    → Forgotten m pc_id peer (peer + 1) (release_peer env m pc_id peer)
release_peer-Forgotten env m pc_id peer =
    let (e, c) = release_peer-states env m pc_id peer in
    (
      e,
      c,
      λ j i. ground (
        arith,
        release_peer-policy env m pc_id peer j,
        test_bit-clear_bit (m.peer_policy j) pc_id i,
      ),
    )

release_from-Forgotten :
    (env : Env) (pc_id n peer hi : ℕ) (m : Monitor)
    → peer + n ≡ hi
    → Forgotten m pc_id peer hi (release_from env m pc_id n peer)
unfolding release_from
release_from-Forgotten env pc_id zero peer hi m e = (refl, refl, λ j i. ground arith)
release_from-Forgotten env pc_id (suc n) peer hi m e =
    let mid = release_peer env m pc_id peer in
    let (s, c, p) = release_peer-Forgotten env m pc_id peer in
    let (s', c', p') = release_from-Forgotten env pc_id n (peer + 1) hi mid (omega arith) in
    (s' ∙ s, c' ∙ c, λ j i. let a = p j i in let b = p' j i in ground arith)

-- After `monitor_acl_release_protocon` for a monitored protocon it has no policy, no monitored
-- protocon names it as a peer, and no other peer of any policy, nor any lifecycle, has changed.
pub monitor_acl_release_protocon-forgets :
    (env : Env) (m : Monitor) (pc_id : ℕ)
    → pc_id < m.monitored_protocon_count
    → ((monitor_acl_release_protocon env m pc_id).protocon_states ≡ m.protocon_states)
      × ((j i : ℕ)
          → test_bit ((monitor_acl_release_protocon env m pc_id).peer_policy j) i ≡ (
              if j == pc_id || ltb j m.monitored_protocon_count && i == pc_id
              then false
              else test_bit (m.peer_policy j) i))
unfolding monitor_acl_release_protocon
monitor_acl_release_protocon-forgets env m pc_id h =
    let inside : leb m.monitored_protocon_count pc_id ≡ false = ground arith in
    let (s, c, p) =
      release_from-Forgotten env pc_id m.monitored_protocon_count 0 m.monitored_protocon_count m
        (omega arith) in
    rw inside (s, λ j i. let a = p j i in ground (arith, test_bit-zero i))
