-- ===== src/Monitor/Network/Peers/Sorting.antt =====
-- The loop of src/monitor/request/network.c over the peers of a deployment, and its three masks.
use carrels.Base.{
  subst, ◌∷◌, ℕ, zero, suc, ◌+◌, ◌≤◌, ◌≡◌, refl, inl, inr, Bool, true, false, not, ◌&&◌, ◌||◌,
  Option, none, some, arith, ltb, leb, test_bit, set_bit, test_bit-set_bit, if◌then◌else◌, ◌==◌,
  ==→≡, Bool-cases,
}
use carrels.Service.Types.{active, suspended, same_state, PcState}
use carrels.Monitor.State.{Monitor, Env, is_live, vswitch_acl}
use carrels.Monitor.Network.{Masks, apply_peer, apply_from, then_peers}

abbrev pub live_in : (ℕ → PcState) → ℕ → Bool
live_in states j =
    same_state (states j).life_cycle_state active
    || same_state (states j).life_cycle_state suspended

module _ (states : ℕ → PcState) (policy : ℕ → ℕ) (pc_id requested j : ℕ) where
  -- The peer is asked for and running, and has asked for the protocon as well.
  abbrev pub is_connected : Bool
  is_connected = test_bit requested j && (live_in states j && test_bit (policy j) pc_id)

  -- It is running, and has not asked for the protocon.
  abbrev pub is_rejected : Bool
  is_rejected = test_bit requested j && (live_in states j && not (test_bit (policy j) pc_id))

  -- It is asked for, and not running.
  abbrev pub is_unavailable : Bool
  is_unavailable = test_bit requested j && not (live_in states j)

-- The mask `x'` is `x` with the positions from `lo` on and below `hi` that pass the test.
abbrev pub Adds : (ℕ → Bool) → ℕ → ℕ → ℕ → ℕ → Type 0
Adds c lo hi x x' =
    (j : ℕ) → test_bit x' j ≡ (if leb lo j && ltb j hi && c j then true else test_bit x j)

module _ (pc_id requested : ℕ) where
  -- The masks are `k` with the peers from `lo` on and below `hi` sorted into them by these states
  -- and policies, which the outcome still has.
  abbrev pub Sorted : (ℕ → PcState) → (ℕ → ℕ) → ℕ → ℕ → Masks → Monitor × Option Masks → Type 0
  Sorted states policy lo hi k (m', none) = Unit {0}
  Sorted states policy lo hi k (m', some k') =
      (m'.protocon_states ≡ states)
      × (m'.peer_policy ≡ policy)
      × Adds (is_connected states policy pc_id requested) lo hi k.connected k'.connected
      × Adds (is_rejected states policy pc_id requested) lo hi k.rejected k'.rejected
      × Adds (is_unavailable states policy pc_id requested) lo hi k.unavailable k'.unavailable

-- One bit more, and none, against a test that the peer passes, and fails.
pub point_set :
    (c : ℕ → Bool) (x peer : ℕ) → c peer ≡ true → Adds c peer (peer + 1) x (set_bit x peer)
point_set c x peer h j = elim (Bool-cases (peer == j)) [
  | inl same ↦
      let here : c j ≡ true = subst (λ i. c i ≡ true) (==→≡ peer j same) h in
      ground (arith, test_bit-set_bit x peer j)
  | inr other ↦ ground (arith, test_bit-set_bit x peer j)
]

pub point_kept : (c : ℕ → Bool) (x peer : ℕ) → c peer ≡ false → Adds c peer (peer + 1) x x
point_kept c x peer h j = elim (Bool-cases (peer == j)) [
  | inl same ↦
      let here : c j ≡ false = subst (λ i. c i ≡ false) (==→≡ peer j same) h in ground arith
  | inr other ↦ ground arith
]

pub Adds-trans :
    (c : ℕ → Bool) (lo mid hi x y z : ℕ)
    → lo ≤ mid
    → mid ≤ hi
    → Adds c lo mid x y
    → Adds c mid hi y z
    → Adds c lo hi x z
Adds-trans c lo mid hi x y z p q f g j = let a = f j in let b = g j in ground arith

module _ (env : Env) (m : Monitor) (pc_id requested peer : ℕ) (k : Masks) where
  abbrev SortedPeer : Monitor × Option Masks → Type 0
  SortedPeer = Sorted pc_id requested m.protocon_states m.peer_policy peer (peer + 1) k

  abbrev con : ℕ → Bool
  con = is_connected m.protocon_states m.peer_policy pc_id requested

  abbrev rej : ℕ → Bool
  rej = is_rejected m.protocon_states m.peer_policy pc_id requested

  abbrev una : ℕ → Bool
  una = is_unavailable m.protocon_states m.peer_policy pc_id requested

  peer_connected :
      test_bit requested peer ≡ true
      → is_live m peer ≡ true
      → test_bit (m.peer_policy peer) pc_id ≡ true
      → SortedPeer (apply_peer env m pc_id requested peer k)
  unfolding apply_peer
  peer_connected asked live both =
      elim (Bool-cases (env.vswitch_okay (vswitch_acl pc_id peer 1 ∷ m.trace))) [
        | inl okay ↦
            rw (asked, live, both, okay)
              (
                refl,
                refl,
                point_set con k.connected peer (ground arith),
                point_kept rej k.rejected peer (ground arith),
                point_kept una k.unavailable peer (ground arith),
              )
        | inr refused ↦ rw (asked, live, both, refused) tt
      ]

  peer_rejected :
      test_bit requested peer ≡ true
      → is_live m peer ≡ true
      → test_bit (m.peer_policy peer) pc_id ≡ false
      → SortedPeer (apply_peer env m pc_id requested peer k)
  unfolding apply_peer
  peer_rejected asked live alone =
      rw (asked, live, alone)
        (
          refl,
          refl,
          point_kept con k.connected peer (ground arith),
          point_set rej k.rejected peer (ground arith),
          point_kept una k.unavailable peer (ground arith),
        )

  peer_unavailable :
      test_bit requested peer ≡ true
      → is_live m peer ≡ false
      → SortedPeer (apply_peer env m pc_id requested peer k)
  unfolding apply_peer
  peer_unavailable asked dead =
      rw (asked, dead)
        (
          refl,
          refl,
          point_kept con k.connected peer (ground arith),
          point_kept rej k.rejected peer (ground arith),
          point_set una k.unavailable peer (ground arith),
        )

  peer_unasked :
      test_bit requested peer ≡ false → SortedPeer (apply_peer env m pc_id requested peer k)
  unfolding apply_peer
  peer_unasked unasked = rw unasked (
    refl,
    refl,
    point_kept con k.connected peer (ground arith),
    point_kept rej k.rejected peer (ground arith),
    point_kept una k.unavailable peer (ground arith),
  )

  apply_peer-Sorted : SortedPeer (apply_peer env m pc_id requested peer k)
  apply_peer-Sorted = elim (Bool-cases (test_bit requested peer)) [
    | inl asked ↦ elim (Bool-cases (is_live m peer)) [
      | inl live ↦ elim (Bool-cases (test_bit (m.peer_policy peer) pc_id)) [
        | inl both ↦ peer_connected asked live both
        | inr alone ↦ peer_rejected asked live alone
      ]
      | inr dead ↦ peer_unavailable asked dead
    ]
    | inr unasked ↦ peer_unasked unasked
  ]

module _ (pc_id requested : ℕ) where
  -- The rest of the loop behind a round.
  Sorted-then :
      (states : ℕ → PcState) (policy : ℕ → ℕ) (lo hi : ℕ) (k : Masks) (o : Monitor × Option Masks)
      (f : Monitor → Masks → Monitor × Option Masks)
      → lo + 1 ≤ hi
      → Sorted pc_id requested states policy lo (lo + 1) k o
      → ((m : Monitor) (k' : Masks)
          → Sorted pc_id requested m.protocon_states m.peer_policy (lo + 1) hi k' (f m k'))
      → Sorted pc_id requested states policy lo hi k (then_peers o f)
  Sorted-then states policy lo hi k (m, none) f h r later = tt
  Sorted-then states policy lo hi k (m, some k') f h (e, e', con, rej, una) later = join (f m k') (
      subst (λ s. Sorted pc_id requested s policy (lo + 1) hi k' (f m k')) e
        (subst (λ p. Sorted pc_id requested m.protocon_states p (lo + 1) hi k' (f m k')) e'
          (later m k')))
    where
      join :
          (o' : Monitor × Option Masks)
          → Sorted pc_id requested states policy (lo + 1) hi k' o'
          → Sorted pc_id requested states policy lo hi k o'
      join (m', none) r = tt
      join (m', some k'') (d, d', con', rej', una') = (
        d,
        d',
        Adds-trans _ lo (lo + 1) hi _ _ k''.connected (omega arith) h con con',
        Adds-trans _ lo (lo + 1) hi _ _ k''.rejected (omega arith) h rej rej',
        Adds-trans _ lo (lo + 1) hi _ _ k''.unavailable (omega arith) h una una',
      )

pub Adds-none : (c : ℕ → Bool) (p x : ℕ) → Adds c p p x x
Adds-none c p x j = ground arith

pub apply_from-Sorted :
    (env : Env) (pc_id requested n peer hi : ℕ) (m : Monitor) (k : Masks)
    → peer + n ≡ hi
    → Sorted pc_id requested m.protocon_states m.peer_policy peer hi k
        (apply_from env m pc_id requested n peer k)
unfolding apply_from
apply_from-Sorted env pc_id requested zero peer hi m k e =
    let same : peer ≡ hi = omega arith in
    subst (λ h. Sorted pc_id requested m.protocon_states m.peer_policy peer h k (m, some k)) same
      (refl, refl, Adds-none _ peer _, Adds-none _ peer _, Adds-none _ peer _)
apply_from-Sorted env pc_id requested (suc n) peer hi m k e =
    Sorted-then pc_id requested m.protocon_states m.peer_policy peer hi k _ _ (omega arith)
      (apply_peer-Sorted env m pc_id requested peer k)
      (λ m' k'. apply_from-Sorted env pc_id requested n (peer + 1) hi m' k' (omega arith))
