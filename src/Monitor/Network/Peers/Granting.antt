-- ===== src/Monitor/Network/Peers/Granting.antt =====
-- What the loop of src/monitor/request/network.c asks of the vSwitch for a deployment's peers.
use carrels.Base.{
  subst, ◌∷◌, ℕ, zero, suc, ◌+◌, ◌<◌, ◌≡◌, refl, inl, inr, Bool, true, false, Option, none, some,
  List, arith, test_bit, Bool-cases,
}
use carrels.Monitor.State.{Monitor, Env, Effect, vswitch_acl}
use carrels.Monitor.Network.{Masks, apply_peer, apply_from, then_peers}
use carrels.Monitor.Network.Peers.Sorting.{live_in, is_connected}

-- The peers below `hi` that pass the test were asked for in order, and each was granted; `t'` is the
-- trace behind that.
pub data Granted (env : Env) (pc_id : ℕ) (c : ℕ → Bool) (t : List Effect)
    : ℕ → List Effect → Type 0 where
  nothing_asked : Granted env pc_id c t 0 t
  passed_over :
      {hi : ℕ} {t' : List Effect}
      → Granted env pc_id c t hi t'
      → c hi ≡ false
      → Granted env pc_id c t (hi + 1) t'
  granted :
      {hi : ℕ} {t' : List Effect}
      → Granted env pc_id c t hi t'
      → c hi ≡ true
      → env.vswitch_okay (vswitch_acl pc_id hi 1 ∷ t') ≡ true
      → Granted env pc_id c t (hi + 1) (vswitch_acl pc_id hi 1 ∷ t')

-- One peer that passes the test was refused, behind those before it that were granted.
pub record Refused (env : Env) (pc_id : ℕ) (c : ℕ → Bool) (count : ℕ) (t t' : List Effect)
    : Type 0 where
  pub peer : ℕ
  pub before : List Effect
  pub small : peer < count
  pub earlier : Granted env pc_id c t peer before
  pub passes : c peer ≡ true
  pub newest : t' ≡ vswitch_acl pc_id peer 1 ∷ before
  pub refused : env.vswitch_okay t' ≡ false

-- The loop from `m0` changes nothing but the trace.
module _ (env : Env) (m0 : Monitor) (pc_id requested count : ℕ) where
  abbrev wants : ℕ → Bool
  wants = is_connected m0.protocon_states m0.peer_policy pc_id requested

  abbrev at_trace : List Effect → Monitor
  at_trace t = record m0 { trace = t }

  abbrev pub Traced : Monitor × Option Masks → Type 0
  Traced (m', none) =
      (m'.protocon_states ≡ m0.protocon_states)
      × (m'.peer_policy ≡ m0.peer_policy)
      × Refused env pc_id wants count m0.trace m'.trace
  Traced (m', some k) = Granted env pc_id wants m0.trace count m'.trace

  apply_peer-Traced :
      (peer : ℕ) (t : List Effect) (k : Masks) (f : Monitor → Masks → Monitor × Option Masks)
      → peer < count
      → Granted env pc_id wants m0.trace peer t
      → ((t' : List Effect) (k' : Masks)
          → Granted env pc_id wants m0.trace (peer + 1) t'
          → Traced (f (at_trace t') k'))
      → Traced (then_peers (apply_peer env (at_trace t) pc_id requested peer k) f)
  unfolding apply_peer
  apply_peer-Traced peer t k f lt g later = elim (Bool-cases (test_bit requested peer)) [
    | inr unasked ↦ rw unasked (later t k (passed_over g (ground arith)))
    | inl asked ↦ elim (Bool-cases (live_in m0.protocon_states peer)) [
      | inr dead ↦ rw (asked, dead) (later t _ (passed_over g (ground arith)))
      | inl live ↦ elim (Bool-cases (test_bit (m0.peer_policy peer) pc_id)) [
        | inr alone ↦ rw (asked, live, alone) (later t _ (passed_over g (ground arith)))
        | inl both ↦ elim (Bool-cases (env.vswitch_okay (vswitch_acl pc_id peer 1 ∷ t))) [
          | inl okay ↦ rw (asked, live, both, okay) (later _ _ (granted g (ground arith) okay))
          | inr rejection ↦
              rw (asked, live, both, rejection)
                (
                  refl,
                  refl,
                  record {
                    peer = peer;
                    before = t;
                    small = lt;
                    earlier = g;
                    passes = ground arith;
                    newest = refl;
                    refused = rejection;
                  },
                )
        ]
      ]
    ]
  ]

  pub apply_from-Traced :
      (n peer : ℕ) (t : List Effect) (k : Masks)
      → peer + n ≡ count
      → Granted env pc_id wants m0.trace peer t
      → Traced (apply_from env (at_trace t) pc_id requested n peer k)
  unfolding apply_from
  apply_from-Traced zero peer t k e g =
      let same : peer ≡ count = omega arith in
      subst (λ i. Granted env pc_id wants m0.trace i t) same g
  apply_from-Traced (suc n) peer t k e g =
      apply_peer-Traced peer t k _ (omega arith) g
        (λ t' k' g'. apply_from-Traced n (peer + 1) t' k' (omega arith) g')
