-- ===== src/Monitor/Init/Fresh.antt =====
-- The monitor's state when the initialisation ends.
use carrels.Base.{
  ℕ, zero, suc, ◌+◌, ◌≤◌, ◌<◌, ◌≡◌, refl, ◌∙◌, inl, inr, Bool, ◌&&◌, List, [], ◌∷◌, arith, ltb, leb,
  Memory, Holds, Holds-map, Holds-bind, Holds-of, Holds-some, if◌then◌else◌, Bool-cases,
}
use carrels.Delegation.{DlgHeader}
use carrels.ServiceDb.{SvcDb}
use carrels.Service.Types.{Lifecycle, passive, PcState}
use carrels.Service.Registry.{register, register_all, service_registry_create}
use carrels.Monitor.State.{Monitor, Env}
use carrels.Monitor.Requests.Lifecycles.{state_of}
use carrels.Monitor.Requests.{monitor_main_load_trustedlo}
use carrels.Monitor.Network.{monitor_acl_initialise}
use carrels.Monitor.Init.{
  ca_monitor_init_get_pcnum, ca_monitor_init_validate_pc_count, init_protocon, init_protocons,
  protocon_state_init_symb_header, ca_monitor_init_protocon_states, ca_monitor_init_states,
}

abbrev life : (ℕ → PcState) → ℕ → Lifecycle
life s j = (s j).life_cycle_state

register-life :
    (mem : Memory) (states : ℕ → PcState) (s j : ℕ)
    → Holds (λ states'. life states' j ≡ life states j) (register mem states s)
unfolding register
register-life mem states s j = ground arith

register_all-life :
    (mem : Memory) (ss : List ℕ) (states : ℕ → PcState) (j : ℕ)
    → Holds (λ states'. life states' j ≡ life states j) (register_all mem ss states)
unfolding register_all
register_all-life mem [] states j = refl
register_all-life mem (s ∷ ss) states j =
    Holds-bind _ _ (register mem states s) _ (register-life mem states s j) (λ mid e.
      Holds-map _ _ (register_all mem ss mid) (λ last e'. e' ∙ e) (register_all-life mem ss mid j))

-- One protocon more is passive, the others are as they were, and so is their number.
abbrev Passive : Monitor → ℕ → ℕ → Monitor → Type 0
Passive m lo hi m' =
    (m'.num_pc ≡ m.num_pc)
    × ((j : ℕ) → state_of m' j ≡ (if leb lo j && ltb j hi then passive else state_of m j))

init_protocon-Passive :
    (env : Env) (has_symbols : ℕ → Bool) (m : Monitor) (i : ℕ)
    → Holds (Passive m i (i + 1)) (init_protocon env has_symbols m i)
unfolding init_protocon protocon_state_init_symb_header monitor_main_load_trustedlo
init_protocon-Passive env has_symbols m i = elim (Bool-cases (has_symbols i)) [
  | inl found ↦ elim (Bool-cases (env.loads_elf i)) [
    | inl loads ↦ rw (found, loads) (refl, λ j. ground arith)
    | inr broken ↦ rw (found, broken) tt
  ]
  | inr missing ↦ rw missing tt
]

init_protocons-Passive :
    (env : Env) (has_symbols : ℕ → Bool) (n i hi : ℕ) (m : Monitor)
    → i + n ≡ hi
    → Holds (Passive m i hi) (init_protocons env has_symbols n i m)
unfolding init_protocons
init_protocons-Passive env has_symbols zero i hi m e = (refl, λ j. ground arith)
init_protocons-Passive env has_symbols (suc n) i hi m e =
    Holds-bind _ (Passive m i hi) (init_protocon env has_symbols m i) _
      (init_protocon-Passive env has_symbols m i)
      (λ mid p.
        Holds-map _ (Passive m i hi) (init_protocons env has_symbols n (i + 1) mid)
          (λ last q. (q.0 ∙ p.0, λ j. let a = p.1 j in let b = q.1 j in ground arith))
          (init_protocons-Passive env has_symbols n (i + 1) hi mid (omega arith)))

-- The monitor is ready: there are as many protocons as delegators, and at most 16; all of them are
-- passive and monitored, and no protocon has a peer.
pub record IsFresh (dlg : DlgHeader) (m : Monitor) : Type 0 where
  pub number : m.num_pc ≡ dlg.delegator_count
  pub few : m.num_pc ≤ 16
  pub all_passive : (j : ℕ) → j < m.num_pc → state_of m j ≡ passive
  pub monitored : m.monitored_protocon_count ≡ m.num_pc
  pub no_peers : (j : ℕ) → m.peer_policy j ≡ 0

ca_monitor_init_protocon_states-Passive :
    (env : Env) (has_symbols : ℕ → Bool) (svc : SvcDb) (m : Monitor) (n : ℕ)
    → Holds (Passive m 0 n) (ca_monitor_init_protocon_states env has_symbols svc m n)
unfolding ca_monitor_init_protocon_states service_registry_create
ca_monitor_init_protocon_states-Passive env has_symbols svc m n =
    Holds-bind _ (Passive m 0 n) (init_protocons env has_symbols n 0 m) _
      (init_protocons-Passive env has_symbols n 0 n m (omega arith))
      (λ mid p.
        Holds-bind _ (Passive m 0 n) (register_all mid.memory svc.services mid.protocon_states) _
          (Holds-of (λ states'. (j : ℕ) → life states' j ≡ life mid.protocon_states j)
            (register_all mid.memory svc.services mid.protocon_states)
            (λ states' e j.
              Holds-some _ _ (register_all-life mid.memory svc.services mid.protocon_states j) e))
          (λ states' q. (p.0, λ j. q j ∙ p.1 j)))

-- Where the initialisation returns, the monitor is ready: there are as many protocons as
-- delegators, and at most 16; all of them are passive and monitored, and no protocon has a peer.
pub ca_monitor_init_states-IsFresh :
    (env : Env) (has_symbols : ℕ → Bool) (dlg : DlgHeader) (svc : SvcDb) (m : Monitor)
    → Holds (IsFresh dlg) (ca_monitor_init_states env has_symbols dlg svc m)
unfolding ca_monitor_init_states ca_monitor_init_get_pcnum ca_monitor_init_validate_pc_count
    monitor_acl_initialise
ca_monitor_init_states-IsFresh env has_symbols dlg svc m =
    elim (Bool-cases (ltb 16 dlg.delegator_count)) [
      | inl many ↦ rw many tt
      | inr few ↦ rw few (
          Holds-bind _ (IsFresh dlg)
            (ca_monitor_init_protocon_states env has_symbols svc _ dlg.delegator_count) _
            (ca_monitor_init_protocon_states-Passive env has_symbols svc _ dlg.delegator_count)
            (λ mid p. record {
              number = p.0;
              few = ground arith;
              all_passive = λ j lt. let e = p.1 j in let n = p.0 in ground arith;
              monitored = refl;
              no_peers = λ j. refl;
            }))
    ]
