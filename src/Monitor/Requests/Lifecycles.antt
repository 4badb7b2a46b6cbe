-- ===== src/Monitor/Requests/Lifecycles.antt =====
-- What stop, suspend and resume do to the lifecycles.
use carrels.Base.{
  ◌≢◌, ◌↔◌, memzero, ℕ, ◌+◌, ◌≤◌, ◌<◌, ◌≡◌, refl, ◌∙◌, ap, inl, inr, true, false, ◌&&◌, ◌||◌, none,
  some, ◌∷◌, arith, ltb, leb, update, test_bit, if◌then◌else◌, ◌==◌, Bool-cases,
}
use carrels.Service.Types.{Lifecycle, active, passive, suspended, same_state, PcState}
use carrels.Monitor.State.{
  Monitor, Env, reply, no_error, monitor_get_pcid_from_ch, notified_orchestrator, stopped, resumed,
  loaded_trustedlo, protocon_state_get_lifecycle_state, protocon_state_set_lifecycle_state, emit,
  protocon_state_retrieve_context,
}
use carrels.Monitor.Network.{monitor_acl_release_protocon}
use carrels.Monitor.Network.Release.{monitor_acl_release_protocon-forgets}
use carrels.Monitor.Requests.{
  monitor_call_suspend_protocon, monitor_call_resume_protocon,
  monitor_call_stop_and_restore_protocon, monitor_call_restore_protocon,
  monitor_main_load_trustedlo, monitor_call_backup_protocon_loading_context,
  orc_monitor_region_size,
}

pub monitor_get_pcid_from_ch-base :
    (pc_id : ℕ) → pc_id < 16 → monitor_get_pcid_from_ch (pc_id + 24) ≡ pc_id
unfolding monitor_get_pcid_from_ch
monitor_get_pcid_from_ch-base pc_id h = ground arith

pub same_state→≡ : (a b : Lifecycle) → same_state a b ≡ true → a ≡ b
unfolding same_state
same_state→≡ a b h = ground arith

-- The lifecycle of each protocon, and what the call has done, newest first.
abbrev pub state_of : Monitor → ℕ → Lifecycle
state_of = protocon_state_get_lifecycle_state

-- Suspending one of the 16 protocons succeeds. If it is active it becomes suspended and its thread
-- is stopped; otherwise no lifecycle changes. The orchestrator is notified either way.
pub monitor_call_suspend_protocon-lifecycle :
    (m : Monitor) (pc_id : ℕ)
    → pc_id < 16
    → ((monitor_call_suspend_protocon m pc_id).1 ≡ reply no_error)
      × ((j : ℕ)
          → state_of (monitor_call_suspend_protocon m pc_id).0 j ≡ (
              if pc_id == j && same_state (state_of m pc_id) active
              then suspended
              else state_of m j))
      × ((monitor_call_suspend_protocon m pc_id).0.trace
          ≡ notified_orchestrator
            ∷ (if same_state (state_of m pc_id) active then stopped pc_id ∷ m.trace else m.trace))
unfolding monitor_call_suspend_protocon
monitor_call_suspend_protocon-lifecycle m pc_id h =
    let cid = monitor_get_pcid_from_ch-base pc_id h in
    let inside : leb 16 pc_id ≡ false = ground arith in
    let valid : (pc_id == 0xffc) ≡ false = ground arith in
    elim (Bool-cases (same_state (state_of m pc_id) active)) [
      | inl on ↦ rw (inside, cid, valid, on) (refl, λ j. ground arith, refl)
      | inr off ↦ rw (inside, cid, valid, off) (refl, λ j. ground arith, refl)
    ]

-- A resume call for one of the 16 protocons succeeds: a suspended protocon is resumed and becomes
-- active, no other lifecycle changes, and the orchestrator is told last.
pub monitor_call_resume_protocon-lifecycle :
    (m : Monitor) (pc_id : ℕ)
    → pc_id < 16
    → ((monitor_call_resume_protocon m pc_id).1 ≡ reply no_error)
      × ((j : ℕ)
          → state_of (monitor_call_resume_protocon m pc_id).0 j ≡ (
              if pc_id == j && same_state (state_of m pc_id) suspended
              then active
              else state_of m j))
      × ((monitor_call_resume_protocon m pc_id).0.trace
          ≡ notified_orchestrator
            ∷ (if same_state (state_of m pc_id) suspended
                then resumed pc_id ∷ m.trace
                else m.trace))
unfolding monitor_call_resume_protocon
monitor_call_resume_protocon-lifecycle m pc_id h =
    let cid = monitor_get_pcid_from_ch-base pc_id h in
    let inside : leb 16 pc_id ≡ false = ground arith in
    let valid : (pc_id == 0xffc) ≡ false = ground arith in
    elim (Bool-cases (same_state (state_of m pc_id) suspended)) [
      | inl on ↦ rw (inside, cid, valid, on) (refl, λ j. ground arith, refl)
      | inr off ↦ rw (inside, cid, valid, off) (refl, λ j. ground arith, refl)
    ]

-- Resuming an active protocon that was just suspended gives back every lifecycle.
pub monitor_call_resume_protocon-suspend :
    (m : Monitor) (pc_id j : ℕ)
    → pc_id < 16
    → state_of m pc_id ≡ active
    → state_of (monitor_call_resume_protocon (monitor_call_suspend_protocon m pc_id).0 pc_id).0 j
      ≡ state_of m j
unfolding same_state
monitor_call_resume_protocon-suspend m pc_id j h on =
    let m' = (monitor_call_suspend_protocon m pc_id).0 in
    let s = (monitor_call_suspend_protocon-lifecycle m pc_id h).1 in
    let r = (monitor_call_resume_protocon-lifecycle m' pc_id h).1 in
    let s_pc = s pc_id in
    let s_j = s j in
    let r_j = r j in let same : (pc_id == pc_id) ≡ true = ground arith in ground arith

-- What a restore leaves of the state: the protocon is available, and its image is gone.
pub record IsRestored (m : Monitor) (pc_id : ℕ) (m' : Monitor) : Type 0 where
  pub lifecycles : (j : ℕ) → state_of m' j ≡ (if pc_id == j then passive else state_of m j)
  pub image : m'.container_images pc_id ≡ none
  pub policies : m'.peer_policy ≡ m.peer_policy
  pub done : m'.trace ≡ notified_orchestrator ∷ loaded_trustedlo pc_id ∷ m.trace

restored : Env → Monitor → ℕ → Monitor
restored env m pc_id =
    let m' = protocon_state_set_lifecycle_state m pc_id passive in
    emit
      (emit
        (record m' {
          memory = memzero m'.memory (env.container_image pc_id) orc_monitor_region_size;
          container_images = update m'.container_images pc_id none;
        })
        (loaded_trustedlo pc_id))
      notified_orchestrator

restored-IsRestored :
    (env : Env) (m : Monitor) (pc_id : ℕ) → IsRestored m pc_id (restored env m pc_id)
unfolding restored
restored-IsRestored env m pc_id = record {
  lifecycles = λ j. ground arith;
  image = ground arith;
  policies = refl;
  done = refl;
}

pub monitor_call_restore_protocon-IsRestored :
    (env : Env) (m : Monitor) (pc_id : ℕ)
    → pc_id < 16
    → env.loads_elf pc_id ≡ true
    → (m' : Monitor) × (monitor_call_restore_protocon env m (pc_id + 24)
        ≡ some (m', reply no_error))
      × IsRestored m pc_id m'
unfolding monitor_call_restore_protocon monitor_main_load_trustedlo restored
monitor_call_restore_protocon-IsRestored env m pc_id h loads =
    let cid = monitor_get_pcid_from_ch-base pc_id h in
    let valid : (pc_id == 0xffc) ≡ false = ground arith in
    (restored env m pc_id, rw (cid, valid, loads) refl, restored-IsRestored env m pc_id)

-- Stopping one of the monitored protocons succeeds where the loader's ELF file can be loaded. The
-- protocon is available afterwards, no other lifecycle changes, its image is gone, it has no policy,
-- and no monitored protocon names it as a peer. Other peers stay as they were.
pub monitor_call_stop_and_restore_protocon-lifecycle :
    (env : Env) (m : Monitor) (pc_id : ℕ)
    → pc_id < 16
    → pc_id < m.monitored_protocon_count
    → env.loads_elf pc_id ≡ true
    → (m' : Monitor) × (monitor_call_stop_and_restore_protocon env m pc_id
        ≡ some (m', reply no_error))
      × ((j : ℕ) → state_of m' j ≡ (if pc_id == j then passive else state_of m j))
      × (m'.container_images pc_id ≡ none)
      × ((j i : ℕ)
          → test_bit (m'.peer_policy j) i ≡ (
              if j == pc_id || ltb j m.monitored_protocon_count && i == pc_id
              then false
              else test_bit (m.peer_policy j) i))
unfolding monitor_call_stop_and_restore_protocon
monitor_call_stop_and_restore_protocon-lifecycle env m pc_id h monitored loads =
    let released = monitor_acl_release_protocon env m pc_id in
    let (states, forgets) = monitor_acl_release_protocon-forgets env m pc_id monitored in
    let inside : leb 16 pc_id ≡ false = ground arith in
    let (m', e, v) =
      monitor_call_restore_protocon-IsRestored env (emit released (stopped pc_id)) pc_id h loads in
    (
      m',
      rw inside e,
      λ j.
          v.lifecycles j
          ∙ ap (λ (s : ℕ → PcState). if pc_id == j then passive else (s j).life_cycle_state) states,
      v.image,
      λ j i. ap (λ (p : ℕ → ℕ). test_bit (p j) i) v.policies ∙ forgets j i,
    )

-- The backup call returns exactly for the channels of the 16 protocons: for any other channel it
-- copies the context to a null pointer.
pub monitor_call_backup_protocon_loading_context_iff :
    (m : Monitor) (ch : ℕ)
    → (monitor_call_backup_protocon_loading_context m ch ≢ none) ↔ ((24 ≤ ch) × (ch < 40))
unfolding monitor_call_backup_protocon_loading_context protocon_state_retrieve_context
    monitor_get_pcid_from_ch
monitor_call_backup_protocon_loading_context_iff m ch = (
  λ h. elim (Bool-cases (ltb ch 24)) [
    | inl low ↦ absurd (h (rw low refl))
    | inr high ↦ elim (Bool-cases (leb 40 ch)) [
      | inl above ↦ absurd (h (rw (high, above) refl))
      | inr below ↦ (ground arith, ground arith)
    ]
  ],
  λ h e. ground arith,
)
