-- ===== src/Orchestrator/Reach.antt =====
-- The orchestrator's steps in any order: shell commands, the cothread of a deployment, the monitor's
-- notifications, and what the container runtime calls. A yield is the step that follows it.
use carrels.Base.{
  ℕ, ◌≡◌, ◌⊎◌, inl, inr, Bool, Bool-cases, not, ◌||◌, arith, true, false, some, List, Holds-some,
}
use carrels.Orchestrator.State.{Orchestrator, OrchestratorEnv}
use carrels.Orchestrator.Deployments.{
  load_targeted_elf_payload, print_deploy_result, orchestrator_cri_start, orchestrator_cri_stop,
}
use carrels.Orchestrator.Commands.{shell_execute}
use carrels.Orchestrator.Input.{load_elf_payload}
use carrels.Orchestrator.Consistency.{
  IsConsistent, load-IsConsistent, print-IsConsistent, cri_start-IsConsistent, stop-IsConsistent,
}
use carrels.Orchestrator.Consistency.Shell.{shell_execute-Kept}
use carrels.Orchestrator.Consistency.Pending.{Untouched, untouched, starts, shell_execute-Spares}
use carrels.Orchestrator.Consistency.Ending.{
  EndsOr, load-EndsOr, print-EndsOr, cri_start-Untouched, stop-Untouched, shell_load-Untouched,
  shell_load-IsConsistent,
}

-- The orchestrator's steps. The cothread of a deployment and the monitor's notification of it come
-- while one is pending.
pub data Step (env : OrchestratorEnv) (mon_deploy_in_progress : ℕ)
    : Orchestrator → Orchestrator → Type 0 where
  executed :
      {o o' : Orchestrator} (argv : List (List ℕ)) (code : ℕ)
      → shell_execute env (λ o. o) o argv ≡ some (o', code)
      → Step env mon_deploy_in_progress o o'
  loaded :
      {o : Orchestrator}
      → o.deploy_pending ≡ true
      → Step env mon_deploy_in_progress o (load_targeted_elf_payload env o)
  reported :
      {o : Orchestrator}
      → o.deploy_pending ≡ true
      → Step env mon_deploy_in_progress o (print_deploy_result env mon_deploy_in_progress o)
  shell_loaded : {o : Orchestrator} → Step env mon_deploy_in_progress o (load_elf_payload env o)
  cri_started :
      {o : Orchestrator} (image : List ℕ)
      → Step env mon_deploy_in_progress o (orchestrator_cri_start env (λ o. o) o image).0
  cri_stopped :
      {o : Orchestrator} (pc_id : ℕ)
      → Step env mon_deploy_in_progress o (orchestrator_cri_stop env o pc_id).0

-- A sequence of steps.
pub data Steps (env : OrchestratorEnv) (mon_deploy_in_progress : ℕ)
    : Orchestrator → Orchestrator → Type 0 where
  done : {o : Orchestrator} → Steps env mon_deploy_in_progress o o
  then_step :
      {a b c : Orchestrator}
      → Steps env mon_deploy_in_progress a b
      → Step env mon_deploy_in_progress b c
      → Steps env mon_deploy_in_progress a c

Step-IsConsistent :
    (env : OrchestratorEnv) (busy : ℕ) (o o' : Orchestrator)
    → Step env busy o o'
    → IsConsistent o
    → IsConsistent o'
Step-IsConsistent env busy o o' (executed argv code e) v =
    Holds-some (λ r. IsConsistent r.0) _ (shell_execute-Kept env o argv v) e
Step-IsConsistent env busy o o' (loaded p) v = load-IsConsistent env o v
Step-IsConsistent env busy o o' shell_loaded v = shell_load-IsConsistent env o v
Step-IsConsistent env busy o o' (reported p) v = print-IsConsistent env busy o v
Step-IsConsistent env busy o o' (cri_started image) v = cri_start-IsConsistent env o image v
Step-IsConsistent env busy o o' (cri_stopped pc_id) v = stop-IsConsistent env o pc_id v

-- Whether the step is the shell's `start`.
abbrev renames :
    {env : OrchestratorEnv} {busy : ℕ} {o o' : Orchestrator} → Step env busy o o' → Bool
renames (executed argv code e) = starts argv
renames (loaded p) = false
renames shell_loaded = false
renames (reported p) = false
renames (cri_started image) = false
renames (cri_stopped pc_id) = false

Step-EndsOr :
    (env : OrchestratorEnv) (busy : ℕ) (o o' : Orchestrator) (step : Step env busy o o')
    → o.deploy_pending ≡ true
    → EndsOr (renames step) o o'
Step-EndsOr env busy o o' (executed argv code e) p =
    inr (Holds-some (λ r. Untouched (starts argv) o r.0) _ (shell_execute-Spares env o p argv) e)
Step-EndsOr env busy o o' (loaded q) p = load-EndsOr env o p
Step-EndsOr env busy o o' shell_loaded p = inr (shell_load-Untouched env o p)
Step-EndsOr env busy o o' (reported q) p = print-EndsOr env o p busy
Step-EndsOr env busy o o' (cri_started image) p = inr (cri_start-Untouched env o p image)
Step-EndsOr env busy o o' (cri_stopped pc_id) p = inr (stop-Untouched env o p pc_id)

-- Whether a state of the sequence has no deployment pending.
abbrev pub was_idle :
    {env : OrchestratorEnv} {busy : ℕ} {o o' : Orchestrator} → Steps env busy o o' → Bool
was_idle (done {o}) = not o.deploy_pending
was_idle (then_step {a} {b} {c} before last) = was_idle before || not c.deploy_pending

-- Whether a step of the sequence is the shell's `start`.
abbrev pub has_start :
    {env : OrchestratorEnv} {busy : ℕ} {o o' : Orchestrator} → Steps env busy o o' → Bool
has_start done = false
has_start (then_step before last) = has_start before || renames last

-- The steps passed a state without a pending deployment, or the deployment is as it was at their
-- start, its file too unless one of them was a `start`.
abbrev pub IdleOrSame :
    {env : OrchestratorEnv} {busy : ℕ} {o o' : Orchestrator} → Steps env busy o o' → Type 0
IdleOrSame {env} {busy} {o} {o'} steps = (was_idle steps ≡ true) ⊎ Untouched (has_start steps) o o'

Untouched-trans :
    (first second : Bool) (a b c : Orchestrator)
    → Untouched first a b
    → Untouched second b c
    → Untouched (first || second) a c
Untouched-trans first second a b c x y = ground arith

Steps-IdleOrSame :
    (env : OrchestratorEnv) (busy : ℕ) (o o' : Orchestrator) (steps : Steps env busy o o')
    → IdleOrSame steps
Steps-IdleOrSame env busy o o' done = elim (Bool-cases o.deploy_pending) [
  | inl on ↦ inr (untouched o false on)
  | inr off ↦ inl (ground arith)
]
Steps-IdleOrSame env busy o o' (then_step {a} {b} before last) =
    elim (Steps-IdleOrSame env busy o b before) [
      | inl idle ↦ inl (ground arith)
      | inr same ↦ elim (Step-EndsOr env busy b o' last same.0.0) [
        | inl ended ↦ inl (ground arith)
        | inr kept ↦ inr (Untouched-trans _ _ o b o' same kept)
      ]
    ]

-- Whatever steps the orchestrator takes from a consistent state, in any order, where what a spawned
-- cothread does is a step of its own: the state behind them is consistent, so that a deployment of
-- the container runtime that is under way is the one that is pending, and connects to no peer. And
-- a pending deployment stays as it is, with its protocon, its peers and who asked for it, until it
-- ends and none is pending: no command of the shell and no call of the container runtime takes its
-- place. Its file name stays too, unless the shell runs `start`.
pub Steps-IsConsistent :
    (env : OrchestratorEnv) (busy : ℕ) (o o' : Orchestrator) (steps : Steps env busy o o')
    → IsConsistent o
    → IsConsistent o' × IdleOrSame steps
Steps-IsConsistent env busy o o' steps v =
    (all_consistent o' steps, Steps-IdleOrSame env busy o o' steps)
  where
    all_consistent : (o'' : Orchestrator) → Steps env busy o o'' → IsConsistent o''
    all_consistent o'' done = v
    all_consistent o'' (then_step {a} {b} before last) =
        Step-IsConsistent env busy _ o'' last (all_consistent b before)
