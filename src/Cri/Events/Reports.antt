-- ===== src/Cri/Events/Reports.antt =====
-- How the end of a deployment shows in the table of containers.
use carrels.Base.{
  ℕ, ◌%◌, ◌^◌, ◌<◌, ◌≡◌, ◌==◌, refl, sym, ◌∙◌, ap, subst, inl, inr, if◌then◌else◌, Bool, true,
  false, not, ◌&&◌, Bool-cases, Option, none, some, List, [], ◌∷◌, arith, update, codes, same_text,
  clear_bit, IsFirstFrom, first_from-IsFirstFrom,
}
use carrels.Orchestrator.State.{
  Orchestrator, OrchestratorEnv, Event, Answer, called, deploy_completed, note,
}
use carrels.Orchestrator.Deployments.{
  complete, print_deploy_result, monitor_protocon_is_running, is_running,
}
use carrels.Cri.Objects.{CriObject, Table, first_object}
use carrels.Cri.Objects.View.{view, Distinct, if_present-some, view-update}
use carrels.Cri.State.{CriRuntime, System}
use carrels.Cri.Dispatch.{next, with_reason}
use carrels.Cri.Dispatch.Numbered.{found-IsPlaced}
use carrels.Cri.Transport.{cri_runtime_deploy_complete, is_starting}
use carrels.Cri.Events.{heard, monitor_notified}

-- The container that waits for the protocon's deployment.
pub record IsWaiting (table : Table) (pc_id i : ℕ) : Type 0 where
  pub inside : i < 32
  pub starts : is_starting pc_id (table i) ≡ true
  pub alone : (j : ℕ) → j < 32 → is_starting pc_id (table j) ≡ true → j ≡ i

abbrev pub failed_object : ℕ → CriObject → CriObject
failed_object now o =
    with_reason (codes "CarrelsStartFailed")
      (record o { state = 2; exit_code = 1; finished_at = now })

-- What becomes of that container.
abbrev pub ended_object : ℕ → Bool → CriObject → CriObject
ended_object now true o = failed_object now o
ended_object now false o = with_reason (codes "CarrelsRunning") o

first_waiting :
    (table : Table) (pc_id i : ℕ)
    → IsWaiting table pc_id i
    → first_object (is_starting pc_id) table 32 0 ≡ some i
first_waiting table pc_id i w =
    go (first_object (is_starting pc_id) table 32 0)
      (first_from-IsFirstFrom (λ j. is_starting pc_id (table j)) 32 0 32 (omega arith))
  where
    go : (o : Option ℕ) → IsFirstFrom (λ j. is_starting pc_id (table j)) 0 32 o → o ≡ some i
    go none h = absurd (let a = h i (omega arith) w.inside in let b = w.starts in cc)
    go (some k) (low, high, passes, before) = ap some (w.alone k high passes)

deploy_complete-containers :
    (r : CriRuntime) (pc_id i : ℕ) (failed : Bool)
    → IsWaiting r.containers pc_id i
    → (cri_runtime_deploy_complete r pc_id failed).containers
      ≡ update r.containers i (ended_object (next r.timestamp) failed (r.containers i))
unfolding cri_runtime_deploy_complete
deploy_complete-containers r pc_id i true w =
    rw (cri_runtime_deploy_complete, first_waiting r.containers pc_id i w) refl
deploy_complete-containers r pc_id i false w =
    rw (cri_runtime_deploy_complete, first_waiting r.containers pc_id i w) refl

present-starting : (pc_id : ℕ) (o : CriObject) → is_starting pc_id o ≡ true → o.present ≡ true
present-starting pc_id o h = ground arith

ended_object-present :
    (now : ℕ) (failed : Bool) (o : CriObject) → (ended_object now failed o).present ≡ o.present
ended_object-present now true o = refl
ended_object-present now false o = refl

ended_object-id : (now : ℕ) (failed : Bool) (o : CriObject) → (ended_object now failed o).id ≡ o.id
ended_object-id now true o = refl
ended_object-id now false o = refl

-- The container is shown with its outcome, and every other one as before.
deploy_complete-view :
    (r : CriRuntime) (pc_id i : ℕ) (failed : Bool) (id : List ℕ)
    → Distinct r.containers
    → IsWaiting r.containers pc_id i
    → view (cri_runtime_deploy_complete r pc_id failed).containers id ≡ (
        if same_text id (r.containers i).id
        then some (ended_object (next r.timestamp) failed (r.containers i))
        else view r.containers id)
deploy_complete-view r pc_id i failed id distinct w =
    let o = ended_object (next r.timestamp) failed (r.containers i) in
    let there = present-starting pc_id (r.containers i) w.starts in
    ap (λ t. view t id) (deploy_complete-containers r pc_id i failed w)
    ∙ view-update r.containers i (r.containers i).id o id distinct (
        found-IsPlaced r.containers i (r.containers i).id o distinct (w.inside, there, refl)
          (λ h. ended_object-id (next r.timestamp) failed (r.containers i)))
    ∙ ap (λ t. if same_text id (r.containers i).id then t else view r.containers id)
        (sym (
          if_present-some o
            (ended_object-present (next r.timestamp) failed (r.containers i) ∙ there)))

-- The deployment of the container runtime is over: its slot is given back if it failed.
pub record IsOver (o : Orchestrator) (pc_id : ℕ) (failed : Bool) (o' : Orchestrator) : Type 0 where
  pub told : (t : List Event) × (o'.trace ≡ deploy_completed pc_id failed ∷ t)
  pub idle : o'.deploy_pending ≡ false
  pub free : o'.deploy_from_cri ≡ false
  pub slots :
      o'.cri_slots_in_use
      ≡ (if failed then clear_bit o.cri_slots_in_use pc_id else o.cri_slots_in_use)

complete-IsOver :
    (o o' : Orchestrator) (pc_id : ℕ) (failed : Bool)
    → o'.deploy_from_cri ≡ true
    → o'.cri_slots_in_use ≡ o.cri_slots_in_use
    → IsOver o pc_id failed (complete o' pc_id failed)
unfolding complete
complete-IsOver o o' pc_id failed cri same = rw cri (record {
  told = (o'.trace, refl);
  idle = refl;
  free = refl;
  slots = ap (λ n. if failed then clear_bit n pc_id else n) same;
})

running-same :
    (env : OrchestratorEnv) (o : Orchestrator) (pc_id : ℕ)
    → ((monitor_protocon_is_running env o pc_id).0.deploy_from_cri ≡ o.deploy_from_cri)
      × ((monitor_protocon_is_running env o pc_id).0.cri_slots_in_use ≡ o.cri_slots_in_use)
unfolding monitor_protocon_is_running
running-same env o pc_id = ground arith

module _ (env : OrchestratorEnv) (mon_deploy_in_progress : ℕ) (s : System) where
  -- The monitor's answer, and the protocon that it names.
  abbrev pub answer : Answer
  answer = env.microkit_ppcall s.orchestrator.trace (23 ∷ [])

  abbrev pub answered_pc : ℕ
  answered_pc = answer.mr 0 % 2 ^ 32

  -- The monitor reports an error, or does not show the protocon as running.
  abbrev pub has_failed : Bool
  has_failed =
      if answer.label == 0
      then not (
          is_running
            (monitor_protocon_is_running env (note s.orchestrator (called (23 ∷ [])))
              answered_pc).1)
      else true

  print_deploy_result-IsOver :
      (answer.label == mon_deploy_in_progress) ≡ false
      → s.orchestrator.deploy_from_cri ≡ true
      → IsOver s.orchestrator answered_pc has_failed
          (print_deploy_result env mon_deploy_in_progress s.orchestrator)
  unfolding print_deploy_result
  print_deploy_result-IsOver ended cri =
      let o1 = note s.orchestrator (called (23 ∷ [])) in
      let same = running-same env o1 answered_pc in
      elim (Bool-cases (answer.label == 0)) [
        | inl fine ↦
            let asks : s.orchestrator.deploy_from_cri && answer.label == 0 ≡ true = ground arith in
            rw (print_deploy_result, ended, asks, fine)
              (complete-IsOver s.orchestrator (monitor_protocon_is_running env o1 answered_pc).0
                answered_pc _ (same.0 ∙ cri) same.1)
        | inr error ↦
            let asks : s.orchestrator.deploy_from_cri && answer.label == 0 ≡ false = ground arith in
            rw (print_deploy_result, ended, asks, error)
              (complete-IsOver s.orchestrator o1 answered_pc true cri refl)
      ]

  abbrev result : Orchestrator
  result = print_deploy_result env mon_deploy_in_progress s.orchestrator

  asked_result :
      s.orchestrator.deploy_pending ≡ true
      → monitor_notified env mon_deploy_in_progress s
        ≡ record { runtime = heard s.runtime result.trace; orchestrator = result }
  unfolding monitor_notified
  asked_result pending = simp pending

  -- The monitor has notified the orchestrator that the deployment which the container runtime waits for
  -- is over, and one container waits for the protocon that the answer names. Then that container is
  -- shown as running if the monitor reports success and shows the protocon as running, and otherwise as
  -- ended, with exit code 1; every other container is shown as before. The next deployment can start,
  -- and the slot of a failed one is free.
  pub monitor_notified-reports :
      (i : ℕ)
      → s.orchestrator.deploy_pending ≡ true
      → s.orchestrator.deploy_from_cri ≡ true
      → (answer.label == mon_deploy_in_progress) ≡ false
      → Distinct s.runtime.containers
      → IsWaiting s.runtime.containers answered_pc i
      → IsOver s.orchestrator answered_pc has_failed
          (monitor_notified env mon_deploy_in_progress s).orchestrator
        × ((id : List ℕ)
            → view (monitor_notified env mon_deploy_in_progress s).runtime.containers id ≡ (
                if same_text id (s.runtime.containers i).id
                then some
                    (ended_object (next s.runtime.timestamp) has_failed (s.runtime.containers i))
                else view s.runtime.containers id))
  monitor_notified-reports i pending cri ended distinct waiting =
      let over = print_deploy_result-IsOver ended cri in
      let same = asked_result pending in
      (
        subst (λ (t : System). IsOver s.orchestrator answered_pc has_failed t.orchestrator)
            (sym same) over,
        λ id.
            ap (λ (t : System). view t.runtime.containers id) same
            ∙ ap (λ trace. view (heard s.runtime trace).containers id) over.told.1
            ∙ deploy_complete-view s.runtime answered_pc i has_failed id distinct waiting,
      )
