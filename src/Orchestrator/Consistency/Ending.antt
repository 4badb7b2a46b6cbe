-- ===== src/Orchestrator/Consistency/Ending.antt =====
-- What the steps besides the shell's do while a deployment is pending.
use carrels.Base.{
  ℕ, ◌≡◌, ◌⊎◌, refl, inl, inr, true, false, not, ◌&&◌, ◌||◌, ◌==◌, Bool-cases, Option-cases, List,
  [], ◌∷◌, Bool, leb, test_bit, arith, if◌then◌else◌,
}
use carrels.Orchestrator.State.{
  Orchestrator, OrchestratorEnv, ppcall, orchestrator_cri_image_exists,
}
use carrels.Orchestrator.Deployments.{
  complete, load_targeted_elf_payload, print_deploy_result, monitor_protocon_is_running,
  orchestrator_cri_start, orchestrator_cri_stop,
}
use carrels.Orchestrator.Input.{load_elf_payload}
use carrels.Orchestrator.Consistency.{IsConsistent}
use carrels.Orchestrator.Consistency.Pending.{Untouched, untouched}

-- Nothing is pending any more, or the deployment is as it was.
abbrev pub EndsOr : Bool → Orchestrator → Orchestrator → Type 0
EndsOr renamed o o' = (o'.deploy_pending ≡ false) ⊎ Untouched renamed o o'

complete-ends :
    (o : Orchestrator) (pc_id : ℕ) (failed : Bool)
    → (complete o pc_id failed).deploy_pending ≡ false
unfolding complete
complete-ends o pc_id failed = elim (Bool-cases o.deploy_from_cri) [
  | inl cri ↦ rw cri refl
  | inr shell ↦ rw shell refl
]

module _ (env : OrchestratorEnv) (o : Orchestrator) (p : o.deploy_pending ≡ true) where
  pub load-EndsOr : EndsOr false o (load_targeted_elf_payload env o)
  unfolding load_targeted_elf_payload
  load-EndsOr = elim (Bool-cases (env.reads_file o.trace o.fname_buf)) [
    | inr missing ↦ rw missing (inl (complete-ends o o.deploy_pc_id true))
    | inl read ↦
        elim (Bool-cases (
          (ppcall env o (
            22
            ∷ o.deploy_pc_id
            ∷ o.deploy_peer_mask
            ∷ (if o.deploy_peers_all then 1 else 0)
            ∷ [])).1.label
          == 0)) [
            | inl okay ↦ rw (read, okay) (inr ((p, refl, refl, refl, refl), inl refl))
            | inr refused ↦ rw (read, refused) (inl (complete-ends _ o.deploy_pc_id true))
          ]
  ]

  pub print-EndsOr : (busy : ℕ) → EndsOr false o (print_deploy_result env busy o)
  unfolding print_deploy_result
  print-EndsOr busy =
      let answer = (ppcall env o (23 ∷ [])).1 in
      elim (Bool-cases (answer.label == busy)) [
        | inl later ↦ rw later (inr ((p, refl, refl, refl, refl), inl refl))
        | inr now ↦ elim (Bool-cases (o.deploy_from_cri && answer.label == 0)) [
          | inl asked ↦ rw (now, asked) (inl (complete-ends _ _ _))
          | inr other ↦ rw (now, other) (inl (complete-ends _ _ _))
        ]
      ]

  pub cri_start-Untouched :
      (image : List ℕ) → Untouched false o (orchestrator_cri_start env (λ o. o) o image).0
  unfolding orchestrator_cri_start
  cri_start-Untouched image =
      let refused : (o.deploy_pending || not (orchestrator_cri_image_exists o image)) ≡ true =
        ground arith in
      rw refused (untouched o false p)

  asked-Untouched : (pc_id : ℕ) → Untouched false o (monitor_protocon_is_running env o pc_id).0
  unfolding monitor_protocon_is_running
  asked-Untouched pc_id = elim (Bool-cases (leb env.max_protocon_ports pc_id)) [
    | inl outside ↦ rw outside (untouched o false p)
    | inr inside ↦ elim (Bool-cases ((ppcall env o (10 ∷ [])).1.label == 0)) [
      | inl okay ↦ rw (inside, okay) ((p, refl, refl, refl, refl), inl refl)
      | inr failed ↦ rw (inside, failed) ((p, refl, refl, refl, refl), inl refl)
    ]
  ]

module _ (env : OrchestratorEnv) (o : Orchestrator) (p : o.deploy_pending ≡ true) where
  pub stop-Untouched : (pc_id : ℕ) → Untouched false o (orchestrator_cri_stop env o pc_id).0
  unfolding orchestrator_cri_stop
  stop-Untouched pc_id =
      let (o1, answer) = ppcall env o (6 ∷ pc_id ∷ []) in
      let w : Untouched false o (monitor_protocon_is_running env o1 pc_id).0 =
        asked-Untouched env o1 p pc_id in
      elim (Bool-cases
        (leb env.max_protocon_ports pc_id || not (test_bit o.cri_slots_in_use pc_id))) [
          | inl unknown_slot ↦ rw unknown_slot (untouched o false p)
          | inr slot ↦ elim (Bool-cases (answer.label == 0)) [
            | inr refused ↦ rw (slot, refused) ((p, refl, refl, refl, refl), inl refl)
            | inl okay ↦ elim (Option-cases (monitor_protocon_is_running env o1 pc_id).1) [
              | inl failed ↦ rw (slot, okay, failed) w
              | inr (still, e) ↦ elim (Bool-cases still) [
                | inl on ↦ rw (slot, okay, e, on) w
                | inr off ↦ rw (slot, okay, e, off) w
              ]
            ]
          ]
        ]

-- The cothread of the shell's `start`.
pub shell_load-IsConsistent :
    (env : OrchestratorEnv) (o : Orchestrator)
    → IsConsistent o
    → IsConsistent (load_elf_payload env o)
unfolding load_elf_payload
shell_load-IsConsistent env o v = elim (Bool-cases (env.reads_file o.trace o.fname_buf)) [
  | inl read ↦ rw read (record { pending = v.pending; no_peers = v.no_peers })
  | inr missing ↦ rw missing v
]

pub shell_load-Untouched :
    (env : OrchestratorEnv) (o : Orchestrator)
    → o.deploy_pending ≡ true
    → Untouched false o (load_elf_payload env o)
unfolding load_elf_payload
shell_load-Untouched env o p = elim (Bool-cases (env.reads_file o.trace o.fname_buf)) [
  | inl read ↦ rw read ((p, refl, refl, refl, refl), inl refl)
  | inr missing ↦ rw missing (untouched o false p)
]
