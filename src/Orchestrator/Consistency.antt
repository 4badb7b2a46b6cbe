-- ===== src/Orchestrator/Consistency.antt =====
-- What a deployment of the container runtime is to the rest of the orchestrator, and that the
-- deployments' operations keep it.
pub mod Shell
pub mod Pending
pub mod Ending
use carrels.Base.{
  same_text, ℕ, zero, suc, ◌+◌, ◌≡◌, ◌≢◌, refl, sym, subst, inl, inr, if◌then◌else◌, Bool, true,
  false, not, ◌&&◌, ◌||◌, ◌==◌, Bool-cases, Option-cases, Option, none, some, List, [], ◌∷◌, ltb,
  leb, arith, length, Holds, Holds-some, Holds-bind, Holds-of, ◌>>=◌, set_bit, clear_bit, test_bit,
}
use carrels.Orchestrator.Text.{parse_u32_decimal, nothing_left}
use carrels.Orchestrator.State.{
  Orchestrator, OrchestratorEnv, Answer, Event, image_to_filename, orchestrator_cri_image_exists,
  note, ppcall, fname_buf_size, spawned,
}
use carrels.Orchestrator.Deployments.{
  complete, load_targeted_elf_payload, print_deploy_result, monitor_protocon_is_running, is_running,
  first_slot, start_in_slot, orchestrator_cri_start, orchestrator_cri_stop,
}
use carrels.Orchestrator.Commands.{
  Exit, Command, start, lspcs, flip, set_acl, deploy, stop, suspend, resume, help, unknown,
  command_of, execute, shell_execute, cmd_start, cmd_no_argument, cmd_pd_control, cmd_set_acl,
  cmd_deploy, call_monitor, requested_pc_num, acl_arguments, deploy_arguments, start_deployment,
  i_flag,
}

-- A deployment of the container runtime is the one that is pending, and it has no peers.
pub record IsConsistent (o : Orchestrator) : Type 0 where
  pub pending : o.deploy_from_cri ≡ true → o.deploy_pending ≡ true
  pub no_peers : o.deploy_from_cri ≡ true → (o.deploy_peer_mask ≡ 0) × (o.deploy_peers_all ≡ false)

complete-IsConsistent :
    (o : Orchestrator) (pc_id : ℕ) (failed : Bool) → IsConsistent (complete o pc_id failed)
unfolding complete
complete-IsConsistent o pc_id failed = elim (Bool-cases o.deploy_from_cri) [
  | inl cri ↦ rw cri (record { pending = λ e. cc; no_peers = λ e. cc })
  | inr shell ↦ rw shell (record { pending = λ e. cc; no_peers = λ e. cc })
]

abbrev call_words : Orchestrator → List ℕ
call_words o = 22 ∷ o.deploy_pc_id ∷ o.deploy_peer_mask ∷ (if o.deploy_peers_all then 1 else 0) ∷ []

pub load-IsConsistent :
    (env : OrchestratorEnv) (o : Orchestrator)
    → IsConsistent o
    → IsConsistent (load_targeted_elf_payload env o)
unfolding load_targeted_elf_payload
load-IsConsistent env o v = elim (Bool-cases (env.reads_file o.trace o.fname_buf)) [
  | inl read ↦ elim (Bool-cases ((ppcall env o (call_words o)).1.label == 0)) [
    | inl okay ↦ rw (read, okay) (record { pending = v.pending; no_peers = v.no_peers })
    | inr refused ↦ rw (read, refused) (complete-IsConsistent _ o.deploy_pc_id true)
  ]
  | inr missing ↦ rw missing (complete-IsConsistent o o.deploy_pc_id true)
]

pub print-IsConsistent :
    (env : OrchestratorEnv) (busy : ℕ) (o : Orchestrator)
    → IsConsistent o
    → IsConsistent (print_deploy_result env busy o)
unfolding print_deploy_result
print-IsConsistent env busy o v =
    let answer = (ppcall env o (23 ∷ [])).1 in
    elim (Bool-cases (answer.label == busy)) [
      | inl later ↦ rw later (record { pending = v.pending; no_peers = v.no_peers })
      | inr now ↦ elim (Bool-cases (o.deploy_from_cri && answer.label == 0)) [
        | inl asked ↦ rw (now, asked) (complete-IsConsistent _ _ _)
        | inr other ↦ rw (now, other) (complete-IsConsistent _ _ _)
      ]
    ]

start_in_slot-IsConsistent :
    (env : OrchestratorEnv) (o : Orchestrator) (id : ℕ)
    → IsConsistent (start_in_slot env (λ o. o) o id).0
unfolding start_in_slot
start_in_slot-IsConsistent env o id = elim (Bool-cases (env.spawns o.trace)) [
  | inl okay ↦ rw okay (record { pending = λ e. refl; no_peers = λ e. (refl, refl) })
  | inr full ↦ rw full (record { pending = λ e. cc; no_peers = λ e. (refl, refl) })
]

pub cri_start-IsConsistent :
    (env : OrchestratorEnv) (o : Orchestrator) (image : List ℕ)
    → IsConsistent o
    → IsConsistent (orchestrator_cri_start env (λ o. o) o image).0
unfolding orchestrator_cri_start
cri_start-IsConsistent env o image v =
    elim (Bool-cases (o.deploy_pending || not (orchestrator_cri_image_exists o image))) [
      | inl refused ↦ rw refused v
      | inr accepted ↦ elim (Option-cases (image_to_filename image)) [
        | inl unnamed ↦ rw (accepted, unnamed) v
        | inr (file, e) ↦
            elim (Option-cases (first_slot o.cri_slots_in_use env.max_protocon_ports 0)) [
              | inl full ↦
                  rw (accepted, e, full) (record { pending = v.pending; no_peers = v.no_peers })
              | inr (id, s) ↦
                  rw (accepted, e, s)
                    (start_in_slot-IsConsistent env (record o { fname_buf = file }) id)
            ]
      ]
    ]

-- What the query of a running protocon leaves as it is.
asked-IsConsistent :
    (env : OrchestratorEnv) (o : Orchestrator) (pc_id : ℕ)
    → IsConsistent o
    → IsConsistent (monitor_protocon_is_running env o pc_id).0
unfolding monitor_protocon_is_running
asked-IsConsistent env o pc_id v = elim (Bool-cases (leb env.max_protocon_ports pc_id)) [
  | inl outside ↦ rw outside v
  | inr inside ↦ elim (Bool-cases ((ppcall env o (10 ∷ [])).1.label == 0)) [
    | inl okay ↦ rw (inside, okay) (record { pending = v.pending; no_peers = v.no_peers })
    | inr failed ↦ rw (inside, failed) (record { pending = v.pending; no_peers = v.no_peers })
  ]
]

pub stop-IsConsistent :
    (env : OrchestratorEnv) (o : Orchestrator) (pc_id : ℕ)
    → IsConsistent o
    → IsConsistent (orchestrator_cri_stop env o pc_id).0
unfolding orchestrator_cri_stop
stop-IsConsistent env o pc_id v =
    let (o1, answer) = ppcall env o (6 ∷ pc_id ∷ []) in
    let w =
      asked-IsConsistent env o1 pc_id (record { pending = v.pending; no_peers = v.no_peers }) in
    elim (Bool-cases
      (leb env.max_protocon_ports pc_id || not (test_bit o.cri_slots_in_use pc_id))) [
        | inl unknown_slot ↦ rw unknown_slot v
        | inr slot ↦ elim (Bool-cases (answer.label == 0)) [
          | inr refused ↦ rw (slot, refused) (record { pending = v.pending; no_peers = v.no_peers })
          | inl okay ↦ elim (Option-cases (monitor_protocon_is_running env o1 pc_id).1) [
            | inl failed ↦ rw (slot, okay, failed) w
            | inr (still, e) ↦ elim (Bool-cases still) [
              | inl on ↦ rw (slot, okay, e, on) w
              | inr off ↦
                  rw (slot, okay, e, off) (record { pending = w.pending; no_peers = w.no_peers })
            ]
          ]
        ]
      ]
