-- ===== src/Orchestrator/Consistency/Shell.antt =====
-- The shell's commands keep a deployment of the container runtime as it is.
use carrels.Base.{
  codes, same_text, ℕ, ◌≡◌, ◌≢◌, refl, inl, inr, Bool, true, false, not, ◌||◌, ◌==◌, Bool-cases,
  Option-cases, List, [], ◌∷◌, ltb, leb, length, Holds,
}
use carrels.Orchestrator.Text.{parse_u32_decimal, nothing_left}
use carrels.Orchestrator.State.{Orchestrator, OrchestratorEnv, ppcall, fname_buf_size}
use carrels.Orchestrator.Commands.{
  Exit, Command, start, lspcs, flip, set_acl, deploy, stop, suspend, resume, help, unknown,
  command_of, execute, shell_execute, cmd_start, cmd_no_argument, cmd_pd_control, cmd_set_acl,
  cmd_deploy, call_monitor, requested_pc_num, acl_arguments, deploy_arguments, start_deployment,
  i_flag,
}
use carrels.Orchestrator.Consistency.{IsConsistent}

abbrev pub Kept : Exit → Type 0
Kept = Holds (λ r. IsConsistent r.0)

call_monitor-Kept :
    (env : OrchestratorEnv) (o : Orchestrator) (words : List ℕ)
    → IsConsistent o
    → Kept (call_monitor env o words)
unfolding call_monitor
call_monitor-Kept env o words v = elim (Bool-cases ((ppcall env o words).1.label == 0)) [
  | inl okay ↦ rw okay (record { pending = v.pending; no_peers = v.no_peers })
  | inr refused ↦ rw refused tt
]

cmd_no_argument-Kept :
    (env : OrchestratorEnv) (o : Orchestrator) (argv : List (List ℕ)) (n : ℕ)
    → IsConsistent o
    → Kept (cmd_no_argument env o argv n)
unfolding cmd_no_argument
cmd_no_argument-Kept env o argv n v = elim (Bool-cases (length argv == 1)) [
  | inl one ↦ rw one (call_monitor-Kept env o (n ∷ []) v)
  | inr other ↦ rw other v
]

cmd_pd_control-Kept :
    (env : OrchestratorEnv) (o : Orchestrator) (argv : List (List ℕ)) (n : ℕ)
    → IsConsistent o
    → Kept (cmd_pd_control env o argv n)
unfolding cmd_pd_control
cmd_pd_control-Kept env o (name ∷ flag ∷ id ∷ []) n v = elim (Bool-cases (same_text flag i_flag)) [
  | inl named ↦ elim (Option-cases (parse_u32_decimal id)) [
    | inl bad ↦ rw (named, bad) v
    | inr (pd_id, e) ↦ rw (named, e) (call_monitor-Kept env o (n ∷ pd_id ∷ []) v)
  ]
  | inr other ↦ rw other v
]
cmd_pd_control-Kept env o [] n v = v
cmd_pd_control-Kept env o (a ∷ []) n v = v
cmd_pd_control-Kept env o (a ∷ b ∷ []) n v = v
cmd_pd_control-Kept env o (a ∷ b ∷ c ∷ d ∷ rest) n v = v

cmd_start-Kept :
    (env : OrchestratorEnv) (o : Orchestrator) (argv : List (List ℕ))
    → IsConsistent o
    → Kept (cmd_start env o argv)
unfolding cmd_start
cmd_start-Kept env o [] v = v
cmd_start-Kept env o (a ∷ []) v = v
cmd_start-Kept env o (name ∷ file ∷ rest) v =
    elim (Bool-cases
      (ltb 1 (length rest) || nothing_left file || leb fname_buf_size (length file))) [
        | inl bad ↦ rw bad v
        | inr good ↦ elim (Option-cases (requested_pc_num rest)) [
          | inl none_given ↦ rw (good, none_given) v
          | inr (n, e) ↦ elim (Bool-cases (env.spawns o.trace)) [
            | inl okay ↦ rw (good, e, okay) (record { pending = v.pending; no_peers = v.no_peers })
            | inr full ↦ rw (good, e, full) (record { pending = v.pending; no_peers = v.no_peers })
          ]
        ]
      ]

cmd_set_acl-Kept :
    (env : OrchestratorEnv) (o : Orchestrator) (argv : List (List ℕ))
    → IsConsistent o
    → Kept (cmd_set_acl env o argv)
unfolding cmd_set_acl
cmd_set_acl-Kept env o (name ∷ flag ∷ text0 ∷ text1 ∷ value_flag ∷ text ∷ []) v =
    elim (Bool-cases (not (same_text flag i_flag) || not (same_text value_flag (codes "-v")))) [
      | inl bad ↦ rw bad v
      | inr good ↦ elim (Option-cases (acl_arguments text0 text1 text)) [
        | inl invalid ↦ rw (good, invalid) v
        | inr (ports, e) ↦ rw (good, e) (record { pending = v.pending; no_peers = v.no_peers })
      ]
    ]
cmd_set_acl-Kept env o [] v = v
cmd_set_acl-Kept env o (a ∷ []) v = v
cmd_set_acl-Kept env o (a ∷ b ∷ []) v = v
cmd_set_acl-Kept env o (a ∷ b ∷ c ∷ []) v = v
cmd_set_acl-Kept env o (a ∷ b ∷ c ∷ d ∷ []) v = v
cmd_set_acl-Kept env o (a ∷ b ∷ c ∷ d ∷ e ∷ []) v = v
cmd_set_acl-Kept env o (a ∷ b ∷ c ∷ d ∷ e ∷ f ∷ g ∷ rest) v = v

-- Where no deployment is pending, none is the container runtime's.
idle_shell :
    (o : Orchestrator) → IsConsistent o → o.deploy_pending ≡ false → o.deploy_from_cri ≢ true
idle_shell o v h e = let p = v.pending e in cc

start_deployment-Kept :
    (env : OrchestratorEnv) (o : Orchestrator) (file : List ℕ) (arguments : ℕ × ℕ × Bool)
    → o.deploy_from_cri ≢ true
    → Kept (start_deployment env (λ o. o) o file arguments)
unfolding start_deployment
start_deployment-Kept env o file arguments idle = elim (Bool-cases (env.spawns o.trace)) [
  | inl okay ↦ rw okay (record { pending = λ e. absurd (idle e); no_peers = λ e. absurd (idle e) })
  | inr full ↦ rw full (record { pending = λ e. absurd (idle e); no_peers = λ e. absurd (idle e) })
]

or-false : (a b : Bool) → (a || b) ≡ false → a ≡ false
or-false true b h = h
or-false false b h = refl

cmd_deploy-Kept :
    (env : OrchestratorEnv) (o : Orchestrator) (argv : List (List ℕ))
    → IsConsistent o
    → Kept (cmd_deploy env (λ o. o) o argv)
unfolding cmd_deploy
cmd_deploy-Kept env o (name ∷ a_flag ∷ file ∷ pc_flag ∷ id ∷ peers_flag ∷ peers ∷ []) v =
    elim (Bool-cases (
      not (same_text a_flag (codes "-a"))
      || not (same_text pc_flag (codes "-pc"))
      || not (same_text peers_flag (codes "-peers"))
      || nothing_left file)) [
        | inl misused ↦ rw misused v
        | inr used ↦ elim (Bool-cases (o.deploy_pending || leb fname_buf_size (length file))) [
          | inl busy ↦ rw (used, busy) v
          | inr free ↦ elim (Option-cases (deploy_arguments env id peers)) [
            | inl bad ↦ rw (used, free, bad) v
            | inr (arguments, e) ↦
                rw (used, free, e)
                  (start_deployment-Kept env o file arguments
                    (idle_shell o v (or-false o.deploy_pending _ free)))
          ]
        ]
      ]
cmd_deploy-Kept env o [] v = v
cmd_deploy-Kept env o (a ∷ []) v = v
cmd_deploy-Kept env o (a ∷ b ∷ []) v = v
cmd_deploy-Kept env o (a ∷ b ∷ c ∷ []) v = v
cmd_deploy-Kept env o (a ∷ b ∷ c ∷ d ∷ []) v = v
cmd_deploy-Kept env o (a ∷ b ∷ c ∷ d ∷ e ∷ []) v = v
cmd_deploy-Kept env o (a ∷ b ∷ c ∷ d ∷ e ∷ f ∷ []) v = v
cmd_deploy-Kept env o (a ∷ b ∷ c ∷ d ∷ e ∷ f ∷ g ∷ h ∷ rest) v = v

execute-Kept :
    (env : OrchestratorEnv) (o : Orchestrator) (argv : List (List ℕ)) (c : Command)
    → IsConsistent o
    → Kept (execute env (λ o. o) o argv c)
unfolding execute
execute-Kept env o argv start v = cmd_start-Kept env o argv v
execute-Kept env o argv lspcs v = cmd_no_argument-Kept env o argv 5 v
execute-Kept env o argv flip v = cmd_no_argument-Kept env o argv 17 v
execute-Kept env o argv set_acl v = cmd_set_acl-Kept env o argv v
execute-Kept env o argv deploy v = cmd_deploy-Kept env o argv v
execute-Kept env o argv stop v = cmd_pd_control-Kept env o argv 6 v
execute-Kept env o argv suspend v = cmd_pd_control-Kept env o argv 3 v
execute-Kept env o argv resume v = cmd_pd_control-Kept env o argv 4 v
execute-Kept env o argv help v = v
execute-Kept env o argv unknown v = v

pub shell_execute-Kept :
    (env : OrchestratorEnv) (o : Orchestrator) (argv : List (List ℕ))
    → IsConsistent o
    → Kept (shell_execute env (λ o. o) o argv)
unfolding shell_execute
shell_execute-Kept env o [] v = v
shell_execute-Kept env o (name ∷ rest) v = execute-Kept env o (name ∷ rest) (command_of name) v
