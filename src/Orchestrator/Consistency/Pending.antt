-- ===== src/Orchestrator/Consistency/Pending.antt =====
-- What the shell's commands do while a deployment is pending.
use carrels.Base.{
  codes, same_text, ℕ, ◌≡◌, ◌⊎◌, refl, inl, inr, Bool, true, false, not, ◌||◌, ◌==◌, Bool-cases,
  Option-cases, arith, List, [], ◌∷◌, ltb, leb, length, Holds,
}
use carrels.Orchestrator.Text.{parse_u32_decimal, nothing_left}
use carrels.Orchestrator.State.{Orchestrator, OrchestratorEnv, ppcall, fname_buf_size}
use carrels.Orchestrator.Commands.{
  Exit, Command, start, lspcs, flip, set_acl, deploy, stop, suspend, resume, help, unknown,
  command_of, execute, shell_execute, cmd_start, cmd_no_argument, cmd_pd_control, cmd_set_acl,
  cmd_deploy, call_monitor, requested_pc_num, acl_arguments, i_flag,
}

-- The deployment of `o` is still the one that is pending.
abbrev pub SameDeployment : Orchestrator → Orchestrator → Type 0
SameDeployment o o' =
    (o'.deploy_pending ≡ true)
    × (o'.deploy_pc_id ≡ o.deploy_pc_id)
    × (o'.deploy_peer_mask ≡ o.deploy_peer_mask)
    × (o'.deploy_peers_all ≡ o.deploy_peers_all)
    × (o'.deploy_from_cri ≡ o.deploy_from_cri)

-- The command is `start`, which reads its file name into the buffer that a deployment uses as well.
abbrev pub is_start : Command → Bool
is_start start = true
is_start _ = false

abbrev pub starts : List (List ℕ) → Bool
starts [] = false
starts (name ∷ rest) = is_start (command_of name)

-- The deployment is the same, and so is its file unless `renamed` holds.
abbrev pub Untouched : Bool → Orchestrator → Orchestrator → Type 0
Untouched renamed o o' = SameDeployment o o' × ((o'.fname_buf ≡ o.fname_buf) ⊎ (renamed ≡ true))

pub untouched :
    (o : Orchestrator) (renamed : Bool) → o.deploy_pending ≡ true → Untouched renamed o o
untouched o renamed p = ((p, refl, refl, refl, refl), inl refl)

abbrev pub Spares : Bool → Orchestrator → Exit → Type 0
Spares renamed o = Holds (λ r. Untouched renamed o r.0)

module _ (env : OrchestratorEnv) (o : Orchestrator) (p : o.deploy_pending ≡ true) where
  call_monitor-Spares : (words : List ℕ) → Spares false o (call_monitor env o words)
  unfolding call_monitor
  call_monitor-Spares words = elim (Bool-cases ((ppcall env o words).1.label == 0)) [
    | inl okay ↦ rw okay ((untouched o false p).0, inl refl)
    | inr refused ↦ rw refused tt
  ]

  cmd_no_argument-Spares :
      (argv : List (List ℕ)) (n : ℕ) → Spares false o (cmd_no_argument env o argv n)
  unfolding cmd_no_argument
  cmd_no_argument-Spares argv n = elim (Bool-cases (length argv == 1)) [
    | inl one ↦ rw one (call_monitor-Spares (n ∷ []))
    | inr other ↦ rw other (untouched o false p)
  ]

  cmd_pd_control-Spares :
      (argv : List (List ℕ)) (n : ℕ) → Spares false o (cmd_pd_control env o argv n)
  unfolding cmd_pd_control
  cmd_pd_control-Spares (name ∷ flag ∷ id ∷ []) n = elim (Bool-cases (same_text flag i_flag)) [
    | inl named ↦ elim (Option-cases (parse_u32_decimal id)) [
      | inl bad ↦ rw (named, bad) (untouched o false p)
      | inr (pd_id, e) ↦ rw (named, e) (call_monitor-Spares (n ∷ pd_id ∷ []))
    ]
    | inr other ↦ rw other (untouched o false p)
  ]
  cmd_pd_control-Spares [] n = untouched o false p
  cmd_pd_control-Spares (a ∷ []) n = untouched o false p
  cmd_pd_control-Spares (a ∷ b ∷ []) n = untouched o false p
  cmd_pd_control-Spares (a ∷ b ∷ c ∷ d ∷ rest) n = untouched o false p

  cmd_start-Spares : (argv : List (List ℕ)) → Spares true o (cmd_start env o argv)
  unfolding cmd_start
  cmd_start-Spares [] = untouched o true p
  cmd_start-Spares (a ∷ []) = untouched o true p
  cmd_start-Spares (name ∷ file ∷ rest) =
      elim (Bool-cases
        (ltb 1 (length rest) || nothing_left file || leb fname_buf_size (length file))) [
          | inl bad ↦ rw bad (untouched o true p)
          | inr good ↦ elim (Option-cases (requested_pc_num rest)) [
            | inl none_given ↦ rw (good, none_given) (untouched o true p)
            | inr (n, e) ↦ elim (Bool-cases (env.spawns o.trace)) [
              | inl okay ↦ rw (good, e, okay) ((untouched o true p).0, inr refl)
              | inr full ↦ rw (good, e, full) ((untouched o true p).0, inr refl)
            ]
          ]
        ]

  cmd_set_acl-Spares : (argv : List (List ℕ)) → Spares false o (cmd_set_acl env o argv)
  unfolding cmd_set_acl
  cmd_set_acl-Spares (name ∷ flag ∷ text0 ∷ text1 ∷ value_flag ∷ text ∷ []) =
      elim (Bool-cases (not (same_text flag i_flag) || not (same_text value_flag (codes "-v")))) [
        | inl bad ↦ rw bad (untouched o false p)
        | inr good ↦ elim (Option-cases (acl_arguments text0 text1 text)) [
          | inl invalid ↦ rw (good, invalid) (untouched o false p)
          | inr (ports, e) ↦ rw (good, e) ((untouched o false p).0, inl refl)
        ]
      ]
  cmd_set_acl-Spares [] = untouched o false p
  cmd_set_acl-Spares (a ∷ []) = untouched o false p
  cmd_set_acl-Spares (a ∷ b ∷ []) = untouched o false p
  cmd_set_acl-Spares (a ∷ b ∷ c ∷ []) = untouched o false p
  cmd_set_acl-Spares (a ∷ b ∷ c ∷ d ∷ []) = untouched o false p
  cmd_set_acl-Spares (a ∷ b ∷ c ∷ d ∷ e ∷ []) = untouched o false p
  cmd_set_acl-Spares (a ∷ b ∷ c ∷ d ∷ e ∷ f ∷ g ∷ rest) = untouched o false p

  cmd_deploy-Spares : (argv : List (List ℕ)) → Spares false o (cmd_deploy env (λ o. o) o argv)
  unfolding cmd_deploy
  cmd_deploy-Spares (name ∷ a_flag ∷ file ∷ pc_flag ∷ id ∷ peers_flag ∷ peers ∷ []) =
      elim (Bool-cases (
        not (same_text a_flag (codes "-a"))
        || not (same_text pc_flag (codes "-pc"))
        || not (same_text peers_flag (codes "-peers"))
        || nothing_left file)) [
          | inl misused ↦ rw misused (untouched o false p)
          | inr used ↦
              let busy : (o.deploy_pending || leb fname_buf_size (length file)) ≡ true =
                ground arith in
              rw (used, busy) (untouched o false p)
        ]
  cmd_deploy-Spares [] = untouched o false p
  cmd_deploy-Spares (a ∷ []) = untouched o false p
  cmd_deploy-Spares (a ∷ b ∷ []) = untouched o false p
  cmd_deploy-Spares (a ∷ b ∷ c ∷ []) = untouched o false p
  cmd_deploy-Spares (a ∷ b ∷ c ∷ d ∷ []) = untouched o false p
  cmd_deploy-Spares (a ∷ b ∷ c ∷ d ∷ e ∷ []) = untouched o false p
  cmd_deploy-Spares (a ∷ b ∷ c ∷ d ∷ e ∷ f ∷ []) = untouched o false p
  cmd_deploy-Spares (a ∷ b ∷ c ∷ d ∷ e ∷ f ∷ g ∷ h ∷ rest) = untouched o false p

  execute-Spares :
      (argv : List (List ℕ)) (c : Command) → Spares (is_start c) o (execute env (λ o. o) o argv c)
  unfolding execute
  execute-Spares argv start = cmd_start-Spares argv
  execute-Spares argv lspcs = cmd_no_argument-Spares argv 5
  execute-Spares argv flip = cmd_no_argument-Spares argv 17
  execute-Spares argv set_acl = cmd_set_acl-Spares argv
  execute-Spares argv deploy = cmd_deploy-Spares argv
  execute-Spares argv stop = cmd_pd_control-Spares argv 6
  execute-Spares argv suspend = cmd_pd_control-Spares argv 3
  execute-Spares argv resume = cmd_pd_control-Spares argv 4
  execute-Spares argv help = untouched o false p
  execute-Spares argv unknown = untouched o false p

  pub shell_execute-Spares :
      (argv : List (List ℕ)) → Spares (starts argv) o (shell_execute env (λ o. o) o argv)
  unfolding shell_execute
  shell_execute-Spares [] = untouched o false p
  shell_execute-Spares (name ∷ rest) = execute-Spares (name ∷ rest) (command_of name)
