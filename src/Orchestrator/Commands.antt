-- ===== src/Orchestrator/Commands.antt =====
-- The shell's commands: src/orchestrator/orchestrator.c, `cmd_*`, `shell_execute` and `shell_complete`.
-- An argument vector is the list of its texts. A command returns its exit code, and `none` where the
-- orchestrator crashes. What is printed is left out.
use carrels.Base.{
  codes, same_text, starts_with, ℕ, ◌==◌, if◌then◌else◌, Bool, true, false, not, ◌&&◌, ◌||◌, Option,
  none, some, List, [], ◌∷◌, length, ltb, leb, keep, ◌>>=◌, ◌>>◌, assert,
}
use carrels.Orchestrator.Text.{parse_u32_decimal, parse_peer_ports, nothing_left}
use carrels.Orchestrator.State.{
  Orchestrator, OrchestratorEnv, spawned, note, ppcall, fname_buf_size,
}

abbrev pub Exit : Type 0
Exit = Option (Orchestrator × ℕ)

abbrev pub usage : Orchestrator → Exit
usage o = some (o, 1)

-- The number of protocons that `start` asks for: 1 where it is not given.
unfoldable pub requested_pc_num : List (List ℕ) → Option ℕ
requested_pc_num [] = some 1
requested_pc_num (text ∷ _) = do n ← parse_u32_decimal text; assert (leb 1 n && leb n 16); some n

unfoldable pub cmd_start : OrchestratorEnv → Orchestrator → List (List ℕ) → Exit
cmd_start env o (_ ∷ file ∷ rest) =
    if ltb 1 (length rest) || nothing_left file || leb fname_buf_size (length file)
    then usage o
    else elim (requested_pc_num rest) [
      | none ↦ usage o
      | some n ↦
          let o1 = record o { fname_buf = file; req_pc_num = n } in
          if env.spawns o.trace then some (note o1 (spawned false), 0) else some (o1, 1)
    ]
cmd_start env o _ = usage o

-- An error of the monitor crashes the orchestrator.
unfoldable pub call_monitor : OrchestratorEnv → Orchestrator → List ℕ → Exit
call_monitor env o words =
    let (o1, answer) = ppcall env o words in if answer.label == 0 then some (o1, 0) else none

unfoldable pub cmd_no_argument : OrchestratorEnv → Orchestrator → List (List ℕ) → ℕ → Exit
cmd_no_argument env o argv syscall_id =
    if length argv == 1 then call_monitor env o (syscall_id ∷ []) else usage o

abbrev pub i_flag : List ℕ
i_flag = codes "-i"

unfoldable pub cmd_pd_control : OrchestratorEnv → Orchestrator → List (List ℕ) → ℕ → Exit
cmd_pd_control env o (_ ∷ flag ∷ id ∷ []) syscall_id =
    if not (same_text flag i_flag) then usage o else elim (parse_u32_decimal id) [
      | none ↦ usage o
      | some pd_id ↦ call_monitor env o (syscall_id ∷ pd_id ∷ [])
    ]
cmd_pd_control env o _ syscall_id = usage o

-- The ports are bytes, and the last argument is a flag.
unfoldable pub acl_arguments : List ℕ → List ℕ → List ℕ → Option (ℕ × ℕ × ℕ)
acl_arguments text0 text1 text = do
  port0 ← parse_u32_decimal text0
  assert (leb port0 255)
  port1 ← parse_u32_decimal text1
  assert (leb port1 255)
  allow ← parse_u32_decimal text
  assert (leb allow 1)
  some (port0, port1, allow)

unfoldable pub cmd_set_acl : OrchestratorEnv → Orchestrator → List (List ℕ) → Exit
cmd_set_acl env o (_ ∷ flag ∷ text0 ∷ text1 ∷ value_flag ∷ text ∷ []) =
    if not (same_text flag i_flag) || not (same_text value_flag (codes "-v"))
    then usage o
    else elim (acl_arguments text0 text1 text) [
      | none ↦ usage o
      | some (port0, port1, allow) ↦
          let (o1, answer) = ppcall env o (18 ∷ port0 ∷ port1 ∷ allow ∷ []) in
          some (o1, if answer.label == 0 then 0 else 1)
    ]
cmd_set_acl env o _ = usage o

-- The checks on the arguments of `deploy`: the protocon and its peers.
unfoldable pub deploy_arguments : OrchestratorEnv → List ℕ → List ℕ → Option (ℕ × ℕ × Bool)
deploy_arguments env id peers = do
  pc_id ← parse_u32_decimal id
  assert (ltb pc_id env.max_protocon_ports)
  (peer_mask, peers_all) ← parse_peer_ports env.max_protocon_ports peers pc_id
  some (pc_id, peer_mask, peers_all)

-- `yield` is what the cothreads do before the command returns.
unfoldable pub start_deployment :
    OrchestratorEnv → (Orchestrator → Orchestrator) → Orchestrator → List ℕ → ℕ × ℕ × Bool → Exit
start_deployment env yield o file (pc_id, peer_mask, peers_all) =
    let o1 = record o {
      fname_buf = file;
      deploy_pc_id = pc_id;
      deploy_peer_mask = peer_mask;
      deploy_peers_all = peers_all;
    } in
    if env.spawns o.trace
    then some (yield (record (note o1 (spawned true)) { deploy_pending = true }), 0)
    else some (record o1 { deploy_pending = false }, 1)

unfoldable pub cmd_deploy :
    OrchestratorEnv → (Orchestrator → Orchestrator) → Orchestrator → List (List ℕ) → Exit
cmd_deploy env yield o (_ ∷ a_flag ∷ file ∷ pc_flag ∷ id ∷ peers_flag ∷ peers ∷ []) =
    if not (same_text a_flag (codes "-a"))
      || not (same_text pc_flag (codes "-pc"))
      || not (same_text peers_flag (codes "-peers"))
      || nothing_left file
    then usage o
    else if o.deploy_pending || leb fname_buf_size (length file)
    then usage o
    else elim (deploy_arguments env id peers) [
      | none ↦ usage o
      | some arguments ↦ start_deployment env yield o file arguments
    ]
cmd_deploy env yield o _ = usage o

-- The commands; a text that is none of their names is `unknown`.
pub data Command : Type 0 where
  start lspcs flip set_acl deploy stop suspend resume help unknown : Command

unfoldable pub command_of : List ℕ → Command
command_of name =
    if same_text name (codes "start")
    then start
    else if same_text name (codes "lspcs")
    then lspcs
    else if same_text name (codes "flip")
    then flip
    else if same_text name (codes "set-acl")
    then set_acl
    else if same_text name (codes "deploy")
    then deploy
    else if same_text name (codes "stop")
    then stop
    else if same_text name (codes "suspend")
    then suspend
    else if same_text name (codes "resume")
    then resume
    else if same_text name (codes "help")
    then help
    else unknown

unfoldable pub execute :
    OrchestratorEnv → (Orchestrator → Orchestrator) → Orchestrator → List (List ℕ) → Command → Exit
execute env yield o argv start = cmd_start env o argv
execute env yield o argv lspcs = cmd_no_argument env o argv 5
execute env yield o argv flip = cmd_no_argument env o argv 17
execute env yield o argv set_acl = cmd_set_acl env o argv
execute env yield o argv deploy = cmd_deploy env yield o argv
execute env yield o argv stop = cmd_pd_control env o argv 6
execute env yield o argv suspend = cmd_pd_control env o argv 3
execute env yield o argv resume = cmd_pd_control env o argv 4
execute env yield o argv help = some (o, if length argv == 1 then 0 else 1)
execute env yield o argv unknown = usage o

unfoldable pub shell_execute :
    OrchestratorEnv → (Orchestrator → Orchestrator) → Orchestrator → List (List ℕ) → Exit
shell_execute env yield o [] = some (o, 0)
shell_execute env yield o (name ∷ rest) = execute env yield o (name ∷ rest) (command_of name)

abbrev pub shell_commands : List (List ℕ)
shell_commands =
    codes "start"
    ∷ codes "lspcs"
    ∷ codes "flip"
    ∷ codes "set-acl"
    ∷ codes "deploy"
    ∷ codes "stop"
    ∷ codes "suspend"
    ∷ codes "resume"
    ∷ codes "help"
    ∷ []

-- Without an argument every command matches; only the first word is completed.
unfoldable pub shell_complete : List (List ℕ) → List (List ℕ)
shell_complete [] = keep (starts_with []) shell_commands
shell_complete (prefix ∷ []) = keep (starts_with prefix) shell_commands
shell_complete _ = []

unfoldable pub shell_normalise_input : ℕ → ℕ
shell_normalise_input c = if c == 2 || c == 8 || c == 127 then 127 else c
