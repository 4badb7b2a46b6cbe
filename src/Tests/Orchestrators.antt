-- ===== src/Tests/Orchestrators.antt =====
-- An orchestrator of four ports whose first slot is in use.
use carrels.Base.{
  same_text, first_from, test_bit, ◌∷◌, refl, codes, ℕ, ◌<◌, ◌≡◌, ◌≢◌, ◌↔◌, ◌^◌, true, false, some,
  List, [], Holds,
}
use carrels.Orchestrator.Text.{parse_u32_decimal, parse_peer_ports}
use carrels.Orchestrator.Text.Numbers.{value_from, AllDigits, parse_u32_decimal_iff}
use carrels.Orchestrator.Text.Ports.{OtherPorts, parse_peer_ports-OtherPorts}
use carrels.Orchestrator.State.{
  image_to_filename, orchestrator_cri_image_exists, Orchestrator, OrchestratorEnv,
  k8s_c_hello_image,
}
use carrels.Orchestrator.Commands.{shell_execute, execute, command_of, cmd_deploy}
use carrels.Orchestrator.Deployments.{
  start_in_slot, load_targeted_elf_payload, orchestrator_cri_start,
}
use carrels.Orchestrator.Consistency.{IsConsistent, cri_start-IsConsistent}
use carrels.Orchestrator.Reach.{
  Steps, done, then_step, executed, loaded, IdleOrSame, Steps-IsConsistent,
}

abbrev pub orchestrator_env : OrchestratorEnv
orchestrator_env = record {
  microkit_ppcall = λ t words. record { label = 0; mr = λ i. 0 };
  spawns = λ t. true;
  reads_file = λ t name. true;
  max_protocon_ports = 4;
}

abbrev pub idle : Orchestrator
idle = record {
  fname_buf = [];
  req_pc_num = 1;
  deploy_pc_id = 0;
  deploy_peer_mask = 0;
  deploy_peers_all = false;
  deploy_pending = false;
  deploy_from_cri = false;
  cri_slots_in_use = 1;
  cri_c_hello_available = true;
  trace = [];
}

abbrev twelve : List ℕ
twelve = codes "12"

parse_u32_decimal_iff_example :
    (parse_u32_decimal twelve ≡ some 12)
    ↔ ((twelve ≢ []) × AllDigits twelve × (value_from 0 twelve ≡ 12) × (12 < 2 ^ 32))
parse_u32_decimal_iff_example = parse_u32_decimal_iff twelve 12

parse_peer_ports-OtherPorts_example :
    Holds (λ r. OtherPorts 4 2 r.0) (parse_peer_ports 4 (codes "0,3") 2)
parse_peer_ports-OtherPorts_example = parse_peer_ports-OtherPorts 4 (codes "0,3") 2

-- The cothread runs at once.
abbrev loads : Orchestrator → Orchestrator
loads = load_targeted_elf_payload orchestrator_env

abbrev started : Orchestrator
started = (orchestrator_cri_start orchestrator_env (λ o. o) idle k8s_c_hello_image).0

idle-IsConsistent : IsConsistent idle
idle-IsConsistent = record { pending = λ e. cc; no_peers = λ e. cc }

-- A command that would deploy to protocon 3, while the container's deployment to protocon 1 is pending.
abbrev deploy_line : List (List ℕ)
deploy_line =
    codes "deploy"
    ∷ codes "-a"
    ∷ codes "c-hello.img"
    ∷ codes "-pc"
    ∷ codes "3"
    ∷ codes "-peers"
    ∷ codes "0"
    ∷ []

deploy_refused : shell_execute orchestrator_env (λ o. o) started deploy_line ≡ some (started, 1)
unfolding shell_execute execute command_of cmd_deploy orchestrator_cri_start start_in_slot
    image_to_filename orchestrator_cri_image_exists same_text first_from test_bit
deploy_refused = refl

started-IsConsistent : IsConsistent started
started-IsConsistent =
    cri_start-IsConsistent orchestrator_env idle k8s_c_hello_image idle-IsConsistent

started_pending : started.deploy_pending ≡ true
unfolding orchestrator_cri_start start_in_slot image_to_filename orchestrator_cri_image_exists
    same_text first_from test_bit
started_pending = refl

-- The command is refused, and the loader's cothread runs.
abbrev two_steps : Steps orchestrator_env 22 started (loads started)
two_steps =
    then_step (then_step done (executed deploy_line 1 deploy_refused)) (loaded started_pending)

Steps-IsConsistent_example : IsConsistent (loads started) × IdleOrSame two_steps
Steps-IsConsistent_example =
    Steps-IsConsistent orchestrator_env 22 started (loads started) two_steps started-IsConsistent
