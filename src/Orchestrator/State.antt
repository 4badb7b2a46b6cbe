-- ===== src/Orchestrator/State.antt =====
-- The globals of src/orchestrator/orchestrator.c that the shell and the deployments keep, and the
-- systems around it.
use carrels.Base.{
  codes, same_text, ℕ, if◌then◌else◌, Bool, ◌&&◌, ◌||◌, Option, none, some, List, ◌∷◌,
}

-- What the orchestrator asks of others: a call of the monitor with its message registers, a cothread
-- (`targeted` or not), and what it tells the container runtime.
pub data Event : Type 0 where
  called : List ℕ → Event
  spawned : Bool → Event
  deploy_completed : ℕ → Bool → Event

pub record Answer : Type 0 where
  pub label : ℕ
  pub mr : ℕ → ℕ

-- The monitor's answers, the cothread library's and the file system's may depend on all that has
-- happened, newest first. The number of ports is a build setting.
pub record OrchestratorEnv : Type 0 where
  pub microkit_ppcall : List Event → List ℕ → Answer
  pub spawns : List Event → Bool
  pub reads_file : List Event → List ℕ → Bool
  pub max_protocon_ports : ℕ

pub record Orchestrator : Type 0 where
  pub fname_buf : List ℕ
  pub req_pc_num : ℕ
  pub deploy_pc_id : ℕ
  pub deploy_peer_mask : ℕ
  pub deploy_peers_all : Bool
  pub deploy_pending : Bool
  pub deploy_from_cri : Bool
  pub cri_slots_in_use : ℕ
  pub cri_c_hello_available : Bool
  pub trace : List Event

abbrev pub note : Orchestrator → Event → Orchestrator
note o e = record o { trace = e ∷ o.trace }

-- A call: the state behind it and the answer.
abbrev pub ppcall : OrchestratorEnv → Orchestrator → List ℕ → Orchestrator × Answer
ppcall env o words = (note o (called words), env.microkit_ppcall o.trace words)

abbrev pub k8s_c_hello_image : List ℕ
k8s_c_hello_image = codes "carrels.local/c-hello:latest"

abbrev pub k8s_c_hello_image_ref : List ℕ
k8s_c_hello_image_ref = codes "carrels-image://carrels.local/c-hello:latest"

abbrev pub k8s_c_hello_file : List ℕ
k8s_c_hello_file = codes "c-hello.img"

abbrev pub fname_buf_size : ℕ
fname_buf_size = 64

abbrev pub names_c_hello : List ℕ → Bool
names_c_hello image = same_text image k8s_c_hello_image || same_text image k8s_c_hello_image_ref

-- The name of the image's file; the buffer is large enough for the only one that there is.
unfoldable pub image_to_filename : List ℕ → Option (List ℕ)
image_to_filename image = if names_c_hello image then some k8s_c_hello_file else none

unfoldable pub orchestrator_cri_image_exists : Orchestrator → List ℕ → Bool
orchestrator_cri_image_exists o image = names_c_hello image && o.cri_c_hello_available
