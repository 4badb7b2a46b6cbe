-- ===== src/Orchestrator/Input.antt =====
-- src/orchestrator/orchestrator.c: the characters of the console, the untargeted loader and the first
-- cothread. The shell library is a parameter: `feed` is what it makes of its state and of a buffer.
pub mod Chunks
use carrels.Base.{
  ℕ, zero, suc, ◌+◌, ◌≤◌, ◌<◌, ◌≡◌, ◌==◌, refl, sym, ◌∙◌, ap, inl, inr, if◌then◌else◌, Bool, true,
  false, not, ◌||◌, Bool-cases, List, [], ◌∷◌, ◌++◌, map, arith, length,
}
use mathlib.Core.List.{append_assoc}
use carrels.Orchestrator.Commands.{shell_normalise_input}
use carrels.Orchestrator.State.{Orchestrator, OrchestratorEnv, ppcall}

module _ {ℓ} {S : Type ℓ} (feed : S → List ℕ → S) (shell_input_buffer_size : ℕ) where
  -- What is left in the buffer.
  abbrev pub feed_rest : S → List ℕ → S
  feed_rest s [] = s
  feed_rest s (c ∷ cs) = feed s (c ∷ cs)

  -- The characters that wait, with those that are in the buffer.
  unfoldable pub read_serial : S → List ℕ → List ℕ → S
  read_serial s input [] = feed_rest s input
  read_serial s input (c ∷ cs) =
      let input' = input ++ shell_normalise_input c ∷ [] in
      let full = read_serial (feed s input') [] cs in
      let more = read_serial s input' cs in
      if length input' == shell_input_buffer_size then full else more

  unfoldable pub orche_handle_serial_event : S → List ℕ → S
  orche_handle_serial_event s queue = read_serial s [] queue

-- The untargeted loader, once the file system is up.
unfoldable pub load_elf_payload : OrchestratorEnv → Orchestrator → Orchestrator
load_elf_payload env o =
    if not (env.reads_file o.trace o.fname_buf) then o else (ppcall env o (1 ∷ o.req_pc_num ∷ [])).0

-- The first cothread looks for the image of the container runtime; `exists` is what it finds. That the
-- loaders' files cannot be read is not noticed.
unfoldable pub orchestrator_prologue : Orchestrator → Bool → Orchestrator
orchestrator_prologue o exists = record o { cri_c_hello_available = exists }
