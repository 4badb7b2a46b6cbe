-- ===== src/Orchestrator/Deployments/Slots.antt =====
-- The slots of the protocons that the container runtime uses.
use carrels.Base.{
  ℕ, ◌≤◌, ◌<◌, ◌≡◌, ◌⊎◌, ◌∷◌, false, if◌then◌else◌, true, ◌==◌, Option, none, some, List, test_bit,
}
use carrels.Orchestrator.State.{
  Orchestrator, OrchestratorEnv, spawned, image_to_filename, orchestrator_cri_image_exists,
}

-- The first free slot of those from `lo` to `hi`, and none where all are in use.
abbrev pub IsFirstSlot : ℕ → ℕ → ℕ → Option ℕ → Type 0
IsFirstSlot slots lo hi none = (j : ℕ) → lo ≤ j → j < hi → test_bit slots j ≡ true
IsFirstSlot slots lo hi (some id) =
    (lo ≤ id)
    × (id < hi)
    × (test_bit slots id ≡ false)
    × ((j : ℕ) → lo ≤ j → j < id → test_bit slots j ≡ true)

-- The cothread is started for the slot `id`: `o1` is `o` with a deployment of the container runtime
-- pending for it, without peers.
abbrev pub Spawned : Orchestrator → List ℕ → ℕ → Orchestrator → Type 0
Spawned o image id o1 =
    (o1.deploy_pending ≡ true)
    × (o1.deploy_from_cri ≡ true)
    × (o1.deploy_pc_id ≡ id)
    × (o1.deploy_peer_mask ≡ 0)
    × (o1.deploy_peers_all ≡ false)
    × (image_to_filename image ≡ some o1.fname_buf)
    × (o1.trace ≡ spawned true ∷ o.trace)
    × ((j : ℕ)
        → test_bit o1.cri_slots_in_use j
          ≡ (if id == j then true else test_bit o.cri_slots_in_use j))

-- What a start leaves. Where it fails: the same slots, nothing asked of anyone, no new deployment.
-- Where it succeeds: what the cothreads make of the state in which the first free slot is spawned.
abbrev pub Started :
    OrchestratorEnv
    → (Orchestrator → Orchestrator)
    → Orchestrator
    → List ℕ
    → Orchestrator × Option ℕ
    → Type 0
Started env yield o image (o', none) =
    ((j : ℕ) → test_bit o'.cri_slots_in_use j ≡ test_bit o.cri_slots_in_use j)
    × (o'.deploy_pending ≡ o.deploy_pending)
    × ((o'.deploy_from_cri ≡ o.deploy_from_cri) ⊎ (o'.deploy_from_cri ≡ false))
    × (o'.trace ≡ o.trace)
Started env yield o image (o', some id) =
    (o.deploy_pending ≡ false)
    × (orchestrator_cri_image_exists o image ≡ true)
    × IsFirstSlot o.cri_slots_in_use 0 env.max_protocon_ports (some id)
    × ((o1 : Orchestrator) × Spawned o image id o1 × (o' ≡ yield o1))
