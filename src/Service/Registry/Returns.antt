-- ===== src/Service/Registry/Returns.antt =====
-- When `service_registry_create` returns.
use carrels.Base.{
  ◌⊎◌, ◌↔◌, ℕ, ◌<◌, ◌≡◌, ◌≢◌, refl, inl, inr, none, some, List, [], ◌∷◌, arith, leb, ltb,
  Bool-cases, Memory,
}
use carrels.Service.Types.{PcState}
use carrels.ServiceDb.{SvcDb, service_type, service_pd_id}
use carrels.Service.Registry.{register, register_all, service_registry_create}

-- Every record of a known type names one of the 16 protocons.
abbrev pub OwnersFit : Memory → List ℕ → Type 0
OwnersFit mem [] = Unit {0}
OwnersFit mem (s ∷ ss) = (service_type mem s < 8 → service_pd_id mem s < 16) × OwnersFit mem ss

abbrev OwnerFits : Memory → ℕ → Type 0
OwnerFits mem s = service_type mem s < 8 → service_pd_id mem s < 16

register-returns :
    (mem : Memory) (states : ℕ → PcState) (s : ℕ)
    → ((register mem states s ≡ none) × ¬ OwnerFits mem s)
      ⊎ ((mid : ℕ → PcState) × (register mem states s ≡ some mid) × OwnerFits mem s)
unfolding register
register-returns mem states s = elim (Bool-cases (leb 8 (service_type mem s))) [
  | inl big ↦ rw big (inr (states, refl, λ lt. absurd (ground arith)))
  | inr known ↦ elim (Bool-cases (ltb (service_pd_id mem s) 16)) [
    | inl inside ↦ rw (known, inside) (inr (_, refl, λ lt. ground arith))
    | inr outside ↦ rw (known, outside) (inl (refl, λ f. ground (arith, f (ground arith))))
  ]
]

register_all-returns_iff :
    (mem : Memory) (ss : List ℕ) (states : ℕ → PcState)
    → (register_all mem ss states ≢ none) ↔ OwnersFit mem ss
unfolding register_all
register_all-returns_iff mem [] states = (λ h. tt, λ h e. cc)
register_all-returns_iff mem (s ∷ ss) states = elim (register-returns mem states s) [
  | inl (e, unfit) ↦ rw e (λ h. absurd (h refl), λ f. absurd (unfit f.0))
  | inr (mid, e, fit) ↦
      let rest = register_all-returns_iff mem ss mid in rw e (λ h. (fit, rest.0 h), λ f. rest.1 f.1)
]

-- `service_registry_create` returns exactly when every record of a type below 8 names one of the 16
-- protocons: with any other record it writes past the end of `protocon_states`.
pub service_registry_create-returns_iff :
    (mem : Memory) (db : SvcDb) (states : ℕ → PcState)
    → (service_registry_create mem (some db) states ≢ none) ↔ OwnersFit mem db.services
unfolding service_registry_create
service_registry_create-returns_iff mem db states = register_all-returns_iff mem db.services states
