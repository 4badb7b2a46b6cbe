-- ===== src/Service/Installer/Rounds.antt =====
-- What the rounds of the installer keep.
use carrels.Base.{
  ℕ, ◌+◌, ◌%◌, ◌^◌, Option, none, some, Memory, List, [], ◌∷◌, inl, inr, leb, Bool-cases,
}
use carrels.Service.Types.{ManifestEntry, SvcReq}
use carrels.ServiceDb.{service_path_len}
use carrels.Service.Installer.{
  XrtReq, empty_xrt, Patch, read_to, install_service, install_all, service_installer_apply,
  service_installer_payload_add_service, svc_max_path_len,
}

-- What every read keeps.
module _ {ℓ} {S : Type ℓ} (memory_of : S → Memory) (read_file : S → Patch → S) (P : S → Type 0)
    (keeps : (s : S) (patch : Patch) → P s → P (read_file s patch)) where
  read_to-keeps :
      (s : S) (svc : ℕ) (dest : Option ℕ) → P s → P (read_to memory_of read_file s svc dest)
  read_to-keeps s svc none h = h
  read_to-keeps s svc (some dest) h = keeps s _ h

  install_service-keeps :
      (elf_base e_entry : ℕ) (entry : ManifestEntry) (svc : ℕ) (s : S) (xrt : XrtReq)
      → P s
      → P (install_service memory_of read_file elf_base e_entry entry svc (s, xrt)).0
  unfolding install_service
  install_service-keeps elf_base e_entry entry svc s xrt h =
      elim (Bool-cases (leb svc_max_path_len (service_path_len (memory_of s) svc))) [
        | inl long ↦ rw long h
        | inr fits ↦ rw fits (
            read_to-keeps s svc
              (service_installer_payload_add_service (memory_of s) elf_base
                ((entry.offset + e_entry) % 2 ^ 64))
              h)
      ]

  install_all-keeps :
      (elf_base e_entry : ℕ) (entries : List ManifestEntry) (i : ℕ) (sources : ℕ → ℕ)
      (r : S × XrtReq)
      → P r.0
      → P (install_all memory_of read_file elf_base e_entry entries i sources r).0
  unfolding install_all
  install_all-keeps elf_base e_entry [] i sources r h = h
  install_all-keeps elf_base e_entry (entry ∷ rest) i sources r h =
      install_all-keeps elf_base e_entry rest (i + 1) sources _
        (install_service-keeps elf_base e_entry entry (sources i) r.0 r.1 h)

  pub service_installer_apply-keeps :
      (s : S) (elf_base : ℕ) (req : SvcReq) (sources : ℕ → ℕ)
      → P s
      → P (service_installer_apply memory_of read_file s elf_base req sources).0
  unfolding service_installer_apply
  service_installer_apply-keeps s elf_base req sources h =
      install_all-keeps elf_base req.payload_e_entry req.service_entries 0 sources (s, empty_xrt) h
