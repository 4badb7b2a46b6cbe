-- ===== src/Service/Installer/Sections.antt =====
-- Where the installer writes a service's data file.
use carrels.Base.{
  ℕ, zero, suc, ◌+◌, ◌-◌, subst, ◌*◌, ◌^◌, ◌<◌, ◌≡◌, refl, false, some, arith, Memory, read_u16,
  read_u64,
}
use carrels.Service.Installer.{
  section_holds, section_target, service_installer_elf_get_sec_with_vaddr,
  service_installer_payload_add_service,
}

section_target-missing :
    (mem : Memory) (elf_base vaddr n sh : ℕ)
    → ((k : ℕ) → k < n → section_holds mem (sh + 64 * k) vaddr ≡ false)
    → section_target mem elf_base vaddr n sh ≡ 2 ^ 64 - 1
unfolding section_target
section_target-missing mem elf_base vaddr zero sh h = refl
section_target-missing mem elf_base vaddr (suc n) sh h =
    let start : sh + 64 * 0 ≡ sh = omega arith in
    let here : section_holds mem sh vaddr ≡ false =
      subst (λ a. section_holds mem a vaddr ≡ false) start (h 0 (omega arith)) in
    rw here (
      section_target-missing mem elf_base vaddr n (sh + 64) λ k lt.
        let next : sh + 64 * suc k ≡ sh + 64 + 64 * k = omega arith in
        subst (λ a. section_holds mem a vaddr ≡ false) next (h (suc k) (omega arith)))

-- Where no section of the image holds the address, the test for a null target does not stop the
-- installer: it reads the data file to the address 2 ^ 64 - 1.
pub service_installer_payload_add_service-missing :
    (mem : Memory) (elf_base vaddr : ℕ)
    → ((k : ℕ)
        → k < read_u16 mem (elf_base + 60)
        → section_holds mem (elf_base + read_u64 mem (elf_base + 40) + 64 * k) vaddr ≡ false)
    → service_installer_payload_add_service mem elf_base vaddr ≡ some (2 ^ 64 - 1)
unfolding service_installer_payload_add_service service_installer_elf_get_sec_with_vaddr
service_installer_payload_add_service-missing mem elf_base vaddr h =
    rw
      (section_target-missing mem elf_base vaddr (read_u16 mem (elf_base + 60))
        (elf_base + read_u64 mem (elf_base + 40)) h)
      refl
