-- ===== src/Service/Installer.antt =====
-- src/monitor/service/service_installer.c: the data files of the chosen services are read into the
-- client's image, and the channels and mappings that they need are listed for the loader.
pub mod Sections
pub mod Requests
pub mod Rounds
use carrels.Base.{
  ℕ, zero, suc, ◌+◌, ◌-◌, ◌*◌, ◌%◌, ◌^◌, ◌≡◌, ◌==◌, if◌then◌else◌, Bool, true, false, not, ◌&&◌,
  Option, none, some, List, [], ◌∷◌, ◌++◌, length, ltb, leb, Memory, byte, read_u16, read_u32,
  read_u64,
}
use carrels.Service.Types.{ManifestEntry, SvcReq}
use carrels.ServiceDb.{
  service_resource_count, service_path_len, svc_service_resource, svc_service_path,
}

-- The fields of the `Elf64_Shdr` at an address, at the offsets of the ELF format.
abbrev pub sh_type : Memory → ℕ → ℕ
sh_type mem sh = read_u32 mem (sh + 4)

abbrev pub sh_addr : Memory → ℕ → ℕ
sh_addr mem sh = read_u64 mem (sh + 16)

abbrev pub sh_offset : Memory → ℕ → ℕ
sh_offset mem sh = read_u64 mem (sh + 24)

abbrev pub sh_size : Memory → ℕ → ℕ
sh_size mem sh = read_u64 mem (sh + 32)

abbrev pub sht_nobits : ℕ
sht_nobits = 8

-- `(seL4_Word)-1`.
abbrev pub no_section : ℕ
no_section = 2 ^ 64 - 1

-- `vaddr >= start && vaddr < start + size`, where the sum is a 64-bit word.
abbrev pub section_holds : Memory → ℕ → ℕ → Bool
section_holds mem sh vaddr =
    leb (sh_addr mem sh) vaddr && ltb vaddr ((sh_addr mem sh + sh_size mem sh) % 2 ^ 64)

-- The loop over the section headers, `n` of them from `sh` on.
unfoldable pub section_target : Memory → ℕ → ℕ → ℕ → ℕ → ℕ
section_target mem elf_base vaddr zero sh = no_section
section_target mem elf_base vaddr (suc n) sh =
    let rest = section_target mem elf_base vaddr n (sh + 64) in
    if section_holds mem sh vaddr
    then if sh_type mem sh == sht_nobits
      then no_section
      else (elf_base + sh_offset mem sh + (vaddr - sh_addr mem sh)) % 2 ^ 64
    else rest

unfoldable pub service_installer_elf_get_sec_with_vaddr : Memory → ℕ → ℕ → ℕ
service_installer_elf_get_sec_with_vaddr mem elf_base vaddr =
    section_target mem elf_base vaddr (read_u16 mem (elf_base + 60))
      (elf_base + read_u64 mem (elf_base + 40))

-- The address that the data file is read to, if it is read. What the read returns is not used.
unfoldable pub service_installer_payload_add_service : Memory → ℕ → ℕ → Option ℕ
service_installer_payload_add_service mem elf_base vaddr =
    let target_sh = service_installer_elf_get_sec_with_vaddr mem elf_base vaddr in
    if target_sh == 0 then none else some target_sh

-- The lists of `trustedlo_xrtreq_t` that are filled here; each counter is a list's length.
pub record XrtReq : Type 0 where
  pub notifications : List ℕ
  pub ppcs : List ℕ
  pub mappings : List ℕ

abbrev pub empty_xrt : XrtReq
empty_xrt = record { notifications = []; ppcs = []; mappings = [] }

-- `SVC_RESOURCE_CHANNEL_NOTIFY`, `SVC_RESOURCE_CHANNEL_PPC` and `SVC_RESOURCE_MAP`.
abbrev pub kind_notify : ℕ
kind_notify = 1

abbrev pub kind_ppc : ℕ
kind_ppc = 2

abbrev pub kind_map : ℕ
kind_map = 3

-- The array of each list has 64 places, and a full one takes no more.
abbrev pub push_bounded : List ℕ → ℕ → List ℕ
push_bounded xs v = if leb 64 (length xs) then xs else xs ++ v ∷ []

unfoldable pub append_resource : XrtReq → ℕ → ℕ → XrtReq
append_resource x kind value =
    if kind == kind_notify
    then record x { notifications = push_bounded x.notifications value }
    else if kind == kind_ppc
    then record x { ppcs = push_bounded x.ppcs value }
    else if kind == kind_map
    then record x { mappings = push_bounded x.mappings value }
    else x

-- The fields of the packed `svc_resource_t` at an address.
abbrev pub resource_kind : Memory → ℕ → ℕ
resource_kind mem r = byte mem r

abbrev pub resource_value : Memory → ℕ → ℕ
resource_value mem r = read_u64 mem (r + 1)

-- The rounds from resource `i` on, `n` of them left. Every index is below the count, so that the
-- resource is never null.
unfoldable pub append_from : Memory → ℕ → ℕ → ℕ → XrtReq → XrtReq
append_from mem svc zero i x = x
append_from mem svc (suc n) i x = elim (svc_service_resource mem svc i) [
  | none ↦ x
  | some r ↦
      append_from mem svc n (i + 1) (append_resource x (resource_kind mem r) (resource_value mem r))
]

unfoldable pub service_installer_append_acrtreq : Memory → XrtReq → ℕ → XrtReq
service_installer_append_acrtreq mem x svc =
    append_from mem svc (service_resource_count mem svc) 0 x

-- `header->total_num`; the counters of I/O ports and interrupts stay 0.
unfoldable pub total_num : XrtReq → ℕ
total_num x = length x.notifications + length x.ppcs + length x.mappings

abbrev pub svc_max_path_len : ℕ
svc_max_path_len = 128

-- A data file that is read into memory: where its path stands, how long it is, and the destination.
pub record Patch : Type 0 where
  pub path : ℕ
  pub path_len : ℕ
  pub dest : ℕ

-- The data files are read through the file system, and the state may change while the installer waits
-- for one: `S` is that state, `memory_of` its memory, and `read_file` what a read makes of it. What the
-- read returns is not used.
module _ {ℓ} {S : Type ℓ} (memory_of : S → Memory) (read_file : S → Patch → S) where
  abbrev pub read_to : S → ℕ → Option ℕ → S
  read_to s svc none = s
  read_to s svc (some dest) = read_file s (record {
    path = svc_service_path (memory_of s) svc;
    path_len = service_path_len (memory_of s) svc;
    dest = dest;
  })

  -- One round of `service_installer_apply`. A path that does not fit its buffer skips the service.
  unfoldable pub install_service : ℕ → ℕ → ManifestEntry → ℕ → S × XrtReq → S × XrtReq
  install_service elf_base e_entry entry svc (s, xrt) =
      let vaddr = (entry.offset + e_entry) % 2 ^ 64 in
      let s' = read_to s svc (service_installer_payload_add_service (memory_of s) elf_base vaddr) in
      if leb svc_max_path_len (service_path_len (memory_of s) svc)
      then (s, xrt)
      else (s', service_installer_append_acrtreq (memory_of s') xrt svc)

  unfoldable pub install_all : ℕ → ℕ → List ManifestEntry → ℕ → (ℕ → ℕ) → S × XrtReq → S × XrtReq
  install_all elf_base e_entry [] i sources r = r
  install_all elf_base e_entry (entry ∷ rest) i sources r =
      install_all elf_base e_entry rest (i + 1) sources
        (install_service elf_base e_entry entry (sources i) r)

  -- The image's ELF file stands at the offset that the image header gives.
  unfoldable pub service_installer_apply : S → ℕ → SvcReq → (ℕ → ℕ) → S × XrtReq
  service_installer_apply s elf_base req sources =
      install_all elf_base req.payload_e_entry req.service_entries 0 sources (s, empty_xrt)
