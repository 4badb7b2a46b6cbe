-- ===== src/Service/Manifest.antt =====
-- src/monitor/service/service_manifest.c: the manifest in front of a client's ELF image.
pub mod Counts
use carrels.Base.{
  ℕ, zero, suc, ◌+◌, ◌*◌, ◌^◌, ◌==◌, if◌then◌else◌, Bool, true, false, not, ◌||◌, ◌&&◌, Option,
  ◌>>=◌, none, some, List, [], ◌∷◌, ◌++◌, ltb, update, Memory, read_u16, read_u32, read_u64,
}
use carrels.Service.Types.{ManifestEntry, SvcReq, service_reserved}

-- `type < SERVICE_RESERVED && type > SERVICE_DUMMY`, where `SERVICE_DUMMY` is -1: a pattern from
-- 2 ^ 31 on is a negative number.
unfoldable pub service_manifest_check_type : ℕ → Bool
service_manifest_check_type type = ltb type service_reserved && ltb type (2 ^ 31)

abbrev pub manifest_magic : ℕ
manifest_magic = 0x504353564D414E31

-- `sizeof(service_manifest_header_t)` and `sizeof(service_manifest_entry_t)`.
abbrev pub manifest_header_size : ℕ
manifest_header_size = 24

abbrev pub manifest_entry_size : ℕ
manifest_entry_size = 20

-- `payload_info_t`: the ELF header by its address, the entries read from memory.
pub record PayloadInfo : Type 0 where
  pub header_payload : ℕ
  pub elf_payload_size : ℕ
  pub service_count : ℕ
  pub service_entries : List ManifestEntry

-- The fields of the packed header at `base`.
abbrev pub manifest_count : Memory → ℕ → ℕ
manifest_count mem base = read_u32 mem (base + 8)

abbrev pub manifest_size : Memory → ℕ → ℕ
manifest_size mem base = read_u32 mem (base + 12)

abbrev pub manifest_elf_size : Memory → ℕ → ℕ
manifest_elf_size mem base = read_u64 mem (base + 16)

-- True where the C function returns no error.
unfoldable pub service_manifest_check : Memory → ℕ → Bool
service_manifest_check mem base = not (
    not (read_u64 mem base == manifest_magic)
    || not (
        manifest_size mem base
        == manifest_header_size + manifest_count mem base * manifest_entry_size))

unfoldable pub service_manifest_retrieve_elf : Memory → ℕ → ℕ
service_manifest_retrieve_elf mem base = base + manifest_size mem base

abbrev pub read_entry : Memory → ℕ → ManifestEntry
read_entry mem p = record {
  type = read_u32 mem p;
  offset = read_u64 mem (p + 4);
  size = read_u64 mem (p + 12);
}

-- The entries as an array of `n` structs from `p` on.
unfoldable pub read_entries : Memory → ℕ → ℕ → List ManifestEntry
read_entries mem zero p = []
read_entries mem (suc n) p = read_entry mem p ∷ read_entries mem n (p + manifest_entry_size)

-- The fields of the `Elf64_Ehdr` at an address, at the offsets of the ELF format.
abbrev pub e_entry : Memory → ℕ → ℕ
e_entry mem eh = read_u64 mem (eh + 24)

abbrev pub e_shoff : Memory → ℕ → ℕ
e_shoff mem eh = read_u64 mem (eh + 40)

abbrev pub e_shentsize : Memory → ℕ → ℕ
e_shentsize mem eh = read_u16 mem (eh + 58)

abbrev pub e_shnum : Memory → ℕ → ℕ
e_shnum mem eh = read_u16 mem (eh + 60)

abbrev pub e_shstrndx : Memory → ℕ → ℕ
e_shstrndx mem eh = read_u16 mem (eh + 62)

-- `sizeof(Elf64_Shdr)`.
abbrev pub elf64_shdr_size : ℕ
elf64_shdr_size = 64

-- The test on the section headers, `SHN_UNDEF` being 0.
unfoldable pub has_bad_sections : Memory → ℕ → Bool
has_bad_sections mem eh =
    e_shoff mem eh == 0
    || e_shnum mem eh == 0
    || not (e_shentsize mem eh == elf64_shdr_size)
    || e_shstrndx mem eh == 0
    || not (ltb (e_shstrndx mem eh) (e_shnum mem eh))

-- `none` is the error return.
unfoldable pub service_manifest_header_parse : Memory → ℕ → Option PayloadInfo
unfolding service_manifest_check service_manifest_retrieve_elf has_bad_sections
service_manifest_header_parse mem base =
    let eh = service_manifest_retrieve_elf mem base in
    if not (service_manifest_check mem base)
    then none
    else if has_bad_sections mem eh
    then none
    else if manifest_elf_size mem base == 0
    then none
    else some (record {
      header_payload = eh;
      elf_payload_size = manifest_elf_size mem base;
      service_count = manifest_count mem base;
      service_entries = read_entries mem (manifest_count mem base) (base + manifest_header_size);
    })

abbrev pub req_capacity : ℕ
req_capacity = 16

-- One round for an entry of a supported type: a write past `service_entries[15]` is `none`.
unfoldable pub add_entry : SvcReq → ManifestEntry → Option SvcReq
add_entry req entry =
    if ltb req.service_count req_capacity
    then some (record req {
      service_count = req.service_count + 1;
      service_count_per_type =
          update req.service_count_per_type entry.type (req.service_count_per_type entry.type + 1);
      service_entries = req.service_entries ++ entry ∷ [];
    })
    else none

-- One round of the loop: an entry of another type is skipped.
unfoldable pub parse_entry : SvcReq → ManifestEntry → Option SvcReq
unfolding add_entry
parse_entry req entry =
    if not (service_manifest_check_type entry.type) then some req else add_entry req entry

unfoldable pub parse_entries : List ManifestEntry → SvcReq → Option SvcReq
parse_entries [] req = some req
parse_entries (entry ∷ rest) req = parse_entry req entry >>= parse_entries rest

-- `e_entry` is that of the payload's header. `none` is a write out of bounds.
unfoldable pub service_manifest_parse : Memory → PayloadInfo → SvcReq → Option SvcReq
service_manifest_parse mem info req = do
  r ← parse_entries info.service_entries req
  some (record r { payload_e_entry = e_entry mem info.header_payload })
