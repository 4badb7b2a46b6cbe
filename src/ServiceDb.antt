-- ===== src/ServiceDb.antt =====
-- include/service/manifest.h, the service database (`*.svc`): the services that each protection
-- domain may be given, with the resources and the data file of each. As for the delegation file, a
-- pointer is an address, and a failed parse is `none`, after which the caller stops.
pub mod Layout
use carrels.Base.{
  ℕ, zero, suc, ◌+◌, ◌*◌, ◌%◌, ◌^◌, ◌==◌, if◌then◌else◌, Bool, true, false, not, ◌||◌, Option, none,
  some, List, [], ◌∷◌, ltb, Memory, byte, read_u16, read_u32, read_u64, matches,
}

abbrev pub svc_max_services : ℕ
svc_max_services = 64

abbrev pub svc_header_size : ℕ
svc_header_size = 20

abbrev pub svc_service_header_size : ℕ
svc_service_header_size = 22

abbrev pub svc_resource_size : ℕ
svc_resource_size = 9

abbrev pub svc_version : ℕ
svc_version = 1

-- `services` holds the address of each record.
pub record SvcDb : Type 0 where
  pub version : ℕ
  pub service_count : ℕ
  pub total_size : ℕ
  pub services : List ℕ

-- The fields of the packed `svc_service_t` at an address.
abbrev pub service_record_size : Memory → ℕ → ℕ
service_record_size mem s = read_u32 mem s

abbrev pub service_pd_id : Memory → ℕ → ℕ
service_pd_id mem s = read_u64 mem (s + 4)

abbrev pub service_type : Memory → ℕ → ℕ
service_type mem s = byte mem (s + 13)

abbrev pub service_resource_count : Memory → ℕ → ℕ
service_resource_count mem s = read_u32 mem (s + 14)

abbrev pub service_path_len : Memory → ℕ → ℕ
service_path_len mem s = read_u32 mem (s + 18)

-- The product is a `uint32_t`.
unfoldable pub svc_service_resource : Memory → ℕ → ℕ → Option ℕ
svc_service_resource mem s index =
    if ltb index (service_resource_count mem s)
    then some (s + svc_service_header_size + index * svc_resource_size % 2 ^ 32)
    else none

unfoldable pub svc_service_path : Memory → ℕ → ℕ
svc_service_path mem s =
    s + svc_service_header_size + service_resource_count mem s * svc_resource_size % 2 ^ 32

-- `OSSvc` and three zero bytes.
abbrev pub svc_magic : List ℕ
svc_magic = b'O' ∷ b'S' ∷ b'S' ∷ b'v' ∷ b'c' ∷ 0 ∷ 0 ∷ 0 ∷ []

abbrev pub with_service : ℕ → Option (List ℕ × ℕ) → Option (List ℕ × ℕ)
with_service p none = none
with_service p (some (ss, q)) = some (p ∷ ss, q)

-- `expected_size`, computed in `uint32_t`.
abbrev pub expected_size : ℕ → ℕ → ℕ
expected_size resource_count path_len =
    (svc_service_header_size + resource_count * svc_resource_size + path_len) % 2 ^ 32

-- The loop over the records, from `p` on: the records and where they end.
unfoldable pub parse_services : Memory → ℕ → ℕ → ℕ → Option (List ℕ × ℕ)
parse_services mem limit zero p = some ([], p)
parse_services mem limit (suc n) p =
    let record_size = read_u32 mem p in
    let resource_count = read_u32 mem (p + 14) in
    let path_len = read_u32 mem (p + 18) in
    let rest = parse_services mem limit n (p + record_size) in
    if ltb limit (p + svc_service_header_size)
    then none
    else if not (record_size == expected_size resource_count path_len)
        || ltb limit (p + record_size)
    then none
    else with_service p rest

abbrev pub svc_finish : ℕ → ℕ → ℕ → ℕ → Option (List ℕ × ℕ) → Option SvcDb
svc_finish version count total limit none = none
svc_finish version count total limit (some (ss, q)) =
    if q == limit
    then some
        (record { version = version; service_count = count; total_size = total; services = ss })
    else none

-- The tests on the header, and behind them the result of the loop.
abbrev pub svc_checked : Bool → ℕ → ℕ → ℕ → ℕ → Option (List ℕ × ℕ) → Option SvcDb
svc_checked magic version count total limit parsed =
    if not magic
    then none
    else if not (version == svc_version) || ltb svc_max_services count || ltb total svc_header_size
    then none
    else svc_finish version count total limit parsed

unfoldable pub svc_parse : Memory → ℕ → Option SvcDb
svc_parse mem start =
    let version = read_u16 mem (start + 8) in
    let count = read_u32 mem (start + 12) in
    let total = read_u32 mem (start + 16) in
    svc_checked (matches mem start svc_magic) version count total (start + total)
      (parse_services mem (start + total) count (start + svc_header_size))
