-- ===== src/Delegation.antt =====
-- include/monitor/delegation.h: the delegation file (`*.dlg`), which lists the capabilities and
-- resources that each protection domain may be given. A pointer into the file is an address, and
-- memory holds a byte at every address, since the parser is given no length. A failed parse is
-- `none`: the caller (`ca_monitor_init_storage`) then stops, and never reads the header.
pub mod Layout
pub mod Lookup
use carrels.Base.{
  ℕ, zero, suc, ◌+◌, ◌*◌, ◌^◌, ◌==◌, if◌then◌else◌, Bool, true, false, not, ◌||◌, Option, none,
  some, List, [], ◌∷◌, ltb, Memory, byte, read_u16, read_u32, read_u64, matches,
}

abbrev pub dlg_max_delegators : ℕ
dlg_max_delegators = 16

abbrev pub dlg_header_size : ℕ
dlg_header_size = 16

-- `sizeof(dlg_resource_t)` and `sizeof(dlg_delegator_t)`: both structs are packed.
abbrev pub dlg_resource_size : ℕ
dlg_resource_size = 1 + 1 + 2 + 2 + 8 + 8

abbrev pub dlg_delegator_header_size : ℕ
dlg_delegator_header_size = 2 + 2 + 4 + 8

pub record DlgHeader : Type 0 where
  pub delegator_count : ℕ
  pub total_size : ℕ
  pub delegators : List ℕ

-- The fields of the `dlg_delegator_t` at an address.
abbrev pub delegator_record_size : Memory → ℕ → ℕ
delegator_record_size mem d = read_u16 mem d

abbrev pub delegator_resource_count : Memory → ℕ → ℕ
delegator_resource_count mem d = read_u16 mem (d + 2)

abbrev pub delegator_pd_id : Memory → ℕ → ℕ
delegator_pd_id mem d = read_u64 mem (d + 8)

unfoldable pub dlg_delegator_resource : Memory → ℕ → ℕ → Option ℕ
dlg_delegator_resource mem d index =
    if ltb index (delegator_resource_count mem d)
    then some (d + dlg_delegator_header_size + index * dlg_resource_size)
    else none

unfoldable pub dlg_find_delegator : Memory → List ℕ → ℕ → Option ℕ
dlg_find_delegator mem [] pd_id = none
dlg_find_delegator mem (d ∷ ds) pd_id =
    if delegator_pd_id mem d == pd_id then some d else dlg_find_delegator mem ds pd_id

-- `CapDelg` and a zero byte.
abbrev pub dlg_magic : List ℕ
dlg_magic = b'C' ∷ b'a' ∷ b'p' ∷ b'D' ∷ b'e' ∷ b'l' ∷ b'g' ∷ 0 ∷ []

abbrev pub with_delegator : ℕ → Option (List ℕ × ℕ) → Option (List ℕ × ℕ)
with_delegator p none = none
with_delegator p (some (ds, q)) = some (p ∷ ds, q)

-- The loop over the records, from `p` on: the records and where they end.
unfoldable pub parse_delegators : Memory → ℕ → ℕ → ℕ → Option (List ℕ × ℕ)
parse_delegators mem limit zero p = some ([], p)
parse_delegators mem limit (suc n) p =
    let record_size = read_u16 mem p in
    let resource_count = read_u16 mem (p + 2) in
    let rest = parse_delegators mem limit n (p + record_size) in
    if ltb limit (p + dlg_delegator_header_size)
    then none
    else if ltb record_size dlg_delegator_header_size
        || not (record_size == dlg_delegator_header_size + resource_count * dlg_resource_size)
    then none
    else if ltb limit (p + record_size)
    then none
    else with_delegator p rest

-- `return p == start + dlg->total_size`.
abbrev pub dlg_finish : ℕ → ℕ → ℕ → Option (List ℕ × ℕ) → Option DlgHeader
dlg_finish count total limit none = none
dlg_finish count total limit (some (ds, q)) =
    if q == limit
    then some (record { delegator_count = count; total_size = total; delegators = ds })
    else none

-- The tests on the header, and behind them the result of the loop.
abbrev pub dlg_checked : Bool → ℕ → ℕ → ℕ → Option (List ℕ × ℕ) → Option DlgHeader
dlg_checked magic count total limit parsed =
    if not magic
    then none
    else if ltb dlg_max_delegators count || ltb total dlg_header_size
    then none
    else dlg_finish count total limit parsed

unfoldable pub dlg_parse : Memory → ℕ → Option DlgHeader
dlg_parse mem start =
    let count = read_u32 mem (start + 8) in
    let total = read_u32 mem (start + 12) in
    dlg_checked (matches mem start dlg_magic) count total (start + total)
      (parse_delegators mem (start + total) count (start + dlg_header_size))
