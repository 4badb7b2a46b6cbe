-- ===== src/Tests/Files.antt =====
-- A delegation file of two delegators and a database of one service.
use carrels.Base.{
  ◌+◌, ◌≤◌, ◌<◌, ◌≡◌, refl, ◌↔◌, ◌^◌, some, [], ◌∷◌, arith, Memory, of_bytes, byte, read_u16,
  read_u32, matches,
}
use carrels.Delegation.{
  DlgHeader, dlg_parse, parse_delegators, delegator_record_size, dlg_delegator_resource,
}
use carrels.Delegation.Layout.{IsDlg, dlg_parse_iff, delegators_disjoint}
use carrels.ServiceDb.{SvcDb, svc_parse, parse_services}
use carrels.ServiceDb.Layout.{IsSvc, declared_size, svc_parse_iff, service_in_file_iff}

abbrev pub dlg_file : Memory
dlg_file = of_bytes (
    67 ∷ 97 ∷ 112 ∷ 68 ∷ 101 ∷ 108 ∷ 103 ∷ 0 ∷ 2 ∷ 0 ∷ 0 ∷ 0 ∷ 70 ∷ 0 ∷ 0 ∷ 0 ∷ 38 ∷ 0 ∷ 1 ∷ 0 ∷ 0
    ∷ 0 ∷ 0 ∷ 0 ∷ 3 ∷ 0 ∷ 0 ∷ 0 ∷ 0 ∷ 0 ∷ 0 ∷ 0 ∷ 1 ∷ 0 ∷ 5 ∷ 0 ∷ 1 ∷ 0 ∷ 0 ∷ 0 ∷ 0 ∷ 0 ∷ 0 ∷ 0 ∷ 0
    ∷ 0 ∷ 0 ∷ 0 ∷ 0 ∷ 0 ∷ 0 ∷ 0 ∷ 0 ∷ 0 ∷ 16 ∷ 0 ∷ 0 ∷ 0 ∷ 0 ∷ 0 ∷ 0 ∷ 0 ∷ 5 ∷ 0 ∷ 0 ∷ 0 ∷ 0 ∷ 0 ∷ 0
    ∷ 0 ∷ [])

abbrev pub dlg_header : DlgHeader
dlg_header = record { delegator_count = 2; total_size = 70; delegators = 16 ∷ 54 ∷ [] }

dlg_file-parsed : dlg_parse dlg_file 0 ≡ some dlg_header
unfolding dlg_parse parse_delegators read_u16 read_u32 matches byte
dlg_file-parsed = refl

dlg_parse_iff_example : (dlg_parse dlg_file 0 ≡ some dlg_header) ↔ IsDlg dlg_file 0 dlg_header
dlg_parse_iff_example = dlg_parse_iff dlg_file 0 dlg_header

first_resource : dlg_delegator_resource dlg_file 16 0 ≡ some 32
unfolding dlg_delegator_resource read_u16 byte
first_resource = refl

delegators_disjoint_example : 16 + delegator_record_size dlg_file 16 ≤ 54
delegators_disjoint_example =
    delegators_disjoint dlg_file 0 dlg_header 0 1 16 54 dlg_file-parsed (omega arith) refl refl

abbrev pub svc_file : Memory
svc_file = of_bytes (
    79 ∷ 83 ∷ 83 ∷ 118 ∷ 99 ∷ 0 ∷ 0 ∷ 0 ∷ 1 ∷ 0 ∷ 0 ∷ 0 ∷ 1 ∷ 0 ∷ 0 ∷ 0 ∷ 51 ∷ 0 ∷ 0 ∷ 0 ∷ 31 ∷ 0
    ∷ 0 ∷ 0 ∷ 1 ∷ 0 ∷ 0 ∷ 0 ∷ 0 ∷ 0 ∷ 0 ∷ 0 ∷ 7 ∷ 0 ∷ 1 ∷ 0 ∷ 0 ∷ 0 ∷ 0 ∷ 0 ∷ 0 ∷ 0 ∷ 1 ∷ 9 ∷ 0 ∷ 0
    ∷ 0 ∷ 0 ∷ 0 ∷ 0 ∷ 0 ∷ [])

abbrev pub svc_db : SvcDb
svc_db = record { version = 1; service_count = 1; total_size = 51; services = 20 ∷ [] }

svc_file-parsed : svc_parse svc_file 0 ≡ some svc_db
unfolding svc_parse parse_services read_u16 read_u32 matches byte
svc_file-parsed = refl

svc_parse_iff_example : (svc_parse svc_file 0 ≡ some svc_db) ↔ IsSvc svc_file 0 svc_db
svc_parse_iff_example = svc_parse_iff svc_file 0 svc_db

service_in_file_iff_example :
    (20 + declared_size svc_file 20 ≤ 0 + 51) ↔ (declared_size svc_file 20 < 2 ^ 32)
service_in_file_iff_example = service_in_file_iff svc_file 0 svc_db 0 20 svc_file-parsed refl
