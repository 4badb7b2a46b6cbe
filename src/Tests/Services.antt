-- ===== src/Tests/Services.antt =====
-- A protocon with one service of type 0, and an image that asks for one.
use carrels.Base.{
  ◌*◌, ◌<◌, zero, suc, false, ltb, get_or, ◌||◌, ℕ, ◌+◌, ◌-◌, ◌^◌, ◌≡◌, ◌≢◌, refl, ◌↔◌, ◌++◌, true,
  none, some, [], ◌∷◌, arith, Memory, byte, read_u16, read_u32, read_u64, update, take,
  if◌then◌else◌, ◌==◌,
}
use carrels.Tests.Files.{svc_file, svc_db}
use carrels.Service.Types.{
  ManifestEntry, SvcReq, empty_req, Quota, empty_quota, PcState, passive, zero_context, DeployPlan,
  zero_plan, same_state,
}
use carrels.Service.Manifest.{
  PayloadInfo, service_manifest_parse, service_manifest_header_parse, service_manifest_check,
  service_manifest_retrieve_elf, has_bad_sections, read_entries,
}
use carrels.Service.Manifest.Counts.{Outcome, supported, service_manifest_parse-Outcome}
use carrels.Service.Registry.{register, register_all, add_service, service_registry_create}
use carrels.Service.Registry.Rounds.{stock, owned}
use carrels.Service.Registry.Refs.{service_registry_create-stock}
use carrels.Service.Registry.Returns.{OwnersFit, service_registry_create-returns_iff}
use carrels.Service.Planner.{
  satisfies_from, service_planner_can_satisfy_request, service_planner_deploy_plan_init,
  is_candidate, first_candidate, service_planner_select_protocon,
  service_planner_select_protocon_by_id, choose_sources,
}
use carrels.Service.Planner.Choice.{IsFirstFrom, service_planner_select_protocon-IsFirst}
use carrels.Service.Planner.Sources.{
  IsStocked, IsRequest, Assigned, service_planner_deploy_plan_init-Assigned,
}
use carrels.Service.Installer.{
  section_holds, empty_xrt, service_installer_append_acrtreq, service_installer_payload_add_service,
}
use carrels.Service.Installer.Requests.{
  notify, requested, kind_of, values, service_installer_append_acrtreq-requested,
}
use carrels.Service.Installer.Sections.{service_installer_payload_add_service-missing}
use carrels.ServiceDb.{service_resource_count}

abbrev entry : ManifestEntry
entry = record { type = 0; offset = 0; size = 8 }

abbrev one_request : SvcReq
one_request = record {
  service_count = 1;
  service_count_per_type = λ t. if 0 == t then 1 else 0;
  service_entries = entry ∷ [];
  payload_e_entry = 0;
}

abbrev one_service : Quota
one_service = record {
  avail_service_per_type = λ t. if 0 == t then 1 else 0;
  avail_service_refs = λ t k. 20;
}

abbrev state_with : Quota → PcState
state_with q = record {
  pc_id = 0;
  context = zero_context;
  life_cycle_state = passive;
  resource_quota = q;
  sym_base = 0;
}

abbrev info : PayloadInfo
info = record {
  header_payload = 0;
  elf_payload_size = 1;
  service_count = 2;
  service_entries = entry ∷ record { type = 9; offset = 0; size = 8 } ∷ [];
}

service_manifest_parse-Outcome_example :
    Outcome
      (supported (entry ∷ record { type = 9; offset = 0; size = 8 } ∷ []))
      (service_manifest_parse svc_file info empty_req)
service_manifest_parse-Outcome_example = service_manifest_parse-Outcome svc_file info

abbrev fresh_states : ℕ → PcState
fresh_states i = state_with empty_quota

abbrev registered : ℕ → PcState
registered = update fresh_states 1 (state_with (add_service empty_quota 0 20))

svc_db-registered : service_registry_create svc_file (some svc_db) fresh_states ≡ some registered
unfolding service_registry_create register_all register byte read_u32 read_u64
svc_db-registered = refl

service_registry_create-stock_example :
    stock (registered 1).resource_quota 0 ≡ take 8 (owned svc_file 1 0 (20 ∷ []))
service_registry_create-stock_example =
    service_registry_create-stock svc_file svc_db fresh_states registered 1 0 (omega arith) refl
      svc_db-registered

service_registry_create-returns_iff_example :
    (service_registry_create svc_file (some svc_db) fresh_states ≢ none)
    ↔ OwnersFit svc_file (20 ∷ [])
service_registry_create-returns_iff_example =
    service_registry_create-returns_iff svc_file svc_db fresh_states

one_request-IsRequest : IsRequest one_request
one_request-IsRequest = record {
  consistent = record { counted = refl; per_type = λ t. omega arith; fits = omega arith };
  types = (omega arith, tt);
}

one_service-IsStocked : IsStocked one_service
one_service-IsStocked = record {
  small = λ t lt. ground arith;
  stored = λ t k lt below. ground arith;
}

satisfied :
    service_planner_can_satisfy_request one_request one_service.avail_service_per_type ≡ true
unfolding service_planner_can_satisfy_request satisfies_from
satisfied = refl

abbrev plan_for_one : DeployPlan
plan_for_one = record zero_plan { req = some one_request }

service_planner_deploy_plan_init-Assigned_example :
    Assigned plan_for_one one_request one_service
      (service_planner_deploy_plan_init plan_for_one (state_with one_service))
service_planner_deploy_plan_init-Assigned_example =
    service_planner_deploy_plan_init-Assigned plan_for_one one_request (state_with one_service) refl
      one_request-IsRequest one_service-IsStocked satisfied

abbrev planned : ℕ → DeployPlan
planned pc_id = record {
  pc_id = pc_id;
  pc_base = 0;
  pc_entry = 0;
  req = some one_request;
  service_sources = update (update (λ i. 0) 0 0) 0 20;
  base_serialised_service = pc_id;
}

abbrev states_with : ℕ → PcState
states_with i = state_with (if i == 0 then empty_quota else one_service)

planned_first :
    service_planner_select_protocon (λ i. i) one_request zero_plan states_with ≡ some (planned 1)
unfolding service_planner_select_protocon first_candidate is_candidate
    service_planner_can_satisfy_request satisfies_from same_state service_planner_deploy_plan_init
    choose_sources
planned_first = refl

service_planner_select_protocon-IsFirst_example : IsFirstFrom one_request states_with 0 1
service_planner_select_protocon-IsFirst_example =
    service_planner_select_protocon-IsFirst (λ i. i) one_request zero_plan (planned 1) states_with
      planned_first

planned_second :
    service_planner_select_protocon_by_id (λ i. i) one_request zero_plan states_with 2
    ≡ some (planned 2)
unfolding service_planner_select_protocon_by_id is_candidate service_planner_can_satisfy_request
    satisfies_from same_state service_planner_deploy_plan_init choose_sources
planned_second = refl

service_installer_append_acrtreq-requested_example :
    requested notify (service_installer_append_acrtreq svc_file empty_xrt 20)
    ≡ take 64 (
        requested notify empty_xrt
        ++ values svc_file 20 (kind_of notify) (service_resource_count svc_file 20) 0)
service_installer_append_acrtreq-requested_example =
    service_installer_append_acrtreq-requested svc_file empty_xrt 20 notify (omega arith)

-- A client's manifest of 24 bytes without entries, and behind it an ELF image of two sections: the
-- first one is empty, and the second one has the addresses from 0x1000 to 0x10FF.
abbrev two_sections : Memory
two_sections a =
    if ltb a 8
    then get_or (49 ∷ 78 ∷ 65 ∷ 77 ∷ 86 ∷ 83 ∷ 67 ∷ 80 ∷ []) a 0
    else if a == 12
    then 24
    else if a == 16
    then 216
    else if a == 64 || a == 82
    then 64
    else if a == 84
    then 2
    else if a == 86 || a == 156
    then 1
    else if a == 169
    then 16
    else if a == 185
    then 1
    else 0

two_sections-accepted :
    service_manifest_header_parse two_sections 0
    ≡ some (record {
      header_payload = 24;
      elf_payload_size = 216;
      service_count = 0;
      service_entries = [];
    })
unfolding service_manifest_header_parse service_manifest_check service_manifest_retrieve_elf
    has_bad_sections read_entries read_u16 read_u32 read_u64 byte
two_sections-accepted = refl

two_sections-number : read_u16 two_sections (24 + 60) ≡ 2
unfolding read_u16 byte
two_sections-number = refl

-- Neither section holds the address 0x2000.
two_sections-elsewhere :
    (k : ℕ)
    → k < 2
    → section_holds two_sections (24 + read_u64 two_sections (24 + 40) + 64 * k) 8192 ≡ false
unfolding read_u64 read_u32 byte
two_sections-elsewhere zero lt = refl
two_sections-elsewhere (suc zero) lt = refl
two_sections-elsewhere (suc (suc k)) lt = absurd (omega arith)

service_installer_payload_add_service-missing_example :
    service_installer_payload_add_service two_sections 24 8192 ≡ some (2 ^ 64 - 1)
service_installer_payload_add_service-missing_example =
    service_installer_payload_add_service-missing two_sections 24 8192
      (λ k lt. two_sections-elsewhere k (omega (arith, two_sections-number, lt)))
