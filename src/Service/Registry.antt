-- ===== src/Service/Registry.antt =====
-- src/monitor/service/service_registry.c: the services of the database, given to the protocons
-- that own them. `protocon_states` is an array of 16, and the index is the `pd_id` of the record.
pub mod Refs
pub mod Returns
pub mod Rounds
use carrels.Base.{
  ℕ, zero, suc, ◌+◌, ◌≡◌, ◌==◌, if◌then◌else◌, Bool, true, false, not, Option, none, some, List, [],
  ◌∷◌, ltb, leb, update, Memory, ◌>>=◌,
}
use carrels.Service.Types.{
  Quota, PcState, svc_type_max_num, svc_per_type_max_num, pc_child_per_monitor_max_num,
}
use carrels.ServiceDb.{SvcDb, service_type, service_pd_id}

-- A service of the type is stored behind those that the protocon has, unless it has eight.
unfoldable pub add_service : Quota → ℕ → ℕ → Quota
add_service q type service =
    let idx = q.avail_service_per_type type in
    if leb svc_per_type_max_num idx then q else record q {
      avail_service_refs =
          update q.avail_service_refs type (update (q.avail_service_refs type) idx service);
      avail_service_per_type = update q.avail_service_per_type type (idx + 1);
    }

-- One round of the loop; `none` is an access past the end of `protocon_states`.
unfoldable pub register : Memory → (ℕ → PcState) → ℕ → Option (ℕ → PcState)
register mem states service =
    let type = service_type mem service in
    let pc_id = service_pd_id mem service in
    if leb svc_type_max_num type
    then some states
    else if ltb pc_id pc_child_per_monitor_max_num
    then some (
        update states pc_id (record (states pc_id) {
          resource_quota = add_service (states pc_id).resource_quota type service;
        }))
    else none

unfoldable pub register_all : Memory → List ℕ → (ℕ → PcState) → Option (ℕ → PcState)
register_all mem [] states = some states
register_all mem (s ∷ ss) states = register mem states s >>= register_all mem ss

-- A null database changes nothing. The count of protocons is not looked at.
unfoldable pub service_registry_create :
    Memory → Option SvcDb → (ℕ → PcState) → Option (ℕ → PcState)
service_registry_create mem none states = some states
service_registry_create mem (some db) states = register_all mem db.services states
