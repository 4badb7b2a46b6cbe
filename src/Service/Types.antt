-- ===== src/Service/Types.antt =====
-- The types of include/service/manifest.h and include/carrels-monitor.h that the services share.
-- A fixed array is a function from the index; the code that uses it tests the bound.
use carrels.Base.{ℕ, Bool, true, false, Option, none, List, [], update}

abbrev pub svc_type_max_num : ℕ
svc_type_max_num = 8

abbrev pub svc_per_type_max_num : ℕ
svc_per_type_max_num = 8

abbrev pub pc_child_per_monitor_max_num : ℕ
pc_child_per_monitor_max_num = 16

-- `SERVICE_FILE_SYSTEM` is 0, and `SERVICE_RESERVED` ends the enumeration.
abbrev pub service_reserved : ℕ
service_reserved = 5

-- A byte that was never set is `unset`, the 0 of the zeroed array.
pub data Lifecycle : Type 0 where
  unset active passive suspended : Lifecycle

unfoldable pub same_state : Lifecycle → Lifecycle → Bool
same_state unset unset = true
same_state active active = true
same_state passive passive = true
same_state suspended suspended = true
same_state _ _ = false

-- The `type` is the bit pattern of an `int32_t`.
pub record ManifestEntry : Type 0 where
  pub type : ℕ
  pub offset : ℕ
  pub size : ℕ

-- `protocon_svc_req_t`. `service_entries` holds the entries below `service_count`, in order.
pub record SvcReq : Type 0 where
  pub service_count : ℕ
  pub service_count_per_type : ℕ → ℕ
  pub service_entries : List ManifestEntry
  pub payload_e_entry : ℕ

abbrev pub empty_req : SvcReq
empty_req = record {
  service_count = 0;
  service_count_per_type = λ t. 0;
  service_entries = [];
  payload_e_entry = 0;
}

-- `resource_quota` of `pc_state_t`: how many services of each type, and their records. A null
-- pointer is 0.
pub record Quota : Type 0 where
  pub avail_service_per_type : ℕ → ℕ
  pub avail_service_refs : ℕ → ℕ → ℕ

abbrev pub empty_quota : Quota
empty_quota = record { avail_service_per_type = λ t. 0; avail_service_refs = λ t i. 0 }

-- The four fields of `trustedlo_ctxt_t` that the monitor reads or writes.
pub record LoaderContext : Type 0 where
  pub switch_count : ℕ
  pub child_id : ℕ
  pub channel : ℕ
  pub call_id : ℕ

abbrev pub zero_context : LoaderContext
zero_context = record { switch_count = 0; child_id = 0; channel = 0; call_id = 0 }

pub record PcState : Type 0 where
  pub pc_id : ℕ
  pub context : LoaderContext
  pub life_cycle_state : Lifecycle
  pub resource_quota : Quota
  pub sym_base : ℕ

pub record DeployPlan : Type 0 where
  pub pc_id : ℕ
  pub pc_base : ℕ
  pub pc_entry : ℕ
  pub req : Option SvcReq
  pub service_sources : ℕ → ℕ
  pub base_serialised_service : ℕ

-- `memset(p->service_sources, 0, sizeof(svc_service_t *))`: the size is that of one pointer.
unfoldable pub deploy_plan_memzero_services : DeployPlan → DeployPlan
deploy_plan_memzero_services p = record p { service_sources = update p.service_sources 0 0 }

unfoldable pub deploy_plan_reset : DeployPlan → DeployPlan
unfolding deploy_plan_memzero_services
deploy_plan_reset p = deploy_plan_memzero_services (record p {
  pc_id = pc_child_per_monitor_max_num;
  pc_base = 0;
  pc_entry = 0;
  req = none;
  base_serialised_service = 0;
})

abbrev pub zero_plan : DeployPlan
zero_plan = record {
  pc_id = 0;
  pc_base = 0;
  pc_entry = 0;
  req = none;
  service_sources = λ i. 0;
  base_serialised_service = 0;
}
