-- ===== src/Service/Planner.antt =====
-- src/monitor/service/service_planner.c: the choice of a protocon for a request, and of a service
-- for each of its entries.
pub mod Choice
pub mod Sources
use carrels.Base.{
  ℕ, zero, suc, ◌+◌, ◌-◌, ◌%◌, ◌^◌, ◌≡◌, ◌==◌, if◌then◌else◌, Bool, true, false, not, ◌&&◌, ◌||◌,
  Option, none, some, List, [], ◌∷◌, ltb, leb, update, ◌>>=◌, ◌>>◌, assert,
}
use carrels.Service.Types.{
  Lifecycle, passive, same_state, Quota, PcState, SvcReq, ManifestEntry, DeployPlan,
  deploy_plan_reset, svc_type_max_num, svc_per_type_max_num, pc_child_per_monitor_max_num,
}

-- The rounds from `type` on, `n` of them left.
unfoldable pub satisfies_from : (ℕ → ℕ) → (ℕ → ℕ) → ℕ → ℕ → Bool
satisfies_from wanted avail zero type = true
satisfies_from wanted avail (suc n) type =
    if ltb (avail type) (wanted type) then false else satisfies_from wanted avail n (type + 1)

unfoldable pub service_planner_can_satisfy_request : SvcReq → (ℕ → ℕ) → Bool
service_planner_can_satisfy_request req avail =
    satisfies_from req.service_count_per_type avail svc_type_max_num 0

-- `--cursor_service_num[type]` on a `uint32_t`.
abbrev pub previous : ℕ → ℕ
previous n = (n + 2 ^ 32 - 1) % 2 ^ 32

-- The loop over the entries from entry `i` on. `none` is an access out of bounds, or the assertion
-- that the source is not null.
unfoldable pub choose_sources : Quota → (ℕ → ℕ) → List ManifestEntry → ℕ → (ℕ → ℕ) → Option (ℕ → ℕ)
choose_sources q cursor [] i sources = some sources
choose_sources q cursor (entry ∷ rest) i sources =
    let type = entry.type in
    let index = previous (cursor type) in
    let source = q.avail_service_refs type index in
    do
      assert (ltb type svc_type_max_num && ltb index svc_per_type_max_num && ltb i 16)
      assert (not (source == 0))
      choose_sources q (update cursor type index) rest (i + 1) (update sources i source)

unfoldable pub service_planner_deploy_plan_init : DeployPlan → PcState → Option DeployPlan
service_planner_deploy_plan_init plan state = do
  req ← plan.req
  sources ←
      choose_sources state.resource_quota state.resource_quota.avail_service_per_type
        req.service_entries 0 plan.service_sources
  some (record plan { service_sources = sources })

-- Both selections ask the same of a protocon.
unfoldable pub is_candidate : SvcReq → PcState → Bool
is_candidate req state =
    same_state state.life_cycle_state passive
    && service_planner_can_satisfy_request req state.resource_quota.avail_service_per_type

-- The loop over the protocons from `pc_id` on, `n` rounds left: the first candidate, or 16.
unfoldable pub first_candidate : SvcReq → (ℕ → PcState) → ℕ → ℕ → ℕ
first_candidate req states zero pc_id = pc_child_per_monitor_max_num
first_candidate req states (suc n) pc_id =
    let rest = first_candidate req states n (pc_id + 1) in
    if is_candidate req (states pc_id) then pc_id else rest

-- The region of the plan's protocon is a parameter: `monitor_vm_region_base` on the generated layout.
module _ (txlo_xrt_req : ℕ → ℕ) where
  abbrev pub fill_plan : SvcReq → DeployPlan → (ℕ → PcState) → ℕ → Option DeployPlan
  fill_plan req plan states pc_id =
      service_planner_deploy_plan_init
        (record plan {
          pc_id = pc_id;
          req = some req;
          base_serialised_service = txlo_xrt_req pc_id;
        })
        (states pc_id)

  unfoldable pub service_planner_select_protocon :
      SvcReq → DeployPlan → (ℕ → PcState) → Option DeployPlan
  unfolding deploy_plan_reset
  service_planner_select_protocon req plan states =
      let pc_id = first_candidate req states pc_child_per_monitor_max_num 0 in
      if leb pc_child_per_monitor_max_num pc_id
      then some (deploy_plan_reset plan)
      else fill_plan req (deploy_plan_reset plan) states pc_id

  unfoldable pub service_planner_select_protocon_by_id :
      SvcReq → DeployPlan → (ℕ → PcState) → ℕ → Option DeployPlan
  unfolding deploy_plan_reset
  service_planner_select_protocon_by_id req plan states pc_id =
      if leb pc_child_per_monitor_max_num pc_id || not (is_candidate req (states pc_id))
      then some (deploy_plan_reset plan)
      else fill_plan req (deploy_plan_reset plan) states pc_id
