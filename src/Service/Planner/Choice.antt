-- ===== src/Service/Planner/Choice.antt =====
-- Which protocon the planner chooses.
use carrels.Base.{
  subst, ◌&&◌, ℕ, zero, suc, ◌+◌, ◌≤◌, ◌<◌, ◌≡◌, refl, sym, ◌↔◌, inl, inr, true, false, some, arith,
  ltb, Bool-cases, if◌then◌else◌, ◌==◌, ==→≡,
}
use carrels.Service.Types.{
  Lifecycle, passive, same_state, SvcReq, PcState, DeployPlan, deploy_plan_reset,
}
use carrels.Service.Planner.{
  satisfies_from, service_planner_can_satisfy_request, is_candidate, first_candidate,
  service_planner_select_protocon, service_planner_select_protocon_by_id,
  service_planner_deploy_plan_init, fill_plan,
}

satisfies_from-enough :
    (wanted avail : ℕ → ℕ) (n type t : ℕ)
    → satisfies_from wanted avail n type ≡ true
    → type ≤ t
    → t < type + n
    → wanted t ≤ avail t
unfolding satisfies_from
satisfies_from-enough wanted avail zero type t h low high = absurd (omega arith)
satisfies_from-enough wanted avail (suc n) type t h low high = elim (Bool-cases (type == t)) [
  | inl here ↦ ground (arith, ==→≡ type t here)
  | inr later ↦ ground (arith, satisfies_from-enough wanted avail n (type + 1) t)
]

enough-satisfies_from :
    (wanted avail : ℕ → ℕ) (n type : ℕ)
    → ((t : ℕ) → type ≤ t → t < type + n → wanted t ≤ avail t)
    → satisfies_from wanted avail n type ≡ true
unfolding satisfies_from
enough-satisfies_from wanted avail zero type h = refl
enough-satisfies_from wanted avail (suc n) type h = ground (
  arith,
  h type (omega arith) (omega arith),
  enough-satisfies_from wanted avail n (type + 1) (λ t low high. h t (omega arith) (omega arith)),
)

-- A request can be satisfied exactly when no type is asked for more often than it is on offer.
pub service_planner_can_satisfy_request_iff :
    (req : SvcReq) (avail : ℕ → ℕ)
    → (service_planner_can_satisfy_request req avail ≡ true)
      ↔ ((t : ℕ) → t < 8 → req.service_count_per_type t ≤ avail t)
unfolding service_planner_can_satisfy_request
service_planner_can_satisfy_request_iff req avail = (
  λ h t lt.
      satisfies_from-enough req.service_count_per_type avail 8 0 t h (omega arith) (omega arith),
  λ h. enough-satisfies_from req.service_count_per_type avail 8 0 (λ t low high. h t (omega arith)),
)

-- A protocon that the planner may choose: it is passive, and no type is asked for more often than it
-- is on offer there.
abbrev IsCandidate : SvcReq → PcState → Type 0
IsCandidate req state =
    (state.life_cycle_state ≡ passive)
    × ((t : ℕ)
        → t < 8
        → req.service_count_per_type t ≤ state.resource_quota.avail_service_per_type t)

same_state→passive : (l : Lifecycle) → same_state l passive ≡ true → l ≡ passive
unfolding same_state
same_state→passive l h = ground arith

same_state-passive : (l : Lifecycle) → l ≡ passive → same_state l passive ≡ true
unfolding same_state
same_state-passive l h = rw h refl

is_candidate_iff :
    (req : SvcReq) (state : PcState) → (is_candidate req state ≡ true) ↔ IsCandidate req state
unfolding is_candidate
is_candidate_iff req state =
    let enough =
      service_planner_can_satisfy_request_iff req state.resource_quota.avail_service_per_type in
    (
      λ h. (same_state→passive state.life_cycle_state (ground arith), enough.0 (ground arith)),
      λ (is_passive, all).
          let a = same_state-passive state.life_cycle_state is_passive in
          let b = enough.1 all in ground arith,
    )

not-IsCandidate :
    (req : SvcReq) (state : PcState) → is_candidate req state ≡ false → ¬ IsCandidate req state
not-IsCandidate req state h c = let yes_here = (is_candidate_iff req state).1 c in cc

-- The first protocon from `p` on that may be chosen, and 16 where there is none.
abbrev pub IsFirstFrom : SvcReq → (ℕ → PcState) → ℕ → ℕ → Type 0
IsFirstFrom req states p r =
    (r ≤ 16)
    × ((j : ℕ) → p ≤ j → j < r → ¬ IsCandidate req (states j))
    × (r < 16 → IsCandidate req (states r))

first_candidate-IsFirst :
    (req : SvcReq) (states : ℕ → PcState) (n p : ℕ)
    → p + n ≡ 16
    → IsFirstFrom req states p (first_candidate req states n p)
unfolding first_candidate
first_candidate-IsFirst req states zero p e =
    (omega arith, λ j low high. absurd (omega arith), λ lt. absurd (omega arith))
first_candidate-IsFirst req states (suc n) p e = elim (Bool-cases (is_candidate req (states p))) [
  | inl yes_here ↦ rw yes_here (
    omega arith,
    λ j low high. absurd (omega arith),
    λ lt. (is_candidate_iff req (states p)).0 yes_here,
  )
  | inr not_here ↦
      let (small, before, at) = first_candidate-IsFirst req states n (p + 1) (omega arith) in
      rw not_here (
        small,
        λ j low high. elim (Bool-cases (p == j)) [
          | inl same ↦
              subst (λ i. ¬ IsCandidate req (states i)) (==→≡ p j same)
                (not-IsCandidate req (states p) not_here)
          | inr other ↦ before j (ground arith) high
        ],
        at,
      )
]

-- The plan's protocon is all that the later code looks at: 16 means that none was found.
fill_plan-pc_id :
    (region : ℕ → ℕ) (req : SvcReq) (plan plan' : DeployPlan) (states : ℕ → PcState) (pc_id : ℕ)
    → fill_plan region req plan states pc_id ≡ some plan'
    → plan'.pc_id ≡ pc_id
unfolding service_planner_deploy_plan_init
fill_plan-pc_id region req plan plan' states pc_id h = ground arith

select-pc_id :
    (region : ℕ → ℕ) (req : SvcReq) (plan plan' : DeployPlan) (states : ℕ → PcState)
    → first_candidate req states 16 0 ≤ 16
    → service_planner_select_protocon region req plan states ≡ some plan'
    → plan'.pc_id ≡ first_candidate req states 16 0
unfolding service_planner_select_protocon deploy_plan_reset
select-pc_id region req plan plan' states small h = ground (
  arith,
  fill_plan-pc_id region req (deploy_plan_reset plan) plan' states
      (first_candidate req states 16 0),
)

-- If the planner makes a plan, its protocon is the first one that is passive and has, of each of the 8
-- types, as many services as the request asks for, and 16 exactly where there is none.
pub service_planner_select_protocon-IsFirst :
    (region : ℕ → ℕ) (req : SvcReq) (plan plan' : DeployPlan) (states : ℕ → PcState)
    → service_planner_select_protocon region req plan states ≡ some plan'
    → IsFirstFrom req states 0 plan'.pc_id
service_planner_select_protocon-IsFirst region req plan plan' states h =
    let first = first_candidate-IsFirst req states 16 0 refl in
    subst (IsFirstFrom req states 0) (sym (select-pc_id region req plan plan' states first.0 h))
      first

-- If the targeted planner makes a plan, its protocon is the one that was asked for if that is one
-- of the 16 and a candidate, and 16 otherwise.
pub service_planner_select_protocon_by_id-pc_id :
    (region : ℕ → ℕ) (req : SvcReq) (plan plan' : DeployPlan) (states : ℕ → PcState) (pc_id : ℕ)
    → service_planner_select_protocon_by_id region req plan states pc_id ≡ some plan'
    → plan'.pc_id ≡ (if ltb pc_id 16 && is_candidate req (states pc_id) then pc_id else 16)
unfolding service_planner_select_protocon_by_id deploy_plan_reset
service_planner_select_protocon_by_id-pc_id region req plan plan' states pc_id h =
    ground (arith, fill_plan-pc_id region req (deploy_plan_reset plan) plan' states pc_id)
