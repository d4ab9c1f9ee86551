-- ===== src/TransferPlan/Build.antt =====
-- cpp/src/detail/transfer_plan.cpp: `build_transfer_plan` and its grouping and sorting.
pub mod Sort
pub mod Slots
pub mod Group
pub mod Correct
pub mod Examples
use kvikio.Base.{
  ℕ, suc, Bool, true, ◌&&◌, Option, none, some, List, [], ◌∷◌, ◌++◌, length, replicate, modify, ltb,
  ◌==◌, if◌then◌else◌, not, Result, ok, invalid_argument, expect, ◌>>◌,
}
use kvikio.TransferPlan.{
  TransferPlanRequest, TransferPlanOptions, TransferPlan, request_at, plan_group,
}

pub record GroupKey : Type 0 where
  pub handle : ℕ
  pub cuda_context : ℕ

abbrev pub key_of : TransferPlanRequest → GroupKey
key_of r = record { handle = r.handle; cuda_context = r.cuda_context }

abbrev pub key_eq : GroupKey → GroupKey → Bool
key_eq a b = a.handle == b.handle && a.cuda_context == b.cuda_context

-- `group_slot` as an association list, and `groups`.
pub record Groups : Type 0 where
  pub group_slot : List (GroupKey × ℕ)
  pub groups : List (List ℕ)

pub find_slot : GroupKey → List (GroupKey × ℕ) → Option ℕ
find_slot key [] = none
find_slot key ((k, slot) ∷ slots) = if key_eq k key then some slot else find_slot key slots

-- `group_slot.try_emplace(key, groups.size())`, and `groups.emplace_back()` if it inserted.
pub try_emplace : GroupKey → Groups → Groups × ℕ
unfolding find_slot
try_emplace key g = elim (find_slot key g.group_slot) [
  | some slot ↦ (g, slot)
  | none ↦ (
    record { group_slot = (key, length g.groups) ∷ g.group_slot; groups = g.groups ++ [] ∷ [] },
    length g.groups,
  )
]

-- One round of the grouping loop. An empty request is in no group.
pub add_request : ℕ → TransferPlanRequest → Groups → Groups
unfolding try_emplace
add_request i request g =
    if request.size == 0
    then g
    else let emplaced = try_emplace (key_of request) g in
      record emplaced.0 { groups = modify emplaced.0.groups emplaced.1 (λ group. group ++ i ∷ []) }

pub group_from : ℕ → List TransferPlanRequest → Groups → Groups
unfolding add_request
group_from i [] g = g
group_from i (request ∷ requests) g = group_from (suc i) requests (add_request i request g)

pub group_requests : List TransferPlanRequest → List (List ℕ)
unfolding group_from
group_requests requests = (group_from 0 requests (record { group_slot = []; groups = [] })).groups

-- The comparison `by_file_offset`. It is a strict total order on indices.
pub by_file_offset : List TransferPlanRequest → ℕ → ℕ → Bool
by_file_offset requests a b =
    let x = (request_at requests a).file_offset in
    let y = (request_at requests b).file_offset in if x == y then ltb a b else ltb x y

-- `std::is_sorted`: no element comes before its predecessor.
pub is_sorted : (ℕ → ℕ → Bool) → List ℕ → Bool
is_sorted before [] = true
is_sorted before (a ∷ []) = true
is_sorted before (a ∷ b ∷ rest) = not (before b a) && is_sorted before (b ∷ rest)

pub insert : (ℕ → ℕ → Bool) → ℕ → List ℕ → List ℕ
insert before a [] = a ∷ []
insert before a (b ∷ rest) = if before a b then a ∷ b ∷ rest else b ∷ insert before a rest

-- `std::sort`. Under a strict total order every sort of a list gives the same list.
pub sort : (ℕ → ℕ → Bool) → List ℕ → List ℕ
unfolding insert
sort before [] = []
sort before (a ∷ rest) = insert before a (sort before rest)

pub sort_group : List TransferPlanRequest → List ℕ → List ℕ
unfolding is_sorted sort by_file_offset
sort_group requests group =
    if is_sorted (by_file_offset requests) group
    then group
    else sort (by_file_offset requests) group

pub plan_groups :
    List TransferPlanRequest → TransferPlanOptions → List (List ℕ) → TransferPlan → TransferPlan
unfolding sort_group plan_group
plan_groups requests opts [] plan = plan
plan_groups requests opts (group ∷ groups) plan =
    plan_groups requests opts groups (plan_group requests opts (sort_group requests group) plan)

-- `TransferPlan plan; plan.transfers_per_request.assign(n, 0)`.
abbrev pub empty_plan : ℕ → TransferPlan
empty_plan n = record {
  transfers = [];
  segments = [];
  transfers_per_request = replicate n 0;
  overread_bytes = 0;
}

unfoldable pub build_transfer_plan :
    List TransferPlanRequest → TransferPlanOptions → Result TransferPlan
unfolding plan_groups group_requests
build_transfer_plan requests opts = do
  expect (ltb 0 opts.task_size) invalid_argument
  ok (plan_groups requests opts (group_requests requests) (empty_plan (length requests)))
