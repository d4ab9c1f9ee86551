-- ===== src/TransferPlan.antt =====
-- cpp/include/kvikio/detail/transfer_plan.hpp and cpp/src/detail/transfer_plan.cpp: requests are
-- grouped by handle and context, sorted by file offset, merged or split, and written to one plan.
-- Pointers are numbers, null is 0. Offsets and sizes are 64-bit words.
pub mod Delivery
pub mod Emission
pub mod Split
pub mod Serve
pub mod Merge
pub mod Span
pub mod Run
pub mod Build
use kvikio.Base.{
  ℕ, zero, suc, ◌+◌, ◌-◌, min, Bool, true, false, ◌&&◌, Option, none, some, List, [], ◌∷◌, ◌++◌,
  length, get_or, replicate, modify, ltb, ◌==◌, if◌then◌else◌, not, add64, sub64, Result, ok, Error,
  invalid_argument, expect, ◌>>◌, ◌>>=◌, arith,
}

pub record TransferPlanRequest : Type 0 where
  pub handle : ℕ
  pub cuda_context : ℕ
  pub buf : ℕ
  pub file_offset : ℕ
  pub size : ℕ

pub record TransferPlanOptions : Type 0 where
  pub task_size : ℕ
  pub coalesce_max_gap : Option ℕ

pub record TransferSegment : Type 0 where
  pub span_offset : ℕ
  pub length : ℕ
  pub buf : ℕ
  pub request_index : ℕ

pub record PlannedTransfer : Type 0 where
  pub handle : ℕ
  pub cuda_context : ℕ
  pub file_offset : ℕ
  pub size : ℕ
  pub segment_begin : ℕ
  pub segment_end : ℕ

pub record TransferPlan : Type 0 where
  pub transfers : List PlannedTransfer
  pub segments : List TransferSegment
  pub transfers_per_request : List ℕ
  pub overread_bytes : ℕ

-- `TransferPlanRequest{}`.
abbrev pub null_request : TransferPlanRequest
null_request = record { handle = 0; cuda_context = 0; buf = 0; file_offset = 0; size = 0 }

-- `requests[i]`. No index out of range is ever read.
abbrev pub request_at : List TransferPlanRequest → ℕ → TransferPlanRequest
request_at requests i = get_or requests i null_request

-- `file_offset + size`.
abbrev pub end_of : TransferPlanRequest → ℕ
end_of r = add64 r.file_offset r.size

-- `++plan.transfers_per_request[i]`.
abbrev pub count_transfer : ℕ → TransferPlan → List ℕ
count_transfer i plan = modify plan.transfers_per_request i (λ n. add64 n 1)

-- What `merge_requests` pushes for request `i`.
abbrev pub merged_segment : List TransferPlanRequest → ℕ → ℕ → TransferSegment
merged_segment requests span_begin i = record {
  span_offset = sub64 (request_at requests i).file_offset span_begin;
  length = (request_at requests i).size;
  buf = (request_at requests i).buf;
  request_index = i;
}

-- The loop body of `merge_requests`, without `wanted_bytes`.
pub add_segment : List TransferPlanRequest → ℕ → ℕ → TransferPlan → TransferPlan
add_segment requests span_begin i plan = record plan {
  segments = plan.segments ++ merged_segment requests span_begin i ∷ [];
  transfers_per_request = count_transfer i plan;
}

-- The loop of `merge_requests`: the plan with the run's segments, and `wanted_bytes`.
pub merge_loop : List TransferPlanRequest → ℕ → List ℕ → TransferPlan → ℕ → TransferPlan × ℕ
unfolding add_segment
merge_loop requests span_begin [] plan wanted_bytes = (plan, wanted_bytes)
merge_loop requests span_begin (i ∷ run) plan wanted_bytes =
    merge_loop requests span_begin run (add_segment requests span_begin i plan)
      (add64 wanted_bytes (request_at requests i).size)

-- `run_indices.back()` of a run that starts with `first`.
abbrev pub back : ℕ → List ℕ → ℕ
back first [] = first
back first (i ∷ run) = back i run

-- What `merge_requests` pushes for a span from `begin` to `end`, with its slice of segments.
abbrev pub merged_transfer : TransferPlanRequest → ℕ → ℕ → ℕ → PlannedTransfer
merged_transfer first span_end segment_begin segment_end = record {
  handle = first.handle;
  cuda_context = first.cuda_context;
  file_offset = first.file_offset;
  size = sub64 span_end first.file_offset;
  segment_begin = segment_begin;
  segment_end = segment_end;
}

-- The run is `head ∷ more`.
pub merge_requests : List TransferPlanRequest → ℕ → List ℕ → TransferPlan → TransferPlan
unfolding merge_loop
merge_requests requests head more plan =
    let first = request_at requests head in
    let span_end = end_of (request_at requests (back head more)) in
    let filled = merge_loop requests first.file_offset (head ∷ more) plan 0 in
    record filled.0 {
      transfers =
          filled.0.transfers
          ++ merged_transfer first span_end (length plan.segments) (length filled.0.segments) ∷ [];
      overread_bytes =
          add64 filled.0.overread_bytes (sub64 (sub64 span_end first.file_offset) filled.1);
    }

-- What `split_request` pushes for one chunk.
abbrev pub chunk_segment : TransferPlanRequest → ℕ → ℕ → ℕ → TransferSegment
chunk_segment request i chunk_begin chunk_size = record {
  span_offset = 0;
  length = chunk_size;
  buf = request.buf + sub64 chunk_begin request.file_offset;
  request_index = i;
}

abbrev pub chunk_transfer : TransferPlanRequest → ℕ → ℕ → ℕ → PlannedTransfer
chunk_transfer request chunk_begin chunk_size segment_begin = record {
  handle = request.handle;
  cuda_context = request.cuda_context;
  file_offset = chunk_begin;
  size = chunk_size;
  segment_begin = segment_begin;
  segment_end = segment_begin + 1;
}

-- The loop body of `split_request`, without the step of `chunk_begin`.
emit_chunk : TransferPlanRequest → ℕ → ℕ → ℕ → TransferPlan → TransferPlan
emit_chunk request i chunk_begin chunk_size plan = record plan {
  segments = plan.segments ++ chunk_segment request i chunk_begin chunk_size ∷ [];
  transfers =
      plan.transfers ++ chunk_transfer request chunk_begin chunk_size (length plan.segments) ∷ [];
  transfers_per_request = count_transfer i plan;
}

-- The loop of `split_request` on fuel. A chunk is not empty, so `size` rounds are enough.
pub split_loop : TransferPlanRequest → ℕ → ℕ → ℕ → ℕ → TransferPlan → TransferPlan
unfolding emit_chunk
split_loop request i task_size zero chunk_begin plan = plan
split_loop request i task_size (suc fuel) chunk_begin plan =
    let chunk_size = min (sub64 (end_of request) chunk_begin) task_size in
    let rest =
      split_loop request i task_size fuel (add64 chunk_begin chunk_size)
        (emit_chunk request i chunk_begin chunk_size plan) in
    if ltb chunk_begin (end_of request) then rest else plan

pub split_request : List TransferPlanRequest → ℕ → ℕ → TransferPlan → TransferPlan
unfolding split_loop
split_request requests i task_size plan =
    let request = request_at requests i in
    split_loop request i task_size request.size request.file_offset plan

-- The three tests of the inner loop of `plan_group`: whether `candidate` joins the span.
pub joins : TransferPlanOptions → ℕ → ℕ → TransferPlanRequest → Bool
joins opts span_begin span_end candidate = elim opts.coalesce_max_gap [
  | none ↦ false
  | some gap ↦
      not (ltb candidate.file_offset span_end)
      && not (ltb gap (sub64 candidate.file_offset span_end))
      && not (ltb opts.task_size (sub64 (end_of candidate) span_begin))
]

-- The inner loop of `plan_group`: what joins the run, and what is left of the group.
pub collect_run : List TransferPlanRequest → TransferPlanOptions → ℕ → ℕ → List ℕ → List ℕ × List ℕ
unfolding joins
collect_run requests opts span_begin span_end [] = ([], [])
collect_run requests opts span_begin span_end (i ∷ rest) =
    let joined = collect_run requests opts span_begin (end_of (request_at requests i)) rest in
    if joins opts span_begin span_end (request_at requests i)
    then (i ∷ joined.0, joined.1)
    else ([], i ∷ rest)

-- A run of one request is split, a longer one is merged.
pub plan_run :
    List TransferPlanRequest → TransferPlanOptions → ℕ → List ℕ → TransferPlan → TransferPlan
unfolding merge_requests split_request
plan_run requests opts head more plan =
    if ltb 1 (length (head ∷ more))
    then merge_requests requests head more plan
    else split_request requests head opts.task_size plan

-- The outer loop of `plan_group` on fuel. A run is not empty, so the group's length is enough.
pub group_loop :
    List TransferPlanRequest → TransferPlanOptions → ℕ → List ℕ → TransferPlan → TransferPlan
unfolding collect_run plan_run
group_loop requests opts zero group plan = plan
group_loop requests opts (suc fuel) [] plan = plan
group_loop requests opts (suc fuel) (head ∷ rest) plan =
    let first = request_at requests head in
    let run = collect_run requests opts first.file_offset (end_of first) rest in
    group_loop requests opts fuel run.1 (plan_run requests opts head run.0 plan)

pub plan_group :
    List TransferPlanRequest → TransferPlanOptions → List ℕ → TransferPlan → TransferPlan
unfolding group_loop
plan_group requests opts group plan = group_loop requests opts (length group) group plan
