-- ===== src/TransferPlan/Build/Examples.antt =====
-- The example drawn in cpp/include/kvikio/detail/transfer_plan.hpp, and the theorems at it.
use kvikio.Base.{
  ℕ, ◌%◌, ◌+◌, ◌≡◌, refl, List, [], ◌∷◌, some, length, ok, All, u64_mod, add64, sub64, arith,
}
use kvikio.TransferPlan.{
  TransferPlanRequest, TransferPlanOptions, TransferPlan, TransferSegment, PlannedTransfer,
  request_at,
}
use kvikio.TransferPlan.Delivery.{deliveries, copied, Tiles, IsChained}
use kvikio.TransferPlan.Emission.{IsSized, total_size, total_length, transfers_for}
use kvikio.TransferPlan.Build.{build_transfer_plan}
use kvikio.TransferPlan.Build.Correct.{build-Tiles, build_shape, build_overread, build_counted}

abbrev request : ℕ → ℕ → ℕ → TransferPlanRequest
request buf file_offset size = record {
  handle = 7;
  cuda_context = 0;
  buf = buf;
  file_offset = file_offset;
  size = size;
}

abbrev drawn : List TransferPlanRequest
drawn = request 1000 0 20 ∷ request 2000 25 20 ∷ request 3000 70 15 ∷ request 4000 85 100 ∷ []

abbrev drawn_options : TransferPlanOptions
drawn_options = record { task_size = 60; coalesce_max_gap = some 10 }

abbrev piece : ℕ → ℕ → ℕ → ℕ → TransferSegment
piece span_offset length buf i = record {
  span_offset = span_offset;
  length = length;
  buf = buf;
  request_index = i;
}

abbrev transfer : ℕ → ℕ → ℕ → ℕ → PlannedTransfer
transfer file_offset size begin end = record {
  handle = 7;
  cuda_context = 0;
  file_offset = file_offset;
  size = size;
  segment_begin = begin;
  segment_end = end;
}

abbrev drawn_plan : TransferPlan
drawn_plan = record {
  transfers =
      transfer 0 45 0 2 ∷ transfer 70 15 2 3 ∷ transfer 85 60 3 4 ∷ transfer 145 40 4 5 ∷ [];
  segments =
      piece 0 20 1000 0
      ∷ piece 25 20 2000 1
      ∷ piece 0 15 3000 2
      ∷ piece 0 60 4000 3
      ∷ piece 0 40 4060 3
      ∷ [];
  transfers_per_request = 1 ∷ 1 ∷ 1 ∷ 2 ∷ [];
  overread_bytes = 5;
}

drawn_result : build_transfer_plan drawn drawn_options ≡ ok drawn_plan
unfolding build_transfer_plan add64 sub64
drawn_result = refl

build-Tiles_example : Tiles (request_at drawn 3) 0 (copied 3 (deliveries drawn_plan))
build-Tiles_example = build-Tiles drawn drawn_options drawn_plan drawn_result (omega arith) 3

build_shape_example : IsChained drawn_plan × All (IsSized 60) drawn_plan.transfers
build_shape_example = build_shape drawn drawn_options drawn_plan drawn_result (omega arith)

build_overread_example :
    (5 + total_length (deliveries drawn_plan)) % u64_mod ≡ total_size drawn_plan.transfers % u64_mod
build_overread_example = build_overread drawn drawn_options drawn_plan drawn_result (omega arith)

build_counted_example :
    (length drawn_plan.transfers_per_request ≡ 4)
    × (transfers_for 3 drawn_plan % u64_mod ≡ length (copied 3 (deliveries drawn_plan)) % u64_mod)
build_counted_example =
    build_counted drawn drawn_options drawn_plan drawn_result (omega arith) 3 (omega arith)
