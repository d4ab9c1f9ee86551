-- ===== src/TransferPlan/Merge.antt =====
-- The loop of `merge_requests`: what it pushes, and `wanted_bytes`.
use kvikio.Base.{
  ℕ, zero, suc, ◌+◌, ◌≤◌, ◌<◌, ◌%◌, ◌≡◌, refl, sym, ◌∙◌, List, [], ◌∷◌, ◌++◌, map, append_assoc,
  append-nil, length, count, length-modify, add64, u64_mod, arith,
}
use kvikio.TransferPlan.{
  TransferPlanRequest, TransferPlan, request_at, merged_segment, add_segment, merge_loop,
}
use kvikio.TransferPlan.Emission.{transfers_for}
use kvikio.TransferPlan.Split.{IsInRange, count_transfer_lem}

pub IsInRange-request_at :
    (requests : List TransferPlanRequest) (i : ℕ)
    → IsInRange requests
    → (request_at requests i).file_offset + (request_at requests i).size < u64_mod
IsInRange-request_at [] i h = omega arith
IsInRange-request_at (r ∷ rs) zero h = h.0
IsInRange-request_at (r ∷ rs) (suc i) h = IsInRange-request_at rs i h.1

module _ (requests : List TransferPlanRequest) where
  abbrev pub offset_of : ℕ → ℕ
  offset_of i = (request_at requests i).file_offset

  abbrev pub size_of : ℕ → ℕ
  size_of i = (request_at requests i).size

  -- A request of the group of `handle` and `cuda_context`. Empty requests are in no group.
  abbrev pub IsMember : ℕ → ℕ → ℕ → Type 0
  IsMember handle cuda_context i =
      ((request_at requests i).handle ≡ handle)
      × ((request_at requests i).cuda_context ≡ cuda_context)
      × (0 < size_of i)

  -- The requests follow `span_end` in order, and the span stays within a task.
  abbrev pub Joined : ℕ → ℕ → ℕ → List ℕ → Type 0
  Joined task_size span_begin span_end [] = Unit
  Joined task_size span_begin span_end (i ∷ run) =
      (span_end ≤ offset_of i)
      × (offset_of i + size_of i ≤ span_begin + task_size)
      × Joined task_size span_begin (offset_of i + size_of i) run

  abbrev pub last_end : ℕ → List ℕ → ℕ
  last_end span_end [] = span_end
  last_end span_end (i ∷ run) = last_end (offset_of i + size_of i) run

  abbrev pub total_request : List ℕ → ℕ
  total_request [] = 0
  total_request (i ∷ run) = size_of i + total_request run

  -- What the loop leaves, in terms of the run.
  pub record Filled (span_begin : ℕ) (run : List ℕ) (p q : TransferPlan) : Type 0 where
    pub same_transfers : q.transfers ≡ p.transfers
    pub filled : q.segments ≡ p.segments ++ map (merged_segment requests span_begin) run
    pub same_overread : q.overread_bytes ≡ p.overread_bytes
    pub same_requests : length q.transfers_per_request ≡ length p.transfers_per_request
    pub counted :
        (i : ℕ)
        → i < length p.transfers_per_request
        → transfers_for i q % u64_mod ≡ (transfers_for i p + count i run) % u64_mod

  pub merge_loop-Filled :
      (span_begin : ℕ) (run : List ℕ) (plan : TransferPlan) (wanted : ℕ)
      → Filled span_begin run plan (merge_loop requests span_begin run plan wanted).0
  unfolding merge_loop add_segment
  merge_loop-Filled span_begin [] plan wanted = record {
    same_transfers = refl;
    filled = sym (append-nil plan.segments);
    same_overread = refl;
    same_requests = refl;
    counted = λ i h. omega arith;
  }
  merge_loop-Filled span_begin (j ∷ run) plan wanted =
      let next = add_segment requests span_begin j plan in
      let grown = length-modify plan.transfers_per_request j (λ n. add64 n 1) in
      let rest = merge_loop-Filled span_begin run next (add64 wanted (size_of j)) in
      record {
        same_transfers = rest.same_transfers;
        filled =
            rest.filled
            ∙ append_assoc plan.segments (merged_segment requests span_begin j ∷ [])
                (map (merged_segment requests span_begin) run);
        same_overread = rest.same_overread;
        same_requests = rest.same_requests ∙ grown;
        counted = λ i h.
            omega (arith, rest.counted i (omega (arith, grown)), count_transfer_lem j i plan h);
      }

  pub merge_loop_wanted :
      (span_begin : ℕ) (run : List ℕ) (plan : TransferPlan) (wanted : ℕ)
      → wanted < u64_mod
      → ((merge_loop requests span_begin run plan wanted).1 < u64_mod)
        × ((merge_loop requests span_begin run plan wanted).1 % u64_mod
            ≡ (wanted + total_request run) % u64_mod)
  unfolding merge_loop add64
  merge_loop_wanted span_begin [] plan wanted h = (h, omega arith)
  merge_loop_wanted span_begin (j ∷ run) plan wanted h =
      let rest =
        merge_loop_wanted span_begin run (add_segment requests span_begin j plan)
          (add64 wanted (size_of j)) (omega arith) in
      (rest.0, omega (arith, rest.1))
