-- ===== src/TransferPlan/Run.antt =====
-- `plan_group`: the runs of a group are taken in order, and each is planned once.
use kvikio.Base.{
  ℕ, zero, suc, ◌+◌, ◌≤◌, ◌<◌, ◌≡◌, refl, sym, ap, inl, inr, true, List, [], ◌∷◌, ◌++◌, length, All,
  All-append_inv, lt→ltb, Bool-cases, add64_exact, sub64_exact, u64_mod, arith, subst,
  length-append,
}
use kvikio.TransferPlan.{
  TransferPlanRequest, TransferPlanOptions, TransferPlan, request_at, end_of, joins, collect_run,
  plan_run, group_loop, plan_group, split_request,
}
use kvikio.TransferPlan.Split.{IsInRange, split_loop-Chunks}
use kvikio.TransferPlan.Merge.{IsInRange-request_at, IsMember, Joined, offset_of, size_of}
use kvikio.TransferPlan.Span.{merge_requests-Planned}
use kvikio.TransferPlan.Serve.{Serves-one, Planned, Planned-nothing, Planned-trans}

module _ (requests : List TransferPlanRequest) (opts : TransferPlanOptions) where
  -- What a candidate that joins satisfies.
  joins_lem :
      (span_begin span_end i : ℕ)
      → IsInRange requests
      → span_begin ≤ span_end
      → span_end < u64_mod
      → joins opts span_begin span_end (request_at requests i) ≡ true
      → (span_end ≤ offset_of requests i)
        × (offset_of requests i + size_of requests i ≤ span_begin + opts.task_size)
  unfolding joins
  joins_lem span_begin span_end i range le lt h =
      let fits = IsInRange-request_at requests i range in
      let e = add64_exact (offset_of requests i) (size_of requests i) fits in
      ground (arith, e, sub64_exact (end_of (request_at requests i)) span_begin)

  collect_run_lem :
      (span_begin span_end : ℕ) (group : List ℕ)
      → IsInRange requests
      → span_begin ≤ span_end
      → span_end < u64_mod
      → Joined requests opts.task_size span_begin span_end
          (collect_run requests opts span_begin span_end group).0
        × ((collect_run requests opts span_begin span_end group).0
              ++ (collect_run requests opts span_begin span_end group).1
            ≡ group)
  unfolding collect_run
  collect_run_lem span_begin span_end [] range le lt = (tt, refl)
  collect_run_lem span_begin span_end (i ∷ group) range le lt =
      let e =
        add64_exact (offset_of requests i) (size_of requests i)
          (IsInRange-request_at requests i range) in
      elim (Bool-cases (joins opts span_begin span_end (request_at requests i))) [
        | inl joined ↦
            let fits = joins_lem span_begin span_end i range le lt joined in
            let rest =
              collect_run_lem span_begin (end_of (request_at requests i)) group range
                (omega (arith, e)) (omega (arith, e, IsInRange-request_at requests i range)) in
            rw joined (
              (
                fits.0,
                fits.1,
                subst
                    (λ n.
                      Joined requests opts.task_size span_begin n
                        (collect_run requests opts span_begin (end_of (request_at requests i))
                          group).0)
                    e rest.0,
              ),
              ap (λ xs. i ∷ xs) rest.1,
            )
        | inr apart ↦ rw apart (tt, refl)
      ]

  split_request-Planned :
      (i : ℕ) (plan : TransferPlan)
      → IsInRange requests
      → 0 < opts.task_size
      → Planned requests opts.task_size (i ∷ []) plan (split_request requests i opts.task_size plan)
  unfolding split_request
  split_request-Planned i plan range pos =
      let chunks =
        split_loop-Chunks (request_at requests i) i opts.task_size (size_of requests i) 0
          (offset_of requests i) plan (IsInRange-request_at requests i range) pos (omega arith)
          (omega arith) (omega arith) in
      record {
        delivered = chunks.delivered;
        emits = chunks.emits;
        serves = Serves-one requests i chunks.delivered chunks.own chunks.tiles;
      }

  module _ (handle cuda_context : ℕ) where
    plan_run-Planned :
        (head : ℕ) (more : List ℕ) (plan : TransferPlan)
        → IsInRange requests
        → 0 < opts.task_size
        → All (IsMember requests handle cuda_context) (head ∷ more)
        → Joined requests opts.task_size
            (offset_of requests head)
            (offset_of requests head + size_of requests head)
            more
        → Planned requests opts.task_size (head ∷ more) plan (plan_run requests opts head more plan)
    unfolding plan_run
    plan_run-Planned head [] plan range pos member joined =
        split_request-Planned head plan range pos
    plan_run-Planned head (i ∷ more) plan range pos member joined =
        rw (lt→ltb 1 (length (head ∷ i ∷ more)) (omega arith))
          (merge_requests-Planned requests opts.task_size head i more plan range member joined)

    group_loop-Planned :
        (fuel : ℕ) (group : List ℕ) (plan : TransferPlan)
        → length group ≤ fuel
        → IsInRange requests
        → 0 < opts.task_size
        → All (IsMember requests handle cuda_context) group
        → Planned requests opts.task_size group plan (group_loop requests opts fuel group plan)
    unfolding group_loop
    group_loop-Planned zero [] plan enough range pos member = Planned-nothing requests _ plan
    group_loop-Planned zero (i ∷ group) plan enough range pos member = absurd (omega arith)
    group_loop-Planned (suc fuel) [] plan enough range pos member = Planned-nothing requests _ plan
    group_loop-Planned (suc fuel) (head ∷ rest) plan enough range pos member =
        let fits = IsInRange-request_at requests head range in
        let e = add64_exact (offset_of requests head) (size_of requests head) fits in
        let first = request_at requests head in
        let run = collect_run requests opts first.file_offset (end_of first) rest in
        let lem =
          collect_run_lem first.file_offset (end_of first) rest range (omega (arith, e))
            (omega (arith, e)) in
        let members =
          All-append_inv (IsMember requests handle cuda_context) run.0 run.1
            (subst (All (IsMember requests handle cuda_context)) (sym lem.1) member.1) in
        subst
          (λ order.
            Planned requests opts.task_size order plan
              (group_loop requests opts (suc fuel) (head ∷ rest) plan))
          (ap (λ xs. head ∷ xs) lem.1)
          (Planned-trans requests
            (plan_run-Planned head run.0 plan range pos (member.0, members.0)
              (subst (λ n. Joined requests opts.task_size first.file_offset n run.0) e lem.0))
            (group_loop-Planned fuel run.1 (plan_run requests opts head run.0 plan)
              (omega (arith, length-append run.0 run.1, ap length lem.1)) range pos members.1))

    -- The whole group is planned, each of its requests once.
    pub plan_group-Planned :
        (group : List ℕ) (plan : TransferPlan)
        → IsInRange requests
        → 0 < opts.task_size
        → All (IsMember requests handle cuda_context) group
        → Planned requests opts.task_size group plan (plan_group requests opts group plan)
    unfolding plan_group
    plan_group-Planned group plan range pos member =
        group_loop-Planned (length group) group plan (omega arith) range pos member
