-- ===== src/TransferPlan/Span.antt =====
-- The span of a run that joins, and the transfer that `merge_requests` emits for it.
use kvikio.Base.{
  ℕ, ◌+◌, ◌≤◌, ◌<◌, ◌%◌, ◌≡◌, refl, sym, ap, ◌∙◌, inl, inr, List, [], ◌∷◌, ◌++◌, map, length, All,
  count, ◌==◌, Bool-cases, ==→eq, length-append, subst, add64, sub64, add64_exact, sub64_exact,
  add64-lt, u64_mod, arith,
}
use kvikio.TransferPlan.{
  TransferPlanRequest, TransferPlan, request_at, end_of, back, merged_segment, merged_transfer,
  merge_loop, merge_requests, PlannedTransfer,
}
use kvikio.TransferPlan.Delivery.{Delivery, deliver, Tiles, copied}
use kvikio.TransferPlan.Emission.{Emission, start, emit, total_length}
use kvikio.TransferPlan.Merge.{
  IsInRange-request_at, offset_of, size_of, IsMember, Joined, last_end, total_request, Filled,
  merge_loop-Filled, merge_loop_wanted,
}
use kvikio.TransferPlan.Split.{IsInRange}
use kvikio.TransferPlan.Serve.{Serves, Planned}

-- The gaps of a span are what `overread_bytes` grows by.
overread_lem :
    (o size wanted total : ℕ)
    → wanted < u64_mod
    → wanted % u64_mod ≡ total % u64_mod
    → (add64 o (sub64 size wanted) + total) % u64_mod ≡ (o + size) % u64_mod
unfolding add64 sub64
overread_lem o size wanted total h e = omega arith

module _ (requests : List TransferPlanRequest) where
  back-last_end :
      (head : ℕ) (more : List ℕ)
      → IsInRange requests
      → end_of (request_at requests (back head more))
        ≡ last_end requests (offset_of requests head + size_of requests head) more
  back-last_end head [] range =
      add64_exact (offset_of requests head) (size_of requests head)
        (IsInRange-request_at requests head range)
  back-last_end head (i ∷ more) range = back-last_end i more range

  module _ (t : PlannedTransfer) where
    merged : List ℕ → List Delivery
    merged run = map (deliver t) (map (merged_segment requests t.file_offset) run)

    merged-total : (run : List ℕ) → total_length (merged run) ≡ total_request requests run
    unfolding merged
    merged-total [] = refl
    merged-total (i ∷ run) = omega (arith, merged-total run)

    merged-count : (i : ℕ) (run : List ℕ) → length (copied i (merged run)) ≡ count i run
    unfolding merged
    merged-count i [] = refl
    merged-count i (j ∷ run) = ground (arith, merged-count i run)

    -- Every request of the run lies in the span.
    abbrev Within : ℕ → Type 0
    Within i =
        (t.file_offset ≤ offset_of requests i)
        × (offset_of requests i + size_of requests i ≤ t.file_offset + t.size)

    merged-Serves :
        (run : List ℕ)
        → IsInRange requests
        → All (IsMember requests t.handle t.cuda_context) run
        → All Within run
        → Serves requests run (merged run)
    unfolding merged
    merged-Serves [] range member within i = (λ h. refl, λ h. absurd (omega arith))
    merged-Serves (j ∷ run) range member within i =
        let rest = merged-Serves run range member.1 within.1 i in
        let fits = IsInRange-request_at requests j range in
        let place = sub64_exact (offset_of requests j) t.file_offset (omega arith) within.0.0 in
        elim (Bool-cases (j == i)) [
          | inl same ↦ (
            λ h. absurd (ground arith),
            λ h.
                let alone : copied i (merged (j ∷ run))
                    ≡ deliver t (merged_segment requests t.file_offset j) ∷ [] =
                  ground (arith, rest.0) in
                subst (λ k. Tiles (request_at requests k) 0 (copied i (merged (j ∷ run))))
                  (==→eq j i same)
                  (subst (Tiles (request_at requests j) 0) (sym alone) (
                    sym member.0.0,
                    sym member.0.1,
                    omega (arith, place),
                    omega arith,
                    member.0.2,
                    omega arith,
                    omega (arith, place),
                    omega arith,
                  )),
          )
          | inr differ ↦ (
            λ h. ground (arith, rest.0),
            λ h.
                let skipped : copied i (merged run) ≡ copied i (merged (j ∷ run)) = ground arith in
                subst (Tiles (request_at requests i) 0) skipped (rest.1 (ground arith)),
          )
        ]

  Joined-Within :
      (task_size span_begin span_end : ℕ) (run : List ℕ)
      → span_begin ≤ span_end
      → span_end ≤ span_begin + task_size
      → Joined requests task_size span_begin span_end run
      → (span_end ≤ last_end requests span_end run)
        × (last_end requests span_end run ≤ span_begin + task_size)
        × All
            (λ i.
              (span_begin ≤ offset_of requests i)
              × (offset_of requests i + size_of requests i ≤ last_end requests span_end run))
            run
  Joined-Within task_size span_begin span_end [] h k joined = (omega arith, omega arith, tt)
  Joined-Within task_size span_begin span_end (i ∷ run) h k joined =
      let rest =
        Joined-Within task_size span_begin (offset_of requests i + size_of requests i) run
          (omega arith) (omega arith) joined.2 in
      (omega (arith, rest.0), rest.1, ((omega arith, rest.0), rest.2))

  -- A run of at least two requests that join makes one transfer, which serves them all.
  pub merge_requests-Planned :
      (task_size head i : ℕ) (more : List ℕ) (plan : TransferPlan) {handle cuda_context : ℕ}
      → IsInRange requests
      → All (IsMember requests handle cuda_context) (head ∷ i ∷ more)
      → Joined requests task_size
          (offset_of requests head)
          (offset_of requests head + size_of requests head)
          (i ∷ more)
      → Planned requests task_size
          (head ∷ i ∷ more)
          plan
          (merge_requests requests head (i ∷ more) plan)
  unfolding merge_requests merged
  merge_requests-Planned task_size head i more plan range member joined = record {
    delivered = merged t run;
    emits = emit t (map (merged_segment requests begin) run) start emission refl;
    serves =
        merged-Serves t run range (ground (arith, member))
          ((omega arith, omega (arith, within.0, sized)), in_span);
  }
    where
      run : List ℕ
      run = head ∷ i ∷ more

      begin : ℕ
      begin = offset_of requests head

      filled : TransferPlan
      filled = (merge_loop requests begin run plan 0).0

      t : PlannedTransfer
      t =
          merged_transfer (request_at requests head) (end_of (request_at requests (back i more)))
            (length plan.segments) (length filled.segments)

      fill : Filled requests begin run plan filled
      fill = merge_loop-Filled requests begin run plan 0

      within :
          (begin + size_of requests head
            ≤ last_end requests (offset_of requests i + size_of requests i) more)
          × (last_end requests (offset_of requests i + size_of requests i) more ≤ begin + task_size)
          × All
              (λ j.
                (begin ≤ offset_of requests j)
                × (offset_of requests j + size_of requests j
                    ≤ last_end requests (offset_of requests i + size_of requests i) more))
              (i ∷ more)
      within =
          Joined-Within task_size begin (begin + size_of requests head) (i ∷ more) (omega arith)
            (omega arith) joined

      ends :
          end_of (request_at requests (back i more))
          ≡ last_end requests (offset_of requests i + size_of requests i) more
      ends = back-last_end i more range

      sized : t.size + begin ≡ last_end requests (offset_of requests i + size_of requests i) more
      sized = omega (
        arith,
        ends,
        within.0,
        sub64_exact (end_of (request_at requests (back i more))) begin (add64-lt _ _)
            (omega (arith, ends, within.0)),
      )

      in_span : All (Within t) (i ∷ more)
      in_span =
          subst
            (λ e.
              All
                (λ j.
                  (begin ≤ offset_of requests j) × (offset_of requests j + size_of requests j ≤ e))
                (i ∷ more))
            (omega (arith, sized)) within.2

      wanted :
          ((merge_loop requests begin run plan 0).1 < u64_mod)
          × ((merge_loop requests begin run plan 0).1 % u64_mod
              ≡ total_request requests run % u64_mod)
      wanted = ground (arith, merge_loop_wanted requests begin run plan 0 (omega arith))

      overread :
          ((merge_requests requests head (i ∷ more) plan).overread_bytes
              + total_length (merged t run))
            % u64_mod
          ≡ (plan.overread_bytes + t.size) % u64_mod
      overread =
          ap (λ l. ((merge_requests requests head (i ∷ more) plan).overread_bytes + l) % u64_mod)
            (merged-total t run)
          ∙ ap
              (λ o.
                (add64 o (sub64 t.size (merge_loop requests begin run plan 0).1)
                  + total_request requests run)
                % u64_mod)
              fill.same_overread
          ∙ overread_lem plan.overread_bytes t.size (merge_loop requests begin run plan 0).1
              (total_request requests run) wanted.0 wanted.1

      emission :
          Emission task_size plan
            (merge_requests requests head (i ∷ more) plan)
            t
            (map (merged_segment requests begin) run)
      emission = record {
        transfers_snoc = ap (λ ts. ts ++ t ∷ []) fill.same_transfers;
        segments_append = fill.filled;
        from_end = refl;
        to_end =
            ap length fill.filled
            ∙ length-append plan.segments (map (merged_segment requests begin) run);
        owns = omega arith;
        sized = (omega (arith, within.0, sized), omega (arith, within.1, sized));
        same_requests = fill.same_requests;
        counted = λ j h. omega (arith, fill.counted j h, merged-count t j run);
        overread = overread;
      }
