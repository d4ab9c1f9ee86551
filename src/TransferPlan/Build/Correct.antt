-- ===== src/TransferPlan/Build/Correct.antt =====
-- `build_transfer_plan` as a whole.
use kvikio.Base.{
  ℕ, ◌+◌, ◌<◌, ◌%◌, ◌≡◌, refl, sym, ◌∙◌, inl, inr, List, [], ◌∷◌, ◌++◌, length, All, count,
  count-append, ◌==◌, ◌↔◌, length-replicate, get_or-replicate, Bool-cases, ==→eq, subst, u64_mod,
  ok, err, invalid_argument, arith,
}
use kvikio.TransferPlan.{
  TransferPlanRequest, TransferPlanOptions, TransferPlan, request_at, plan_group,
}
use kvikio.TransferPlan.Delivery.{deliveries, copied, Tiles, IsChained}
use kvikio.TransferPlan.Emission.{
  Emits-IsChained, Emits-IsSized, Emits-total, Emits-counted, IsSized, total_size, total_length,
  transfers_for,
}
use kvikio.TransferPlan.Split.{IsInRange}
use kvikio.TransferPlan.Merge.{IsMember, size_of}
use kvikio.TransferPlan.Serve.{Planned, Planned-nothing, Planned-trans}
use kvikio.TransferPlan.Run.{plan_group-Planned}
use kvikio.TransferPlan.Build.{
  GroupKey, sort_group, plan_groups, group_requests, empty_plan, build_transfer_plan,
}
use kvikio.TransferPlan.Build.Sort.{count-sort_group, All-sort_group}
use kvikio.TransferPlan.Build.Slots.{Keyed}
use kvikio.TransferPlan.Build.Group.{concat, group_requests_lem}

module _ (requests : List TransferPlanRequest) (opts : TransferPlanOptions) where
  -- The order in which the requests are planned.
  abbrev planned_order : List (List ℕ) → List ℕ
  planned_order [] = []
  planned_order (group ∷ groups) = sort_group requests group ++ planned_order groups

  count-planned_order :
      (i : ℕ) (groups : List (List ℕ)) → count i (planned_order groups) ≡ count i (concat groups)
  count-planned_order i [] = refl
  count-planned_order i (group ∷ groups) = omega (
    arith,
    count-append i (sort_group requests group) (planned_order groups),
    count-append i group (concat groups),
    count-sort_group requests i group,
    count-planned_order i groups,
  )

  plan_groups-Planned :
      (keys : List GroupKey) (groups : List (List ℕ)) (plan : TransferPlan)
      → IsInRange requests
      → 0 < opts.task_size
      → Keyed requests keys groups
      → Planned requests opts.task_size
          (planned_order groups)
          plan
          (plan_groups requests opts groups plan)
  unfolding plan_groups
  plan_groups-Planned [] [] plan range pos keyed = Planned-nothing requests opts.task_size plan
  plan_groups-Planned [] (group ∷ groups) plan range pos keyed = absurd keyed
  plan_groups-Planned (key ∷ keys) [] plan range pos keyed = absurd keyed
  plan_groups-Planned (key ∷ keys) (group ∷ groups) plan range pos keyed =
      Planned-trans requests
        (plan_group-Planned requests opts key.handle key.cuda_context (sort_group requests group)
          plan range pos
          (All-sort_group requests (IsMember requests key.handle key.cuda_context) group keyed.0))
        (plan_groups-Planned keys groups (plan_group requests opts (sort_group requests group) plan)
          range pos keyed.1)

  module _ (plan : TransferPlan) (built : build_transfer_plan requests opts ≡ ok plan) where
    positive : 0 < opts.task_size
    unfolding build_transfer_plan
    positive = ground arith

    result :
        plan_groups requests opts (group_requests requests) (empty_plan (length requests)) ≡ plan
    unfolding build_transfer_plan
    result = ground arith

    planned :
        IsInRange requests
        → Planned requests opts.task_size
            (planned_order (group_requests requests))
            (empty_plan (length requests))
            plan
    planned range =
        let (keys, keyed, counts) = group_requests_lem requests in
        subst
          (Planned requests opts.task_size (planned_order (group_requests requests))
            (empty_plan (length requests)))
          result
          (plan_groups-Planned keys (group_requests requests) (empty_plan (length requests)) range
            positive keyed)

    all_delivered : (range : IsInRange requests) → deliveries plan ≡ (planned range).delivered
    unfolding deliveries
    all_delivered range = (Emits-IsChained (planned range).emits refl).1

    -- Every request of an in-range batch is delivered in full: the copies that the plan makes for it
    -- are its bytes, in order, without gap or repetition, from its own file to their own place in
    -- its buffer, each out of the span that its transfer fetches for the request's context.
    pub build-Tiles :
        IsInRange requests → (i : ℕ) → Tiles (request_at requests i) 0 (copied i (deliveries plan))
    build-Tiles range i =
        let (keys, keyed, counts) = group_requests_lem requests in
        let once = count-planned_order i (group_requests requests) ∙ counts i in
        rw (all_delivered range) (elim (Bool-cases (size_of requests i == 0)) [
          | inl empty ↦
              rw (((planned range).serves i).0 (once ∙ rw empty refl))
                (sym (==→eq (size_of requests i) 0 empty))
          | inr filled ↦ ((planned range).serves i).1 (once ∙ rw filled refl)
        ])

    -- In a plan for an in-range batch the transfers own consecutive, non-empty slices that make up
    -- all of `segments`, and each transfer fetches at least one byte and at most `task_size`.
    pub build_shape :
        IsInRange requests → IsChained plan × All (IsSized opts.task_size) plan.transfers
    build_shape range =
        ((Emits-IsChained (planned range).emits refl).0, Emits-IsSized (planned range).emits tt)

    -- In a plan for an in-range batch `overread_bytes` is what the transfers fetch beyond the bytes
    -- that are delivered, modulo 2^64.
    pub build_overread :
        IsInRange requests
        → (plan.overread_bytes + total_length (deliveries plan)) % u64_mod
          ≡ total_size plan.transfers % u64_mod
    build_overread range =
        rw (all_delivered range) (omega (arith, Emits-total (planned range).emits))

    -- In a plan for an in-range batch `transfers_per_request` has an entry for each request, the
    -- number of deliveries for that request, modulo 2^64.
    pub build_counted :
        IsInRange requests
        → (i : ℕ) → i < length requests
        → (length plan.transfers_per_request ≡ length requests)
          × (transfers_for i plan % u64_mod ≡ length (copied i (deliveries plan)) % u64_mod)
    build_counted range i h =
        let zeros = length-replicate {A = ℕ} (length requests) 0 in
        let e = Emits-counted (planned range).emits i (omega (arith, zeros)) in
        (
          e.0 ∙ zeros,
          rw (all_delivered range)
              (omega (arith, e.1, get_or-replicate {A = ℕ} (length requests) i 0)),
        )

  -- Planning fails exactly if `task_size` is zero, and then with `invalid_argument`.
  pub build_fails_iff :
      (build_transfer_plan requests opts ≡ err invalid_argument) ↔ (opts.task_size ≡ 0)
  unfolding build_transfer_plan
  build_fails_iff = (λ h. ground arith, λ h. ground arith)
