-- ===== src/TransferPlan/Split.antt =====
-- `split_request` emits one transfer per chunk, and the chunks tile the request.
use kvikio.Base.{
  ℕ, zero, suc, ◌+◌, ◌-◌, ◌≤◌, ◌<◌, ◌%◌, ◌≡◌, refl, ap, ◌∙◌, inl, inr, List, [], ◌∷◌, length,
  get_or, All, min, ltb, ◌==◌, if◌then◌else◌, Bool-cases, ltb→le, ltb→lt, ==→eq, length-modify,
  get_or-modify_self, get_or-modify_ne, add64, sub64, add64_exact, sub64_exact, u64_mod, arith,
}
use kvikio.TransferPlan.{
  TransferPlanRequest, TransferPlan, end_of, count_transfer, chunk_segment, chunk_transfer,
  emit_chunk, split_loop,
}
use kvikio.TransferPlan.Delivery.{Delivery, deliver, Tiles}
use kvikio.TransferPlan.Emission.{Emission, Emits, start, emit, Emits-trans, transfers_for}

-- No request reaches past the last 64-bit offset.
abbrev pub IsInRange : List TransferPlanRequest → Type 0
IsInRange requests = All (λ r. r.file_offset + r.size < u64_mod) requests

pub count_transfer_lem :
    (i j : ℕ) (plan : TransferPlan)
    → j < length plan.transfers_per_request
    → get_or (count_transfer i plan) j 0 % u64_mod
      ≡ (transfers_for j plan + (if i == j then 1 else 0)) % u64_mod
unfolding add64
count_transfer_lem i j plan h = elim (Bool-cases (i == j)) [
  | inl same ↦
      let e = ==→eq i j same in
      rw same (
        ap (λ n. n % u64_mod)
          (ap (λ k. get_or (count_transfer k plan) j 0) e
            ∙ get_or-modify_self plan.transfers_per_request j (λ n. add64 n 1) 0 h)
        ∙ omega arith)
  | inr differ ↦ rw differ (
      ap (λ n. n % u64_mod)
        (get_or-modify_ne plan.transfers_per_request i j (λ n. add64 n 1) 0 (ground arith))
      ∙ omega arith)
]

module _ (request : TransferPlanRequest) (i task_size : ℕ) where
  emit_chunk-Emission :
      (chunk_begin chunk_size : ℕ) (plan : TransferPlan)
      → 0 < chunk_size
      → chunk_size ≤ task_size
      → Emission task_size plan
          (emit_chunk request i chunk_begin chunk_size plan)
          (chunk_transfer request chunk_begin chunk_size (length plan.segments))
          (chunk_segment request i chunk_begin chunk_size ∷ [])
  unfolding emit_chunk
  emit_chunk-Emission chunk_begin chunk_size plan pos fits = record {
    transfers_snoc = refl;
    segments_append = refl;
    from_end = refl;
    to_end = refl;
    owns = omega arith;
    sized = (pos, fits);
    same_requests = length-modify plan.transfers_per_request i (λ n. add64 n 1);
    counted = λ j h. count_transfer_lem i j plan h ∙ ground arith;
    overread = omega arith;
  }

  -- The deliveries of the loop from `chunk_begin = file_offset + at` on.
  pub record Chunks (at : ℕ) (p q : TransferPlan) : Type 0 where
    pub delivered : List Delivery
    pub emits : Emits task_size p q delivered
    pub tiles : Tiles request at delivered
    pub own : All (λ d. d.request_index ≡ i) delivered

  pub split_loop-Chunks :
      (fuel at : ℕ) (chunk_begin : ℕ) (plan : TransferPlan)
      → request.file_offset + request.size < u64_mod
      → 0 < task_size
      → chunk_begin ≡ request.file_offset + at
      → at ≤ request.size
      → request.size ≤ at + fuel
      → Chunks at plan (split_loop request i task_size fuel chunk_begin plan)
  unfolding split_loop
  split_loop-Chunks zero at chunk_begin plan range pos here low enough = record {
    delivered = [];
    emits = start;
    tiles = omega arith;
    own = tt;
  }
  split_loop-Chunks (suc fuel) at chunk_begin plan range pos here low enough =
      let e = add64_exact request.file_offset request.size range in
      let s = sub64_exact (end_of request) chunk_begin (omega (arith, e)) (omega (arith, e)) in
      let chunk_size = min (sub64 (end_of request) chunk_begin) task_size in
      elim (Bool-cases (ltb chunk_begin (end_of request))) [
        | inl more ↦
            let lt = ltb→lt chunk_begin (end_of request) more in
            let small : chunk_size ≤ request.size - at = omega (arith, e, s) in
            let some_bytes : 0 < chunk_size = omega (arith, e, s, lt) in
            let place = sub64_exact chunk_begin request.file_offset (omega arith) (omega arith) in
            let rest =
              split_loop-Chunks fuel (at + chunk_size) (add64 chunk_begin chunk_size)
                (emit_chunk request i chunk_begin chunk_size plan) range pos
                (add64_exact chunk_begin chunk_size (omega arith) ∙ omega arith) (omega arith)
                (omega arith) in
            rw more (record {
              delivered =
                  deliver (chunk_transfer request chunk_begin chunk_size (length plan.segments))
                    (chunk_segment request i chunk_begin chunk_size)
                  ∷ rest.delivered;
              emits =
                  Emits-trans
                    (emit _ _ start
                      (emit_chunk-Emission chunk_begin chunk_size plan some_bytes (omega arith))
                      refl)
                    rest.emits;
              tiles = (
                refl,
                refl,
                omega arith,
                omega (arith, place),
                some_bytes,
                omega arith,
                omega arith,
                rest.tiles,
              );
              own = (refl, rest.own);
            })
        | inr stop ↦ rw stop (record {
          delivered = [];
          emits = start;
          tiles = omega (arith, e, ltb→le chunk_begin (end_of request) stop);
          own = tt;
        })
      ]
