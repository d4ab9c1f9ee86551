-- ===== src/TransferPlan/Delivery.antt =====
-- What a plan delivers: the copies from a transfer's span to the callers' buffers, in the order in
-- which a client that walks `transfers` and their segment slices makes them.
use kvikio.Base.{
  ℕ, ◌+◌, ◌-◌, ◌≤◌, ◌<◌, ◌≡◌, refl, sym, ap, ◌∙◌, List, [], ◌∷◌, ◌++◌, map, append-nil,
  append_assoc, length, take, drop, keep, take-append, take_length, drop-append, drop_length,
  length-drop, ◌==◌, arith,
}
use kvikio.TransferPlan.{TransferPlanRequest, TransferSegment, PlannedTransfer, TransferPlan}

-- One copy: `length` bytes at `source` in the remote file go to `destination`; the transfer fetches
-- the bytes from `span_begin` to `span_end` of `handle`, for a buffer of `cuda_context`.
pub record Delivery : Type 0 where
  pub request_index : ℕ
  pub handle : ℕ
  pub cuda_context : ℕ
  pub source : ℕ
  pub length : ℕ
  pub destination : ℕ
  pub span_begin : ℕ
  pub span_end : ℕ

abbrev pub deliver : PlannedTransfer → TransferSegment → Delivery
deliver t s = record {
  request_index = s.request_index;
  handle = t.handle;
  cuda_context = t.cuda_context;
  source = t.file_offset + s.span_offset;
  length = s.length;
  destination = s.buf;
  span_begin = t.file_offset;
  span_end = t.file_offset + t.size;
}

-- The slice `[segment_begin, segment_end)`.
abbrev pub slice : List TransferSegment → PlannedTransfer → List TransferSegment
slice segments t = take (t.segment_end - t.segment_begin) (drop t.segment_begin segments)

pub deliveries_of : List TransferSegment → List PlannedTransfer → List Delivery
deliveries_of segments [] = []
deliveries_of segments (t ∷ ts) = map (deliver t) (slice segments t) ++ deliveries_of segments ts

unfoldable pub deliveries : TransferPlan → List Delivery
unfolding deliveries_of
deliveries plan = deliveries_of plan.segments plan.transfers

-- The deliveries for request `i`.
abbrev pub copied : ℕ → List Delivery → List Delivery
copied i = keep (λ d. d.request_index == i)

-- From offset `at` on, the deliveries are the request's bytes, one after the other and to the end:
-- each reads its bytes from the request's file within the span that its transfer fetches, and
-- writes them to their place in the request's buffer.
abbrev pub Tiles : TransferPlanRequest → ℕ → List Delivery → Type 0
Tiles r at [] = at ≡ r.size
Tiles r at (d ∷ ds) =
    (d.handle ≡ r.handle)
    × (d.cuda_context ≡ r.cuda_context)
    × (d.source ≡ r.file_offset + at)
    × (d.destination ≡ r.buf + at)
    × (0 < d.length)
    × (d.span_begin ≤ d.source)
    × (d.source + d.length ≤ d.span_end)
    × Tiles r (at + d.length) ds

-- The slices follow one another from `b` to `e`, and none is empty.
abbrev pub Chained : ℕ → List PlannedTransfer → ℕ → Type 0
Chained b [] e = b ≡ e
Chained b (t ∷ ts) e = (t.segment_begin ≡ b) × (b < t.segment_end) × Chained t.segment_end ts e

abbrev pub IsChained : TransferPlan → Type 0
IsChained plan = Chained 0 plan.transfers (length plan.segments)

pub Chained-le : (b : ℕ) (ts : List PlannedTransfer) (e : ℕ) → Chained b ts e → b ≤ e
Chained-le b [] e h = omega arith
Chained-le b (t ∷ ts) e h = omega (arith, Chained-le t.segment_end ts e h.2)

pub Chained-snoc :
    (b : ℕ) (ts : List PlannedTransfer) (e : ℕ) (t : PlannedTransfer)
    → Chained b ts e
    → t.segment_begin ≡ e
    → e < t.segment_end
    → Chained b (ts ++ t ∷ []) t.segment_end
Chained-snoc b [] e t h p q = (omega arith, omega arith, refl)
Chained-snoc b (u ∷ ts) e t h p q = (h.0, h.1, Chained-snoc u.segment_end ts e t h.2 p q)

slice-append :
    (xs ys : List TransferSegment) (t : PlannedTransfer)
    → t.segment_begin ≤ t.segment_end
    → t.segment_end ≤ length xs
    → slice (xs ++ ys) t ≡ slice xs t
slice-append xs ys t p q =
    ap (take (t.segment_end - t.segment_begin)) (drop-append xs ys t.segment_begin (omega arith))
    ∙ take-append (drop t.segment_begin xs) ys _ (omega (arith, length-drop t.segment_begin xs))

slice_tail :
    (xs ys : List TransferSegment) (t : PlannedTransfer)
    → t.segment_begin ≡ length xs
    → t.segment_end ≡ length xs + length ys
    → slice (xs ++ ys) t ≡ ys
slice_tail xs ys t p q =
    ap (take (t.segment_end - t.segment_begin))
      (rw p (drop-append xs ys (length xs) (omega arith) ∙ ap (λ zs. zs ++ ys) (drop_length xs)))
    ∙ ap (λ n. take n ys) (omega arith)
    ∙ take_length ys

pub deliveries_of-append_segments :
    (xs ys : List TransferSegment) (b : ℕ) (ts : List PlannedTransfer)
    → Chained b ts (length xs)
    → deliveries_of (xs ++ ys) ts ≡ deliveries_of xs ts
unfolding deliveries_of
deliveries_of-append_segments xs ys b [] h = refl
deliveries_of-append_segments xs ys b (t ∷ ts) h =
    let inside = Chained-le t.segment_end ts (length xs) h.2 in
    cc (
      slice-append xs ys t (omega arith) inside,
      deliveries_of-append_segments xs ys t.segment_end ts h.2,
    )

pub deliveries_of-append :
    (xs : List TransferSegment) (ts us : List PlannedTransfer)
    → deliveries_of xs (ts ++ us) ≡ deliveries_of xs ts ++ deliveries_of xs us
unfolding deliveries_of
deliveries_of-append xs [] us = refl
deliveries_of-append xs (t ∷ ts) us =
    ap (λ ds. map (deliver t) (slice xs t) ++ ds) (deliveries_of-append xs ts us)
    ∙ sym (append_assoc (map (deliver t) (slice xs t)) (deliveries_of xs ts) (deliveries_of xs us))

-- A transfer at the end, with its segments at the end, adds its own deliveries.
pub deliveries_of-snoc :
    (xs ys : List TransferSegment) (ts : List PlannedTransfer) (t : PlannedTransfer)
    → Chained 0 ts (length xs)
    → t.segment_begin ≡ length xs
    → t.segment_end ≡ length xs + length ys
    → deliveries_of (xs ++ ys) (ts ++ t ∷ []) ≡ deliveries_of xs ts ++ map (deliver t) ys
unfolding deliveries_of
deliveries_of-snoc xs ys ts t h p q =
    deliveries_of-append (xs ++ ys) ts (t ∷ [])
    ∙ rw (deliveries_of-append_segments xs ys 0 ts h, slice_tail xs ys t p q)
        (ap (λ ds. deliveries_of xs ts ++ ds) (append-nil _))
