-- ===== src/TransferPlan/Emission.antt =====
-- The planner as a relation: a plan grows by one transfer with its segments at a time. What every
-- such step keeps holds of the finished plan.
use kvikio.Base.{
  ℕ, ◌+◌, ◌≤◌, ◌<◌, ◌%◌, ◌≡◌, refl, sym, ap, subst, ◌∙◌, List, [], ◌∷◌, ◌++◌, map, append-nil,
  append_assoc, length, get_or, All, length-append, All-append, keep-append, u64_mod, arith,
}
use kvikio.TransferPlan.{TransferSegment, PlannedTransfer, TransferPlan}
use kvikio.TransferPlan.Delivery.{
  Delivery, deliver, deliveries, deliveries_of-snoc, copied, IsChained, Chained-snoc,
}

abbrev pub total_size : List PlannedTransfer → ℕ
total_size [] = 0
total_size (t ∷ ts) = t.size + total_size ts

abbrev pub total_length : List Delivery → ℕ
total_length [] = 0
total_length (d ∷ ds) = d.length + total_length ds

-- A transfer is not empty and fits in a task.
abbrev pub IsSized : ℕ → PlannedTransfer → Type 0
IsSized task_size t = (0 < t.size) × (t.size ≤ task_size)

abbrev pub transfers_for : ℕ → TransferPlan → ℕ
transfers_for i plan = get_or plan.transfers_per_request i 0

-- `q` is `p` with the transfer `t` and its segments at the end, and the counters brought up to date.
pub record Emission (task_size : ℕ) (p q : TransferPlan) (t : PlannedTransfer)
    (segments : List TransferSegment) : Type 0 where
  pub transfers_snoc : q.transfers ≡ p.transfers ++ t ∷ []
  pub segments_append : q.segments ≡ p.segments ++ segments
  pub from_end : t.segment_begin ≡ length p.segments
  pub to_end : t.segment_end ≡ length p.segments + length segments
  pub owns : 0 < length segments
  pub sized : IsSized task_size t
  pub same_requests : length q.transfers_per_request ≡ length p.transfers_per_request
  pub counted :
      (i : ℕ)
      → i < length p.transfers_per_request
      → transfers_for i q % u64_mod
        ≡ (transfers_for i p + length (copied i (map (deliver t) segments))) % u64_mod
  pub overread :
      (q.overread_bytes + total_length (map (deliver t) segments)) % u64_mod
      ≡ (p.overread_bytes + t.size) % u64_mod

pub data Emits (task_size : ℕ) (p : TransferPlan) : TransferPlan → List Delivery → Type 0 where
  start : Emits task_size p p []
  emit :
      {q r : TransferPlan} {ds es : List Delivery} (t : PlannedTransfer)
      (segments : List TransferSegment)
      → Emits task_size p q ds
      → Emission task_size q r t segments
      → es ≡ ds ++ map (deliver t) segments
      → Emits task_size p r es

pub Emits-trans :
    {task_size : ℕ} {p q r : TransferPlan} {ds es : List Delivery}
    → Emits task_size p q ds
    → Emits task_size q r es
    → Emits task_size p r (ds ++ es)
Emits-trans {ds} first start = subst (Emits _ _ _) (sym (append-nil ds)) first
Emits-trans {ds} first (emit {ds = cs} t segments more e same) =
    emit t segments (Emits-trans first more) e
      (ap (λ xs. ds ++ xs) same ∙ sym (append_assoc ds cs (map (deliver t) segments)))

Emission-IsChained :
    {task_size : ℕ} {p q : TransferPlan} {t : PlannedTransfer} {segments : List TransferSegment}
    → Emission task_size p q t segments
    → IsChained p
    → IsChained q × (deliveries q ≡ deliveries p ++ map (deliver t) segments)
unfolding deliveries
Emission-IsChained {p} {t} {segments} e h = (
  rw (e.transfers_snoc, e.segments_append, length-append p.segments segments, ← e.to_end)
      (Chained-snoc 0 p.transfers (length p.segments) t h e.from_end
        (omega (arith, e.owns, e.to_end))),
  rw (e.transfers_snoc, e.segments_append)
      (deliveries_of-snoc p.segments segments p.transfers t h e.from_end e.to_end),
)

-- The slices stay in order, and the deliveries are appended.
pub Emits-IsChained :
    {task_size : ℕ} {p q : TransferPlan} {ds : List Delivery}
    → Emits task_size p q ds
    → IsChained p
    → IsChained q × (deliveries q ≡ deliveries p ++ ds)
Emits-IsChained {p} start h = (h, sym (append-nil (deliveries p)))
Emits-IsChained {p} (emit {ds} t segments more e same) h =
    let (chained, before) = Emits-IsChained more h in
    let (chained', step) = Emission-IsChained e chained in
    (
      chained',
      step
          ∙ ap (λ xs. xs ++ map (deliver t) segments) before
          ∙ append_assoc (deliveries p) ds (map (deliver t) segments)
          ∙ ap (λ xs. deliveries p ++ xs) (sym same),
    )

pub Emits-IsSized :
    {task_size : ℕ} {p q : TransferPlan} {ds : List Delivery}
    → Emits task_size p q ds
    → All (IsSized task_size) p.transfers
    → All (IsSized task_size) q.transfers
Emits-IsSized start h = h
Emits-IsSized {task_size} (emit {q} t segments more e same) h =
    rw e.transfers_snoc
      (All-append (IsSized task_size) q.transfers (t ∷ []) (Emits-IsSized more h) (e.sized, tt))

pub total_length-append :
    (ds es : List Delivery) → total_length (ds ++ es) ≡ total_length ds + total_length es
total_length-append [] es = omega arith
total_length-append (d ∷ ds) es = omega (arith, total_length-append ds es)

pub total_size-append :
    (ts us : List PlannedTransfer) → total_size (ts ++ us) ≡ total_size ts + total_size us
total_size-append [] us = omega arith
total_size-append (t ∷ ts) us = omega (arith, total_size-append ts us)

-- What is fetched is what is delivered and the overread.
pub Emits-total :
    {task_size : ℕ} {p q : TransferPlan} {ds : List Delivery}
    → Emits task_size p q ds
    → (q.overread_bytes + total_length ds + total_size p.transfers) % u64_mod
      ≡ (p.overread_bytes + total_size q.transfers) % u64_mod
Emits-total start = omega arith
Emits-total (emit {q} {ds} t segments more e same) =
    let before = Emits-total more in
    rw
      (
        same,
        total_length-append ds (map (deliver t) segments),
        e.transfers_snoc,
        total_size-append q.transfers (t ∷ []),
      )
      (omega (arith, e.overread))

pub Emits-counted :
    {task_size : ℕ} {p q : TransferPlan} {ds : List Delivery}
    → Emits task_size p q ds
    → (i : ℕ) → i < length p.transfers_per_request
    → (length q.transfers_per_request ≡ length p.transfers_per_request)
      × (transfers_for i q % u64_mod ≡ (transfers_for i p + length (copied i ds)) % u64_mod)
Emits-counted start i h = (refl, omega arith)
Emits-counted (emit {q} {ds} t segments more e same) i h =
    let (len, before) = Emits-counted more i h in
    (
      e.same_requests ∙ len,
      rw
          (
            same,
            keep-append _ ds (map (deliver t) segments),
            length-append (copied i ds) (copied i (map (deliver t) segments)),
          )
          (omega (arith, e.counted i (omega arith))),
    )
