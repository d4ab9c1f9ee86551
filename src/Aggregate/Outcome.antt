-- ===== src/Aggregate/Outcome.antt =====
-- What the caller of `pread` sees.
use kvikio.Base.{
  ℕ, ◌%◌, ◌<◌, ◌≡◌, refl, ap, ◌∙◌, inl, inr, Bool, none, some, Option-cases, [], ◌∷◌, if◌then◌else◌,
  ok, total, total-const, weight-le-total, u64_mod, arith,
}
use kvikio.Aggregate.{
  observe_success, observe_failure, promise_value, promise_exception, Aggregate, make_aggregate,
  waiting, System, Reach, start, next,
}
use kvikio.Aggregate.Invariant.{
  Inv, Step-Inv, open_weight, closing_weight, bytes_weight, failed_weight, failure_of, some_weight,
  closing_events,
}

start-Inv :
    (n : ℕ) (has_recorder : Bool) (a : Aggregate)
    → make_aggregate has_recorder n ≡ ok a
    → Inv n (record { aggregate = a; subranges = λ _. waiting })
unfolding make_aggregate
start-Inv n has_recorder a made =
    let pos : 0 < n = ground arith in
    let all_left : a.subranges_left ≡ n = ground arith in
    let nothing : a.total_bytes ≡ 0 = ground arith in
    let clean : a.first_exception ≡ none = ground arith in
    let silent : a.events ≡ [] = ground arith in
    record {
      left = omega (arith, all_left, total-const open_weight n waiting);
      bytes = omega (arith, nothing, total-const bytes_weight n waiting);
      clean = λ e. omega (arith, total-const failed_weight n waiting);
      culprit = λ e first. absurd (ground arith);
      phase = inl (
        omega (arith, pos, all_left),
        omega (arith, total-const closing_weight n waiting),
        silent,
      );
    }

Reach-Inv :
    (has_recorder : Bool) {n : ℕ} {a : Aggregate} {s : System}
    → n < u64_mod
    → make_aggregate has_recorder n ≡ ok a
    → Reach n a s
    → Inv n s
Reach-Inv has_recorder {n} {a} few made start = start-Inv n has_recorder a made
Reach-Inv has_recorder few made (next r st) = Step-Inv few (Reach-Inv has_recorder few made r) st

-- No sub-range is still to report or to close.
abbrev pub AllDone : ℕ → System → Type 0
AllDone n s = (total open_weight n s.subranges ≡ 0) × (total closing_weight n s.subranges ≡ 0)

-- While a sub-range has still to report nothing is observed and the promise stays empty, also after
-- another sub-range has failed.
pub silent_until_all_report :
    (has_recorder : Bool) {n : ℕ} {a : Aggregate} {s : System}
    → n < u64_mod
    → make_aggregate has_recorder n ≡ ok a
    → Reach n a s
    → 0 < total open_weight n s.subranges
    → s.aggregate.events ≡ []
silent_until_all_report has_recorder few made r some_left =
    let inv = Reach-Inv has_recorder few made r in ground (arith, inv.phase, inv.left)

-- Once all sub-ranges are done the operation has been observed, if there is a recorder, and after
-- that the promise has been fulfilled, each exactly once.
pub fulfilled_once :
    (has_recorder : Bool) {n : ℕ} {a : Aggregate} {s : System}
    → n < u64_mod
    → make_aggregate has_recorder n ≡ ok a
    → Reach n a s
    → AllDone n s
    → s.aggregate.events ≡ closing_events s.aggregate
fulfilled_once has_recorder few made r done =
    let inv = Reach-Inv has_recorder few made r in ground (arith, inv.phase, inv.left)

no_exception :
    {n : ℕ} {s : System}
    → Inv n s
    → total failed_weight n s.subranges ≡ 0
    → s.aggregate.first_exception ≡ none
no_exception {n} {s} inv h = elim (Option-cases s.aggregate.first_exception) [
  | inl unset ↦ unset
  | inr (e, first) ↦
      let (i, lt, who) = inv.culprit e first in
      absurd (omega (arith, weight-le-total failed_weight n s.subranges i lt, ap some_weight who))
]

-- When all sub-ranges are done and none has failed, the promise holds the sum of their bytes,
-- modulo 2^64.
pub fulfilled_value :
    (has_recorder : Bool) {n : ℕ} {a : Aggregate} {s : System}
    → n < u64_mod
    → make_aggregate has_recorder n ≡ ok a
    → Reach n a s
    → AllDone n s
    → total failed_weight n s.subranges ≡ 0
    → (bytes : ℕ) × (s.aggregate.events ≡ (
        if s.aggregate.has_recorder
        then observe_success bytes ∷ promise_value bytes ∷ []
        else promise_value bytes ∷ []))
      × (bytes % u64_mod ≡ total bytes_weight n s.subranges % u64_mod)
fulfilled_value has_recorder {n} {s} few made r done none_failed =
    let inv = Reach-Inv has_recorder few made r in
    let closed = fulfilled_once has_recorder few made r done in
    let unset = no_exception inv none_failed in
    (s.aggregate.total_bytes, closed ∙ rw unset refl, inv.bytes)

-- When all sub-ranges are done and one has failed, the promise holds the exception of a sub-range
-- that failed, and the operation is observed as a failure.
pub fulfilled_exception :
    (has_recorder : Bool) {n : ℕ} {a : Aggregate} {s : System}
    → n < u64_mod
    → make_aggregate has_recorder n ≡ ok a
    → Reach n a s
    → AllDone n s
    → 0 < total failed_weight n s.subranges
    → (e i : ℕ) × (i < n)
      × (failure_of (s.subranges i) ≡ some e)
      × (s.aggregate.events ≡ (
          if s.aggregate.has_recorder
          then observe_failure ∷ promise_exception (some e) ∷ []
          else promise_exception (some e) ∷ []))
fulfilled_exception has_recorder {s} few made r done one_failed =
    let inv = Reach-Inv has_recorder few made r in
    let closed = fulfilled_once has_recorder few made r done in
    elim (Option-cases s.aggregate.first_exception) [
      | inl unset ↦ absurd (omega (arith, one_failed, inv.clean unset))
      | inr (e, first) ↦
          let (i, lt, who) = inv.culprit e first in (e, i, lt, who, closed ∙ rw first refl)
    ]
