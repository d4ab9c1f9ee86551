-- ===== src/Aggregate/Examples.antt =====
-- Two sub-ranges: both complete, and one that fails while the other is between its two accesses.
use kvikio.Base.{
  ℕ, ◌%◌, ◌<◌, ◌≡◌, refl, true, none, some, [], ◌∷◌, ok, if◌then◌else◌, total, add64, sub64,
  u64_mod, arith,
}
use kvikio.Aggregate.{
  observe_success, observe_failure, promise_value, promise_exception, Aggregate, make_aggregate,
  System, Reach, start, next, add, note, count_complete, count_failed, close_complete,
  finish_complete,
}
use kvikio.Aggregate.Invariant.{
  open_weight, bytes_weight, failed_weight, failure_of, closing_events,
}
use kvikio.Aggregate.Outcome.{
  AllDone, silent_until_all_report, fulfilled_once, fulfilled_value, fulfilled_exception,
}

abbrev fresh : Aggregate
fresh = record {
  has_recorder = true;
  subranges_left = 2;
  total_bytes = 0;
  first_exception = none;
  events = [];
}

made : make_aggregate true 2 ≡ ok fresh
unfolding make_aggregate
made = refl

abbrev Run : Type 0
Run = (s : System) × Reach 2 fresh s

good : Run
unfolding add64 sub64 finish_complete
good = (
  _,
  next
      (next
        (next (next (next start (add 0 30 (omega arith) refl)) (add 1 12 (omega arith) refl))
          (count_complete 1 12 (omega arith) refl))
        (count_complete 0 30 (omega arith) refl))
      (close_complete 0 30 (omega arith) refl),
)

bad : Run
unfolding add64 sub64 finish_complete
bad = (
  _,
  next
      (next
        (next (next (next start (add 0 30 (omega arith) refl)) (note 1 7 (omega arith) refl))
          (count_failed 1 7 (omega arith) refl))
        (count_complete 0 30 (omega arith) refl))
      (close_complete 0 30 (omega arith) refl),
)

good_done : AllDone 2 good.0
unfolding good total
good_done = (refl, refl)

bad_done : AllDone 2 bad.0
unfolding bad total
bad_done = (refl, refl)

good_clean : total failed_weight 2 good.0.subranges ≡ 0
unfolding good total
good_clean = refl

bad_failed : 0 < total failed_weight 2 bad.0.subranges
unfolding bad total
bad_failed = omega arith

good_events : good.0.aggregate.events ≡ observe_success 42 ∷ promise_value 42 ∷ []
unfolding good add64 finish_complete
good_events = refl

-- One sub-range has failed, the other has not reported.
waiting_run : Run
unfolding sub64
waiting_run =
    (_, next (next start (note 1 7 (omega arith) refl)) (count_failed 1 7 (omega arith) refl))

waiting_open : 0 < total open_weight 2 waiting_run.0.subranges
unfolding waiting_run total
waiting_open = omega arith

silent_until_all_report_example : waiting_run.0.aggregate.events ≡ []
silent_until_all_report_example =
    silent_until_all_report true (omega arith) made waiting_run.1 waiting_open

fulfilled_once_example : bad.0.aggregate.events ≡ closing_events bad.0.aggregate
fulfilled_once_example = fulfilled_once true (omega arith) made bad.1 bad_done

fulfilled_value_example :
    (bytes : ℕ) × (good.0.aggregate.events ≡ (
      if good.0.aggregate.has_recorder
      then observe_success bytes ∷ promise_value bytes ∷ []
      else promise_value bytes ∷ []))
    × (bytes % u64_mod ≡ total bytes_weight 2 good.0.subranges % u64_mod)
fulfilled_value_example = fulfilled_value true (omega arith) made good.1 good_done good_clean

fulfilled_exception_example :
    (e i : ℕ) × (i < 2)
    × (failure_of (bad.0.subranges i) ≡ some e)
    × (bad.0.aggregate.events ≡ (
        if bad.0.aggregate.has_recorder
        then observe_failure ∷ promise_exception (some e) ∷ []
        else promise_exception (some e) ∷ []))
fulfilled_exception_example = fulfilled_exception true (omega arith) made bad.1 bad_done bad_failed
