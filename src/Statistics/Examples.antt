-- ===== src/Statistics/Examples.antt =====
-- Two reads that overlap and are reported late, a write, and readings of them.
use kvikio.Base.{
  All, ltb, ltb→lt, ◌&&◌, ◌^◌, Bool-cases, inl, inr, add64, sub64, ℕ, ◌+◌, ◌≡◌, ◌≤◌, refl, Bool,
  true, false, not, List, [], ◌∷◌, ok, err, invalid_argument, arith,
}
use kvikio.Statistics.{no_counters, ClockAnchor, Summary, empty_summary, wall}
use kvikio.Statistics.Busy.{BusyTracker, new_tracker}
use kvikio.Statistics.Busy
use kvikio.Statistics.Busy.Timeline.{
  Event, starts, finishes, looks, advance_to, happens, report, IsInOrder, run_timeline, run_tracker,
  new_timeline,
}
use kvikio.Statistics.Busy.Union.{read-run_tracker}
use kvikio.Statistics.Monitor.{
  Observation, end_of, stop, count_operation, count_direction, count_backend, SummaryMonitor,
  registered_as, stamp, get, get_since, on_start, on_finish, after_get,
}
use kvikio.Statistics.Monitor
use kvikio.Statistics.Monitor.Calls.{Step, Reach}
use kvikio.Statistics.Monitor.Totals.{IsConsistent, get-IsConsistent}
use kvikio.Statistics.Monitor.Span.{busy-le-wall}
use kvikio.Statistics.Interval.{Later, get_since-busy}
use kvikio.Statistics.Serial.{words_of, serialize, deserialize}
use kvikio.Statistics.Serial.Object.{IsObject}
use kvikio.Statistics.Serial.Words.{IsWord}
use kvikio.Statistics.Serial.RoundTrip.{deserialize-serialize, deserialize-serialize_refused}

-- In flight from 10 to 25 and from 30 to 40; the reading at 50 finds 25.
abbrev events : List (ℕ × Event)
events =
    (10, starts)
    ∷ (15, starts)
    ∷ (20, finishes)
    ∷ (25, finishes)
    ∷ (27, looks)
    ∷ (30, starts)
    ∷ (40, finishes)
    ∷ []

events_busy : (Busy.read 50 (run_tracker (Busy.reset 5 new_tracker) events)).emitted_busy ≡ 25
unfolding Busy.read Busy.reset Busy.on_start Busy.on_finish report add64 sub64
events_busy = refl

in_order : IsInOrder (new_timeline 5) events
unfolding advance_to happens
in_order = (
  omega arith,
  omega arith,
  (
    omega arith,
    omega arith,
    (
      omega arith,
      omega arith,
      (
        omega arith,
        omega arith,
        (omega arith, tt, (omega arith, omega arith, (omega arith, omega arith, tt))),
      ),
    ),
  ),
)

read_after : (run_timeline (new_timeline 5) events).now ≤ 50
unfolding advance_to happens
read_after = omega arith

read-run_tracker_example :
    (Busy.read 50 (run_tracker (Busy.reset 5 new_tracker) events)).emitted_busy
    ≡ (advance_to 50 (run_timeline (new_timeline 5) events)).busy
read-run_tracker_example = read-run_tracker 5 50 events in_order read_after

abbrev an_anchor : ClockAnchor
an_anchor = record { steady = 100; wall = 1700000000 }

abbrev a_read : Observation
a_read = record {
  start = 110;
  end = 150;
  size = 4096;
  bytes_transferred = 4096;
  backend = 1;
  direction = Monitor.read;
  ok = true;
}

abbrev a_failed_write : Observation
a_failed_write = record {
  start = 120;
  end = 160;
  size = 512;
  bytes_transferred = 0;
  backend = 3;
  direction = Monitor.write;
  ok = false;
}

abbrev begun : SummaryMonitor
begun = stamp 100 an_anchor 0 no_counters (registered_as 1)

-- The read is reported first, and so is its end.
abbrev told : SummaryMonitor
told = on_finish a_failed_write (on_finish a_read (on_start a_failed_write (on_start a_read begun)))

watched : Reach (record { monitor = told; now = 200 })
unfolding stamp on_start on_finish
watched =
    Reach.next
      (Reach.next
        (Reach.next
          (Reach.next
            (Reach.next (Reach.constructed 1 100 an_anchor 0 no_counters (λ e. omega (arith, e)))
              (Step.passes 200 (omega arith)))
            (Step.starts a_read (λ e. omega (arith, e)) (omega arith)))
          (Step.starts a_failed_write (λ e. omega (arith, e)) (omega arith)))
        (Step.finishes a_read (λ e. omega (arith, e)) (omega arith) (omega arith)))
      (Step.finishes a_failed_write (λ e. omega (arith, e)) (omega arith) (omega arith))

abbrev first : Summary
first = get 200 no_counters told

-- In flight from 110 to 160, and 30 of it counted twice in the durations.
first_lem :
    (first.busy ≡ 50)
    × (wall first ≡ 100)
    × (first.total_duration ≡ 80)
    × (first.num_ops ≡ 2)
    × (first.num_errors ≡ 1)
    × (first.bytes_read ≡ 4096)
unfolding get stamp on_start on_finish count_operation count_direction count_backend Busy.read
    Busy.reset Busy.on_start Busy.on_finish wall add64 sub64 end_of
first_lem = (refl, refl, refl, refl, refl, refl)

busy-le-wall_example : (get 200 no_counters told).busy ≤ wall (get 200 no_counters told)
busy-le-wall_example = busy-le-wall watched no_counters

get-IsConsistent_example : IsConsistent (get 200 no_counters told)
get-IsConsistent_example = get-IsConsistent watched no_counters

-- A second reading at 300, stopped before.
abbrev stopped_at_250 : SummaryMonitor
stopped_at_250 = stop 250 no_counters (after_get 200 told)

later :
    Later
      (record { monitor = after_get 200 told; now = 200 })
      (record { monitor = stopped_at_250; now = 300 })
later =
    Later.next
      (Later.next (Later.next Later.same (Step.passes 250 (omega arith)) tt)
        (Step.stops no_counters (omega arith)) tt)
      (Step.passes 300 (omega arith)) tt

get_since-busy_example :
    (s : Summary) × (get_since 300 no_counters first stopped_at_250 ≡ ok s)
    × (s.start ≡ first.end)
    × (s.end ≡ (get 300 no_counters stopped_at_250).end)
    × (first.busy + s.busy ≡ (get 300 no_counters stopped_at_250).busy)
get_since-busy_example = get_since-busy watched no_counters no_counters later

abbrev reading : ℕ → Summary
reading end = record empty_summary { start = 100; end = end }

abbrev kept : Summary
kept = record (reading 300) { num_ops = 2; bytes_read = 4096; busy = 50; kind = 1 }

abbrev are_words : List ℕ → Bool
are_words [] = true
are_words (w ∷ ws) = ltb w (2 ^ 64) && are_words ws

are_words-IsWord : (ws : List ℕ) → are_words ws ≡ true → All IsWord ws
are_words-IsWord [] h = tt
are_words-IsWord (w ∷ ws) h = elim (Bool-cases (ltb w (2 ^ 64))) [
  | inl small ↦ (ltb→lt w (2 ^ 64) small, are_words-IsWord ws (ground (arith, h, small)))
  | inr big ↦ absurd (ground (arith, h, big))
]

kept-IsObject : IsObject kept
kept-IsObject = (are_words-IsWord (words_of kept) refl, refl)

deserialize-serialize_example : deserialize true (serialize true kept) ≡ ok kept
deserialize-serialize_example = deserialize-serialize true kept kept-IsObject

deserialize-serialize_refused_example :
    deserialize (not true) (serialize true kept) ≡ err invalid_argument
deserialize-serialize_refused_example = deserialize-serialize_refused true kept kept-IsObject
