-- ===== src/Statistics/Busy/Timeline.antt =====
-- What a tracker should compute, of events that are in the order of their times: for how long some
-- operation was in flight, counted directly.
use kvikio.Base.{ℕ, ◌+◌, ◌-◌, ◌≤◌, ◌<◌, List, [], ◌∷◌, ◌==◌, if◌then◌else◌, u64_mod}
use kvikio.Statistics.Busy.{BusyTracker, on_start, on_finish, read}

pub data Event : Type 0 where
  starts finishes looks : Event

-- The specification: how many operations are in flight, and for how long there has been one.
pub record Timeline : Type 0 where
  pub now : ℕ
  pub active : ℕ
  pub busy : ℕ

unfoldable pub advance_to : ℕ → Timeline → Timeline
advance_to t l = record l { now = t; busy = if l.active == 0 then l.busy else l.busy + (t - l.now) }

unfoldable pub happens : Event → Timeline → Timeline
happens starts l = record l { active = l.active + 1 }
happens finishes l = record l { active = l.active - 1 }
happens looks l = l

-- What the monitor calls.
unfoldable pub report : ℕ → Event → BusyTracker → BusyTracker
report t starts b = on_start t b
report t finishes b = on_finish t b
report t looks b = read t b

-- Only an operation in flight finishes, and fewer than 2^64 are in flight.
abbrev pub IsPossible : Event → Timeline → Type 0
IsPossible starts l = l.active + 1 < u64_mod
IsPossible finishes l = 0 < l.active
IsPossible looks l = Unit

-- The events are in the order of their times, and possible.
abbrev pub IsInOrder : Timeline → List (ℕ × Event) → Type 0
IsInOrder l [] = Unit
IsInOrder l ((t, e) ∷ events) =
    (l.now ≤ t) × IsPossible e (advance_to t l) × IsInOrder (happens e (advance_to t l)) events

abbrev pub run_timeline : Timeline → List (ℕ × Event) → Timeline
run_timeline l [] = l
run_timeline l ((t, e) ∷ events) = run_timeline (happens e (advance_to t l)) events

abbrev pub run_tracker : BusyTracker → List (ℕ × Event) → BusyTracker
run_tracker b [] = b
run_tracker b ((t, e) ∷ events) = run_tracker (report t e b) events

abbrev pub new_timeline : ℕ → Timeline
new_timeline t = record { now = t; active = 0; busy = 0 }
