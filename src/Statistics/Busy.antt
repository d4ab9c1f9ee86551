-- ===== src/Statistics/Busy.antt =====
-- SummaryMonitor::BusyTracker of cpp/src/statistics/summary.cpp: the time during which at least one
-- operation is in flight, of starts and finishes that may be reported late and out of order.
pub mod Bound
pub mod Timeline
pub mod Union
use kvikio.Base.{
  ℕ, zero, suc, ◌+◌, ◌-◌, min, max, Bool, true, false, ◌&&◌, ltb, ◌==◌, if◌then◌else◌, add64, sub64,
}

pub record BusyTracker : Type 0 where
  pub closed_busy : ℕ
  pub in_flight : ℕ
  pub busy_since : ℕ
  pub pending_end : ℕ
  pub last_closed : ℕ
  pub emitted_busy : ℕ

-- `BusyTracker{}`.
abbrev pub new_tracker : BusyTracker
new_tracker = record {
  closed_busy = 0;
  in_flight = 0;
  busy_since = 0;
  pending_end = 0;
  last_closed = 0;
  emitted_busy = 0;
}

unfoldable pub reset : ℕ → BusyTracker → BusyTracker
reset start b = record b {
  closed_busy = 0;
  emitted_busy = 0;
  pending_end = 0;
  busy_since = start;
  last_closed = start;
}

unfoldable pub on_start : ℕ → BusyTracker → BusyTracker
on_start start b =
    let from = max start b.last_closed in
    record b {
      busy_since = if b.in_flight == 0 then from else min b.busy_since from;
      in_flight = add64 b.in_flight 1;
    }

-- The last operation of a stretch has ended.
unfoldable pub close_stretch : BusyTracker → BusyTracker
close_stretch b = record b {
  closed_busy =
      if ltb b.busy_since b.pending_end
      then b.closed_busy + (b.pending_end - b.busy_since)
      else b.closed_busy;
  last_closed = max b.last_closed b.pending_end;
  pending_end = 0;
}

unfoldable pub on_finish : ℕ → BusyTracker → BusyTracker
unfolding close_stretch
on_finish end b =
    let ended = record b { pending_end = max b.pending_end end; in_flight = sub64 b.in_flight 1 } in
    if b.in_flight == 0
    then b
    else if ltb 0 (sub64 b.in_flight 1)
    then ended
    else close_stretch ended

-- The tracker afterwards, whose `emitted_busy` is what is returned.
unfoldable pub read : ℕ → BusyTracker → BusyTracker
read now b =
    let open_busy = if ltb 0 b.in_flight && ltb b.busy_since now then now - b.busy_since else 0 in
    record b { emitted_busy = max b.emitted_busy (b.closed_busy + open_busy) }
