-- ===== src/Statistics/Monitor.antt =====
-- SummaryMonitor of cpp/src/statistics/summary.cpp: what each notification adds to the totals, and what
-- is read from them. A function that reads a clock or the counters of the process takes the readings
-- as arguments. Durations are added without wrap-around.
pub mod Calls
pub mod Totals
pub mod Span
use kvikio.Base.{
  ℕ, zero, suc, ◌+◌, ◌-◌, ◌^◌, Bool, true, false, ltb, ◌==◌, if◌then◌else◌, add64, Result,
}
use kvikio.Statistics.{
  Counters, no_counters, counters_since, ClockAnchor, BackendTotals, ByBackend, Summary,
  empty_summary, since,
}
use kvikio.Statistics.Busy

pub data TransferDirection : Type 0 where
  read write : TransferDirection

-- The members of `Observation` that a monitor reads; `backend` is the value of the `IoBackend`.
pub record Observation : Type 0 where
  pub start : ℕ
  pub end : ℕ
  pub size : ℕ
  pub bytes_transferred : ℕ
  pub backend : ℕ
  pub direction : TransferDirection
  pub ok : Bool

abbrev pub duration : Observation → ℕ
duration o = if ltb o.start o.end then o.end - o.start else 0

-- A `stopped_end` of 0 is the default: still running. A `registration` of 0 is stopped.
pub record SummaryMonitor : Type 0 where
  pub counters_at_start : Counters
  pub counters_at_stop : Counters
  pub totals : Summary
  pub registered : ℕ
  pub stopped_end : ℕ
  pub registration : ℕ
  pub busy : Busy.BusyTracker

-- `TimePoint::max()`.
abbrev pub time_max : ℕ
time_max = 2 ^ 63 - 1

-- The constructor in two parts: what notifications find once the monitor is registered under `id`, and
-- the stamping under the lock.
abbrev pub registered_as : ℕ → SummaryMonitor
registered_as id = record {
  counters_at_start = no_counters;
  counters_at_stop = no_counters;
  totals = empty_summary;
  registered = time_max;
  stopped_end = 0;
  registration = id;
  busy = Busy.new_tracker;
}

unfoldable pub stamp : ℕ → ClockAnchor → ℕ → Counters → SummaryMonitor → SummaryMonitor
stamp t anchor kind current m = record m {
  totals = record m.totals { start = t; anchor = anchor; kind = kind };
  registered = t;
  counters_at_start = current;
  busy = Busy.reset t m.busy;
}

unfoldable pub on_start : Observation → SummaryMonitor → SummaryMonitor
on_start o m =
    if ltb o.start m.registered then m else record m { busy = Busy.on_start o.start m.busy }

-- What an operation adds to the entry of its backend.
unfoldable pub add_operation : Observation → BackendTotals → BackendTotals
add_operation o b = record {
  num_ops = add64 b.num_ops 1;
  bytes_transferred = add64 b.bytes_transferred o.bytes_transferred;
  total_duration = b.total_duration + duration o;
  num_errors = if o.ok then b.num_errors else add64 b.num_errors 1;
}

-- The entry that the value of an `IoBackend` indexes; another value is none of them.
unfoldable pub count_backend : ℕ → Observation → ByBackend → ByBackend
count_backend zero o e = record e { posix = add_operation o e.posix }
count_backend (suc zero) o e = record e { gds = add_operation o e.gds }
count_backend (suc (suc zero)) o e = record e { mmap = add_operation o e.mmap }
count_backend (suc (suc (suc zero))) o e = record e { remote_http = add_operation o e.remote_http }
count_backend (suc (suc (suc (suc zero)))) o e = record e {
  remote_hdfs = add_operation o e.remote_hdfs;
}
count_backend (suc (suc (suc (suc (suc n))))) o e = e

unfoldable pub count_direction : TransferDirection → Observation → Summary → Summary
count_direction read o s = record s {
  num_reads = add64 s.num_reads 1;
  bytes_read = add64 s.bytes_read o.bytes_transferred;
}
count_direction write o s = record s {
  num_writes = add64 s.num_writes 1;
  bytes_written = add64 s.bytes_written o.bytes_transferred;
}

-- The totals once an operation of the span is counted.
unfoldable pub count_operation : Observation → Summary → Summary
count_operation o s =
    let counted = record s {
      num_ops = add64 s.num_ops 1;
      bytes_requested = add64 s.bytes_requested o.size;
      bytes_transferred = add64 s.bytes_transferred o.bytes_transferred;
      total_duration = s.total_duration + duration o;
      by_backend = count_backend o.backend o s.by_backend;
      num_errors = if o.ok then s.num_errors else add64 s.num_errors 1;
    } in
    count_direction o.direction o counted

unfoldable pub on_finish : Observation → SummaryMonitor → SummaryMonitor
on_finish o m = if ltb o.start m.registered then m else record m {
  busy = Busy.on_finish o.end m.busy;
  totals = if ltb o.start m.totals.start then m.totals else count_operation o m.totals;
}

-- The instant that a reading at `now` is stamped with.
unfoldable pub end_of : ℕ → SummaryMonitor → ℕ
end_of now m = if m.stopped_end == 0 then now else m.stopped_end

-- The tracker remembers what it returned.
unfoldable pub after_get : ℕ → SummaryMonitor → SummaryMonitor
after_get now m = record m { busy = Busy.read (end_of now m) m.busy }

unfoldable pub get : ℕ → Counters → SummaryMonitor → Summary
unfolding after_get
get now current m = record m.totals {
  counters =
      counters_since (if m.stopped_end == 0 then current else m.counters_at_stop)
        m.counters_at_start;
  end = end_of now m;
  busy = (after_get now m).busy.emitted_busy;
}

-- `SummaryMonitor::since`.
abbrev pub get_since : ℕ → Counters → Summary → SummaryMonitor → Result Summary
get_since now current previous m = since (get now current m) previous

unfoldable pub reset : ℕ → Counters → SummaryMonitor → SummaryMonitor
reset t current m = record m {
  totals = record empty_summary { start = t; anchor = m.totals.anchor; kind = m.totals.kind };
  counters_at_start = current;
  busy = Busy.reset t m.busy;
}

-- `final_counters` and `t` are read once no notification is in progress.
unfoldable pub stop : ℕ → Counters → SummaryMonitor → SummaryMonitor
stop t final_counters m =
    if m.registration == 0
    then m
    else record m { registration = 0; counters_at_stop = final_counters; stopped_end = t }
