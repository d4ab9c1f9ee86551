-- ===== src/Statistics/Monitor/Calls.antt =====
-- The calls that a SummaryMonitor of cpp/src/statistics/summary.cpp receives, one at a time under its
-- lock, in any order.
use kvikio.Base.{ℕ, ◌≤◌, ◌<◌, ◌≢◌}
use kvikio.Statistics.{Counters, ClockAnchor}
use kvikio.Statistics.Monitor.{
  Observation, SummaryMonitor, registered_as, stamp, on_start, on_finish, after_get, reset, stop,
}

-- The monitor and the time.
pub record World : Type 0 where
  pub monitor : SummaryMonitor
  pub now : ℕ

-- One call. An operation is reported with times that have passed, however late, and to a monitor that
-- is registered; its backend is one of the five.
pub data Step (w : World) : World → Type 0 where
  passes : (t : ℕ) → w.now ≤ t → Step w (record w { now = t })
  starts :
      (o : Observation)
      → w.monitor.registration ≢ 0
      → o.start ≤ w.now
      → Step w (record w { monitor = on_start o w.monitor })
  finishes :
      (o : Observation)
      → w.monitor.registration ≢ 0
      → o.end ≤ w.now
      → o.backend < 5
      → Step w (record w { monitor = on_finish o w.monitor })
  gets : Step w (record w { monitor = after_get w.now w.monitor })
  resets : (current : Counters) → Step w (record w { monitor = reset w.now current w.monitor })
  stops :
      (current : Counters)
      → 0 < w.now
      → Step w (record w { monitor = stop w.now current w.monitor })

-- From a monitor that was constructed.
pub data Reach : World → Type 0 where
  constructed :
      (id t : ℕ) (anchor : ClockAnchor) (kind : ℕ) (current : Counters)
      → id ≢ 0
      → Reach (record { monitor = stamp t anchor kind current (registered_as id); now = t })
  next : {v w : World} → Reach v → Step v w → Reach w
