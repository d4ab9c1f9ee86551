-- ===== src/Statistics/Monitor/Span.antt =====
-- A monitor's span: the busy time of every reading lies within it, while the monitor runs, once it is
-- stopped, and when it is reset after that.
use kvikio.Base.{
  ℕ, ◌≤◌, ◌<◌, ◌≡◌, ◌≢◌, refl, ◌∙◌, inl, inr, Bool, true, false, Bool-cases, ltb, ◌==◌,
  if◌then◌else◌, arith,
}
use kvikio.Statistics.{Counters, Summary, wall}
use kvikio.Statistics.Busy
use kvikio.Statistics.Busy.Bound
use kvikio.Statistics.Busy.Bound.{Watched, busy_le_wall}
use kvikio.Statistics.Monitor.{
  TransferDirection, read, write, Observation, count_direction, count_operation, SummaryMonitor,
  stamp, on_start, on_finish, end_of, after_get, get, reset, stop,
}
use kvikio.Statistics.Monitor.Calls.{World, Step, Reach}

-- Nothing is reported to a monitor once it is stopped.
pub data Phase (w : World) : Type 0 where
  running :
      w.monitor.registration ≢ 0
      → w.monitor.stopped_end ≡ 0
      → Bound.Reach
          (record { tracker = w.monitor.busy; start = w.monitor.totals.start; now = w.now })
      → Phase w
  stopped :
      w.monitor.registration ≡ 0
      → 0 < w.monitor.stopped_end
      → w.monitor.stopped_end ≤ w.now
      → Bound.Reach (record {
        tracker = w.monitor.busy;
        start = w.monitor.totals.start;
        now = w.monitor.stopped_end;
      })
      → Phase w
  reset_since :
      w.monitor.registration ≡ 0
      → 0 < w.monitor.stopped_end
      → w.monitor.stopped_end ≤ w.now
      → w.monitor.busy.closed_busy ≡ 0
      → w.monitor.busy.emitted_busy ≡ 0
      → w.monitor.stopped_end ≤ w.monitor.busy.busy_since
      → Phase w

pub end_of_running : (now : ℕ) (m : SummaryMonitor) → m.stopped_end ≡ 0 → end_of now m ≡ now
unfolding end_of
end_of_running now m h = ground (arith, h)

pub end_of_stopped :
    (now : ℕ) (m : SummaryMonitor) → 0 < m.stopped_end → end_of now m ≡ m.stopped_end
unfolding end_of
end_of_stopped now m h = ground (arith, h)

count_direction-start :
    (d : TransferDirection) (o : Observation) (s : Summary)
    → (count_direction d o s).start ≡ s.start
unfolding count_direction
count_direction-start read o s = refl
count_direction-start write o s = refl

-- An operation moves no start.
pub counted-start :
    (b : Bool) (o : Observation) (s : Summary)
    → (if b then s else count_operation o s).start ≡ s.start
unfolding count_operation
counted-start true o s = refl
counted-start false o s = count_direction-start o.direction o _

from_start :
    (b : Busy.BusyTracker) (s t now : ℕ)
    → t ≡ s
    → Bound.Reach (record { tracker = b; start = s; now = now })
    → Bound.Reach (record { tracker = b; start = t; now = now })
from_start b s t now h r = rw h r

passes-Phase : (v : World) (t : ℕ) → v.now ≤ t → Phase v → Phase (record v { now = t })
passes-Phase v t later (running r s b) =
    running r s (Bound.Reach.next b (Bound.Step.passes t later))
passes-Phase v t later (stopped r s e b) = stopped r s (omega (arith, e)) b
passes-Phase v t later (reset_since r s e c m b) = reset_since r s (omega (arith, e)) c m b

starts-Phase :
    (v : World) (o : Observation)
    → o.start ≤ v.now
    → v.monitor.registration ≢ 0
    → Phase v
    → Phase (record v { monitor = on_start o v.monitor })
unfolding on_start
starts-Phase v o past r (running n s b) = elim (Bool-cases (ltb o.start v.monitor.registered)) [
  | inl h ↦ rw h (running n s b)
  | inr h ↦ rw h (running n s (Bound.Reach.next b (Bound.Step.starts o.start past)))
]
starts-Phase v o past r (stopped n s e b) = absurd (r n)
starts-Phase v o past r (reset_since n s e c m b) = absurd (r n)

finishes-Phase :
    (v : World) (o : Observation)
    → o.end ≤ v.now
    → v.monitor.registration ≢ 0
    → Phase v
    → Phase (record v { monitor = on_finish o v.monitor })
unfolding on_finish
finishes-Phase v o past r (running n s b) = elim (Bool-cases (ltb o.start v.monitor.registered)) [
  | inl h ↦ rw h (running n s b)
  | inr h ↦
      let finished = Bound.Reach.next b (Bound.Step.finishes o.end past) in
      rw h (
        running n s (
          from_start _ v.monitor.totals.start _ v.now
            (counted-start (ltb o.start v.monitor.totals.start) o v.monitor.totals) finished))
]
finishes-Phase v o past r (stopped n s e b) = absurd (r n)
finishes-Phase v o past r (reset_since n s e c m b) = absurd (r n)

-- A stopped tracker that was reset has nothing to report.
read_reset :
    (b : Busy.BusyTracker) (end : ℕ)
    → b.closed_busy ≡ 0
    → b.emitted_busy ≡ 0
    → end ≤ b.busy_since
    → (Busy.read end b).emitted_busy ≡ 0
unfolding Busy.read
read_reset b end c m s = ground (arith, c, m, s)

read-closed_busy : (b : Busy.BusyTracker) (end : ℕ) → (Busy.read end b).closed_busy ≡ b.closed_busy
unfolding Busy.read
read-closed_busy b end = refl

read-busy_since : (b : Busy.BusyTracker) (end : ℕ) → (Busy.read end b).busy_since ≡ b.busy_since
unfolding Busy.read
read-busy_since b end = refl

gets-Phase : (v : World) → Phase v → Phase (record v { monitor = after_get v.now v.monitor })
unfolding after_get
gets-Phase v (running r s b) =
    rw (end_of_running v.now v.monitor s) (running r s (Bound.Reach.next b Bound.Step.reads))
gets-Phase v (stopped r s e b) =
    rw (end_of_stopped v.now v.monitor s) (stopped r s e (Bound.Reach.next b Bound.Step.reads))
gets-Phase v (reset_since r s e c m b) = rw (end_of_stopped v.now v.monitor s) (
    reset_since r s e (read-closed_busy _ _ ∙ c)
      (read_reset v.monitor.busy v.monitor.stopped_end c m b)
      (omega (arith, read-busy_since v.monitor.busy v.monitor.stopped_end)))

resets-Phase :
    (v : World) (current : Counters)
    → Phase v
    → Phase (record v { monitor = reset v.now current v.monitor })
unfolding reset Busy.reset
resets-Phase v current (running r s b) = running r s (Bound.Reach.next b Bound.Step.restarts)
resets-Phase v current (stopped r s e b) = reset_since r s e refl refl e
resets-Phase v current (reset_since r s e c m b) = reset_since r s e refl refl e

stops-Phase :
    (v : World) (current : Counters)
    → 0 < v.now
    → Phase v
    → Phase (record v { monitor = stop v.now current v.monitor })
unfolding stop
stops-Phase v current late p = elim (Bool-cases (v.monitor.registration == 0)) [
  | inl h ↦ rw h p
  | inr h ↦ rw h (stopping (ground arith) p)
]
  where
    stopping :
        v.monitor.registration ≢ 0
        → Phase v
        → Phase (record v {
          monitor = record v.monitor {
            registration = 0;
            counters_at_stop = current;
            stopped_end = v.now;
          };
        })
    stopping n (running r s b) = stopped refl late (omega arith) b
    stopping n (stopped r s e b) = absurd (n r)
    stopping n (reset_since r s e c m b) = absurd (n r)

pub Reach-Phase : {w : World} → Reach w → Phase w
unfolding stamp
Reach-Phase (Reach.constructed id t anchor kind current first) =
    running first refl (Bound.Reach.fresh t)
Reach-Phase (Reach.next {v} r step) = after v (Reach-Phase r) step
  where
    after : (v : World) → Phase v → {w : World} → Step v w → Phase w
    after v p (Step.passes t later) = passes-Phase v t later p
    after v p (Step.starts o n past) = starts-Phase v o past n p
    after v p (Step.finishes o n past known) = finishes-Phase v o past n p
    after v p Step.gets = gets-Phase v p
    after v p (Step.resets current) = resets-Phase v current p
    after v p (Step.stops current late) = stops-Phase v current late p

-- However late and in whichever order operations are reported, and however a monitor is read, reset and
-- stopped, every reading's busy time is at most its wall time: the time from the span's start to the
-- instant of the reading, or to where the monitor was stopped.
pub busy-le-wall :
    {w : World}
    → Reach w
    → (current : Counters) → (get w.now current w.monitor).busy ≤ wall (get w.now current w.monitor)
unfolding get after_get wall
busy-le-wall {w} r current = elim (Reach-Phase r) [
  | running n s b ↦ rw (end_of_running w.now w.monitor s) (ground (arith, busy_le_wall b))
  | stopped n s e b ↦ rw (end_of_stopped w.now w.monitor s) (ground (arith, busy_le_wall b))
  | reset_since n s e c m b ↦
      rw (end_of_stopped w.now w.monitor s, read_reset w.monitor.busy w.monitor.stopped_end c m b)
        (omega arith)
]
