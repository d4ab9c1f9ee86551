-- ===== src/Statistics/Busy/Union.antt =====
-- Reported in time, the tracker computes what it should: the time during which some operation is in
-- flight, which a specification counts directly.
use kvikio.Statistics.Busy.Timeline.{
  Event, starts, finishes, looks, Timeline, advance_to, happens, report, IsPossible, IsInOrder,
  run_timeline, run_tracker, new_timeline,
}
use kvikio.Base.{
  ℕ, ◌+◌, ◌-◌, ◌≤◌, ◌<◌, ◌≡◌, refl, inl, inr, Bool, true, false, List, [], ◌∷◌, ltb, ◌==◌,
  if◌then◌else◌, Bool-cases, add64, sub64, add64_exact, sub64_exact, u64_mod, arith,
}
use kvikio.Statistics.Busy.{
  BusyTracker, new_tracker, reset, on_start, close_stretch, on_finish, read,
}

-- What the tracker holds says how long some operation was in flight.
pub record Refines (b : BusyTracker) (l : Timeline) : Type 0 where
  pub counts : b.in_flight ≡ l.active
  pub small : l.active < u64_mod
  pub closed_by_now : b.last_closed ≤ l.now
  pub idle_busy : l.active ≡ 0 → b.closed_busy ≡ l.busy
  pub idle_pending : l.active ≡ 0 → b.pending_end ≡ 0
  pub open_since : 0 < l.active → (b.last_closed ≤ b.busy_since) × (b.busy_since ≤ l.now)
  pub open_busy : 0 < l.active → b.closed_busy + l.now ≡ l.busy + b.busy_since
  pub pending : b.pending_end ≤ l.now
  pub emitted : b.emitted_busy ≤ l.busy

advance_to-Refines :
    (t : ℕ) (b : BusyTracker) (l : Timeline) → l.now ≤ t → Refines b l → Refines b (advance_to t l)
unfolding advance_to
advance_to-Refines t b l later r = elim (Bool-cases (l.active == 0)) [
  | inl idle ↦ rw idle (record {
    counts = r.counts;
    small = r.small;
    closed_by_now = omega (arith, r.closed_by_now);
    idle_busy = r.idle_busy;
    idle_pending = r.idle_pending;
    open_since = λ some_left. absurd (ground arith);
    open_busy = λ some_left. absurd (ground arith);
    pending = omega (arith, r.pending);
    emitted = r.emitted;
  })
  | inr working ↦
      let some_left : 0 < l.active = ground arith in
      rw working (record {
        counts = r.counts;
        small = r.small;
        closed_by_now = omega (arith, r.closed_by_now);
        idle_busy = λ none_left. absurd (omega arith);
        idle_pending = λ none_left. absurd (omega arith);
        open_since = λ _. ((r.open_since some_left).0, omega (arith, (r.open_since some_left).1));
        open_busy = λ _. omega (arith, r.open_busy some_left);
        pending = omega (arith, r.pending);
        emitted = omega (arith, r.emitted);
      })
]

starts-Refines :
    (b : BusyTracker) (l : Timeline)
    → l.active + 1 < u64_mod
    → Refines b l
    → Refines (on_start l.now b) (happens starts l)
unfolding on_start happens
starts-Refines b l few r =
    let up : add64 b.in_flight 1 ≡ l.active + 1 =
      omega (arith, add64_exact b.in_flight 1, r.counts) in
    record {
      counts = up;
      small = few;
      closed_by_now = r.closed_by_now;
      idle_busy = λ none_left. absurd (omega arith);
      idle_pending = λ none_left. absurd (omega arith);
      open_since = λ _. ground (arith, r.counts, r.closed_by_now, r.open_since);
      open_busy =
          λ _. ground (arith, r.counts, r.closed_by_now, r.open_since, r.open_busy, r.idle_busy);
      pending = r.pending;
      emitted = r.emitted;
    }

close-Refines :
    (b : BusyTracker) (l : Timeline) (e : ℕ)
    → l.active ≡ 1
    → b.in_flight ≡ 0
    → b.pending_end ≡ l.now
    → b.last_closed ≤ b.busy_since
    → b.busy_since ≤ l.now
    → b.closed_busy + l.now ≡ l.busy + b.busy_since
    → b.emitted_busy ≤ l.busy
    → Refines (close_stretch b) (happens finishes l)
unfolding close_stretch happens
close-Refines b l e one none_left p closed_first s o emitted_first = record {
  counts = omega arith;
  small = omega arith;
  closed_by_now = omega arith;
  idle_busy = λ _. ground arith;
  idle_pending = λ _. refl;
  open_since = λ some_left. absurd (omega arith);
  open_busy = λ some_left. absurd (omega arith);
  pending = omega arith;
  emitted = emitted_first;
}

if-Refines :
    (l : Timeline) (b : Bool) (x y : BusyTracker)
    → (b ≡ true → Refines x l)
    → (b ≡ false → Refines y l)
    → Refines (if b then x else y) l
if-Refines l true x y hx hy = hx refl
if-Refines l false x y hx hy = hy refl

finishes-Refines :
    (b : BusyTracker) (l : Timeline)
    → 0 < l.active
    → Refines b l
    → Refines (on_finish l.now b) (happens finishes l)
unfolding on_finish happens
finishes-Refines b l some_left r =
    let down : sub64 b.in_flight 1 ≡ l.active - 1 =
      omega (arith, sub64_exact b.in_flight 1, r.counts, r.small) in
    if-Refines (happens finishes l) (b.in_flight == 0) b _
      (λ idle. absurd (ground (arith, r.counts)))
      (λ _.
        if-Refines (happens finishes l) (ltb 0 (sub64 b.in_flight 1)) _ _
          (λ more. record {
            counts = down;
            small = omega (arith, r.small);
            closed_by_now = r.closed_by_now;
            idle_busy = λ none_left. absurd (ground arith);
            idle_pending = λ none_left. absurd (ground arith);
            open_since = λ _. r.open_since some_left;
            open_busy = λ _. r.open_busy some_left;
            pending = omega (arith, r.pending);
            emitted = r.emitted;
          })
          (λ last.
            close-Refines _ l 0 (ground arith) (ground arith) (omega (arith, r.pending))
              (r.open_since some_left).0 (r.open_since some_left).1 (r.open_busy some_left)
              r.emitted))

read_exact : (b : BusyTracker) (l : Timeline) → Refines b l → (read l.now b).emitted_busy ≡ l.busy
unfolding read
read_exact b l r = elim (Bool-cases (l.active == 0)) [
  | inl idle ↦ ground (arith, r.counts, r.emitted, r.idle_busy)
  | inr working ↦ ground (arith, r.counts, r.emitted, r.open_since, r.open_busy)
]

looks-Refines : (b : BusyTracker) (l : Timeline) → Refines b l → Refines (read l.now b) l
unfolding read
looks-Refines b l r =
    let exact = read_exact b l r in
    record {
      counts = r.counts;
      small = r.small;
      closed_by_now = r.closed_by_now;
      idle_busy = r.idle_busy;
      idle_pending = r.idle_pending;
      open_since = r.open_since;
      open_busy = r.open_busy;
      pending = r.pending;
      emitted = omega (arith, exact);
    }

happens-Refines :
    (e : Event) (b : BusyTracker) (l : Timeline)
    → IsPossible e l
    → Refines b l
    → Refines (report l.now e b) (happens e l)
unfolding happens report
happens-Refines starts b l few r = starts-Refines b l few r
happens-Refines finishes b l some_left r = finishes-Refines b l some_left r
happens-Refines looks b l p r = looks-Refines b l r

-- How the specification stands after events that are in order.
pub run-Refines :
    (events : List (ℕ × Event)) (b : BusyTracker) (l : Timeline)
    → IsInOrder l events
    → Refines b l
    → Refines (run_tracker b events) (run_timeline l events)
unfolding advance_to
run-Refines [] b l o r = r
run-Refines ((t, e) ∷ events) b l o r =
    run-Refines events (report t e b) (happens e (advance_to t l)) o.2
      (happens-Refines e b (advance_to t l) o.1 (advance_to-Refines t b l o.0 r))

reset-Refines : (t : ℕ) → Refines (reset t new_tracker) (new_timeline t)
unfolding reset
reset-Refines t = record {
  counts = refl;
  small = omega arith;
  closed_by_now = omega arith;
  idle_busy = λ _. refl;
  idle_pending = λ _. refl;
  open_since = λ some_left. absurd (omega arith);
  open_busy = λ some_left. absurd (omega arith);
  pending = omega arith;
  emitted = omega arith;
}

-- A tracker that is told of starts, finishes and readings in the order of their times, with fewer
-- than 2^64 operations in flight and no finish without a start, and that is read at a time not before
-- the last of them, returns the time during which at least one operation was in flight, from where it
-- was reset to that reading, as the specification counts it.
pub read-run_tracker :
    (t now : ℕ) (events : List (ℕ × Event))
    → IsInOrder (new_timeline t) events
    → (run_timeline (new_timeline t) events).now ≤ now
    → (read now (run_tracker (reset t new_tracker) events)).emitted_busy
      ≡ (advance_to now (run_timeline (new_timeline t) events)).busy
unfolding advance_to
read-run_tracker t now events o later =
    let l = run_timeline (new_timeline t) events in
    read_exact (run_tracker (reset t new_tracker) events) (advance_to now l)
      (advance_to-Refines now _ l later (run-Refines events _ _ o (reset-Refines t)))
