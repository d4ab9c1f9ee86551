-- ===== src/Statistics/Busy/Bound.antt =====
-- In whatever order operations are reported, busy time never exceeds the time of the span.
use kvikio.Base.{
  ℕ, ◌+◌, ◌-◌, ◌≤◌, ◌<◌, ◌≡◌, refl, Bool, true, false, ltb, ◌==◌, if◌then◌else◌, sub64, arith,
}
use kvikio.Statistics.Busy.{
  BusyTracker, new_tracker, reset, on_start, close_stretch, on_finish, read,
}

-- The tracker, the start of the span, and the time.
pub record Watched : Type 0 where
  pub tracker : BusyTracker
  pub start : ℕ
  pub now : ℕ

-- One call under the lock. What is reported lies in the past; how far, and in which order, is open.
pub data Step (w : Watched) : Watched → Type 0 where
  passes : (t : ℕ) → w.now ≤ t → Step w (record w { now = t })
  starts : (t : ℕ) → t ≤ w.now → Step w (record w { tracker = on_start t w.tracker })
  finishes : (t : ℕ) → t ≤ w.now → Step w (record w { tracker = on_finish t w.tracker })
  reads : Step w (record w { tracker = read w.now w.tracker })
  restarts : Step w (record w { tracker = reset w.now w.tracker; start = w.now })

-- From the constructor of the monitor, at time `t`.
pub data Reach : Watched → Type 0 where
  fresh : (t : ℕ) → Reach (record { tracker = reset t new_tracker; start = t; now = t })
  next : {v w : Watched} → Reach v → Step v w → Reach w

pub record Inv (w : Watched) : Type 0 where
  pub began : w.start ≤ w.tracker.last_closed
  pub closed_by_now : w.tracker.last_closed ≤ w.now
  pub closed : w.tracker.closed_busy + w.start ≤ w.tracker.last_closed
  pub pending : w.tracker.pending_end ≤ w.now
  pub since_closed : 0 < w.tracker.in_flight → w.tracker.last_closed ≤ w.tracker.busy_since
  pub emitted : w.tracker.emitted_busy + w.start ≤ w.now

module _ {w : Watched} (inv : Inv w) where
  open inv use {began, closed_by_now, closed, pending, since_closed, emitted}

  starts-Inv : (t : ℕ) → t ≤ w.now → Inv (record w { tracker = on_start t w.tracker })
  unfolding on_start
  starts-Inv t past = record {
    began = began;
    closed_by_now = closed_by_now;
    closed = closed;
    pending = pending;
    since_closed = λ some_left. ground (arith, since_closed);
    emitted = emitted;
  }

  close-Inv :
      (b : BusyTracker)
      → b.pending_end ≤ w.now
      → b.closed_busy ≡ w.tracker.closed_busy
      → b.last_closed ≤ b.busy_since
      → b.in_flight ≡ 0
      → b.last_closed ≡ w.tracker.last_closed
      → b.emitted_busy ≡ w.tracker.emitted_busy
      → Inv (record w { tracker = close_stretch b })
  unfolding close_stretch
  close-Inv b past c s none_left l e = record {
    began = omega (arith, l, began);
    closed_by_now = omega (arith, l, closed_by_now);
    closed = ground (arith, closed);
    pending = omega arith;
    since_closed = λ some_left. absurd (omega arith);
    emitted = omega (arith, emitted);
  }

  if-Inv :
      (b : Bool) (x y : BusyTracker)
      → (b ≡ true → Inv (record w { tracker = x }))
      → (b ≡ false → Inv (record w { tracker = y }))
      → Inv (record w { tracker = if b then x else y })
  if-Inv true x y hx hy = hx refl
  if-Inv false x y hx hy = hy refl

  Step-Inv : {v : Watched} → Step w v → Inv v
  unfolding reset on_finish read
  Step-Inv (passes t later) = record {
    began = began;
    closed_by_now = omega (arith, closed_by_now);
    closed = closed;
    pending = omega (arith, pending);
    since_closed = since_closed;
    emitted = omega (arith, emitted);
  }
  Step-Inv (starts t past) = starts-Inv t past
  Step-Inv (finishes t past) =
      if-Inv (w.tracker.in_flight == 0) w.tracker _ (λ idle. inv)
        (λ some_left.
          if-Inv (ltb 0 (sub64 w.tracker.in_flight 1)) _ _
            (λ more. record {
              began = began;
              closed_by_now = closed_by_now;
              closed = closed;
              pending = omega (arith, pending);
              since_closed = λ _. since_closed (ground arith);
              emitted = emitted;
            })
            (λ last.
              close-Inv _ (omega (arith, pending)) refl (since_closed (ground arith)) (ground arith)
                refl refl))
  Step-Inv reads = record {
    began = began;
    closed_by_now = closed_by_now;
    closed = closed;
    pending = pending;
    since_closed = since_closed;
    emitted = ground (arith, emitted, closed, began, closed_by_now, since_closed);
  }
  Step-Inv restarts = record {
    began = omega arith;
    closed_by_now = omega arith;
    closed = omega arith;
    pending = omega arith;
    since_closed = λ some_left. omega arith;
    emitted = omega arith;
  }

Reach-Inv : {w : Watched} → Reach w → Inv w
unfolding reset
Reach-Inv (fresh t) = record {
  began = omega arith;
  closed_by_now = omega arith;
  closed = omega arith;
  pending = omega arith;
  since_closed = λ some_left. omega arith;
  emitted = omega arith;
}
Reach-Inv (next r step) = Step-Inv (Reach-Inv r) step

-- However late and in whichever order starts and finishes are reported, and however often the span is
-- reset, a reading of the busy time is at most the time since the span began.
pub busy_le_wall : {w : Watched} → Reach w → (read w.now w.tracker).emitted_busy ≤ w.now - w.start
busy_le_wall r = let inv = Step-Inv (Reach-Inv r) reads in omega (arith, inv.emitted)
