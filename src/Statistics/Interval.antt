-- ===== src/Statistics/Interval.antt =====
-- Summary::since of cpp/src/statistics/summary.cpp: an interval between two readings of one span.
use kvikio.Base.{
  ℕ, ◌+◌, ◌≤◌, ◌≡◌, ◌≢◌, refl, sym, ◌∙◌, inl, inr, Bool, true, false, ◌&&◌, Bool-cases, ltb, leb,
  ◌==◌, sub64, ok, err, invalid_argument, expect, ◌>>◌, arith,
}
use kvikio.Statistics.{Counters, Summary, interval, since, subtract}
use kvikio.Statistics.Busy
use kvikio.Statistics.Monitor.{
  SummaryMonitor, on_start, on_finish, end_of, after_get, get, get_since, stop,
}
use kvikio.Statistics.Monitor.Calls.{World, Step, Reach}
use kvikio.Statistics.Monitor.Span.{
  counted-start, Phase, Reach-Phase, running, stopped, reset_since,
}

-- A step that begins no new span.
abbrev pub IsInSpan : {v w : World} → Step v w → Type 0
IsInSpan (Step.passes t later) = Unit
IsInSpan (Step.starts o r past) = Unit
IsInSpan (Step.finishes o r past known) = Unit
IsInSpan Step.gets = Unit
IsInSpan (Step.resets current) = ⊥
IsInSpan (Step.stops current late) = Unit

pub data Later (v : World) : World → Type 0 where
  same : Later v v
  next : {w x : World} → Later v w → (s : Step w x) → IsInSpan s → Later v x

-- What a reading was stamped with stays, or grows.
pub record Follows (v w : World) : Type 0 where
  pub start : w.monitor.totals.start ≡ v.monitor.totals.start
  pub end : end_of v.now v.monitor ≤ end_of w.now w.monitor
  pub emitted : v.monitor.busy.emitted_busy ≤ w.monitor.busy.emitted_busy

emitted-on_start :
    (t : ℕ) (b : Busy.BusyTracker) → (Busy.on_start t b).emitted_busy ≡ b.emitted_busy
unfolding Busy.on_start
emitted-on_start t b = refl

emitted-on_finish :
    (t : ℕ) (b : Busy.BusyTracker) → (Busy.on_finish t b).emitted_busy ≡ b.emitted_busy
unfolding Busy.on_finish Busy.close_stretch
emitted-on_finish t b = elim (Bool-cases (b.in_flight == 0)) [
  | inl h ↦ rw h refl
  | inr h ↦ elim (Bool-cases (ltb 0 (sub64 b.in_flight 1))) [
    | inl k ↦ rw (h, k) refl
    | inr k ↦ rw (h, k) refl
  ]
]

emitted-le-read : (t : ℕ) (b : Busy.BusyTracker) → b.emitted_busy ≤ (Busy.read t b).emitted_busy
unfolding Busy.read
emitted-le-read t b = omega arith

same-Follows : (w : World) → Follows w w
same-Follows w = record { start = refl; end = omega arith; emitted = omega arith }

stops-Follows :
    (v : World) (current : Counters)
    → Phase v
    → Follows v (record v { monitor = stop v.now current v.monitor })
unfolding stop end_of
stops-Follows v current p = elim (Bool-cases (v.monitor.registration == 0)) [
  | inl h ↦ rw h (same-Follows v)
  | inr h ↦ elim p [
    | running n s b ↦ rw h (record { start = refl; end = ground (arith, s); emitted = omega arith })
    | stopped n s e b ↦ absurd (ground (arith, n))
    | reset_since n s e c m b ↦ absurd (ground (arith, n))
  ]
]

Step-Follows : {v w : World} (s : Step v w) → IsInSpan s → Phase v → Follows v w
unfolding on_start on_finish end_of after_get
Step-Follows {v} (Step.passes t later) i p = record {
  start = refl;
  end = elim p [
    | running n s b ↦ ground (arith, s, later)
    | stopped n s e b ↦ ground (arith, s)
    | reset_since n s e c m b ↦ ground (arith, s)
  ];
  emitted = omega arith;
}
Step-Follows {v} (Step.starts o n past) i p = elim (Bool-cases (ltb o.start v.monitor.registered)) [
  | inl h ↦ rw h (same-Follows v)
  | inr h ↦ rw h (record {
    start = refl;
    end = omega arith;
    emitted = omega (arith, emitted-on_start o.start v.monitor.busy);
  })
]
Step-Follows {v} (Step.finishes o n past known) i p =
    elim (Bool-cases (ltb o.start v.monitor.registered)) [
      | inl h ↦ rw h (same-Follows v)
      | inr h ↦ rw h (record {
        start = counted-start (ltb o.start v.monitor.totals.start) o v.monitor.totals;
        end = omega arith;
        emitted = omega (arith, emitted-on_finish o.end v.monitor.busy);
      })
    ]
Step-Follows {v} Step.gets i p = record {
  start = refl;
  end = omega arith;
  emitted = emitted-le-read _ v.monitor.busy;
}
Step-Follows (Step.resets current) i p = absurd i
Step-Follows {v} (Step.stops current late) i p = stops-Follows v current p

Later-Reach : {v w : World} → Later v w → Reach v → Reach w
Later-Reach same r = r
Later-Reach (next l s i) r = Reach.next (Later-Reach l r) s

Later-Follows : {v w : World} → Later v w → Reach v → Follows v w
Later-Follows {v} same r = same-Follows v
Later-Follows (next l s i) r =
    let before = Later-Follows l r in
    let after = Step-Follows s i (Reach-Phase (Later-Reach l r)) in
    record {
      start = after.start ∙ before.start;
      end = omega (arith, before.end, after.end);
      emitted = omega (arith, before.emitted, after.emitted);
    }

since_ok :
    (s previous : Summary)
    → previous.start ≡ s.start
    → previous.end ≤ s.end
    → since s previous ≡ ok (interval s previous)
unfolding since
since_ok s previous h k =
    let guard : (previous.start == s.start && leb previous.end s.end) ≡ true =
      ground (arith, h, k) in
    rw guard refl

end_of-after_get : (now : ℕ) (m : SummaryMonitor) → end_of now (after_get now m) ≡ end_of now m
unfolding end_of after_get
end_of-after_get now m = refl

add_subtract : (a b : ℕ) → a ≤ b → a + subtract b a ≡ b
add_subtract a b h = ground arith

-- Two readings of one span, however many operations, readings and stops lie between them: `since`
-- accepts the first as the baseline of the second, the interval begins where the first reading ended
-- and ends where the second did, and the busy time of the first reading and of the interval make up
-- that of the second.
pub get_since-busy :
    {v w : World}
    → Reach v
    → (first second : Counters) → Later (record v { monitor = after_get v.now v.monitor }) w
    → let previous = get v.now first v.monitor in
      let later = get w.now second w.monitor in
      (s : Summary) × (get_since w.now second previous w.monitor ≡ ok s)
      × (s.start ≡ previous.end)
      × (s.end ≡ later.end)
      × (previous.busy + s.busy ≡ later.busy)
unfolding get after_get
get_since-busy {v} {w} r first second l =
    let previous = get v.now first v.monitor in
    let later = get w.now second w.monitor in
    let f = Later-Follows l (Reach.next r Step.gets) in
    let ordered : previous.end ≤ later.end =
      omega (arith, f.end, end_of-after_get v.now v.monitor) in
    let grown : previous.busy ≤ later.busy =
      omega (arith, f.emitted, emitted-le-read (end_of w.now w.monitor) w.monitor.busy) in
    (
      interval later previous,
      since_ok later previous (sym f.start) ordered,
      refl,
      refl,
      add_subtract previous.busy later.busy grown,
    )

guard_inv :
    (b : Bool) (x i : Summary) → (expect b invalid_argument >> ok x) ≡ ok i → (b ≡ true) × (i ≡ x)
guard_inv true x i h = (refl, cc h)
guard_inv false x i h = absurd (cc h)

since_refused :
    (s previous : Summary) → previous.start ≢ s.start → since s previous ≡ err invalid_argument
unfolding since
since_refused s previous h =
    let guard : (previous.start == s.start) ≡ false = ground (arith, h) in rw guard refl

-- An interval is no reading of its span: it is refused as the baseline of a further interval, unless
-- the reading it began with had lasted no time.
pub since-since_refused :
    (previous s later i : Summary)
    → since s previous ≡ ok i
    → previous.start ≢ previous.end
    → later.start ≡ s.start
    → since later i ≡ err invalid_argument
unfolding since
since-since_refused previous s later i h lasted same_span =
    let (guard, is) = guard_inv _ _ i h in
    since_refused later i (λ e. lasted (ground (arith, guard, is, e, same_span)))
