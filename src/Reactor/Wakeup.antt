-- ===== src/Reactor/Wakeup.antt =====
-- The deadlines that an admission pass records, and the transfers that wait.
use kvikio.Base.{
  ℕ, zero, suc, ◌≤◌, ◌<◌, ◌≡◌, refl, sym, subst, ◌∙◌, inl, inr, Bool, true, false, not, min, ◌&&◌,
  Option, none, some, List, [], ◌∷◌, ◌++◌, ltb, if◌then◌else◌, update, Bool-cases, Option-cases,
  Result-cases, Error, All, All-append, arith,
}
use kvikio.Limiter.{try_acquire}
use kvikio.Reactor.{
  Transfer, Reactor, World, try_pop_queued, queue_share_per_reactor, return_to_queue,
}
use kvikio.Reactor.Shards.{try_get}
use kvikio.Reactor.Admission.{
  Env, PassOutcome, is_in, AdmitPass, record_ready_at, Tried, attach, admit_with_slot, try_admit,
  Passed, admit_retries, after_try, pool_round, start_pass, pool_loop, admit_from_pool,
  admit_pending,
}
use kvikio.Reactor.Handover.{Admitted-cases}

-- Some deadline that was recorded is no later.
abbrev pub IsDue : ℕ → PassOutcome → Type 0
IsDue n o = (m : ℕ) × (o.earliest_ready_at ≡ some m) × (m ≤ n)

-- The deadline of a transfer is covered, unless it is past.
abbrev pub IsKnown : ℕ → PassOutcome → Transfer → Type 0
IsKnown now o t = now < t.ready_at → IsDue t.ready_at o

abbrev pub Extends : PassOutcome → PassOutcome → Type 0
Extends o later = (n : ℕ) → IsDue n o → IsDue n later

pub record_ready_at-IsDue : (n : ℕ) (o : PassOutcome) → IsDue n (record_ready_at n o)
unfolding record_ready_at
record_ready_at-IsDue n o = elim (Option-cases o.earliest_ready_at) [
  | inl h ↦ rw h (n, refl, omega arith)
  | inr (m, h) ↦ rw h (min m n, refl, omega arith)
]

pub record_ready_at-Extends : (n : ℕ) (o : PassOutcome) → Extends o (record_ready_at n o)
unfolding record_ready_at
record_ready_at-Extends n o k (m, h, le) = rw h (min m n, refl, omega (arith, le))

pub Extends-All :
    (now : ℕ) (o later : PassOutcome) (ts : List Transfer)
    → Extends o later
    → All (IsKnown now o) ts
    → All (IsKnown now later) ts
Extends-All now o later [] h a = tt
Extends-All now o later (t ∷ ts) h (known, more) =
    ((λ late. h t.ready_at (known late)), Extends-All now o later ts h more)

-- What `try_admit` leaves: the retries as they were, and its transfer's deadline covered.
abbrev Covers : Reactor → AdmitPass → Tried → Type 0
Covers r pass tried =
    (tried.reactor.pending ≡ r.pending)
    × (tried.pass.started_at ≡ pass.started_at)
    × Extends pass.outcome tried.pass.outcome
    × IsKnown pass.started_at tried.pass.outcome tried.transfer

past-IsKnown : (now : ℕ) (o : PassOutcome) (t : Transfer) → t.ready_at ≤ now → IsKnown now o t
past-IsKnown now o t past late = absurd (omega (arith, past, late))

if-Covers :
    (r : Reactor) (pass : AdmitPass) (b : Bool) (x y : Tried)
    → (b ≡ true → Covers r pass x)
    → (b ≡ false → Covers r pass y)
    → Covers r pass (if b then x else y)
if-Covers r pass true x y hx hy = hx refl
if-Covers r pass false x y hx hy = hy refl

attach-Covers :
    (env : Env) (t : Transfer) (r : Reactor) (pass : AdmitPass)
    → t.ready_at ≤ pass.started_at
    → Covers r pass (attach env t r pass)
unfolding attach
attach-Covers env t r pass past =
    let known = past-IsKnown pass.started_at pass.outcome t past in
    if-Covers r pass (env.attaches t.easy) _ _ (λ takes. (refl, refl, (λ n d. d), known))
      (λ fails. (refl, refl, (λ n d. d), known))

admit_with_slot-Covers :
    (env : Env) (t : Transfer) (r : Reactor) (pass : AdmitPass)
    → t.ready_at ≤ pass.started_at
    → Covers r pass (admit_with_slot env t r pass)
unfolding admit_with_slot
admit_with_slot-Covers env t r pass past =
    let got =
      try_get env.cap env.buffer_size (env.allocation_failure t.easy) (r.shards t.device_ctx) in
    let known = past-IsKnown pass.started_at pass.outcome t past in
    if-Covers r pass (not t.is_device) _ _ (λ host. attach-Covers env t r pass past)
      (λ device. elim (Result-cases got.1) [
        | inr (e, said) ↦ rw said (refl, refl, (λ n d. d), known)
        | inl (none, said) ↦ rw said (refl, refl, (λ n d. d), known)
        | inl (some size, said) ↦ rw said (
            attach-Covers env (record t { has_buffer = true })
              (record r { shards = update r.shards t.device_ctx got.0 }) pass past)
      ])

try_admit-Covers :
    (env : Env) (t : Transfer) (r : Reactor) (pass : AdmitPass)
    → Covers r pass (try_admit env t r pass)
unfolding try_admit
try_admit-Covers env t r pass =
    let bare = record t { has_slot = false } in
    let acquired =
      if t.has_slot then (r.request_limiter, true) else try_acquire r.request_limiter in
    if-Covers r pass (ltb pass.started_at t.ready_at) _ _
      (λ early. (
        refl,
        refl,
        record_ready_at-Extends t.ready_at pass.outcome,
        (λ late. record_ready_at-IsDue t.ready_at pass.outcome),
      ))
      (λ ready.
        let past : t.ready_at ≤ pass.started_at = ground (arith, ready) in
        let known = past-IsKnown pass.started_at pass.outcome t past in
        if-Covers r pass (t.is_device && is_in t.device_ctx pass.exhausted_ctxs) _ _
          (λ full. (refl, refl, (λ n d. d), known))
          (λ open_ctx.
            if-Covers r pass acquired.1 _ _
              (λ slot.
                admit_with_slot-Covers env bare (record r { request_limiter = acquired.0 }) pass
                  past)
              (λ none_left. (refl, refl, (λ n d. d), known))))

module _ (now : ℕ) where
  -- A pass that did not throw covers all retries.
  abbrev pub IsDone : Passed → Type 0
  IsDone p = p.thrown ≡ none → All (IsKnown now p.pass.outcome) p.world.reactor.pending

  some_apart : (e : Error) → ◌≡◌ {A = Option Error} (some e) none → ⊥
  some_apart e h = absurd (cc h)

  admit_retries-IsDone :
      (env : Env) (kept ts : List Transfer) (w : World) (pass : AdmitPass)
      → pass.started_at ≡ now
      → All (IsKnown now pass.outcome) kept
      → IsDone (admit_retries env kept ts w pass)
        × ((admit_retries env kept ts w pass).pass.started_at ≡ now)
  unfolding admit_retries
  admit_retries-IsDone env kept [] w pass started known = ((λ fine. known), started)
  admit_retries-IsDone env kept (t ∷ ts) w pass started known =
      let tried = try_admit env t w.reactor pass in
      let w' = record w { reactor = tried.reactor } in
      let (same, later, more, covered) = try_admit-Covers env t w.reactor pass in
      let still = Extends-All now pass.outcome tried.pass.outcome kept more known in
      let one : IsKnown now tried.pass.outcome tried.transfer =
        subst (λ s. IsKnown s tried.pass.outcome tried.transfer) started covered in
      elim (Admitted-cases tried.answer) [
        | inl went ↦
            rw (went, admit_retries)
              (admit_retries-IsDone env kept ts w' tried.pass (later ∙ started) still)
        | inr (inl stays) ↦
            rw (stays, admit_retries)
              (admit_retries-IsDone env (kept ++ tried.transfer ∷ []) ts w' tried.pass
                (later ∙ started)
                (All-append (IsKnown now tried.pass.outcome) kept (tried.transfer ∷ []) still
                  (one, tt)))
        | inr (inr (e, fails)) ↦
            rw (fails, admit_retries) ((λ fine. absurd (some_apart e fine)), later ∙ started)
      ]

  -- What follows a round of the loop over the queue covers the retries if they were covered.
  abbrev Continues : (World → AdmitPass → Passed) → Type 0
  Continues rest =
      (v : World) (pass : AdmitPass)
      → pass.started_at ≡ now
      → All (IsKnown now pass.outcome) v.reactor.pending
      → IsDone (rest v pass)

  return_to_queue-pending :
      (t : Transfer) (w : World) → (return_to_queue t w).reactor.pending ≡ w.reactor.pending
  unfolding return_to_queue
  return_to_queue-pending t w = elim (Option-cases w.pool.death_reason) [
    | inl alive ↦ rw (alive, return_to_queue) refl
    | inr (e, dead) ↦ rw (dead, return_to_queue) refl
  ]

  after_try-IsDone :
      (rest : World → AdmitPass → Passed) (w : World) (tried : Tried)
      → Continues rest
      → tried.pass.started_at ≡ now
      → All (IsKnown now tried.pass.outcome) tried.reactor.pending
      → IsDone (after_try rest w tried)
  unfolding after_try
  after_try-IsDone rest w tried continue started known =
      let w' = record w { reactor = tried.reactor } in
      elim (Admitted-cases tried.answer) [
        | inl went ↦ rw (went, after_try) (continue w' tried.pass started known)
        | inr (inl stays) ↦
            rw (stays, after_try)
              (λ fine.
                subst (All (IsKnown now tried.pass.outcome))
                  (sym (return_to_queue-pending tried.transfer w')) known)
        | inr (inr (e, fails)) ↦ rw (fails, after_try) (λ fine. absurd (some_apart e fine))
      ]

  pool_round-IsDone :
      (env : Env) (rest : World → AdmitPass → Passed)
      → Continues rest
      → Continues (pool_round env rest)
  unfolding pool_round
  pool_round-IsDone env rest continue w pass started known =
      let acquired = try_acquire w.reactor.request_limiter in
      let popped = try_pop_queued w.pool in
      let holding = record (w.reactor) { request_limiter = acquired.0 } in
      elim (Bool-cases acquired.1) [
        | inr full ↦ rw full (λ fine. known)
        | inl slot ↦ elim (Option-cases popped.0) [
          | inl nothing ↦ rw (slot, nothing) (λ fine. known)
          | inr (t, first) ↦
              let held = record t { has_slot = true } in
              let tried = try_admit env held holding pass in
              let (same, later, more, covered) = try_admit-Covers env held holding pass in
              rw (slot, first)
                (after_try-IsDone rest (record w { pool = popped.1 }) tried continue
                  (later ∙ started)
                  (subst (All (IsKnown now tried.pass.outcome)) (sym same)
                    (Extends-All now pass.outcome tried.pass.outcome w.reactor.pending more known)))
        ]
      ]

  pool_loop-IsDone : (env : Env) (share : ℕ) → Continues (pool_loop env share)
  unfolding pool_loop
  pool_loop-IsDone env zero w pass started known = λ fine. known
  pool_loop-IsDone env (suc share) w pass started known =
      pool_round-IsDone env (pool_loop env share) (pool_loop-IsDone env share) w pass started known

pub admit_pending-IsDone : (env : Env) (w : World) → IsDone env.now (admit_pending env w)
unfolding admit_pending admit_from_pool
admit_pending-IsDone env w =
    let retried = admit_retries env [] w.reactor.pending w (start_pass env) in
    let (covered, started) =
      admit_retries-IsDone env.now env [] w.reactor.pending w (start_pass env) refl tt in
    elim (Option-cases retried.thrown) [
      | inl fine ↦
          rw (fine, admit_pending)
            (pool_loop-IsDone env.now env (queue_share_per_reactor retried.world.pool) retried.world
              retried.pass started (covered fine))
      | inr (e, fails) ↦
          rw (fails, admit_pending) (λ fine. absurd (some_apart env.now e (sym fails ∙ fine)))
    ]
