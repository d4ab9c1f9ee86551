-- ===== src/Reactor/Resolution.antt =====
-- Completions keep the places of each transfer, and so does a whole round of the I/O thread.
use kvikio.Base.{
  ℕ, ◌+◌, ◌*◌, ◌≡◌, refl, ◌∙◌, ap, inl, inr, ◌⊎◌, Bool, true, false, not, ◌&&◌, Option, none, some,
  List, [], ◌∷◌, ◌==◌, if◌then◌else◌, add64, Bool-cases, Option-cases, Result, ok, err, Error,
  runtime_error, overflow_error, arith,
}
use kvikio.HttpRetry.{
  CurlCode, HttpRetryPolicy, RetryOutcome, RetryDecision, success, retry, fatal, exhausted,
  evaluate, is_curle_ok,
}
use kvikio.Reactor.{
  Transfer, Report, subrange_complete, subrange_failed, Reactor, World, fail_each, signal_death,
}
use kvikio.Reactor.Admission.{Env, PassOutcome, admit_pending}
use kvikio.Reactor.Completion.{
  context_error, recycle_buffer, drop_slot, push_pending, destroy, resolve, requeue_for_retry,
  settle_success, settle_verdict, settle_transfer, take_in_flight, Message, reap_completions,
  fail_all_pending, die, first_of, io_round, stage_device_copy, settle_staged,
}
use kvikio.Reactor.Handover.{admit_pending-places}
use kvikio.Reactor.Conservation.{
  is_of, among, reporter, held, places, among-append, reported-append, reported-fail_each,
  signal_death-places,
}

recycle_buffer-held :
    (i buffer_size : ℕ) (t : Transfer) (r : Reactor)
    → held i (recycle_buffer buffer_size t r) ≡ held i r
recycle_buffer-held i buffer_size t r = elim (Bool-cases (t.is_device && t.has_buffer)) [
  | inl full ↦ rw full refl
  | inr nothing ↦ rw nothing refl
]

pub recycle_buffer-keeps :
    (buffer_size : ℕ) (t : Transfer) (r : Reactor)
    → ((recycle_buffer buffer_size t r).pending ≡ r.pending)
      × ((recycle_buffer buffer_size t r).in_flight ≡ r.in_flight)
recycle_buffer-keeps buffer_size t r = elim (Bool-cases (t.is_device && t.has_buffer)) [
  | inl full ↦ rw full (refl, refl)
  | inr nothing ↦ rw nothing (refl, refl)
]

pub Decision-cases :
    (d : RetryDecision) → (d ≡ retry) ⊎ ((d ≡ success) ⊎ ((d ≡ fatal) ⊎ (d ≡ exhausted)))
Decision-cases success = inr (inl refl)
Decision-cases retry = inl refl
Decision-cases fatal = inr (inr (inl refl))
Decision-cases exhausted = inr (inr (inr refl))

destroy-held :
    (i : ℕ) (env : Env) (t : Transfer) (r : Reactor) → held i (destroy env t r) ≡ held i r
unfolding destroy
destroy-held i env t r = elim (Option-cases (context_error env.destroy_context_failure t)) [
  | inl fine ↦ rw (fine, destroy) (recycle_buffer-held i env.buffer_size t r)
  | inr (e, fails) ↦ rw (fails, destroy) refl
]

module _ (i : ℕ) (env : Env) where
  resolve-places :
      (t : Transfer) (report : Report) (w : World)
      → places i (resolve env t report w) ≡ places i w + is_of i (reporter report)
  resolve-places t report w =
      omega (arith, destroy-held i env t w.reactor, reported-append i w.reports (report ∷ []))

  push_pending-places :
      (t : Transfer) (ready_at : ℕ) (w : World)
      → places i (push_pending env.buffer_size t ready_at w) ≡ places i w + is_of i t.easy
  push_pending-places t ready_at w =
      let r = recycle_buffer env.buffer_size t w.reactor in
      let (same, alike) = recycle_buffer-keeps env.buffer_size t w.reactor in
      let back = record t {
        has_slot = false;
        has_buffer = false;
        overflow_error = false;
        ready_at = ready_at;
      } in
      let queued : among i (push_pending env.buffer_size t ready_at w).reactor.pending
          ≡ among i r.pending + among i (back ∷ []) =
        among-append i r.pending (back ∷ []) in
      omega (arith, queued, ap (among i) same, ap (among i) alike)

  requeue_for_retry-places :
      (t : Transfer) (ready_at : ℕ) (w : World)
      → places i (requeue_for_retry env t ready_at w) ≡ places i w + is_of i t.easy
  unfolding requeue_for_retry
  requeue_for_retry-places t ready_at w =
      let bare = record t { has_slot = false } in
      let dropped = record w { reactor = drop_slot t w.reactor } in
      elim (Option-cases (context_error env.retry_context_failure t)) [
        | inl fine ↦ rw (fine, requeue_for_retry) (push_pending-places bare ready_at dropped)
        | inr (e, fails) ↦
            rw (fails, requeue_for_retry) (resolve-places bare (subrange_failed t.easy e) dropped)
      ]

  -- The copy moves no transfer.
  stage_device_copy-keeps :
      (t : Transfer) (w : World) → (places i (stage_device_copy env t w).0 ≡ places i w)
  unfolding stage_device_copy
  stage_device_copy-keeps t w = elim (Option-cases (env.copy_failure t.easy)) [
    | inl fine ↦ rw (fine, stage_device_copy) refl
    | inr (e, fails) ↦ rw (fails, stage_device_copy) refl
  ]

  settle_staged-places :
      (t : Transfer) (staged : World × Transfer × Result (Unit {0}))
      → places i (settle_staged env t staged) ≡ places i staged.0 + is_of i t.easy
  settle_staged-places t (w, u, ok _) = resolve-places u (subrange_complete t.easy t.size) w
  settle_staged-places t (w, u, err e) = resolve-places u (subrange_failed t.easy e) w

  if-places :
      (n : ℕ) (b : Bool) (x y : World)
      → places i x ≡ n
      → places i y ≡ n
      → places i (if b then x else y) ≡ n
  if-places n true x y hx hy = hx
  if-places n false x y hx hy = hy

  if-settled :
      (n : ℕ) (b : Bool) (x y : World × PassOutcome)
      → places i x.0 ≡ n
      → places i y.0 ≡ n
      → places i (if b then x else y).0 ≡ n
  if-settled n true x y hx hy = hx
  if-settled n false x y hx hy = hy

  settle_success-places :
      (t : Transfer) (w : World) → places i (settle_success env t w) ≡ places i w + is_of i t.easy
  unfolding settle_success
  settle_success-places t w =
      if-places (places i w + is_of i t.easy) t.is_device _ _
        (omega
          (arith, settle_staged-places t (stage_device_copy env t w), stage_device_copy-keeps t w))
        (settle_staged-places t (w, t, ok tt))

  settle_verdict-places :
      (t : Transfer) (verdict : Result RetryOutcome) (w : World) (o : PassOutcome)
      → places i (settle_verdict env t verdict w o).0 ≡ places i w + is_of i t.easy
  unfolding settle_verdict
  settle_verdict-places t (err e) w o = resolve-places t (subrange_failed t.easy e) w
  settle_verdict-places t (ok v) w o =
      let failed = resolve-places t (subrange_failed t.easy runtime_error) w in
      elim (Decision-cases v.decision) [
        | inl again ↦
            rw (again, settle_verdict)
              (requeue_for_retry-places (record t { is_observed = false })
                (env.now + v.delay_ms * 1000000) w)
        | inr (inl d) ↦ rw (d, settle_verdict) failed
        | inr (inr (inl d)) ↦ rw (d, settle_verdict) failed
        | inr (inr (inr d)) ↦ rw (d, settle_verdict) failed
      ]

  pub settle_transfer-places :
      (policy : HttpRetryPolicy) (result : CurlCode) (http_code : ℕ) (text : List ℕ) (t : Transfer)
      (w : World) (o : PassOutcome)
      → places i (settle_transfer env policy result http_code text t w o).0
        ≡ places i w + is_of i t.easy
  unfolding settle_transfer
  settle_transfer-places policy result http_code text t w o =
      let t' = record t { attempt = add64 t.attempt 1 } in
      if-settled (places i w + is_of i t.easy) (is_curle_ok result && not t.overflow_error) _ _
        (settle_success-places t w)
        (if-settled (places i w + is_of i t.easy) t.overflow_error _ _
          (resolve-places t (subrange_failed t.easy overflow_error) w)
          (elim (Option-cases (env.getinfo_failure t.easy)) [
            | inl fine ↦
                rw (fine, settle_transfer)
                  (settle_verdict-places t' (evaluate policy result http_code t'.attempt text []) w
                    o)
            | inr (e, fails) ↦
                rw (fails, settle_transfer) (resolve-places t (subrange_failed t.easy e) w)
          ]))

  abbrev weight_of : Option Transfer → ℕ
  weight_of none = 0
  weight_of (some v) = is_of i v.easy

  found_here :
      (hit : Bool) (u : Transfer) (us : List Transfer) (rest : Option Transfer × List Transfer)
      (t : Transfer)
      → (if◌then◌else◌ {A = Option Transfer × List Transfer} hit
          (some u, us)
          (rest.0, u ∷ rest.1)).0
        ≡ some t
      → (rest.0 ≡ some t → among i rest.1 + is_of i t.easy ≡ among i us)
      → among i
            (if◌then◌else◌ {A = Option Transfer × List Transfer} hit
              (some u, us)
              (rest.0, u ∷ rest.1)).1
          + is_of i t.easy
        ≡ is_of i u.easy + among i us
  found_here true u us rest t h later = omega (arith, ap weight_of h)
  found_here false u us rest t h later = omega (arith, later h)

  -- `_in_flight.find`, `erase`: the transfer that is found leaves the map.
  take_in_flight-among :
      (easy : ℕ) (ts : List Transfer) (t : Transfer)
      → (take_in_flight easy ts).0 ≡ some t
      → among i (take_in_flight easy ts).1 + is_of i t.easy ≡ among i ts
  take_in_flight-among easy [] t h = absurd (ground arith)
  take_in_flight-among easy (u ∷ us) t h =
      found_here (u.easy == easy) u us (take_in_flight easy us) t h (take_in_flight-among easy us t)

  pub reap_completions-places :
      (policy : HttpRetryPolicy) (messages : List Message) (w : World) (o : PassOutcome)
      (completed : ℕ)
      → places i (reap_completions env policy messages w o completed).world ≡ places i w
  unfolding reap_completions
  reap_completions-places policy [] w o completed = refl
  reap_completions-places policy (m ∷ ms) w o completed =
      let found = take_in_flight m.easy w.reactor.in_flight in
      elim (Option-cases found.0) [
        | inl unknown ↦ rw (unknown, reap_completions) refl
        | inr (t, known) ↦
            let v = record w { reactor = record (w.reactor) { in_flight = found.1 } } in
            let settled = settle_transfer env policy m.result m.http_code m.text t v o in
            rw (known, reap_completions)
              (reap_completions-places policy ms settled.0 settled.1 (completed + 1)
                ∙ omega (
                  arith,
                  settle_transfer-places policy m.result m.http_code m.text t v o,
                  take_in_flight-among m.easy w.reactor.in_flight t known,
                ))
      ]

  pub fail_all_pending-places :
      (e : Error) (w : World) → places i (fail_all_pending env e w) ≡ places i w
  unfolding fail_all_pending
  fail_all_pending-places e w = omega (
    arith,
    reported-fail_each i e w.reactor.in_flight (fail_each e w.reactor.pending w.reports),
    reported-fail_each i e w.reactor.pending w.reports,
  )

  die-places : (e : Error) (w : World) → places i (die env e w) ≡ places i w
  unfolding die
  die-places e w =
      let dead = signal_death e w in
      let kept = signal_death-places i e w in
      elim (Option-cases dead.pool.death_reason) [
        | inl alive ↦ rw (alive, die) (fail_all_pending-places e dead ∙ kept)
        | inr (reason, known) ↦ rw (known, die) (fail_all_pending-places reason dead ∙ kept)
      ]

  -- One round of a reactor's thread loses no transfer and duplicates none, whatever libcurl, the clock
  -- and the buffers answer, and whichever of them throw: a transfer is as often in the queue, in the
  -- reactor's lists and among the reports as before.
  pub io_round-places :
      (policy : HttpRetryPolicy) (messages : List Message) (failures : Option Error × Option Error)
      (w : World)
      → places i (io_round env policy messages failures w).0 ≡ places i w
  unfolding io_round
  io_round-places policy messages failures w =
      let passed = admit_pending env w in
      let reaped = reap_completions env policy messages passed.world passed.pass.outcome 0 in
      let admission = admit_pending-places i env w in
      let completion = reap_completions-places policy messages passed.world passed.pass.outcome 0 in
      elim (Option-cases w.pool.death_reason) [
        | inr (reason, dead) ↦ rw (dead, io_round) (fail_all_pending-places reason w)
        | inl alive ↦ elim (Option-cases passed.thrown) [
          | inr (e, fails) ↦ rw (alive, fails, io_round) (die-places e passed.world ∙ admission)
          | inl fine ↦ elim (Option-cases failures.0) [
            | inr (e, fails) ↦
                rw (alive, fine, fails, io_round) (die-places e passed.world ∙ admission)
            | inl works ↦ elim (Option-cases (first_of reaped.thrown failures.1)) [
              | inr (e, fails) ↦
                  rw (alive, fine, works, fails, io_round)
                    (die-places e reaped.world ∙ completion ∙ admission)
              | inl clean ↦ rw (alive, fine, works, clean, io_round) (completion ∙ admission)
            ]
          ]
        ]
      ]
