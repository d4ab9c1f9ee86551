-- ===== src/Reactor/Deadlines.antt =====
-- The deadlines that completion records for the transfers that it puts back.
use kvikio.Base.{
  ℕ, ◌+◌, ◌*◌, ◌≡◌, refl, sym, subst, inl, inr, Bool, true, false, not, ◌&&◌, List, [], ◌∷◌,
  if◌then◌else◌, add64, Option-cases, Result, ok, err, runtime_error, overflow_error, All,
  All-append,
}
use kvikio.HttpRetry.{CurlCode, HttpRetryPolicy, RetryOutcome, evaluate, is_curle_ok}
use kvikio.Reactor.{Transfer, Report, subrange_complete, subrange_failed, Reactor, World}
use kvikio.Reactor.Admission.{Env, PassOutcome, record_ready_at}
use kvikio.Reactor.Completion.{
  context_error, recycle_buffer, drop_slot, push_pending, destroy, resolve, requeue_for_retry,
  settle_success, settle_verdict, settle_transfer, take_in_flight, Message, reap_completions,
  stage_device_copy, settle_staged,
}
use kvikio.Reactor.Resolution.{Decision-cases, recycle_buffer-keeps}
use kvikio.Reactor.Wakeup.{IsKnown, record_ready_at-IsDue, record_ready_at-Extends, Extends-All}

module _ (env : Env) where
  abbrev pub Covered : PassOutcome → World → Type 0
  Covered o w = All (IsKnown env.now o) w.reactor.pending

  destroy-pending : (t : Transfer) (r : Reactor) → (destroy env t r).pending ≡ r.pending
  unfolding destroy
  destroy-pending t r = elim (Option-cases (context_error env.destroy_context_failure t)) [
    | inl fine ↦ rw (fine, destroy) (recycle_buffer-keeps env.buffer_size t r).0
    | inr (e, fails) ↦ rw (fails, destroy) refl
  ]

  resolve-Covered :
      (t : Transfer) (report : Report) (w : World) (o : PassOutcome)
      → Covered o w
      → Covered o (resolve env t report w)
  resolve-Covered t report w o known =
      subst (All (IsKnown env.now o)) (sym (destroy-pending t w.reactor)) known

  settle_staged-Covered :
      (t : Transfer) (staged : World × Transfer × Result (Unit {0})) (o : PassOutcome)
      → Covered o staged.0
      → Covered o (settle_staged env t staged)
  settle_staged-Covered t (w, u, ok _) o known =
      resolve-Covered u (subrange_complete t.easy t.size) w o known
  settle_staged-Covered t (w, u, err e) o known =
      resolve-Covered u (subrange_failed t.easy e) w o known

  stage_device_copy-pending :
      (t : Transfer) (w : World) → (stage_device_copy env t w).0.reactor.pending ≡ w.reactor.pending
  unfolding stage_device_copy
  stage_device_copy-pending t w = elim (Option-cases (env.copy_failure t.easy)) [
    | inl fine ↦ rw (fine, stage_device_copy) refl
    | inr (e, fails) ↦ rw (fails, stage_device_copy) refl
  ]

  if-Covered :
      (o : PassOutcome) (b : Bool) (x y : World)
      → Covered o x
      → Covered o y
      → Covered o (if b then x else y)
  if-Covered o true x y hx hy = hx
  if-Covered o false x y hx hy = hy

  settle_success-Covered :
      (t : Transfer) (w : World) (o : PassOutcome)
      → Covered o w
      → Covered o (settle_success env t w)
  unfolding settle_success
  settle_success-Covered t w o known =
      if-Covered o t.is_device _ _
        (settle_staged-Covered t (stage_device_copy env t w) o
          (subst (All (IsKnown env.now o)) (sym (stage_device_copy-pending t w)) known))
        (settle_staged-Covered t (w, t, ok tt) o known)

  push_pending-Covered :
      (t : Transfer) (ready_at : ℕ) (w : World) (o : PassOutcome)
      → Covered o w
      → Covered (record_ready_at ready_at o) (push_pending env.buffer_size t ready_at w)
  push_pending-Covered t ready_at w o known =
      let later = record_ready_at ready_at o in
      let kept = (recycle_buffer-keeps env.buffer_size t w.reactor).0 in
      All-append (IsKnown env.now later) (recycle_buffer env.buffer_size t w.reactor).pending _
        (subst (All (IsKnown env.now later)) (sym kept) (
          Extends-All env.now o later w.reactor.pending (record_ready_at-Extends ready_at o) known))
        ((λ late. record_ready_at-IsDue ready_at o), tt)

  requeue_for_retry-Covered :
      (t : Transfer) (ready_at : ℕ) (w : World) (o : PassOutcome)
      → Covered o w
      → Covered (record_ready_at ready_at o) (requeue_for_retry env t ready_at w)
  unfolding requeue_for_retry
  requeue_for_retry-Covered t ready_at w o known =
      let bare = record t { has_slot = false } in
      let dropped = record w { reactor = drop_slot t w.reactor } in
      let later = record_ready_at ready_at o in
      elim (Option-cases (context_error env.retry_context_failure t)) [
        | inl fine ↦
            rw (fine, requeue_for_retry) (push_pending-Covered bare ready_at dropped o known)
        | inr (e, fails) ↦
            rw (fails, requeue_for_retry)
              (resolve-Covered bare (subrange_failed t.easy e) dropped later (
                Extends-All env.now o later w.reactor.pending (record_ready_at-Extends ready_at o)
                  known))
      ]

  abbrev Settled : World × PassOutcome → Type 0
  Settled r = Covered r.1 r.0

  if-Settled :
      (b : Bool) (x y : World × PassOutcome) → Settled x → Settled y → Settled (if b then x else y)
  if-Settled true x y hx hy = hx
  if-Settled false x y hx hy = hy

  settle_verdict-Settled :
      (t : Transfer) (verdict : Result RetryOutcome) (w : World) (o : PassOutcome)
      → Covered o w
      → Settled (settle_verdict env t verdict w o)
  unfolding settle_verdict
  settle_verdict-Settled t (err e) w o known =
      resolve-Covered t (subrange_failed t.easy e) w o known
  settle_verdict-Settled t (ok v) w o known =
      let failed = resolve-Covered t (subrange_failed t.easy runtime_error) w o known in
      elim (Decision-cases v.decision) [
        | inl again ↦
            rw (again, settle_verdict)
              (requeue_for_retry-Covered (record t { is_observed = false })
                (env.now + v.delay_ms * 1000000) w o known)
        | inr (inl d) ↦ rw (d, settle_verdict) failed
        | inr (inr (inl d)) ↦ rw (d, settle_verdict) failed
        | inr (inr (inr d)) ↦ rw (d, settle_verdict) failed
      ]

  settle_transfer-Settled :
      (policy : HttpRetryPolicy) (result : CurlCode) (http_code : ℕ) (text : List ℕ) (t : Transfer)
      (w : World) (o : PassOutcome)
      → Covered o w
      → Settled (settle_transfer env policy result http_code text t w o)
  unfolding settle_transfer
  settle_transfer-Settled policy result http_code text t w o known =
      let t' = record t { attempt = add64 t.attempt 1 } in
      if-Settled (is_curle_ok result && not t.overflow_error) _ _
        (settle_success-Covered t w o known)
        (if-Settled t.overflow_error _ _
          (resolve-Covered t (subrange_failed t.easy overflow_error) w o known)
          (elim (Option-cases (env.getinfo_failure t.easy)) [
            | inl fine ↦
                rw (fine, settle_transfer)
                  (settle_verdict-Settled t' (evaluate policy result http_code t'.attempt text []) w
                    o known)
            | inr (e, fails) ↦
                rw (fails, settle_transfer) (resolve-Covered t (subrange_failed t.easy e) w o known)
          ]))

  pub reap_completions-Covered :
      (policy : HttpRetryPolicy) (messages : List Message) (w : World) (o : PassOutcome)
      (completed : ℕ)
      → Covered o w
      → let reaped = reap_completions env policy messages w o completed in
        Covered reaped.outcome reaped.world
  unfolding reap_completions
  reap_completions-Covered policy [] w o completed known = known
  reap_completions-Covered policy (m ∷ ms) w o completed known =
      let found = take_in_flight m.easy w.reactor.in_flight in
      elim (Option-cases found.0) [
        | inl unknown ↦ rw (unknown, reap_completions) known
        | inr (t, there) ↦
            let v = record w { reactor = record (w.reactor) { in_flight = found.1 } } in
            let settled = settle_transfer env policy m.result m.http_code m.text t v o in
            rw (there, reap_completions)
              (reap_completions-Covered policy ms settled.0 settled.1 (completed + 1)
                (settle_transfer-Settled policy m.result m.http_code m.text t v o known))
      ]
