-- ===== src/Reactor/Handover.antt =====
-- Admission keeps the places of each transfer: `try_admit` puts it in flight or leaves it with its
-- caller, and the caller puts it where it was or with the retries.
use kvikio.Base.{
  ℕ, zero, suc, ◌+◌, ◌≡◌, refl, ◌∙◌, ap, inl, inr, ◌⊎◌, Bool, true, false, not, ◌&&◌, none, some,
  List, [], ◌∷◌, ◌++◌, ltb, if◌then◌else◌, update, Bool-cases, Option-cases, Result-cases, Error,
  arith,
}
use kvikio.Limiter.{try_acquire}
use kvikio.Reactor.Shards.{try_get}
use kvikio.Reactor.{
  Transfer, Reactor, Pool, World, try_pop_queued, queue_share_per_reactor, set_queue, pop_from,
  return_to_queue,
}
use kvikio.Reactor.Admission.{
  Env, is_in, AdmitPass, Admitted, admitted, refused, threw, Tried, attach, admit_with_slot,
  try_admit, Passed, admit_retries, after_try, pool_round, start_pass, pool_loop, admit_from_pool,
  admit_pending,
}
use kvikio.Reactor.Conservation.{
  is_of, among, reported, places, among-append, return_to_queue-places,
}

pub Admitted-cases :
    (a : Admitted) → (a ≡ admitted) ⊎ ((a ≡ refused) ⊎ ((e : Error) × (a ≡ threw e)))
Admitted-cases admitted = inl refl
Admitted-cases refused = inr (inl refl)
Admitted-cases (threw e) = inr (inr (e, refl))

List-cases :
    (ts : List Transfer) → (ts ≡ []) ⊎ ((u : Transfer) × (us : List Transfer) × (ts ≡ u ∷ us))
List-cases [] = inl refl
List-cases (t ∷ ts) = inr (t, ts, refl)

popped_nothing : (p : Pool) → p.queue ≡ [] → try_pop_queued p ≡ (none, p)
unfolding try_pop_queued
popped_nothing p h = ap (λ queue. pop_from queue p) h

popped_first :
    (p : Pool) (t : Transfer) (ts : List Transfer)
    → p.queue ≡ t ∷ ts
    → try_pop_queued p ≡ (some t, set_queue p ts)
unfolding try_pop_queued
popped_first p t ts h = ap (λ queue. pop_from queue p) h

module _ (i : ℕ) where
  -- Where the transfer of a `Tried` is: in flight, or still in the caller's hand.
  abbrev in_hand_of : Tried → Admitted → ℕ
  in_hand_of tried admitted = 0
  in_hand_of tried refused = is_of i tried.transfer.easy
  in_hand_of tried (threw e) = is_of i tried.transfer.easy

  abbrev in_hand : Tried → ℕ
  in_hand tried = in_hand_of tried tried.answer

  -- The transfer is passed on and nothing else moves.
  abbrev Hands : Transfer → Reactor → Tried → Type 0
  Hands t r tried =
      (tried.reactor.pending ≡ r.pending)
      × (among i tried.reactor.in_flight + in_hand tried ≡ among i r.in_flight + is_of i t.easy)

  attach-Hands :
      (env : Env) (t : Transfer) (r : Reactor) (pass : AdmitPass) → Hands t r (attach env t r pass)
  unfolding attach
  attach-Hands env t r pass = elim (Bool-cases (env.attaches t.easy)) [
    | inl takes ↦ rw takes (refl, omega arith)
    | inr fails ↦ rw fails (refl, omega arith)
  ]

  if-Hands :
      (t : Transfer) (r : Reactor) (b : Bool) (x y : Tried)
      → Hands t r x
      → Hands t r y
      → Hands t r (if b then x else y)
  if-Hands t r true x y hx hy = hx
  if-Hands t r false x y hx hy = hy

  admit_with_slot-Hands :
      (env : Env) (t : Transfer) (r : Reactor) (pass : AdmitPass)
      → Hands t r (admit_with_slot env t r pass)
  unfolding admit_with_slot
  admit_with_slot-Hands env t r pass =
      let got =
        try_get env.cap env.buffer_size (env.allocation_failure t.easy) (r.shards t.device_ctx) in
      if-Hands t r (not t.is_device) _ _ (attach-Hands env t r pass) (elim (Result-cases got.1) [
        | inr (e, said) ↦ rw said (refl, omega arith)
        | inl (none, said) ↦ rw said (refl, omega arith)
        | inl (some size, said) ↦ rw said (
            attach-Hands env (record t { has_buffer = true })
              (record r { shards = update r.shards t.device_ctx got.0 }) pass)
      ])

  try_admit-Hands :
      (env : Env) (t : Transfer) (r : Reactor) (pass : AdmitPass)
      → Hands t r (try_admit env t r pass)
  unfolding try_admit
  try_admit-Hands env t r pass =
      let bare = record t { has_slot = false } in
      let acquired =
        if t.has_slot then (r.request_limiter, true) else try_acquire r.request_limiter in
      if-Hands t r (ltb pass.started_at t.ready_at) _ _ (refl, omega arith)
        (if-Hands t r (t.is_device && is_in t.device_ctx pass.exhausted_ctxs) _ _
          (refl, omega arith)
          (if-Hands t r acquired.1 _ _
            (admit_with_slot-Hands env bare (record r { request_limiter = acquired.0 }) pass)
            (refl, omega arith)))

  -- The loops.
  admit_retries-places :
      (env : Env) (kept ts : List Transfer) (w : World) (pass : AdmitPass)
      → places i (admit_retries env kept ts w pass).world
        ≡ among i w.pool.queue
          + among i kept
          + among i ts
          + among i w.reactor.in_flight
          + reported i w.reports
  unfolding admit_retries
  admit_retries-places env kept [] w pass = omega arith
  admit_retries-places env kept (t ∷ ts) w pass =
      let tried = try_admit env t w.reactor pass in
      let w' = record w { reactor = tried.reactor } in
      let (same, hands) = try_admit-Hands env t w.reactor pass in
      elim (Admitted-cases tried.answer) [
        | inl went ↦
            rw (went, admit_retries)
              (omega (
                arith,
                admit_retries-places env kept ts w' tried.pass,
                hands,
                ap (in_hand_of tried) went,
              ))
        | inr (inl stays) ↦
            rw (stays, admit_retries)
              (omega (
                arith,
                admit_retries-places env (kept ++ tried.transfer ∷ []) ts w' tried.pass,
                among-append i kept (tried.transfer ∷ []),
                hands,
                ap (in_hand_of tried) stays,
              ))
        | inr (inr (e, fails)) ↦
            rw (fails, admit_retries)
              (omega (
                arith,
                among-append i kept (tried.transfer ∷ ts),
                hands,
                ap (in_hand_of tried) fails,
              ))
      ]

  -- A transfer in the hand of `admit_from_pool` goes on.
  after_try-places :
      (after : World → AdmitPass → Passed) (w : World) (tried : Tried)
      → ((v : World) (pass : AdmitPass) → places i (after v pass).world ≡ places i v)
      → places i (after_try after w tried).world
        ≡ places i (record w { reactor = tried.reactor }) + in_hand tried
  unfolding after_try return_to_queue
  after_try-places after w tried rest = elim (Admitted-cases tried.answer) [
    | inl went ↦
        rw (went, after_try)
          (omega (
            arith,
            rest (record w { reactor = tried.reactor }) tried.pass,
            ap (in_hand_of tried) went,
          ))
    | inr (inr (e, fails)) ↦
        rw (fails, after_try)
          (omega (
            arith,
            among-append i tried.reactor.pending (tried.transfer ∷ []),
            ap (in_hand_of tried) fails,
          ))
    | inr (inl stays) ↦
        rw (stays, after_try)
          (omega (
            arith,
            return_to_queue-places i tried.transfer (record w { reactor = tried.reactor }),
            ap (in_hand_of tried) stays,
          ))
  ]

  pool_round-places :
      (env : Env) (after : World → AdmitPass → Passed) (w : World) (pass : AdmitPass)
      → ((v : World) (pass : AdmitPass) → places i (after v pass).world ≡ places i v)
      → places i (pool_round env after w pass).world ≡ places i w
  unfolding pool_round
  pool_round-places env after w pass rest =
      let acquired = try_acquire w.reactor.request_limiter in
      let holding = record (w.reactor) { request_limiter = acquired.0 } in
      elim (Bool-cases acquired.1) [
        | inr full ↦ rw full refl
        | inl slot ↦ elim (List-cases w.pool.queue) [
          | inl nothing ↦
              let none_popped : try_pop_queued w.pool ≡ (none, w.pool) =
                popped_nothing w.pool nothing in
              rw (slot, ap (λ x. x.0) none_popped, ap (λ x. x.1) none_popped) refl
          | inr (t, ts, next) ↦
              let popped : try_pop_queued w.pool ≡ (some t, set_queue w.pool ts) =
                popped_first w.pool t ts next in
              let tried = try_admit env (record t { has_slot = true }) holding pass in
              let (same, hands) = try_admit-Hands env (record t { has_slot = true }) holding pass in
              rw (slot, ap (λ x. x.0) popped, ap (λ x. x.1) popped)
                (omega (
                  arith,
                  after_try-places after (record w { pool = set_queue w.pool ts }) tried rest,
                  hands,
                  ap (among i) same,
                  ap (among i) next,
                ))
        ]
      ]

  pool_loop-places :
      (env : Env) (share : ℕ) (w : World) (pass : AdmitPass)
      → places i (pool_loop env share w pass).world ≡ places i w
  unfolding pool_loop
  pool_loop-places env zero w pass = refl
  pool_loop-places env (suc share) w pass =
      pool_round-places env (pool_loop env share) w pass (pool_loop-places env share)

  pub admit_pending-places :
      (env : Env) (w : World) → places i (admit_pending env w).world ≡ places i w
  unfolding admit_pending admit_from_pool
  admit_pending-places env w =
      let first = start_pass env in
      let retried = admit_retries env [] w.reactor.pending w first in
      let kept : places i retried.world ≡ places i w =
        omega (arith, admit_retries-places env [] w.reactor.pending w first) in
      elim (Option-cases retried.thrown) [
        | inl fine ↦
            rw (fine, admit_pending)
              (pool_loop-places env (queue_share_per_reactor retried.world.pool) retried.world
                  retried.pass
                ∙ kept)
        | inr (e, fails) ↦ rw (fails, admit_pending) kept
      ]
