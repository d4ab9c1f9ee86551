-- ===== src/Reactor/Completion.antt =====
-- Completion: what becomes of a finished transfer, the poll timeout, and one pass of the I/O thread.
use kvikio.Base.{
  ℕ, ◌+◌, ◌-◌, ◌*◌, ◌/◌, min, false, not, ◌&&◌, ◌||◌, Option, none, some, List, [], ◌∷◌, ◌++◌,
  length, ltb, ◌==◌, if◌then◌else◌, update, add64, Result, ok, err, Error, runtime_error,
  overflow_error,
}
use kvikio.HttpRetry.{CurlCode, is_curle_ok, HttpRetryPolicy, RetryOutcome, retry, evaluate}
use kvikio.Limiter.{reset_slot}
use kvikio.Reactor.{
  Transfer, Report, subrange_complete, subrange_failed, Reactor, World, fail_each, signal_death,
}
use kvikio.Reactor.Shards.{recycle_now, recycle_after}
use kvikio.Reactor.Admission.{Env, PassOutcome, record_ready_at, admit_pending}

-- A device transfer that holds a buffer gives it back in its context; what entering that throws.
abbrev pub context_error : (ℕ → Option Error) → Transfer → Option Error
context_error failure t = if t.is_device && t.has_buffer then failure t.easy else none

-- The buffer of a device transfer goes back to the shard.
abbrev pub recycle_buffer : ℕ → Transfer → Reactor → Reactor
recycle_buffer buffer_size t r =
    if t.is_device && t.has_buffer
    then record r {
      shards = update r.shards t.device_ctx (recycle_now buffer_size (r.shards t.device_ctx));
    }
    else r

-- The slot goes back to the limiter.
abbrev pub drop_slot : Transfer → Reactor → Reactor
drop_slot t r = record r { request_limiter = (reset_slot r.request_limiter t.has_slot).0 }

-- The destructor, which swallows an exception; the buffer is then not given back to the shard.
unfoldable pub destroy : Env → Transfer → Reactor → Reactor
unfolding reset_slot recycle_now
destroy env t r = elim (context_error env.destroy_context_failure t) [
  | none ↦ drop_slot t (recycle_buffer env.buffer_size t r)
  | some e ↦ drop_slot t r
]

-- The transfer's aggregate is told, and then the transfer is destroyed.
abbrev pub resolve : Env → Transfer → Report → World → World
resolve env t report w = record w {
  reports = w.reports ++ report ∷ [];
  reactor = destroy env t w.reactor;
}

-- The transfer waits again, with nothing held.
abbrev pub push_pending : ℕ → Transfer → ℕ → World → World
push_pending buffer_size t ready_at w =
    let r = recycle_buffer buffer_size t w.reactor in
    record w {
      reactor = record r {
        pending =
            r.pending
            ++ record t {
              has_slot = false;
              has_buffer = false;
              overflow_error = false;
              ready_at = ready_at;
            }
              ∷ [];
      };
    }

-- The slot is given back first; if the context cannot be entered, the transfer fails with what that
-- threw.
unfoldable pub requeue_for_retry : Env → Transfer → ℕ → World → World
unfolding reset_slot recycle_now
requeue_for_retry env t ready_at w =
    let bare = record t { has_slot = false } in
    let dropped = record w { reactor = drop_slot t w.reactor } in
    elim (context_error env.retry_context_failure t) [
      | none ↦ push_pending env.buffer_size bare ready_at dropped
      | some e ↦ resolve env bare (subrange_failed t.easy e) dropped
    ]

-- The copy of a device transfer is queued and its buffer handed to the callback; an exception leaves
-- the buffer with the transfer, or after a failed launch with nobody.
unfoldable pub stage_device_copy : Env → Transfer → World → World × Transfer × Result (Unit {0})
unfolding recycle_after
stage_device_copy env t w = elim (env.copy_failure t.easy) [
  | some e ↦ (w, t, err e)
  | none ↦
      let recycled = recycle_after (env.launch_failure t.easy) (w.reactor.shards t.device_ctx) in
      (
        record w {
          reactor = record (w.reactor) { shards = update w.reactor.shards t.device_ctx recycled.0 };
        },
        record t { has_buffer = false },
        recycled.1,
      )
]

-- What follows the copy, if there is one: `u` is what is left of the transfer.
abbrev pub settle_staged : Env → Transfer → World × Transfer × Result (Unit {0}) → World
settle_staged env t (w, u, ok _) = resolve env u (subrange_complete t.easy t.size) w
settle_staged env t (w, u, err e) = resolve env u (subrange_failed t.easy e) w

-- A finished transfer's bytes are all there.
unfoldable pub settle_success : Env → Transfer → World → World
settle_success env t w =
    if t.is_device
    then settle_staged env t (stage_device_copy env t w)
    else settle_staged env t (w, t, ok tt)

-- A finished transfer failed, but not because the server sent too much: `verdict` says what to do.
unfoldable pub settle_verdict :
    Env → Transfer → Result RetryOutcome → World → PassOutcome → World × PassOutcome
settle_verdict env t (err e) w o = (resolve env t (subrange_failed t.easy e) w, o)
settle_verdict env t (ok v) w o =
    let ready_at = env.now + v.delay_ms * 1000000 in
    elim v.decision [
      | retry ↦ (
        requeue_for_retry env (record t { is_observed = false }) ready_at w,
        record_ready_at ready_at o,
      )
      | _ ↦ (resolve env t (subrange_failed t.easy runtime_error) w, o)
    ]

-- The prefix of the verdict's message, a fixed text, is left empty. The query of the response code may
-- throw, before the attempt is counted.
unfoldable pub settle_transfer :
    Env
    → HttpRetryPolicy
    → CurlCode
    → ℕ
    → List ℕ
    → Transfer
    → World
    → PassOutcome
    → World × PassOutcome
settle_transfer env policy result http_code text t w o =
    let t' = record t { attempt = add64 t.attempt 1 } in
    if is_curle_ok result && not t.overflow_error
    then (settle_success env t w, o)
    else if t.overflow_error
    then (resolve env t (subrange_failed t.easy overflow_error) w, o)
    else elim (env.getinfo_failure t.easy) [
      | none ↦ settle_verdict env t' (evaluate policy result http_code t'.attempt text []) w o
      | some e ↦ (resolve env t (subrange_failed t.easy e) w, o)
    ]

-- `_in_flight.find` and `erase`.
abbrev pub take_in_flight : ℕ → List Transfer → Option Transfer × List Transfer
take_in_flight easy [] = (none, [])
take_in_flight easy (t ∷ ts) =
    let rest = take_in_flight easy ts in
    if t.easy == easy then (some t, ts) else (rest.0, t ∷ rest.1)

-- One message `CURLMSG_DONE`; the handle's response code and its error text.
pub record Message : Type 0 where
  pub easy : ℕ
  pub result : CurlCode
  pub http_code : ℕ
  pub text : List ℕ

pub record Reaped : Type 0 where
  pub world : World
  pub outcome : PassOutcome
  pub completed : ℕ
  pub thrown : Option Error

-- The loop over libcurl's messages.
unfoldable pub reap_completions :
    Env → HttpRetryPolicy → List Message → World → PassOutcome → ℕ → Reaped
reap_completions env policy [] w o completed = record {
  world = w;
  outcome = o;
  completed = completed;
  thrown = none;
}
reap_completions env policy (m ∷ ms) w o completed =
    let found = take_in_flight m.easy w.reactor.in_flight in
    elim found.0 [
      | none ↦ record {
        world = w;
        outcome = o;
        completed = completed + 1;
        thrown = some runtime_error;
      }
      | some t ↦
          let settled =
            settle_transfer env policy m.result m.http_code m.text t
              (record w { reactor = record (w.reactor) { in_flight = found.1 } }) o in
          reap_completions env policy ms settled.0 settled.1 (completed + 1)
    ]

abbrev pub destroy_each : Env → List Transfer → Reactor → Reactor
destroy_each env [] r = r
destroy_each env (t ∷ ts) r = destroy_each env ts (destroy env t r)

unfoldable pub fail_all_pending : Env → Error → World → World
unfolding fail_each destroy
fail_all_pending env e w = record w {
  reports = fail_each e w.reactor.in_flight (fail_each e w.reactor.pending w.reports);
  reactor =
      record (destroy_each env w.reactor.in_flight (destroy_each env w.reactor.pending w.reactor)) {
        pending = [];
        in_flight = [];
      };
}

-- A duration in whole milliseconds, rounded up; a time that is past gives 0, which is what the clamp
-- makes of it.
abbrev pub ceil_ms : ℕ → ℕ → ℕ
ceil_ms later now = (later - now + 999999) / 1000000

unfoldable pub poll_timeout_ms : ℕ → PassOutcome → ℕ → World → ℕ
poll_timeout_ms now o completed w =
    let idle : ℕ = 1000 in
    let pool_work_waiting = ltb 0 w.pool.queue_size_hint in
    let empty = length w.reactor.pending == 0 in
    let longest = if o.deferred_for_resource || pool_work_waiting then 10 else idle in
    if empty && not pool_work_waiting
    then idle
    else if ltb 0 completed
    then 0
    else if empty && o.deferred_for_resource
    then idle
    else elim o.earliest_ready_at [
      | none ↦ longest
      | some ready_at ↦ min (ceil_ms ready_at now) longest
    ]

-- The pool is declared dead, and this reactor fails what it has with the recorded reason.
unfoldable pub die : Env → Error → World → World
die env e w =
    let dead = signal_death e w in
    elim dead.pool.death_reason [
      | some reason ↦ fail_all_pending env reason dead
      | none ↦ fail_all_pending env e dead
    ]

abbrev pub first_of : Option Error → Option Error → Option Error
first_of none second = second
first_of (some e) second = some e

-- One round of `io_thread_main`: admission, libcurl's work, whose messages are given, the completions
-- and the poll, whose timeout is the second result. `failures` says whether libcurl's work and its
-- poll throw. After an exception the thread ends and fails what it has.
unfoldable pub io_round :
    Env → HttpRetryPolicy → List Message → Option Error × Option Error → World → World × Option ℕ
io_round env policy messages failures w =
    let passed = admit_pending env w in
    let reaped = reap_completions env policy messages passed.world passed.pass.outcome 0 in
    let polls = poll_timeout_ms env.now reaped.outcome reaped.completed reaped.world in
    elim w.pool.death_reason [
      | some reason ↦ (fail_all_pending env reason w, none)
      | none ↦ elim passed.thrown [
        | some e ↦ (die env e passed.world, none)
        | none ↦ elim failures.0 [
          | some e ↦ (die env e passed.world, none)
          | none ↦ elim (first_of reaped.thrown failures.1) [
            | some e ↦ (die env e reaped.world, none)
            | none ↦ (reaped.world, some polls)
          ]
        ]
      ]
    ]
