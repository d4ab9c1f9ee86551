-- ===== src/Reactor/Admission.antt =====
-- Admission: the two gates, the retries first, then the pool's queue. What other code answers is in
-- `Env`.
use kvikio.Base.{
  ℕ, zero, suc, min, Bool, true, false, not, ◌&&◌, ◌||◌, Option, none, some, List, [], ◌∷◌, ◌++◌,
  ltb, ◌==◌, if◌then◌else◌, update, ok, err, Error, runtime_error,
}
use kvikio.Limiter.{release, try_acquire, reset_slot}
use kvikio.Reactor.{
  Transfer, Reactor, World, queue_share_per_reactor, try_pop_queued, return_to_queue,
}
use kvikio.Reactor.Shards.{try_get}

-- The clock, the cap and the size of bounce buffers, and for each easy handle what its allocation, its
-- copy to the device, the launch of its callback and the query of its response code throw, what entering
-- its context throws for a retry and when it is destroyed, and whether libcurl takes it.
pub record Env : Type 0 where
  pub now : ℕ
  pub cap : Option ℕ
  pub buffer_size : ℕ
  pub allocation_failure : ℕ → Option Error
  pub copy_failure : ℕ → Option Error
  pub launch_failure : ℕ → Option Error
  pub getinfo_failure : ℕ → Option Error
  pub retry_context_failure : ℕ → Option Error
  pub destroy_context_failure : ℕ → Option Error
  pub attaches : ℕ → Bool

pub record PassOutcome : Type 0 where
  pub earliest_ready_at : Option ℕ
  pub deferred_for_resource : Bool

pub record AdmitPass : Type 0 where
  pub outcome : PassOutcome
  pub started_at : ℕ
  pub exhausted_ctxs : List ℕ

unfoldable pub record_ready_at : ℕ → PassOutcome → PassOutcome
record_ready_at ready_at o = record o {
  earliest_ready_at = elim o.earliest_ready_at [
    | none ↦ some ready_at
    | some earliest ↦ some (min earliest ready_at)
  ];
}

abbrev pub is_in : ℕ → List ℕ → Bool
is_in x [] = false
is_in x (y ∷ ys) = y == x || is_in x ys

abbrev pub defer : AdmitPass → AdmitPass
defer pass = record pass { outcome = record (pass.outcome) { deferred_for_resource = true } }

pub data Admitted : Type 0 where
  admitted : Admitted
  refused : Admitted
  threw : Error → Admitted

-- What `try_admit` leaves: its answer, the transfer that stays in place unless it was admitted, the
-- reactor and the pass.
pub record Tried : Type 0 where
  pub answer : Admitted
  pub transfer : Transfer
  pub reactor : Reactor
  pub pass : AdmitPass

-- Hand the easy handle to libcurl. The slot goes with the transfer, or out of scope if this throws.
unfoldable pub attach : Env → Transfer → Reactor → AdmitPass → Tried
attach env t r pass =
    if env.attaches t.easy
    then record {
      answer = admitted;
      transfer = t;
      reactor = record r {
        in_flight = record t { has_slot = true; is_observed = true } ∷ r.in_flight;
      };
      pass = pass;
    }
    else record {
      answer = threw runtime_error;
      transfer = t;
      reactor = record r { request_limiter = release r.request_limiter };
      pass = pass;
    }

-- Gate 2 and what follows; the slot is held.
unfoldable pub admit_with_slot : Env → Transfer → Reactor → AdmitPass → Tried
unfolding attach
admit_with_slot env t r pass =
    if not t.is_device
    then attach env t r pass
    else let got =
        try_get env.cap env.buffer_size (env.allocation_failure t.easy) (r.shards t.device_ctx) in
      let r' = record r { shards = update r.shards t.device_ctx got.0 } in
      let dropped = record r' { request_limiter = release r'.request_limiter } in
      elim got.1 [
        | ok (some size) ↦ attach env (record t { has_buffer = true }) r' pass
        | ok none ↦ record {
          answer = refused;
          transfer = t;
          reactor = dropped;
          pass = record (defer pass) { exhausted_ctxs = pass.exhausted_ctxs ++ t.device_ctx ∷ [] };
        }
        | err e ↦ record { answer = threw e; transfer = t; reactor = dropped; pass = pass }
      ]

abbrev pub refuse : Transfer → Reactor → AdmitPass → Tried
refuse t r pass = record {
  answer = refused;
  transfer = record t { has_slot = false };
  reactor = record r { request_limiter = (reset_slot r.request_limiter t.has_slot).0 };
  pass = pass;
}

unfoldable pub try_admit : Env → Transfer → Reactor → AdmitPass → Tried
unfolding record_ready_at admit_with_slot reset_slot try_acquire
try_admit env t r pass =
    let bare = record t { has_slot = false } in
    let acquired =
      if t.has_slot then (r.request_limiter, true) else try_acquire r.request_limiter in
    if ltb pass.started_at t.ready_at
    then refuse t r (record pass { outcome = record_ready_at t.ready_at pass.outcome })
    else if t.is_device && is_in t.device_ctx pass.exhausted_ctxs
    then refuse t r (defer pass)
    else if acquired.1
    then admit_with_slot env bare (record r { request_limiter = acquired.0 }) pass
    else record {
      answer = refused;
      transfer = bare;
      reactor = record r { request_limiter = acquired.0 };
      pass = defer pass;
    }

-- A pass, or a part of it: the world, its scratch state, and what it threw.
pub record Passed : Type 0 where
  pub world : World
  pub pass : AdmitPass
  pub thrown : Option Error

-- The loop over `_pending`: what is refused stays, in its order. `kept` is what the iterator has
-- passed.
unfoldable pub admit_retries : Env → List Transfer → List Transfer → World → AdmitPass → Passed
admit_retries env kept [] w pass = record {
  world = record w { reactor = record (w.reactor) { pending = kept } };
  pass = pass;
  thrown = none;
}
admit_retries env kept (t ∷ ts) w pass =
    let tried = try_admit env t w.reactor pass in
    let w' = record w { reactor = tried.reactor } in
    let after = admit_retries env kept ts w' tried.pass in
    let past = admit_retries env (kept ++ tried.transfer ∷ []) ts w' tried.pass in
    elim tried.answer [
      | admitted ↦ after
      | refused ↦ past
      | threw e ↦ record {
        world = record w' {
          reactor = record (tried.reactor) { pending = kept ++ tried.transfer ∷ ts };
        };
        pass = tried.pass;
        thrown = some e;
      }
    ]

-- What `admit_from_pool` does with the answer of `try_admit`; `rest` is the rest of its loop.
unfoldable pub after_try : (World → AdmitPass → Passed) → World → Tried → Passed
after_try rest w tried =
    let w' = record w { reactor = tried.reactor } in
    let after = rest w' tried.pass in
    elim tried.answer [
      | admitted ↦ after
      | refused ↦ record {
        world = return_to_queue tried.transfer w';
        pass = tried.pass;
        thrown = none;
      }
      | threw e ↦ record {
        world = record w' {
          reactor = record (tried.reactor) {
            pending = tried.reactor.pending ++ tried.transfer ∷ [];
          };
        };
        pass = tried.pass;
        thrown = some e;
      }
    ]

-- One round of the loop of `admit_from_pool`.
unfoldable pub pool_round : Env → (World → AdmitPass → Passed) → World → AdmitPass → Passed
pool_round env rest w pass =
    let acquired = try_acquire w.reactor.request_limiter in
    let popped = try_pop_queued w.pool in
    let holding = record (w.reactor) { request_limiter = acquired.0 } in
    if acquired.1
    then elim popped.0 [
      | none ↦ record {
        world = record w {
          pool = popped.1;
          reactor = record holding { request_limiter = release acquired.0 };
        };
        pass = pass;
        thrown = none;
      }
      | some t ↦
          after_try rest (record w { pool = popped.1 })
            (try_admit env (record t { has_slot = true }) holding pass)
    ]
    else record { world = w; pass = defer pass; thrown = none }

-- The loop; `share` is the number of rounds that are left.
unfoldable pub pool_loop : Env → ℕ → World → AdmitPass → Passed
pool_loop env zero w pass = record { world = w; pass = pass; thrown = none }
pool_loop env (suc share) w pass = pool_round env (pool_loop env share) w pass

unfoldable pub admit_from_pool : Env → World → AdmitPass → Passed
admit_from_pool env w pass = pool_loop env (queue_share_per_reactor w.pool) w pass

abbrev pub start_pass : Env → AdmitPass
start_pass env = record {
  outcome = record { earliest_ready_at = none; deferred_for_resource = false };
  started_at = env.now;
  exhausted_ctxs = [];
}

unfoldable pub admit_pending : Env → World → Passed
admit_pending env w =
    let retried = admit_retries env [] w.reactor.pending w (start_pass env) in
    let pulled = admit_from_pool env retried.world retried.pass in
    elim retried.thrown [ none ↦ pulled | some e ↦ retried ]
