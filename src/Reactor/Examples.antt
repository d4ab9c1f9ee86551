-- ===== src/Reactor/Examples.antt =====
-- A pool of two reactors with one retry, one transfer in flight and one queued; the transfer in flight
-- completes. The same world when the pool is dead.
use kvikio.Base.{
  ℕ, ◌+◌, ◌≡◌, refl, true, false, none, some, [], ◌∷◌, runtime_error, overflow_error, arith,
}
use kvikio.HttpRetry.{HttpRetryPolicy, curle_ok}
use kvikio.Reactor.{Transfer, Pool, World}
use kvikio.Reactor.Shards.{empty_shard}
use kvikio.Reactor.Admission.{Env}
use kvikio.Reactor.Completion.{Message, io_round}
use kvikio.Reactor.Conservation.{among, reported, places}
use kvikio.Reactor.Resolution.{io_round-places}
use kvikio.Reactor.Ending.{io_round_ends}
use kvikio.Reactor.Budget.{slots_of_first, slots_of_first-total}

abbrev transfer : ℕ → ℕ → Transfer
transfer easy ready_at = record {
  easy = easy;
  size = 100;
  file_offset = 0;
  overflow_error = false;
  has_slot = false;
  is_device = false;
  device_ctx = 0;
  has_buffer = false;
  attempt = 0;
  is_observed = false;
  ready_at = ready_at;
}

abbrev pool : Pool
pool = record {
  reactor_count = 2;
  death_reason = none;
  queue = transfer 3 0 ∷ [];
  queue_size_hint = 1;
}

abbrev world : World
world = record {
  pool = pool;
  reactor = record {
    request_limiter = record { max_concurrent_requests = some 2; count = 1 };
    shards = λ _. empty_shard;
    pending = transfer 1 7000000 ∷ [];
    in_flight = record (transfer 2 0) { has_slot = true; is_observed = true } ∷ [];
  };
  reports = [];
}

abbrev dead_world : World
dead_world = record world { pool = record pool { death_reason = some runtime_error } }

abbrev env : Env
env = record {
  now = 5000000;
  cap = some 4;
  buffer_size = 4096;
  allocation_failure = λ _. none;
  copy_failure = λ _. none;
  launch_failure = λ _. none;
  getinfo_failure = λ _. none;
  retry_context_failure = λ _. none;
  destroy_context_failure = λ _. none;
  attaches = λ _. true;
}

abbrev policy : HttpRetryPolicy
policy = record {
  max_attempts = 3;
  retryable_status_codes = 503 ∷ [];
  base_delay_ms = 500;
  max_delay_ms = 4000;
}

abbrev message : Message
message = record { easy = 2; result = curle_ok; http_code = 206; text = [] }

io_round-places_example :
    places 2 (io_round env policy (message ∷ []) (none, none) world).0 ≡ places 2 world
io_round-places_example = io_round-places 2 env policy (message ∷ []) (none, none) world

ended : (io_round env policy [] (none, none) dead_world).1 ≡ none
unfolding io_round
ended = refl

io_round_ends_example :
    reported 2 (io_round env policy [] (none, none) dead_world).0.reports
      + among 2 (io_round env policy [] (none, none) dead_world).0.pool.queue
    ≡ places 2 dead_world
io_round_ends_example = io_round_ends 2 env policy [] (none, none) dead_world ended

slots_of_first-total_example : slots_of_first 7 3 3 ≡ 7
slots_of_first-total_example = slots_of_first-total 7 3 (omega arith) (omega arith)
