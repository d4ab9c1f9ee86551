-- ===== src/Reactor.antt =====
-- cpp/include/kvikio/detail/multi_poll_reactor.hpp and cpp/src/detail/multi_poll_reactor.cpp: the data
-- of one reactor and of the pool, and the pool's shared queue. A transfer is named by its easy handle.
-- Times are nanoseconds. Running out of memory is not modelled.
pub mod Shards
pub mod Admission
pub mod Completion
pub mod Budget
pub mod Conservation
pub mod Death
pub mod Handover
pub mod Resolution
pub mod Ending
pub mod Timeout
pub mod Wakeup
pub mod Deadlines
pub mod Sleep
pub mod Examples
use kvikio.Base.{
  ℕ, zero, suc, ◌+◌, ◌-◌, ◌*◌, ◌/◌, ◌%◌, min, max, Bool, true, false, Option, none, some, List, [],
  ◌∷◌, ◌++◌, length, ltb, leb, ◌==◌, if◌then◌else◌, Error,
}
use kvikio.Limiter.{Limiter, release}

-- `RemoteMultiTransfer`: what its guards hold is said by a Boolean.
pub record Transfer : Type 0 where
  pub easy : ℕ
  pub size : ℕ
  pub file_offset : ℕ
  pub overflow_error : Bool
  pub has_slot : Bool
  pub is_device : Bool
  pub device_ctx : ℕ
  pub has_buffer : Bool
  pub attempt : ℕ
  pub is_observed : Bool
  pub ready_at : ℕ

-- What the aggregate of a transfer is told, once for each transfer.
pub data Report : Type 0 where
  subrange_complete : (easy bytes : ℕ) → Report
  subrange_failed : ℕ → Error → Report

-- What the bounce-buffer cache has for this thread and one context: the sizes of the free buffers, the
-- last one returned first, and how many are lent out or being copied.
pub record Shard : Type 0 where
  pub free : List ℕ
  pub checked_out : ℕ
  pub in_flight : ℕ

pub record Reactor : Type 0 where
  pub request_limiter : Limiter
  pub shards : ℕ → Shard
  pub pending : List Transfer
  pub in_flight : List Transfer

pub record Pool : Type 0 where
  pub reactor_count : ℕ
  pub death_reason : Option Error
  pub queue : List Transfer
  pub queue_size_hint : ℕ

-- The pool, one of its reactors, and the reports so far.
pub record World : Type 0 where
  pub pool : Pool
  pub reactor : Reactor
  pub reports : List Report

abbrev pub set_queue : Pool → List Transfer → Pool
set_queue p queue = record p { queue = queue; queue_size_hint = length queue }

-- `on_subrange_failed` for each transfer of a list, in order.
unfoldable pub fail_each : Error → List Transfer → List Report → List Report
fail_each e [] reports = reports
fail_each e (t ∷ ts) reports = fail_each e ts (reports ++ subrange_failed t.easy e ∷ [])

unfoldable pub is_dead : Pool → Bool
is_dead p = elim p.death_reason [ none ↦ false | some _ ↦ true ]

-- `queue_share_per_reactor()`.
unfoldable pub queue_share_per_reactor : Pool → ℕ
queue_share_per_reactor p =
    if p.queue_size_hint == 0
    then 0
    else max ((p.queue_size_hint + p.reactor_count - 1) / p.reactor_count) 1

-- `try_pop_queued()` when the queue is the first argument.
abbrev pub pop_from : List Transfer → Pool → Option Transfer × Pool
pop_from [] p = (none, p)
pop_from (t ∷ ts) p = (some t, set_queue p ts)

unfoldable pub try_pop_queued : Pool → Option Transfer × Pool
try_pop_queued p = pop_from p.queue p

unfoldable pub return_to_queue : Transfer → World → World
return_to_queue t w = elim w.pool.death_reason [
  | some e ↦ record w { reports = fail_each e (t ∷ []) w.reports }
  | none ↦ record w { pool = set_queue w.pool (t ∷ w.pool.queue) }
]

unfoldable pub submit_pread : List Transfer → World → World
submit_pread ts w = elim w.pool.death_reason [
  | some e ↦ record w { reports = fail_each e ts w.reports }
  | none ↦ record w { pool = set_queue w.pool (w.pool.queue ++ ts) }
]

-- The first call wins and fails what is queued; later calls change nothing.
unfoldable pub signal_death : Error → World → World
signal_death e w = elim w.pool.death_reason [
  | some _ ↦ w
  | none ↦ record w {
    pool = record (set_queue (w.pool) []) { death_reason = some e };
    reports = fail_each e w.pool.queue w.reports;
  }
]
