-- ===== src/Reactor/Budget.antt =====
-- cpp/src/detail/multi_poll_reactor.cpp: how the constructor of the pool divides the budget of
-- concurrent requests, and the size of libcurl's connection cache; cpp/src/detail/bounce_buffer_cache.cpp:
-- the cap of a shard.
use kvikio.Base.{
  ℕ, zero, suc, ap, ◌+◌, ◌-◌, ◌*◌, ◌/◌, ◌%◌, ◌^◌, ◌≤◌, ◌<◌, ◌≡◌, inl, inr, min, max, Option, none,
  some, ltb, ◌==◌, if◌then◌else◌, Bool-cases, arith,
}
use native.Mathlib.Nat.{lt-mul-div-succ, div-add-mod, mod-lt}
use kvikio.Reactor.{Pool, queue_share_per_reactor}

-- The share of reactor `i` of `n`.
unfoldable pub slice : ℕ → ℕ → ℕ → Option ℕ
slice max_total n i =
    if max_total == 0
    then none
    else some (max (max_total / n + (if ltb i (max_total % n) then 1 else 0)) 1)

-- `instance()` of the bounce-buffer cache.
unfoldable pub per_reactor_max : ℕ → ℕ → Option ℕ
per_reactor_max max_total n = if max_total == 0 then none else some (max (max_total / n) 1 * 2)

-- The casts are exact: `unsigned` has 32 bits and `long` 64.
unfoldable pub connection_cache_size : Option ℕ → Option ℕ
connection_cache_size none = none
connection_cache_size (some max_concurrent_requests) =
    some (min (max max_concurrent_requests 1) (min (2 ^ 32 - 1) (2 ^ 63 - 1) / 4) * 4)

-- A limited budget's slots of the first `k` reactors.
abbrev pub slots : Option ℕ → ℕ
slots none = 0
slots (some n) = n

pub slots_of_first : ℕ → ℕ → ℕ → ℕ
slots_of_first max_total n zero = 0
slots_of_first max_total n (suc k) = slots_of_first max_total n k + slots (slice max_total n k)

slots_of_first_lem :
    (max_total n k : ℕ)
    → 0 < max_total
    → 1 ≤ max_total / n
    → slots_of_first max_total n k ≡ k * (max_total / n) + min k (max_total % n)
unfolding slots_of_first slice
slots_of_first_lem max_total n zero pos one = grind arith
slots_of_first_lem max_total n (suc k) pos one =
    let before = slots_of_first_lem max_total n k pos one in
    elim (Bool-cases (ltb k (max_total % n))) [
      | inl extra ↦ grind (arith, before)
      | inr even ↦ grind (arith, before)
    ]

-- A limited budget of at least one slot for each reactor is divided exactly: the slices of the
-- reactors add up to it.
pub slots_of_first-total :
    (max_total n : ℕ) → 0 < n → n ≤ max_total → slots_of_first max_total n n ≡ max_total
slots_of_first-total max_total n pos enough =
    let one : 1 ≤ max_total / n = grind (arith, lt-mul-div-succ max_total pos) in
    grind (
      arith,
      slots_of_first_lem max_total n n (omega arith) one,
      div-add-mod max_total n,
      mod-lt max_total pos,
    )

-- In a limited budget every reactor has a slot, and no more slots than a shard may have bounce buffers.
pub slice-le-per_reactor_max :
    (max_total n i : ℕ)
    → 0 < max_total
    → (1 ≤ slots (slice max_total n i))
      × (slots (slice max_total n i) ≤ slots (per_reactor_max max_total n))
unfolding slice per_reactor_max
slice-le-per_reactor_max max_total n i pos = (ground arith, ground arith)

-- The connection cache has room for four times the slots, and for four if there is none, up to the
-- largest multiple of four that fits in 32 bits.
pub connection_cache_size_lem :
    (n : ℕ) → connection_cache_size (some n) ≡ some (min (4 * max n 1) (2 ^ 32 - 4))
unfolding connection_cache_size
connection_cache_size_lem n = ap some (omega arith)

-- If every one of the reactors takes its share of a queue that is not empty the queue is taken
-- completely, and each share has at least one transfer.
pub queue_share_covers :
    (p : Pool)
    → 0 < p.reactor_count
    → 0 < p.queue_size_hint
    → (p.queue_size_hint ≤ p.reactor_count * queue_share_per_reactor p)
      × (1 ≤ queue_share_per_reactor p)
unfolding queue_share_per_reactor
queue_share_covers p pos some_queued = elim (Bool-cases (p.queue_size_hint == 0)) [
  | inl none_queued ↦ absurd (ground arith)
  | inr queued ↦
      rw queued
        (grind (arith, lt-mul-div-succ (p.queue_size_hint + p.reactor_count - 1) pos), omega arith)
]
