-- ===== src/Limiter.antt =====
-- cpp/include/kvikio/detail/concurrent_request_limiter.hpp and
-- cpp/src/detail/concurrent_request_limiter.cpp: the counter of requests on the wire, its
-- move-only slots, and any number of threads that acquire, move and release slots at once.
pub mod Invariant
pub mod Examples
use kvikio.Base.{
  ℕ, suc, ◌≡◌, ◌≢◌, ◌<◌, ◌≤◌, Bool, true, false, Option, none, some, leb, if◌then◌else◌, update,
  add64, sub64,
}

pub record Limiter : Type 0 where
  pub max_concurrent_requests : Option ℕ
  pub count : ℕ

-- `_count.fetch_add(1)` and `_count.fetch_sub(1)`.
abbrev pub count_up : Limiter → Limiter
count_up l = record l { count = add64 l.count 1 }

abbrev pub release : Limiter → Limiter
release l = record l { count = sub64 l.count 1 }

-- `cur >= _max_concurrent_requests.value()`; with no ceiling nothing is refused.
abbrev pub is_full : Limiter → ℕ → Bool
is_full l cur = elim l.max_concurrent_requests [ none ↦ false | some ceiling ↦ leb ceiling cur ]

unfoldable pub unlimited : Limiter → Bool
unlimited l = elim l.max_concurrent_requests [ none ↦ true | some _ ↦ false ]

-- `try_acquire` with no other thread in between: the exchange succeeds at its first try. The
-- result says whether the slot holds.
unfoldable pub try_acquire : Limiter → Limiter × Bool
try_acquire l = if is_full l l.count then (l, false) else (count_up l, true)

-- A `Slot` is engaged or null. `reset`, and the destructor, give the count back once.
unfoldable pub reset_slot : Limiter → Bool → Limiter × Bool
reset_slot l slot = if slot then (release l, false) else (l, false)

-- Where a thread stands in `try_acquire`: outside, or in the loop with the value of `cur`.
pub data Pc : Type 0 where
  outside : Pc
  loaded : ℕ → Pc

-- The limiter, the slots that the program has (an index names a `Slot` object), and the threads.
pub record System : Type 0 where
  pub limiter : Limiter
  pub slots : ℕ → Bool
  pub threads : ℕ → Pc

-- One atomic access of one thread, among `m` slot objects. A slot that is returned is a fresh
-- object, so it is null before.
pub data Step (m : ℕ) (s : System) : System → Type 0 where
  -- No ceiling: `fetch_add`, and the slot holds.
  acquire_unlimited :
      (i : ℕ)
      → i < m
      → unlimited s.limiter ≡ true
      → s.slots i ≡ false
      → Step m s (record s { limiter = count_up s.limiter; slots = update s.slots i true })
  -- The load before the loop.
  load :
      (t : ℕ)
      → unlimited s.limiter ≡ false
      → s.threads t ≡ outside
      → Step m s (record s { threads = update s.threads t (loaded s.limiter.count) })
  -- The ceiling is reached: an empty slot is returned.
  refuse :
      (t cur : ℕ)
      → s.threads t ≡ loaded cur
      → is_full s.limiter cur ≡ true
      → Step m s (record s { threads = update s.threads t outside })
  -- The exchange finds `cur` and writes `cur + 1`: the slot `i` that is returned holds.
  exchange :
      (t cur i : ℕ)
      → i < m
      → s.threads t ≡ loaded cur
      → is_full s.limiter cur ≡ false
      → s.limiter.count ≡ cur
      → s.slots i ≡ false
      → Step m s (record {
        limiter = record (s.limiter) { count = add64 cur 1 };
        slots = update s.slots i true;
        threads = update s.threads t outside;
      })
  -- The weak exchange fails, also spuriously, and loads the count again.
  retry :
      (t cur : ℕ)
      → s.threads t ≡ loaded cur
      → is_full s.limiter cur ≡ false
      → Step m s (record s { threads = update s.threads t (loaded s.limiter.count) })
  -- `reset()`, or the destructor, of slot `i`.
  reset :
      (i : ℕ)
      → i < m
      → Step m s (record s {
        limiter = (reset_slot s.limiter (s.slots i)).0;
        slots = update s.slots i false;
      })
  -- Move assignment `slots[j] = std::move(slots[i])` between two objects; move construction is
  -- the case where `j` is null.
  move :
      (i j : ℕ)
      → i < m
      → j < m
      → i ≢ j
      → Step m s (record s {
        limiter = (reset_slot s.limiter (s.slots j)).0;
        slots = update (update s.slots j (s.slots i)) i false;
      })

-- A new limiter: nothing is counted, every slot is null, no thread is in `try_acquire`.
abbrev pub init : Option ℕ → System
init ceiling = record {
  limiter = record { max_concurrent_requests = ceiling; count = 0 };
  slots = λ _. false;
  threads = λ _. outside;
}

-- Any number of steps, of any threads in any order.
pub data Steps (m : ℕ) (s : System) : System → Type 0 where
  here : Steps m s s
  next : {t u : System} → Steps m s t → Step m t u → Steps m s u

abbrev pub Reach : ℕ → Option ℕ → System → Type 0
Reach m ceiling = Steps m (init ceiling)
