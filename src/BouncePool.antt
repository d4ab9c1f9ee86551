-- ===== src/BouncePool.antt =====
-- BounceBufferPool of cpp/src/bounce_buffer.cpp and its Buffer: buffers that are lent, come back, and
-- are released once the configured size has changed. A buffer is the number of its address. The
-- allocator is an argument; what an operation does to the allocations is recorded with its result.
pub mod Ownership
pub mod History
pub mod Owners
pub mod Sizes
pub mod Examples
use kvikio.Base.{
  ℕ, zero, suc, ◌+◌, ◌*◌, ◌%◌, Bool, true, false, List, [], ◌∷◌, map, ◌==◌, if◌then◌else◌, length,
  Option, none, some, drop, ◌++◌, Result, ok, err, update, u64_mod,
}

-- An allocation, and its size.
abbrev pub Allocation : Type 0
Allocation = ℕ × ℕ

-- The stack's top comes first.
pub record Pool : Type 0 where
  pub free_buffers : List ℕ
  pub buffer_size : ℕ

-- `allocate`, and how `deallocate` of a buffer ends.
pub record Allocator : Type 0 where
  pub allocate : ℕ → Result ℕ
  pub deallocate : ℕ → ℕ → Result (Unit {0})

-- Buffers taken from the pool under its lock, with their size.
pub record Stale : Type 0 where
  pub buffers : List ℕ
  pub size : ℕ

-- The allocations that a call made and released, and those that nothing refers to afterwards.
pub record Effect : Type 0 where
  pub allocated : List Allocation
  pub freed : List Allocation
  pub lost : List Allocation

abbrev pub no_effect : Effect
no_effect = record { allocated = []; freed = []; lost = [] }

abbrev pub with_size : ℕ → List ℕ → List Allocation
with_size size buffers = map (λ b. (b, size)) buffers

pub record Deallocated : Type 0 where
  pub effect : Effect
  pub ending : Result (Unit {0})

-- How the deallocation of the top ended, and what the loop does with the rest; where it throws, the top
-- and those below it go with the stack.
abbrev pub after_top : Result (Unit {0}) → ℕ → ℕ → List ℕ → Deallocated → Deallocated
after_top (ok _) b size rest d = record {
  effect = record d.effect { freed = (b, size) ∷ d.effect.freed };
  ending = d.ending;
}
after_top (err e) b size rest d = record {
  effect = record no_effect { lost = with_size size (b ∷ rest) };
  ending = err e;
}

unfoldable pub deallocate_buffers : Allocator → List ℕ → ℕ → Deallocated
deallocate_buffers a [] size = record { effect = no_effect; ending = ok tt }
deallocate_buffers a (b ∷ rest) size =
    after_top (a.deallocate b size) b size rest (deallocate_buffers a rest size)

unfoldable pub detach_free_buffers : Pool → Stale × Pool
detach_free_buffers p =
    (record { buffers = p.free_buffers; size = p.buffer_size }, record p { free_buffers = [] })

-- `setting` is `defaults::bounce_buffer_size()` at the time.
unfoldable pub ensure_buffer_size : ℕ → Pool → Stale × Pool
unfolding detach_free_buffers
ensure_buffer_size setting p =
    if p.buffer_size == setting
    then (record { buffers = []; size = 0 }, p)
    else ((detach_free_buffers p).0, record (detach_free_buffers p).1 { buffer_size = setting })

-- `Buffer`; one that was moved from holds none. The pool that it refers to is the only one.
pub record Buffer : Type 0 where
  pub buffer : Option ℕ
  pub size : ℕ

abbrev pub moved_from : Buffer
moved_from = record { buffer = none; size = 0 }

pub record Got : Type 0 where
  pub pool : Pool
  pub effect : Effect
  pub result : Result Buffer

abbrev pub top_of : List ℕ → Option ℕ
top_of [] = none
top_of (b ∷ rest) = some b

-- A new buffer, or what `allocate` threw.
abbrev pub lend_new : Result ℕ → ℕ → Effect → Pool → Got
lend_new (ok b) size effect p = record {
  pool = p;
  effect = record effect { allocated = (b, size) ∷ effect.allocated };
  result = ok (record { buffer = some b; size = size });
}
lend_new (err e) size effect p = record { pool = p; effect = effect; result = err e }

-- With nothing stale left: the buffer that was taken, or a new one.
abbrev pub lend : Allocator → Option ℕ → ℕ → Effect → Pool → Got
lend a (some b) size effect p = record {
  pool = p;
  effect = effect;
  result = ok (record { buffer = some b; size = size });
}
lend a none size effect p = lend_new (a.allocate size) size effect p

abbrev pub taken : Option ℕ → ℕ → List Allocation
taken none size = []
taken (some b) size = (b, size) ∷ []

-- Behind the lock; if a deallocation throws, the buffer that was taken is lost.
abbrev pub lend_after : Allocator → Result (Unit {0}) → Option ℕ → ℕ → Effect → Pool → Got
lend_after a (ok _) reused_buffer size effect p = lend a reused_buffer size effect p
lend_after a (err e) reused_buffer size effect p = record {
  pool = p;
  effect = record effect { lost = taken reused_buffer size ++ effect.lost };
  result = err e;
}

unfoldable pub get : Allocator → ℕ → Pool → Got
get a setting p =
    let (stale, q) = ensure_buffer_size setting p in
    let deallocated = deallocate_buffers a stale.buffers stale.size in
    lend_after a deallocated.ending (top_of q.free_buffers) q.buffer_size deallocated.effect
      (record q { free_buffers = drop 1 q.free_buffers })

-- The pool and the effect; nothing is thrown.
abbrev pub Put : Type 0
Put = Pool × Effect

-- How the deallocation of a buffer ended.
abbrev pub released : Result (Unit {0}) → Allocation → Effect → Effect
released (ok _) x effect = record effect { freed = x ∷ effect.freed }
released (err e) x effect = record effect { lost = x ∷ effect.lost }

-- The buffer that came back stale, once the others are released or one of them threw.
abbrev pub release_incoming : Allocator → ℕ → ℕ → Result (Unit {0}) → Effect → Effect
release_incoming a b size (ok _) effect = released (a.deallocate b size) (b, size) effect
release_incoming a b size (err e) effect = record effect { lost = (b, size) ∷ effect.lost }

unfoldable pub put : Allocator → ℕ → ℕ → ℕ → Pool → Put
put a setting b size p =
    let (stale, q) = ensure_buffer_size setting p in
    let deallocated = deallocate_buffers a stale.buffers stale.size in
    if size == q.buffer_size
    then (record q { free_buffers = b ∷ q.free_buffers }, deallocated.effect)
    else (q, release_incoming a b size deallocated.ending deallocated.effect)

pub record Cleared : Type 0 where
  pub pool : Pool
  pub effect : Effect
  pub result : Result ℕ

unfoldable pub clear : Allocator → Pool → Cleared
clear a p =
    let (stale, q) = detach_free_buffers p in
    let total_stale_size = length stale.buffers * stale.size % u64_mod in
    let deallocated = deallocate_buffers a stale.buffers stale.size in
    record {
      pool = q;
      effect = deallocated.effect;
      result = elim deallocated.ending [ ok _ ↦ ok total_stale_size | err e ↦ err e ];
    }

-- What the destructor of a `Buffer`, and the assignment to one, give back to the pool.
unfoldable pub give_back : Allocator → ℕ → Buffer → Pool → Put
give_back a setting v p = elim v.buffer [
  | none ↦ (p, no_effect)
  | some b ↦ put a setting b v.size p
]

-- Variables of type `Buffer`, by number.
abbrev pub Variables : Type 0
Variables = ℕ → Buffer

-- `Buffer(Buffer&&)` into the variable `i`, and the assignment to it, of what `j` holds.
unfoldable pub move_construct : ℕ → ℕ → Variables → Variables
move_construct i j vs = update (update vs j moved_from) i (vs j)

pub record Assigned : Type 0 where
  pub variables : Variables
  pub put : Put

unfoldable pub move_assign : Allocator → ℕ → ℕ → ℕ → Variables → Pool → Assigned
unfolding move_construct
move_assign a setting i j vs p =
    if i == j
    then record { variables = vs; put = (p, no_effect) }
    else record { variables = move_construct i j vs; put = give_back a setting (vs i) p }
