-- ===== src/BouncePool/Ownership.antt =====
-- An allocation of the bounce buffer pool has one owner: the pool, a variable, or nobody any more.
use kvikio.Base.{
  ℕ, ◌+◌, ◌≤◌, Bool, ◌≡◌, refl, ap, ◌∙◌, ◌&&◌, List, [], ◌∷◌, ◌++◌, ◌==◌, ==→eq, Bool-cases, inl,
  inr, if◌then◌else◌, drop, Option, none, some, Option-cases, Result, ok, err, arith,
}
use kvikio.BouncePool.{
  Allocation, Pool, Allocator, Effect, with_size, Deallocated, after_top, lend_after, released,
  deallocate_buffers, detach_free_buffers, ensure_buffer_size, Buffer, top_of, lend_new, taken, get,
  Put, release_incoming, put, clear, give_back,
}

abbrev pub Test : Type 0
Test = Allocation → Bool

-- How many of the allocations pass a test.
abbrev pub occurs : Test → List Allocation → ℕ
occurs x [] = 0
occurs x (y ∷ rest) = (if x y then 1 else 0) + occurs x rest

-- This address with this size, and this address with any size.
abbrev pub is_same : Allocation → Test
is_same x y = y.0 == x.0 && y.1 == x.1

abbrev pub is_at : ℕ → Test
is_at b y = y.0 == b

abbrev pub held_by : Test → Buffer → ℕ
held_by x v = elim v.buffer [ none ↦ 0 | some b ↦ occurs x ((b, v.size) ∷ []) ]

abbrev pub in_pool : Test → Pool → ℕ
in_pool x p = occurs x (with_size p.buffer_size p.free_buffers)

-- Released, or lost.
abbrev pub gone : Test → Effect → ℕ
gone x e = occurs x e.freed + occurs x e.lost

pub occurs-append :
    (x : Test) (xs ys : List Allocation) → occurs x (xs ++ ys) ≡ occurs x xs + occurs x ys
occurs-append x [] ys = omega arith
occurs-append x (y ∷ xs) ys = omega (arith, occurs-append x xs ys)

gone-after_top :
    (r : Result (Unit {0})) (x : Test) (c size : ℕ) (rest : List ℕ) (d : Deallocated)
    → gone x d.effect ≡ occurs x (with_size size rest)
    → gone x (after_top r c size rest d).effect ≡ occurs x (with_size size (c ∷ rest))
gone-after_top (ok u) x c size rest d h = omega (arith, h)
gone-after_top (err e) x c size rest d h = omega arith

gone-deallocate_buffers :
    (a : Allocator) (x : Test) (size : ℕ) (buffers : List ℕ)
    → gone x (deallocate_buffers a buffers size).effect ≡ occurs x (with_size size buffers)
unfolding deallocate_buffers
gone-deallocate_buffers a x size [] = omega arith
gone-deallocate_buffers a x size (c ∷ rest) =
    gone-after_top (a.deallocate c size) x c size rest _ (gone-deallocate_buffers a x size rest)

allocated-after_top :
    (r : Result (Unit {0})) (c size : ℕ) (rest : List ℕ) (d : Deallocated)
    → d.effect.allocated ≡ []
    → (after_top r c size rest d).effect.allocated ≡ []
allocated-after_top (ok u) c size rest d h = h
allocated-after_top (err e) c size rest d h = refl

allocated-deallocate_buffers :
    (a : Allocator) (size : ℕ) (buffers : List ℕ)
    → (deallocate_buffers a buffers size).effect.allocated ≡ []
unfolding deallocate_buffers
allocated-deallocate_buffers a size [] = refl
allocated-deallocate_buffers a size (c ∷ rest) =
    allocated-after_top (a.deallocate c size) c size rest _
      (allocated-deallocate_buffers a size rest)

-- What is in the pool stays there, or is stale.
in_pool-ensure_buffer_size :
    (x : Test) (setting : ℕ) (p : Pool)
    → let (stale, q) = ensure_buffer_size setting p in
      occurs x (with_size stale.size stale.buffers) + in_pool x q ≡ in_pool x p
unfolding ensure_buffer_size detach_free_buffers
in_pool-ensure_buffer_size x setting p = elim (Bool-cases (p.buffer_size == setting)) [
  | inl h ↦ rw h (omega arith)
  | inr h ↦ rw h (omega arith)
]

in_pool-top :
    (x : Test) (size : ℕ) (buffers : List ℕ)
    → occurs x (taken (top_of buffers) size) + occurs x (with_size size (drop 1 buffers))
      ≡ occurs x (with_size size buffers)
in_pool-top x size [] = omega arith
in_pool-top x size (b ∷ rest) = omega arith

-- What a call took in and made is what it left and let go of.
abbrev pub result_held : Test → Result Buffer → ℕ
result_held x (ok v) = held_by x v
result_held x (err e) = 0

lend_after_balance :
    (a : Allocator) (r : Result (Unit {0})) (reused : Option ℕ) (size : ℕ) (e : Effect) (p : Pool)
    (x : Test)
    → let g = lend_after a r reused size e p in
      in_pool x p + occurs x (taken reused size) + gone x e + occurs x g.effect.allocated
      ≡ in_pool x g.pool + result_held x g.result + gone x g.effect + occurs x e.allocated
lend_after_balance a (ok u) (some b) size e p x = omega arith
lend_after_balance a (ok u) none size e p x = new_balance (a.allocate size)
  where
    new_balance :
        (r : Result ℕ)
        → let g = lend_new r size e p in
          in_pool x p + 0 + gone x e + occurs x g.effect.allocated
          ≡ in_pool x g.pool + result_held x g.result + gone x g.effect + occurs x e.allocated
    new_balance (ok b) = omega arith
    new_balance (err f) = omega arith
lend_after_balance a (err f) reused size e p x =
    omega (arith, occurs-append x (taken reused size) e.lost)

pub get_balance :
    (a : Allocator) (setting : ℕ) (p : Pool) (x : Test)
    → let g = get a setting p in
      in_pool x p + occurs x g.effect.allocated
      ≡ in_pool x g.pool + result_held x g.result + gone x g.effect
unfolding get
get_balance a setting p x =
    let (stale, q) = ensure_buffer_size setting p in
    let d = deallocate_buffers a stale.buffers stale.size in
    let none_new : occurs x d.effect.allocated ≡ 0 =
      ap (occurs x) (allocated-deallocate_buffers a stale.size stale.buffers) in
    omega (
      arith,
      none_new,
      in_pool-ensure_buffer_size x setting p,
      gone-deallocate_buffers a x stale.size stale.buffers,
      in_pool-top x q.buffer_size q.free_buffers,
      lend_after_balance a d.ending (top_of q.free_buffers) q.buffer_size d.effect
          (record q { free_buffers = drop 1 q.free_buffers }) x,
    )

allocated-lend_after :
    (a : Allocator) (r : Result (Unit {0})) (reused : Option ℕ) (size : ℕ) (e : Effect) (p : Pool)
    (x : Test)
    → e.allocated ≡ []
    → occurs x (lend_after a r reused size e p).effect.allocated ≤ 1
allocated-lend_after a (ok u) (some b) size e p x none_before = rw none_before (omega arith)
allocated-lend_after a (ok u) none size e p x none_before = at_most_one (a.allocate size)
  where
    at_most_one : (r : Result ℕ) → occurs x (lend_new r size e p).effect.allocated ≤ 1
    at_most_one (ok b) = rw none_before (one (x (b, size)))
      where
        one : (hit : Bool) → (if hit then 1 else 0) + 0 ≤ 1
        one hit = ground arith
    at_most_one (err f) = rw none_before (omega arith)
allocated-lend_after a (err f) reused size e p x none_before = rw none_before (omega arith)

-- A call makes one allocation at most.
pub allocated-get :
    (a : Allocator) (setting : ℕ) (p : Pool) (x : Test)
    → occurs x (get a setting p).effect.allocated ≤ 1
unfolding get
allocated-get a setting p x =
    let (stale, q) = ensure_buffer_size setting p in
    allocated-lend_after a _ _ _ _ _ x (allocated-deallocate_buffers a stale.size stale.buffers)

gone-release_incoming :
    (a : Allocator) (b size : ℕ) (r : Result (Unit {0})) (e : Effect) (x : Test)
    → gone x (release_incoming a b size r e) ≡ occurs x ((b, size) ∷ []) + gone x e
gone-release_incoming a b size (ok u) e x = released_gone (a.deallocate b size)
  where
    released_gone :
        (r : Result (Unit {0}))
        → gone x (released r (b, size) e) ≡ occurs x ((b, size) ∷ []) + gone x e
    released_gone (ok u) = omega arith
    released_gone (err f) = omega arith
gone-release_incoming a b size (err f) e x = omega arith

allocated-release_incoming :
    (a : Allocator) (b size : ℕ) (r : Result (Unit {0})) (e : Effect)
    → (release_incoming a b size r e).allocated ≡ e.allocated
allocated-release_incoming a b size (ok u) e = released_new (a.deallocate b size)
  where
    released_new : (r : Result (Unit {0})) → (released r (b, size) e).allocated ≡ e.allocated
    released_new (ok u) = refl
    released_new (err f) = refl
allocated-release_incoming a b size (err f) e = refl

-- A call that takes in what is counted, and makes nothing.
pub record TakesIn (x : Test) (p : Pool) (given : ℕ) (done : Put) : Type 0 where
  pub balance : in_pool x p + given ≡ in_pool x done.0 + gone x done.1
  pub none_new : occurs x done.1.allocated ≡ 0

pub put-TakesIn :
    (a : Allocator) (setting b size : ℕ) (p : Pool) (x : Test)
    → TakesIn x p (occurs x ((b, size) ∷ [])) (put a setting b size p)
unfolding put
put-TakesIn a setting b size p x =
    let (stale, q) = ensure_buffer_size setting p in
    let d = deallocate_buffers a stale.buffers stale.size in
    let nothing : occurs x d.effect.allocated ≡ 0 =
      ap (occurs x) (allocated-deallocate_buffers a stale.size stale.buffers) in
    let staying = in_pool-ensure_buffer_size x setting p in
    let going = gone-deallocate_buffers a x stale.size stale.buffers in
    elim (Bool-cases (size == q.buffer_size)) [
      | inl h ↦ rw h (record {
        balance = rw (==→eq size q.buffer_size h) (omega (arith, staying, going));
        none_new = nothing;
      })
      | inr h ↦ rw h (record {
        balance = omega (arith, staying, going, gone-release_incoming a b size d.ending d.effect x);
        none_new = ap (occurs x) (allocated-release_incoming a b size d.ending d.effect) ∙ nothing;
      })
    ]

pub give_back-TakesIn :
    (a : Allocator) (setting : ℕ) (v : Buffer) (p : Pool) (x : Test)
    → TakesIn x p (held_by x v) (give_back a setting v p)
unfolding give_back
give_back-TakesIn a setting v p x = elim (Option-cases v.buffer) [
  | inl h ↦ rw h (record { balance = omega arith; none_new = omega arith })
  | inr (b, h) ↦ rw h (put-TakesIn a setting b v.size p x)
]

pub clear-TakesIn :
    (a : Allocator) (p : Pool) (x : Test) → TakesIn x p 0 ((clear a p).pool, (clear a p).effect)
unfolding clear detach_free_buffers
clear-TakesIn a p x = record {
  balance = omega (arith, gone-deallocate_buffers a x p.buffer_size p.free_buffers);
  none_new = ap (occurs x) (allocated-deallocate_buffers a p.buffer_size p.free_buffers);
}
