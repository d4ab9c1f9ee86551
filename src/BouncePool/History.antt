-- ===== src/BouncePool/History.antt =====
-- Any sequence of calls on the bounce buffer pool by variables that lend, move, assign and give back,
-- while the configured size changes.
use kvikio.Base.{
  ℕ, ◌+◌, ◌≤◌, ◌<◌, ◌≡◌, ◌≢◌, refl, ap, [], ◌++◌, ◌==◌, Bool-cases, inl, inr, none, Result, ok, err,
  update, total, total-update, total-const, arith,
}
use kvikio.BouncePool.{
  Pool, Allocator, Effect, no_effect, Buffer, moved_from, Got, get, Put, clear, give_back,
  Variables, move_construct, Assigned, move_assign,
}
use kvikio.BouncePool.Ownership.{
  Test, is_at, occurs, held_by, in_pool, gone, occurs-append, result_held, TakesIn, get_balance,
  give_back-TakesIn, clear-TakesIn,
}

-- The pool, its clients' variables, and what was done so far.
pub record Session : Type 0 where
  pub pool : Pool
  pub variables : Variables
  pub history : Effect

abbrev pub and_then : Effect → Effect → Effect
and_then before e = record {
  allocated = e.allocated ++ before.allocated;
  freed = e.freed ++ before.freed;
  lost = e.lost ++ before.lost;
}

-- A variable is initialised by the buffer that was returned, if one was.
abbrev pub initialise : Result Buffer → ℕ → Variables → Variables
initialise (ok v) i vs = update vs i v
initialise (err e) i vs = vs

abbrev pub after_put : Put → Variables → Session → Session
after_put done vs s = record { pool = done.0; variables = vs; history = and_then s.history done.1 }

abbrev pub after_get : Got → ℕ → Session → Session
after_get g i s = record {
  pool = g.pool;
  variables = initialise g.result i s.variables;
  history = and_then s.history g.effect;
}

abbrev pub after_assign : Assigned → Session → Session
after_assign done s = after_put done.put done.variables s

-- How often an address has an owner: the pool, the variables, and what is lost but still allocated.
abbrev pub owners : ℕ → ℕ → Session → ℕ
owners n b s =
    in_pool (is_at b) s.pool
    + total (held_by (is_at b)) n s.variables
    + occurs (is_at b) s.history.lost

-- An address that a call was given had no owner, or the call released it before.
abbrev pub IsFresh : ℕ → Session → Effect → Type 0
IsFresh n s e = (b : ℕ) → 0 < occurs (is_at b) e.allocated → owners n b s ≤ occurs (is_at b) e.freed

-- One call, with the setting and the allocator's answers at the time, by one of `n` variables. One that
-- is initialised has no buffer before.
pub data Step (Behaves : Allocator → Type 0) (n : ℕ) (s : Session) : Session → Type 0 where
  gets :
      (a : Allocator) (setting i : ℕ)
      → Behaves a
      → IsFresh n s (get a setting s.pool).effect
      → i < n
      → (s.variables i).buffer ≡ none
      → Step Behaves n s (after_get (get a setting s.pool) i s)
  moves :
      (i j : ℕ)
      → i < n
      → j < n
      → i ≢ j
      → (s.variables i).buffer ≡ none
      → Step Behaves n s (record s { variables = move_construct i j s.variables })
  assigns :
      (a : Allocator) (setting i j : ℕ)
      → Behaves a
      → i < n
      → j < n
      → Step Behaves n s (after_assign (move_assign a setting i j s.variables s.pool) s)
  ends :
      (a : Allocator) (setting i : ℕ)
      → Behaves a
      → i < n
      → Step Behaves n s (
          after_put
            (give_back a setting (s.variables i) s.pool)
            (update s.variables i moved_from)
            s)
  clears :
      (a : Allocator)
      → Behaves a
      → Step Behaves n s (after_put ((clear a s.pool).pool, (clear a s.pool).effect) s.variables s)

pub data Reach (Behaves : Allocator → Type 0) (n size : ℕ) : Session → Type 0 where
  fresh : Reach Behaves n size (record {
    pool = record { free_buffers = []; buffer_size = size };
    variables = λ i. moved_from;
    history = no_effect;
  })
  next : {s t : Session} → Reach Behaves n size s → Step Behaves n s t → Reach Behaves n size t

-- Every allocation that passes the test is in one place.
abbrev pub IsBalanced : ℕ → Test → Session → Type 0
IsBalanced n x s =
    occurs x s.history.allocated
    ≡ in_pool x s.pool + total (held_by x) n s.variables + gone x s.history

pub held_none : (x : Test) (v : Buffer) → v.buffer ≡ none → held_by x v ≡ 0
held_none x v h = rw h refl

after_put-IsBalanced :
    (n : ℕ) (x : Test) (s : Session) (given : ℕ) (done : Put) (vs : Variables)
    → IsBalanced n x s
    → TakesIn x s.pool given done
    → total (held_by x) n vs + given ≡ total (held_by x) n s.variables
    → IsBalanced n x (after_put done vs s)
after_put-IsBalanced n x s given done vs b t h = omega (
  arith,
  b,
  h,
  t.balance,
  t.none_new,
  occurs-append x done.1.allocated s.history.allocated,
  occurs-append x done.1.freed s.history.freed,
  occurs-append x done.1.lost s.history.lost,
)

pub initialise-total :
    (n : ℕ) (x : Test) (r : Result Buffer) (i : ℕ) (vs : Variables)
    → i < n
    → (vs i).buffer ≡ none
    → total (held_by x) n (initialise r i vs) ≡ total (held_by x) n vs + result_held x r
initialise-total n x (ok v) i vs h empty =
    omega (arith, total-update (held_by x) n vs i v h, held_none x (vs i) empty)
initialise-total n x (err e) i vs h empty = omega arith

-- What `i` held before is replaced by what `j` held.
pub move_construct-total :
    (n : ℕ) (x : Test) (i j : ℕ) (vs : Variables)
    → i < n
    → j < n
    → i ≢ j
    → total (held_by x) n (move_construct i j vs) + held_by x (vs i) ≡ total (held_by x) n vs
unfolding move_construct
move_construct-total n x i j vs hi hj ne =
    let emptied = update vs j moved_from in
    let other : emptied i ≡ vs i = ground arith in
    omega (
      arith,
      total-update (held_by x) n emptied i (vs j) hi,
      total-update (held_by x) n vs j moved_from hj,
      ap (held_by x) other,
    )

assigned-IsBalanced :
    (a : Allocator) (n : ℕ) (x : Test) (setting i j : ℕ) (s : Session)
    → i < n
    → j < n
    → IsBalanced n x s
    → IsBalanced n x (after_assign (move_assign a setting i j s.variables s.pool) s)
unfolding move_assign
assigned-IsBalanced a n x setting i j s hi hj b = elim (Bool-cases (i == j)) [
  | inl h ↦ rw h b
  | inr h ↦ rw h (
      after_put-IsBalanced n x s (held_by x (s.variables i)) _ _ b
        (give_back-TakesIn a setting (s.variables i) s.pool x)
        (move_construct-total n x i j s.variables hi hj (ground arith)))
]

module _ {Behaves : Allocator → Type 0} where
  Step-IsBalanced :
      {n : ℕ} {s t : Session} (x : Test) → Step Behaves n s t → IsBalanced n x s → IsBalanced n x t
  Step-IsBalanced {n} {s} x (gets a setting i behaves new h empty) b =
      let g = get a setting s.pool in
      omega (
        arith,
        b,
        get_balance a setting s.pool x,
        initialise-total n x g.result i s.variables h empty,
        occurs-append x g.effect.allocated s.history.allocated,
        occurs-append x g.effect.freed s.history.freed,
        occurs-append x g.effect.lost s.history.lost,
      )
  Step-IsBalanced {n} {s} x (moves i j hi hj ne empty) b = omega (
    arith,
    b,
    move_construct-total n x i j s.variables hi hj ne,
    held_none x (s.variables i) empty,
  )
  Step-IsBalanced {n} {s} x (assigns a setting i j behaves hi hj) b =
      assigned-IsBalanced a n x setting i j s hi hj b
  Step-IsBalanced {n} {s} x (ends a setting i behaves h) b =
      after_put-IsBalanced n x s (held_by x (s.variables i)) _ _ b
        (give_back-TakesIn a setting (s.variables i) s.pool x)
        (omega (arith, total-update (held_by x) n s.variables i moved_from h))
  Step-IsBalanced {n} {s} x (clears a behaves) b =
      after_put-IsBalanced n x s 0 _ s.variables b (clear-TakesIn a s.pool x) (omega arith)

  pub Reach-IsBalanced :
      {n size : ℕ} {s : Session} (x : Test) → Reach Behaves n size s → IsBalanced n x s
  Reach-IsBalanced {n} x fresh = omega (arith, total-const (held_by x) n moved_from)
  Reach-IsBalanced x (next r step) = Step-IsBalanced x step (Reach-IsBalanced x r)
