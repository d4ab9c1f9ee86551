-- ===== src/BouncePool/Owners.antt =====
-- One owner for each buffer, over any sequence of calls.
use kvikio.Base.{
  ℕ, ◌+◌, ◌≤◌, ◌<◌, ◌≡◌, inl, inr, ◌==◌, Bool-cases, update, total, total-update, total-const, ltb,
  arith,
}
use kvikio.BouncePool.{
  Allocation, Allocator, moved_from, get, Put, Variables, move_assign, give_back, clear,
}
use kvikio.BouncePool.Ownership.{
  is_same, is_at, occurs, held_by, occurs-append, get_balance, allocated-get, TakesIn,
  give_back-TakesIn, clear-TakesIn,
}
use kvikio.BouncePool.History.{
  Session, after_put, after_assign, owners, Step, gets, moves, assigns, ends, clears, Reach, fresh,
  next, IsBalanced, held_none, initialise-total, move_construct-total, Reach-IsBalanced,
}

-- What goes in is there before, so no address gets a further owner.
after_put-owners :
    (n b : ℕ) (s : Session) (given : ℕ) (done : Put) (vs : Variables)
    → TakesIn (is_at b) s.pool given done
    → total (held_by (is_at b)) n vs + given ≡ total (held_by (is_at b)) n s.variables
    → owners n b (after_put done vs s) ≤ owners n b s
after_put-owners n b s given done vs t h =
    omega (arith, t.balance, h, occurs-append (is_at b) done.1.lost s.history.lost)

assigned-owners :
    (a : Allocator) (n b setting i j : ℕ) (s : Session)
    → i < n
    → j < n
    → owners n b (after_assign (move_assign a setting i j s.variables s.pool) s) ≤ owners n b s
unfolding move_assign
assigned-owners a n b setting i j s hi hj = elim (Bool-cases (i == j)) [
  | inl h ↦ rw h (omega arith)
  | inr h ↦ rw h (
      after_put-owners n b s (held_by (is_at b) (s.variables i)) _ _
        (give_back-TakesIn a setting (s.variables i) s.pool (is_at b))
        (move_construct-total n (is_at b) i j s.variables hi hj (ground arith)))
]

-- The pool, the variables, the released and the lost allocations make up all that were made, and no
-- address has two owners.
pub record IsOwned (n : ℕ) (s : Session) : Type 0 where
  pub balanced : (x : Allocation) → IsBalanced n (is_same x) s
  pub one_owner : (b : ℕ) → owners n b s ≤ 1

module _ {Behaves : Allocator → Type 0} where
  Step-owners :
      {n : ℕ} {s t : Session} (b : ℕ) → Step Behaves n s t → owners n b s ≤ 1 → owners n b t ≤ 1
  Step-owners {n} {s} b (gets a setting i behaves new h empty) before =
      let g = get a setting s.pool in
      let call = get_balance a setting s.pool (is_at b) in
      let variables = initialise-total n (is_at b) g.result i s.variables h empty in
      let lost = occurs-append (is_at b) g.effect.lost s.history.lost in
      let one = allocated-get a setting s.pool (is_at b) in
      elim (Bool-cases (ltb 0 (occurs (is_at b) g.effect.allocated))) [
        | inl made ↦
            let released = new b (ground (arith, made)) in
            omega (arith, call, variables, lost, one, released, before)
        | inr nothing ↦
            let none_made : occurs (is_at b) g.effect.allocated ≡ 0 = ground (arith, nothing) in
            omega (arith, call, variables, lost, none_made, before)
      ]
  Step-owners {n} {s} b (moves i j hi hj ne empty) before = omega (
    arith,
    before,
    move_construct-total n (is_at b) i j s.variables hi hj ne,
    held_none (is_at b) (s.variables i) empty,
  )
  Step-owners {n} {s} b (assigns a setting i j behaves hi hj) before =
      omega (arith, before, assigned-owners a n b setting i j s hi hj)
  Step-owners {n} {s} b (ends a setting i behaves h) before = omega (
    arith,
    before,
    after_put-owners n b s (held_by (is_at b) (s.variables i))
        (give_back a setting (s.variables i) s.pool) (update s.variables i moved_from)
        (give_back-TakesIn a setting (s.variables i) s.pool (is_at b))
        (omega (arith, total-update (held_by (is_at b)) n s.variables i moved_from h)),
  )
  Step-owners {n} {s} b (clears a behaves) before = omega (
    arith,
    before,
    after_put-owners n b s 0 ((clear a s.pool).pool, (clear a s.pool).effect) s.variables
        (clear-TakesIn a s.pool (is_at b)) (omega arith),
  )

  Reach-owners : {n size : ℕ} {s : Session} (b : ℕ) → Reach Behaves n size s → owners n b s ≤ 1
  Reach-owners {n} b fresh = omega (arith, total-const (held_by (is_at b)) n moved_from)
  Reach-owners b (next r step) = Step-owners b step (Reach-owners b r)

  -- Over any calls by any variables, with any settings, and whichever calls of the allocator throw: an
  -- allocation of an address and a size has been made as often as it is in the pool, held by variables,
  -- released or lost, so that none is released twice or with another size than it was made with; and no
  -- address has two owners at a time. The allocator returns no address that is still allocated.
  pub Reach-IsOwned : {n size : ℕ} {s : Session} → Reach Behaves n size s → IsOwned n s
  Reach-IsOwned r = record {
    balanced = λ x. Reach-IsBalanced (is_same x) r;
    one_owner = λ b. Reach-owners b r;
  }
