-- ===== src/BouncePool/Examples.antt =====
-- A buffer is lent, moved, and another of its size is lent; then the configured size changes and the first
-- is given back.
use kvikio.Base.{ℕ, ◌+◌, ◌≤◌, ◌<◌, ◌≡◌, refl, subst, [], ◌∷◌, ok, total, arith, ◌==◌, if◌then◌else◌}
use kvikio.BouncePool.{
  Allocator, moved_from, get, put, give_back, move_construct, deallocate_buffers,
  ensure_buffer_size, detach_free_buffers, no_effect,
}
use kvikio.BouncePool.Ownership.{Test, is_same}
use kvikio.BouncePool.History.{
  Session, gets, moves, Reach, fresh, next, after_get, after_put, owners, IsFresh,
}
use kvikio.BouncePool.Owners.{IsOwned, Reach-IsOwned}
use kvikio.BouncePool.Sizes.{NeverThrows}

-- One call of the allocator returns this address.
abbrev returning : ℕ → Allocator
returning b = record { allocate = λ size. ok b; deallocate = λ c size. ok tt }

abbrev start : Session
start = record {
  pool = record { free_buffers = []; buffer_size = 64 };
  variables = λ i. moved_from;
  history = no_effect;
}

abbrev lent : Session
lent = after_get (get (returning 1000) 64 start.pool) 0 start

abbrev moved : Session
moved = record lent { variables = move_construct 1 0 lent.variables }

abbrev both : Session
both = after_get (get (returning 2000) 64 moved.pool) 0 moved

abbrev given : Session
given = after_put (give_back (returning 0) 128 (both.variables 1) both.pool) (λ i. moved_from) both

-- The setting has become 128, so that the buffer of 64 bytes is released.
given_lem : (given.history.freed ≡ (1000, 64) ∷ []) × (given.pool.free_buffers ≡ [])
unfolding give_back put get deallocate_buffers ensure_buffer_size detach_free_buffers move_construct
given_lem = (refl, refl)

first-IsFresh : IsFresh 2 start (get (returning 1000) 64 start.pool).effect
unfolding get deallocate_buffers ensure_buffer_size total
first-IsFresh b made = omega arith

is_second : (b : ℕ) → 0 < (if 2000 == b then 1 else 0) + 0 → 2000 ≡ b
is_second b made = ground (arith, made)

second-IsFresh : IsFresh 2 moved (get (returning 2000) 64 moved.pool).effect
unfolding get deallocate_buffers ensure_buffer_size move_construct total
second-IsFresh b made = subst (λ c. owners 2 c moved ≤ 0) (is_second b made) (omega arith)

watched : Reach NeverThrows 2 64 both
unfolding get move_construct deallocate_buffers ensure_buffer_size
watched =
    next
      (next (next fresh (gets (returning 1000) 64 0 (λ b n. refl) first-IsFresh (omega arith) refl))
        (moves 1 0 (omega arith) (omega arith) (λ e. omega (arith, e)) refl))
      (gets (returning 2000) 64 0 (λ b n. refl) second-IsFresh (omega arith) refl)

Reach-IsOwned_example : IsOwned 2 both
Reach-IsOwned_example = Reach-IsOwned watched

abbrev first : Test
first = is_same (1000, 64)
