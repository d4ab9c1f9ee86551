-- ===== src/Limiter/Examples.antt =====
-- Two threads and a ceiling of one: the second is refused.
use kvikio.Base.{ℕ, add64, ◌+◌, ◌≡◌, ◌≤◌, refl, true, false, some, arith, update}
use kvikio.Limiter.{
  System, here, next, Reach, unlimited, load, exchange, outside, loaded, reset_slot,
}
use kvikio.Limiter.Invariant.{held, count-eq-held, reset_exact}

abbrev taken : System
taken = record {
  limiter = record { max_concurrent_requests = some 1; count = 1 };
  slots = update (λ _. false) 0 true;
  threads = update (update (λ _. outside) 0 (loaded 0)) 0 outside;
}

taken_reached : Reach 2 (some 1) taken
unfolding add64 unlimited
taken_reached =
    next (next here (load 0 refl refl)) (exchange 0 0 0 (omega arith) refl refl refl refl)

count-eq-held_example : (◌≡◌ {A = ℕ} 1 (held 2 taken)) × (◌≤◌ 1 1)
count-eq-held_example = count-eq-held (omega arith) taken_reached

reset_exact_example : (reset_slot taken.limiter true).0.count + 1 ≡ 1
reset_exact_example = reset_exact (omega arith) taken_reached 0 (omega arith) refl
