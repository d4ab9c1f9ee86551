-- ===== src/Reactor/Shards/Examples.antt =====
-- A cap of one: the buffer is lent, copied and returned, and lent again.
use kvikio.Base.{none, add64, sub64, arith}
use kvikio.Reactor.Shards.{drop_stale, get_from, try_get, recycle_after, recycle_callback}
use kvikio.Reactor.Shards.Cap.{Lending, get, copy, copied, Reach, fresh, next, Inv, cap_holds}

abbrev Run : Type 0
Run = (s : Lending) × Reach 1 s

lent_again : Run
unfolding drop_stale get_from try_get recycle_after recycle_callback add64 sub64
lent_again = (
  _,
  next (next (next (next fresh (get 4096 none)) (copy (omega arith))) (copied 4096 (omega arith)))
      (get 4096 none),
)

cap_holds_example : Inv 1 lent_again.0
cap_holds_example = cap_holds (omega arith) lent_again.1
