-- ===== src/Reactor/Shards.antt =====
-- cpp/src/detail/bounce_buffer_cache.cpp: one shard of BounceBufferCachePerThreadAndContext. Each
-- operation is one locked block, but for `try_get`, which locks again if the allocation throws.
pub mod Cap
pub mod Examples
use kvikio.Base.{
  ℕ, ◌+◌, Bool, false, Option, none, some, List, [], ◌∷◌, leb, ◌==◌, if◌then◌else◌, add64, sub64,
  Result, ok, err, Error,
}
use kvikio.Reactor.{Shard}

abbrev pub empty_shard : Shard
empty_shard = record { free = []; checked_out = 0; in_flight = 0 }

-- Free buffers of another size leave the shard.
unfoldable pub drop_stale : ℕ → List ℕ → List ℕ
drop_stale current [] = []
drop_stale current (size ∷ free) =
    let rest = drop_stale current free in if size == current then size ∷ free else rest

abbrev pub has_reached : Option ℕ → ℕ → Bool
has_reached none total = false
has_reached (some cap) total = leb cap total

-- `try_get` when the stale buffers are gone; `failure` is what the allocation throws, if it does.
unfoldable pub get_from : Option ℕ → ℕ → Option Error → Shard → List ℕ → Shard × Result (Option ℕ)
get_from cap current failure shard (size ∷ free) =
    (record shard { free = free; checked_out = add64 shard.checked_out 1 }, ok (some size))
get_from cap current failure shard [] =
    if has_reached cap (0 + shard.checked_out + shard.in_flight)
    then (record shard { free = [] }, ok none)
    else elim failure [
      | none ↦
          (record shard { free = []; checked_out = add64 shard.checked_out 1 }, ok (some current))
      | some e ↦
          (record shard { free = []; checked_out = sub64 (add64 shard.checked_out 1) 1 }, err e)
    ]

unfoldable pub try_get : Option ℕ → ℕ → Option Error → Shard → Shard × Result (Option ℕ)
unfolding drop_stale get_from
try_get cap current failure shard =
    get_from cap current failure shard (drop_stale current shard.free)

unfoldable pub recycle_now : ℕ → Shard → Shard
recycle_now size shard = record shard {
  checked_out = sub64 shard.checked_out 1;
  free = size ∷ shard.free;
}

-- `recycle_after`; `failure` is what the launch of the callback throws, and the buffer is then lost
-- to the shard.
unfoldable pub recycle_after : Option Error → Shard → Shard × Result (Unit {0})
recycle_after none shard = (
  record shard { checked_out = sub64 shard.checked_out 1; in_flight = add64 shard.in_flight 1 },
  ok tt,
)
recycle_after (some e) shard = (
  record shard {
    checked_out = sub64 shard.checked_out 1;
    in_flight = sub64 (add64 shard.in_flight 1) 1;
  },
  err e,
)

unfoldable pub recycle_callback : ℕ → Shard → Shard
recycle_callback size shard = record shard {
  in_flight = sub64 shard.in_flight 1;
  free = size ∷ shard.free;
}
