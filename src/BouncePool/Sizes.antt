-- ===== src/BouncePool/Sizes.antt =====
-- The sizes that the bounce buffer pool lends, and what is lost while `deallocate` does not throw, as
-- that of PageAlignedAllocator.
use kvikio.Base.{
  ℕ, ◌≡◌, refl, ◌∙◌, ◌==◌, ==→eq, Bool-cases, inl, inr, Option, none, some, Result, ok, err,
}
use kvikio.BouncePool.{
  Pool, Allocator, Effect, ensure_buffer_size, Buffer, get, lend_new, lend_after,
}

ensure_buffer_size-size :
    (setting : ℕ) (p : Pool) → (ensure_buffer_size setting p).1.buffer_size ≡ setting
unfolding ensure_buffer_size
ensure_buffer_size-size setting p = elim (Bool-cases (p.buffer_size == setting)) [
  | inl h ↦ rw h (==→eq p.buffer_size setting h)
  | inr h ↦ rw h refl
]

lend_after-size :
    (a : Allocator) (r : Result (Unit {0})) (reused : Option ℕ) (size : ℕ) (e : Effect) (p : Pool)
    (v : Buffer)
    → (lend_after a r reused size e p).result ≡ ok v
    → v.size ≡ size
lend_after-size a (ok u) (some b) size e p v h = cc h
lend_after-size a (ok u) none size e p v h = new_size (a.allocate size) h
  where
    new_size : (r : Result ℕ) → (lend_new r size e p).result ≡ ok v → v.size ≡ size
    new_size (ok b) h = cc h
    new_size (err f) h = absurd (cc h)
lend_after-size a (err f) reused size e p v h = absurd (cc h)

-- A buffer that is lent, whether it is new or was lent before under another setting, has the size that
-- is configured at that time.
pub get_size :
    (a : Allocator) (setting : ℕ) (p : Pool) (v : Buffer)
    → (get a setting p).result ≡ ok v
    → v.size ≡ setting
unfolding get
get_size a setting p v h = lend_after-size a _ _ _ _ _ v h ∙ ensure_buffer_size-size setting p

-- `deallocate` does not throw.
abbrev pub NeverThrows : Allocator → Type 0
NeverThrows a = (b n : ℕ) → a.deallocate b n ≡ ok tt
