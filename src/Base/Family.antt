-- ===== src/Base/Family.antt =====
-- Families indexed by a number (threads, slots, sub-ranges): a change at one index, and sums.
use Prim.Native.Nat.{ℕ, zero, suc, ◌+◌, ◌*◌, ◌≤◌, ◌<◌}
use mathlib.Core.Path.{◌≡◌, refl}
use mathlib.Core.Logic.{inl, inr}
use native.Mathlib.Omega.{arith}
use kvikio.Base.Tests.{◌==◌, if◌then◌else◌, Bool-cases, ==→eq}

abbrev pub update {ℓ} : {A : Type ℓ} → (ℕ → A) → ℕ → A → ℕ → A
update f i a j = if i == j then a else f j

module _ {ℓ} {A : Type ℓ} (weight : A → ℕ) where
  -- The weights of the first `n` members.
  unfoldable pub total : ℕ → (ℕ → A) → ℕ
  total zero f = 0
  total (suc n) f = weight (f n) + total n f

  total-update_above : (n i : ℕ) (f : ℕ → A) (a : A) → n ≤ i → total n (update f i a) ≡ total n f
  unfolding total
  total-update_above zero i f a h = refl
  total-update_above (suc n) i f a h = ground (arith, total-update_above n i f a)

  -- One member's weight is exchanged.
  pub total-update :
      (n : ℕ) (f : ℕ → A) (i : ℕ) (a : A)
      → i < n
      → total n (update f i a) + weight (f i) ≡ total n f + weight a
  unfolding total
  total-update zero f i a h = absurd (omega arith)
  total-update (suc n) f i a h = elim (Bool-cases (i == n)) [
    | inl last ↦ ground (arith, total-update_above n i f a, ==→eq i n last)
    | inr below ↦ ground (arith, total-update n f i a)
  ]

  pub weight-le-total : (n : ℕ) (f : ℕ → A) (i : ℕ) → i < n → weight (f i) ≤ total n f
  unfolding total
  weight-le-total zero f i h = absurd (omega arith)
  weight-le-total (suc n) f i h = elim (Bool-cases (i == n)) [
    | inl last ↦ rw (==→eq i n last) (omega arith)
    | inr below ↦ omega (arith, weight-le-total n f i (ground arith))
  ]

  pub total-le : (k : ℕ) → ((a : A) → weight a ≤ k) → (n : ℕ) (f : ℕ → A) → total n f ≤ k * n
  unfolding total
  total-le k h zero f = omega arith
  total-le k h (suc n) f = grind (arith, h (f n), total-le k h n f)

  pub total-const : (n : ℕ) (a : A) → total n (λ _. a) ≡ n * weight a
  unfolding total
  total-const zero a = omega arith
  total-const (suc n) a = grind (arith, total-const n a)
