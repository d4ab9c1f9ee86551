-- ===== src/TransferPlan/Build/Sort.antt =====
-- Sorting a group keeps its requests.
use kvikio.Base.{ℕ, ◌≡◌, refl, inl, inr, Bool, List, [], ◌∷◌, All, count, Bool-cases, arith}
use kvikio.TransferPlan.{TransferPlanRequest}
use kvikio.TransferPlan.Build.{insert, sort, sort_group, by_file_offset, is_sorted}

count-insert :
    (before : ℕ → ℕ → Bool) (i a : ℕ) (xs : List ℕ)
    → count i (insert before a xs) ≡ count i (a ∷ xs)
unfolding insert
count-insert before i a [] = refl
count-insert before i a (b ∷ xs) = ground (arith, count-insert before i a xs)

count-sort : (before : ℕ → ℕ → Bool) (i : ℕ) (xs : List ℕ) → count i (sort before xs) ≡ count i xs
unfolding sort
count-sort before i [] = refl
count-sort before i (a ∷ xs) =
    omega (arith, count-insert before i a (sort before xs), count-sort before i xs)

module _ (P : ℕ → Type 0) (before : ℕ → ℕ → Bool) where
  All-insert : (a : ℕ) (xs : List ℕ) → P a → All P xs → All P (insert before a xs)
  unfolding insert
  All-insert a [] h hs = (h, tt)
  All-insert a (b ∷ xs) h hs = elim (Bool-cases (before a b)) [
    | inl e ↦ rw e (h, hs)
    | inr e ↦ rw e (hs.0, All-insert a xs h hs.1)
  ]

  All-sort : (xs : List ℕ) → All P xs → All P (sort before xs)
  unfolding sort
  All-sort [] h = tt
  All-sort (a ∷ xs) h = All-insert a (sort before xs) h.0 (All-sort xs h.1)

module _ (requests : List TransferPlanRequest) where
  pub count-sort_group :
      (i : ℕ) (group : List ℕ) → count i (sort_group requests group) ≡ count i group
  unfolding sort_group
  count-sort_group i group = elim (Bool-cases (is_sorted (by_file_offset requests) group)) [
    | inl e ↦ rw e refl
    | inr e ↦ rw e (count-sort (by_file_offset requests) i group)
  ]

  pub All-sort_group :
      (P : ℕ → Type 0) (group : List ℕ) → All P group → All P (sort_group requests group)
  unfolding sort_group
  All-sort_group P group h = elim (Bool-cases (is_sorted (by_file_offset requests) group)) [
    | inl e ↦ rw e h
    | inr e ↦ rw e (All-sort P (by_file_offset requests) group h)
  ]
