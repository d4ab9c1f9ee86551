-- ===== src/TransferPlan/Serve.antt =====
-- Which requests a list of deliveries serves, and that serving composes.
use kvikio.Base.{
  ℕ, zero, suc, ◌+◌, ◌≡◌, refl, sym, ◌∙◌, inl, inr, List, [], ◌∷◌, ◌++◌, append-nil, ◌⊎◌, All,
  count, count-append, keep-append, Bool, ◌==◌, Bool-cases, ==→eq, arith, subst,
}
use kvikio.TransferPlan.{TransferPlanRequest, TransferPlan, request_at}
use kvikio.TransferPlan.Delivery.{Delivery, copied, Tiles}
use kvikio.TransferPlan.Emission.{Emits, start, Emits-trans}

-- A request that is not in `order` gets nothing, one that is there once gets all its bytes.
abbrev pub Serves : List TransferPlanRequest → List ℕ → List Delivery → Type 0
Serves requests order ds =
    (i : ℕ)
    → (count i order ≡ 0 → copied i ds ≡ [])
      × (count i order ≡ 1 → Tiles (request_at requests i) 0 (copied i ds))

sum_one : (a b : ℕ) → a + b ≡ 1 → ((a ≡ 1) × (b ≡ 0)) ⊎ ((a ≡ 0) × (b ≡ 1))
sum_one zero b h = inr (refl, omega arith)
sum_one (suc zero) b h = inl (refl, omega arith)
sum_one (suc (suc a)) b h = absurd (omega arith)

module _ (requests : List TransferPlanRequest) where
  pub Serves-append :
      (xs ys : List ℕ) (ds es : List Delivery)
      → Serves requests xs ds
      → Serves requests ys es
      → Serves requests (xs ++ ys) (ds ++ es)
  Serves-append xs ys ds es first second i = (
    λ h.
        rw
          (
            keep-append (λ d. d.request_index == i) ds es,
            (first i).0 (omega (arith, count-append i xs ys)),
            (second i).0 (omega (arith, count-append i xs ys)),
          )
          refl,
    λ h.
        rw (keep-append (λ d. d.request_index == i) ds es)
          (elim (sum_one (count i xs) (count i ys) (sym (count-append i xs ys) ∙ h)) [
            | inl (one, none_left) ↦
                rw ((second i).0 none_left, append-nil (copied i ds)) ((first i).1 one)
            | inr (none_yet, one) ↦ rw ((first i).0 none_yet) ((second i).1 one)
          ]),
  )

  copied_own : (i : ℕ) (ds : List Delivery) → All (λ d. d.request_index ≡ i) ds → copied i ds ≡ ds
  copied_own i [] h = refl
  copied_own i (d ∷ ds) h = ground (arith, copied_own i ds h.1)

  copied_other :
      (i j : ℕ) (ds : List Delivery)
      → (i == j) ≡ Bool.false
      → All (λ d. d.request_index ≡ i) ds
      → copied j ds ≡ []
  copied_other i j [] n h = refl
  copied_other i j (d ∷ ds) n h = ground (arith, copied_other i j ds n h.1)

  -- The deliveries of one request alone.
  pub Serves-one :
      (i : ℕ) (ds : List Delivery)
      → All (λ d. d.request_index ≡ i) ds
      → Tiles (request_at requests i) 0 ds
      → Serves requests (i ∷ []) ds
  Serves-one i ds own tiles j = elim (Bool-cases (i == j)) [
    | inl same ↦ (
      λ h. absurd (ground arith),
      λ h.
          subst (λ k. Tiles (request_at requests k) 0 (copied k ds)) (==→eq i j same)
            (rw (copied_own i ds own) tiles),
    )
    | inr differ ↦ (λ h. copied_other i j ds differ own, λ h. absurd (ground arith))
  ]

  -- From `p` to `q` the planner plans the requests of `order`.
  pub record Planned (task_size : ℕ) (order : List ℕ) (p q : TransferPlan) : Type 0 where
    pub delivered : List Delivery
    pub emits : Emits task_size p q delivered
    pub serves : Serves requests order delivered

  pub Planned-nothing : (task_size : ℕ) (p : TransferPlan) → Planned task_size [] p p
  Planned-nothing task_size p = record {
    delivered = [];
    emits = start;
    serves = λ i. (λ h. refl, λ h. absurd (omega arith));
  }

  pub Planned-trans :
      {task_size : ℕ} {xs ys : List ℕ} {p q r : TransferPlan}
      → Planned task_size xs p q
      → Planned task_size ys q r
      → Planned task_size (xs ++ ys) p r
  Planned-trans {xs} {ys} first second = record {
    delivered = first.delivered ++ second.delivered;
    emits = Emits-trans first.emits second.emits;
    serves = Serves-append xs ys first.delivered second.delivered first.serves second.serves;
  }
