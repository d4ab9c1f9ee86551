-- ===== src/Limiter/Invariant.antt =====
-- The count is the number of engaged slots in every reachable state, so the ceiling is hard.
use kvikio.Base.{
  ℕ, ◌≡◌, ◌≢◌, ◌<◌, ◌≤◌, ◌+◌, refl, Bool, true, false, Option, none, some, inl, inr, update, total,
  total-update, total-le, total-const, weight-le-total, add64, add64_exact, sub64_exact, u64_mod,
  arith, Bool-cases, ap, ◌∙◌,
}
use kvikio.Limiter.{
  Limiter, count_up, is_full, unlimited, try_acquire, reset_slot, Pc, outside, loaded, System, Step,
  acquire_unlimited, load, refuse, exchange, retry, reset, move, init, Steps, here, next, Reach,
}

abbrev pub engaged : Bool → ℕ
engaged true = 1
engaged false = 0

pub held : ℕ → System → ℕ
held m s = total engaged m s.slots

abbrev pub Below : Option ℕ → ℕ → Type 0
Below none n = Unit
Below (some ceiling) n = n ≤ ceiling

pub record Inv (m : ℕ) (ceiling : Option ℕ) (s : System) : Type 0 where
  pub same_ceiling : s.limiter.max_concurrent_requests ≡ ceiling
  pub exact : s.limiter.count ≡ held m s
  pub capped : Below ceiling s.limiter.count

held-le : (m : ℕ) (s : System) → held m s ≤ m
unfolding held
held-le m s = omega (arith, total-le engaged 1 (λ b. ground arith) m s.slots)

-- A null slot becomes engaged.
held-engage :
    (m : ℕ) (slots : ℕ → Bool) (i : ℕ)
    → i < m
    → slots i ≡ false
    → total engaged m (update slots i true) ≡ total engaged m slots + 1
held-engage m slots i h e = omega (arith, total-update engaged m slots i true h, ap engaged e)

reset_slot_lem :
    (l : Limiter) (b : Bool)
    → l.count < u64_mod
    → engaged b ≤ l.count
    → ((reset_slot l b).0.max_concurrent_requests ≡ l.max_concurrent_requests)
      × ((reset_slot l b).0.count + engaged b ≡ l.count)
unfolding reset_slot
reset_slot_lem l true lt le = (refl, omega (arith, sub64_exact l.count 1 lt le))
reset_slot_lem l false lt le = (refl, omega arith)

Below-mono : (ceiling : Option ℕ) (a b : ℕ) → a ≤ b → Below ceiling b → Below ceiling a
Below-mono none a b h k = tt
Below-mono (some ceiling) a b h k = omega arith

Below-suc :
    (ceiling : Option ℕ) (l : Limiter)
    → l.max_concurrent_requests ≡ ceiling
    → is_full l l.count ≡ false
    → Below ceiling (l.count + 1)
Below-suc none l same free = tt
Below-suc (some ceiling) l same free = ground arith

unlimited-Below :
    (ceiling : Option ℕ) (l : Limiter) (n : ℕ)
    → l.max_concurrent_requests ≡ ceiling
    → unlimited l ≡ true
    → Below ceiling n
unfolding unlimited
unlimited-Below none l n same free = tt
unlimited-Below (some ceiling) l n same free = absurd (ground arith)

moved-held :
    (m : ℕ) (slots : ℕ → Bool) (i j : ℕ)
    → i < m
    → j < m
    → i ≢ j
    → total engaged m (update (update slots j (slots i)) i false) + engaged (slots j)
      ≡ total engaged m slots
moved-held m slots i j hi hj ne =
    let kept : update slots j (slots i) i ≡ slots i = ground arith in
    omega (
      arith,
      total-update engaged m slots j (slots i) hj,
      total-update engaged m (update slots j (slots i)) i false hi,
      ap engaged kept,
    )

module _ {m : ℕ} {ceiling : Option ℕ} {s : System} (few : m < u64_mod) (inv : Inv m ceiling s) where
  open inv use {same_ceiling, exact, capped}

  counted : s.limiter.count ≤ m
  unfolding held
  counted = omega (arith, exact, held-le m s)

  -- Any step that engages the null slot `i` and counts up.
  engage-Inv :
      (i : ℕ) (threads : ℕ → Pc)
      → i < m
      → s.slots i ≡ false
      → Below ceiling (s.limiter.count + 1)
      → Inv m ceiling (record {
        limiter = count_up s.limiter;
        slots = update s.slots i true;
        threads = threads;
      })
  unfolding held
  engage-Inv i threads h e room =
      let grown = held-engage m s.slots i h e in
      let up : add64 s.limiter.count 1 ≡ s.limiter.count + 1 = add64_exact s.limiter.count 1 (
        omega (
          arith,
          exact,
          grown,
          total-le engaged 1 (λ b. ground arith) m (update s.slots i true),
        )) in
      record {
        same_ceiling = same_ceiling;
        exact = omega (arith, exact, up, grown);
        capped = rw up room;
      }

  -- Any step that resets slot `j` and leaves the others as many.
  drop-Inv :
      (j : ℕ) (slots : ℕ → Bool)
      → j < m
      → total engaged m slots + engaged (s.slots j) ≡ total engaged m s.slots
      → Inv m ceiling (record s { limiter = (reset_slot s.limiter (s.slots j)).0; slots = slots })
  unfolding held
  drop-Inv j slots h sum =
      let (same, less) =
        reset_slot_lem s.limiter (s.slots j) (omega (arith, counted)) (omega (arith, exact, sum)) in
      record {
        same_ceiling = same ∙ same_ceiling;
        exact = omega (arith, less, exact, sum);
        capped =
            Below-mono ceiling (reset_slot s.limiter (s.slots j)).0.count s.limiter.count
              (omega (arith, less)) capped;
      }

  pub Step-Inv : {t : System} → Step m s t → Inv m ceiling t
  unfolding held
  Step-Inv (acquire_unlimited i h free e) =
      engage-Inv i s.threads h e
        (unlimited-Below ceiling s.limiter (s.limiter.count + 1) same_ceiling free)
  Step-Inv (load t free e) = record { same_ceiling = same_ceiling; exact = exact; capped = capped }
  Step-Inv (refuse t cur at full) = record {
    same_ceiling = same_ceiling;
    exact = exact;
    capped = capped;
  }
  Step-Inv (exchange t cur i h at free same e) = rw (← same) (
      engage-Inv i (update s.threads t outside) h e
        (Below-suc ceiling s.limiter same_ceiling (rw same free)))
  Step-Inv (retry t cur at free) = record {
    same_ceiling = same_ceiling;
    exact = exact;
    capped = capped;
  }
  Step-Inv (reset i h) =
      drop-Inv i (update s.slots i false) h
        (omega (arith, total-update engaged m s.slots i false h))
  Step-Inv (move i j hi hj ne) =
      drop-Inv j (update (update s.slots j (s.slots i)) i false) hj
        (moved-held m s.slots i j hi hj ne)

init-Inv : (m : ℕ) (ceiling : Option ℕ) → Inv m ceiling (init ceiling)
unfolding held
init-Inv m ceiling = record {
  same_ceiling = refl;
  exact = omega (arith, total-const engaged m false);
  capped = zero_Below ceiling;
}
  where
    zero_Below : (c : Option ℕ) → Below c 0
    zero_Below none = tt
    zero_Below (some ceiling) = omega arith

Reach-Inv :
    {m : ℕ} {ceiling : Option ℕ} {s : System} → m < u64_mod → Reach m ceiling s → Inv m ceiling s
Reach-Inv {m} {ceiling} few here = init-Inv m ceiling
Reach-Inv few (next r st) = Step-Inv few (Reach-Inv few r) st

-- However threads acquire, move and reset slots, among fewer than 2^64 slot objects the count is at
-- each moment the number of engaged slots, and never above the ceiling.
pub count-eq-held :
    {m : ℕ} {ceiling : Option ℕ} {s : System}
    → m < u64_mod
    → Reach m ceiling s
    → (s.limiter.count ≡ held m s) × Below ceiling s.limiter.count
count-eq-held few r = let inv = Reach-Inv few r in (inv.exact, inv.capped)

-- `release` never underflows: whenever a slot among fewer than 2^64 is engaged the count is
-- positive, so giving it back subtracts exactly one.
pub reset_exact :
    {m : ℕ} {ceiling : Option ℕ} {s : System}
    → m < u64_mod
    → Reach m ceiling s
    → (i : ℕ) → i < m
    → s.slots i ≡ true
    → (reset_slot s.limiter (s.slots i)).0.count + 1 ≡ s.limiter.count
unfolding held reset_slot
reset_exact {m} {s} few r i h e =
    let (exact, _) = count-eq-held few r in
    let one = weight-le-total engaged m s.slots i h in
    let bound = held-le m s in
    let w = ap engaged e in rw e (omega (arith, sub64_exact s.limiter.count 1))

unlimited_not_full : (l : Limiter) (n : ℕ) → unlimited l ≡ true → is_full l n ≡ false
unfolding unlimited
unlimited_not_full l n free = ground arith

-- From any state a thread outside `try_acquire` can run it to its end, with a null slot to return to,
-- and the counter and that slot are then as the sequential `try_acquire` says.
pub try_acquire_runs :
    (m : ℕ) (s : System) (t i : ℕ)
    → i < m
    → s.threads t ≡ outside
    → s.slots i ≡ false
    → (u : System) × Steps m s u
      × (u.limiter ≡ (try_acquire s.limiter).0)
      × (u.slots i ≡ (try_acquire s.limiter).1)
unfolding try_acquire
try_acquire_runs m s t i h out null = elim (Bool-cases (unlimited s.limiter)) [
  | inl free ↦
      let open_wide : is_full s.limiter s.limiter.count ≡ false =
        unlimited_not_full s.limiter s.limiter.count free in
      (_, next here (acquire_unlimited i h free null), rw open_wide, rw open_wide (ground arith))
  | inr ceiling ↦
      let first : Steps m s _ = next here (load t ceiling out) in
      let at : update s.threads t (loaded s.limiter.count) t ≡ loaded s.limiter.count =
        ground arith in
      elim (Bool-cases (is_full s.limiter s.limiter.count)) [
        | inl full ↦ (_, next first (refuse t s.limiter.count at full), rw full, rw full null)
        | inr room ↦ (
          _,
          next first (exchange t s.limiter.count i h at room refl null),
          rw room,
          rw room (ground arith),
        )
      ]
]
