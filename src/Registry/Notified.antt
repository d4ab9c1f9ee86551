-- ===== src/Registry/Notified.antt =====
-- Over any registrations and removals: the gate hides no monitor, and one that was removed is told nothing.
use kvikio.Base.{
  ℕ, ◌+◌, ◌%◌, ◌^◌, ◌≤◌, ◌<◌, ◌≡◌, ◌≢◌, refl, ap, sym, subst, ◌∙◌, inl, inr, Bool, false, not, ◌||◌,
  List, [], ◌∷◌, ◌++◌, keep, length, ◌==◌, ==→eq, if◌then◌else◌, Bool-cases, Result, ok, All,
  All-append, arith,
}
use kvikio.Registry.{
  ObservationKind, logical, physical, is_kind, Entry, Registry, new_registry, count_of,
  publish_count, Added, add, erase, remove, monitoring_enabled, notify,
}

-- A call that succeeded.
pub data Step (r : Registry) : Registry → Type 0 where
  adds :
      (monitor id : ℕ) (kind : ObservationKind) (after : Registry)
      → add false monitor kind r ≡ ok (id, after)
      → Step r after
  removes : (id : ℕ) (after : Registry) → remove false id r ≡ ok after → Step r after

pub data Reach : Registry → Type 0 where
  fresh : Reach new_registry
  next : {r s : Registry} → Reach r → Step r s → Reach s

-- Ids are new when they are given.
abbrev IsBelow : ℕ → List Entry → Type 0
IsBelow n es = All (λ e. e.id < n) es

abbrev IsApart : List Entry → Type 0
IsApart [] = Unit
IsApart (e ∷ es) = All (λ d. d.id ≢ e.id) es × IsApart es

pub record Inv (r : Registry) : Type 0 where
  pub logical_counted : r.logical_count ≡ count_of logical r.monitors % 2 ^ 32
  pub physical_counted : r.physical_count ≡ count_of physical r.monitors % 2 ^ 32
  pub below : IsBelow r.next_id r.monitors
  pub apart : IsApart r.monitors

suc-IsBelow : (n : ℕ) (es : List Entry) → IsBelow n es → IsBelow (n + 1) es
suc-IsBelow n [] h = tt
suc-IsBelow n (e ∷ es) h = (omega (arith, h.0), suc-IsBelow n es h.1)

new-IsApart :
    (n : ℕ) (es : List Entry) (d : Entry)
    → d.id ≡ n
    → IsBelow n es
    → IsApart es
    → IsApart (es ++ d ∷ [])
new-IsApart n [] d new b a = (tt, tt)
new-IsApart n (e ∷ es) d new b a = (
  All-append (λ x. x.id ≢ e.id) es (d ∷ []) a.0
      ((λ same. absurd (omega (arith, same, new, b.0))), tt),
  new-IsApart n es d new b.1 a.1,
)

erase-All {κ} : (P : Entry → Type κ) (id : ℕ) (es : List Entry) → All P es → All P (erase id es)
erase-All P id [] h = tt
erase-All P id (e ∷ es) h = elim (Bool-cases (e.id == id)) [
  | inl k ↦ rw k h.1
  | inr k ↦ rw k (h.0, erase-All P id es h.1)
]

erase-IsApart : (id : ℕ) (es : List Entry) → IsApart es → IsApart (erase id es)
erase-IsApart id [] h = tt
erase-IsApart id (e ∷ es) h = elim (Bool-cases (e.id == id)) [
  | inl k ↦ rw k h.1
  | inr k ↦ rw k (erase-All (λ d. d.id ≢ e.id) id es h.0, erase-IsApart id es h.1)
]

-- Of ids that differ, only one is erased.
erase_gone : (id : ℕ) (es : List Entry) → IsApart es → All (λ e. e.id ≢ id) (erase id es)
erase_gone id [] h = tt
erase_gone id (e ∷ es) h = elim (Bool-cases (e.id == id)) [
  | inl k ↦ rw k (rw (← ==→eq e.id id k) h.0)
  | inr k ↦ rw k ((λ same. absurd (ground (arith, same, k))), erase_gone id es h.1)
]

publish-Inv :
    (es : List Entry) (n l p : ℕ)
    → IsBelow n es
    → IsApart es
    → Inv (
        publish_count
          (record { monitors = es; next_id = n; logical_count = l; physical_count = p }))
unfolding publish_count
publish-Inv es n l p b a = record {
  logical_counted = refl;
  physical_counted = refl;
  below = b;
  apart = a;
}

Step-Inv : {r s : Registry} → Step r s → Inv r → Inv s
unfolding add remove
Step-Inv {r} (adds monitor id kind after said) inv =
    let n = r.next_id in
    let entry : Entry = record { id = n; kind = kind; monitor = monitor } in
    subst Inv (second said) (
      publish-Inv (r.monitors ++ entry ∷ []) (n + 1) _ _
        (All-append (λ e. e.id < n + 1) r.monitors (entry ∷ []) (suc-IsBelow n r.monitors inv.below)
          (omega arith, tt))
        (new-IsApart n r.monitors entry refl inv.below inv.apart))
  where
    second : {x y : Registry} {i j : ℕ} → ◌≡◌ {A = Result Added} (ok (i, x)) (ok (j, y)) → x ≡ y
    second e = cc e
Step-Inv {r} (removes id after said) inv = subst Inv (same said) (
    publish-Inv (erase id r.monitors) r.next_id _ _
      (erase-All (λ e. e.id < r.next_id) id r.monitors inv.below)
      (erase-IsApart id r.monitors inv.apart))
  where
    same : {x y : Registry} → ◌≡◌ {A = Result Registry} (ok x) (ok y) → x ≡ y
    same e = cc e

Reach-Inv : {r : Registry} → Reach r → Inv r
Reach-Inv fresh = record { logical_counted = refl; physical_counted = refl; below = tt; apart = tt }
Reach-Inv (next r step) = Step-Inv step (Reach-Inv r)

length_zero : (es : List Entry) → length es ≡ 0 → es ≡ []
length_zero [] h = refl
length_zero (e ∷ es) h = absurd (omega (arith, h))

gate_lem :
    (n : ℕ) (es : List Entry)
    → length es < 2 ^ 32
    → n ≡ length es % 2 ^ 32
    → (if not (not (n == 0)) || false then [] else es) ≡ es
gate_lem n es few h = elim (Bool-cases (n == 0)) [
  | inl none ↦ rw none (sym (length_zero es (omega (arith, few, h, ==→eq n 0 none))))
  | inr some_there ↦ rw some_there refl
]

length-keep :
    (kind : ObservationKind) (es : List Entry)
    → length (keep (λ e. is_kind e.kind kind) es) ≤ length es
length-keep kind [] = omega arith
length-keep kind (e ∷ es) = elim (Bool-cases (is_kind e.kind kind)) [
  | inl k ↦ rw (k, keep) (omega (arith, length-keep kind es))
  | inr k ↦ rw (k, keep) (omega (arith, length-keep kind es))
]

notify_exact :
    (kind : ObservationKind) (r : Registry)
    → Inv r
    → length r.monitors < 2 ^ 32
    → notify false kind r ≡ keep (λ e. is_kind e.kind kind) r.monitors
unfolding notify monitoring_enabled
notify_exact logical r inv few =
    gate_lem r.logical_count _ (omega (arith, few, length-keep logical r.monitors))
      inv.logical_counted
notify_exact physical r inv few =
    gate_lem r.physical_count _ (omega (arith, few, length-keep physical r.monitors))
      inv.physical_counted

keep-All {κ} :
    (P : Entry → Type κ) (p : Entry → Bool) (es : List Entry) → All P es → All P (keep p es)
keep-All P p [] h = tt
keep-All P p (e ∷ es) h = elim (Bool-cases (p e)) [
  | inl k ↦ rw (k, keep) (h.0, keep-All P p es h.1)
  | inr k ↦ rw (k, keep) (keep-All P p es h.1)
]

remaining : (r s : Registry) (id : ℕ) → remove false id r ≡ ok s → s.monitors ≡ erase id r.monitors
unfolding remove publish_count
remaining r s id said = of_ok _ s said
  where
    of_ok : (x y : Registry) → ◌≡◌ {A = Result Registry} (ok x) (ok y) → y.monitors ≡ x.monitors
    of_ok x y e = cc e

-- After any registrations and removals, once `remove` of an id returns, a notification reaches exactly
-- the monitors of its kind that are still registered, in the order in which they were, though it first
-- reads the published count of 32 bits; and none of them has the id that was removed. Fewer than 2^32
-- monitors are left.
pub notify-remove :
    {r : Registry} (id : ℕ) (kind : ObservationKind) (s : Registry)
    → Reach r
    → remove false id r ≡ ok s
    → length s.monitors < 2 ^ 32
    → (notify false kind s ≡ keep (λ e. is_kind e.kind kind) (erase id r.monitors))
      × All (λ e. e.id ≢ id) (notify false kind s)
notify-remove {r} id kind s reached said few =
    let exact = notify_exact kind s (Reach-Inv (next reached (removes id s said))) few in
    let left : s.monitors ≡ erase id r.monitors = remaining r s id said in
    let told = exact ∙ ap (keep (λ e. is_kind e.kind kind)) left in
    (
      told,
      rw told (keep-All (λ e. e.id ≢ id) _ _ (erase_gone id r.monitors (Reach-Inv reached).apart)),
    )
