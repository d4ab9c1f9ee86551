-- ===== src/Aggregate/Invariant.antt =====
-- What every interleaving of the reports keeps.
use kvikio.Base.{
  ℕ, ◌+◌, ◌%◌, ◌<◌, ◌≡◌, ◌≢◌, refl, ap, ◌∙◌, ◌⊎◌, inl, inr, Option, none, some, Option-cases, ==→eq,
  List, [], ◌∷◌, ◌++◌, ◌==◌, if◌then◌else◌, Bool-cases, update, total, total-update,
  weight-le-total, total-le, add64, sub64, sub64_exact, u64_mod, arith,
}
use kvikio.Aggregate.{
  Event, observe_success, observe_failure, promise_value, promise_exception, Aggregate, observed,
  add_bytes, note_exception, count_down, finish_complete, finish_failed, Pc, waiting, added, noted,
  last_complete, last_failed, completed, failed, System, put, Step, add, note, count_complete,
  count_failed, close_complete, close_failed,
}

-- Not yet counted down.
abbrev pub open_weight : Pc → ℕ
open_weight waiting = 1
open_weight (added _) = 1
open_weight (noted _) = 1
open_weight _ = 0

-- The last to count down, and not yet closed.
abbrev pub closing_weight : Pc → ℕ
closing_weight (last_complete _) = 1
closing_weight (last_failed _) = 1
closing_weight _ = 0

abbrev pub bytes_weight : Pc → ℕ
bytes_weight (added bytes) = bytes
bytes_weight (last_complete bytes) = bytes
bytes_weight (completed bytes) = bytes
bytes_weight _ = 0

-- The exception that the sub-range reported.
abbrev pub failure_of : Pc → Option ℕ
failure_of (noted e) = some e
failure_of (last_failed e) = some e
failure_of (failed e) = some e
failure_of _ = none

abbrev pub some_weight : Option ℕ → ℕ
some_weight none = 0
some_weight (some _) = 1

abbrev pub failed_weight : Pc → ℕ
failed_weight pc = some_weight (failure_of pc)

-- What the last sub-range emits.
abbrev pub closing_events : Aggregate → List Event
closing_events a = elim a.first_exception [
  | none ↦ observed a (observe_success a.total_bytes) (promise_value a.total_bytes ∷ [])
  | some e ↦ observed a observe_failure (promise_exception (some e) ∷ [])
]

-- The three phases: sub-ranges are left; the last one has yet to close; the promise is fulfilled.
abbrev pub Phase : Aggregate → ℕ → Type 0
Phase a closing =
    ((0 < a.subranges_left) × (closing ≡ 0) × (a.events ≡ []))
    ⊎ (((a.subranges_left ≡ 0) × (closing ≡ 1) × (a.events ≡ []))
        ⊎ ((a.subranges_left ≡ 0) × (closing ≡ 0) × (a.events ≡ closing_events a)))

pub record Inv (n : ℕ) (s : System) : Type 0 where
  pub left : s.aggregate.subranges_left ≡ total open_weight n s.subranges
  pub bytes : s.aggregate.total_bytes % u64_mod ≡ total bytes_weight n s.subranges % u64_mod
  pub clean : s.aggregate.first_exception ≡ none → total failed_weight n s.subranges ≡ 0
  pub culprit :
      (e : ℕ)
      → s.aggregate.first_exception ≡ some e
      → (i : ℕ) × (i < n) × (failure_of (s.subranges i) ≡ some e)
  pub phase : Phase s.aggregate (total closing_weight n s.subranges)

-- `count-…`: what each sum becomes when sub-range `i` goes from `pc` to `pc'`.
sum_put :
    (weight : Pc → ℕ) (n : ℕ) (s : System) (i : ℕ) {pc : Pc} (pc' : Pc)
    → i < n
    → s.subranges i ≡ pc
    → total weight n (update s.subranges i pc') + weight pc
      ≡ total weight n s.subranges + weight pc'
sum_put weight n s i pc' h e = omega (arith, total-update weight n s.subranges i pc' h, ap weight e)

module _ {n : ℕ} {s : System} (few : n < u64_mod) (inv : Inv n s) where
  open inv use {left, bytes, clean, culprit, phase}

  -- A sub-range that is not counted down keeps the aggregate in its first phase.
  still_open :
      (i : ℕ) {pc : Pc}
      → i < n
      → s.subranges i ≡ pc
      → open_weight pc ≡ 1
      → (0 < s.aggregate.subranges_left)
        × (total closing_weight n s.subranges ≡ 0)
        × (s.aggregate.events ≡ [])
  still_open i h e w =
      let one = weight-le-total open_weight n s.subranges i h in
      let pos : 0 < s.aggregate.subranges_left = omega (arith, left, one, ap open_weight e, w) in
      ground arith

  kept_culprit :
      (i : ℕ) {pc : Pc} (pc' : Pc)
      → s.subranges i ≡ pc
      → failure_of pc' ≡ failure_of pc
      → (e : ℕ) → s.aggregate.first_exception ≡ some e
      → (j : ℕ) × (j < n) × (failure_of (update s.subranges i pc' j) ≡ some e)
  kept_culprit i pc' at same e first = let (j, lt, who) = culprit e first in (j, lt, ground arith)

  add-Inv :
      (i bytes : ℕ)
      → i < n
      → s.subranges i ≡ waiting
      → Inv n (put s (add_bytes bytes s.aggregate) i (added bytes))
  unfolding add64
  add-Inv i b h e =
      let open_phase = still_open i h e refl in
      record {
        left = omega (arith, left, sum_put open_weight n s i (added b) h e);
        bytes = omega (arith, bytes, sum_put bytes_weight n s i (added b) h e);
        clean =
            λ none_yet. omega (arith, clean none_yet, sum_put failed_weight n s i (added b) h e);
        culprit = kept_culprit i (added b) e refl;
        phase = inl (
          open_phase.0,
          omega (arith, open_phase.1, sum_put closing_weight n s i (added b) h e),
          open_phase.2,
        );
      }

  note-Inv :
      (i e : ℕ)
      → i < n
      → s.subranges i ≡ waiting
      → Inv n (put s (note_exception e s.aggregate) i (noted e))
  note-Inv i e h at =
      let open_phase = still_open i h at refl in
      record {
        left = omega (arith, left, sum_put open_weight n s i (noted e) h at);
        bytes = omega (arith, bytes, sum_put bytes_weight n s i (noted e) h at);
        clean = λ none_yet. absurd (ground arith);
        culprit = λ f first. elim (Option-cases s.aggregate.first_exception) [
          | inl none_yet ↦ (i, h, ground arith)
          | inr (g, old) ↦ let (j, lt, who) = culprit g old in (j, lt, ground arith)
        ];
        phase = inl (
          open_phase.0,
          omega (arith, open_phase.1, sum_put closing_weight n s i (noted e) h at),
          open_phase.2,
        );
      }

  -- A decrement: `last` is where the sub-range goes if none is left, `rest` where it goes else.
  count-Inv :
      (i : ℕ) {pc : Pc} (last rest : Pc)
      → i < n
      → s.subranges i ≡ pc
      → (open_weight pc ≡ 1) × (open_weight last ≡ 0) × (open_weight rest ≡ 0)
      → (closing_weight pc ≡ 0) × (closing_weight last ≡ 1) × (closing_weight rest ≡ 0)
      → (bytes_weight last ≡ bytes_weight pc) × (bytes_weight rest ≡ bytes_weight pc)
      → (failure_of last ≡ failure_of pc) × (failure_of rest ≡ failure_of pc)
      → Inv n (
          put s (count_down s.aggregate) i (if s.aggregate.subranges_left == 1 then last else rest))
  count-Inv i {pc} last rest h at o c b f =
      let open_phase = still_open i h at o.0 in
      let fits = total-le open_weight 1 (λ p. ground arith) n s.subranges in
      let less : sub64 s.aggregate.subranges_left 1 + 1 ≡ s.aggregate.subranges_left =
        omega (arith, left, open_phase.0, sub64_exact s.aggregate.subranges_left 1) in
      elim (Bool-cases (s.aggregate.subranges_left == 1)) [
        | inl one ↦ rw one (record {
          left = omega (arith, left, less, o, sum_put open_weight n s i last h at);
          bytes = omega (arith, bytes, b, sum_put bytes_weight n s i last h at);
          clean = λ none_yet.
              omega
                (arith, clean none_yet, ap some_weight f.0, sum_put failed_weight n s i last h at);
          culprit = kept_culprit i last at f.0;
          phase = inr (
              inl (
                omega (arith, less, ==→eq s.aggregate.subranges_left 1 one),
                omega (arith, open_phase.1, c, sum_put closing_weight n s i last h at),
                open_phase.2,
              ));
        })
        | inr more ↦
            let several : s.aggregate.subranges_left ≢ 1 = ground arith in
            rw more (record {
              left = omega (arith, left, less, o, sum_put open_weight n s i rest h at);
              bytes = omega (arith, bytes, b, sum_put bytes_weight n s i rest h at);
              clean = λ none_yet. omega (
                arith,
                clean none_yet,
                ap some_weight f.1,
                sum_put failed_weight n s i rest h at,
              );
              culprit = kept_culprit i rest at f.1;
              phase = inl (
                omega (arith, less, several, open_phase.0),
                omega (arith, open_phase.1, c, sum_put closing_weight n s i rest h at),
                open_phase.2,
              );
            })
      ]

  -- The last sub-range closes: it emits `emitted` and goes from `pc` to `done`.
  close-Inv :
      (i : ℕ) {pc : Pc} (done : Pc) (emitted : List Event)
      → i < n
      → s.subranges i ≡ pc
      → (open_weight pc ≡ 0) × (open_weight done ≡ 0)
      → (closing_weight pc ≡ 1) × (closing_weight done ≡ 0)
      → bytes_weight done ≡ bytes_weight pc
      → failure_of done ≡ failure_of pc
      → emitted ≡ closing_events s.aggregate
      → Inv n (put s (record (s.aggregate) { events = s.aggregate.events ++ emitted }) i done)
  close-Inv i {pc} done emitted h at o c b f e =
      let one = weight-le-total closing_weight n s.subranges i h in
      let w = ap closing_weight at in
      let closing : (s.aggregate.subranges_left ≡ 0)
          × (total closing_weight n s.subranges ≡ 1)
          × (s.aggregate.events ≡ []) =
        ground (arith, one, w) in
      record {
        left = omega (arith, left, o, sum_put open_weight n s i done h at);
        bytes = omega (arith, bytes, b, sum_put bytes_weight n s i done h at);
        clean = λ none_yet.
            omega (arith, clean none_yet, ap some_weight f, sum_put failed_weight n s i done h at);
        culprit = kept_culprit i done at f;
        phase = inr (
            inr (
              closing.0,
              omega (arith, closing.1, c, sum_put closing_weight n s i done h at),
              ap (λ xs. xs ++ emitted) closing.2 ∙ e,
            ));
      }

  -- A failed sub-range has left an exception behind.
  has_exception :
      (i e : ℕ) (pc : Pc)
      → i < n
      → s.subranges i ≡ pc
      → failure_of pc ≡ some e
      → (f : ℕ) × (s.aggregate.first_exception ≡ some f)
  has_exception i e pc h at who = elim (Option-cases s.aggregate.first_exception) [
    | inl none_yet ↦ absurd (
        omega (
          arith,
          clean none_yet,
          weight-le-total failed_weight n s.subranges i h,
          ap failed_weight at,
          ap some_weight who,
        ))
    | inr found ↦ found
  ]

  pub Step-Inv : {t : System} → Step n s t → Inv n t
  unfolding finish_complete finish_failed
  Step-Inv (add i b h at) = add-Inv i b h at
  Step-Inv (note i e h at) = note-Inv i e h at
  Step-Inv (count_complete i b h at) =
      count-Inv i (last_complete b) (completed b) h at (refl, refl, refl) (refl, refl, refl)
        (refl, refl) (refl, refl)
  Step-Inv (count_failed i e h at) =
      count-Inv i (last_failed e) (failed e) h at (refl, refl, refl) (refl, refl, refl) (refl, refl)
        (refl, refl)
  Step-Inv (close_complete i b h at) =
      close-Inv i (completed b) _ h at (refl, refl) (refl, refl) refl refl refl
  Step-Inv (close_failed i e h at) =
      let (f, first) = has_exception i e (last_failed e) h at refl in
      close-Inv i (failed e) _ h at (refl, refl) (refl, refl) refl refl (rw first refl)
