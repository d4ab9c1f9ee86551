-- ===== src/Reactor/Conservation.antt =====
-- No transfer is lost and none is reported twice: every operation keeps the number of places where a
-- transfer is, which are the queue, the reactor's two lists, and the reports.
use kvikio.Base.{
  ℕ, ◌+◌, ◌≡◌, refl, inl, inr, List, [], ◌∷◌, ◌++◌, ◌==◌, if◌then◌else◌, Option-cases, Error, arith,
}
use kvikio.Reactor.{
  Transfer, Report, subrange_complete, subrange_failed, Reactor, World, fail_each, return_to_queue,
  submit_pread, signal_death,
}

-- Whether a transfer, or a report, is that of `i`.
abbrev pub is_of : ℕ → ℕ → ℕ
is_of i easy = if easy == i then 1 else 0

abbrev pub among : ℕ → List Transfer → ℕ
among i [] = 0
among i (t ∷ ts) = is_of i t.easy + among i ts

abbrev pub reporter : Report → ℕ
reporter (subrange_complete easy bytes) = easy
reporter (subrange_failed easy e) = easy

abbrev pub reported : ℕ → List Report → ℕ
reported i [] = 0
reported i (r ∷ rs) = is_of i (reporter r) + reported i rs

abbrev pub held : ℕ → Reactor → ℕ
held i r = among i r.pending + among i r.in_flight

-- The places of transfer `i`.
abbrev pub places : ℕ → World → ℕ
places i w = among i w.pool.queue + held i w.reactor + reported i w.reports

module _ (i : ℕ) where
  pub among-append : (xs ys : List Transfer) → among i (xs ++ ys) ≡ among i xs + among i ys
  among-append [] ys = omega arith
  among-append (x ∷ xs) ys = omega (arith, among-append xs ys)

  pub reported-append :
      (xs ys : List Report) → reported i (xs ++ ys) ≡ reported i xs + reported i ys
  reported-append [] ys = omega arith
  reported-append (x ∷ xs) ys = omega (arith, reported-append xs ys)

  pub reported-fail_each :
      (e : Error) (ts : List Transfer) (rs : List Report)
      → reported i (fail_each e ts rs) ≡ reported i rs + among i ts
  unfolding fail_each
  reported-fail_each e [] rs = omega arith
  reported-fail_each e (t ∷ ts) rs = omega (
    arith,
    reported-fail_each e ts (rs ++ subrange_failed t.easy e ∷ []),
    reported-append rs (subrange_failed t.easy e ∷ []),
  )

  pub return_to_queue-places :
      (t : Transfer) (w : World) → places i (return_to_queue t w) ≡ places i w + is_of i t.easy
  unfolding return_to_queue fail_each
  return_to_queue-places t w = elim (Option-cases w.pool.death_reason) [
    | inl alive ↦ rw (alive, return_to_queue) (omega arith)
    | inr (e, dead) ↦
        rw (dead, return_to_queue)
          (omega (arith, reported-append w.reports (subrange_failed t.easy e ∷ [])))
  ]

  pub submit_pread-places :
      (ts : List Transfer) (w : World) → places i (submit_pread ts w) ≡ places i w + among i ts
  unfolding submit_pread
  submit_pread-places ts w = elim (Option-cases w.pool.death_reason) [
    | inl alive ↦ rw (alive, submit_pread) (omega (arith, among-append w.pool.queue ts))
    | inr (e, dead) ↦ rw (dead, submit_pread) (omega (arith, reported-fail_each e ts w.reports))
  ]

  pub signal_death-places : (e : Error) (w : World) → places i (signal_death e w) ≡ places i w
  unfolding signal_death
  signal_death-places e w = elim (Option-cases w.pool.death_reason) [
    | inl alive ↦
        rw (alive, signal_death) (omega (arith, reported-fail_each e w.pool.queue w.reports))
    | inr (first, dead) ↦ rw (dead, signal_death) refl
  ]
