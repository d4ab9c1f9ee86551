-- ===== src/RemoteRead/Subranges.antt =====
-- The sub-ranges of a `pread` for the reactors.
use kvikio.Base.{
  ℕ, zero, suc, ◌+◌, ◌-◌, ◌*◌, ◌^◌, ◌≤◌, ◌<◌, ◌≡◌, refl, inl, inr, min, false, List, [], ◌∷◌, All,
  length, leb, Bool-cases, add64, sub64, add64_exact, sub64_exact, Result, ok, u64_mod, arith,
}
use native.Mathlib.Nat.{lt-mul-div-succ, mul-div-le}
use kvikio.Pieces.{
  Piece, advance, IsBounded, IsCovered, advance-IsAdvanced, advance-IsBounded, cut-IsCovered,
}
use kvikio.RemoteRead.{Setting, subranges, num_subranges, subrange_loop, expect_backend, pread}
use kvikio.RemoteRead.Bounds.{pread_in_bounds}

abbrev pub IsSized : ℕ → Piece → Type 0
IsSized task_size q = (0 < q.size) × (q.size ≤ task_size)

-- Just enough rounds for the bytes.
abbrev Suffices : ℕ → ℕ → ℕ → Type 0
Suffices task_size n size = (size ≤ n * task_size) × (n * task_size < size + task_size)

subrange_loop_lem :
    (task_size n : ℕ) (p : Piece)
    → IsBounded p
    → Suffices task_size n p.size
    → IsCovered p (subrange_loop task_size n p)
      × All (IsSized task_size) (subrange_loop task_size n p)
      × (length (subrange_loop task_size n p) ≡ n)
unfolding subrange_loop
subrange_loop_lem task_size zero p b (low, high) = (omega arith, tt, refl)
subrange_loop_lem task_size (suc n) p b (low, high) =
    let chunk = min task_size p.size in
    let fits : chunk ≤ p.size = omega arith in
    let a = advance-IsAdvanced p chunk b fits in
    let step : suc n * task_size ≡ task_size + n * task_size = omega arith in
    let some_left : 0 < p.size = omega (arith, step, high) in
    let (covered, sized, counted) =
      subrange_loop_lem task_size n (advance p chunk) (advance-IsBounded p chunk b fits)
        (grind (arith, a.size), grind (arith, a.size)) in
    (
      cut-IsCovered p chunk _ b fits covered,
      ((omega arith, omega arith), sized),
      omega (arith, counted),
    )

num_subranges-Suffices :
    (task_size size : ℕ)
    → 0 < task_size
    → 0 < size
    → size ≤ 2 ^ 63
    → Suffices task_size (num_subranges task_size size) size
unfolding num_subranges
num_subranges-Suffices task_size size pos some_bytes small =
    elim (Bool-cases (leb size task_size)) [
      | inl one ↦ rw one (ground arith, ground arith)
      | inr several ↦
          let le : task_size < size = ground arith in
          let sum : add64 size task_size ≡ size + task_size =
            add64_exact size task_size (omega (arith, small, le)) in
          let top : sub64 (add64 size task_size) 1 ≡ size + task_size - 1 =
            rw sum (sub64_exact (size + task_size) 1 (omega (arith, small, le)) (omega arith)) in
          let high = mul-div-le (size + task_size - 1) task_size in
          let low = lt-mul-div-succ (size + task_size - 1) pos in
          rw (several, top) (grind (arith, low), grind (arith, high))
    ]

-- A `pread` of at least one byte for the reactors that is not rejected is cut into sub-ranges that
-- make up exactly its range, none of them empty or larger than the task size, as many as the aggregate
-- counts. The file has at most 2^63 bytes and the buffer ends below 2^64.
pub pread-IsCovered :
    (s : Setting) (op : Piece → Result ℕ) (task_size : ℕ) (p : Piece) (ps : List Piece)
    → s.nbytes ≤ 2 ^ 63
    → p.place + p.size < u64_mod
    → 0 < p.size
    → pread s op task_size p ≡ ok (subranges ps)
    → IsCovered p ps × All (IsSized task_size) ps × (length ps ≡ num_subranges task_size p.size)
unfolding pread
pread-IsCovered s op task_size p ps small memory some_bytes made =
    let (inside, pos) =
      pread_in_bounds s op task_size p (subranges ps) (omega arith) some_bytes made in
    let same : ps ≡ subrange_loop task_size (num_subranges task_size p.size) p = ground arith in
    rw same (
      subrange_loop_lem task_size (num_subranges task_size p.size) p (omega arith, memory)
        (num_subranges-Suffices task_size p.size pos some_bytes (omega arith)))

-- The bytes of a device buffer go through bounce buffers: each sub-range of a read that starts fits in
-- one. The file has at most 2^63 bytes, the buffer ends below 2^64, and at least a byte is read.
pub pread_fits_bounce_buffer :
    (s : Setting) (op : Piece → Result ℕ) (task_size : ℕ) (p : Piece) (ps : List Piece)
    → s.nbytes ≤ 2 ^ 63
    → p.place + p.size < u64_mod
    → 0 < p.size
    → s.is_host_mem ≡ false
    → pread s op task_size p ≡ ok (subranges ps)
    → All (IsSized s.bounce_buffer_size) ps
unfolding pread expect_backend
pread_fits_bounce_buffer s op task_size p ps small memory some_bytes device made =
    let fits : task_size ≤ s.bounce_buffer_size = ground arith in
    All-weaken task_size s.bounce_buffer_size ps fits
      (pread-IsCovered s op task_size p ps small memory some_bytes made).1
  where
    All-weaken : (m n : ℕ) (qs : List Piece) → m ≤ n → All (IsSized m) qs → All (IsSized n) qs
    All-weaken m n [] h a = tt
    All-weaken m n (q ∷ qs) h ((pos, le), more) = ((pos, omega arith), All-weaken m n qs h more)
