-- ===== src/RemoteRead/Bounds.antt =====
-- The bounds check, which must not overflow.
use kvikio.Base.{
  ℕ, ◌+◌, ◌-◌, ◌≤◌, ◌<◌, ◌≡◌, ◌↔◌, inl, inr, false, ltb, Bool-cases, sub64, sub64_exact, Result, ok,
  err, invalid_argument, u64_mod, arith,
}
use kvikio.Pieces.{Piece}
use kvikio.RemoteRead.{Setting, Read, is_read_out_of_bounds, expect_read_in_bounds, pread}

-- The check lets exactly the ranges pass that lie within the file, also where `file_offset + size`
-- does not fit in 64 bits.
pub is_read_out_of_bounds_lem :
    (file_offset size nbytes : ℕ)
    → nbytes < u64_mod
    → (is_read_out_of_bounds file_offset size nbytes ≡ false) ↔ (file_offset + size ≤ nbytes)
unfolding is_read_out_of_bounds
is_read_out_of_bounds_lem file_offset size nbytes lt = elim (Bool-cases (ltb nbytes file_offset)) [
  | inl past ↦ (λ h. absurd (ground arith), λ h. absurd (ground arith))
  | inr within ↦
      let e : sub64 nbytes file_offset ≡ nbytes - file_offset =
        sub64_exact nbytes file_offset lt (ground arith) in
      rw (within, e) (λ h. ground arith, λ h. ground arith)
]

-- A `pread` of at least one byte that is not rejected reads within the file.
pub pread_in_bounds :
    (s : Setting) (op : Piece → Result ℕ) (task_size : ℕ) (p : Piece) (r : Read)
    → s.nbytes < u64_mod
    → 0 < p.size
    → pread s op task_size p ≡ ok r
    → (p.file_offset + p.size ≤ s.nbytes) × (0 < task_size)
unfolding pread expect_read_in_bounds
pread_in_bounds s op task_size p r lt some_bytes made =
    elim (Bool-cases (is_read_out_of_bounds p.file_offset p.size s.nbytes)) [
      | inl out ↦ absurd (ground arith)
      | inr inside ↦
          ((is_read_out_of_bounds_lem p.file_offset p.size s.nbytes lt).0 inside, ground arith)
    ]

-- Of a `pread` of at least one byte that does not lie within the file nothing is read: it throws
-- `invalid_argument`.
pub pread_out_of_bounds :
    (s : Setting) (op : Piece → Result ℕ) (task_size : ℕ) (p : Piece)
    → s.nbytes < u64_mod
    → 0 < p.size
    → s.nbytes < p.file_offset + p.size
    → pread s op task_size p ≡ err invalid_argument
unfolding pread expect_read_in_bounds
pread_out_of_bounds s op task_size p lt some_bytes beyond =
    elim (Bool-cases (is_read_out_of_bounds p.file_offset p.size s.nbytes)) [
      | inl out ↦ ground arith
      | inr inside ↦
          let fits = (is_read_out_of_bounds_lem p.file_offset p.size s.nbytes lt).0 inside in
          absurd (omega arith)
    ]
