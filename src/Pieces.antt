-- ===== src/Pieces.antt =====
-- The pieces into which a read or a write is cut, by cpp/include/kvikio/detail/parallel_operation.hpp
-- for the thread pool and by cpp/src/remote_handle.cpp for the reactors, and what it means that
-- pieces make up a range.
use kvikio.Base.{
  ℕ, ◌+◌, ◌-◌, ◌≤◌, ◌<◌, ◌≡◌, refl, List, [], ◌∷◌, add64, sub64, add64_exact, sub64_exact, u64_mod,
  arith,
}

-- Bytes of the file, and where they lie in memory: an address, or an offset to one.
pub record Piece : Type 0 where
  pub file_offset : ℕ
  pub place : ℕ
  pub size : ℕ

-- The first `n` bytes, and what is left after them.
abbrev pub cut : Piece → ℕ → Piece
cut p n = record p { size = n }

abbrev pub advance : Piece → ℕ → Piece
advance p n = record {
  file_offset = add64 p.file_offset n;
  place = add64 p.place n;
  size = sub64 p.size n;
}

-- The pieces are consecutive, in the file and in memory, and make up the range.
abbrev pub Covers : ℕ → ℕ → ℕ → List Piece → Type 0
Covers offset place size [] = size ≡ 0
Covers offset place size (p ∷ ps) =
    (p.file_offset ≡ offset)
    × (p.place ≡ place)
    × (p.size ≤ size)
    × Covers (offset + p.size) (place + p.size) (size - p.size) ps

-- Neither range runs past the last 64-bit number.
abbrev pub IsBounded : Piece → Type 0
IsBounded p = (p.file_offset + p.size < u64_mod) × (p.place + p.size < u64_mod)

abbrev pub IsCovered : Piece → List Piece → Type 0
IsCovered p ps = Covers p.file_offset p.place p.size ps

pub record IsAdvanced (p : Piece) (n : ℕ) : Type 0 where
  pub file_offset : (advance p n).file_offset ≡ p.file_offset + n
  pub place : (advance p n).place ≡ p.place + n
  pub size : (advance p n).size ≡ p.size - n

pub advance-IsAdvanced : (p : Piece) (n : ℕ) → IsBounded p → n ≤ p.size → IsAdvanced p n
advance-IsAdvanced p n (file, memory) h = record {
  file_offset = add64_exact p.file_offset n (omega arith);
  place = add64_exact p.place n (omega arith);
  size = sub64_exact p.size n (omega arith) h;
}

pub advance-IsBounded : (p : Piece) (n : ℕ) → IsBounded p → n ≤ p.size → IsBounded (advance p n)
advance-IsBounded p n b h =
    let a = advance-IsAdvanced p n b h in
    (omega (arith, a.file_offset, a.size, b.0), omega (arith, a.place, a.size, b.1))

-- One piece is cut off, and the pieces of the rest follow.
pub cut-IsCovered :
    (p : Piece) (n : ℕ) (ps : List Piece)
    → IsBounded p
    → n ≤ p.size
    → IsCovered (advance p n) ps
    → IsCovered p (cut p n ∷ ps)
cut-IsCovered p n ps b h c =
    let a = advance-IsAdvanced p n b h in
    (refl, refl, h, rw (← a.file_offset, ← a.place, ← a.size) c)
