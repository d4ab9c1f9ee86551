-- ===== src/PosixIo/Memory.antt =====
-- The bytes of a file, of the host and of a device, and copies from one to another.
use kvikio.Base.{
  ℕ, ◌+◌, ◌-◌, ◌≤◌, ◌<◌, ◌≡◌, refl, ap, sym, ◌∙◌, ◌⊎◌, inl, inr, true, false, ◌&&◌, ltb, leb,
  if◌then◌else◌, Bool-cases, arith,
}

-- A byte for each address or offset.
abbrev pub Memory : Type 0
Memory = ℕ → ℕ

-- `n` bytes of `src` at `from` are copied to `dst` at `to`.
unfoldable pub copy : Memory → ℕ → ℕ → ℕ → Memory → Memory
copy src from to n dst a = if leb to a && ltb a (to + n) then src (from + (a - to)) else dst a

-- `after` is `before`, but for `n` bytes at `to` that are those of `src` at `from`.
pub record IsCopied (src : Memory) (from to n : ℕ) (before after : Memory) : Type 0 where
  pub inside : (k : ℕ) → k < n → after (to + k) ≡ src (from + k)
  pub outside : (a : ℕ) → (a < to) ⊎ (to + n ≤ a) → after a ≡ before a

pub copy-IsCopied :
    (src : Memory) (from to n : ℕ) (dst : Memory)
    → IsCopied src from to n dst (copy src from to n dst)
unfolding copy
copy-IsCopied src from to n dst = record {
  inside = λ k small.
      let is_in : (leb to (to + k) && ltb (to + k) (to + n)) ≡ true = ground (arith, small) in
      let at : from + (to + k - to) ≡ from + k = omega arith in rw is_in (ap src at);
  outside = λ a apart.
      let is_out : (leb to a && ltb a (to + n)) ≡ false = ground (arith, apart) in rw is_out refl;
}

pub nothing-IsCopied :
    (src : Memory) (from to n : ℕ) (m : Memory) → n ≡ 0 → IsCopied src from to n m m
nothing-IsCopied src from to n m h = record {
  inside = λ k small. absurd (omega (arith, h));
  outside = λ a apart. refl;
}

-- One range after another.
pub then-IsCopied :
    (src : Memory) (from to n size : ℕ) (a b c : Memory)
    → n ≤ size
    → IsCopied src from to n a b
    → IsCopied src (from + n) (to + n) (size - n) b c
    → IsCopied src from to size a c
then-IsCopied src from to n size a b c le h k = record {
  inside = λ i small. elim (Bool-cases (ltb i n)) [
    | inl early ↦
        k.outside (to + i) (inl (ground (arith, early))) ∙ h.inside i (ground (arith, early))
    | inr late ↦
        let at : to + n + (i - n) ≡ to + i = ground (arith, late) in
        let from_at : from + n + (i - n) ≡ from + i = ground (arith, late) in
        ap c (sym at) ∙ k.inside (i - n) (ground (arith, late, small)) ∙ ap src from_at
  ];
  outside = λ x apart. k.outside x (ground (arith, apart)) ∙ h.outside x (ground (arith, apart));
}

-- From where it was copied to, it is copied on.
pub onward-IsCopied :
    (src mid : Memory) (from at to skip n : ℕ) (before after : Memory)
    → ((k : ℕ) → k < skip + n → mid (at + k) ≡ src (from + k))
    → IsCopied mid (at + skip) to n before after
    → IsCopied src (from + skip) to n before after
onward-IsCopied src mid from at to skip n before after h c = record {
  inside = λ k small.
      let there : at + skip + k ≡ at + (skip + k) = omega arith in
      let here : from + (skip + k) ≡ from + skip + k = omega arith in
      c.inside k small ∙ ap mid there ∙ h (skip + k) (omega (arith, small)) ∙ ap src here;
  outside = c.outside;
}

-- By way of other bytes that are the same.
pub through-IsCopied :
    (src mid before after : Memory) (from at to n : ℕ)
    → ((k : ℕ) → k < n → mid (at + k) ≡ src (from + k))
    → IsCopied mid at to n before after
    → IsCopied src from to n before after
through-IsCopied src mid before after from at to n h c = record {
  inside = λ k small. c.inside k small ∙ h k small;
  outside = c.outside;
}
