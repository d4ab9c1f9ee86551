-- ===== src/PosixIo/Alignment.antt =====
-- Every call makes progress within the range, and direct calls are aligned.
use kvikio.Base.{
  ℕ, ◌+◌, ◌-◌, ◌*◌, ◌/◌, ◌%◌, ◌≤◌, ◌<◌, ◌≡◌, ◌≢◌, refl, sym, ap, ◌∙◌, ==→eq, inl, inr, min, Bool,
  true, false, not, ltb, ◌==◌, if◌then◌else◌, Bool-cases, arith,
}
use native.Mathlib.Nat.{div-add-mod, mod-lt, mul-mod_right}
use kvikio.Pieces.{Piece}
use kvikio.PosixIo.{align_up, align_down, is_aligned, HostIo, Call, next_call}

-- A number without its remainder is a multiple.
pub whole_part : (m a : ℕ) → m - m % a ≡ a * (m / a)
whole_part m a = omega (arith, div-add-mod m a)

pub align_down-mod : (v a : ℕ) → align_down v a % a ≡ 0
unfolding align_down
align_down-mod v a = ap (λ x. x % a) (whole_part v a) ∙ mul-mod_right a (v / a)

align_up_lem : (v a : ℕ) → 0 < a → 0 < v % a → v < align_up v a
unfolding align_up
align_up_lem v a pos off =
    let m = v + a - 1 in
    let multiple : (m - m % a) % a ≡ 0 =
      ap (λ x. x % a) (whole_part m a) ∙ mul-mod_right a (m / a) in
    elim (Bool-cases (m - m % a == v)) [
      | inl same ↦
          let none_left : v % a ≡ 0 = ap (λ x. x % a) (sym (==→eq (m - m % a) v same)) ∙ multiple in
          absurd (omega arith)
      | inr differ ↦
          let apart : (m - m % a) ≢ v = ground arith in omega (arith, mod-lt m pos, apart)
    ]

-- The surroundings make sense: a page is not empty, and the bounce buffer is aligned and has at least
-- a page, a whole number of them.
pub record IsSound (io : HostIo) : Type 0 where
  pub page_pos : 0 < io.page_size
  pub bounce_pos : 0 < io.bounce_size
  pub bounce_size_aligned : io.bounce_size % io.page_size ≡ 0
  pub bounce_address_aligned : io.bounce_address % io.page_size ≡ 0

-- All that progress needs.
pub record HasRoom (io : HostIo) : Type 0 where
  pub page_pos : 0 < io.page_size
  pub bounce_pos : 0 < io.bounce_size

align_down_pos : (v a : ℕ) → 0 < a → a ≤ v → 0 < align_down v a
unfolding align_down
align_down_pos v a pos le = omega (arith, mod-lt v pos)

align_down-le : (v a : ℕ) → align_down v a ≤ v
unfolding align_down
align_down-le v a = omega arith

abbrev pub IsProgress : Piece → Call → Type 0
IsProgress p c = (0 < c.count) × (c.count ≤ p.size)

if-IsProgress :
    (p : Piece) (b : Bool) (x y : Call)
    → (b ≡ true → IsProgress p x)
    → (b ≡ false → IsProgress p y)
    → IsProgress p (if b then x else y)
if-IsProgress p true x y hx hy = hx refl
if-IsProgress p false x y hx hy = hy refl

-- The next call is for at least one byte, and for no more than are left.
pub next_call-IsProgress :
    (io : HostIo) (p : Piece) → HasRoom io → 0 < p.size → IsProgress p (next_call io p)
unfolding next_call
next_call-IsProgress io p room some_left =
    let down = align_down-le p.size io.page_size in
    if-IsProgress p (not io.has_direct) _ _ (λ _. (some_left, omega arith))
      (λ _.
        if-IsProgress p (not (is_aligned p.file_offset io.page_size)) _ _
          (λ off.
            let up = align_up_lem p.file_offset io.page_size room.page_pos (ground arith) in
            (omega (arith, up), omega arith))
          (λ _.
            if-IsProgress p (ltb p.size io.page_size) _ _ (λ _. (some_left, omega arith))
              (λ large.
                let pos = align_down_pos p.size io.page_size room.page_pos (ground arith) in
                if-IsProgress p (is_aligned p.place io.page_size) _ _ (λ _. (pos, down))
                  (λ _. (omega (arith, pos, room.bounce_pos), omega (arith, down))))))

-- Where the bytes of a call are: in the file, and in the range or in the bounce buffer.
pub record IsPlaced (io : HostIo) (p : Piece) (c : Call) : Type 0 where
  pub offset : c.offset ≡ p.file_offset
  pub straight : c.is_bounced ≡ false → c.address ≡ p.place
  pub bounced : c.is_bounced ≡ true → (c.address ≡ io.bounce_address) × (c.count ≤ io.bounce_size)

if-IsPlaced :
    (io : HostIo) (p : Piece) (b : Bool) (x y : Call)
    → IsPlaced io p x
    → IsPlaced io p y
    → IsPlaced io p (if b then x else y)
if-IsPlaced io p true x y hx hy = hx
if-IsPlaced io p false x y hx hy = hy

straight-IsPlaced :
    (io : HostIo) (p : Piece) (c : Call)
    → c.offset ≡ p.file_offset
    → c.address ≡ p.place
    → c.is_bounced ≡ false
    → IsPlaced io p c
straight-IsPlaced io p c at from straight = record {
  offset = at;
  straight = λ past. from;
  bounced = λ via. absurd (apart (sym via ∙ straight));
}
  where
    apart : true ≢ false
    apart e = absurd (cc e)

pub next_call-IsPlaced : (io : HostIo) (p : Piece) → IsPlaced io p (next_call io p)
unfolding next_call
next_call-IsPlaced io p =
    if-IsPlaced io p (not io.has_direct) _ _ (straight-IsPlaced io p _ refl refl refl) (
      if-IsPlaced io p (not (is_aligned p.file_offset io.page_size)) _ _
        (straight-IsPlaced io p _ refl refl refl)
        (if-IsPlaced io p (ltb p.size io.page_size) _ _ (straight-IsPlaced io p _ refl refl refl) (
          if-IsPlaced io p (is_aligned p.place io.page_size) _ _
            (straight-IsPlaced io p _ refl refl refl)
            (record {
              offset = refl;
              straight = λ past. absurd (apart past);
              bounced = λ via. (refl, omega arith);
            }))))
  where
    apart : true ≢ false
    apart e = absurd (cc e)

min-mod : (m n a : ℕ) → m % a ≡ 0 → n % a ≡ 0 → min m n % a ≡ 0
min-mod m n a hm hn = elim (Bool-cases (ltb m n)) [
  | inl less ↦ let e : min m n ≡ m = ground arith in ap (λ x. x % a) e ∙ hm
  | inr more ↦ let e : min m n ≡ n = ground arith in ap (λ x. x % a) e ∙ hn
]

-- What direct I/O wants of a call.
abbrev pub IsAlignedCall : ℕ → Call → Type 0
IsAlignedCall page_size c =
    (c.offset % page_size ≡ 0) × (c.address % page_size ≡ 0) × (c.count % page_size ≡ 0)

if-IsAlignedCall :
    (page_size : ℕ) (b : Bool) (x y : Call)
    → (b ≡ true → x.is_direct ≡ true → IsAlignedCall page_size x)
    → (b ≡ false → y.is_direct ≡ true → IsAlignedCall page_size y)
    → (if b then x else y).is_direct ≡ true
    → IsAlignedCall page_size (if b then x else y)
if-IsAlignedCall page_size true x y hx hy = hx refl
if-IsAlignedCall page_size false x y hx hy = hy refl

-- A direct call has its offset, its address and its size aligned to pages, if the bounce buffer is
-- aligned and a whole number of pages.
pub next_call-IsAlignedCall :
    (io : HostIo) (p : Piece)
    → IsSound io
    → (next_call io p).is_direct ≡ true
    → IsAlignedCall io.page_size (next_call io p)
unfolding next_call
next_call-IsAlignedCall io p sound =
    let down = align_down-mod p.size io.page_size in
    if-IsAlignedCall io.page_size (not io.has_direct) _ _ (λ _ no. absurd (ground arith))
      (λ _.
        if-IsAlignedCall io.page_size (not (is_aligned p.file_offset io.page_size)) _ _
          (λ _ no. absurd (ground arith))
          (λ at.
            if-IsAlignedCall io.page_size (ltb p.size io.page_size) _ _
              (λ _ no. absurd (ground arith))
              (λ _.
                if-IsAlignedCall io.page_size (is_aligned p.place io.page_size) _ _
                  (λ here _. (ground arith, ground arith, down))
                  (λ _ _. (
                    ground arith,
                    sound.bounce_address_aligned,
                    min-mod (align_down p.size io.page_size) io.bounce_size io.page_size down
                        sound.bounce_size_aligned,
                  )))))
