-- ===== src/Statistics/Serial/Words.antt =====
-- The bytes of a word give the word back, in either byte order.
use kvikio.Base.{
  ℕ, zero, suc, ◌*◌, ◌/◌, ◌^◌, ◌<◌, ◌≡◌, refl, ap, ◌∙◌, Bool, true, false, List, [], ◌∷◌, ◌++◌,
  length, take, drop, length-append, append_assoc, All, arith,
}
use kvikio.Statistics.Serial.{le_bytes, of_le, machine_bytes, of_machine, write_words, read_words}
use mathlib.Core.List.{reverse, reverse-reverse, reverse-cons}

length-le_bytes : (n v : ℕ) → length (le_bytes n v) ≡ n
length-le_bytes zero v = refl
length-le_bytes (suc n) v = ap suc (length-le_bytes n (v / 256))

length-reverse : (bs : List ℕ) → length (reverse bs) ≡ length bs
length-reverse [] = refl
length-reverse (b ∷ bs) =
    ap length (reverse-cons b bs)
    ∙ length-append (reverse bs) (b ∷ [])
    ∙ omega (arith, length-reverse bs)

pub length-machine_bytes : (big : Bool) (n v : ℕ) → length (machine_bytes big n v) ≡ n
unfolding machine_bytes
length-machine_bytes true n v = length-reverse (le_bytes n v) ∙ length-le_bytes n v
length-machine_bytes false n v = length-le_bytes n v

of_le-le_bytes : (n v : ℕ) → v < 256 ^ n → of_le (le_bytes n v) ≡ v
of_le-le_bytes zero v h = omega (arith, h)
of_le-le_bytes (suc n) v h = omega (arith, of_le-le_bytes n (v / 256) (grind (arith, h)))

pub of_machine-machine_bytes :
    (big : Bool) (n v : ℕ) → v < 256 ^ n → of_machine big (machine_bytes big n v) ≡ v
unfolding machine_bytes of_machine
of_machine-machine_bytes true n v h =
    ap of_le (reverse-reverse (le_bytes n v)) ∙ of_le-le_bytes n v h
of_machine-machine_bytes false n v h = of_le-le_bytes n v h

abbrev pub IsWord : ℕ → Type 0
IsWord w = w < 2 ^ 64

pub length-write_words : (big : Bool) (ws : List ℕ) → length (write_words big ws) ≡ 8 * length ws
unfolding write_words
length-write_words big [] = refl
length-write_words big (w ∷ ws) =
    length-append (machine_bytes big 8 w) (write_words big ws)
    ∙ omega (arith, length-machine_bytes big 8 w, length-write_words big ws)

take_append : (xs ys : List ℕ) (n : ℕ) → length xs ≡ n → take n (xs ++ ys) ≡ xs
take_append [] ys zero h = refl
take_append [] ys (suc n) h = absurd (omega (arith, h))
take_append (x ∷ xs) ys zero h = absurd (omega (arith, h))
take_append (x ∷ xs) ys (suc n) h = ap (◌∷◌ x) (take_append xs ys n (omega (arith, h)))

pub drop_append : (xs ys : List ℕ) (n : ℕ) → length xs ≡ n → drop n (xs ++ ys) ≡ ys
drop_append [] ys zero h = refl
drop_append [] ys (suc n) h = absurd (omega (arith, h))
drop_append (x ∷ xs) ys zero h = absurd (omega (arith, h))
drop_append (x ∷ xs) ys (suc n) h = drop_append xs ys n (omega (arith, h))

pub read_words-write_words :
    (big : Bool) (ws last : List ℕ)
    → All IsWord ws
    → read_words big (length ws) (write_words big ws ++ last) ≡ ws
unfolding read_words write_words
read_words-write_words big [] last h = refl
read_words-write_words big (w ∷ ws) last h =
    let bytes = machine_bytes big 8 w in
    let rest = write_words big ws ++ last in
    let size = length-machine_bytes big 8 w in
    rw
      (
        append_assoc bytes (write_words big ws) last,
        take_append bytes rest 8 size,
        drop_append bytes rest 8 size,
        of_machine-machine_bytes big 8 w h.0,
        read_words-write_words big ws last h.1,
      )
      refl
