-- ===== src/Statistics/Serial/RoundTrip.antt =====
-- What `serialize` writes, `deserialize` reads back on a machine of the same byte order and refuses on
-- one of the other.
use kvikio.Base.{
  ℕ, ◌≡◌, refl, ap, Bool, true, false, not, List, [], ◌∷◌, ◌++◌, length, replicate, append-nil,
  ◌==◌, ok, err, invalid_argument, expect, ◌>>◌,
}
use kvikio.Statistics.{Summary}
use kvikio.Statistics.Serial.{
  object_bytes, object_of, summary_size, of_machine, machine_bytes, put_u32, get_u32, begun,
  serialize, deserialize, overwrite, serial_byte_order,
}
use kvikio.Statistics.Serial.Object.{IsObject, length-object_bytes, object_of-object_bytes}

-- The mark as it stands in memory.
abbrev mark : Bool → List ℕ
mark true = 1 ∷ 2 ∷ 3 ∷ 4 ∷ []
mark false = 4 ∷ 3 ∷ 2 ∷ 1 ∷ []

mark_lem : (big : Bool) → machine_bytes big 4 serial_byte_order ≡ mark big
unfolding machine_bytes
mark_lem true = refl
mark_lem false = refl

abbrev header : Bool → List ℕ
header big = 75 ∷ 86 ∷ 83 ∷ 77 ∷ 3 ∷ 0 ∷ 0 ∷ 0 ∷ 88 ∷ 1 ∷ 0 ∷ 0 ∷ mark big

begun_lem : begun ≡ 75 ∷ 86 ∷ 83 ∷ 77 ∷ 3 ∷ 0 ∷ 0 ∷ 0 ∷ 88 ∷ 1 ∷ 0 ∷ 0 ∷ replicate 348 0
unfolding begun put_u32
begun_lem = refl

marked_lem : (big : Bool) → overwrite 12 (mark big) begun ≡ header big ++ replicate 344 0
marked_lem true = rw begun_lem refl
marked_lem false = rw begun_lem refl

serialize_lem :
    (big : Bool) (s : Summary) → IsObject s → serialize big s ≡ header big ++ object_bytes big s
unfolding serialize
serialize_lem true s h =
    rw (mark_lem true, marked_lem true, length-object_bytes true s h.1)
      (ap (λ bytes. header true ++ bytes) (append-nil (object_bytes true s)))
serialize_lem false s h =
    rw (mark_lem false, marked_lem false, length-object_bytes false s h.1)
      (ap (λ bytes. header false ++ bytes) (append-nil (object_bytes false s)))

deserialize_behind_header :
    (big writer : Bool) (bytes : List ℕ)
    → length bytes ≡ summary_size
    → deserialize big (header writer ++ bytes) ≡ (
        expect (of_machine big (mark writer) == serial_byte_order) invalid_argument
        >> ok (object_of big bytes))
unfolding deserialize get_u32
deserialize_behind_header big true bytes h = rw h refl
deserialize_behind_header big false bytes h = rw h refl

own_mark : (big : Bool) → of_machine big (mark big) ≡ serial_byte_order
unfolding of_machine
own_mark true = refl
own_mark false = refl

other_mark : (big : Bool) → (of_machine (not big) (mark big) == serial_byte_order) ≡ false
unfolding of_machine
other_mark true = refl
other_mark false = refl

-- A summary whose members are machine words, written on a machine of either byte order, is read back
-- on a machine of that order, every member as it was.
pub deserialize-serialize :
    (big : Bool) (s : Summary) → IsObject s → deserialize big (serialize big s) ≡ ok s
deserialize-serialize big s h =
    rw
      (
        serialize_lem big s h,
        deserialize_behind_header big big (object_bytes big s) (length-object_bytes big s h.1),
        own_mark big,
        object_of-object_bytes big s h,
      )
      refl

-- On a machine of the other byte order, it is refused: no member is read scrambled.
pub deserialize-serialize_refused :
    (big : Bool) (s : Summary)
    → IsObject s
    → deserialize (not big) (serialize big s) ≡ err invalid_argument
deserialize-serialize_refused big s h =
    rw
      (
        serialize_lem big s h,
        deserialize_behind_header (not big) big (object_bytes big s)
            (length-object_bytes big s h.1),
        other_mark big,
      )
      refl
