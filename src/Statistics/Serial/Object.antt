-- ===== src/Statistics/Serial/Object.antt =====
-- The copy of the object: its size, and the object read back from it.
use kvikio.Base.{◌≡◌, refl, ◌∙◌, Bool, ◌∷◌, length, length-append, All, arith}
use kvikio.Statistics.{Summary}
use kvikio.Statistics.Serial.{words_of, write_words, object_bytes, object_of, summary_size}
use kvikio.Statistics.Serial.Words.{IsWord, drop_append, length-write_words, read_words-write_words}

-- The members are machine words, and the padding has its seven bytes.
abbrev pub IsObject : Summary → Type 0
IsObject s = All IsWord (words_of s) × (length s.reserved ≡ 7)

pub length-object_bytes :
    (big : Bool) (s : Summary) → length s.reserved ≡ 7 → length (object_bytes big s) ≡ summary_size
unfolding object_bytes
length-object_bytes big s h =
    length-append (write_words big (words_of s)) (s.kind ∷ s.reserved)
    ∙ omega (arith, length-write_words big (words_of s), h)

pub object_of-object_bytes :
    (big : Bool) (s : Summary) → IsObject s → object_of big (object_bytes big s) ≡ s
unfolding object_bytes object_of
object_of-object_bytes big s h =
    rw
      (
        read_words-write_words big (words_of s) (s.kind ∷ s.reserved) h.0,
        drop_append (write_words big (words_of s)) (s.kind ∷ s.reserved) 336
            (length-write_words big (words_of s)),
      )
      refl
