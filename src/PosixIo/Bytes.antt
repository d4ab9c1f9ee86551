-- ===== src/PosixIo/Bytes.antt =====
-- The bytes that `posix_host_io` moves: straight between the file and the range, or by way of its own
-- bounce buffer, with the copy from or to the range.
use kvikio.Base.{
  ℕ, ◌+◌, ◌-◌, ◌≤◌, ◌<◌, ◌≡◌, refl, ap, sym, ◌∙◌, ◌⊎◌, inl, inr, List, [], ◌∷◌, if◌then◌else◌,
  Bool-cases, arith,
}
use kvikio.Pieces.{Piece, advance, IsBounded, IsCovered, advance-IsAdvanced, advance-IsBounded}
use kvikio.PosixIo.{HostIo, Call, next_call}
use kvikio.PosixIo.Alignment.{IsPlaced, next_call-IsPlaced}
use kvikio.PosixIo.Transfers.{IsAsked}
use kvikio.PosixIo.Memory.{
  Memory, copy, IsCopied, copy-IsCopied, nothing-IsCopied, then-IsCopied, through-IsCopied,
}

-- A call read `n` bytes for the range at `place`.
unfoldable pub bring_in : Memory → Call → ℕ → ℕ → Memory → Memory
bring_in file c place n host =
    let arrived = copy file c.offset c.address n host in
    if c.is_bounced then copy arrived c.address place n arrived else arrived

-- What the reads of a range bring into the host's memory.
unfoldable pub fill : HostIo → Memory → Piece → List Piece → Memory → Memory
fill io file p [] host = host
fill io file p (q ∷ ps) host =
    fill io file (advance p q.size) ps (bring_in file (next_call io p) p.place q.size host)

pub record Sides : Type 0 where
  pub file : Memory
  pub host : Memory

-- A call wrote `n` bytes of the range at `place`; all that it asked for was copied to the bounce buffer.
unfoldable pub take_out : Call → ℕ → ℕ → Sides → Sides
take_out c place n m =
    let host = if c.is_bounced then copy m.host place c.address c.count m.host else m.host in
    record { file = copy host c.address c.offset n m.file; host = host }

-- What the writes of a range leave in the file, and in the host's memory.
unfoldable pub pour : HostIo → Piece → List Piece → Sides → Sides
pour io p [] m = m
pour io p (q ∷ ps) m = pour io (advance p q.size) ps (take_out (next_call io p) p.place q.size m)

abbrev pub IsOutside : ℕ → ℕ → ℕ → Type 0
IsOutside at room a = (a < at) ⊎ (at + room ≤ a)

-- The range lies apart from the bounce buffer.
abbrev pub IsApart : HostIo → Piece → Type 0
IsApart io p =
    (io.bounce_address + io.bounce_size ≤ p.place) ⊎ (p.place + p.size ≤ io.bounce_address)

module _ (io : HostIo) where
  -- The bytes of the file are in the range, and beside it only the bounce buffer has changed.
  pub record IsBroughtIn (file : Memory) (p : Piece) (n : ℕ) (before after : Memory) : Type 0 where
    pub inside : (k : ℕ) → k < n → after (p.place + k) ≡ file (p.file_offset + k)
    pub outside :
        (a : ℕ)
        → IsOutside p.place n a
        → IsOutside io.bounce_address io.bounce_size a
        → after a ≡ before a

  bring_in-IsBroughtIn :
      (file : Memory) (p : Piece) (c : Call) (n : ℕ) (host : Memory)
      → IsPlaced io p c
      → n ≤ c.count
      → IsBroughtIn file p n host (bring_in file c p.place n host)
  unfolding bring_in
  bring_in-IsBroughtIn file p c n host placed asked =
      let arrived = copy-IsCopied file c.offset c.address n host in
      let at = placed.offset in
      elim (Bool-cases c.is_bounced) [
        | inl via ↦
            let (there, room) = placed.bounced via in
            let moved = copy-IsCopied (copy file c.offset c.address n host) c.address p.place n _ in
            rw via (record {
              inside = λ k small.
                  moved.inside k small ∙ arrived.inside k small ∙ ap (λ x. file (x + k)) at;
              outside = λ a apart elsewhere.
                  moved.outside a apart
                  ∙ arrived.outside a (ground (arith, elsewhere, there, room, asked));
            })
        | inr past ↦
            let there = placed.straight past in
            rw past (record {
              inside = λ k small.
                  ap (λ x. copy file c.offset c.address n host (x + k)) (sym there)
                  ∙ arrived.inside k small
                  ∙ ap (λ x. file (x + k)) at;
              outside = λ a apart elsewhere. arrived.outside a (ground (arith, apart, there));
            })
      ]

  -- The first transfer of a read.
  pub fill-IsBroughtIn :
      (file : Memory) (p : Piece) (q : Piece) (host : Memory)
      → q.size ≤ (next_call io p).count
      → IsBroughtIn file p q.size host (fill io file p (q ∷ []) host)
  unfolding fill
  fill-IsBroughtIn file p q host asked =
      bring_in-IsBroughtIn file p (next_call io p) q.size host (next_call-IsPlaced io p) asked

  -- The bytes of the range are in the file, and of the host only the bounce buffer has changed.
  pub record IsPoured (p : Piece) (n : ℕ) (before after : Sides) : Type 0 where
    pub copied : IsCopied before.host p.place p.file_offset n before.file after.file
    pub host : (a : ℕ) → IsOutside io.bounce_address io.bounce_size a → after.host a ≡ before.host a

  take_out-IsPoured :
      (p : Piece) (c : Call) (n : ℕ) (m : Sides)
      → IsPlaced io p c
      → n ≤ c.count
      → IsPoured p n m (take_out c p.place n m)
  unfolding take_out
  take_out-IsPoured p c n m placed asked =
      let at = placed.offset in
      elim (Bool-cases c.is_bounced) [
        | inl via ↦
            let (there, room) = placed.bounced via in
            let moved = copy-IsCopied m.host p.place c.address c.count m.host in
            rw (via, at)
              (record {
                copied =
                    through-IsCopied m.host _ m.file _ p.place c.address p.file_offset n
                      (λ k small. moved.inside k (omega (arith, small, asked)))
                      (copy-IsCopied _ c.address p.file_offset n m.file);
                host = λ a elsewhere. moved.outside a (ground (arith, elsewhere, there, room));
              })
        | inr past ↦
            let there = placed.straight past in
            rw (past, at, there)
              (record {
                copied = copy-IsCopied m.host p.place p.file_offset n m.file;
                host = λ a elsewhere. refl;
              })
      ]

  -- All transfers of a write.
  pub pour-IsPoured :
      (ps : List Piece) (p : Piece) (m : Sides)
      → IsBounded p
      → IsApart io p
      → IsCovered p ps
      → IsAsked io p ps
      → IsPoured p p.size m (pour io p ps m)
  unfolding pour
  pour-IsPoured [] p m b apart none_left asked = record {
    copied = nothing-IsCopied m.host p.place p.file_offset p.size m.file none_left;
    host = λ a elsewhere. refl;
  }
  pour-IsPoured (q ∷ ps) p m b apart (same_offset, same_place, le, covered) (asked, all_asked) =
      let adv = advance-IsAdvanced p q.size b le in
      let rest_covered : IsCovered (advance p q.size) ps =
        rw (adv.file_offset, adv.place, adv.size) covered in
      let first = take_out-IsPoured p (next_call io p) q.size m (next_call-IsPlaced io p) asked in
      let rest =
        pour-IsPoured ps (advance p q.size) (take_out (next_call io p) p.place q.size m)
          (advance-IsBounded p q.size b le) (ground (arith, apart, adv.place, adv.size, le))
          rest_covered all_asked in
      record {
        copied =
            then-IsCopied m.host p.place p.file_offset q.size p.size m.file _ _ le first.copied (
              through-IsCopied m.host (take_out (next_call io p) p.place q.size m).host _ _
                (p.place + q.size) (p.place + q.size) (p.file_offset + q.size) (p.size - q.size)
                (λ k small. first.host (p.place + q.size + k) (ground (arith, apart, small, le)))
                (rw (← adv.file_offset, ← adv.place, ← adv.size) rest.copied));
        host = λ a elsewhere. rest.host a elsewhere ∙ first.host a elsewhere;
      }
