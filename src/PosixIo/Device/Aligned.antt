-- ===== src/PosixIo/Device/Aligned.antt =====
-- Reads of device memory by whole pages: more is read than was asked for, and only what was asked for
-- reaches the device.
use kvikio.Base.{
  ℕ, ◌+◌, ◌-◌, ◌*◌, ◌/◌, ◌≤◌, ◌<◌, ◌≡◌, refl, min, true, [], ◌∷◌, err, cufile_exception, ltb, sub64,
  sub64_exact, u64_mod, arith,
}
use native.Mathlib.Nat.{mod-lt, mul-div-le, le-div_iff_mul-le, mul-le-mul_left}
use kvikio.Pieces.{Piece, cut, IsBounded}
use kvikio.PosixIo.{align_up, align_down}
use kvikio.PosixIo.Alignment.{HasRoom, whole_part}
use kvikio.PosixIo.Transfers.{IsPosix}
use kvikio.PosixIo.Device.{
  Bounce, System, Machine, host_io, transferred, prefix_of, nbytes_expected, aligned_piece,
  aligned_round, posix_device_read_aligned,
}
use kvikio.PosixIo.Device.Loop.{
  Ends, IsRound, device_loop-Ends, after_one_read-Ends, after_cuda-Ends, if-Ends,
  partial_read-IsOneRead,
}
use kvikio.PosixIo.Device.Reads.{IsRead, nothing-IsRead, join-IsRead, copy_on-IsRead}

align_up-le : (v w a : ℕ) → 0 < a → v ≤ w → align_up v a ≤ align_up w a
unfolding align_up
align_up-le v w a pos h =
    let low = v + a - 1 in
    let high = w + a - 1 in
    let below : low / a * a ≤ high = grind (arith, mul-div-le low a, h) in
    let quotients : low / a ≤ high / a = (le-div_iff_mul-le pos).1 below in
    omega (arith, whole_part low a, whole_part high a, mul-le-mul_left a quotients)

pub le-align_up : (v a : ℕ) → 0 < a → v ≤ align_up v a
unfolding align_up
le-align_up v a pos = omega (arith, mod-lt (v + a - 1) pos)

align_down_rest :
    (v a : ℕ) → 0 < a → (align_down v a + (v - align_down v a) ≡ v) × (v - align_down v a < a)
unfolding align_down
align_down_rest v a pos = (omega arith, omega (arith, mod-lt v pos))

module _ (s : System) (b : Bounce) (a_page : s.page_size ≤ b.size) (word : b.size < u64_mod)
    (enough : HasRoom (host_io s true true true))
    (posix : (round : ℕ) → IsPosix (host_io s true true true) (s.call round)) where
  -- The next bytes lie behind the prefix, and the pages around both in the buffer's allocation.
  record Fits (p : Piece) : Type 0 where
    some_expected : 0 < nbytes_expected s b p
    at_most : nbytes_expected s b p ≤ p.size
    at : align_down p.file_offset s.page_size + prefix_of s p ≡ p.file_offset
    asks : 0 < (aligned_piece s b p).size
    in_room : (aligned_piece s b p).size ≤ align_up b.size s.page_size

  aligned_piece-Fits : (p : Piece) → 0 < p.size → Fits p
  aligned_piece-Fits p some_left =
      let (at, short) = align_down_rest p.file_offset s.page_size enough.page_pos in
      let rest : sub64 b.size (prefix_of s p) ≡ b.size - prefix_of s p =
        sub64_exact b.size (prefix_of s p) word (omega (arith, short, a_page)) in
      let whole = prefix_of s p + nbytes_expected s b p in
      record {
        some_expected = omega (arith, rest, short, a_page, some_left);
        at_most = omega arith;
        at = at;
        asks =
            omega (
              arith,
              le-align_up whole s.page_size enough.page_pos,
              rest,
              short,
              a_page,
              some_left,
            );
        in_room =
            align_up-le whole b.size s.page_size enough.page_pos
              (omega (arith, rest, short, a_page));
      }

  aligned_round-IsRound :
      IsRound (IsRead s b.address (align_up b.size s.page_size)) (aligned_round s b)
  unfolding aligned_round
  aligned_round-IsRound round p m rest bounded some_left continue =
      let Done = IsRead s b.address (align_up b.size s.page_size) in
      let f = aligned_piece-Fits p some_left in
      let from = aligned_piece s b p in
      after_one_read-Ends Done (host_io s true true true) p from m _ _
        (partial_read-IsOneRead (host_io s true true true) (s.call round) from enough (posix round)
          refl refl f.asks)
        (λ n pos fits asked.
          let one : transferred (cut from n ∷ []) ≡ n = omega arith in
          rw one (
            if-Ends Done p m (ltb (prefix_of s p) n) _ _
              (λ past.
                let more : prefix_of s p < n = ground (arith, past) in
                after_cuda-Ends Done p m (s.cuda round) _ (
                  continue (min (nbytes_expected s b p) (n - prefix_of s p)) _
                    (omega (arith, more, f.some_expected)) (omega (arith, f.at_most))
                    (copy_on-IsRead s true b.address (align_up b.size s.page_size) n (prefix_of s p)
                      _ _ from p m refl refl f.at (omega (arith, more))
                      (omega (arith, fits, f.in_room)) asked)))
              (λ short. (err cufile_exception, refl, tt))))

  pub aligned_loop-Ends :
      (p : Piece) (m : Machine)
      → IsBounded p
      → Ends
          (IsRead s b.address (align_up b.size s.page_size))
          p
          m
          (posix_device_read_aligned s b p m)
  unfolding posix_device_read_aligned
  aligned_loop-Ends p m bounded =
      let room = align_up b.size s.page_size in
      device_loop-Ends (IsRead s b.address room) (join-IsRead s b.address room)
        (nothing-IsRead s b.address room) (aligned_round s b) aligned_round-IsRound p.size 0 p m
        bounded (omega arith)
