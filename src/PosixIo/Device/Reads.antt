-- ===== src/PosixIo/Device/Reads.antt =====
-- What a read of device memory leaves: the bytes of the file, and nothing else changed but the bounce
-- buffer.
use kvikio.Base.{ℕ, ◌+◌, ◌≤◌, ◌<◌, ◌≡◌, refl, ap, sym, ◌∙◌, min, Bool, true, [], ◌∷◌, arith}
use kvikio.Pieces.{Piece, cut, advance, IsBounded, advance-IsAdvanced}
use kvikio.PosixIo.Alignment.{HasRoom}
use kvikio.PosixIo.Transfers.{IsPosix}
use kvikio.PosixIo.Memory.{
  IsCopied, copy-IsCopied, nothing-IsCopied, then-IsCopied, onward-IsCopied,
}
use kvikio.PosixIo.Bytes.{IsOutside, fill-IsBroughtIn}
use kvikio.PosixIo.{next_call}
use kvikio.PosixIo.Device.{
  Bounce, System, Machine, host_io, transferred, host_read, to_device, device_loop, read_round,
}
use kvikio.PosixIo.Device.Loop.{
  Ends, IsRound, device_loop-Ends, after_one_read-Ends, after_cuda-Ends, partial_read-IsOneRead,
}

-- `room` bytes at `at` are the bounce buffer's; `posix_host_io` has its own.
pub record IsRead (s : System) (at room : ℕ) (p : Piece) (m after : Machine) : Type 0 where
  pub copied : IsCopied m.file p.file_offset p.place p.size m.device after.device
  pub file : after.file ≡ m.file
  pub host :
      (a : ℕ)
      → IsOutside at room a
      → IsOutside s.host_bounce.address s.host_bounce.size a
      → after.host a ≡ m.host a

pub nothing-IsRead :
    (s : System) (at room : ℕ) (p : Piece) (m : Machine) → p.size ≡ 0 → IsRead s at room p m m
nothing-IsRead s at room p m h = record {
  copied = nothing-IsCopied m.file p.file_offset p.place p.size m.device h;
  file = refl;
  host = λ a apart elsewhere. refl;
}

pub join-IsRead :
    (s : System) (at room : ℕ) (p : Piece) (n : ℕ) (m after final : Machine)
    → IsBounded p
    → n ≤ p.size
    → IsRead s at room (cut p n) m after
    → IsRead s at room (advance p n) after final
    → IsRead s at room p m final
join-IsRead s at room p n m after final b within first rest =
    let a = advance-IsAdvanced p n b within in
    let same_file = rest.copied in
    record {
      copied =
          then-IsCopied m.file p.file_offset p.place n p.size m.device after.device final.device
            within first.copied
            (rw (← first.file, ← a.file_offset, ← a.place, ← a.size) rest.copied);
      file = rest.file ∙ first.file;
      host = λ x apart elsewhere. rest.host x apart elsewhere ∙ first.host x apart elsewhere;
    }

-- One call read `n` bytes into the buffer, and some of them, from `skip` on, are copied to the device.
pub copy_on-IsRead :
    (s : System) (has_direct : Bool) (at room n skip count source : ℕ) (from : Piece) (p : Piece)
    (m : Machine)
    → source ≡ at + skip
    → from.place ≡ at
    → from.file_offset + skip ≡ p.file_offset
    → skip + count ≤ n
    → n ≤ room
    → n ≤ (next_call (host_io s has_direct true true) from).count
    → let staged = host_read (host_io s has_direct true true) from (cut from n ∷ []) m in
      IsRead s at room (cut p count) m (to_device source p.place count staged)
copy_on-IsRead s has_direct at room n skip count source from p m same_source same_place same_offset
      fits in_room asked =
    let io = host_io s has_direct true true in
    let staged = host_read io from (cut from n ∷ []) m in
    let filled = fill-IsBroughtIn io m.file from (cut from n) m.host asked in
    record {
      copied =
          rw (← same_offset, same_source)
            (onward-IsCopied m.file staged.host from.file_offset at p.place skip count m.device _
              (λ k small.
                ap (λ x. staged.host (x + k)) (sym same_place)
                ∙ filled.inside k (omega (arith, small, fits)))
              (copy-IsCopied staged.host (at + skip) p.place count m.device));
      file = refl;
      host = λ a apart elsewhere.
          filled.outside a (ground (arith, apart, in_room, same_place)) elsewhere;
    }

module _ (s : System) (has_direct : Bool) (b : Bounce) (some_room : 0 < b.size)
    (enough : HasRoom (host_io s has_direct true true))
    (posix : (round : ℕ) → IsPosix (host_io s has_direct true true) (s.call round)) where
  read_round-IsRound : IsRound (IsRead s b.address b.size) (read_round s has_direct b)
  unfolding read_round
  read_round-IsRound round p m rest bounded some_left continue =
      let staged : Piece = record {
        file_offset = p.file_offset;
        place = b.address;
        size = min b.size p.size;
      } in
      after_one_read-Ends (IsRead s b.address b.size) (host_io s has_direct true true) p staged m _
        _
        (partial_read-IsOneRead (host_io s has_direct true true) (s.call round) staged enough
          (posix round) refl refl (omega (arith, some_room, some_left)))
        (λ n pos fits asked.
          let one : transferred (cut staged n ∷ []) ≡ n = omega arith in
          rw one (
            after_cuda-Ends (IsRead s b.address b.size) p m (s.cuda round) _ (
              continue n _ pos (omega (arith, fits)) (
                copy_on-IsRead s has_direct b.address b.size n 0 n b.address staged p m
                  (omega arith) refl (omega arith) (omega arith) (omega (arith, fits)) asked))))

  pub device_loop-read_round-Ends :
      (p : Piece) (m : Machine)
      → IsBounded p
      → Ends (IsRead s b.address b.size) p m (device_loop (read_round s has_direct b) p.size 0 p m)
  device_loop-read_round-Ends p m bounded =
      device_loop-Ends (IsRead s b.address b.size) (join-IsRead s b.address b.size)
        (nothing-IsRead s b.address b.size) (read_round s has_direct b) read_round-IsRound p.size 0
        p m bounded (omega arith)
