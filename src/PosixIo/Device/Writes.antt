-- ===== src/PosixIo/Device/Writes.antt =====
-- What a write of device memory leaves: the bytes of the device in the file, however the system divides
-- the writes.
use kvikio.Base.{
  ℕ, ◌+◌, ◌≤◌, ◌<◌, ◌≡◌, refl, ◌∙◌, ◌⊎◌, min, Bool, false, Option, some, List, Result, ok, err,
  u64_mod, arith,
}
use kvikio.Pieces.{Piece, cut, advance, IsBounded, IsCovered, advance-IsAdvanced}
use kvikio.PosixIo.Alignment.{HasRoom}
use kvikio.PosixIo.Transfers.{IsPosix, IsAsked, Transfers, posix_host_io-Ends}
use kvikio.PosixIo.Memory.{
  IsCopied, copy-IsCopied, nothing-IsCopied, then-IsCopied, through-IsCopied,
}
use kvikio.PosixIo.Bytes.{Sides, IsOutside, pour-IsPoured}
use kvikio.PosixIo.{HostIo}
use kvikio.PosixIo.Device.{
  Bounce, System, Machine, host_io, Outcome, after_io, to_host, device_loop, write_round,
}
use kvikio.PosixIo.Device.Loop.{Ends, IsRound, device_loop-Ends, after_cuda-Ends}

-- `room` bytes at `at` are the bounce buffer's; `posix_host_io` has its own.
pub record IsWritten (s : System) (at room : ℕ) (p : Piece) (m after : Machine) : Type 0 where
  pub copied : IsCopied m.device p.place p.file_offset p.size m.file after.file
  pub device : after.device ≡ m.device
  pub host :
      (a : ℕ)
      → IsOutside at room a
      → IsOutside s.host_bounce.address s.host_bounce.size a
      → after.host a ≡ m.host a

nothing-IsWritten :
    (s : System) (at room : ℕ) (p : Piece) (m : Machine) → p.size ≡ 0 → IsWritten s at room p m m
nothing-IsWritten s at room p m h = record {
  copied = nothing-IsCopied m.device p.place p.file_offset p.size m.file h;
  device = refl;
  host = λ a apart elsewhere. refl;
}

join-IsWritten :
    (s : System) (at room : ℕ) (p : Piece) (n : ℕ) (m after final : Machine)
    → IsBounded p
    → n ≤ p.size
    → IsWritten s at room (cut p n) m after
    → IsWritten s at room (advance p n) after final
    → IsWritten s at room p m final
join-IsWritten s at room p n m after final b within first rest =
    let a = advance-IsAdvanced p n b within in
    record {
      copied =
          then-IsCopied m.device p.place p.file_offset n p.size m.file after.file final.file within
            first.copied (rw (← first.device, ← a.file_offset, ← a.place, ← a.size) rest.copied);
      device = rest.device ∙ first.device;
      host = λ x apart elsewhere. rest.host x apart elsewhere ∙ first.host x apart elsewhere;
    }

abbrev pub AreApart : Bounce → Bounce → Type 0
AreApart b c = (b.address + b.size ≤ c.address) ⊎ (c.address + c.size ≤ b.address)

module _ (s : System) (has_direct : Bool) (b : Bounce) (some_room : 0 < b.size)
    (in_memory : b.address + b.size < u64_mod) (apart_from : AreApart s.host_bounce b)
    (enough : HasRoom (host_io s has_direct false false))
    (posix : (round : ℕ) → IsPosix (host_io s has_direct false false) (s.call round)) where
  abbrev Done : Piece → Machine → Machine → Type 0
  Done = IsWritten s b.address b.size

  after_write-Ends :
      (io : HostIo) (p : Piece) (m : Machine) (staged : Piece) (o : Option (Result (List Piece)))
      (rest : List Piece → Outcome)
      → ((r : Result (List Piece)) × (o ≡ some r) × Transfers io staged r)
      → ((ps : List Piece) → IsCovered staged ps → IsAsked io staged ps → Ends Done p m (rest ps))
      → Ends Done p m (after_io o rest)
  after_write-Ends io p m staged o rest (ok ps, said, (covered, asked)) later =
      rw said (later ps covered asked)
  after_write-Ends io p m staged o rest (err e, said, covered) later = rw said (err e, refl, tt)

  write_round-IsRound : IsRound Done (write_round s has_direct b)
  unfolding write_round
  write_round-IsRound round p m rest bounded some_left continue =
      let n = min b.size p.size in
      let staged : Piece = record { file_offset = p.file_offset; place = b.address; size = n } in
      let copied = to_host p.place b.address n m in
      let io = host_io s has_direct false false in
      let to_buffer = copy-IsCopied m.device p.place b.address n m.host in
      after_cuda-Ends Done p m (s.cuda round) _ (
        after_write-Ends io p m staged _ _
          (posix_host_io-Ends io (s.call round) enough (posix round) refl staged
            (omega (arith, bounded.0), omega (arith, in_memory)))
          (λ ps covered asked.
            let sides : Sides = record { file = m.file; host = copied.host } in
            let poured =
              pour-IsPoured io ps staged sides (omega (arith, bounded.0), omega (arith, in_memory))
                (ground (arith, apart_from)) covered asked in
            continue n _ (omega (arith, some_room, some_left)) (omega arith) (record {
              copied =
                  through-IsCopied m.device copied.host m.file _ p.place b.address p.file_offset n
                    to_buffer.inside poured.copied;
              device = refl;
              host = λ a apart elsewhere.
                  poured.host a elsewhere ∙ to_buffer.outside a (ground (arith, apart));
            })))

  pub device_loop-write_round-Ends :
      (p : Piece) (m : Machine)
      → IsBounded p
      → Ends Done p m (device_loop (write_round s has_direct b) p.size 0 p m)
  device_loop-write_round-Ends p m bounded =
      device_loop-Ends Done (join-IsWritten s b.address b.size)
        (nothing-IsWritten s b.address b.size) (write_round s has_direct b) write_round-IsRound
        p.size 0 p m bounded (omega arith)
