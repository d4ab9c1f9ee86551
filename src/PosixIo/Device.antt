-- ===== src/PosixIo/Device.antt =====
-- `posix_device_io` of cpp/include/kvikio/detail/posix_io.hpp, and cpp/src/detail/posix_io.cpp: reads and
-- writes of device memory by way of a bounce buffer. A device address is a number; NVTX ranges are left
-- out. The buffer and the stream are there when a loop begins.
pub mod Loop
pub mod Reads
pub mod Writes
pub mod Aligned
pub mod Endings
pub mod Examples
use kvikio.Base.{
  ℕ, zero, suc, ◌+◌, ◌-◌, ◌*◌, min, Bool, true, false, not, ◌&&◌, Option, none, some, List, [], ◌∷◌,
  ltb, leb, ◌==◌, if◌then◌else◌, Result, ok, err, cufile_exception, sub64,
}
use kvikio.Pieces.{Piece, advance}
use kvikio.PosixIo.{HostIo, Call, align_up, align_down, posix_host_io}
use kvikio.PosixIo.Memory.{Memory, copy}
use kvikio.PosixIo.Bytes.{fill, pour, Sides}

pub record Bounce : Type 0 where
  pub address : ℕ
  pub size : ℕ

-- The page size, the bounce buffer that `posix_host_io` gets itself, the system's calls in the n-th
-- round, and how the copy and the synchronisation of that round end.
pub record System : Type 0 where
  pub page_size : ℕ
  pub host_bounce : Bounce
  pub call : ℕ → ℕ → Call → Result ℕ
  pub cuda : ℕ → Result (Unit {0})

pub record Machine : Type 0 where
  pub file : Memory
  pub host : Memory
  pub device : Memory

abbrev pub host_io : System → Bool → Bool → Bool → HostIo
host_io s has_direct is_read is_partial = record {
  page_size = s.page_size;
  bounce_address = s.host_bounce.address;
  bounce_size = s.host_bounce.size;
  has_direct = has_direct;
  is_read = is_read;
  is_partial = is_partial;
}

-- What `posix_host_io` returns.
abbrev pub transferred : List Piece → ℕ
transferred [] = 0
transferred (p ∷ ps) = p.size + transferred ps

-- How a loop ends: with the machine it leaves, or what was thrown. `none` is fuel that ran out.
abbrev pub Outcome : Type 0
Outcome = Option (Result Machine)

abbrev pub after_io : Option (Result (List Piece)) → (List Piece → Outcome) → Outcome
after_io none rest = none
after_io (some (err e)) rest = some (err e)
after_io (some (ok ps)) rest = rest ps

abbrev pub after_cuda : Result (Unit {0}) → Outcome → Outcome
after_cuda (ok u) rest = rest
after_cuda (err e) rest = some (err e)

-- One round on the range that is left; it says how many bytes it did.
abbrev pub Round : Type 0
Round = ℕ → Piece → Machine → (ℕ → Machine → Outcome) → Outcome

unfoldable pub device_loop : Round → ℕ → ℕ → Piece → Machine → Outcome
device_loop body zero round p m = if p.size == 0 then some (ok m) else none
device_loop body (suc fuel) round p m =
    let rest = body round p m (λ n after. device_loop body fuel (suc round) (advance p n) after) in
    if p.size == 0 then some (ok m) else rest

abbrev pub host_read : HostIo → Piece → List Piece → Machine → Machine
host_read io p ps m = record m { host = fill io m.file p ps m.host }

abbrev pub host_write : HostIo → Piece → List Piece → Machine → Machine
host_write io p ps m =
    let sides = pour io p ps (record { file = m.file; host = m.host }) in
    record m { file = sides.file; host = sides.host }

-- `cuda_memcpy_async` from the host to the device, and back.
abbrev pub to_device : ℕ → ℕ → ℕ → Machine → Machine
to_device from to n m = record m { device = copy m.host from to n m.device }

abbrev pub to_host : ℕ → ℕ → ℕ → Machine → Machine
to_host from to n m = record m { host = copy m.device from to n m.host }

-- A round of `posix_device_io<READ>`.
unfoldable pub read_round : System → Bool → Bounce → Round
read_round s has_direct b round p m rest =
    let staged : Piece = record {
      file_offset = p.file_offset;
      place = b.address;
      size = min b.size p.size;
    } in
    let io = host_io s has_direct true true in
    after_io (posix_host_io io (s.call round) staged) (λ ps. after_cuda (s.cuda round) (
      rest (transferred ps)
        (to_device b.address p.place (transferred ps) (host_read io staged ps m))))

-- A round of `posix_device_io<WRITE>`.
unfoldable pub write_round : System → Bool → Bounce → Round
write_round s has_direct b round p m rest =
    let nbytes_requested = min b.size p.size in
    let staged : Piece = record {
      file_offset = p.file_offset;
      place = b.address;
      size = nbytes_requested;
    } in
    let copied = to_host p.place b.address nbytes_requested m in
    let io = host_io s has_direct false false in
    after_cuda (s.cuda round) (
      after_io (posix_host_io io (s.call round) staged)
        (λ ps. rest nbytes_requested (host_write io staged ps copied)))

-- What a round of `posix_device_read_aligned` asks for: whole pages around the next bytes.
abbrev pub prefix_of : System → Piece → ℕ
prefix_of s p = p.file_offset - align_down p.file_offset s.page_size

abbrev pub nbytes_expected : System → Bounce → Piece → ℕ
nbytes_expected s b p = min p.size (sub64 b.size (prefix_of s p))

abbrev pub aligned_piece : System → Bounce → Piece → Piece
aligned_piece s b p = record {
  file_offset = align_down p.file_offset s.page_size;
  place = b.address;
  size = align_up (prefix_of s p + nbytes_expected s b p) s.page_size;
}

unfoldable pub aligned_round : System → Bounce → Round
aligned_round s b round p m rest =
    let skip = prefix_of s p in
    let io = host_io s true true true in
    after_io (posix_host_io io (s.call round) (aligned_piece s b p)) (λ ps.
      let nbytes_io = transferred ps in
      let nbytes_processed = min (nbytes_expected s b p) (nbytes_io - skip) in
      let more = after_cuda (s.cuda round) (
        rest nbytes_processed (
          to_device (b.address + skip) p.place nbytes_processed
            (host_read io (aligned_piece s b p) ps m))) in
      if ltb skip nbytes_io then more else some (err cufile_exception))

-- Each round does a byte at least, so `size` rounds are enough.
unfoldable pub posix_device_io : System → Bool → Bool → Bounce → Piece → Machine → Outcome
posix_device_io s is_read has_direct b p m =
    let body = if is_read then read_round s has_direct b else write_round s has_direct b in
    device_loop body p.size 0 p m

unfoldable pub posix_device_read_aligned : System → Bounce → Piece → Machine → Outcome
posix_device_read_aligned s b p m = device_loop (aligned_round s b) p.size 0 p m

-- `defaults`.
pub record Settings : Type 0 where
  pub auto_direct_io_read : Bool
  pub auto_direct_io_write : Bool
  pub auto_direct_io_read_overread : Bool
  pub bounce_buffer_size : ℕ

-- With the buffers that the pool of page-aligned buffers and that of pinned buffers lend.
unfoldable pub posix_device_read :
    System → Settings → Bool → Bounce → Bounce → Piece → Machine → Outcome
posix_device_read s d has_direct aligned pinned p m =
    if has_direct && d.auto_direct_io_read && leb (2 * s.page_size) d.bounce_buffer_size
    then if d.auto_direct_io_read_overread
      then posix_device_read_aligned s aligned p m
      else posix_device_io s true true aligned p m
    else posix_device_io s true false pinned p m

unfoldable pub posix_device_write :
    System → Settings → Bool → Bounce → Bounce → Piece → Machine → Outcome
posix_device_write s d has_direct aligned pinned p m =
    if has_direct && d.auto_direct_io_write
    then posix_device_io s false true aligned p m
    else posix_device_io s false false pinned p m
