-- ===== src/PosixIo/Device/Endings.antt =====
-- `posix_device_read` and `posix_device_write` of cpp/src/detail/posix_io.cpp, whichever way they go.
use kvikio.Base.{
  ℕ, ◌+◌, ◌*◌, ◌≤◌, ◌<◌, ◌≡◌, ◌⊎◌, inl, inr, Bool, true, false, ◌&&◌, leb, ok, err, u64_mod, arith,
}
use kvikio.Pieces.{Piece, IsBounded}
use kvikio.PosixIo.{align_up}
use kvikio.PosixIo.Alignment.{HasRoom}
use kvikio.PosixIo.Transfers.{IsPosix}
use kvikio.PosixIo.Memory.{IsCopied}
use kvikio.PosixIo.Device.{
  Bounce, System, Machine, Settings, host_io, Outcome, posix_device_io, posix_device_read,
  posix_device_write,
}
use kvikio.PosixIo.Device.Loop.{Ends, if-Ends}
use kvikio.PosixIo.Device.Reads.{IsRead, device_loop-read_round-Ends}
use kvikio.PosixIo.Device.Aligned.{aligned_loop-Ends, le-align_up}
use kvikio.PosixIo.Bytes.{IsOutside}
use kvikio.PosixIo.Device.Writes.{AreApart, IsWritten, device_loop-write_round-Ends}

-- An address in none of the buffers: that of the page-aligned pool is allocated in whole pages.
abbrev pub IsElsewhere : System → Bounce → Bounce → ℕ → Type 0
IsElsewhere s aligned pinned a =
    ((a < aligned.address) ⊎ (aligned.address + align_up aligned.size s.page_size ≤ a))
    × ((a < pinned.address) ⊎ (pinned.address + pinned.size ≤ a))
    × IsOutside s.host_bounce.address s.host_bounce.size a

pub record IsDeviceRead (s : System) (aligned pinned : Bounce) (p : Piece) (m after : Machine)
    : Type 0 where
  pub copied : IsCopied m.file p.file_offset p.place p.size m.device after.device
  pub file : after.file ≡ m.file
  pub host : (a : ℕ) → IsElsewhere s aligned pinned a → after.host a ≡ m.host a

pub record IsDeviceWritten (s : System) (aligned pinned : Bounce) (p : Piece) (m after : Machine)
    : Type 0 where
  pub copied : IsCopied m.device p.place p.file_offset p.size m.file after.file
  pub device : after.device ≡ m.device
  pub host : (a : ℕ) → IsElsewhere s aligned pinned a → after.host a ≡ m.host a

weaken-Ends :
    (Done Weaker : Piece → Machine → Machine → Type 0) (p : Piece) (m : Machine) (o : Outcome)
    → ((after : Machine) → Done p m after → Weaker p m after)
    → Ends Done p m o
    → Ends Weaker p m o
weaken-Ends Done Weaker p m o h (ok after, ended, done) = (ok after, ended, h after done)
weaken-Ends Done Weaker p m o h (err e, ended, done) = (err e, ended, tt)

-- What surrounds a call: a page is not empty; the buffer that the call borrows, of either pool, and that
-- of `posix_host_io` have the configured size, which is positive, end below 2^64 and lie apart; and the
-- system's reads and writes behave as POSIX says.
pub record IsSetUp (s : System) (d : Settings) (aligned pinned : Bounce) : Type 0 where
  pub page_pos : 0 < s.page_size
  pub setting_pos : 0 < d.bounce_buffer_size
  pub host_size : s.host_bounce.size ≡ d.bounce_buffer_size
  pub aligned_size : aligned.size ≡ d.bounce_buffer_size
  pub pinned_size : pinned.size ≡ d.bounce_buffer_size
  pub aligned_end : aligned.address + aligned.size < u64_mod
  pub pinned_end : pinned.address + pinned.size < u64_mod
  pub aligned_apart : AreApart s.host_bounce aligned
  pub pinned_apart : AreApart s.host_bounce pinned
  pub posix :
      (has_direct is_read is_partial : Bool) (round : ℕ)
      → IsPosix (host_io s has_direct is_read is_partial) (s.call round)

module _ (s : System) (d : Settings) (aligned pinned : Bounce)
    (set_up : IsSetUp s d aligned pinned) where
  set_up_room :
      (has_direct is_read is_partial : Bool) → HasRoom (host_io s has_direct is_read is_partial)
  set_up_room has_direct is_read is_partial = record {
    page_pos = set_up.page_pos;
    bounce_pos = omega (arith, set_up.setting_pos, set_up.host_size);
  }

  aligned_pos : 0 < aligned.size
  aligned_pos = omega (arith, set_up.setting_pos, set_up.aligned_size)

  pinned_pos : 0 < pinned.size
  pinned_pos = omega (arith, set_up.setting_pos, set_up.pinned_size)

  beyond_pages :
      (a : ℕ)
      → (a < aligned.address) ⊎ (aligned.address + align_up aligned.size s.page_size ≤ a)
      → (a < aligned.address) ⊎ (aligned.address + aligned.size ≤ a)
  beyond_pages a (inl below) = inl below
  beyond_pages a (inr above) =
      let pages = le-align_up aligned.size s.page_size set_up.page_pos in
      inr (omega (arith, above, pages))

  -- A read of device memory ends, with or without direct I/O and over-reading and however short the
  -- system's reads are: with an exception, or with exactly the bytes of the file in the range of the
  -- device, the file as it was, and no byte of the host changed outside the buffers, whose
  -- page-aligned one is never written past its whole pages. All buffers, also the one by which
  -- `posix_host_io` goes, have the configured size, which is positive but need not be whole pages; they
  -- lie apart, the ranges and the borrowed buffers end below 2^64, a page is not empty, and the system's
  -- reads behave as POSIX says.
  pub posix_device_read-Ends :
      (has_direct : Bool) (p : Piece) (m : Machine)
      → IsBounded p
      → Ends
          (IsDeviceRead s aligned pinned)
          p
          m
          (posix_device_read s d has_direct aligned pinned p m)
  unfolding posix_device_read posix_device_io
  posix_device_read-Ends has_direct p m bounded =
      let Done = IsDeviceRead s aligned pinned in
      let direct =
        has_direct && d.auto_direct_io_read && leb (2 * s.page_size) d.bounce_buffer_size in
      if-Ends Done p m direct _ _
        (λ ready.
          if-Ends Done p m d.auto_direct_io_read_overread _ _
            (λ over.
              weaken-Ends (IsRead s aligned.address (align_up aligned.size s.page_size)) Done p m _
                (λ after r. record {
                  copied = r.copied;
                  file = r.file;
                  host = λ a e. r.host a e.0 e.2;
                })
                (aligned_loop-Ends s aligned (ground (arith, ready, set_up.aligned_size))
                  (omega (arith, set_up.aligned_end)) (set_up_room true true true)
                  (set_up.posix true true true) p m bounded))
            (λ plain.
              weaken-Ends (IsRead s aligned.address aligned.size) Done p m _
                (λ after r. record {
                  copied = r.copied;
                  file = r.file;
                  host = λ a e. r.host a (beyond_pages a e.0) e.2;
                })
                (device_loop-read_round-Ends s true aligned aligned_pos (set_up_room true true true)
                  (set_up.posix true true true) p m bounded)))
        (λ indirect.
          weaken-Ends (IsRead s pinned.address pinned.size) Done p m _
            (λ after r. record { copied = r.copied; file = r.file; host = λ a e. r.host a e.1 e.2 })
            (device_loop-read_round-Ends s false pinned pinned_pos (set_up_room false true true)
              (set_up.posix false true true) p m bounded))

  -- A write of device memory ends, with or without direct I/O and however the system divides the
  -- writes: with an exception, or with exactly the bytes of the device in the range of the file, the
  -- device as it was, and no byte of the host changed outside the buffers. All buffers, also the one by
  -- which `posix_host_io` goes, have the configured size, which is positive but need not be whole pages;
  -- they lie apart, the ranges and the borrowed buffers end below 2^64, a page is not empty, and the
  -- system's writes behave as POSIX says.
  pub posix_device_write-Ends :
      (has_direct : Bool) (p : Piece) (m : Machine)
      → IsBounded p
      → Ends
          (IsDeviceWritten s aligned pinned)
          p
          m
          (posix_device_write s d has_direct aligned pinned p m)
  unfolding posix_device_write posix_device_io
  posix_device_write-Ends has_direct p m bounded =
      let Done = IsDeviceWritten s aligned pinned in
      if-Ends Done p m (has_direct && d.auto_direct_io_write) _ _
        (λ ready.
          weaken-Ends (IsWritten s aligned.address aligned.size) Done p m _
            (λ after w. record {
              copied = w.copied;
              device = w.device;
              host = λ a e. w.host a (beyond_pages a e.0) e.2;
            })
            (device_loop-write_round-Ends s true aligned aligned_pos set_up.aligned_end
              set_up.aligned_apart (set_up_room true false false) (set_up.posix true false false) p
              m bounded))
        (λ indirect.
          weaken-Ends (IsWritten s pinned.address pinned.size) Done p m _
            (λ after w. record {
              copied = w.copied;
              device = w.device;
              host = λ a e. w.host a e.1 e.2;
            })
            (device_loop-write_round-Ends s false pinned pinned_pos set_up.pinned_end
              set_up.pinned_apart (set_up_room false false false) (set_up.posix false false false) p
              m bounded))
