-- ===== src/PosixIo/Device/Examples.antt =====
-- Pages of four bytes, and a system that reads and writes seven bytes at most.
use kvikio.PosixIo.Memory.{copy}
use kvikio.PosixIo.Bytes.{fill, bring_in}
use kvikio.Base.{
  add64, sub64, ℕ, ◌*◌, ◌≤◌, ◌<◌, ◌≡◌, ◌≢◌, refl, min, true, inl, some, Result, ok, arith,
}
use kvikio.Pieces.{Piece}
use kvikio.PosixIo.{
  Call, HostIo, posix_host_io, host_loop, after_call, next_call, align_up, align_down,
}
use kvikio.PosixIo.Transfers.{IsPosix}
use kvikio.PosixIo.Device.{
  Bounce, System, Machine, Settings, Outcome, posix_device_read, posix_device_write,
  posix_device_read_aligned, aligned_round, device_loop,
}
use kvikio.PosixIo.Device.Loop.{Ends}
use kvikio.PosixIo.Device.Endings.{
  IsSetUp, IsDeviceRead, IsDeviceWritten, posix_device_read-Ends, posix_device_write-Ends,
}

abbrev short : ℕ → ℕ → Call → Result ℕ
short round k c = ok (min c.count 7)

abbrev small_pages : System
small_pages = record {
  page_size = 4;
  host_bounce = record { address = 0; size = 10 };
  call = short;
  cuda = λ round. ok tt;
}

abbrev aligned_bounce : Bounce
aligned_bounce = record { address = 400; size = 10 }

abbrev pinned_bounce : Bounce
pinned_bounce = record { address = 501; size = 10 }

abbrev settings : Settings
settings = record {
  auto_direct_io_read = true;
  auto_direct_io_write = true;
  auto_direct_io_read_overread = true;
  bounce_buffer_size = 10;
}

short-IsPosix : (io : HostIo) (round : ℕ) → IsPosix io (short round)
short-IsPosix io round = record {
  at_most = λ k c n said. at_most c n said;
  writes = λ k c writing some_asked nothing. writes c some_asked nothing;
}
  where
    at_most : (c : Call) (n : ℕ) → ok (min c.count 7) ≡ ok n → n ≤ c.count
    at_most c n said = ground (arith, said)

    writes : (c : Call) → 0 < c.count → ok (min c.count 7) ≢ ok 0
    writes c some_asked nothing = ground (arith, nothing, some_asked)

set_up : IsSetUp small_pages settings aligned_bounce pinned_bounce
set_up = record {
  page_pos = omega arith;
  setting_pos = omega arith;
  host_size = refl;
  aligned_size = refl;
  pinned_size = refl;
  aligned_end = omega arith;
  pinned_end = omega arith;
  aligned_apart = inl (omega arith);
  pinned_apart = inl (omega arith);
  posix = λ has_direct is_read is_partial round. short-IsPosix _ round;
}

abbrev wanted : Piece
wanted = record { file_offset = 6; place = 1000; size = 15 }

abbrev machine : Machine
machine = record { file = λ a. 10 * a; host = λ a. 0; device = λ a. 7 * a }

abbrev last_byte : Outcome → ℕ
last_byte (some (ok m)) = m.device 1014
last_byte _ = 0

-- Byte 20 of the file is the last, and the device has it.
read_over :
    last_byte
      (posix_device_read small_pages settings true aligned_bounce pinned_bounce wanted machine)
    ≡ 200
unfolding posix_device_read posix_device_read_aligned device_loop aligned_round posix_host_io
    host_loop after_call next_call sub64 add64 copy fill bring_in align_up align_down
read_over = refl

posix_device_read-Ends_example :
    Ends
      (IsDeviceRead small_pages aligned_bounce pinned_bounce)
      wanted
      machine
      (posix_device_read small_pages settings true aligned_bounce pinned_bounce wanted machine)
posix_device_read-Ends_example =
    posix_device_read-Ends small_pages settings aligned_bounce pinned_bounce set_up true wanted
      machine (omega arith, omega arith)

posix_device_write-Ends_example :
    Ends
      (IsDeviceWritten small_pages aligned_bounce pinned_bounce)
      wanted
      machine
      (posix_device_write small_pages settings true aligned_bounce pinned_bounce wanted machine)
posix_device_write-Ends_example =
    posix_device_write-Ends small_pages settings aligned_bounce pinned_bounce set_up true wanted
      machine (omega arith, omega arith)
