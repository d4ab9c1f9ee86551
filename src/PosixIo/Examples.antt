-- ===== src/PosixIo/Examples.antt =====
-- A read of 10000 bytes at 100 with pages of 4096: a buffered prefix, a direct call through the bounce
-- buffer, a short one, and a buffered rest.
use kvikio.Base.{ℕ, ◌≡◌, refl, true, false, some, List, min, Result, ok, arith}
use kvikio.Pieces.{Piece}
use kvikio.PosixIo.{HostIo, Call, align_up, align_down, next_call, posix_host_io}
use kvikio.PosixIo.Alignment.{IsSound, HasRoom, IsAlignedCall, next_call-IsAlignedCall}
use kvikio.PosixIo.Transfers.{IsPosix, Transfers, posix_host_io-Ends}

abbrev io : HostIo
io = record {
  page_size = 4096;
  bounce_address = 81920;
  bounce_size = 8192;
  has_direct = true;
  is_read = true;
  is_partial = false;
}

-- Every call transfers at most 5000 bytes.
abbrev sys : ℕ → Call → Result ℕ
sys k c = ok (min c.count 5000)

abbrev range : Piece
range = record { file_offset = 100; place = 7; size = 10000 }

abbrev on_page : Piece
on_page = record { file_offset = 4096; place = 7; size = 10000 }

sound : IsSound io
sound = record {
  page_pos = omega arith;
  bounce_pos = omega arith;
  bounce_size_aligned = omega arith;
  bounce_address_aligned = omega arith;
}

room : HasRoom io
room = record { page_pos = omega arith; bounce_pos = omega arith }

posix : IsPosix io sys
posix = record { at_most = λ k c n said. ground arith; writes = λ k c no. absurd (ground arith) }

posix_host_io-Ends_example :
    (r : Result (List Piece)) × (posix_host_io io sys range ≡ some r) × Transfers io range r
posix_host_io-Ends_example =
    posix_host_io-Ends io sys room posix refl range (omega arith, omega arith)

direct : (next_call io on_page).is_direct ≡ true
unfolding next_call align_up align_down
direct = refl

next_call-IsAlignedCall_example : IsAlignedCall io.page_size (next_call io on_page)
next_call-IsAlignedCall_example = next_call-IsAlignedCall io on_page sound direct
