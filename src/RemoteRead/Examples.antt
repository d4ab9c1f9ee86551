-- ===== src/RemoteRead/Examples.antt =====
-- Ten bytes at 100 of a file of 200, in sub-ranges of four for a device buffer.
use kvikio.Base.{
  ℕ, ◌+◌, ◌≤◌, ◌≡◌, ◌↔◌, refl, false, [], ◌∷◌, All, length, true, Result, ok, err, invalid_argument,
  add64, sub64, arith,
}
use kvikio.Pieces.{Piece, IsCovered}
use kvikio.RemoteRead.{
  Setting, multi_poll, subranges, is_read_out_of_bounds, expect_read_in_bounds, expect_backend,
  num_subranges, subrange_loop, pread,
}
use kvikio.RemoteRead.Bounds.{is_read_out_of_bounds_lem, pread_out_of_bounds}
use kvikio.RemoteRead.Subranges.{IsSized, pread-IsCovered, pread_fits_bounce_buffer}

abbrev setting : Setting
setting = record {
  io_backend = multi_poll;
  page_size = 4096;
  bounce_buffer_size = 8;
  has_thread_pool = true;
  is_host_mem = false;
  is_observed = true;
  nbytes = 200;
}

abbrev op : Piece → Result ℕ
op p = ok p.size

abbrev at : ℕ → ℕ → Piece
at n size = record { file_offset = 100 + n; place = 5000 + n; size = size }

made : pread setting op 4 (at 0 10) ≡ ok (subranges (at 0 4 ∷ at 4 4 ∷ at 8 2 ∷ []))
unfolding pread expect_read_in_bounds is_read_out_of_bounds expect_backend num_subranges
    subrange_loop add64 sub64
made = refl

is_read_out_of_bounds_lem_example : (is_read_out_of_bounds 100 100 200 ≡ false) ↔ (100 + 100 ≤ 200)
is_read_out_of_bounds_lem_example = is_read_out_of_bounds_lem 100 100 200 (omega arith)

pread_out_of_bounds_example : pread setting op 4 (at 0 101) ≡ err invalid_argument
pread_out_of_bounds_example =
    pread_out_of_bounds setting op 4 (at 0 101) (omega arith) (omega arith) (omega arith)

pread-IsCovered_example :
    IsCovered (at 0 10) (at 0 4 ∷ at 4 4 ∷ at 8 2 ∷ [])
    × All (IsSized 4) (at 0 4 ∷ at 4 4 ∷ at 8 2 ∷ [])
    × (length (at 0 4 ∷ at 4 4 ∷ at 8 2 ∷ []) ≡ num_subranges 4 10)
pread-IsCovered_example =
    pread-IsCovered setting op 4 (at 0 10) (at 0 4 ∷ at 4 4 ∷ at 8 2 ∷ []) (omega arith)
      (omega arith) (omega arith) made

pread_fits_bounce_buffer_example :
    All (IsSized setting.bounce_buffer_size) (at 0 4 ∷ at 4 4 ∷ at 8 2 ∷ [])
pread_fits_bounce_buffer_example =
    pread_fits_bounce_buffer setting op 4 (at 0 10) (at 0 4 ∷ at 4 4 ∷ at 8 2 ∷ []) (omega arith)
      (omega arith) (omega arith) refl made
