-- ===== src/PosixIo.antt =====
-- cpp/include/kvikio/detail/posix_io.hpp: `posix_host_io`, which reads or writes a range with direct
-- I/O where alignment allows it; cpp/src/detail/utils.cpp: the alignment. A page size is a power of two,
-- so a mask `x & (page - 1)` is `x % page`. The system call is the argument `sys`, whose first argument
-- counts the calls.
pub mod Alignment
pub mod Transfers
pub mod Memory
pub mod Bytes
pub mod Device
pub mod Examples
use kvikio.Base.{
  ℕ, zero, suc, ◌+◌, ◌-◌, ◌%◌, ◌^◌, min, Bool, true, false, not, ◌&&◌, ◌||◌, Option, none, some,
  List, [], ◌∷◌, ltb, ◌==◌, if◌then◌else◌, Result, ok, err, cufile_exception,
}
use kvikio.Pieces.{Piece, cut, advance}

unfoldable pub align_down : ℕ → ℕ → ℕ
align_down value alignment = value - value % alignment

unfoldable pub align_up : ℕ → ℕ → ℕ
align_up value alignment = value + alignment - 1 - (value + alignment - 1) % alignment

abbrev pub is_aligned : ℕ → ℕ → Bool
is_aligned value alignment = value % alignment == 0

-- What the loop reads of its surroundings: the page size, the bounce buffer that it would get, whether
-- there is a descriptor for direct I/O, the operation, and whether a part is enough.
pub record HostIo : Type 0 where
  pub page_size : ℕ
  pub bounce_address : ℕ
  pub bounce_size : ℕ
  pub has_direct : Bool
  pub is_read : Bool
  pub is_partial : Bool

-- One call of `pread` or `pwrite`; `is_bounced` says that the bounce buffer stands between.
pub record Call : Type 0 where
  pub is_direct : Bool
  pub is_bounced : Bool
  pub address : ℕ
  pub offset : ℕ
  pub count : ℕ

abbrev pub buffered : Piece → ℕ → Call
buffered p count = record {
  is_direct = false;
  is_bounced = false;
  address = p.place;
  offset = p.file_offset;
  count = count;
}

unfoldable pub next_call : HostIo → Piece → Call
unfolding align_up align_down
next_call io p =
    if not io.has_direct
    then buffered p p.size
    else if not (is_aligned p.file_offset io.page_size)
    then buffered p (min (align_up p.file_offset io.page_size - p.file_offset) p.size)
    else if ltb p.size io.page_size
    then buffered p p.size
    else if is_aligned p.place io.page_size
    then record {
      is_direct = true;
      is_bounced = false;
      address = p.place;
      offset = p.file_offset;
      count = align_down p.size io.page_size;
    }
    else record {
      is_direct = true;
      is_bounced = true;
      address = io.bounce_address;
      offset = p.file_offset;
      count = min (align_down p.size io.page_size) io.bounce_size;
    }

abbrev pub prepend : Piece → Option (Result (List Piece)) → Option (Result (List Piece))
prepend p none = none
prepend p (some (ok ps)) = some (ok (p ∷ ps))
prepend p (some (err e)) = some (err e)

-- What follows one call: `rest` is the rest of the loop.
unfoldable pub after_call :
    HostIo → Piece → Result ℕ → (ℕ → Option (Result (List Piece))) → Option (Result (List Piece))
after_call io p (err e) rest = some (err e)
after_call io p (ok n) rest =
    let more = prepend (cut p n) (rest n) in
    if io.is_read && n == 0
    then some (err cufile_exception)
    else if io.is_partial
    then some (ok (cut p n ∷ []))
    else more

-- The loop on fuel: the pieces that were transferred. `none` is fuel that ran out.
unfoldable pub host_loop :
    HostIo → (ℕ → Call → Result ℕ) → ℕ → ℕ → Piece → Option (Result (List Piece))
host_loop io sys zero calls p = if p.size == 0 then some (ok []) else none
host_loop io sys (suc fuel) calls p =
    let rest =
      after_call io p (sys calls (next_call io p))
        (λ n. host_loop io sys fuel (suc calls) (advance p n)) in
    if p.size == 0 then some (ok []) else rest

-- `convert_size2ssize(count)` behind the loop, which a partial call leaves before.
abbrev pub returned : HostIo → ℕ → Option (Result (List Piece)) → Option (Result (List Piece))
returned io count none = none
returned io count (some (err e)) = some (err e)
returned io count (some (ok ps)) =
    if io.is_partial || ltb count (2 ^ 63 - 1) then some (ok ps) else some (err cufile_exception)

-- Each call transfers at least a byte, so `count` rounds are enough.
unfoldable pub posix_host_io : HostIo → (ℕ → Call → Result ℕ) → Piece → Option (Result (List Piece))
unfolding host_loop
posix_host_io io sys p = returned io p.size (host_loop io sys p.size 0 p)
