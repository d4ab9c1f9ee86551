-- ===== src/Receive/Streaming.antt =====
-- `copy_received_data` of cpp/src/detail/remote_callback.cpp, with `memcpy` or with streaming stores of 32
-- bytes, whose addresses are recorded.
pub mod Copies
pub mod Examples
use kvikio.Base.{
  ℕ, zero, suc, ◌+◌, ◌-◌, ◌%◌, min, Bool, true, false, List, [], ◌∷◌, ◌++◌, leb, ◌==◌,
  if◌then◌else◌, add64, Result, ok, err, invalid_argument,
}
use kvikio.PosixIo.Memory.{Memory, copy}

pub record Streamed : Type 0 where
  pub memory : Memory
  pub stores : List ℕ

abbrev pub plain : Memory → Streamed
plain memory = record { memory = memory; stores = [] }

-- One `_mm256_stream_si256`.
abbrev pub store_block : Memory → ℕ → ℕ → Streamed → Streamed
store_block src from to c = record {
  memory = copy src from to 32 c.memory;
  stores = c.stores ++ to ∷ [];
}

-- The blocks and the tail; `nbytes` rounds are more than enough.
unfoldable pub stream_loop : ℕ → Memory → ℕ → ℕ → ℕ → Streamed → Streamed
stream_loop zero src from to nbytes c = c
stream_loop (suc fuel) src from to nbytes c =
    let rest =
      stream_loop fuel src (add64 from 32) (add64 to 32) (nbytes - 32)
        (store_block src from to c) in
    if leb 32 nbytes
    then rest
    else if nbytes == 0
    then c
    else record c { memory = copy src from to nbytes c.memory }

unfoldable pub copy_nontemporal_impl : Memory → ℕ → ℕ → ℕ → Memory → Streamed
copy_nontemporal_impl src from to nbytes memory =
    let misaligned = to % 32 in
    let head = min nbytes (32 - misaligned) in
    let left = nbytes - head in
    if misaligned == 0
    then stream_loop nbytes src from to nbytes (plain memory)
    else stream_loop left src (add64 from head) (add64 to head) left
        (plain (copy src from to head memory))

-- KVIKIO_REMOTE_IO_NONTEMPORAL_COPY_THRESHOLD, a signed number; that of `negative` is left out.
pub data Threshold : Type 0 where
  nonnegative : ℕ → Threshold
  negative : Threshold

-- Whether the processor has AVX2, and the two environment variables.
pub record CopySettings : Type 0 where
  pub cpu_supports_avx2 : Bool
  pub nontemporal_copy_enabled : Bool
  pub env_threshold : Threshold

unfoldable pub copy_nontemporal : CopySettings → Memory → ℕ → ℕ → ℕ → Memory → Streamed
copy_nontemporal s src from to nbytes memory =
    if s.cpu_supports_avx2
    then copy_nontemporal_impl src from to nbytes memory
    else plain (copy src from to nbytes memory)

abbrev pub nontemporal_copy_threshold : Threshold → Result ℕ
nontemporal_copy_threshold (nonnegative env) = ok env
nontemporal_copy_threshold negative = err invalid_argument

-- The copy, when the threshold is known or an exception.
unfoldable pub copy_above :
    Result ℕ → CopySettings → Memory → ℕ → ℕ → ℕ → ℕ → Memory → Result Streamed
copy_above (err e) s src from to nbytes range_size memory = err e
copy_above (ok threshold) s src from to nbytes range_size memory =
    if leb threshold range_size
    then ok (copy_nontemporal s src from to nbytes memory)
    else ok (plain (copy src from to nbytes memory))

-- The threshold is read only when the nontemporal copy is enabled.
unfoldable pub copy_received_data : CopySettings → Memory → ℕ → ℕ → ℕ → ℕ → Memory → Result Streamed
unfolding copy_above
copy_received_data s src from to nbytes range_size memory =
    if s.nontemporal_copy_enabled
    then copy_above (nontemporal_copy_threshold s.env_threshold) s src from to nbytes range_size
        memory
    else ok (plain (copy src from to nbytes memory))
