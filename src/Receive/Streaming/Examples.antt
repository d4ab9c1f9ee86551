-- ===== src/Receive/Streaming/Examples.antt =====
-- Seventy bytes to an address that is not aligned: a head of 12, one block and a tail.
use kvikio.Base.{
  ℕ, ◌*◌, ◌≡◌, refl, true, List, [], ◌∷◌, add64, Result, ok, err, invalid_argument, arith,
}
use kvikio.PosixIo.Memory.{Memory}
use kvikio.Receive.Streaming.{
  Streamed, nonnegative, negative, copy_above, stream_loop, copy_nontemporal_impl, CopySettings,
  copy_nontemporal, copy_received_data,
}
use kvikio.Receive.Streaming.Copies.{IsReceived, copy_received_data-IsReceived}

abbrev source : Memory
source = λ a. 3 * a

abbrev zeros : Memory
zeros = λ a. 0

abbrev with_avx2 : CopySettings
with_avx2 = record {
  cpu_supports_avx2 = true;
  nontemporal_copy_enabled = true;
  env_threshold = nonnegative 1000;
}

-- Where the streaming stores go.
abbrev stores_of : Result Streamed → List ℕ
stores_of (ok c) = c.stores
stores_of (err e) = []

blocks_at : stores_of (copy_received_data with_avx2 source 8 116 70 4096 zeros) ≡ 128 ∷ []
unfolding copy_received_data copy_above copy_nontemporal copy_nontemporal_impl stream_loop add64
blocks_at = refl

refused :
    copy_received_data (record with_avx2 { env_threshold = negative }) source 8 116 70 4096 zeros
    ≡ err invalid_argument
unfolding copy_received_data copy_above
refused = refl

copy_received_data-IsReceived_example :
    IsReceived with_avx2 source 8 116 70 zeros
      (copy_received_data with_avx2 source 8 116 70 4096 zeros)
copy_received_data-IsReceived_example =
    copy_received_data-IsReceived with_avx2 source 8 116 70 4096 zeros (omega arith) (omega arith)
