-- ===== src/Receive.antt =====
-- How received data reaches the destination: the write callbacks of cpp/src/detail/remote_callback.cpp and
-- cpp/src/remote_handle.cpp, and BounceBufferH2D of the latter. A chunk that libcurl delivers is its
-- content and the number of its bytes. How the chunk is copied, with `memcpy` or with streaming stores,
-- makes no difference to the bytes; `cuda` says how a copy to the device and its synchronisation end.
pub mod Host
pub mod Device
pub mod Retries
pub mod Streaming
pub mod Examples
use kvikio.Base.{ℕ, ◌+◌, ◌-◌, Bool, true, false, ltb, if◌then◌else◌, Result, ok, err, add64}
use kvikio.PosixIo.Memory.{Memory, copy}

-- The members of `CallbackContext` that a callback into one destination uses.
pub record CallbackContext : Type 0 where
  pub buf : ℕ
  pub size : ℕ
  pub offset : ℕ
  pub overflow_error : Bool

abbrev pub new_context : ℕ → ℕ → CallbackContext
new_context buf size = record { buf = buf; size = size; offset = 0; overflow_error = false }

unfoldable pub reset_for_retry : CallbackContext → CallbackContext
reset_for_retry c = record c { offset = 0; overflow_error = false }

-- More than was asked for.
abbrev pub overflows : ℕ → CallbackContext → Bool
overflows nbytes c = ltb c.size (add64 c.offset nbytes)

-- What a callback leaves; libcurl stops the transfer unless the chunk is accepted.
pub record HostReceived : Type 0 where
  pub context : CallbackContext
  pub host : Memory
  pub is_accepted : Bool

unfoldable pub callback_host_memory : Bool → Memory → ℕ → CallbackContext → Memory → HostReceived
callback_host_memory discard received nbytes c host =
    if overflows nbytes c
    then record { context = record c { overflow_error = true }; host = host; is_accepted = false }
    else record {
      context = record c { offset = add64 c.offset nbytes };
      host = if discard then host else copy received 0 (add64 c.buf c.offset) nbytes host;
      is_accepted = true;
    }

-- `_host_buffer` is at `host_buffer` and of `host_size` bytes, `_dev` is the device's address.
pub record BounceBufferH2D : Type 0 where
  pub dev : ℕ
  pub host_buffer : ℕ
  pub host_size : ℕ
  pub dev_offset : ℕ
  pub host_offset : ℕ

abbrev pub new_bounce : ℕ → ℕ → ℕ → BounceBufferH2D
new_bounce dev host_buffer host_size = record {
  dev = dev;
  host_buffer = host_buffer;
  host_size = host_size;
  dev_offset = 0;
  host_offset = 0;
}

-- The buffer, the host's memory and the device's.
pub record Bouncing : Type 0 where
  pub bounce : BounceBufferH2D
  pub host : Memory
  pub device : Memory

-- `write_to_device` once the copy has succeeded.
abbrev pub written : Memory → ℕ → ℕ → Bouncing → Bouncing
written src from size m = record m {
  device = copy src from (add64 m.bounce.dev m.bounce.dev_offset) size m.device;
  bounce = record (m.bounce) { dev_offset = add64 m.bounce.dev_offset size };
}

abbrev pub after_copy : Result (Unit {0}) → Bouncing → Result Bouncing
after_copy (ok u) m = ok m
after_copy (err e) m = err e

unfoldable pub write_to_device : Result (Unit {0}) → Memory → ℕ → ℕ → Bouncing → Result Bouncing
write_to_device cuda src from size m =
    if ltb 0 size then after_copy cuda (written src from size m) else ok m

abbrev pub emptied : Result Bouncing → Result Bouncing
emptied (ok m) = ok (record m { bounce = record (m.bounce) { host_offset = 0 } })
emptied (err e) = err e

unfoldable pub flush : Result (Unit {0}) → Bouncing → Result Bouncing
flush cuda m = emptied (write_to_device cuda m.host m.bounce.host_buffer m.bounce.host_offset m)

-- The data goes to the buffer if that is large enough, else to the device.
unfoldable pub store : Result (Unit {0}) → Memory → ℕ → Bouncing → Result Bouncing
store cuda received size m =
    if ltb m.bounce.host_size size
    then write_to_device cuda received 0 size m
    else if ltb 0 size
    then ok (record m {
      host = copy received 0 (add64 m.bounce.host_buffer m.bounce.host_offset) size m.host;
      bounce = record (m.bounce) { host_offset = add64 m.bounce.host_offset size };
    })
    else ok m

abbrev pub and_store : Result (Unit {0}) → Memory → ℕ → Result Bouncing → Result Bouncing
and_store cuda received size (ok m) = store cuda received size m
and_store cuda received size (err e) = err e

-- `BounceBufferH2D::write`; the offset never passes the buffer's size.
unfoldable pub write : Result (Unit {0}) → Memory → ℕ → Bouncing → Result Bouncing
write cuda received size m =
    if ltb (m.bounce.host_size - m.bounce.host_offset) size
    then and_store cuda received size (flush cuda m)
    else store cuda received size m

unfoldable pub bounce_reset_for_retry : BounceBufferH2D → BounceBufferH2D
bounce_reset_for_retry b = record b { dev_offset = 0; host_offset = 0 }

pub record DeviceReceived : Type 0 where
  pub context : CallbackContext
  pub memory : Bouncing
  pub is_accepted : Bool

abbrev pub accept : CallbackContext → ℕ → Result Bouncing → Result DeviceReceived
accept c nbytes (ok m) = ok (record {
  context = record c { offset = add64 c.offset nbytes };
  memory = m;
  is_accepted = true;
})
accept c nbytes (err e) = err e

unfoldable pub callback_device_memory :
    Result (Unit {0}) → Memory → ℕ → CallbackContext → Bouncing → Result DeviceReceived
callback_device_memory cuda received nbytes c m =
    if overflows nbytes c
    then ok
        (record { context = record c { overflow_error = true }; memory = m; is_accepted = false })
    else accept c nbytes (write cuda received nbytes m)
