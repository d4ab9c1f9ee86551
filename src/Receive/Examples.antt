-- ===== src/Receive/Examples.antt =====
-- Five bytes by way of a buffer of four: an attempt that breaks off, and one that delivers them.
use kvikio.Base.{ℕ, ◌+◌, ◌*◌, ◌≡◌, refl, true, false, Result, ok, err, add64, arith}
use kvikio.PosixIo.Memory.{Memory, IsCopied}
use kvikio.Receive.{
  new_context, Bouncing, new_bounce, DeviceReceived, callback_device_memory, callback_host_memory,
  flush, write, store, write_to_device, reset_for_retry, bounce_reset_for_retry,
}
use kvikio.Receive.Device.{Destination, Fits}
use kvikio.Receive.Retries
use kvikio.Receive.Retries.{Attempt, flush-IsCopied}
use kvikio.Receive.Host
use kvikio.Receive.Host.{Target, HostAttempt, received-IsDelivered}

abbrev body : Memory
body = λ a. 10 * a

abbrev setting : Destination
setting = record {
  body = body;
  size = 5;
  dev = 1000;
  host_buffer = 500;
  host_size = 4;
  device = λ a. 7;
}

abbrev start : Attempt
start = record {
  context = new_context 0 5;
  memory = record { bounce = new_bounce 1000 500 4; host = λ a. 0; device = λ a. 7 };
  position = 0;
  is_given_up = false;
}

abbrev part : ℕ → Memory
part from = λ k. body (from + k)

-- What the callback leaves, which throws nothing here.
abbrev left_by : Attempt → Result DeviceReceived → DeviceReceived
left_by a (ok d) = d
left_by a (err e) = record { context = a.context; memory = a.memory; is_accepted = false }

abbrev with_chunk : ℕ → Attempt → Attempt
with_chunk n a =
    Retries.after_chunk n
      (left_by a (callback_device_memory (ok tt) (part a.position) n a.context a.memory)) a

abbrev broken : Attempt
broken = Retries.retried (with_chunk 3 start)

abbrev complete : Attempt
complete = with_chunk 2 (with_chunk 3 broken)

delivered : Retries.Reach setting (λ a. 0) complete
unfolding callback_device_memory write store flush write_to_device reset_for_retry
    bounce_reset_for_retry add64
delivered =
    Retries.next
      (Retries.next
        (Retries.next
          (Retries.next Retries.begun (
            Retries.receives (ok tt) (part 0) 3 _ refl (omega arith) (λ k small. omega arith) refl))
          Retries.retries)
        (Retries.receives (ok tt) (part 0) 3 _ refl (omega arith) (λ k small. omega arith) refl))
      (Retries.receives (ok tt) (part 3) 2 _ refl (omega arith) (λ k small. omega arith) refl)

all_there : complete.position ≡ 5
unfolding callback_device_memory write store flush write_to_device reset_for_retry
    bounce_reset_for_retry add64
all_there = refl

setting-Fits : Fits setting
setting-Fits = record { device_end = omega arith; host_end = omega arith }

flush-IsCopied_example :
    (m : Bouncing) × (flush (ok tt) complete.memory ≡ ok m)
    × IsCopied body 0 1000 5 (λ a. 7) m.device
flush-IsCopied_example = flush-IsCopied setting setting-Fits (omega arith) delivered all_there

abbrev target : Target
target = record { body = body; size = 5; buf = 300; host = λ a. 9; discard = false }

abbrev waiting : HostAttempt
waiting = record { context = new_context 300 5; host = λ a. 9; position = 0; is_given_up = false }

abbrev told : ℕ → HostAttempt → HostAttempt
told n a = Host.after_chunk n (callback_host_memory false (part a.position) n a.context a.host) a

-- The first chunk is too long.
too_long : (told 6 waiting).is_given_up ≡ true
unfolding callback_host_memory add64
too_long = refl

abbrev received : HostAttempt
received = told 2 (told 3 waiting)

received_reached : Host.Reach target received
unfolding callback_host_memory add64
received_reached =
    Host.next
      (Host.next Host.begun (Host.receives (part 0) 3 refl (omega arith) (λ k small. omega arith)))
      (Host.receives (part 3) 2 refl (omega arith) (λ k small. omega arith))

all_received : received.position ≡ 5
unfolding callback_host_memory add64
all_received = refl

received-IsDelivered_example :
    (target.discard ≡ false → IsCopied body 0 300 5 (λ a. 9) received.host)
    × (target.discard ≡ true → received.host ≡ target.host)
received-IsDelivered_example =
    received-IsDelivered target (omega arith) (omega arith) received_reached all_received
