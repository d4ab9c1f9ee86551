-- ===== src/Receive/Retries.antt =====
-- The attempts of one read into device memory, each with its chunks, up to the one that succeeds.
use kvikio.Base.{
  ℕ, ◌+◌, ◌≤◌, ◌<◌, ◌≡◌, refl, ap, subst, ◌∙◌, inl, inr, Bool, true, false, not, Bool-cases, ltb,
  if◌then◌else◌, Result, ok, err, add64, add64_exact, u64_mod, arith,
}
use kvikio.PosixIo.Memory.{Memory, IsCopied}
use kvikio.Receive.{
  CallbackContext, new_context, reset_for_retry, overflows, new_bounce, Bouncing, flush,
  write_to_device, bounce_reset_for_retry, DeviceReceived, accept, callback_device_memory,
}
use kvikio.Receive.Device.{Destination, Fits, Holds, Left, Flushed, flush-Flushed, write-Left}

-- Where a read stands: `position` bytes of the body were delivered in this attempt, which libcurl gives
-- up once a chunk is refused.
pub record Attempt : Type 0 where
  pub context : CallbackContext
  pub memory : Bouncing
  pub position : ℕ
  pub is_given_up : Bool

-- `CURL_MAX_WRITE_SIZE`.
abbrev pub curl_max_write_size : ℕ
curl_max_write_size = 16384

abbrev pub after_chunk : ℕ → DeviceReceived → Attempt → Attempt
after_chunk n d a = record {
  context = d.context;
  memory = d.memory;
  position = if d.is_accepted then a.position + n else a.position;
  is_given_up = not d.is_accepted;
}

-- `on_retry` of `RemoteHandle::read_impl`.
abbrev pub retried : Attempt → Attempt
retried a = record {
  context = reset_for_retry a.context;
  memory = record (a.memory) { bounce = bounce_reset_for_retry a.memory.bounce };
  position = 0;
  is_given_up = false;
}

-- libcurl delivers the next bytes of the body; if the copy to the device throws, the read ends.
pub data Step (g : Destination) (a : Attempt) : Attempt → Type 0 where
  receives :
      (cuda : Result (Unit {0})) (received : Memory) (n : ℕ) (d : DeviceReceived)
      → a.is_given_up ≡ false
      → n ≤ curl_max_write_size
      → ((k : ℕ) → k < n → received (0 + k) ≡ g.body (a.position + k))
      → callback_device_memory cuda received n a.context a.memory ≡ ok d
      → Step g a (after_chunk n d a)
  retries : Step g a (retried a)

pub data Reach (g : Destination) (host : Memory) : Attempt → Type 0 where
  begun : Reach g host (record {
    context = new_context 0 g.size;
    memory = record {
      bounce = new_bounce g.dev g.host_buffer g.host_size;
      host = host;
      device = g.device;
    };
    position = 0;
    is_given_up = false;
  })
  next : {a b : Attempt} → Reach g host a → Step g a b → Reach g host b

pub record Inv (g : Destination) (a : Attempt) : Type 0 where
  pub holds : Holds g a.position a.memory
  pub size : a.context.size ≡ g.size
  pub offset : a.context.offset ≡ a.position
  pub within : a.position ≤ g.size

module _ (g : Destination) (fits : Fits g) (no_wrap : g.size + curl_max_write_size < u64_mod) where
  -- What a callback leaves is an exception, or the invariant.
  abbrev Leaves : ℕ → Attempt → Result DeviceReceived → Type 0
  Leaves n a (ok d) = Inv g (after_chunk n d a)
  Leaves n a (err e) = Unit

  if-Leaves :
      (n : ℕ) (a : Attempt) (b : Bool) (x y : Result DeviceReceived)
      → (b ≡ true → Leaves n a x)
      → (b ≡ false → Leaves n a y)
      → Leaves n a (if b then x else y)
  if-Leaves n a true x y hx hy = hx refl
  if-Leaves n a false x y hx hy = hy refl

  accept-Leaves :
      (n : ℕ) (a : Attempt) (r : Result Bouncing)
      → a.position + n ≤ g.size
      → Inv g a
      → Left g fits (a.position + n) r
      → Leaves n a (accept a.context n r)
  accept-Leaves n a (err e) le inv l = tt
  accept-Leaves n a (ok m) le inv l = record {
    holds = l;
    size = inv.size;
    offset = omega (arith, add64_exact a.context.offset n, inv.offset, le, no_wrap);
    within = le;
  }

  callback-Leaves :
      (cuda : Result (Unit {0})) (received : Memory) (n : ℕ) (a : Attempt)
      → n ≤ curl_max_write_size
      → ((k : ℕ) → k < n → received (0 + k) ≡ g.body (a.position + k))
      → Inv g a
      → Leaves n a (callback_device_memory cuda received n a.context a.memory)
  unfolding callback_device_memory
  callback-Leaves cuda received n a small is_next inv =
      let sum : add64 a.context.offset n ≡ a.position + n =
        omega (arith, add64_exact a.context.offset n, inv.offset, inv.within, small, no_wrap) in
      if-Leaves n a (overflows n a.context) _ _
        (λ too_much. record {
          holds = inv.holds;
          size = inv.size;
          offset = inv.offset;
          within = inv.within;
        })
        (λ enough.
          let le : a.position + n ≤ g.size = ground (arith, enough, sum, inv.size) in
          accept-Leaves n a _ le inv
            (write-Left g fits cuda received a.position n a.memory le is_next inv.holds))

  retried-Inv : (a : Attempt) → Inv g a → Inv g (retried a)
  unfolding reset_for_retry bounce_reset_for_retry
  retried-Inv a inv = record {
    holds = record {
      in_device = record {
        dev = inv.holds.in_device.dev;
        host_buffer = inv.holds.in_device.host_buffer;
        host_size = inv.holds.in_device.host_size;
        within = omega arith;
        done = λ k small. absurd (omega (arith, small));
        outside = inv.holds.in_device.outside;
      };
      position = omega arith;
      room = omega arith;
      held = λ k small. absurd (omega (arith, small));
    };
    size = inv.size;
    offset = refl;
    within = omega arith;
  }

  Reach-Inv : {host : Memory} {a : Attempt} → Reach g host a → Inv g a
  Reach-Inv begun = record {
    holds = record {
      in_device = record {
        dev = refl;
        host_buffer = refl;
        host_size = refl;
        within = omega arith;
        done = λ k small. absurd (omega (arith, small));
        outside = λ x apart. refl;
      };
      position = omega arith;
      room = omega arith;
      held = λ k small. absurd (omega (arith, small));
    };
    size = refl;
    offset = refl;
    within = omega arith;
  }
  Reach-Inv (next {a} r (receives cuda received n d going small is_next said)) =
      subst (Leaves n a) said (callback-Leaves cuda received n a small is_next (Reach-Inv r))
  Reach-Inv (next {a} r retries) = retried-Inv a (Reach-Inv r)

  flush_ends : (m : Bouncing) → (after : Bouncing) × (flush (ok tt) m ≡ ok after)
  unfolding flush write_to_device
  flush_ends m = elim (Bool-cases (ltb 0 m.bounce.host_offset)) [
    | inl some_held ↦ rw some_held (_, refl)
    | inr none_held ↦ rw none_held (_, refl)
  ]

  -- Whatever the sizes of the chunks and however many attempts failed before, with part of the body
  -- received or with too much of it: once an attempt has delivered all bytes that were asked for, the
  -- last flush, if the copy succeeds, leaves exactly these in the destination, and the device's other
  -- bytes as they were. The destination and the buffer end below 2^64, and a chunk has 16 KiB at most.
  pub flush-IsCopied :
      {host : Memory} {a : Attempt}
      → Reach g host a
      → a.position ≡ g.size
      → (m : Bouncing) × (flush (ok tt) a.memory ≡ ok m)
        × IsCopied g.body 0 g.dev g.size g.device m.device
  flush-IsCopied {a = a} r complete =
      let inv = Reach-Inv r in
      let (m, ended) = flush_ends a.memory in
      let (i, at, empty) =
        subst (Flushed g fits a.position) ended
          (flush-Flushed g fits (ok tt) a.position a.memory inv.within inv.holds) in
      (
        m,
        ended,
        record {
          inside =
              λ k small. i.done k (omega (arith, at, complete, small)) ∙ ap g.body (omega arith);
          outside = i.outside;
        },
      )
