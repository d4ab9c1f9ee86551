-- ===== src/Receive/Host.antt =====
-- The attempts of one read into host memory, each with its chunks.
use kvikio.Base.{
  ℕ, ◌+◌, ◌-◌, ◌≤◌, ◌<◌, ◌≡◌, refl, ap, sym, ◌≢◌, ◌∙◌, ◌⊎◌, inl, inr, Bool, true, false, not,
  Bool-cases, ltb, if◌then◌else◌, add64, add64_exact, u64_mod, arith,
}
use kvikio.PosixIo.Memory.{Memory, copy, IsCopied, copy-IsCopied}
use kvikio.Receive.{
  CallbackContext, new_context, reset_for_retry, overflows, HostReceived, callback_host_memory,
}

-- The destination, of `size` bytes at `buf`, what the host's memory held before, and whether
-- KVIKIO_REMOTE_IO_DISCARD_DATA is on.
pub record Target : Type 0 where
  pub body : Memory
  pub size : ℕ
  pub buf : ℕ
  pub host : Memory
  pub discard : Bool

pub record HostAttempt : Type 0 where
  pub context : CallbackContext
  pub host : Memory
  pub position : ℕ
  pub is_given_up : Bool

abbrev pub after_chunk : ℕ → HostReceived → HostAttempt → HostAttempt
after_chunk n r a = record {
  context = r.context;
  host = r.host;
  position = if r.is_accepted then a.position + n else a.position;
  is_given_up = not r.is_accepted;
}

-- libcurl delivers the next bytes of the body, 16 KiB at most; a chunk that is refused ends the attempt.
pub data Step (g : Target) (a : HostAttempt) : HostAttempt → Type 0 where
  receives :
      (received : Memory) (n : ℕ)
      → a.is_given_up ≡ false
      → n ≤ 16384
      → ((k : ℕ) → k < n → received (0 + k) ≡ g.body (a.position + k))
      → Step g a (after_chunk n (callback_host_memory g.discard received n a.context a.host) a)
  retries :
      Step g a (record a { context = reset_for_retry a.context; position = 0; is_given_up = false })

pub data Reach (g : Target) : HostAttempt → Type 0 where
  begun : Reach g (record {
    context = new_context g.buf g.size;
    host = g.host;
    position = 0;
    is_given_up = false;
  })
  next : {a b : HostAttempt} → Reach g a → Step g a b → Reach g b

pub record Inv (g : Target) (a : HostAttempt) : Type 0 where
  pub buf : a.context.buf ≡ g.buf
  pub size : a.context.size ≡ g.size
  pub offset : a.context.offset ≡ a.position
  pub within : a.position ≤ g.size
  pub done : g.discard ≡ false → (k : ℕ) → k < a.position → a.host (g.buf + k) ≡ g.body k
  pub outside : (x : ℕ) → (x < g.buf) ⊎ (g.buf + g.size ≤ x) → a.host x ≡ g.host x
  pub untouched : g.discard ≡ true → a.host ≡ g.host

true_apart : true ≢ false
true_apart e = absurd (cc e)

module _ (g : Target) (in_memory : g.buf + g.size < u64_mod)
    (no_wrap : g.size + 16384 < u64_mod) where
  abbrev taken_in : ℕ → Memory → HostAttempt → HostAttempt
  taken_in n host a = record {
    context = record (a.context) { offset = add64 a.context.offset n };
    host = host;
    position = a.position + n;
    is_given_up = false;
  }

  discarded-Inv :
      (n : ℕ) (a : HostAttempt)
      → a.position + n ≤ g.size
      → g.discard ≡ true
      → Inv g a
      → Inv g (taken_in n a.host a)
  discarded-Inv n a le on inv = record {
    buf = inv.buf;
    size = inv.size;
    offset = omega (arith, add64_exact a.context.offset n, inv.offset, le, no_wrap);
    within = le;
    done = λ off. absurd (true_apart (sym on ∙ off));
    outside = inv.outside;
    untouched = inv.untouched;
  }

  accepted-Inv :
      (received : Memory) (n : ℕ) (a : HostAttempt)
      → a.position + n ≤ g.size
      → ((k : ℕ) → k < n → received (0 + k) ≡ g.body (a.position + k))
      → g.discard ≡ false
      → Inv g a
      → Inv g (taken_in n (copy received 0 (add64 a.context.buf a.context.offset) n a.host) a)
  accepted-Inv received n a le is_next off inv =
      let at : add64 a.context.buf a.context.offset ≡ g.buf + a.position =
        omega
          (arith, add64_exact a.context.buf a.context.offset, inv.buf, inv.offset, in_memory, le) in
      let c = copy-IsCopied received 0 (g.buf + a.position) n a.host in
      record {
        buf = inv.buf;
        size = inv.size;
        offset = omega (arith, add64_exact a.context.offset n, inv.offset, le, no_wrap);
        within = le;
        done = λ kept k small. rw at (elim (Bool-cases (ltb k a.position)) [
          | inl early ↦
              c.outside (g.buf + k) (inl (ground (arith, early)))
              ∙ inv.done kept k (ground (arith, early))
          | inr late ↦
              let j = k - a.position in
              let there : g.buf + a.position + j ≡ g.buf + k = ground (arith, late) in
              let here : a.position + j ≡ k = ground (arith, late) in
              let inside : j < n = ground (arith, late, small) in
              rw (← there) (c.inside j inside) ∙ is_next j inside ∙ ap g.body here
        ]);
        outside = λ x apart. rw at (c.outside x (ground (arith, apart, le)) ∙ inv.outside x apart);
        untouched = λ on. absurd (true_apart (sym on ∙ off));
      }

  if-Inv :
      (b : Bool) (x y : Memory) (n : ℕ) (a : HostAttempt)
      → (b ≡ true → Inv g (taken_in n x a))
      → (b ≡ false → Inv g (taken_in n y a))
      → Inv g (taken_in n (if b then x else y) a)
  if-Inv true x y n a hx hy = hx refl
  if-Inv false x y n a hx hy = hy refl

  callback-Inv :
      (received : Memory) (n : ℕ) (a : HostAttempt)
      → n ≤ 16384
      → ((k : ℕ) → k < n → received (0 + k) ≡ g.body (a.position + k))
      → Inv g a
      → Inv g (after_chunk n (callback_host_memory g.discard received n a.context a.host) a)
  unfolding callback_host_memory
  callback-Inv received n a small is_next inv =
      let sum : add64 a.context.offset n ≡ a.position + n =
        omega (arith, add64_exact a.context.offset n, inv.offset, inv.within, small, no_wrap) in
      elim (Bool-cases (overflows n a.context)) [
        | inl too_much ↦ rw too_much (record {
          buf = inv.buf;
          size = inv.size;
          offset = inv.offset;
          within = inv.within;
          done = inv.done;
          outside = inv.outside;
          untouched = inv.untouched;
        })
        | inr enough ↦
            let le : a.position + n ≤ g.size = ground (arith, enough, sum, inv.size) in
            rw enough (
              if-Inv g.discard _ _ n a (λ on. discarded-Inv n a le on inv)
                (λ off. accepted-Inv received n a le is_next off inv))
      ]

  Reach-Inv : {a : HostAttempt} → Reach g a → Inv g a
  unfolding reset_for_retry
  Reach-Inv begun = record {
    buf = refl;
    size = refl;
    offset = refl;
    within = omega arith;
    done = λ kept k small. absurd (omega (arith, small));
    outside = λ x apart. refl;
    untouched = λ on. refl;
  }
  Reach-Inv (next {a} r (receives received n going small is_next)) =
      callback-Inv received n a small is_next (Reach-Inv r)
  Reach-Inv (next {a} r retries) =
      let inv = Reach-Inv r in
      record {
        buf = inv.buf;
        size = inv.size;
        offset = refl;
        within = omega arith;
        done = λ kept k small. absurd (omega (arith, small));
        outside = inv.outside;
        untouched = inv.untouched;
      }

  -- However the body is cut into chunks of 16 KiB at most and however many attempts failed before: once
  -- an attempt has delivered all bytes that were asked for, then, if KVIKIO_REMOTE_IO_DISCARD_DATA is
  -- off, exactly these are in the destination and the host's other bytes are as they were, also when a
  -- server sent more than was asked for; if it is on, the host's memory is as it was. The destination,
  -- and its size with one chunk more, end below 2^64.
  pub received-IsDelivered :
      {a : HostAttempt}
      → Reach g a
      → a.position ≡ g.size
      → (g.discard ≡ false → IsCopied g.body 0 g.buf g.size g.host a.host)
        × (g.discard ≡ true → a.host ≡ g.host)
  received-IsDelivered r complete =
      let inv = Reach-Inv r in
      (
        (λ off. record {
          inside =
              λ k small. inv.done off k (omega (arith, complete, small)) ∙ ap g.body (omega arith);
          outside = inv.outside;
        }),
        inv.untouched,
      )
