-- ===== src/Receive/Device.antt =====
-- A read into device memory by way of BounceBufferH2D, over chunks of any sizes and over retries.
use kvikio.Base.{
  ℕ, ◌+◌, ◌-◌, ◌≤◌, ◌<◌, ◌≡◌, refl, ap, ◌∙◌, ◌⊎◌, inl, inr, Bool, true, false, Bool-cases, ltb,
  if◌then◌else◌, Result, ok, err, add64, add64_exact, u64_mod, arith,
}
use kvikio.PosixIo.Memory.{Memory, copy, copy-IsCopied}
use kvikio.Receive.{
  Bouncing, written, after_copy, write_to_device, emptied, flush, store, and_store, write,
}

-- The destination, of `size` bytes at `dev`, the bounce buffer, and what the device held before.
pub record Destination : Type 0 where
  pub body : Memory
  pub size : ℕ
  pub dev : ℕ
  pub host_buffer : ℕ
  pub host_size : ℕ
  pub device : Memory

pub record Fits (g : Destination) : Type 0 where
  pub device_end : g.dev + g.size < u64_mod
  pub host_end : g.host_buffer + g.host_size < u64_mod

-- The first bytes of the body are on the device, and the next in the buffer.
pub record InDevice (g : Destination) (m : Bouncing) : Type 0 where
  pub dev : m.bounce.dev ≡ g.dev
  pub host_buffer : m.bounce.host_buffer ≡ g.host_buffer
  pub host_size : m.bounce.host_size ≡ g.host_size
  pub within : m.bounce.dev_offset ≤ g.size
  pub done : (k : ℕ) → k < m.bounce.dev_offset → m.device (g.dev + k) ≡ g.body k
  pub outside : (a : ℕ) → (a < g.dev) ⊎ (g.dev + g.size ≤ a) → m.device a ≡ g.device a

pub record Holds (g : Destination) (pos : ℕ) (m : Bouncing) : Type 0 where
  pub in_device : InDevice g m
  pub position : m.bounce.dev_offset + m.bounce.host_offset ≡ pos
  pub room : m.bounce.host_offset ≤ g.host_size
  pub held :
      (k : ℕ)
      → k < m.bounce.host_offset
      → m.host (g.host_buffer + k) ≡ g.body (m.bounce.dev_offset + k)

module _ (g : Destination) (fits : Fits g) where
  written-InDevice :
      (src : Memory) (from n : ℕ) (m : Bouncing)
      → InDevice g m
      → m.bounce.dev_offset + n ≤ g.size
      → ((k : ℕ) → k < n → src (from + k) ≡ g.body (m.bounce.dev_offset + k))
      → InDevice g (written src from n m)
  written-InDevice src from n m i le same =
      let at : add64 m.bounce.dev m.bounce.dev_offset ≡ g.dev + m.bounce.dev_offset =
        omega (arith, add64_exact m.bounce.dev m.bounce.dev_offset, i.dev, fits.device_end, le) in
      let moved : add64 m.bounce.dev_offset n ≡ m.bounce.dev_offset + n =
        omega (arith, add64_exact m.bounce.dev_offset n, fits.device_end, le) in
      let c = copy-IsCopied src from (g.dev + m.bounce.dev_offset) n m.device in
      record {
        dev = i.dev;
        host_buffer = i.host_buffer;
        host_size = i.host_size;
        within = omega (arith, moved, le);
        done = λ k small. rw at (elim (Bool-cases (ltb k m.bounce.dev_offset)) [
          | inl early ↦
              c.outside (g.dev + k) (inl (ground (arith, early))) ∙ i.done k (ground (arith, early))
          | inr late ↦
              let j = k - m.bounce.dev_offset in
              let there : g.dev + m.bounce.dev_offset + j ≡ g.dev + k = ground (arith, late) in
              let here : m.bounce.dev_offset + j ≡ k = ground (arith, late) in
              rw (← there) (c.inside j (ground (arith, late, small, moved)))
              ∙ same j (ground (arith, late, small, moved))
              ∙ ap g.body here
        ]);
        outside = λ a apart. rw at (c.outside a (ground (arith, apart, le)) ∙ i.outside a apart);
      }

  -- An exception, or the invariant with `pos` bytes received.
  abbrev pub Left : ℕ → Result Bouncing → Type 0
  Left pos (ok m) = Holds g pos m
  Left pos (err e) = Unit

  -- The same, and nothing is in the buffer.
  abbrev pub Flushed : ℕ → Result Bouncing → Type 0
  Flushed pos (ok m) = InDevice g m × (m.bounce.dev_offset ≡ pos) × (m.bounce.host_offset ≡ 0)
  Flushed pos (err e) = Unit

  pub flush-Flushed :
      (cuda : Result (Unit {0})) (pos : ℕ) (m : Bouncing)
      → pos ≤ g.size
      → Holds g pos m
      → Flushed pos (flush cuda m)
  unfolding flush write_to_device
  flush-Flushed cuda pos m le h =
      let i = h.in_device in
      elim (Bool-cases (ltb 0 m.bounce.host_offset)) [
        | inl some_held ↦ rw some_held (copied cuda)
        | inr none_held ↦ rw none_held (
          record {
            dev = i.dev;
            host_buffer = i.host_buffer;
            host_size = i.host_size;
            within = i.within;
            done = i.done;
            outside = i.outside;
          },
          ground (arith, none_held, h.position),
          refl,
        )
      ]
    where
      copied :
          (r : Result (Unit {0}))
          → Flushed pos
              (emptied (after_copy r (written m.host m.bounce.host_buffer m.bounce.host_offset m)))
      copied (err e) = tt
      copied (ok u) =
          let w =
            written-InDevice m.host m.bounce.host_buffer m.bounce.host_offset m h.in_device
              (omega (arith, h.position, le)) (rw h.in_device.host_buffer h.held) in
          (
            record {
              dev = w.dev;
              host_buffer = w.host_buffer;
              host_size = w.host_size;
              within = w.within;
              done = w.done;
              outside = w.outside;
            },
            omega (
              arith,
              add64_exact m.bounce.dev_offset m.bounce.host_offset,
              h.position,
              le,
              fits.device_end,
            ),
            refl,
          )

  -- A chunk is the next part of the body.
  abbrev pub IsNext : ℕ → ℕ → Memory → Type 0
  IsNext pos n received = (k : ℕ) → k < n → received (0 + k) ≡ g.body (pos + k)

  -- A chunk that is larger than the buffer, when nothing is in it.
  direct-Left :
      (cuda : Result (Unit {0})) (received : Memory) (pos n : ℕ) (m : Bouncing)
      → pos + n ≤ g.size
      → IsNext pos n received
      → Holds g pos m
      → m.bounce.host_offset ≡ 0
      → Left (pos + n) (after_copy cuda (written received 0 n m))
  direct-Left (err e) received pos n m le is_next h empty = tt
  direct-Left (ok u) received pos n m le is_next h empty =
      let here : m.bounce.dev_offset ≡ pos = omega (arith, h.position, empty) in
      record {
        in_device =
            written-InDevice received 0 n m h.in_device (omega (arith, here, le)) (rw here is_next);
        position =
            omega (arith, add64_exact m.bounce.dev_offset n, here, empty, le, fits.device_end);
        room = h.room;
        held = λ k small. absurd (omega (arith, small, empty));
      }

  -- A chunk for which the buffer has room.
  buffered-Holds :
      (received : Memory) (pos n : ℕ) (m : Bouncing)
      → m.bounce.host_offset + n ≤ g.host_size
      → IsNext pos n received
      → Holds g pos m
      → Holds g (pos + n) (record m {
        host = copy received 0 (add64 m.bounce.host_buffer m.bounce.host_offset) n m.host;
        bounce = record (m.bounce) { host_offset = add64 m.bounce.host_offset n };
      })
  buffered-Holds received pos n m space is_next h =
      let i = h.in_device in
      let offset = m.bounce.host_offset in
      let at : add64 m.bounce.host_buffer offset ≡ g.host_buffer + offset =
        omega
          (arith, add64_exact m.bounce.host_buffer offset, i.host_buffer, fits.host_end, space) in
      let moved : add64 offset n ≡ offset + n =
        omega (arith, add64_exact offset n, fits.host_end, space) in
      let c = copy-IsCopied received 0 (g.host_buffer + offset) n m.host in
      record {
        in_device = record {
          dev = i.dev;
          host_buffer = i.host_buffer;
          host_size = i.host_size;
          within = i.within;
          done = i.done;
          outside = i.outside;
        };
        position = omega (arith, moved, h.position);
        room = omega (arith, moved, space);
        held = λ k small. rw at (elim (Bool-cases (ltb k offset)) [
          | inl early ↦
              c.outside (g.host_buffer + k) (inl (ground (arith, early)))
              ∙ h.held k (ground (arith, early))
          | inr late ↦
              let j = k - offset in
              let there : g.host_buffer + offset + j ≡ g.host_buffer + k = ground (arith, late) in
              let here : pos + j ≡ m.bounce.dev_offset + k = ground (arith, late, h.position) in
              let inside : j < n = ground (arith, late, small, moved) in
              rw (← there) (c.inside j inside) ∙ is_next j inside ∙ ap g.body here
        ]);
      }

  same-Holds : (pos : ℕ) (m : Bouncing) → Holds g pos m → Holds g (pos + 0) m
  same-Holds pos m h = record {
    in_device = h.in_device;
    position = omega (arith, h.position);
    room = h.room;
    held = h.held;
  }

  if-Left :
      (pos : ℕ) (b : Bool) (x y : Result Bouncing)
      → (b ≡ true → Left pos x)
      → (b ≡ false → Left pos y)
      → Left pos (if b then x else y)
  if-Left pos true x y hx hy = hx refl
  if-Left pos false x y hx hy = hy refl

  store-Left :
      (cuda : Result (Unit {0})) (received : Memory) (pos n : ℕ) (m : Bouncing)
      → pos + n ≤ g.size
      → IsNext pos n received
      → Holds g pos m
      → (m.bounce.host_offset + n ≤ g.host_size) ⊎ (m.bounce.host_offset ≡ 0)
      → Left (pos + n) (store cuda received n m)
  unfolding store write_to_device
  store-Left cuda received pos n m le is_next h space =
      let nothing : ltb 0 n ≡ false → Left (pos + n) (ok m) = λ none.
        let zero_bytes : n ≡ 0 = ground (arith, none) in rw zero_bytes (same-Holds pos m h) in
      let same_size = h.in_device.host_size in
      if-Left (pos + n) (ltb m.bounce.host_size n) _ _
        (λ large.
          if-Left (pos + n) (ltb 0 n) _ _
            (λ some_bytes.
              direct-Left cuda received pos n m le is_next h
                (ground (arith, large, space, same_size)))
            nothing)
        (λ small.
          if-Left (pos + n) (ltb 0 n) _ _
            (λ some_bytes.
              buffered-Holds received pos n m (ground (arith, small, space, same_size)) is_next h)
            nothing)

  pub write-Left :
      (cuda : Result (Unit {0})) (received : Memory) (pos n : ℕ) (m : Bouncing)
      → pos + n ≤ g.size
      → IsNext pos n received
      → Holds g pos m
      → Left (pos + n) (write cuda received n m)
  unfolding write
  write-Left cuda received pos n m le is_next h =
      if-Left (pos + n) (ltb (m.bounce.host_size - m.bounce.host_offset) n) _ _
        (λ full. and_then (flush cuda m) (flush-Flushed cuda pos m (omega (arith, le)) h))
        (λ space.
          store-Left cuda received pos n m le is_next h
            (inl (ground (arith, space, h.room, h.in_device.host_size))))
    where
      and_then :
          (r : Result Bouncing) → Flushed pos r → Left (pos + n) (and_store cuda received n r)
      and_then (err e) f = tt
      and_then (ok after) (i, at, empty) =
          store-Left cuda received pos n after le is_next
            (record {
              in_device = i;
              position = omega (arith, at, empty);
              room = omega (arith, empty);
              held = λ k small. absurd (omega (arith, small, empty));
            })
            (inr empty)
