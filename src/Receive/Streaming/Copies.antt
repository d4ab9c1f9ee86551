-- ===== src/Receive/Streaming/Copies.antt =====
-- Streaming stores copy what `memcpy` copies, and go to aligned addresses.
use kvikio.Base.{
  ℕ, zero, suc, ◌+◌, ◌-◌, ◌%◌, ◌≤◌, ◌<◌, ◌≡◌, ◌≢◌, ◌⊎◌, inl, inr, sym, ◌∙◌, Result, ok, err,
  invalid_argument, refl, min, Bool, true, false, List, [], ◌∷◌, All, All-append, leb, ◌==◌, ==→eq,
  if◌then◌else◌, add64, add64_exact, u64_mod, arith,
}
use kvikio.PosixIo.Memory.{Memory, copy, IsCopied, copy-IsCopied, nothing-IsCopied, then-IsCopied}
use kvikio.Receive.Streaming.{
  Streamed, Threshold, nonnegative, negative, copy_above, plain, store_block, stream_loop,
  copy_nontemporal_impl, CopySettings, copy_nontemporal, nontemporal_copy_threshold,
  copy_received_data,
}

abbrev pub AreAligned : List ℕ → Type 0
AreAligned = All (λ a. a % 32 ≡ 0)

-- The bytes are copied, and every streaming store was to an aligned address.
pub record IsStreamed (src : Memory) (from to n : ℕ) (before : Memory) (c : Streamed) : Type 0 where
  pub copied : IsCopied src from to n before c.memory
  pub aligned : AreAligned c.stores

if-IsStreamed :
    (src : Memory) (from to n : ℕ) (before : Memory) (b : Bool) (x y : Streamed)
    → (b ≡ true → IsStreamed src from to n before x)
    → (b ≡ false → IsStreamed src from to n before y)
    → IsStreamed src from to n before (if b then x else y)
if-IsStreamed src from to n before true x y hx hy = hx refl
if-IsStreamed src from to n before false x y hx hy = hy refl

stream_loop-IsStreamed :
    (fuel : ℕ) (src : Memory) (from to n : ℕ) (c : Streamed)
    → n ≤ fuel
    → from + n < u64_mod
    → to + n < u64_mod
    → (32 ≤ n → to % 32 ≡ 0)
    → AreAligned c.stores
    → IsStreamed src from to n c.memory (stream_loop fuel src from to n c)
unfolding stream_loop
stream_loop-IsStreamed zero src from to n c enough f t on before = record {
  copied = nothing-IsCopied src from to n c.memory (omega (arith, enough));
  aligned = before;
}
stream_loop-IsStreamed (suc fuel) src from to n c enough f t on before =
    if-IsStreamed src from to n c.memory (leb 32 n) _ _
      (λ block.
        let whole : 32 ≤ n = ground (arith, block) in
        let here : to % 32 ≡ 0 = on whole in
        let next_from : add64 from 32 ≡ from + 32 = omega (arith, add64_exact from 32, f, whole) in
        let next_to : add64 to 32 ≡ to + 32 = omega (arith, add64_exact to 32, t, whole) in
        let rest =
          stream_loop-IsStreamed fuel src (add64 from 32) (add64 to 32) (n - 32)
            (store_block src from to c) (omega (arith, enough, whole))
            (omega (arith, next_from, f, whole)) (omega (arith, next_to, t, whole))
            (λ more. omega (arith, next_to, here))
            (All-append (λ a. a % 32 ≡ 0) c.stores (to ∷ []) before (here, tt)) in
        record {
          copied =
              then-IsCopied src from to 32 n c.memory _ _ whole
                (copy-IsCopied src from to 32 c.memory) (rw (← next_from, ← next_to) rest.copied);
          aligned = rest.aligned;
        })
      (λ tail.
        if-IsStreamed src from to n c.memory (n == 0) _ _
          (λ none_left. record {
            copied = nothing-IsCopied src from to n c.memory (==→eq n 0 none_left);
            aligned = before;
          })
          (λ some_left. record { copied = copy-IsCopied src from to n c.memory; aligned = before }))

copy_nontemporal_impl-IsStreamed :
    (src : Memory) (from to n : ℕ) (memory : Memory)
    → from + n < u64_mod
    → to + n < u64_mod
    → IsStreamed src from to n memory (copy_nontemporal_impl src from to n memory)
unfolding copy_nontemporal_impl
copy_nontemporal_impl-IsStreamed src from to n memory f t =
    if-IsStreamed src from to n memory (to % 32 == 0) _ _
      (λ on.
        stream_loop-IsStreamed n src from to n (plain memory) (omega arith) f t
          (λ whole. ==→eq (to % 32) 0 on) tt)
      (λ off.
        let head = min n (32 - to % 32) in
        let next_from : add64 from head ≡ from + head = omega (arith, add64_exact from head, f) in
        let next_to : add64 to head ≡ to + head = omega (arith, add64_exact to head, t) in
        let rest =
          stream_loop-IsStreamed (n - head) src (add64 from head) (add64 to head) (n - head)
            (plain (copy src from to head memory)) (omega arith) (omega (arith, next_from, f))
            (omega (arith, next_to, t)) (λ whole. omega (arith, next_to, whole)) tt in
        record {
          copied =
              then-IsCopied src from to head n memory _ _ (omega arith)
                (copy-IsCopied src from to head memory) (rw (← next_from, ← next_to) rest.copied);
          aligned = rest.aligned;
        })

plain-IsStreamed :
    (src : Memory) (from to n : ℕ) (memory : Memory)
    → IsStreamed src from to n memory (plain (copy src from to n memory))
plain-IsStreamed src from to n memory = record {
  copied = copy-IsCopied src from to n memory;
  aligned = tt;
}

-- What a copy of received data leaves: an exception just if the nontemporal copy is enabled and its
-- threshold is negative, and otherwise the copy.
pub data IsReceived (s : CopySettings) (src : Memory) (from to n : ℕ) (before : Memory)
    : Result Streamed → Type 0 where
  refuses :
      s.nontemporal_copy_enabled ≡ true
      → s.env_threshold ≡ negative
      → IsReceived s src from to n before (err invalid_argument)
  copies :
      (c : Streamed)
      → (s.nontemporal_copy_enabled ≡ false) ⊎ (s.env_threshold ≢ negative)
      → IsStreamed src from to n before c
      → IsReceived s src from to n before (ok c)

copy_nontemporal-IsStreamed :
    (s : CopySettings) (src : Memory) (from to n : ℕ) (memory : Memory)
    → from + n < u64_mod
    → to + n < u64_mod
    → IsStreamed src from to n memory (copy_nontemporal s src from to n memory)
unfolding copy_nontemporal
copy_nontemporal-IsStreamed s src from to n memory f t =
    if-IsStreamed src from to n memory s.cpu_supports_avx2 _ _
      (λ avx2. copy_nontemporal_impl-IsStreamed src from to n memory f t)
      (λ none. plain-IsStreamed src from to n memory)

if-IsReceived :
    (s : CopySettings) (src : Memory) (from to n : ℕ) (memory : Memory) (b : Bool)
    (x y : Result Streamed)
    → (b ≡ true → IsReceived s src from to n memory x)
    → (b ≡ false → IsReceived s src from to n memory y)
    → IsReceived s src from to n memory (if b then x else y)
if-IsReceived s src from to n memory true x y hx hy = hx refl
if-IsReceived s src from to n memory false x y hx hy = hy refl

nonnegative_apart : (n : ℕ) → nonnegative n ≢ negative
nonnegative_apart n e = absurd (cc e)

copy_above-IsReceived :
    (s : CopySettings) (src : Memory) (from to n range_size : ℕ) (memory : Memory)
    (threshold : Threshold)
    → from + n < u64_mod
    → to + n < u64_mod
    → s.nontemporal_copy_enabled ≡ true
    → s.env_threshold ≡ threshold
    → IsReceived s src from to n memory
        (copy_above (nontemporal_copy_threshold threshold) s src from to n range_size memory)
unfolding copy_above
copy_above-IsReceived s src from to n range_size memory negative f t on known = refuses on known
copy_above-IsReceived s src from to n range_size memory (nonnegative env) f t on known =
    let fine : s.env_threshold ≢ negative =
      λ (b : s.env_threshold ≡ negative). nonnegative_apart env (sym known ∙ b) in
    if-IsReceived s src from to n memory (leb env range_size) _ _
      (λ large. copies _ (inr fine) (copy_nontemporal-IsStreamed s src from to n memory f t))
      (λ small. copies _ (inr fine) (plain-IsStreamed src from to n memory))

-- With or without AVX2, however the destination is aligned, and whatever size the read has: a negative
-- threshold is refused when the nontemporal copy is enabled, and nothing else is; otherwise the bytes
-- that `memcpy` would copy are copied and no others change, and a streaming store goes only to an
-- address that is a multiple of 32. Neither range runs past the last 64-bit number.
pub copy_received_data-IsReceived :
    (s : CopySettings) (src : Memory) (from to n range_size : ℕ) (memory : Memory)
    → from + n < u64_mod
    → to + n < u64_mod
    → IsReceived s src from to n memory (copy_received_data s src from to n range_size memory)
unfolding copy_received_data
copy_received_data-IsReceived s src from to n range_size memory f t =
    if-IsReceived s src from to n memory s.nontemporal_copy_enabled _ _
      (λ on. copy_above-IsReceived s src from to n range_size memory s.env_threshold f t on refl)
      (λ off. copies _ (inl off) (plain-IsStreamed src from to n memory))
