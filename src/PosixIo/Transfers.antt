-- ===== src/PosixIo/Transfers.antt =====
-- `posix_host_io` ends, and what it transferred makes up the range.
use kvikio.Base.{
  ℕ, zero, suc, ◌-◌, ◌^◌, ◌||◌, ltb, ◌≤◌, ◌<◌, ◌≡◌, ◌≢◌, refl, ap, sym, ◌∙◌, ◌⊎◌, ◌&&◌, ==→eq, inl,
  inr, Bool, true, false, Option, some, List, [], ◌∷◌, ◌==◌, if◌then◌else◌, Bool-cases, Result, ok,
  err, arith,
}
use kvikio.Pieces.{
  Piece, cut, advance, IsBounded, IsCovered, advance-IsAdvanced, advance-IsBounded, cut-IsCovered,
}
use kvikio.PosixIo.{
  HostIo, Call, next_call, prepend, after_call, host_loop, returned, posix_host_io,
}
use kvikio.PosixIo.Alignment.{HasRoom, next_call-IsProgress}

-- What POSIX says of `pread` and `pwrite`: they transfer no more than asked; a write of at least one
-- byte writes at least one.
pub record IsPosix (io : HostIo) (sys : ℕ → Call → Result ℕ) : Type 0 where
  pub at_most : (k : ℕ) (c : Call) (n : ℕ) → sys k c ≡ ok n → n ≤ c.count
  pub writes : (k : ℕ) (c : Call) → io.is_read ≡ false → 0 < c.count → sys k c ≢ ok 0

-- Each piece is no larger than what was asked for when it was next.
abbrev pub IsAsked : HostIo → Piece → List Piece → Type 0
IsAsked io p [] = Unit
IsAsked io p (q ∷ ps) = (q.size ≤ (next_call io p).count) × IsAsked io (advance p q.size) ps

-- An exception, or the pieces that were transferred.
abbrev pub Transfers : HostIo → Piece → Result (List Piece) → Type 0
Transfers io p (ok ps) = IsCovered p ps × IsAsked io p ps
Transfers io p (err e) = Unit

abbrev Ends : HostIo → Piece → Option (Result (List Piece)) → Type 0
Ends io p o = (r : Result (List Piece)) × (o ≡ some r) × Transfers io p r

module _ (io : HostIo) (sys : ℕ → Call → Result ℕ) (room : HasRoom io) (posix : IsPosix io sys)
    (full : io.is_partial ≡ false) where
  prepend-Ends :
      (p : Piece) (n : ℕ) (o : Option (Result (List Piece)))
      → IsBounded p
      → n ≤ p.size
      → n ≤ (next_call io p).count
      → Ends io (advance p n) o
      → Ends io p (prepend (cut p n) o)
  prepend-Ends p n o b fits asked (ok ps, done, (covered, all_asked)) = (
    ok (cut p n ∷ ps),
    ap (prepend (cut p n)) done,
    (cut-IsCovered p n ps b fits covered, (asked, all_asked)),
  )
  prepend-Ends p n o b fits asked (err e, done, covered) = (err e, ap (prepend (cut p n)) done, tt)

  if-Ends :
      (p : Piece) (b : Bool) (x y : Option (Result (List Piece)))
      → (b ≡ true → Ends io p x)
      → (b ≡ false → Ends io p y)
      → Ends io p (if b then x else y)
  if-Ends p true x y hx hy = hx refl
  if-Ends p false x y hx hy = hy refl

  after_call-Ends :
      (p : Piece) (said : Result ℕ) (rest : ℕ → Option (Result (List Piece)))
      → IsBounded p
      → (next_call io p).count ≤ p.size
      → ((n : ℕ) → said ≡ ok n → n ≤ (next_call io p).count)
      → (io.is_read ≡ false → said ≢ ok 0)
      → ((n : ℕ) → 0 < n → n ≤ p.size → Ends io (advance p n) (rest n))
      → Ends io p (after_call io p said rest)
  unfolding after_call
  after_call-Ends p (err e) rest b within fits moves later = (err e, refl, tt)
  after_call-Ends p (ok n) rest b within fits moves later =
      let le : n ≤ p.size = omega (arith, fits n refl, within) in
      if-Ends p (io.is_read && n == 0) _ _ (λ ended. (_, refl, tt))
        (λ going.
          if-Ends p io.is_partial _ _ (λ part. absurd (apart (sym part ∙ full)))
            (λ whole.
              prepend-Ends p n (rest n) b le (fits n refl)
                (later n (some_bytes (Bool-cases io.is_read) going) le)))
    where
      apart : true ≢ false
      apart e = absurd (cc e)

      some_bytes :
          (io.is_read ≡ true) ⊎ (io.is_read ≡ false) → (io.is_read && n == 0) ≡ false → 0 < n
      some_bytes (inl reads) going = ground (arith, reads, going)
      some_bytes (inr writes) going = elim (Bool-cases (n == 0)) [
        | inl nothing ↦ absurd (moves writes (ap ok (==→eq n 0 nothing)))
        | inr something ↦ ground (arith, something)
      ]

  host_loop-Ends :
      (fuel calls : ℕ) (p : Piece)
      → IsBounded p
      → p.size ≤ fuel
      → Ends io p (host_loop io sys fuel calls p)
  unfolding host_loop
  host_loop-Ends zero calls p b enough =
      if-Ends p (p.size == 0) _ _ (λ e. (ok [], refl, (==→eq p.size 0 e, tt)))
        (λ h. absurd (ground arith))
  host_loop-Ends (suc fuel) calls p b enough =
      if-Ends p (p.size == 0) _ _ (λ e. (ok [], refl, (==→eq p.size 0 e, tt)))
        (λ h.
          let (pos, within) = next_call-IsProgress io p room (ground arith) in
          after_call-Ends p (sys calls (next_call io p))
            (λ n. host_loop io sys fuel (suc calls) (advance p n)) b within
            (λ n said. posix.at_most calls (next_call io p) n said)
            (λ writes. posix.writes calls (next_call io p) writes pos)
            (λ n some_bytes fits.
              let a = advance-IsAdvanced p n b fits in
              host_loop-Ends fuel (suc calls) (advance p n) (advance-IsBounded p n b fits)
                (omega (arith, a.size))))

  returned-Ends :
      (p : Piece) (o : Option (Result (List Piece)))
      → Ends io p o
      → Ends io p (returned io p.size o)
  returned-Ends p o (err e, done, transferred) = rw done (err e, refl, tt)
  returned-Ends p o (ok ps, done, transferred) = rw done (
      if-Ends p (io.is_partial || ltb p.size (2 ^ 63 - 1)) _ _ (λ small. (ok ps, refl, transferred))
        (λ large. (_, refl, tt)))

  -- A read or a write of the whole range ends: with an exception, or with transfers that make up
  -- exactly the range, each no longer than its call asked for, however short the system's reads and
  -- writes are. A page and the bounce buffer are not empty, the system behaves as POSIX says, and the
  -- range ends below 2^64.
  pub posix_host_io-Ends :
      (p : Piece)
      → IsBounded p
      → (r : Result (List Piece)) × (posix_host_io io sys p ≡ some r) × Transfers io p r
  unfolding posix_host_io
  posix_host_io-Ends p b = returned-Ends p _ (host_loop-Ends p.size 0 p b (omega arith))
