-- ===== src/PosixIo/Device/Loop.antt =====
-- The loops over device memory, whatever a round does: they end, and the rounds add up.
use kvikio.Base.{
  ℕ, zero, suc, ◌≤◌, ◌<◌, ◌≡◌, ◌≢◌, ◌-◌, ◌^◌, ◌&&◌, ◌||◌, ltb, sym, ◌∙◌, refl, ==→eq, inl, inr,
  Bool, true, false, Option, some, List, [], ◌∷◌, ◌==◌, if◌then◌else◌, Bool-cases, ◌⊎◌, Result, ok,
  err, Error, cufile_exception, arith,
}
use kvikio.Pieces.{Piece, cut, advance, IsBounded, advance-IsAdvanced, advance-IsBounded}
use kvikio.PosixIo.{HostIo, Call, next_call, after_call, host_loop, returned, posix_host_io}
use kvikio.PosixIo.Alignment.{HasRoom, next_call-IsProgress}
use kvikio.PosixIo.Transfers.{IsPosix}
use kvikio.PosixIo.Device.{Machine, Outcome, Round, after_io, after_cuda, device_loop}

-- A read that may end early: what one call said, or an exception.
abbrev pub IsOneRead : HostIo → Piece → Option (Result (List Piece)) → Type 0
IsOneRead io p o =
    ((n : ℕ) × (0 < n)
      × (n ≤ p.size)
      × (n ≤ (next_call io p).count)
      × (o ≡ some (ok (cut p n ∷ []))))
    ⊎ ((e : Error) × (o ≡ some (err e)))

module _ (Done : Piece → Machine → Machine → Type 0) where
  -- An exception, or a machine on which the range is done.
  abbrev pub Ending : Piece → Machine → Result Machine → Type 0
  Ending p m (ok after) = Done p m after
  Ending p m (err e) = Unit

  abbrev pub Ends : Piece → Machine → Outcome → Type 0
  Ends p m o = (r : Result Machine) × (o ≡ some r) × Ending p m r

  pub after_one_read-Ends :
      (io : HostIo) (p from : Piece) (m : Machine) (o : Option (Result (List Piece)))
      (rest : List Piece → Outcome)
      → IsOneRead io from o
      → ((n : ℕ)
          → 0 < n
          → n ≤ from.size
          → n ≤ (next_call io from).count
          → Ends p m (rest (cut from n ∷ [])))
      → Ends p m (after_io o rest)
  after_one_read-Ends io p from m o rest (inl (n, pos, fits, asked, said)) later =
      rw said (later n pos fits asked)
  after_one_read-Ends io p from m o rest (inr (e, said)) later = rw said (err e, refl, tt)

  pub after_cuda-Ends :
      (p : Piece) (m : Machine) (r : Result (Unit {0})) (rest : Outcome)
      → Ends p m rest
      → Ends p m (after_cuda r rest)
  after_cuda-Ends p m (ok u) rest h = h
  after_cuda-Ends p m (err e) rest h = (err e, refl, tt)

  pub if-Ends :
      (p : Piece) (m : Machine) (b : Bool) (x y : Outcome)
      → (b ≡ true → Ends p m x)
      → (b ≡ false → Ends p m y)
      → Ends p m (if b then x else y)
  if-Ends p m true x y hx hy = hx refl
  if-Ends p m false x y hx hy = hy refl

  -- Each round does a first part of the range, at least a byte, and leaves the rest to what follows.
  abbrev pub IsRound : Round → Type 0
  IsRound body =
      (round : ℕ) (p : Piece) (m : Machine) (rest : ℕ → Machine → Outcome)
      → IsBounded p
      → 0 < p.size
      → ((n : ℕ) (after : Machine)
          → 0 < n
          → n ≤ p.size
          → Done (cut p n) m after
          → Ends p m (rest n after))
      → Ends p m (body round p m rest)

  module _
      (joins : (p : Piece) (n : ℕ) (m after final : Machine)
        → IsBounded p
        → n ≤ p.size
        → Done (cut p n) m after
        → Done (advance p n) after final
        → Done p m final)
      (nothing : (p : Piece) (m : Machine) → p.size ≡ 0 → Done p m m) (body : Round)
      (round_ends : IsRound body) where
    join-Ends :
        (p : Piece) (n : ℕ) (m after : Machine) (o : Outcome)
        → IsBounded p
        → n ≤ p.size
        → Done (cut p n) m after
        → Ends (advance p n) after o
        → Ends p m o
    join-Ends p n m after o b within done (ok final, ended, rest_done) =
        (ok final, ended, joins p n m after final b within done rest_done)
    join-Ends p n m after o b within done (err e, ended, rest_done) = (err e, ended, tt)

    pub device_loop-Ends :
        (fuel round : ℕ) (p : Piece) (m : Machine)
        → IsBounded p
        → p.size ≤ fuel
        → Ends p m (device_loop body fuel round p m)
    unfolding device_loop
    device_loop-Ends zero round p m b enough =
        let none_left : (p.size == 0) ≡ true = ground (arith, enough) in
        rw none_left (ok m, refl, nothing p m (omega (arith, enough)))
    device_loop-Ends (suc fuel) round p m b enough = elim (Bool-cases (p.size == 0)) [
      | inl h ↦ rw h (ok m, refl, nothing p m (==→eq p.size 0 h))
      | inr h ↦ rw h (
          round_ends round p m _ b (ground (arith, h)) (λ n after some_done within done.
            let a = advance-IsAdvanced p n b within in
            join-Ends p n m after _ b within done (
              device_loop-Ends fuel (suc round) (advance p n) after (advance-IsBounded p n b within)
                (omega (arith, a.size, some_done, enough)))))
    ]

if-IsOneRead :
    (io : HostIo) (p : Piece) (b : Bool) (x y : Option (Result (List Piece)))
    → (b ≡ true → IsOneRead io p x)
    → (b ≡ false → IsOneRead io p y)
    → IsOneRead io p (if b then x else y)
if-IsOneRead io p true x y hx hy = hx refl
if-IsOneRead io p false x y hx hy = hy refl

returned-IsOneRead :
    (io : HostIo) (p : Piece) (o : Option (Result (List Piece)))
    → io.is_partial ≡ true
    → IsOneRead io p o
    → IsOneRead io p (returned io p.size o)
returned-IsOneRead io p o part (inr (e, said)) = rw said (inr (e, refl))
returned-IsOneRead io p o part (inl (n, pos, fits, asked, said)) = rw said (
    if-IsOneRead io p (io.is_partial || ltb p.size (2 ^ 63 - 1)) _ _
      (λ fine. inl (n, pos, fits, asked, refl)) (λ large. absurd (ground (arith, part, large))))

after_call-IsOneRead :
    (io : HostIo) (p : Piece) (said : Result ℕ) (rest : ℕ → Option (Result (List Piece)))
    → io.is_read ≡ true
    → io.is_partial ≡ true
    → (next_call io p).count ≤ p.size
    → ((n : ℕ) → said ≡ ok n → n ≤ (next_call io p).count)
    → IsOneRead io p (after_call io p said rest)
unfolding after_call
after_call-IsOneRead io p (err e) rest reads part within fits = inr (e, refl)
after_call-IsOneRead io p (ok n) rest reads part within fits =
    if-IsOneRead io p (io.is_read && n == 0) _ _ (λ ended. inr (cufile_exception, refl))
      (λ going.
        if-IsOneRead io p io.is_partial _ _
          (λ one.
            let asked = fits n refl in
            inl (n, ground (arith, reads, going), omega (arith, asked, within), asked, refl))
          (λ whole. absurd (apart (sym part ∙ whole))))
  where
    apart : true ≢ false
    apart e = absurd (cc e)

pub partial_read-IsOneRead :
    (io : HostIo) (sys : ℕ → Call → Result ℕ) (p : Piece)
    → HasRoom io
    → IsPosix io sys
    → io.is_read ≡ true
    → io.is_partial ≡ true
    → 0 < p.size
    → IsOneRead io p (posix_host_io io sys p)
unfolding posix_host_io host_loop
partial_read-IsOneRead io sys p room posix reads part some_left =
    returned-IsOneRead io p _ part (first_round p.size some_left (ground (arith, some_left)))
  where
    first_round :
        (fuel : ℕ) → 0 < fuel → (p.size == 0) ≡ false → IsOneRead io p (host_loop io sys fuel 0 p)
    first_round zero h left = absurd (omega (arith, h))
    first_round (suc fuel) h left =
        let (pos, within) = next_call-IsProgress io p room some_left in
        rw left (
          after_call-IsOneRead io p (sys 0 (next_call io p)) _ reads part within
            (λ n said. posix.at_most 0 (next_call io p) n said))
