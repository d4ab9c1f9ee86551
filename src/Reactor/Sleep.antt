-- ===== src/Reactor/Sleep.antt =====
-- How long the poll of a round of the I/O thread lasts, and the deadlines of the retries.
use kvikio.Base.{ℕ, ◌+◌, ◌*◌, ◌≤◌, ◌<◌, ◌≡◌, ◌⊎◌}
use kvikio.Reactor.{Transfer}
use kvikio.Reactor.Admission.{PassOutcome}
use kvikio.Reactor.Wakeup.{IsDue}

-- After a sleep of `ms` milliseconds at most a deadline is missed by less than a millisecond.
abbrev pub IsInTime : ℕ → ℕ → Transfer → Type 0
IsInTime now ms t = now < t.ready_at → now + ms * 1000000 < t.ready_at + 1000000

-- A sleep that is short, but is one, does not end before a deadline that was recorded.
abbrev pub IsWorthwhile : ℕ → ℕ → PassOutcome → Type 0
IsWorthwhile now ms o = (ms ≡ 0) ⊎ ((10 ≤ ms) ⊎ IsDue (now + ms * 1000000) o)
