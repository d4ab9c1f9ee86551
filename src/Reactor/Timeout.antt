-- ===== src/Reactor/Timeout.antt =====
-- How long a reactor may sleep.
use kvikio.Base.{ℕ, ◌+◌, ◌<◌, ◌≡◌, length, arith}
use kvikio.Reactor.{World}
use kvikio.Reactor.Admission.{PassOutcome}
use kvikio.Reactor.Completion.{poll_timeout_ms}

-- Slots that were freed in a pass are spent at once: while a retry waits or the queue is not empty
-- the reactor does not sleep after a completion.
pub spends_freed_slots :
    (now : ℕ) (o : PassOutcome) (completed : ℕ) (w : World)
    → 0 < completed
    → 0 < length w.reactor.pending + w.pool.queue_size_hint
    → poll_timeout_ms now o completed w ≡ 0
unfolding poll_timeout_ms
spends_freed_slots now o completed w done waiting = ground arith
