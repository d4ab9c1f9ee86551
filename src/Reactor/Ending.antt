-- ===== src/Reactor/Ending.antt =====
-- When a reactor's thread ends, it leaves no transfer behind.
use kvikio.Base.{ℕ, ◌+◌, ◌≡◌, ◌∙◌, inl, inr, Option, none, List, Option-cases, Error, arith}
use kvikio.HttpRetry.{HttpRetryPolicy}
use kvikio.Reactor.{World, signal_death}
use kvikio.Reactor.Admission.{Env, admit_pending}
use kvikio.Reactor.Completion.{Message, reap_completions, fail_all_pending, die, first_of, io_round}
use kvikio.Reactor.Handover.{admit_pending-places}
use kvikio.Reactor.Conservation.{among, reported, places, signal_death-places}
use kvikio.Reactor.Resolution.{reap_completions-places, fail_all_pending-places}

module _ (i : ℕ) (env : Env) where
  emptied-places :
      (e : Error) (w : World)
      → reported i (fail_all_pending env e w).reports
          + among i (fail_all_pending env e w).pool.queue
        ≡ places i w
  unfolding fail_all_pending
  emptied-places e w = omega (arith, fail_all_pending-places i env e w)

  died-places :
      (e : Error) (w : World)
      → reported i (die env e w).reports + among i (die env e w).pool.queue ≡ places i w
  unfolding die
  died-places e w =
      let dead = signal_death e w in
      let kept = signal_death-places i e w in
      elim (Option-cases dead.pool.death_reason) [
        | inl alive ↦ rw (alive, die) (emptied-places e dead ∙ kept)
        | inr (reason, known) ↦ rw (known, die) (emptied-places reason dead ∙ kept)
      ]

  -- A round after which the thread does not poll but ends leaves nothing with the reactor: every
  -- transfer that was in its lists or reported is then reported or in the queue of the pool.
  pub io_round_ends :
      (policy : HttpRetryPolicy) (messages : List Message) (failures : Option Error × Option Error)
      (w : World)
      → (io_round env policy messages failures w).1 ≡ none
      → reported i (io_round env policy messages failures w).0.reports
          + among i (io_round env policy messages failures w).0.pool.queue
        ≡ places i w
  unfolding io_round
  io_round_ends policy messages failures w ends =
      let passed = admit_pending env w in
      let reaped = reap_completions env policy messages passed.world passed.pass.outcome 0 in
      let admission = admit_pending-places i env w in
      let completion =
        reap_completions-places i env policy messages passed.world passed.pass.outcome 0 in
      elim (Option-cases w.pool.death_reason) [
        | inr (reason, dead) ↦ rw (dead, io_round) (emptied-places reason w)
        | inl alive ↦ elim (Option-cases passed.thrown) [
          | inr (e, fails) ↦ rw (alive, fails, io_round) (died-places e passed.world ∙ admission)
          | inl fine ↦ elim (Option-cases failures.0) [
            | inr (e, fails) ↦
                rw (alive, fine, fails, io_round) (died-places e passed.world ∙ admission)
            | inl works ↦ elim (Option-cases (first_of reaped.thrown failures.1)) [
              | inr (e, fails) ↦
                  rw (alive, fine, works, fails, io_round)
                    (died-places e reaped.world ∙ completion ∙ admission)
              | inl clean ↦ absurd (ground arith)
            ]
          ]
        ]
      ]
