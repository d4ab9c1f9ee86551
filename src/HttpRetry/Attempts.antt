-- ===== src/HttpRetry/Attempts.antt =====
-- The backoff and the verdict, and that `perform` ends within the attempts that the policy allows.
use kvikio.Base.{
  ℕ, zero, suc, ◌+◌, ◌-◌, ◌*◌, ◌^◌, ◌≤◌, ◌<◌, ◌≡◌, refl, ◌⊎◌, inl, inr, min, true, false, List, [],
  Option, some, ltb, leb, Bool-cases, lt→ltb, ◌==◌, ==→eq, Result, ok, err, runtime_error, arith,
}
use native.Mathlib.Nat.{pow-suc}
use kvikio.HttpRetry.{
  CurlCode, success, retry, fatal, exhausted, RetryOutcome, HttpRetryPolicy, make_policy,
  is_retryable, is_curle_ok, backoff_for, evaluate, Performed, after_verdict, perform_loop, perform,
}

pow2_step : (n : ℕ) → 2 ^ suc n ≡ 2 * 2 ^ n
pow2_step n = omega (arith, pow-suc 2 n)

pow2_large : (n : ℕ) → 4 ≤ n → 16 ≤ 2 ^ n
pow2_large zero h = absurd (omega arith)
pow2_large (suc n) h = elim (Bool-cases (ltb n 4)) [
  | inl small ↦ let last : n ≡ 3 = ground arith in rw last (omega arith)
  | inr large ↦ omega (arith, pow2_step n, pow2_large n (ground arith))
]

-- The delay doubles from 500 ms with each attempt until it stays at 4000 ms: the cap on the shift
-- in the code changes nothing.
pub backoff_for_doubles :
    (policy : HttpRetryPolicy) (max_attempts : ℕ) (codes : List ℕ) (n : ℕ)
    → make_policy max_attempts codes ≡ ok policy
    → backoff_for policy (n + 1) ≡ min 4000 (500 * 2 ^ n)
unfolding make_policy backoff_for
backoff_for_doubles policy max_attempts codes n h =
    let base : policy.base_delay_ms ≡ 500 = ground arith in
    let top : policy.max_delay_ms ≡ 4000 = ground arith in
    rw (base, top)
      (elim (Bool-cases (ltb n 4)) [
        | inl small ↦ let e : min (n + 1 - 1) 4 ≡ n = ground arith in rw e refl
        | inr large ↦
            let e : min (n + 1 - 1) 4 ≡ 4 = ground arith in
            rw e (omega (arith, pow2_large n (ground arith)))
      ])

-- The four verdicts, each with what it says of the attempt.
pub data Verdict (policy : HttpRetryPolicy) (curl_code : CurlCode) (status attempt : ℕ)
    (v : RetryOutcome) : Type 0 where
  succeeds :
      is_curle_ok curl_code ≡ true
      → v.decision ≡ success
      → Verdict policy curl_code status attempt v
  fails :
      is_curle_ok curl_code ≡ false
      → is_retryable policy curl_code status ≡ false
      → v.decision ≡ fatal
      → Verdict policy curl_code status attempt v
  gives_up :
      is_curle_ok curl_code ≡ false
      → is_retryable policy curl_code status ≡ true
      → policy.max_attempts ≤ attempt
      → v.decision ≡ exhausted
      → Verdict policy curl_code status attempt v
  retries :
      is_curle_ok curl_code ≡ false
      → is_retryable policy curl_code status ≡ true
      → attempt < policy.max_attempts
      → v.decision ≡ retry
      → v.delay_ms ≡ backoff_for policy attempt
      → Verdict policy curl_code status attempt v

evaluate-Verdict :
    (policy : HttpRetryPolicy) (curl_code : CurlCode) (status attempt : ℕ) (text prefix : List ℕ)
    → 0 < attempt
    → (v : RetryOutcome) × (evaluate policy curl_code status attempt text prefix ≡ ok v)
      × Verdict policy curl_code status attempt v
unfolding evaluate
evaluate-Verdict policy curl_code status attempt text prefix pos =
    rw (lt→ltb 0 attempt pos) (elim (Bool-cases (is_curle_ok curl_code)) [
      | inl done ↦ rw done (_, refl, succeeds done refl)
      | inr failed ↦ rw failed (elim (Bool-cases (is_retryable policy curl_code status)) [
        | inr final ↦ rw final (_, refl, fails failed final refl)
        | inl again ↦ rw again (elim (Bool-cases (leb policy.max_attempts attempt)) [
          | inl spent ↦ rw spent (_, refl, gives_up failed again (ground arith) refl)
          | inr left ↦ rw left (_, refl, retries failed again (ground arith) refl refl)
        ])
      ])
    ])

backoff_for-le : (policy : HttpRetryPolicy) (n : ℕ) → backoff_for policy n ≤ policy.max_delay_ms
unfolding backoff_for
backoff_for-le policy n = omega arith

module _ (policy : HttpRetryPolicy) (report : ℕ → CurlCode × ℕ) where
  -- An attempt that failed in a way worth retrying.
  abbrev pub IsRetried : ℕ → Type 0
  IsRetried k =
      (is_curle_ok (report k).0 ≡ false) × (is_retryable policy (report k).0 (report k).1 ≡ true)

  -- How a run that began at `attempt` has ended.
  pub record Ends (attempt retries slept_ms : ℕ) (p : Performed) : Type 0 where
    pub within : p.attempts ≤ policy.max_attempts
    pub forward : attempt ≤ p.attempts
    pub one_retry_each : p.attempts + retries ≡ p.retries + attempt
    pub slept : p.slept_ms ≤ slept_ms + policy.max_delay_ms * (p.attempts - attempt)
    pub retried : (k : ℕ) → attempt ≤ k → k < p.attempts → IsRetried k
    pub outcome :
        ((is_curle_ok (report p.attempts).0 ≡ true) × (p.ending ≡ ok tt))
        ⊎ ((is_curle_ok (report p.attempts).0 ≡ false)
            × (p.ending ≡ err runtime_error)
            × ((is_retryable policy (report p.attempts).0 (report p.attempts).1 ≡ false)
                ⊎ (p.attempts ≡ policy.max_attempts)))

  Ends-now :
      (attempt n slept_ms : ℕ) (ending : Result (Unit {0}))
      → attempt ≤ policy.max_attempts
      → (((is_curle_ok (report attempt).0 ≡ true) × (ending ≡ ok tt))
          ⊎ ((is_curle_ok (report attempt).0 ≡ false)
              × (ending ≡ err runtime_error)
              × ((is_retryable policy (report attempt).0 (report attempt).1 ≡ false)
                  ⊎ (attempt ≡ policy.max_attempts))))
      → Ends attempt n slept_ms
          (record { attempts = attempt; retries = n; slept_ms = slept_ms; ending = ending })
  Ends-now attempt n slept_ms ending fits how = record {
    within = fits;
    forward = omega arith;
    one_retry_each = omega arith;
    slept = omega arith;
    retried = λ k low high. absurd (omega arith);
    outcome = how;
  }

  Ends-later :
      (attempt n slept_ms delay : ℕ) (p : Performed)
      → delay ≤ policy.max_delay_ms
      → IsRetried attempt
      → Ends (attempt + 1) (n + 1) (slept_ms + delay) p
      → Ends attempt n slept_ms p
  Ends-later attempt n slept_ms delay p short here e = record {
    within = e.within;
    forward = omega (arith, e.forward);
    one_retry_each = omega (arith, e.one_retry_each);
    slept =
        let longer : p.attempts - attempt ≡ p.attempts - (attempt + 1) + 1 =
          omega (arith, e.forward) in
        rw longer (omega (arith, e.slept));
    retried = λ k low high. elim (Bool-cases (attempt == k)) [
      | inl same ↦ rw (← ==→eq attempt k same) here
      | inr later ↦ e.retried k (ground arith) high
    ];
    outcome = e.outcome;
  }

  Verdict-Ends :
      (attempt n slept_ms : ℕ) (again : ℕ → Option Performed) (v : RetryOutcome)
      → attempt ≤ policy.max_attempts
      → ((delay : ℕ)
          → delay ≤ policy.max_delay_ms
          → attempt < policy.max_attempts
          → (p : Performed) × (again delay ≡ some p)
            × Ends (attempt + 1) (n + 1) (slept_ms + delay) p)
      → Verdict policy (report attempt).0 (report attempt).1 attempt v
      → (p : Performed) × (after_verdict attempt n slept_ms again v ≡ some p)
        × Ends attempt n slept_ms p
  Verdict-Ends attempt n slept_ms again v fits rest (succeeds good d) =
      rw (d, after_verdict) (_, refl, Ends-now attempt n slept_ms _ fits (inl (good, refl)))
  Verdict-Ends attempt n slept_ms again v fits rest (fails bad final d) =
      rw (d, after_verdict)
        (_, refl, Ends-now attempt n slept_ms _ fits (inr (bad, refl, inl final)))
  Verdict-Ends attempt n slept_ms again v fits rest (gives_up bad worth spent d) =
      rw (d, after_verdict)
        (_, refl, Ends-now attempt n slept_ms _ fits (inr (bad, refl, inr (omega arith))))
  Verdict-Ends attempt n slept_ms again v fits rest (retries bad worth left d wait) =
      let short : v.delay_ms ≤ policy.max_delay_ms = rw wait (backoff_for-le policy attempt) in
      let (p, done, e) = rest v.delay_ms short left in
      rw (d, after_verdict)
        (p, done, Ends-later attempt n slept_ms v.delay_ms p short (bad, worth) e)

  perform_loop-Ends :
      (text : ℕ → List ℕ) (fuel attempt n slept_ms : ℕ)
      → 0 < attempt
      → attempt ≤ policy.max_attempts
      → attempt + fuel ≡ policy.max_attempts + 1
      → (p : Performed) × (perform_loop policy report text fuel attempt n slept_ms ≡ some p)
        × Ends attempt n slept_ms p
  unfolding perform_loop
  perform_loop-Ends text zero attempt n slept_ms pos fits enough = absurd (omega arith)
  perform_loop-Ends text (suc fuel) attempt n slept_ms pos fits enough =
      let (v, said, verdict) =
        evaluate-Verdict policy (report attempt).0 (report attempt).1 attempt (text attempt) []
          pos in
      rw (said, perform_loop)
        (Verdict-Ends attempt n slept_ms
          (λ delay. perform_loop policy report text fuel (attempt + 1) (n + 1) (slept_ms + delay)) v
          fits
          (λ delay short left.
            perform_loop-Ends text fuel (attempt + 1) (n + 1) (slept_ms + delay) (omega arith)
              (omega arith) (omega arith))
          verdict)

  -- With at least one attempt allowed, `perform` ends: after at most `max_attempts` attempts, with
  -- one `on_retry` between two of them, having slept at most the largest delay for each retry. Every
  -- attempt but the last failed and was worth a retry; the call returns exactly if the last one
  -- succeeded, and it throws otherwise, since its failure is final or the attempts are spent.
  pub perform-Ends :
      (text : ℕ → List ℕ)
      → 0 < policy.max_attempts
      → (p : Performed) × (perform policy report text ≡ some p) × Ends 1 0 0 p
  unfolding perform
  perform-Ends text pos =
      perform_loop-Ends text policy.max_attempts 1 0 0 (omega arith) pos (omega arith)
