-- ===== src/Retry/Attempts.antt =====
-- How often Do calls its function, and what its result says of the calls.
use mailbox.Prelude.{
  ℕ, suc, zero, ◌+◌, ◌<◌, ◌≤◌, ◌≡◌, refl, Bool, true, false, ◌&&◌, Option, none, some, arith, ltb,
  Bool-cases, Option-cases, sym, inl, inr, ◌⊎◌, eqb, subst,
}
use mailbox.Retry.{
  ℤ, Reason, Outcome, Setting, apply_defaults, cancelled, attempt_once, loop, run_do,
}

module _ {E : Type 0} (c : Setting E) (max : ℕ) where
  -- An attempt that failed with an error that is to be retried
  abbrev pub is_transient : Option E → Bool
  is_transient none = false
  is_transient (some e) = c.is_retryable e

  abbrev pub Because : Reason → ℕ → Type 0
  Because Reason.max_retries n = (n ≡ max) × (is_transient (c.fn n) ≡ true)
  Because Reason.not_retryable n = (e : E) × (c.fn n ≡ some e) × (c.is_retryable e ≡ false)
  Because Reason.context_canceled n =
      (is_transient (c.fn n) ≡ true)
      × ((c.ended_during n ≡ true) × (n < max) ⊎ (c.ended_before (suc n) ≡ true))

  -- What a result says of the last call, which is the attempt `n`
  abbrev pub Ends : Outcome E → ℕ → Type 0
  Ends Outcome.success calls = (n : ℕ) × (calls ≡ suc n) × (c.fn n ≡ none)
  Ends Outcome.context_error calls = (calls ≡ 0) × (c.ended_before 0 ≡ true)
  Ends (Outcome.retry_error cause attempts why) calls =
      (n : ℕ) × (calls ≡ suc n) × (attempts ≡ calls) × (cause ≡ c.fn n) × Because why n

  -- The attempt `j` ran, and another one followed it.
  pub record Retried (j : ℕ) : Type 0 where
    pub live : c.ended_before j ≡ false
    pub transient : is_transient (c.fn j) ≡ true
    pub waited : c.ended_during j ≡ false

  pub record Account (r : Outcome E × ℕ) : Type 0 where
    pub bounded : r.1 ≤ max + 1
    pub retried : (j : ℕ) → j + 1 < r.1 → Retried j
    pub ends : Ends r.0 r.1

  abbrev pub last_error : ℕ → Option E
  last_error zero = none
  last_error (suc n) = c.fn n

  Account-cancelled :
      (attempt : ℕ)
      → attempt ≤ max
      → ((j : ℕ) → j < attempt → Retried j)
      → c.ended_before attempt ≡ true
      → Account (cancelled (last_error attempt) attempt, attempt)
  Account-cancelled zero low past stop = record {
    bounded = omega arith;
    retried = λ j h. past j (omega (arith, h));
    ends = (refl, stop);
  }
  Account-cancelled (suc n) low past stop = elim (Option-cases (c.fn n)) [
    | inl nil ↦ rw nil (record {
      bounded = omega (arith, low);
      retried = λ j h. past j (omega (arith, h));
      ends = absurd (ground (arith, nil, (past n (omega arith)).transient));
    })
    | inr (e, failed) ↦ rw failed (record {
      bounded = omega (arith, low);
      retried = λ j h. past j (omega (arith, h));
      ends = (n, refl, refl, sym failed, ((past n (omega arith)).transient, inr stop));
    })
  ]

  -- an attempt that is the last one, after transient failures
  Account-last :
      (n : ℕ) (o : Outcome E)
      → n ≤ max
      → ((j : ℕ) → j < n → Retried j)
      → Ends o (n + 1)
      → Account (o, n + 1)
  Account-last n o low past ends = record {
    bounded = omega (arith, low);
    retried = λ j h. past j (omega (arith, h));
    ends = ends;
  }

  -- What one attempt leads to
  data Next (n : ℕ) : Type 0 where
    last : (o : Outcome E) → attempt_once c max n (c.fn n) ≡ some o → Ends o (n + 1) → Next n
    more :
        attempt_once c max n (c.fn n) ≡ none
        → is_transient (c.fn n) ≡ true
        → (n < max → c.ended_during n ≡ false)
        → Next n

  Next-attempt : (n : ℕ) → Next n
  Next-attempt n = elim (Option-cases (c.fn n)) [
    | inl nil ↦ Next.last Outcome.success (rw nil refl) (n, omega arith, nil)
    | inr (e, failed) ↦ elim (Bool-cases (c.is_retryable e)) [
      | inr final ↦
          Next.last (Outcome.retry_error (some e) (n + 1) Reason.not_retryable)
            (ground (arith, failed, final)) (n, omega arith, refl, sym failed, (e, failed, final))
      | inl transient ↦ elim (Bool-cases (ltb n max && c.ended_during n)) [
        | inl ended ↦
            Next.last (Outcome.retry_error (some e) (n + 1) Reason.context_canceled)
              (ground (arith, failed, transient, ended))
              (
                n,
                omega arith,
                refl,
                sym failed,
                (
                  ground (arith, failed, transient),
                  inl (ground (arith, ended), ground (arith, ended)),
                ),
              )
        | inr waits ↦
            Next.more (ground (arith, failed, transient, waits)) (ground (arith, failed, transient))
              (λ h. ground (arith, waits, h))
      ]
    ]
  ]

  all_Retried :
      (n : ℕ) → ((j : ℕ) → j < n → Retried j) → Retried n → (j : ℕ) → j < suc n → Retried j
  all_Retried n past now j h = elim (Bool-cases (eqb j n)) [
    | inl same ↦ let e : j ≡ n = ground (arith, same) in subst Retried (sym e) now
    | inr other ↦ past j (ground (arith, other, h))
  ]

  -- After the attempt of the highest number none is left.
  last_attempt : (left n : ℕ) → suc left + n ≡ max + 1 → ltb n max ≡ false → left ≡ zero
  last_attempt left n all over = ground (arith, all, over)

  pub loop-Account :
      (left attempt : ℕ)
      → left + attempt ≡ max + 1
      → ((j : ℕ) → j < attempt → Retried j)
      → Account (loop c max left attempt (last_error attempt))
  unfolding loop
  loop-Account zero zero all past = record {
    bounded = omega (arith, all);
    retried = λ j h. omega (arith, all);
    ends = absurd (omega (arith, all));
  }
  loop-Account zero (suc n) all past = record {
    bounded = omega (arith, all);
    retried = λ j h. past j (omega (arith, h));
    ends =
        (n, refl, omega (arith, all), refl, (omega (arith, all), (past n (omega arith)).transient));
  }
  loop-Account (suc left) attempt all past = elim (Bool-cases (c.ended_before attempt)) [
    | inl stop ↦ rw (stop, loop) (Account-cancelled attempt (omega (arith, all)) past stop)
    | inr go ↦ elim (Next-attempt attempt) [
      | Next.last o e ends ↦
          rw (go, loop, e) (Account-last attempt o (omega (arith, all)) past ends)
      | Next.more e transient waits ↦ elim (Bool-cases (ltb attempt max)) [
        | inl again ↦
            rw (go, loop, e)
              (loop-Account left (suc attempt) (omega (arith, all)) (
                all_Retried attempt past (record {
                  live = go;
                  transient = transient;
                  waited = waits (ground (arith, again));
                })))
        | inr over ↦
            rw (go, loop, e, last_attempt left attempt all over)
              (record {
                bounded = omega (arith, all);
                retried = λ j h. past j (omega (arith, h));
                ends = (
                  attempt,
                  omega arith,
                  ground (arith, all, over),
                  refl,
                  (ground (arith, all, over), transient),
                );
              })
      ]
    ]
  ]

-- A call of Do ends after at most MaxRetries + 1 calls of its function (one, for a negative setting).
-- All calls but the last failed with an error that is to be retried, in a context that had not ended
-- before the call and did not end in the wait after it. The result is nil only when the last call
-- succeeded; a RetryError carries the error of the last call and the number of calls. It says that
-- the retries are used up only after MaxRetries + 1 calls of which the last failed with an error that
-- is to be retried, that an error is not to be retried only when the test on errors says so, and that
-- the context ended only when it did, in the wait after the last call or before the next one. The
-- context's own error is returned only when it ended before any call.
pub run_do-Account :
    {E : Type 0} (c : Setting E) (retries : ℤ)
    → Account c (apply_defaults retries) (run_do c retries)
unfolding run_do
run_do-Account c retries =
    loop-Account c (apply_defaults retries) (suc (apply_defaults retries)) 0 (omega arith)
      (λ j h. ground (arith, h))
