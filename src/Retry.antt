-- ===== src/Retry.antt =====
-- retry/retry.go: the loop of Do. The context, the function that is retried and the test on its errors
-- are parameters, by the number of the attempt; how long a wait lasts is not modelled, since only
-- whether the context ends during it matters to the result.
pub mod Attempts
mod Tests
use mailbox.Prelude.{
  ℕ, suc, zero, ◌+◌, Bool, true, false, not, Option, none, some, ltb, if◌then◌else◌,
}

-- The integers, for MaxRetries; `negsuc n` is -(n + 1).
pub data ℤ : Type 0 where
  pos negsuc : ℕ → ℤ

-- The sentinel errors
pub data Reason : Type 0 where
  max_retries not_retryable context_canceled : Reason

-- What Do returns: nil, the context's own error, or a RetryError; its cause is nil for no attempt.
pub data Outcome (E : Type 0) : Type 0 where
  success context_error : Outcome E
  retry_error : Option E → ℕ → Reason → Outcome E

-- applyDefaults, for MaxRetries
unfoldable pub apply_defaults : ℤ → ℕ
apply_defaults (ℤ.pos n) = n
apply_defaults (ℤ.negsuc _) = 0

-- What surrounds a call of Do: whether ctx.Err() is set before an attempt, whether the context ends
-- during the wait after an attempt, what the function returns in it, and IsRetryable
pub record Setting (E : Type 0) : Type 0 where
  pub ended_before : ℕ → Bool
  pub ended_during : ℕ → Bool
  pub fn : ℕ → Option E
  pub is_retryable : E → Bool

abbrev pub cancelled : {E : Type 0} → Option E → ℕ → Outcome E
cancelled none attempt = Outcome.context_error
cancelled (some e) attempt = Outcome.retry_error (some e) attempt Reason.context_canceled

module _ {E : Type 0} (c : Setting E) (max : ℕ) where
  -- What an attempt leads to: the end, or another attempt after its error
  abbrev pub attempt_once : ℕ → Option E → Option (Outcome E)
  attempt_once attempt none = some Outcome.success
  attempt_once attempt (some e) =
      if not (c.is_retryable e)
      then some (Outcome.retry_error (some e) (attempt + 1) Reason.not_retryable)
      else if ltb attempt max
      then (if c.ended_during attempt
          then some (Outcome.retry_error (some e) (attempt + 1) Reason.context_canceled)
          else none)
      else none

  -- The loop: how many attempts are left, the number of the next, and lastErr; beside the result, how
  -- often the function was called
  unfoldable pub loop : ℕ → ℕ → Option E → Outcome E × ℕ
  loop zero attempt last_err = (Outcome.retry_error last_err (max + 1) Reason.max_retries, attempt)
  loop (suc left) attempt last_err = elim (c.ended_before attempt) [
    | true ↦ (cancelled last_err attempt, attempt)
    | false ↦ elim (attempt_once attempt (c.fn attempt)) [
      | some o ↦ (o, attempt + 1)
      | none ↦ loop left (suc attempt) (c.fn attempt)
    ]
  ]

-- Do
unfoldable pub run_do : {E : Type 0} → Setting E → ℤ → Outcome E × ℕ
unfolding loop apply_defaults
run_do c retries = let max = apply_defaults retries in loop c max (suc max) 0 none
