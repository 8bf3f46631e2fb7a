-- ===== src/Retry/Tests.antt =====
-- Runs of the retry loop, and an instance of what is proved of it.
use mailbox.Prelude.{ℕ, ◌≡◌, refl, Bool, true, false, none, some, ltb, if◌then◌else◌}
use mailbox.Retry.{ℤ, Reason, Outcome, Setting, apply_defaults, run_do, loop}
use mailbox.Retry.Attempts.{Account, run_do-Account}

-- The function fails with the number of the attempt until the third; the error 1 is final if `strict`.
abbrev flaky : Bool → Setting ℕ
flaky strict = record {
  ended_before = λ i. false;
  ended_during = λ i. false;
  fn = λ i. if ltb i 2 then some i else none;
  is_retryable = λ e. if strict then ltb e 1 else true;
}

succeeds_at_last : run_do (flaky false) (ℤ.pos 3) ≡ (Outcome.success, 3)
unfolding run_do loop apply_defaults
succeeds_at_last = refl

stops_at_final :
    run_do (flaky true) (ℤ.pos 3) ≡ (Outcome.retry_error (some 1) 2 Reason.not_retryable, 2)
unfolding run_do loop apply_defaults
stops_at_final = refl

never_retries :
    run_do (flaky false) (ℤ.negsuc 4) ≡ (Outcome.retry_error (some 0) 1 Reason.max_retries, 1)
unfolding run_do loop apply_defaults
never_retries = refl

run_do-Account_example :
    Account (flaky true) (apply_defaults (ℤ.pos 3)) (run_do (flaky true) (ℤ.pos 3))
run_do-Account_example = run_do-Account (flaky true) (ℤ.pos 3)
