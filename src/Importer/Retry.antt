-- ===== src/Importer/Retry.antt =====
-- `_extract_with_retry`: an inference server that fails is asked again, at most twice.
use attendence_v.Prelude.{ℕ, suc, zero, ◌≡◌, ◌≢◌, Option, none, some, arith}
use attendence_v.Templates.Gates.{Extraction, unavailable}

abbrev pub triton_max_retries : ℕ
triton_max_retries = 2

unfoldable pub after_attempt : Extraction → Option Extraction → Option Extraction
after_attempt unavailable again = again
after_attempt x again = some x

module _ (extract : ℕ → Extraction) where
  -- The loop with the retries that are left, at an attempt: none is ImportInfraError.
  unfoldable pub attempt_from : ℕ → ℕ → Option Extraction
  unfolding after_attempt
  attempt_from zero attempt = after_attempt (extract attempt) none
  attempt_from (suc left) attempt =
      after_attempt (extract attempt) (attempt_from left (suc attempt))

  unfoldable pub extract_with_retry : Option Extraction
  unfolding attempt_from
  extract_with_retry = attempt_from triton_max_retries 0

  -- The run is given up exactly when three attempts in a row find the server unavailable; else the
  -- result is that of the first attempt that does not, and no later attempt counts.
  pub extract_with_retry_lem :
      (extract_with_retry ≡ none
        → (extract 0 ≡ unavailable) × (extract 1 ≡ unavailable) × (extract 2 ≡ unavailable))
      × (extract 0 ≡ unavailable
          → extract 1 ≡ unavailable
          → extract 2 ≡ unavailable
          → extract_with_retry ≡ none)
      × (extract 0 ≢ unavailable → extract_with_retry ≡ some (extract 0))
      × (extract 0 ≡ unavailable → extract 1 ≢ unavailable → extract_with_retry ≡ some (extract 1))
      × (extract 0 ≡ unavailable
          → extract 1 ≡ unavailable
          → extract 2 ≢ unavailable
          → extract_with_retry ≡ some (extract 2))
  unfolding extract_with_retry attempt_from after_attempt
  extract_with_retry_lem = (ground arith, ground arith, ground arith, ground arith, ground arith)
