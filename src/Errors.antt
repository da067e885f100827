-- ===== src/Errors.antt =====
-- Go's `error` values: the sentinels that the program tests with `errors.Is`, opaque messages, and
-- wrapping by `fmt.Errorf("…: %w", err)`. A nil `error` is `none`.
use fraud_detection_scoring.Prelude.{String, Bool, true, false, Option, none, some}

pub data Sentinel : Type 0 where
  -- context.Canceled and context.DeadlineExceeded
  canceled deadline_exceeded : Sentinel
  -- gobreaker.ErrOpenState and gobreaker.ErrTooManyRequests
  open_state too_many_requests : Sentinel
  -- audit.ErrAlreadyExists
  already_exists : Sentinel
  -- auth.ErrNoToken, auth.ErrInvalidToken and auth.ErrExpired
  no_token invalid_token expired : Sentinel

pub data Error : Type 0 where
  sentinel : Sentinel → Error
  message : String → Error
  wrapped : String → Error → Error

abbrev pub same_sentinel : Sentinel → Sentinel → Bool
same_sentinel canceled canceled = true
same_sentinel deadline_exceeded deadline_exceeded = true
same_sentinel open_state open_state = true
same_sentinel too_many_requests too_many_requests = true
same_sentinel already_exists already_exists = true
same_sentinel no_token no_token = true
same_sentinel invalid_token invalid_token = true
same_sentinel expired expired = true
same_sentinel _ _ = false

-- `errors.Is`: the error or one that it wraps is the sentinel.
abbrev pub errors_is : Error → Sentinel → Bool
errors_is (sentinel s) t = same_sentinel s t
errors_is (message m) t = false
errors_is (wrapped m e) t = errors_is e t

-- A pair `(value, error)` whose value is read only if the error is nil.
pub data Result {ℓ} (A : Type ℓ) : Type ℓ where
  ok : A → Result A
  err : Error → Result A

-- The error of a result; nil if there is none.
abbrev pub error_of {ℓ} : {A : Type ℓ} → Result A → Option Error
error_of (ok a) = none
error_of (err e) = some e

-- `os.Exit(1)` after a log line, in place of what is built.
abbrev pub exit {ℓ} : {A : Type ℓ} → String → Result A
exit line = err (message line)
