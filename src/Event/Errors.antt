-- ===== src/Event/Errors.antt =====
-- internal/event/errors.go: the errors of the worker, and which of them may be retried.
use raider_worker.Base.{
  Bool, Option, Text, false, if◌then◌else◌, is_some, none, some, text, true, ◌++◌,
}

-- A Go error: the three types of errors.go, an error of another package by its message, and
-- `fmt.Errorf` with `%w`, which puts a prefix before the error that it wraps.
pub data GoError : Type 0 where
  invalid_envelope : Text → GoError
  business_validation : Text → GoError
  unknown_event_type : Text → GoError
  message : Text → GoError
  wrapped : Text → GoError → GoError

-- What a fallible function returns.
pub data Result {ℓ} (A : Type ℓ) : Type ℓ where
  ok : A → Result A
  err : GoError → Result A

-- The `Error` methods.
unfoldable pub error_text : GoError → Text
error_text (invalid_envelope reason) = text "invalid envelope: " ++ reason
error_text (business_validation reason) = text "business validation: " ++ reason
error_text (unknown_event_type event_type) =
    text "no processor registered for event type: " ++ event_type
error_text (message m) = m
error_text (wrapped prefix e) = prefix ++ error_text e

-- errors.As(err, &envelope), which looks down the chain of wrapped errors.
unfoldable pub as_invalid_envelope : GoError → Option Text
as_invalid_envelope (invalid_envelope reason) = some reason
as_invalid_envelope (wrapped prefix e) = as_invalid_envelope e
as_invalid_envelope _ = none

unfoldable pub as_business_validation : GoError → Option Text
as_business_validation (business_validation reason) = some reason
as_business_validation (wrapped prefix e) = as_business_validation e
as_business_validation _ = none

unfoldable pub as_unknown_event_type : GoError → Option Text
as_unknown_event_type (unknown_event_type event_type) = some event_type
as_unknown_event_type (wrapped prefix e) = as_unknown_event_type e
as_unknown_event_type _ = none

-- `none` is the nil error.
unfoldable pub is_retriable : Option GoError → Bool
is_retriable none = false
is_retriable (some e) =
    if is_some (as_invalid_envelope e)
    then false
    else if is_some (as_business_validation e)
    then false
    else true

-- `t` is `e`, or is wrapped in it at some depth.
pub data Chain : GoError → GoError → Type 0 where
  here : (e : GoError) → Chain e e
  inner : (prefix : Text) {e t : GoError} → Chain e t → Chain (wrapped prefix e) t

-- The errors that go straight to the dead letter queue.
pub data IsFinal : GoError → Type 0 where
  envelope : (reason : Text) → IsFinal (invalid_envelope reason)
  business : (reason : Text) → IsFinal (business_validation reason)

abbrev pub FinalIn : GoError → Type 0
FinalIn e = (t : GoError) × Chain e t × IsFinal t
