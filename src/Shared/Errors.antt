-- ===== src/Shared/Errors.antt =====
-- `IsCannotFindError`, `AlreadyExistsError` and `IsHandledErr` of shared/shared.go, without their
-- log lines.
use db_operator.Base.{codes, text_eq, Error, status, handled, Bool, true, false}

unfoldable pub is_cannot_find_error : Error → Bool
is_cannot_find_error (status reason) = text_eq reason (codes "NotFound")
is_cannot_find_error _ = false

unfoldable pub already_exists_error : Error → Bool
already_exists_error (status reason) = text_eq reason (codes "AlreadyExists")
already_exists_error _ = false

unfoldable pub is_handled_err : Error → Bool
is_handled_err (handled _) = true
is_handled_err _ = false
