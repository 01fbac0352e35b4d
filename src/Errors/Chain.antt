-- ===== src/Errors/Chain.antt =====
-- Go's error chains, over the error values of shared/errors/types.go: `errors.Is` and `errors.As`
-- follow `Unwrap`, which of an `AppError` is its cause; and the text that `Error` gives.
use re_master.Prelude.{ℕ, String, Bool, true, false, Option, none, some, List}
use re_master.Prelude.Text.{◌<>◌}
use re_master.Errors.Types.{
  Error, plain, wrapped, app, no_documents, redis_nil, write_exception, command_error, grpc_status,
  Cause, no_cause, caused, AppError,
}

abbrev or_else : {A : Type 0} → Option A → Option A → Option A
or_else none o = o
or_else (some a) o = some a

-- The first error of the chain that `test` takes. What a wrapper holds is looked at after it.
unfoldable mutual
  pub first : {A : Type 0} → (Error → Option A) → Error → Option A
  first test (wrapped p e) = or_else (test (wrapped p e)) (first test e)
  first test (app t c m cause s d) = or_else (test (app t c m cause s d)) (first_cause test cause)
  first test (plain m) = test (plain m)
  first test no_documents = test no_documents
  first test redis_nil = test redis_nil
  first test (write_exception codes) = test (write_exception codes)
  first test (command_error code) = test (command_error code)
  first test (grpc_status code m) = test (grpc_status code m)

  pub first_cause : {A : Type 0} → (Error → Option A) → Cause → Option A
  first_cause test no_cause = none
  first_cause test (caused e) = first test e

-- The type assertion `err.(*AppError)`, which looks at the outermost error only.
abbrev pub assert_app_error : Error → Option AppError
assert_app_error (app t c m cause s d) =
    some (record { type = t; code = c; message = m; cause = cause; status_code = s; details = d })
assert_app_error _ = none

-- `errors.As(err, &appErr)`
unfoldable pub as_app_error : Error → Option AppError
unfolding first
as_app_error e = first assert_app_error e

abbrev the_no_documents : Error → Option (Unit {0})
the_no_documents no_documents = some tt
the_no_documents _ = none

abbrev the_write_exception : Error → Option (List ℕ)
the_write_exception (write_exception codes) = some codes
the_write_exception _ = none

abbrev the_command_error : Error → Option ℕ
the_command_error (command_error code) = some code
the_command_error _ = none

abbrev pub is_some : {A : Type 0} → Option A → Bool
is_some none = false
is_some (some a) = true

-- `errors.Is(err, mongo.ErrNoDocuments)`
unfoldable pub is_no_documents : Error → Bool
unfolding first
is_no_documents e = is_some (first the_no_documents e)

-- The codes of the write errors, if `errors.As` finds a `mongo.WriteException`.
unfoldable pub as_write_exception : Error → Option (List ℕ)
unfolding first
as_write_exception e = first the_write_exception e

unfoldable pub as_command_error : Error → Option ℕ
unfolding first
as_command_error e = first the_command_error e

-- `err.Error()`; the texts of the libraries' errors are the argument `library_text`.
unfoldable mutual
  pub message : (Error → String) → Error → String
  message library_text (plain m) = m
  message library_text (wrapped p e) = p <> ": " <> message library_text e
  message library_text (app t c m cause s d) = with_cause library_text m cause
  message library_text no_documents = library_text no_documents
  message library_text redis_nil = library_text redis_nil
  message library_text (write_exception codes) = library_text (write_exception codes)
  message library_text (command_error code) = library_text (command_error code)
  message library_text (grpc_status code m) = library_text (grpc_status code m)

  pub with_cause : (Error → String) → String → Cause → String
  with_cause library_text m no_cause = m
  with_cause library_text m (caused e) = m <> ": " <> message library_text e
