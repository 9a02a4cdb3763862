-- ===== src/Apperr/Codes.antt =====
-- The exit code and the stable code that internal/apperr/error.go reports for an error.
use gitgit.Prelude.{◌≡◌, ◌≢◌, refl, Option, none, some, List, [], ◌∷◌, arith}
use gitgit.Text.{Text}
use gitgit.Apperr.{
  Message, Failure, wrapped, AppError, as_app_error, exit_of, exit_code, error_details, details_of,
}

-- The messages of `fmt.Errorf` around an error, outermost first.
abbrev pub wrap_all : List (Text × List Text) → Failure → Failure
wrap_all [] e = e
wrap_all ((format, arguments) ∷ ms) e = wrapped format arguments (wrap_all ms e)

as_app_error-wrap_all :
    (ms : List (Text × List Text)) (e : Failure) → as_app_error (wrap_all ms e) ≡ as_app_error e
unfolding as_app_error
as_app_error-wrap_all [] e = refl
as_app_error-wrap_all ((format, arguments) ∷ ms) e = as_app_error-wrap_all ms e

exit_of-ne-zero : (o : Option AppError) → exit_of o ≢ 0
unfolding exit_of
exit_of-ne-zero none = ground arith
exit_of-ne-zero (some e) = ground arith

details_of-code :
    (shown shown' : Message) (o : Option AppError)
    → ((details_of shown o).0 ≡ (details_of shown' o).0)
      × ((details_of shown o).2 ≡ (details_of shown' o).2)
unfolding details_of
details_of-code shown shown' none = (refl, refl)
details_of-code shown shown' (some a) = (refl, refl)

-- Whatever the error, `ExitCode` of it is not zero, and layers of `fmt.Errorf` with %w around it
-- change neither its exit code, nor the application error that is found in it, if any, nor the
-- stable code and the details that `Details` reports.
pub exit_code-wrap_all :
    (ms : List (Text × List Text)) (e : Failure)
    → (exit_code (wrap_all ms e) ≢ 0)
      × (exit_code (wrap_all ms e) ≡ exit_code e)
      × (as_app_error (wrap_all ms e) ≡ as_app_error e)
      × ((error_details (wrap_all ms e)).0 ≡ (error_details e).0)
      × ((error_details (wrap_all ms e)).2 ≡ (error_details e).2)
unfolding exit_code error_details
exit_code-wrap_all ms e = (
  exit_of-ne-zero (as_app_error (wrap_all ms e)),
  rw as_app_error-wrap_all,
  as_app_error-wrap_all ms e,
  rw as_app_error-wrap_all (details_of-code _ _ (as_app_error e)).0,
  rw as_app_error-wrap_all (details_of-code _ _ (as_app_error e)).1,
)
