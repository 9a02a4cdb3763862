-- ===== src/Apperr/Samples.antt =====
-- The exit codes of internal/apperr/error.go at concrete errors.
use gitgit.Prelude.{◌≡◌, ◌≢◌, List, [], ◌∷◌}
use gitgit.Text.{Text, lit}
use gitgit.Apperr.{Failure, formatted, app_new, as_app_error, exit_code, error_details, exit_usage}
use gitgit.Apperr.Codes.{wrap_all, exit_code-wrap_all}

abbrev refusal : Failure
refusal = app_new (lit "invalid_limit") (formatted (lit "limit") []) exit_usage []

abbrev layers : List (Text × List Text)
layers = (lit "search: %w", []) ∷ []

exit_code-wrap_all_example :
    (exit_code (wrap_all layers refusal) ≢ 0)
    × (exit_code (wrap_all layers refusal) ≡ exit_code refusal)
    × (as_app_error (wrap_all layers refusal) ≡ as_app_error refusal)
    × ((error_details (wrap_all layers refusal)).0 ≡ (error_details refusal).0)
    × ((error_details (wrap_all layers refusal)).2 ≡ (error_details refusal).2)
exit_code-wrap_all_example = exit_code-wrap_all layers refusal
