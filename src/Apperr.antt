-- ===== src/Apperr.antt =====
-- internal/apperr/error.go, and the other errors that the modelled code returns: those of
-- `errors.New` and `fmt.Errorf`, and `CommandError` of internal/gitexec/runner.go. An error
-- message is kept as its format and its arguments, before fmt renders it.
pub mod Codes
mod Samples
use gitgit.Prelude.{
  ℕ, zero, ◌≡◌, refl, Bool, true, false, Option, none, some, List, [], ◌∷◌, ◌==◌, if◌then◌else◌,
}
use gitgit.Text.{Text, lit, is_empty, trim_space}

pub data Message : Type 0 where
  -- a format and its arguments
  formatted : Text → List Text → Message
  -- a format and a number
  counted : Text → ℕ → Message
  -- the same, with the message of the error that %w wraps
  wrapping : Text → List Text → Message → Message

abbrev pub plain_message : Text → Message
plain_message text = formatted text []

-- `e.Message != ""`; a format of this program with arguments has text of its own.
unwritten : Message → Bool
unwritten (formatted format arguments) = is_empty format
unwritten (counted format n) = false
unwritten (wrapping format arguments m) = false

-- A value of the map `Details`.
pub data Detail : Type 0 where
  text : Text → Detail
  texts : List Text → Detail
  number : ℕ → Detail

abbrev pub Details : Type 0
Details = List (Text × Detail)

pub data Failure : Type 0 where
  -- `errors.New`, and `fmt.Errorf` with no %w
  plain : Message → Failure
  -- `fmt.Errorf` with %w
  wrapped : Text → List Text → Failure → Failure
  -- the error of a Git command that was run: its stderr, and the message of the exec error
  command : Text → Text → Failure
  -- `apperr.New`: code, message, exit code
  app_new : Text → Message → ℕ → Details → Failure
  -- `apperr.Wrap`
  app_wrap : Text → Message → ℕ → Failure → Details → Failure

abbrev pub exit_failure : ℕ
exit_failure = 1

abbrev pub exit_usage : ℕ
exit_usage = 2

abbrev pub exit_precondition : ℕ
exit_precondition = 3

abbrev pub exit_confirmation : ℕ
exit_confirmation = 4

-- `Error()` of each error.
pub error_message : Failure → Message
unfolding unwritten
error_message (plain m) = m
error_message (wrapped format arguments e) = wrapping format arguments (error_message e)
error_message (command stderr exec) =
    let message = trim_space stderr in plain_message (if is_empty message then exec else message)
error_message (app_new code m exit details) = if unwritten m then plain_message code else m
error_message (app_wrap code m exit e details) =
    let inner = error_message e in if unwritten m then inner else m

-- What `errors.As` finds: the outermost `*apperr.Error` of the chain.
pub record AppError : Type 0 where
  pub code : Text
  pub message : Message
  pub exit : ℕ
  pub details : Details

unfoldable pub as_app_error : Failure → Option AppError
as_app_error (plain m) = none
as_app_error (wrapped format arguments e) = as_app_error e
as_app_error (command stderr exec) = none
as_app_error (app_new code m exit details) = some (record {
  code = code;
  message = error_message (app_new code m exit details);
  exit = exit;
  details = details;
})
as_app_error (app_wrap code m exit e details) = some (record {
  code = code;
  message = error_message (app_wrap code m exit e details);
  exit = exit;
  details = details;
})

exit_of : Option AppError → ℕ
exit_of none = exit_failure
exit_of (some e) = if e.exit == 0 then exit_failure else e.exit

-- `ExitCode`.
unfoldable pub exit_code : Failure → ℕ
unfolding exit_of
exit_code e = exit_of (as_app_error e)

details_of : Message → Option AppError → Text × Message × Details
details_of shown none = (lit "internal_error", shown, [])
details_of shown (some e) = (e.code, e.message, e.details)

-- `Details`.
unfoldable pub error_details : Failure → Text × Message × Details
unfolding details_of error_message
error_details e = details_of (error_message e) (as_app_error e)

pub data Result {ℓ} (A : Type ℓ) : Type ℓ where
  ok : A → Result A
  err : Failure → Result A

module _ {ℓ κ} {A : Type ℓ} {B : Type κ} where
  infixl 10 ◌>>=◌
  -- `if err != nil { return …, err }`.
  abbrev pub ◌>>=◌ : Result A → (A → Result B) → Result B
  ◌>>=◌ (err failure) next = err failure
  ◌>>=◌ (ok value) next = next value

  pub >>=-eq-ok :
      (first : Result A) (next : A → Result B) {b : B}
      → (first >>= next) ≡ ok b
      → (value : A) × (first ≡ ok value) × (next value ≡ ok b)
  >>=-eq-ok (err failure) next h = cc
  >>=-eq-ok (ok value) next h = (value, refl, h)

infixl 10 ◌>>◌
-- An early return of an error under a test.
abbrev pub ◌>>◌ {ℓ} : {B : Type ℓ} → Result (Unit {0}) → Result B → Result B
◌>>◌ check rest = ◌>>=◌ check (λ done. rest)

abbrev pub refuse_if : Bool → Failure → Result (Unit {0})
refuse_if refused failure = if refused then err failure else ok tt

abbrev pub usage_error : Text → Text → Failure
usage_error code message = app_new code (plain_message message) exit_usage []

pub ok_eq {ℓ} : {A : Type ℓ} {a b : A} → ok a ≡ ok b → a ≡ b
ok_eq h = cc
