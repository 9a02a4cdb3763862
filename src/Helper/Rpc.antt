-- ===== src/Helper/Rpc.antt =====
-- internal/vscodehelper/server.go and methods.go: the errors of a JSON-RPC request, what a request
-- may look at outside the program, and how it runs Git.
pub mod Offline
pub mod Inversion
use gitgit.Prelude.{
  ℕ, ◌*◌, Bool, true, false, ◌||◌, Option, none, some, List, [], ◌∷◌, if◌then◌else◌, ℤ, negsuc,
}
use gitgit.Text.{Text, lit}
use gitgit.Apperr.{Message, plain_message, error_message, Failure, Result, ok, err}
use gitgit.Git.{Git, Event, Exec, run_with_env}

-- `RPCError` with its `ErrorData`.
pub record RpcError : Type 0 where
  pub code : ℤ
  pub message : Message
  pub stable_code : Text

-- `negsuc n` is -(n + 1).
abbrev pub code_parse_error : ℤ
code_parse_error = negsuc 32_699

abbrev pub code_invalid_request : ℤ
code_invalid_request = negsuc 32_599

abbrev pub code_method_not_found : ℤ
code_method_not_found = negsuc 32_600

abbrev pub code_invalid_params : ℤ
code_invalid_params = negsuc 32_601

abbrev pub code_internal_error : ℤ
code_internal_error = negsuc 32_602

abbrev pub code_not_implemented : ℤ
code_not_implemented = negsuc 32_000

abbrev pub code_git_not_found : ℤ
code_git_not_found = negsuc 32_009

abbrev pub code_not_git_repository : ℤ
code_not_git_repository = negsuc 32_010

abbrev pub code_request_cancelled : ℤ
code_request_cancelled = negsuc 32_799

abbrev pub max_output_bytes : ℕ
max_output_bytes = 8 * 1024 * 1024

abbrev pub max_text_bytes : ℕ
max_text_bytes = 4 * 1024 * 1024

unfoldable pub rpc_error : ℤ → Text → Message → RpcError
rpc_error code stable_code message = record {
  code = code;
  message = message;
  stable_code = stable_code;
}

unfoldable pub cancelled_error : RpcError
unfolding rpc_error
cancelled_error =
    rpc_error code_request_cancelled (lit "request_cancelled")
      (plain_message (lit "request cancelled"))

abbrev pub invalid_params : Text → Text → RpcError
invalid_params stable_code text = record {
  code = code_invalid_params;
  message = plain_message text;
  stable_code = stable_code;
}

abbrev pub internal_error : Text → Text → RpcError
internal_error stable_code text = record {
  code = code_internal_error;
  message = plain_message text;
  stable_code = stable_code;
}

abbrev pub invalid_git_output : Message → RpcError
invalid_git_output message = record {
  code = code_internal_error;
  message = message;
  stable_code = lit "invalid_git_output";
}

-- A result of the helper: a value and a nil `*RPCError`, or an error.
pub data Answer {ℓ} (A : Type ℓ) : Type ℓ where
  answered : A → Answer A
  refused : RpcError → Answer A

pub record GitInstallation : Type 0 where
  pub executable : Text
  pub origin : Text
  pub version : Text

-- What `url.Parse` reads of an address.
pub record ParsedUrl : Type 0 where
  pub scheme : Text
  pub has_user : Bool
  pub host : Text
  pub host_name : Text
  pub port : Text
  pub path : Text
  pub raw_query : Text
  pub fragment : Text

-- What a request looks at outside the program: Git, whether its context is cancelled after those
-- events, whether an error is `context.Canceled`, the file system, `utf8.Valid`, `url.Parse` and the
-- escaped path of an address, and the field `resolveGit` of the server.
pub record Host : Type 0 where
  pub git : Git
  pub is_cancelled : List Event → Bool
  pub is_cancel_error : Failure → Bool
  pub working_directory : Option Text
  pub eval_symlinks : Text → Option Text
  pub is_directory : Text → Bool
  pub regular_file_size : Text → Option ℕ
  pub read_file : Text → Result Text
  pub valid_utf8 : Text → Bool
  pub parse_url : Text → Option ParsedUrl
  pub escaped_path : Text → Text
  pub resolve_git : Exec GitInstallation

-- A request in progress: it keeps the events, the last first.
abbrev pub Serve {ℓ} : Type ℓ → Type ℓ
Serve A = List Event → Answer A × List Event

module _ {ℓ} {A : Type ℓ} where
  unfoldable pub answer : A → Serve A
  answer a log = (answered a, log)

  unfoldable pub refuse : RpcError → Serve A
  refuse e log = (refused e, log)

  unfoldable pub settle : Answer A → Serve A
  settle a log = (a, log)

  abbrev pub settled :
      (List Event → Failure → RpcError) → Result A × List Event → Answer A × List Event
  settled on_error (ok a, log) = (answered a, log)
  settled on_error (err e, log) = (refused (on_error log e), log)

  -- Git is run, and an error of it ends the request; the context is looked at after the run.
  unfoldable pub or_refuse : Exec A → (List Event → Failure → RpcError) → Serve A
  or_refuse m on_error log = settled on_error (m log)

  -- Git is run, and the request goes on with its error as a value.
  unfoldable pub attempt : Exec A → Serve (Result A)
  attempt m log = let (r, log') = m log in (answered r, log')

module _ {ℓ κ} {A : Type ℓ} {B : Type κ} where
  abbrev pub next : Answer A → (A → Serve B) → Serve B
  next (answered a) f log = f a log
  next (refused e) f log = (refused e, log)

  infixl 10 ◌>>=◌
  unfoldable pub ◌>>=◌ : Serve A → (A → Serve B) → Serve B
  ◌>>=◌ m f log = let (r, log') = m log in next r f log'

infixl 10 ◌>>◌
abbrev pub ◌>>◌ {ℓ} : {B : Type ℓ} → Serve (Unit {0}) → Serve B → Serve B
m >> k = m >>= λ _. k

-- `if refused { return …, e }`.
unfoldable pub refuse_if : Bool → RpcError → Serve (Unit {0})
refuse_if b e log = (if b then refused e else answered tt, log)

-- `offlineGitEnvironment`.
abbrev pub offline_git_environment : List Text
offline_git_environment =
    lit "GIT_NO_LAZY_FETCH=1" ∷ lit "GIT_TERMINAL_PROMPT=0" ∷ lit "GIT_OPTIONAL_LOCKS=0" ∷ []

-- A parse error of Git's output.
abbrev pub parsed_or_refused {ℓ} : {A : Type ℓ} → Result A → Answer A
parsed_or_refused (ok a) = answered a
parsed_or_refused (err e) = refused (invalid_git_output (error_message e))

-- A root of the params, or the error of params that are no object.
abbrev pub given_params {ℓ} : {A : Type ℓ} → Text → Option A → Answer A
given_params code none = refused (invalid_params code (lit "params must be an object"))
given_params code (some a) = answered a

module _ (host : Host) where
  -- `gitCommandError`.
  unfoldable pub git_command_error : List Event → Failure → RpcError
  unfolding cancelled_error rpc_error
  git_command_error log e =
      if host.is_cancelled log || host.is_cancel_error e
      then cancelled_error
      else rpc_error code_internal_error (lit "git_error") (error_message e)

  -- An error of Git that a cancelled context explains, and what it means otherwise.
  abbrev pub cancelled_or : RpcError → List Event → Failure → RpcError
  cancelled_or e log failure = if host.is_cancelled log then cancelled_error else e

  -- `if ctx.Err() != nil { return …, cancelledError() }`.
  unfoldable pub refuse_if_cancelled : Serve (Unit {0})
  refuse_if_cancelled log =
      (if host.is_cancelled log then refused cancelled_error else answered tt, log)

  -- The same, where the last run of Git has failed.
  unfoldable pub refuse_failed_if_cancelled : Result Text → Serve (Unit {0})
  unfolding refuse_if_cancelled
  refuse_failed_if_cancelled (ok output) log = (answered tt, log)
  refuse_failed_if_cancelled (err e) log = refuse_if_cancelled log

  -- `runReadOnlyGit`.
  unfoldable pub run_read_only_git : Text → Option Text → List Text → Exec Text
  unfolding run_with_env
  run_read_only_git root stdin arguments =
      run_with_env host.git root stdin offline_git_environment arguments
