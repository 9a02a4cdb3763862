-- ===== src/Helper/Dispatch.antt =====
-- internal/vscodehelper/server.go: `initialize`, and `handle`, which gives a request to its method.
pub mod Reading
use gitgit.Prelude.{
  ℕ, Bool, true, false, not, ◌&&◌, ◌||◌, Option, none, some, List, [], ◌∷◌, if◌then◌else◌, ℤ, ◌==◌,
}
use gitgit.Text.{Text, lit, text_eq, is_empty, contains, trim_space}
use gitgit.Apperr.{
  Failure, Message, plain_message, formatted, counted, error_message, Result, ok, err,
}
use gitgit.Helper.Rpc.{
  Answer, answered, refused, RpcError, rpc_error, GitInstallation, Host, Serve, answer, settle,
  attempt, ◌>>=◌, invalid_params, cancelled_error, code_invalid_params, code_not_implemented,
  code_method_not_found,
}
use gitgit.Helper.Params.{RepositoryParams, FileParams}
use gitgit.Helper.Refs.{Ref}
use gitgit.Helper.History.Commits.{HistoryCommit}
use gitgit.Helper.Discovery.{RepositoryDiscoverResult, discover_repository}
use gitgit.Helper.Handlers.{HistoryFileParams, list_refs, revision_content, file_history}
use gitgit.Helper.Handlers.Blame.{BlameLinesParams, BlameLinesResult, blame_lines}
use gitgit.Helper.Handlers.Diff.{DiffFileParams, DiffFileResult, diff_file}
use gitgit.Search.Patterns.{Regexp}
use gitgit.Helper.Progress.{ProgressParams}
use gitgit.Helper.SearchRun.{SearchRunParams}
use gitgit.Helper.SearchRun.Results.{SearchRunResult, search_and_report}
use gitgit.Helper.Server.{Json, JsonValue, json_string, json_number, json_other, Request}

-- `Methods`.
abbrev pub methods : List Text
methods =
    lit "initialize"
    ∷ lit "repository.discover"
    ∷ lit "refs.list"
    ∷ lit "blame.lines"
    ∷ lit "history.file"
    ∷ lit "search.run"
    ∷ lit "revision.content"
    ∷ lit "diff.file"
    ∷ []

-- `methodAllowed`.
unfoldable pub method_allowed : Text → Bool
method_allowed method = contains methods method

-- `GitDiagnostics`.
pub record GitDiagnostics : Type 0 where
  pub available : Bool
  pub version : Text
  pub executable : Text
  pub executable_source : Text
  pub problem : Option Message

-- The part of `InitializeResult` that is not a constant of the protocol.
pub record InitializeResult : Type 0 where
  pub protocol_version : ℕ
  pub methods : List Text
  pub notifications : List Text
  pub diagnostics : GitDiagnostics

-- The JSON of the params, as `json.Unmarshal` reads it; none for an error.
pub record Decoders : Type 0 where
  pub json : Json
  pub protocol_version : Text → Option Text
  pub is_one : Text → Bool
  pub discover_path : Text → Option Text
  pub repository : Text → Option RepositoryParams
  pub blame : Text → Option BlameLinesParams
  pub history : Text → Option HistoryFileParams
  pub content : Text → Option (FileParams × Text)
  pub search : Text → Option SearchRunParams
  pub diff : Text → Option DiffFileParams

-- `decodeObjectParams`: params that are absent or null are no object.
unfoldable pub decode_object_params {ℓ} : {A : Type ℓ} → (Text → Option A) → Text → Option A
decode_object_params unmarshal raw =
    if is_empty raw || text_eq (trim_space raw) (lit "null") then none else unmarshal raw

-- `parseProtocolVersion`, with none for an error; `is_one` is whether `strconv.ParseFloat` gives 1.
unfoldable pub parse_protocol_version : Decoders → Text → Option ℕ
parse_protocol_version d raw = if is_empty raw then none else elim (d.json.decode_value raw) [
  | some (json_number t) ↦ if d.is_one t then some 1 else none
  | some (json_string t) ↦ if text_eq t (lit "1") || text_eq t (lit "1.0") then some 1 else none
  | _ ↦ none
]

-- The version in the params of `initialize`, or the error of each test.
unfoldable pub requested_version : Decoders → Text → Answer ℕ
unfolding parse_protocol_version
requested_version d raw =
    if is_empty raw || text_eq (trim_space raw) (lit "null")
    then refused
        (invalid_params (lit "protocol_version_required") (lit "protocolVersion is required"))
    else elim (d.protocol_version raw) [
      | none ↦ refused (
          invalid_params (lit "invalid_initialize_params")
            (lit "initialize params must be an object"))
      | some version ↦ elim (parse_protocol_version d version) [
        | none ↦ refused (
            invalid_params (lit "invalid_protocol_version")
              (lit "protocolVersion must be 1 or \"1.0\""))
        | some n ↦
            if n == 1
            then answered n
            else refused (
                rpc_error code_invalid_params (lit "unsupported_protocol_version")
                  (counted (lit "unsupported protocolVersion %d") n))
      ]
    ]

-- The results of the methods.
pub data HandlerResult : Type 0 where
  initialized : InitializeResult → HandlerResult
  discovered : RepositoryDiscoverResult → HandlerResult
  listed : List Ref → HandlerResult
  blamed : BlameLinesResult → HandlerResult
  history : List HistoryCommit → HandlerResult
  content : Text → HandlerResult
  diffed : DiffFileResult → HandlerResult
  -- with the progress notifications, the last first
  searched : SearchRunResult → List ProgressParams → HandlerResult

abbrev initialize_result : GitDiagnostics → InitializeResult
initialize_result diagnostics = record {
  protocol_version = 1;
  methods = methods;
  notifications = lit "$/cancelRequest" ∷ lit "$/progress" ∷ [];
  diagnostics = diagnostics;
}

module _ (host : Host) (written : ℤ → ℤ → Text) (d : Decoders) where
  -- What the resolution of Git tells: an error is a part of the result, unless it is a cancellation.
  unfoldable pub git_diagnostics : Result GitInstallation → Serve GitDiagnostics
  git_diagnostics (ok i) log = (
    answered (record {
      available = true;
      version = i.version;
      executable = i.executable;
      executable_source = i.origin;
      problem = none;
    }),
    log,
  )
  git_diagnostics (err e) log = (
    if host.is_cancelled log || host.is_cancel_error e
        then refused cancelled_error
        else answered (record {
          available = false;
          version = [];
          executable = [];
          executable_source = [];
          problem = some (error_message e);
        }),
    log,
  )

  -- `initialize`.
  unfoldable pub initialize : Text → Serve InitializeResult
  unfolding requested_version git_diagnostics
  initialize raw = do
    version ← settle (requested_version d raw)
    installation ← attempt host.resolve_git
    diagnostics ← git_diagnostics installation
    answer (initialize_result diagnostics)

  abbrev sent {ℓ} : {A : Type ℓ} → (A → HandlerResult) → Serve A → Serve HandlerResult
  sent f m = m >>= λ a. answer (f a)

  -- The default of the switch.
  unfoldable pub unknown_method : Text → Answer HandlerResult
  unknown_method method =
      if method_allowed method
      then refused (
          rpc_error code_not_implemented (lit "method_not_implemented")
            (formatted (lit "method %q is not implemented in this helper slice") (method ∷ [])))
      else refused (
          rpc_error code_method_not_found (lit "method_not_found")
            (plain_message (lit "method not found")))

  -- `handle`, with what it does for `search.run`.
  unfoldable pub handle_with : (Text → Serve HandlerResult) → Request → Serve HandlerResult
  unfolding decode_object_params unknown_method initialize
  handle_with search r =
      if text_eq r.method (lit "initialize")
      then sent initialized (initialize r.params)
      else if text_eq r.method (lit "repository.discover")
      then sent discovered
          (discover_repository host (if is_empty r.params then none else d.discover_path r.params))
      else if text_eq r.method (lit "refs.list")
      then sent listed (list_refs host (decode_object_params d.repository r.params))
      else if text_eq r.method (lit "blame.lines")
      then sent blamed (blame_lines host written (decode_object_params d.blame r.params))
      else if text_eq r.method (lit "history.file")
      then sent history (file_history host (decode_object_params d.history r.params))
      else if text_eq r.method (lit "revision.content")
      then sent content (revision_content host (decode_object_params d.content r.params))
      else if text_eq r.method (lit "search.run")
      then search r.params
      else if text_eq r.method (lit "diff.file")
      then sent diffed (diff_file host (decode_object_params d.diff r.params))
      else settle (unknown_method r.method)

  -- The case of `search.run`.
  unfoldable pub handle_search : Regexp → (ℕ → Option Failure) → Text → Text → Serve HandlerResult
  unfolding search_and_report decode_object_params
  handle_search rx interrupted id params =
      search_and_report host rx interrupted id (decode_object_params d.search params) >>= λ found.
      answer (searched found.0 found.1)

  -- `handle`.
  unfoldable pub handle : Regexp → (ℕ → Option Failure) → Request → Serve HandlerResult
  unfolding handle_with handle_search
  handle rx interrupted r = handle_with (handle_search rx interrupted r.id) r
