-- ===== src/Helper/Handlers/Blame.antt =====
-- internal/vscodehelper/methods.go: `blame.lines`.
use gitgit.Prelude.{
  ℕ, ◌+◌, ◌-◌, ◌*◌, Bool, true, false, not, ◌||◌, Option, none, some, List, [], ◌∷◌, ◌++◌, ltb,
  ◌==◌, length, if◌then◌else◌, ℤ, pos,
}
use gitgit.Text.{Text, lit, is_empty, trim_space, join}
use gitgit.Text.Numbers.{show_number}
use gitgit.Apperr.{Failure, Result, ok, err, error_message}
use gitgit.Git.{Event}
use gitgit.Git.Repository.{run_with_env_limit}
use gitgit.Helper.Rpc.{
  Answer, answered, refused, RpcError, rpc_error, Host, Serve, answer, settle, or_refuse, attempt,
  ◌>>=◌, ◌>>◌, refuse_if, internal_error, invalid_params, given_params, parsed_or_refused,
  cancelled_error, cancelled_or, run_read_only_git, offline_git_environment, code_internal_error,
}
use gitgit.Helper.Params.{FileParams}
use gitgit.Helper.Revision.{
  resolve_revision, ensure_revision_file, read_revision_blob, refuse_some, validate_text,
  text_line_count, literal_pathspec,
}
use gitgit.Helper.Paths.{read_working_tree_file}
use gitgit.Helper.Blame.{BlameLine, Metadata, blamed_commits, blame_metadata, parse_line_porcelain}
use gitgit.Helper.Handlers.{locate}

pub record BlameLinesParams : Type 0 where
  pub file_params : FileParams
  pub start_line : ℤ
  pub end_line : ℤ
  pub revision : Text
  pub contents : Option Text
  pub ignore_whitespace : Bool

pub record BlameLinesResult : Type 0 where
  pub lines : List BlameLine
  pub commit_metadata : Metadata

-- The lines that are asked for: at least one and at most 2000, from 1 on.
abbrev pub max_blame_lines : ℕ
max_blame_lines = 2_000

abbrev refused_range : Answer (ℕ × ℕ)
refused_range = refused (
    invalid_params (lit "invalid_line_range")
      (lit "line range must be 1-based, inclusive, and at most %d lines"))

unfoldable pub line_range : ℤ → ℤ → Answer (ℕ × ℕ)
line_range (pos first) (pos last) =
    if ltb first 1 || ltb last first || ltb max_blame_lines (last - first + 1)
    then refused_range
    else answered (first, last)
line_range _ _ = refused_range

unfoldable pub blame_args : Text → ℕ → ℕ → Bool → Bool → Text → List Text
blame_args path first last ignore_whitespace has_contents revision =
    lit "blame"
    ∷ lit "--line-porcelain"
    ∷ lit "-L"
    ∷ (show_number first ++ b',' ∷ show_number last)
    ∷ ((if ignore_whitespace then lit "-w" ∷ [] else [])
        ++ ((if has_contents then lit "--contents" ∷ lit "-" ∷ [] else [])
            ++ ((if is_empty revision then [] else revision ∷ []) ++ (lit "--" ∷ path ∷ []))))

abbrev is_given : Option Text → Bool
is_given none = false
is_given (some t) = true

module _ (host : Host) (written : ℤ → ℤ → Text) where
  -- The revision of the params as an object id, or "" for the working tree, where the file must be
  -- tracked.
  unfoldable pub blamed_revision : Text → Text → Text → Serve Text
  blamed_revision root path revision = elim (is_empty (trim_space revision)) [
    | false ↦ resolve_revision host root revision >>= λ resolved.
        ensure_revision_file host root resolved path >>= λ _. answer resolved
    | true ↦
        or_refuse
          (run_read_only_git host root none
            (lit "ls-files" ∷ lit "--error-unmatch" ∷ lit "--" ∷ literal_pathspec path ∷ []))
          (cancelled_or host
            (invalid_params (lit "untracked_file") (lit "relativePath must name a tracked file")))
        >>= λ _. answer []
  ]

  -- The text that is blamed.
  unfoldable pub blamed_source : Text → Text → Text → Option Text → Serve Text
  blamed_source root path revision (some contents) = answer contents
  blamed_source root path revision none = elim (is_empty revision) [
    | false ↦ read_revision_blob host root revision path
    | true ↦ settle (read_working_tree_file host root path)
  ]

  -- What `readBlameCommitMetadata` makes of the log: a failed one leaves no metadata, unless the
  -- context is cancelled.
  unfoldable pub metadata_of : Result Text → Serve Metadata
  metadata_of (ok output) log = (answered (blame_metadata output), log)
  metadata_of (err e) log = (
    if host.is_cancelled log || host.is_cancel_error e
        then refused cancelled_error
        else answered [],
    log,
  )

  abbrev metadata_args : List Text
  metadata_args =
      lit "log"
      ∷ lit "-z"
      ∷ lit "--no-walk=unsorted"
      ∷ lit "--no-show-signature"
      ∷ lit "--format=%H%x00%P%x00%B"
      ∷ lit "--stdin"
      ∷ []

  -- `readBlameCommitMetadata`, of the commits of the lines.
  unfoldable pub read_metadata : Text → List Text → Serve Metadata
  unfolding metadata_of
  read_metadata root [] = answer []
  read_metadata root (c ∷ cs) = do
    output ← attempt (
        run_with_env_limit host.git root (some (join b'\n' (c ∷ cs) ++ b'\n' ∷ []))
          offline_git_environment (2 * 1024 * 1024) metadata_args)
    metadata_of output

  unfoldable pub read_blame_commit_metadata : Text → List BlameLine → Serve Metadata
  unfolding read_metadata
  read_blame_commit_metadata root lines = read_metadata root (blamed_commits [] lines)

  -- `blame_failed`, unless the context explains the error.
  abbrev blame_failed : List Event → Failure → RpcError
  blame_failed log e =
      cancelled_or host (rpc_error code_internal_error (lit "blame_failed") (error_message e)) log e

  -- The run of `git blame` and its output.
  unfoldable pub read_blame : Text → Option Text → List Text → ℕ → Serve (List BlameLine)
  read_blame root stdin arguments count = do
    output ← or_refuse (run_read_only_git host root stdin arguments) blame_failed
    refuse_if (ltb (8 * 1024 * 1024) (length output))
        (internal_error (lit "output_too_large") (lit "Git blame output exceeds maxOutputBytes"))
    lines ← settle (parsed_or_refused (parse_line_porcelain written output))
    refuse_if (not (length lines == count)) (
        internal_error (lit "invalid_git_output")
          (lit "Git blame returned an unexpected line count"))
    answer lines

  -- `blameLines`.
  unfoldable pub blame_lines : Option BlameLinesParams → Serve BlameLinesResult
  unfolding line_range blamed_revision blamed_source read_blame blame_args
      read_blame_commit_metadata
  blame_lines params = do
    p ← settle (given_params (lit "invalid_blame_params") params)
    range ← settle (line_range p.start_line p.end_line)
    located ← locate host p.file_params
    revision ← blamed_revision located.root located.path p.revision
    source ← blamed_source located.root located.path revision p.contents
    refuse_some (validate_text host.valid_utf8 source)
    refuse_if (ltb (text_line_count source) range.1)
        (invalid_params (lit "invalid_line_range") (lit "endLine exceeds the file line count"))
    lines ←
        read_blame located.root p.contents
          (blame_args located.path range.0 range.1 p.ignore_whitespace (is_given p.contents)
            revision)
          (range.1 - range.0 + 1)
    metadata ← read_blame_commit_metadata located.root lines
    answer (record { lines = lines; commit_metadata = metadata })
