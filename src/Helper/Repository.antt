-- ===== src/Helper/Repository.antt =====
-- internal/vscodehelper/methods.go and server.go: the repository that a request works on.
pub mod Reading
use gitgit.Prelude.{
  ℕ, Bool, true, false, not, ◌||◌, Option, none, some, List, [], ◌∷◌, ◌++◌, if◌then◌else◌,
}
use gitgit.Text.{Text, lit, text_eq, is_empty, contains, trim_space, split, fields}
use gitgit.Path.{is_abs, clean, join_paths}
use gitgit.Apperr.{Failure, Result, ok, err, error_message, plain_message}
use gitgit.Git.{Exec}
use gitgit.Git.Repository.{Repository, open_repository, git_version}
use gitgit.Git
use gitgit.Helper.Rpc.{
  Answer, answered, refused, RpcError, GitInstallation, Host, Serve, answer, refuse, settle,
  or_refuse, attempt, ◌>>=◌, ◌>>◌, refuse_if, refuse_if_cancelled, refuse_failed_if_cancelled,
  rpc_error, cancelled_error, cancelled_or, invalid_params, git_command_error, run_read_only_git,
  code_git_not_found, code_not_git_repository,
}
use gitgit.Helper.Paths.{canonical_path}
use gitgit.Helper.Web.{normalize_web_repository_url}

abbrev pub repository_at : Text → Text → Repository
repository_at root common = record { root = root; common_dir = common }

-- An error that is sent with its own message, unless the context explains it.
abbrev pub explained : Host → (Failure → RpcError) → List Git.Event → Failure → RpcError
explained host e log failure = cancelled_or host (e failure) log failure

abbrev pub git_not_found : Failure → RpcError
git_not_found e = rpc_error code_git_not_found (lit "git_not_found") (error_message e)

abbrev pub not_git_repository : Failure → RpcError
not_git_repository e =
    rpc_error code_not_git_repository (lit "not_git_repository") (error_message e)

-- A directory that a request names: what `EvalSymlinks` makes of it.
abbrev pub existing_directory : Host → Text → Text → Text → Text → Answer Text
existing_directory host code missing no_directory path = elim (host.eval_symlinks (clean path)) [
  | none ↦ refused (invalid_params code missing)
  | some resolved ↦
      if host.is_directory resolved
      then answered resolved
      else refused (invalid_params code no_directory)
]

module _ (host : Host) where
  unfoldable pub opened_repository : Text → Exec Repository
  opened_repository = open_repository host.git host.working_directory host.eval_symlinks

  -- The tests of `openRepository` on the root that it is given.
  unfoldable pub requested_root : Text → Answer Text
  requested_root root =
      let trimmed = trim_space root in
      if is_empty trimmed
      then refused
          (invalid_params (lit "repository_root_required") (lit "repositoryRoot is required"))
      else if not (is_abs trimmed)
      then refused
          (invalid_params (lit "invalid_repository_root") (lit "repositoryRoot must be absolute"))
      else existing_directory host (lit "invalid_repository_root") (lit "repositoryRoot must exist")
          (lit "repositoryRoot must be an existing directory") trimmed

  -- `openRepository`.
  unfoldable pub open_requested : Text → Serve Repository
  unfolding requested_root opened_repository
  open_requested root = do
    resolved_root ← settle (requested_root root)
    installation ← or_refuse host.resolve_git (explained host git_not_found)
    repository ← or_refuse (opened_repository resolved_root) (explained host not_git_repository)
    let canonical_root = canonical_path host repository.root
    refuse_if (not (text_eq canonical_root (canonical_path host resolved_root))) (
        invalid_params (lit "repository_root_mismatch")
          (lit "repositoryRoot must equal the discovered worktree root"))
    answer (repository_at canonical_root repository.common_dir)

  -- The inner loop of `repositoryWebRemotes`: the web addresses that are new, behind those before.
  unfoldable pub add_web_remotes : List Text → List Text → List Text
  add_web_remotes [] remotes = remotes
  add_web_remotes (remote_url ∷ urls) remotes =
      elim (normalize_web_repository_url host remote_url) [
        | none ↦ add_web_remotes urls remotes
        | some web_url ↦
            add_web_remotes urls
              (if contains remotes web_url then remotes else remotes ++ (web_url ∷ []))
      ]

  -- The urls of a remote, or none where Git fails.
  abbrev listed_urls : Result Text → List Text
  listed_urls (ok output) = split b'\n' (trim_space output)
  listed_urls (err e) = []

  -- The outer loop of `repositoryWebRemotes`.
  unfoldable pub read_web_remotes : Text → List Text → List Text → Serve (List Text)
  unfolding add_web_remotes
  read_web_remotes root [] remotes = answer remotes
  read_web_remotes root (name ∷ names) remotes = do
    output ←
        attempt (
          run_read_only_git host root none (lit "remote" ∷ lit "get-url" ∷ lit "--all" ∷ name ∷ []))
    refuse_failed_if_cancelled host output
    read_web_remotes root names (add_web_remotes (listed_urls output) remotes)

  abbrev remote_names : Result Text → List Text
  remote_names (ok output) = fields output
  remote_names (err e) = []

  -- `repositoryWebRemotes`.
  unfoldable pub repository_web_remotes : Text → Serve (List Text)
  unfolding read_web_remotes
  repository_web_remotes root = do
    output ← attempt (run_read_only_git host root none (lit "remote" ∷ []))
    refuse_failed_if_cancelled host output
    read_web_remotes root (remote_names output) []
