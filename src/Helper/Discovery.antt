-- ===== src/Helper/Discovery.antt =====
-- internal/vscodehelper/server.go: `repository.discover`, and how the Git executable is found.
pub mod Reading
use gitgit.Prelude.{
  ℕ, Bool, true, false, not, ◌&&◌, ◌||◌, Option, none, some, List, [], ◌∷◌, if◌then◌else◌,
}
use gitgit.Text.{Text, lit, text_eq, is_empty, trim_space}
use gitgit.Path.{is_abs, clean, join_paths}
use gitgit.Apperr.{Failure, plain, wrapped, plain_message, Result, ok, err}
use gitgit.Git.{Git, Exec}
use gitgit.Git
use gitgit.Git.Repository.{Repository, absolute, git_version}
use gitgit.Helper.Rpc.{
  Answer, answered, refused, GitInstallation, Host, Serve, answer, settle, or_refuse, attempt,
  ◌>>=◌, ◌>>◌, refuse_if_cancelled, refuse_failed_if_cancelled, invalid_params, git_command_error,
  run_read_only_git,
}
use gitgit.Helper.Paths.{canonical_path}
use gitgit.Helper.Repository.{
  existing_directory, explained, git_not_found, not_git_repository, opened_repository,
  repository_web_remotes,
}

pub record RepositoryDiscoverResult : Type 0 where
  pub root : Text
  pub common_dir : Text
  pub git_dir : Text
  pub branch : Text
  pub head : Text
  pub web_remotes : List Text

-- What Git printed, and nothing where it failed.
abbrev pub printed : Result Text → Text
printed (ok output) = trim_space output
printed (err e) = []

module _ (host : Host) where
  -- The tests of `discoverRepository` on the path of its params; none for params that are no object.
  unfoldable pub requested_path : Option Text → Answer Text
  requested_path none = refused (
      invalid_params (lit "invalid_repository_params")
        (lit "repository.discover params must be an object"))
  requested_path (some path) =
      let trimmed = trim_space path in
      if is_empty trimmed
      then refused (invalid_params (lit "repository_path_required") (lit "path is required"))
      else if not (is_abs trimmed)
      then refused (invalid_params (lit "invalid_repository_path") (lit "path must be absolute"))
      else existing_directory host (lit "invalid_repository_path") (lit "path must exist")
          (lit "path must be an existing directory") trimmed

  abbrev git_dir_path : Text → Text → Text
  git_dir_path root output =
      let path = trim_space output in
      canonical_path host (if is_abs path then path else join_paths root path)

  -- The part of `discoverRepository` behind `OpenRepository`.
  unfoldable pub describe_repository : Repository → Serve RepositoryDiscoverResult
  describe_repository repository = do
    let root = repository.root
    git_dir_output ←
        or_refuse
          (run_read_only_git host root none (lit "rev-parse" ∷ lit "--absolute-git-dir" ∷ []))
          (git_command_error host)
    branch ← attempt (
        run_read_only_git host root none
          (lit "symbolic-ref" ∷ lit "--quiet" ∷ lit "--short" ∷ lit "HEAD" ∷ []))
    refuse_failed_if_cancelled host branch
    head ←
        attempt
          (run_read_only_git host root none (lit "rev-parse" ∷ lit "--verify" ∷ lit "HEAD" ∷ []))
    refuse_failed_if_cancelled host head
    web_remotes ← repository_web_remotes host root
    answer (record {
      root = canonical_path host root;
      common_dir = canonical_path host repository.common_dir;
      git_dir = git_dir_path root git_dir_output;
      branch = printed branch;
      head = printed head;
      web_remotes = web_remotes;
    })

  -- `discoverRepository`.
  unfoldable pub discover_repository : Option Text → Serve RepositoryDiscoverResult
  unfolding requested_path describe_repository opened_repository
  discover_repository path = do
    resolved_path ← settle (requested_path path)
    installation ← or_refuse host.resolve_git (λ log. git_not_found)
    repository ←
        or_refuse (opened_repository host resolved_path) (explained host not_git_repository)
    describe_repository repository

-- The system that the helper looks for Git in: `exec.LookPath("git")`, the environment, and whether
-- a path is a regular file.
pub record System : Type 0 where
  pub is_windows : Bool
  pub environment : Text → Text
  pub look_path : Option Text
  pub current_directory : Option Text
  pub real_path : Text → Option Text
  pub is_regular : Text → Bool

-- `regularAbsoluteFile`.
unfoldable pub regular_absolute_file : System → Text → Option Text
regular_absolute_file s path =
    if is_empty (trim_space path) then none else elim (absolute s.current_directory path) [
      | err e ↦ none
      | ok full ↦ if not (is_abs full) then none else elim (s.real_path full) [
        | none ↦ none
        | some resolved ↦ if s.is_regular resolved then some (clean resolved) else none
      ]
    ]

abbrev found : Text → Option Text → Option (Text × Text) → Option (Text × Text)
found origin none otherwise = otherwise
found origin (some path) otherwise = some (path, origin)

unfoldable pub windows_candidate : System → Text → Text → Option Text
unfolding regular_absolute_file
windows_candidate s variable relative =
    let base = s.environment variable in
    if is_empty (trim_space base) then none else regular_absolute_file s (join_paths base relative)

abbrev file_at : System → Option Text → Option Text
file_at s none = none
file_at s (some candidate) = regular_absolute_file s candidate

-- `discoverGitExecutable`: the path and where it was found, or none.
unfoldable pub discover_git_executable : System → Option (Text × Text)
unfolding windows_candidate
discover_git_executable s = found (lit "PATH") (file_at s s.look_path) (
    if s.is_windows
    then found (lit "ProgramFiles")
        (windows_candidate s (lit "ProgramFiles") (lit "Git/cmd/git.exe"))
        (found (lit "LocalAppData")
          (windows_candidate s (lit "LocalAppData") (lit "Programs/Git/cmd/git.exe")) none)
    else none)

abbrev installation_at : Text → Text → Text → GitInstallation
installation_at path origin version = record {
  executable = path;
  origin = origin;
  version = version;
}

-- `resolveGitInstallation`.
unfoldable pub resolve_git_installation : System → Git → Exec GitInstallation
unfolding discover_git_executable
resolve_git_installation s git = elim (discover_git_executable s) [
  | none ↦ Git.fail (plain (plain_message (lit "Git executable not found")))
  | some p ↦
      Git.◌>>=◌ (Git.or_fail (git_version git) (wrapped (lit "read Git version: %w") []))
        (λ version. Git.pure (installation_at p.0 p.1 version))
]
