-- ===== src/Git/Repository.antt =====
-- internal/gitexec/runner.go: `OpenRepository`, `Runner.Version` and `RunWithEnvLimit`.
use gitgit.Prelude.{ℕ, Option, none, some, List, [], ◌∷◌, ltb, length, if◌then◌else◌}
use gitgit.Text.{Text, lit, is_empty, trim_space}
use gitgit.Path.{is_abs, clean, join_paths}
use gitgit.Apperr.{Failure, plain, plain_message, wrapped, Result, ok, err}
use gitgit.Git.{Git, Exec, pure, lift, or_fail, ◌>>=◌, ◌>>◌, refuse_if, run, run_with_env}

pub record Repository : Type 0 where
  pub root : Text
  pub common_dir : Text

abbrev nothing : Text → Failure
nothing text = plain (plain_message text)

-- `os.Getwd`, whose error the program passes on.
abbrev pub given_directory : Option Text → Result Text
given_directory none = err (nothing (lit "getwd"))
given_directory (some directory) = ok directory

-- `filepath.Abs`.
unfoldable pub absolute : Option Text → Text → Result Text
absolute working path =
    if is_abs path
    then ok (clean path)
    else elim working [ none ↦ err (nothing (lit "getwd")) | some w ↦ ok (join_paths w path) ]

-- What `filepath.EvalSymlinks` gives, cleaned; the path itself where it fails.
unfoldable pub resolved_or_same : (Text → Option Text) → Text → Text
resolved_or_same eval_symlinks path = elim (eval_symlinks path) [
  | none ↦ path
  | some resolved ↦ clean resolved
]

module _ (git : Git) (working : Option Text) (eval_symlinks : Text → Option Text) where
  -- The rest of `OpenRepository`, from the answer of `rev-parse --git-common-dir`.
  abbrev common_directory : Text → Text → Text
  common_directory root common =
      resolved_or_same eval_symlinks
        (clean (if is_abs common then common else join_paths root common))

  unfoldable pub open_at : Text → Exec Repository
  open_at directory = do
    out ←
        or_fail (run git directory none (lit "rev-parse" ∷ lit "--show-toplevel" ∷ []))
          (wrapped (lit "not a Git worktree: %w") [])
    let root = trim_space out
    refuse_if (is_empty root) (nothing (lit "Git returned an empty worktree root"))
    common ←
        or_fail (run git root none (lit "rev-parse" ∷ lit "--git-common-dir" ∷ []))
          (wrapped (lit "resolve Git common directory: %w") [])
    refuse_if (is_empty (trim_space common))
        (nothing (lit "Git returned an empty common directory"))
    pure (record { root = root; common_dir = common_directory root (trim_space common) })

  -- `OpenRepository`.
  unfoldable pub open_repository : Text → Exec Repository
  unfolding open_at
  open_repository path = do
    start ← lift (if is_empty path then given_directory working else ok path)
    directory ← lift (absolute working start)
    open_at directory

-- `Runner.Version`.
unfoldable pub git_version : Git → Exec Text
git_version git = do out ← run git [] none (lit "--version" ∷ []); pure (trim_space out)

abbrev within_limit : ℕ → Text → Result Text
within_limit limit output =
    if ltb limit (length output) then err (nothing (lit "Git output exceeds limit")) else ok output

-- `RunWithEnvLimit`, with a limit that is not negative.
unfoldable pub run_with_env_limit : Git → Text → Option Text → List Text → ℕ → List Text → Exec Text
run_with_env_limit git directory stdin overrides limit arguments = do
  output ← run_with_env git directory stdin overrides arguments
  lift (within_limit limit output)
