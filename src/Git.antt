-- ===== src/Git.antt =====
-- internal/gitexec/runner.go: how a Git process is started. What Git answers is not known: an
-- oracle answers each invocation, and may look at all the events before it, since Git keeps its
-- state in the repository. An action keeps the list of the events, the last first.
pub mod Environment
pub mod Repository
mod Samples
use gitgit.Prelude.{
  ℕ, Bool, true, false, not, ◌||◌, Option, none, some, List, [], ◌∷◌, ◌++◌, if◌then◌else◌,
}
use gitgit.Text.{Text, lit, text_eq, is_empty, has_prefix, cut, contains}
use gitgit.Apperr.{Failure, Result, ok, err}

-- What a process is started with: the directory it is told by -C, its standard input, the
-- overrides of its environment, and the arguments behind --no-pager.
pub record Invocation : Type 0 where
  pub directory : Text
  pub stdin : Option Text
  pub overrides : List Text
  pub arguments : List Text

pub record Event : Type 0 where
  pub asked : Invocation
  pub reply : Result Text

abbrev pub Git : Type 0
Git = List Event → Invocation → Result Text

abbrev pub Exec {ℓ} : Type ℓ → Type ℓ
Exec A = List Event → Result A × List Event

-- The arguments of the process.
unfoldable pub command_args : Invocation → List Text
command_args i =
    let tail = lit "--no-pager" ∷ i.arguments in
    if is_empty i.directory then tail else lit "-C" ∷ i.directory ∷ tail

selection_keys : List Text
selection_keys =
    lit "GIT_DIR"
    ∷ lit "GIT_WORK_TREE"
    ∷ lit "GIT_COMMON_DIR"
    ∷ lit "GIT_INDEX_FILE"
    ∷ lit "GIT_OBJECT_DIRECTORY"
    ∷ lit "GIT_ALTERNATE_OBJECT_DIRECTORIES"
    ∷ lit "GIT_NAMESPACE"
    ∷ lit "GIT_SHALLOW_FILE"
    ∷ lit "GIT_REPLACE_REF_BASE"
    ∷ lit "GIT_GRAFT_FILE"
    ∷ lit "GIT_CEILING_DIRECTORIES"
    ∷ lit "GIT_DISCOVERY_ACROSS_FILESYSTEM"
    ∷ lit "GIT_CONFIG"
    ∷ lit "GIT_CONFIG_GLOBAL"
    ∷ lit "GIT_CONFIG_SYSTEM"
    ∷ lit "GIT_CONFIG_PARAMETERS"
    ∷ lit "GIT_CONFIG_COUNT"
    ∷ []

-- `isRepositorySelectionEnvironment`.
unfoldable pub is_repository_selection_environment : Text → Bool
unfolding selection_keys
is_repository_selection_environment key =
    contains selection_keys key
    || has_prefix (lit "GIT_CONFIG_KEY_") key
    || has_prefix (lit "GIT_CONFIG_VALUE_") key

-- The entries that `sanitizedGitEnvironment` leaves out.
unfoldable pub is_left_out : Text → Bool
is_left_out entry =
    let (key, value) = cut b'=' entry in
    is_repository_selection_environment key
    || text_eq key (lit "LC_ALL")
    || text_eq key (lit "GIT_PAGER")

-- `sanitizedGitEnvironment`, of the entries of `os.Environ()`.
unfoldable pub sanitized_git_environment : List Text → List Text
sanitized_git_environment [] = []
sanitized_git_environment (entry ∷ entries) =
    let rest = sanitized_git_environment entries in if is_left_out entry then rest else entry ∷ rest

-- The environment of the process; where a key stands twice, the last entry counts.
unfoldable pub process_environment : List Text → Invocation → List Text
unfolding sanitized_git_environment
process_environment environ i =
    sanitized_git_environment environ ++ (lit "LC_ALL=C" ∷ lit "GIT_PAGER=cat" ∷ i.overrides)

module _ {ℓ} {A : Type ℓ} where
  abbrev pub pure : A → Exec A
  pure a log = (ok a, log)

  abbrev pub fail : Failure → Exec A
  fail e log = (err e, log)

  abbrev pub lift : Result A → Exec A
  lift r log = (r, log)

  -- `if err != nil { return …, wrap(err) }`.
  abbrev pub wrap_result : (Failure → Failure) → Result A → Result A
  wrap_result wrap (ok a) = ok a
  wrap_result wrap (err e) = err (wrap e)

  abbrev pub or_fail : Exec A → (Failure → Failure) → Exec A
  or_fail m wrap log = let (r, log') = m log in (wrap_result wrap r, log')

  -- The error as a value, where the code goes on after it.
  abbrev pub attempt : Exec A → Exec (Result A)
  attempt m log = let (r, log') = m log in (ok r, log')

module _ {ℓ κ} {A : Type ℓ} {B : Type κ} where
  abbrev pub continue : Result A → (A → Exec B) → Exec B
  continue (ok a) f log = f a log
  continue (err e) f log = (err e, log)

  infixl 10 ◌>>=◌
  abbrev pub ◌>>=◌ : Exec A → (A → Exec B) → Exec B
  ◌>>=◌ m f log = let (r, log') = m log in continue r f log'

infixl 10 ◌>>◌
abbrev pub ◌>>◌ {ℓ} : {B : Type ℓ} → Exec (Unit {0}) → Exec B → Exec B
m >> k = m >>= λ _. k

abbrev pub refuse_if : Bool → Failure → Exec (Unit {0})
refuse_if true e log = (err e, log)
refuse_if false e log = (ok tt, log)

-- One process is run.
unfoldable pub run_invocation : Git → Invocation → Exec Text
run_invocation git i log =
    let answer = git log i in (answer, record { asked = i; reply = answer } ∷ log)

-- `Runner.Run`.
unfoldable pub run : Git → Text → Option Text → List Text → Exec Text
unfolding run_invocation
run git directory stdin arguments =
    run_invocation git
      (record { directory = directory; stdin = stdin; overrides = []; arguments = arguments })

-- `Runner.RunWithEnv`.
unfoldable pub run_with_env : Git → Text → Option Text → List Text → List Text → Exec Text
unfolding run_invocation
run_with_env git directory stdin overrides arguments =
    run_invocation git (record {
      directory = directory;
      stdin = stdin;
      overrides = overrides;
      arguments = arguments;
    })
