-- ===== src/Helper/Rpc/Offline.antt =====
-- internal/vscodehelper/methods.go: rules for the Git commands that a request runs, whatever Git
-- answers.
use gitgit.Prelude.{
  ℕ, ◌≡◌, refl, Bool, true, false, not, ◌&&◌, ◌||◌, Option, none, some, List, [], ◌∷◌, All,
  if◌then◌else◌, arith,
}
use gitgit.Text.{Text, lit, text_eq, has_prefix, contains}
use gitgit.Apperr.{Failure, Result, ok, err}
use gitgit.Git.{Git, Event, Exec, run, run_invocation, run_with_env}
use gitgit.Git
use gitgit.Git.Repository.{run_with_env_limit}
use gitgit.Helper.Rpc.{
  Answer, answered, refused, RpcError, Host, Serve, answer, settle, settled, or_refuse, attempt,
  next, ◌>>=◌, refuse_if, refuse_if_cancelled, refuse_failed_if_cancelled, offline_git_environment,
  run_read_only_git,
}

unfoldable pub texts_eq : List Text → List Text → Bool
texts_eq [] [] = true
texts_eq (t ∷ ts) (u ∷ us) = text_eq t u && texts_eq ts us
texts_eq _ _ = false

-- No option, up to the end of the options, names a file that the output is written to.
unfoldable pub writes_no_file : List Text → Bool
writes_no_file [] = true
writes_no_file (argument ∷ arguments) =
    let rest = writes_no_file arguments in
    text_eq argument (lit "--end-of-options")
    || (not (has_prefix (lit "--o") argument) && not (text_eq argument (lit "-o")) && rest)

-- The commands by name, with any arguments. `log` may name no file for its output, and `remote` and
-- `symbolic-ref`, which may also write, are only in the four forms that read.
unfoldable pub reads_only : List Text → Bool
unfolding writes_no_file
reads_only (command ∷ arguments) =
    contains
      (lit "rev-parse"
        ∷ lit "for-each-ref"
        ∷ lit "ls-files"
        ∷ lit "blame"
        ∷ lit "diff-tree"
        ∷ lit "rev-list"
        ∷ lit "cat-file"
        ∷ lit "--version"
        ∷ [])
      command
    || (text_eq command (lit "log") && writes_no_file arguments)
    || reads_form command arguments
  where
    reads_form : Text → List Text → Bool
    reads_form command [] = text_eq command (lit "remote")
    reads_form command (verb ∷ option ∷ name ∷ []) =
        (text_eq command (lit "remote")
          && text_eq verb (lit "get-url")
          && text_eq option (lit "--all"))
        || (text_eq command (lit "symbolic-ref")
            && text_eq verb (lit "--quiet")
            && text_eq option (lit "--short")
            && text_eq name (lit "HEAD"))
    reads_form command (verb ∷ name ∷ []) =
        text_eq command (lit "symbolic-ref")
        && text_eq verb (lit "--quiet")
        && text_eq name (lit "HEAD")
    reads_form command arguments = false
reads_only [] = false

-- The three commands, with all their arguments, that open the repository or ask for the version:
-- they are run without overrides.
unfoldable pub opens : List Text → Bool
unfolding texts_eq
opens arguments =
    texts_eq arguments (lit "rev-parse" ∷ lit "--show-toplevel" ∷ [])
    || texts_eq arguments (lit "rev-parse" ∷ lit "--git-common-dir" ∷ [])
    || texts_eq arguments (lit "--version" ∷ [])

-- A run of one of the commands above, in the environment that keeps Git from fetching, prompting
-- and taking optional locks unless it is one of the three that open the repository.
abbrev pub IsReading : Event → Type 0
IsReading e =
    (reads_only e.asked.arguments ≡ true)
    × ((texts_eq e.asked.overrides offline_git_environment || opens e.asked.arguments) ≡ true)

unfoldable pub KeepsIn {ℓ} : {A : Type ℓ} → Exec A → Type 0
KeepsIn m = (log : List Event) → All IsReading log → All IsReading (m log).1

unfoldable pub Keeps {ℓ} : {A : Type ℓ} → Serve A → Type 0
Keeps m = (log : List Event) → All IsReading log → All IsReading (m log).1

settled-Keeps {ℓ} :
    {A : Type ℓ} (on_error : List Event → Failure → RpcError) (r : Result A) (log : List Event)
    → All IsReading log
    → All IsReading (settled on_error (r, log)).1
settled-Keeps on_error (ok a) log h = h
settled-Keeps on_error (err e) log h = h

module _ {ℓ} {A : Type ℓ} where
  pub Keeps-answer : (a : A) → Keeps (answer a)
  unfolding Keeps answer
  Keeps-answer a log h = h

  pub Keeps-settle : (a : Answer A) → Keeps (settle a)
  unfolding Keeps settle
  Keeps-settle a log h = h

  pub Keeps-or_refuse :
      (m : Exec A) (on_error : List Event → Failure → RpcError)
      → KeepsIn m
      → Keeps (or_refuse m on_error)
  unfolding Keeps or_refuse KeepsIn
  Keeps-or_refuse m on_error keeps log h = settled-Keeps on_error (m log).0 (m log).1 (keeps log h)

  pub Keeps-attempt : (m : Exec A) → KeepsIn m → Keeps (attempt m)
  unfolding Keeps attempt KeepsIn
  Keeps-attempt m keeps log h = keeps log h

  pub Keeps-if : (b : Bool) (m k : Serve A) → Keeps m → Keeps k → Keeps (if b then m else k)
  unfolding Keeps
  Keeps-if true m k keeps_m keeps_k log h = keeps_m log h
  Keeps-if false m k keeps_m keeps_k log h = keeps_k log h

  pub Keeps-elim :
      (b : Bool) (m k : Serve A)
      → Keeps m
      → Keeps k
      → Keeps {A = A} (elim b [ true ↦ m | false ↦ k ])
  Keeps-elim true m k keeps_m keeps_k = keeps_m
  Keeps-elim false m k keeps_m keeps_k = keeps_k

pub Keeps-refuse_if : (b : Bool) (e : RpcError) → Keeps (refuse_if b e)
unfolding Keeps refuse_if
Keeps-refuse_if b e log h = h

pub Keeps-refuse_if_cancelled : (host : Host) → Keeps (refuse_if_cancelled host)
unfolding Keeps refuse_if_cancelled
Keeps-refuse_if_cancelled host log h = h

pub Keeps-refuse_failed_if_cancelled :
    (host : Host) (r : Result Text) → Keeps (refuse_failed_if_cancelled host r)
unfolding Keeps refuse_failed_if_cancelled refuse_if_cancelled
Keeps-refuse_failed_if_cancelled host (ok t) log h = h
Keeps-refuse_failed_if_cancelled host (err e) log h = h

module _ {ℓ κ} {A : Type ℓ} {B : Type κ} where
  next-Keeps :
      (a : Answer A) (f : A → Serve B) (log : List Event)
      → ((x : A) → Keeps (f x))
      → All IsReading log
      → All IsReading (next a f log).1
  unfolding Keeps
  next-Keeps (answered x) f log keeps h = keeps x log h
  next-Keeps (refused e) f log keeps h = h

  pub Keeps-bind :
      (m : Serve A) (f : A → Serve B) → Keeps m → ((x : A) → Keeps (f x)) → Keeps (m >>= f)
  unfolding Keeps ◌>>=◌
  Keeps-bind m f keeps_m keeps_f log h = next-Keeps (m log).0 f (m log).1 keeps_f (keeps_m log h)

  pub continue-KeepsIn :
      (r : Result A) (f : A → Exec B) (log : List Event)
      → ((x : A) → KeepsIn (f x))
      → All IsReading log
      → All IsReading (Git.continue r f log).1
  unfolding KeepsIn
  continue-KeepsIn (ok x) f log keeps h = keeps x log h
  continue-KeepsIn (err e) f log keeps h = h

  pub KeepsIn-bind :
      (m : Exec A) (f : A → Exec B)
      → KeepsIn m
      → ((x : A) → KeepsIn (f x))
      → KeepsIn (Git.◌>>=◌ m f)
  unfolding KeepsIn
  KeepsIn-bind m f keeps_m keeps_f log h =
      continue-KeepsIn (m log).0 f (m log).1 keeps_f (keeps_m log h)

module _ {ℓ} {A : Type ℓ} where
  pub KeepsIn-lift : (r : Result A) → KeepsIn (Git.lift r)
  unfolding KeepsIn
  KeepsIn-lift r log h = h

  pub KeepsIn-found :
      (o : Option (Text × Text)) (e : Failure) (f : Text × Text → Exec A)
      → ((p : Text × Text) → KeepsIn (f p))
      → KeepsIn {A = A} (elim o [ none ↦ Git.fail e | some p ↦ f p ])
  unfolding KeepsIn
  KeepsIn-found none e f keeps log h = h
  KeepsIn-found (some p) e f keeps log h = keeps p log h

  pub KeepsIn-or_fail :
      (m : Exec A) (wrap : Failure → Failure) → KeepsIn m → KeepsIn (Git.or_fail m wrap)
  unfolding KeepsIn
  KeepsIn-or_fail m wrap keeps log h = keeps log h

  pub KeepsIn-pure : (a : A) → KeepsIn (Git.pure a)
  unfolding KeepsIn
  KeepsIn-pure a log h = h

pub KeepsIn-refuse_if : (b : Bool) (e : Failure) → KeepsIn (Git.refuse_if b e)
unfolding KeepsIn
KeepsIn-refuse_if true e log h = h
KeepsIn-refuse_if false e log h = h

-- A command in the offline environment.
pub KeepsIn-run_read_only_git :
    (host : Host) (root : Text) (stdin : Option Text) (arguments : List Text)
    → reads_only arguments ≡ true
    → KeepsIn (run_read_only_git host root stdin arguments)
unfolding KeepsIn run_read_only_git run_with_env run_invocation texts_eq text_eq lit
KeepsIn-run_read_only_git host root stdin arguments reads log h = ((reads, refl), h)

pub KeepsIn-run_with_env_limit :
    (host : Host) (root : Text) (stdin : Option Text) (limit : ℕ) (arguments : List Text)
    → reads_only arguments ≡ true
    → KeepsIn (run_with_env_limit host.git root stdin offline_git_environment limit arguments)
unfolding run_with_env_limit
KeepsIn-run_with_env_limit host root stdin limit arguments reads =
    KeepsIn-bind (run_with_env host.git root stdin offline_git_environment arguments) _
      (unfold run_read_only_git in KeepsIn-run_read_only_git host root stdin arguments reads)
      (λ output. KeepsIn-lift _)

-- A command that opens the repository.
pub KeepsIn-run :
    (git : Git) (directory : Text) (stdin : Option Text) (arguments : List Text)
    → reads_only arguments ≡ true
    → opens arguments ≡ true
    → KeepsIn (run git directory stdin arguments)
unfolding KeepsIn run run_invocation
KeepsIn-run git directory stdin arguments reads opening log h =
    ((reads, ground (arith, opening)), h)

pub ruleset keeps_rules = (
  Keeps-answer, Keeps-settle, Keeps-or_refuse, Keeps-attempt, Keeps-if, Keeps-refuse_if,
  Keeps-refuse_if_cancelled, Keeps-refuse_failed_if_cancelled, Keeps-bind,
  KeepsIn-run_read_only_git, refl,
)
