-- ===== src/Worktree/Mutation/Arguments.antt =====
-- internal/app/worktree.go: which paths `Move` and `Remove` hand over to Git.
use gitgit.Prelude.{
  ℕ, ◌≡◌, refl, ap, ◌∙◌, ◌⊎◌, inl, inr, Bool, true, false, not, ◌&&◌, none, List, [], ◌∷◌,
  if◌then◌else◌, arith,
}
use gitgit.Text.{Text, lit, text_eq, is_empty, has_prefix, contains_any}
use gitgit.Apperr.{Failure, Result, ok, err, exit_code, exit_confirmation, exit_usage}
use gitgit.Apperr
use gitgit.Path.{clean}
use gitgit.Git.{
  Git, Exec, Event, Invocation, continue, wrap_result, run, or_fail, pure, lift, ◌>>=◌, ◌>>◌,
}
use gitgit.Worktree.Mutation.{
  WorktreeMutation, line_breaks, validate_worktree_argument, check_move, move_worktree,
  remove_worktree,
}
use gitgit.Worktree.Listing.{worktree_git_error}

-- A path that Git reads as one argument, and not as a flag.
abbrev pub IsPlain : Text → Type 0
IsPlain t =
    (is_empty t ≡ false) × (contains_any line_breaks t ≡ false) × (has_prefix (lit "-") t ≡ false)

Result-cases {ℓ} :
    {A : Type ℓ} (r : Result A) → ((e : Failure) × (r ≡ err e)) ⊎ ((a : A) × (r ≡ ok a))
Result-cases (err e) = inl (e, refl)
Result-cases (ok a) = inr (a, refl)

check_move-IsPlain :
    (source destination : Text)
    → check_move source destination ≡ ok tt
    → IsPlain source × IsPlain destination × (text_eq (clean source) (clean destination) ≡ false)
unfolding check_move validate_worktree_argument
check_move-IsPlain source destination h = (
  (ground arith, ground arith, ground arith),
  (ground arith, ground arith, ground arith),
  ground arith,
)

-- The events after one more command in the root.
abbrev pub asked_once : Git → Text → List Text → List Event → List Event
asked_once git root arguments log =
    let i : Invocation = record {
      directory = root;
      stdin = none;
      overrides = [];
      arguments = arguments;
    } in
    record { asked = i; reply = git log i } ∷ log

lift-refused {ℓ} :
    {B : Type ℓ} (r : Result (Unit {0})) (e : Failure) (k : Exec B) (log : List Event)
    → r ≡ err e
    → ((lift r >> k) log).1 ≡ log
lift-refused r e k log h = ap (λ s. ((lift s >> k) log).1) h

lift-passed {ℓ} :
    {B : Type ℓ} (r : Result (Unit {0})) (u : Unit {0}) (k : Exec B) (log : List Event)
    → r ≡ ok u
    → ((lift r >> k) log).1 ≡ (k log).1
lift-passed r u k log h = ap (λ s. ((lift s >> k) log).1) h

-- A command in the root, and a result that is made of its answer.
or_fail-asks {ℓ} :
    {A : Type ℓ} (git : Git) (root : Text) (arguments : List Text) (wrap : Failure → Failure)
    (a : A) (log : List Event)
    → ((or_fail (run git root none arguments) wrap >>= λ _. pure a) log).1
      ≡ asked_once git root arguments log
unfolding run
or_fail-asks git root arguments wrap a log = go (git log _)
  where
    go :
        (r : Result Text)
        → (continue (wrap_result wrap r) (λ _. pure a) (asked_once git root arguments log)).1
          ≡ asked_once git root arguments log
    go (ok text) = refl
    go (err e) = refl

-- `Move` asks Git for nothing, or for one move, of paths that are not empty, hold no line break or
-- NUL byte, start with no dash, and differ when they are cleaned.
pub move_worktree-asks :
    (git : Git) (root source destination : Text) (log : List Event)
    → ((move_worktree git root source destination log).1 ≡ log)
      ⊎ (((move_worktree git root source destination log).1
            ≡ asked_once git root (lit "worktree" ∷ lit "move" ∷ source ∷ destination ∷ []) log)
          × IsPlain source
          × IsPlain destination
          × (text_eq (clean source) (clean destination) ≡ false))
unfolding move_worktree
move_worktree-asks git root source destination log =
    elim (Result-cases (check_move source destination)) [
      | inl (e, refused) ↦ inl (lift-refused _ e _ log refused)
      | inr (u, passed) ↦
          let parts = check_move-IsPlain source destination passed in
          inr (
            lift-passed _ u _ log passed ∙ or_fail-asks git root _ _ _ log,
            parts.0,
            parts.1,
            parts.2,
          )
    ]

-- What `Remove` answers: an error, with the exit code of a missing confirmation where the path is
-- given and the removal is not confirmed, and with that of a wrong usage where no path is given.
abbrev pub IsRefused : ℕ → Result WorktreeMutation → Type 0
IsRefused code (ok m) = ⊥
IsRefused code (err e) = exit_code e ≡ code

abbrev TellsPath : Text → Result WorktreeMutation → Type 0
TellsPath path (ok m) = m.path ≡ path
TellsPath path (err e) = Unit

abbrev pub AnswersRemoval : Text → Bool → Result WorktreeMutation → Type 0
AnswersRemoval [] confirmed r = IsRefused exit_usage r
AnswersRemoval (c ∷ cs) false r = IsRefused exit_confirmation r
AnswersRemoval (c ∷ cs) true r = TellsPath (c ∷ cs) r

-- `Remove` asks Git for one removal of the path where it is confirmed and the path is not empty,
-- and for nothing where not. Without a path it is an error with the exit code of a wrong usage,
-- without a confirmation an error with the exit code of a missing confirmation, and a removal that
-- succeeds tells the path.
pub remove_worktree-asks :
    (git : Git) (root path : Text) (confirmed : Bool) (log : List Event)
    → ((remove_worktree git root path confirmed log).1 ≡ (
        if not (is_empty path) && confirmed
        then asked_once git root (lit "worktree" ∷ lit "remove" ∷ path ∷ []) log
        else log))
      × AnswersRemoval path confirmed (remove_worktree git root path confirmed log).0
unfolding remove_worktree is_empty exit_code Apperr.as_app_error
remove_worktree-asks git root [] confirmed log = (refl, refl)
remove_worktree-asks git root (c ∷ cs) false log = (refl, refl)
remove_worktree-asks git root (c ∷ cs) true log = (
  or_fail-asks git root _ _ _ log,
  removed (run git root none (lit "worktree" ∷ lit "remove" ∷ (c ∷ cs) ∷ []) log).0
      (run git root none (lit "worktree" ∷ lit "remove" ∷ (c ∷ cs) ∷ []) log).1,
)
  where
    removed :
        (r : Result Text) (log' : List Event)
        → TellsPath
            (c ∷ cs)
            (continue
              (wrap_result (worktree_git_error (lit "remove worktree")) r)
              (λ _. pure (record { path = c ∷ cs; action = lit "removed"; warnings = [] }))
              log').0
    removed (ok t) log' = refl
    removed (err failure) log' = tt
