-- ===== src/Worktree/Mutation.antt =====
-- internal/app/worktree.go: `Add`, `syncBeforeAdd`, `Move` and `Remove`. The root of the repository
-- is a parameter, and so is Git. Messages keep their format and arguments.
pub mod Guards
pub mod Arguments
use gitgit.Prelude.{
  ℕ, zero, suc, ◌+◌, ◌-◌, ◌*◌, Bool, true, false, not, ◌&&◌, ◌||◌, Option, none, some, List, [],
  ◌∷◌, ◌++◌, ltb, leb, ◌==◌, length, if◌then◌else◌,
}
use gitgit.Text.{Text, lit, text_eq, is_empty, has_prefix, contains_any, trim_space, fields}
use gitgit.Apperr.{
  Failure, formatted, plain_message, app_new, app_wrap, usage_error, text, texts, number,
  exit_failure, exit_usage, exit_precondition, exit_confirmation, Result, ok, err,
}
use gitgit.Apperr
use gitgit.Git.{Git, Exec, pure, fail, lift, or_fail, attempt, ◌>>=◌, ◌>>◌, refuse_if, run}
use gitgit.Path.{clean, is_abs, join_paths}
use gitgit.Worktree.Listing.{worktree_git_error}

pub record AddWorktreeOptions : Type 0 where
  pub path : Text
  pub revision : Text
  pub new_branch : Text
  pub detach : Bool
  pub sync : Text

-- A warning: its text, or the one that is formatted with a number and a name.
pub data Warning : Type 0 where
  warning : Text → Warning
  -- "current branch is %d commit(s) ahead of %s"
  is_ahead_of : ℕ → Text → Warning

pub record WorktreeMutation : Type 0 where
  pub path : Text
  pub action : Text
  pub warnings : List Warning

-- The bytes "\x00\r\n".
abbrev pub line_breaks : Text
line_breaks = 0 ∷ b'\r' ∷ b'\n' ∷ []

unfoldable pub validate_worktree_argument : Text → Text → Text → Result (Unit {0})
validate_worktree_argument code label value =
    if is_empty value
    then ok tt
    else if contains_any line_breaks value
    then err (
        app_new code (formatted (lit "%s must not contain a newline or NUL byte") (label ∷ []))
          exit_usage [])
    else if has_prefix (lit "-") value
    then err
        (app_new code (formatted (lit "%s must not start with a dash") (label ∷ [])) exit_usage [])
    else ok tt

-- `strconv.Atoi` whose error is dropped: it then gives 0, or the largest int out of range. Only
-- the sign of the number is used, and the number in a message.
is_digit : ℕ → Bool
is_digit c = leb b'0' c && leb c b'9'

digits_value : ℕ → Text → ℕ
digits_value n [] = n
digits_value n (c ∷ cs) =
    let rest = digits_value (n * 10 + (c - 48)) cs in if is_digit c then rest else 0

-- A sign in front: a number that is not positive counts as 0 here.
unsigned_value : Text → ℕ
unsigned_value [] = 0
unsigned_value (c ∷ cs) = if c == b'+' then digits_value 0 cs else digits_value 0 (c ∷ cs)

unfoldable pub atoi_or_zero : Text → ℕ
unfolding unsigned_value digits_value is_digit
atoi_or_zero t = unsigned_value t

pub known_mode : Text → Bool
known_mode mode =
    text_eq mode (lit "ff-only") || text_eq mode (lit "fetch") || text_eq mode (lit "none")

pub invalid_sync : Text → Failure
invalid_sync mode =
    app_new (lit "invalid_sync") (formatted (lit "unsupported sync mode %q") (mode ∷ [])) exit_usage
      ((lit "allowed", texts (lit "ff-only" ∷ lit "fetch" ∷ lit "none" ∷ [])) ∷ [])

pub precondition : Text → Text → Text → Failure
precondition code message upstream =
    app_new code (plain_message message) exit_precondition ((lit "upstream", text upstream) ∷ [])

pub diverged : Text → ℕ → ℕ → Failure
diverged upstream ahead behind =
    app_new (lit "branch_diverged")
      (plain_message
        (lit "current branch has diverged from its upstream; worktree was not created"))
      exit_precondition
      ((lit "upstream", text upstream)
        ∷ (lit "local_ahead", number ahead)
        ∷ (lit "remote_ahead", number behind)
        ∷ [])

pub wrap_precondition : Text → Text → Failure → Failure
wrap_precondition code message e = app_wrap code (plain_message message) exit_precondition e []

ahead_warning : ℕ → Text → List Warning
ahead_warning ahead upstream = if ltb 0 ahead then is_ahead_of ahead upstream ∷ [] else []

-- The arguments of `git worktree add`.
pub add_args : AddWorktreeOptions → List Text
add_args o =
    (lit "worktree" ∷ lit "add" ∷ [])
    ++ ((if is_empty o.new_branch then [] else lit "-b" ∷ o.new_branch ∷ [])
        ++ ((if o.detach then lit "--detach" ∷ [] else [])
            ++ (o.path ∷ (if is_empty o.revision then [] else o.revision ∷ []))))

-- The checks of `Add`, before Git is asked for anything.
pub check_add : AddWorktreeOptions → Result (Unit {0})
check_add o =
    Apperr.◌>>◌
      (Apperr.refuse_if (is_empty o.path)
        (usage_error (lit "missing_worktree") (lit "worktree path is required")))
      (Apperr.◌>>◌
        (Apperr.refuse_if (not (is_empty o.new_branch) && o.detach) (
          usage_error (lit "invalid_arguments")
            (lit "new branch and detached mode cannot be used together")))
        (Apperr.◌>>◌
          (validate_worktree_argument (lit "invalid_arguments") (lit "worktree path") o.path)
          (Apperr.◌>>◌
            (validate_worktree_argument (lit "invalid_arguments") (lit "new branch name")
              o.new_branch)
            (validate_worktree_argument (lit "invalid_arguments") (lit "start point") o.revision))))

pub check_move : Text → Text → Result (Unit {0})
check_move source destination =
    Apperr.◌>>◌
      (Apperr.refuse_if (is_empty source || is_empty destination) (
        usage_error (lit "missing_worktree_path")
          (lit "source and destination paths are required")))
      (Apperr.◌>>◌
        (validate_worktree_argument (lit "invalid_worktree_path") (lit "source path") source)
        (Apperr.◌>>◌
          (validate_worktree_argument (lit "invalid_worktree_path") (lit "destination path")
            destination)
          (Apperr.refuse_if (text_eq (clean source) (clean destination)) (
            usage_error (lit "same_worktree_path")
              (lit "source and destination are the same path")))))

module _ (git : Git) (root : Text) where
  abbrev pub git_run : List Text → Exec Text
  git_run arguments = run git root none arguments

  -- Behind the status of the worktree.
  pub merge_when_clean : Text → Text → Exec (Unit {0})
  merge_when_clean upstream status = do
    refuse_if (not (is_empty status)) (
        precondition (lit "dirty_worktree")
          (lit "current worktree is dirty and requires a fast-forward; worktree was not created")
          upstream)
    merged ← or_fail (git_run (lit "merge" ∷ lit "--ff-only" ∷ lit "@{upstream}" ∷ [])) (λ e.
        app_wrap (lit "fast_forward_failed")
          (plain_message (lit "failed to fast-forward current branch; worktree was not created"))
          exit_precondition e ((lit "upstream", text upstream) ∷ []))
    pure tt

  -- The fast-forward of the current branch, where the upstream is ahead.
  pub fast_forward : Text → Exec (Unit {0})
  fast_forward upstream = do
    status ←
        or_fail (git_run (lit "status" ∷ lit "--porcelain=v2" ∷ lit "-z" ∷ []))
          (worktree_git_error (lit "check current worktree status"))
    merge_when_clean upstream status

  -- From the counts of commits ahead and behind.
  pub sync_counts : Text → Text → List Text → Exec (List Warning)
  sync_counts upstream output (ahead_text ∷ behind_text ∷ []) = do
    let ahead = atoi_or_zero ahead_text
    let behind = atoi_or_zero behind_text
    refuse_if (ltb 0 ahead && ltb 0 behind) (diverged upstream ahead behind)
    if ltb 0 behind then fast_forward upstream else pure tt
    pure (ahead_warning ahead upstream)
  sync_counts upstream output _ = fail (
      app_new (lit "remote_sync_parse_error")
        (plain_message (lit "Git returned an invalid ahead/behind count")) exit_failure
        ((lit "output", text (trim_space output)) ∷ []))

  -- Behind the name of the upstream.
  pub sync_upstream : Result Text → Exec (List Warning)
  sync_upstream (err e) = pure (
      warning (lit "current branch has no upstream; fetched remotes but did not fast-forward") ∷ [])
  sync_upstream (ok upstream) = do
    counts ←
        or_fail
          (git_run
            (lit "rev-list" ∷ lit "--left-right" ∷ lit "--count" ∷ lit "HEAD...@{upstream}" ∷ []))
          (worktree_git_error (lit "compare current branch with upstream"))
    sync_counts (trim_space upstream) counts (fields counts)

  pub sync_branch : Result Text → Exec (List Warning)
  sync_branch (err e) =
      pure (warning (lit "current HEAD is detached; fetched remotes but did not fast-forward") ∷ [])
  sync_branch (ok _) = do
    upstream ← attempt (
        git_run (
          lit "rev-parse"
          ∷ lit "--abbrev-ref"
          ∷ lit "--symbolic-full-name"
          ∷ lit "@{upstream}"
          ∷ []))
    sync_upstream upstream

  pub sync_remotes : Text → Text → Text → Exec (List Warning)
  sync_remotes mode revision remotes =
      if length (fields remotes) == 0
      then pure (warning (lit "no remotes configured; worktree created from local history") ∷ [])
      else do
        fetched ← or_fail (git_run (lit "fetch" ∷ lit "--all" ∷ [])) (
            wrap_precondition (lit "remote_sync_failed")
              (lit "failed to fetch all remotes; worktree was not created"))
        if text_eq mode (lit "fetch") || not (is_empty revision) then pure [] else do
          head ←
              attempt
                (git_run (lit "symbolic-ref" ∷ lit "--quiet" ∷ lit "--short" ∷ lit "HEAD" ∷ []))
          sync_branch head

  -- With the default for a mode that is empty.
  pub sync_in_mode : Text → Text → Exec (List Warning)
  sync_in_mode mode revision = do
    refuse_if (not (known_mode mode)) (invalid_sync mode)
    if text_eq mode (lit "none") then pure [] else do
      remotes ← or_fail (git_run (lit "remote" ∷ [])) (worktree_git_error (lit "list remotes"))
      sync_remotes mode revision remotes

  unfoldable pub sync_before_add : Text → Text → Exec (List Warning)
  unfolding known_mode sync_in_mode sync_remotes sync_branch sync_upstream sync_counts fast_forward
      merge_when_clean ahead_warning
  sync_before_add given revision =
      sync_in_mode (if is_empty given then lit "ff-only" else given) revision

  -- `Add`; the root is an absolute path, so `filepath.Abs` of the joined path is the path.
  unfoldable pub add_worktree : AddWorktreeOptions → Exec WorktreeMutation
  unfolding add_args
  add_worktree o = do
    lift (check_add o)
    warnings ← sync_before_add o.sync o.revision
    added ← or_fail (git_run (add_args o)) (worktree_git_error (lit "add worktree"))
    pure (record {
      path = if is_abs o.path then clean o.path else join_paths root o.path;
      action = lit "added";
      warnings = warnings;
    })

  -- `Move`.
  unfoldable pub move_worktree : Text → Text → Exec WorktreeMutation
  move_worktree source destination = do
    lift (check_move source destination)
    moved ←
        or_fail (git_run (lit "worktree" ∷ lit "move" ∷ source ∷ destination ∷ []))
          (worktree_git_error (lit "move worktree"))
    pure (record { path = destination; action = lit "moved"; warnings = [] })

  -- `Remove`.
  unfoldable pub remove_worktree : Text → Bool → Exec WorktreeMutation
  remove_worktree path confirmed = do
    refuse_if (is_empty path)
        (usage_error (lit "missing_worktree") (lit "worktree path is required"))
    refuse_if (not confirmed) (
        app_new (lit "confirmation_required")
          (plain_message (lit "worktree removal requires confirmation")) exit_confirmation
          ((lit "path", text path) ∷ []))
    removed ←
        or_fail (git_run (lit "worktree" ∷ lit "remove" ∷ path ∷ []))
          (worktree_git_error (lit "remove worktree"))
    pure (record { path = path; action = lit "removed"; warnings = [] })
