-- ===== src/Worktree/Sparse.antt =====
-- internal/app/worktree.go: sparse checkouts. The temporary file of rules is a parameter: the name
-- of it, or the error that makes none, and what writing it gives.
pub mod Normal
pub mod Changes
use gitgit.Prelude.{
  ℕ, ◌≡◌, Bool, true, false, not, ◌&&◌, ◌||◌, Option, none, some, List, [], ◌∷◌, ◌++◌, map, ◌==◌,
  length, if◌then◌else◌,
}
use gitgit.Text.{
  Text, lit, text_eq, is_empty, has_prefix, contains_any, contains, trim_space, trim_right_newlines,
  split, join,
}
use gitgit.Text.Order.{text_leb, sort_texts}
use gitgit.Apperr.{
  Failure, formatted, plain_message, app_new, app_wrap, usage_error, texts, exit_failure,
  exit_usage, exit_precondition, Result, ok, err,
}
use gitgit.Apperr
use gitgit.Git.{Git, Exec, pure, fail, lift, or_fail, attempt, ◌>>=◌, ◌>>◌, refuse_if, run}
use gitgit.Path.{clean, is_abs}
use gitgit.Worktree.Listing.{
  SparseState, no_sparse, WorktreeInfo, parse_worktree_list, resolved_path, worktree_git_error,
}
use gitgit.Worktree.Mutation.{line_breaks}

pub outside_repository : Text → Failure
outside_repository directory =
    app_new (lit "invalid_sparse_directory")
      (formatted (lit "sparse directory must be repository-relative: %s") (directory ∷ []))
      exit_usage []

-- `IsAbs(directory) || directory == ".." || HasPrefix(directory, "../")`.
unfoldable pub leaves_repository : Text → Bool
leaves_repository directory =
    is_abs directory || text_eq directory (lit "..") || has_prefix (lit "../") directory

unfoldable pub names_root : Text → Bool
names_root directory = is_empty directory || text_eq directory (lit ".")

-- The loop over the directories, with the set of those seen; the result is in order.
unfoldable pub normalize_loop : List Text → List Text → Result (List Text)
normalize_loop [] seen = ok []
normalize_loop (given ∷ givens) seen =
    let directory = clean (trim_space given) in
    let skipped = normalize_loop givens seen in
    let kept =
      Apperr.◌>>=◌ (normalize_loop givens (directory ∷ seen)) (λ rest. ok (directory ∷ rest)) in
    if contains_any line_breaks given
    then err (
        usage_error (lit "invalid_sparse_directory")
          (lit "sparse directory cannot contain a newline or NUL byte"))
    else if names_root directory
    then skipped
    else if leaves_repository directory
    then err (outside_repository directory)
    else if contains seen directory
    then skipped
    else kept

unfoldable pub normalize_sparse_directories : List Text → Result (List Text)
normalize_sparse_directories directories =
    Apperr.◌>>=◌ (normalize_loop directories []) (λ result. ok (sort_texts result))

-- The code of a status record, R or C in one of its two places.
moves_path : Text → Bool
moves_path (x ∷ y ∷ rest) = x == b'R' || y == b'R' || x == b'C' || y == b'C'
moves_path _ = false

abbrev pub path_of_record : Text → Option Text
path_of_record (a ∷ b ∷ c ∷ d ∷ rest) = some (d ∷ rest)
path_of_record _ = none

-- A record of the status, the path before a rename, which stands behind it, and the others.
pub porcelain_loop : List Text → List Text
unfolding moves_path
porcelain_loop [] = []
porcelain_loop (r ∷ []) = elim (path_of_record r) [ none ↦ [] | some path ↦ path ∷ [] ]
porcelain_loop (r ∷ old ∷ tokens) =
    let after_one = porcelain_loop (old ∷ tokens) in
    let after_two = porcelain_loop tokens in
    elim (path_of_record r) [
      | none ↦ after_one
      | some path ↦
          path ∷ (if moves_path r && not (is_empty old) then old ∷ after_two else after_one)
    ]

unfoldable pub parse_porcelain_paths : Text → List Text
unfolding porcelain_loop
parse_porcelain_paths output = porcelain_loop (split 0 output)

pub non_cone : Text → Failure
non_cone message = app_new (lit "non_cone_unsupported") (plain_message message) exit_precondition []

-- The lines of `directories` with a newline after the last, as one text.
abbrev pub lines_of : List Text → Text
lines_of directories = join b'\n' directories ++ b'\n' ∷ []

unfoldable pub without_texts : List Text → List Text → List Text
without_texts removed [] = []
without_texts removed (t ∷ ts) =
    let rest = without_texts removed ts in if contains removed t then rest else t ∷ rest

unfoldable pub non_empty_texts : List Text → List Text
non_empty_texts [] = []
non_empty_texts (t ∷ ts) = let rest = non_empty_texts ts in if is_empty t then rest else t ∷ rest

abbrev is_true : Result Text → Bool
is_true (ok output) = text_eq (trim_space output) (lit "true")
is_true (err e) = false

-- `strings.Split` of the trimmed list, which is no directory for the empty text.
listed_directories : Text → List Text
listed_directories output =
    let trimmed = trim_right_newlines output in
    if is_empty trimmed then [] else sort_texts (split b'\n' trimmed)

abbrev state_listed : Bool → Result Text → SparseState
state_listed cone (ok output) = record {
  enabled = true;
  cone = cone;
  directories = listed_directories output;
}
state_listed cone (err e) = record { enabled = true; cone = cone; directories = [] }

module _ (git : Git) (root : Text) where
  unfoldable pub target_path : Text → Text
  target_path target = if is_empty target then root else target

  -- `sparseState`; an error of Git reads as a checkout that is not sparse.
  unfoldable pub sparse_state : Text → Exec SparseState
  unfolding listed_directories
  sparse_state target = do
    enabled ←
        attempt (run git target none (lit "config" ∷ lit "--bool" ∷ lit "core.sparseCheckout" ∷ []))
    if not (is_true enabled) then pure no_sparse else do
      cone ←
          attempt
            (run git target none (lit "config" ∷ lit "--bool" ∷ lit "core.sparseCheckoutCone" ∷ []))
      list ← attempt (run git target none (lit "sparse-checkout" ∷ lit "list" ∷ []))
      pure (state_listed (is_true cone) list)

  -- `List`: what Git says of each worktree. The worktree that is viewed must be readable.
  pub status_of : (Text → Option Text) → WorktreeInfo → Result Text → Result WorktreeInfo
  status_of links w (ok status) = ok (record w { dirty = not (is_empty status) })
  status_of links w (err e) =
      if text_eq (resolved_path links w.path) (resolved_path links root)
      then err (worktree_git_error (lit "read worktree status") e)
      else ok w

  pub with_states : (Text → Option Text) → List WorktreeInfo → Exec (List WorktreeInfo)
  with_states links [] = pure []
  with_states links (w ∷ ws) = do
    status ← attempt (run git w.path none (lit "status" ∷ lit "--porcelain=v2" ∷ lit "-z" ∷ []))
    read ← lift (status_of links w status)
    sparse ← sparse_state w.path
    rest ← with_states links ws
    pure (record read { sparse = sparse } ∷ rest)

  unfoldable pub list_worktrees : (Text → Option Text) → Exec (List WorktreeInfo)
  unfolding with_states status_of
  list_worktrees links = do
    output ←
        or_fail
          (run git root none (lit "worktree" ∷ lit "list" ∷ lit "--porcelain" ∷ lit "-z" ∷ []))
          (worktree_git_error (lit "list worktrees"))
    items ← or_fail (lift (parse_worktree_list output)) (λ e.
        app_wrap (lit "worktree_parse_error") (plain_message (lit "failed to parse worktree list"))
          exit_failure e [])
    with_states links items
