-- ===== src/Worktree/Listing.antt =====
-- internal/app/worktree.go: `parseWorktreeList` and `List`.
pub mod RoundTrip
use gitgit.Prelude.{Bool, true, false, Option, none, some, List, [], ◌∷◌, if◌then◌else◌}
use gitgit.Text.{Text, lit, text_eq, is_empty, trim_prefix, split, cut}
use gitgit.Apperr.{Failure, formatted, plain, app_wrap, exit_failure, Result, ok, err}
use gitgit.Path.{clean}

pub record SparseState : Type 0 where
  pub enabled : Bool
  pub cone : Bool
  pub directories : List Text

abbrev pub no_sparse : SparseState
no_sparse = record { enabled = false; cone = false; directories = [] }

pub record WorktreeInfo : Type 0 where
  pub path : Text
  pub head : Text
  pub branch : Text
  pub detached : Bool
  pub bare : Bool
  pub locked : Bool
  pub prunable : Bool
  pub dirty : Bool
  pub merged_into_default : Bool
  pub sparse : SparseState

abbrev pub worktree_at : Text → WorktreeInfo
worktree_at path = record {
  path = path;
  head = [];
  branch = [];
  detached = false;
  bare = false;
  locked = false;
  prunable = false;
  dirty = false;
  merged_into_default = false;
  sparse = no_sparse;
}

-- The switch over the key of an attribute.
pub with_attribute : Text → Text → WorktreeInfo → WorktreeInfo
with_attribute key value w =
    if text_eq key (lit "HEAD")
    then record w { head = value }
    else if text_eq key (lit "branch")
    then record w { branch = trim_prefix (lit "refs/heads/") value }
    else if text_eq key (lit "detached")
    then record w { detached = true }
    else if text_eq key (lit "bare")
    then record w { bare = true }
    else if text_eq key (lit "locked")
    then record w { locked = true }
    else if text_eq key (lit "prunable")
    then record w { prunable = true }
    else w

abbrev pub finished : Option WorktreeInfo → List WorktreeInfo → List WorktreeInfo
finished none rest = rest
finished (some w) rest = w ∷ rest

abbrev pub Parsed : Type 0
Parsed = Result (List WorktreeInfo)

abbrev pub put_before : Option WorktreeInfo → Parsed → Parsed
put_before current (ok rest) = ok (finished current rest)
put_before current (err e) = err e

pub no_worktree : Text → Failure
no_worktree line = plain (formatted (lit "attribute %q appeared before worktree path") (line ∷ []))

abbrev attribute_line :
    Text → Text → Text → Option WorktreeInfo → (Option WorktreeInfo → Parsed) → Parsed
attribute_line line key value none rest = err (no_worktree line)
attribute_line line key value (some w) rest = rest (some (with_attribute key value w))

-- The loop over the tokens; what is appended to `items` stands in front of the result of the rest.
pub parse_tokens : List Text → Option WorktreeInfo → Parsed
parse_tokens [] current = ok (finished current [])
parse_tokens (line ∷ tokens) current =
    let (key, value) = cut b' ' line in
    let ended = put_before current (parse_tokens tokens none) in
    let begun = put_before current (parse_tokens tokens (some (worktree_at value))) in
    let attribute = attribute_line line key value current (parse_tokens tokens) in
    if is_empty line then ended else if text_eq key (lit "worktree") then begun else attribute

unfoldable pub parse_worktree_list : Text → Parsed
unfolding parse_tokens with_attribute
parse_worktree_list output = parse_tokens (split 0 output) none

-- `worktreeGitError`.
pub worktree_git_error : Text → Failure → Failure
worktree_git_error action e =
    app_wrap (lit "git_worktree_error") (formatted (lit "failed to %s") (action ∷ [])) exit_failure
      e []

-- `resolvedPath`; the links of the file system are a parameter.
pub resolved_path : (Text → Option Text) → Text → Text
resolved_path eval_symlinks path = elim (eval_symlinks (clean path)) [
  | none ↦ clean path
  | some target ↦ clean target
]
