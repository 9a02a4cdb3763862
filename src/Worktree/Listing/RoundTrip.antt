-- ===== src/Worktree/Listing/RoundTrip.antt =====
-- internal/app/worktree.go: `parseWorktreeList` reads back what Git prints for the worktrees.
use gitgit.Prelude.{
  ◌≡◌, refl, ap, ◌∙◌, Bool, true, false, Option, none, some, List, [], ◌∷◌, ◌++◌, map,
}
use gitgit.Text.{Text, lit, text_eq, is_empty, strip_prefix?, trim_prefix, cut, split}
use gitgit.Apperr.{ok, err}
use gitgit.Worktree.Listing.{
  WorktreeInfo, no_sparse, parse_tokens, with_attribute, put_before, Parsed, parse_worktree_list,
}

-- What is checked out in a worktree that Git lists.
pub data Checkout : Type 0 where
  bare_repository : Checkout
  detached_at : Text → Checkout
  on_branch : Text → Text → Checkout

-- What Git lists of a worktree; a lock and a worktree that can be pruned have a reason, which is
-- empty where none was given.
pub record Listed : Type 0 where
  pub path : Text
  pub checkout : Checkout
  pub locked : Option Text
  pub prunable : Option Text

abbrev info : Text → Text → Text → Bool → Bool → Bool → Bool → WorktreeInfo
info path head branch detached bare locked prunable = record {
  path = path;
  head = head;
  branch = branch;
  detached = detached;
  bare = bare;
  locked = locked;
  prunable = prunable;
  dirty = false;
  merged_into_default = false;
  sparse = no_sparse;
}

abbrev is_given : Option Text → Bool
is_given none = false
is_given (some reason) = true

abbrev checked_out : Text → Checkout → Bool → Bool → WorktreeInfo
checked_out path bare_repository locked prunable = info path [] [] false true locked prunable
checked_out path (detached_at head) locked prunable = info path head [] true false locked prunable
checked_out path (on_branch head branch) locked prunable =
    info path head branch false false locked prunable

-- The entry for it, before the status of the worktree is read.
abbrev pub info_of : Listed → WorktreeInfo
info_of w = checked_out w.path w.checkout (is_given w.locked) (is_given w.prunable)

abbrev mark : Text → Option Text → List Text
mark name none = []
mark name (some []) = name ∷ []
mark name (some (c ∷ cs)) = (name ++ b' ' ∷ c ∷ cs) ∷ []

abbrev checkout_lines : Checkout → List Text
checkout_lines bare_repository = lit "bare" ∷ []
checkout_lines (detached_at head) = (lit "HEAD " ++ head) ∷ lit "detached" ∷ []
checkout_lines (on_branch head branch) =
    (lit "HEAD " ++ head) ∷ (lit "branch refs/heads/" ++ branch) ∷ []

-- The tokens that Git prints for it, in front of what follows.
abbrev pub tokens_before : Listed → List Text → List Text
tokens_before w ts =
    (lit "worktree " ++ w.path)
    ∷ (checkout_lines w.checkout
        ++ (mark (lit "locked") w.locked ++ (mark (lit "prunable") w.prunable ++ ([] ∷ ts))))

-- The tokens of a whole list; the last is the empty one behind the last NUL byte.
abbrev pub all_tokens : List Listed → List Text
all_tokens [] = [] ∷ []
all_tokens (w ∷ ws) = tokens_before w (all_tokens ws)

module _ (path : Text) (ts : List Text) where
  checkout_step :
      (c : Checkout)
      → parse_tokens (checkout_lines c ++ ts) (some (info path [] [] false false false false))
        ≡ parse_tokens ts (some (checked_out path c false false))
  unfolding parse_tokens with_attribute cut lit text_eq is_empty trim_prefix strip_prefix?
  checkout_step bare_repository = refl
  checkout_step (detached_at head) = refl
  checkout_step (on_branch head branch) = refl

  locked_step :
      (head branch : Text) (detached bare : Bool) (reason : Option Text)
      → parse_tokens
          (mark (lit "locked") reason ++ ts)
          (some (info path head branch detached bare false false))
        ≡ parse_tokens ts (some (info path head branch detached bare (is_given reason) false))
  unfolding parse_tokens with_attribute cut lit text_eq is_empty
  locked_step head branch detached bare none = refl
  locked_step head branch detached bare (some []) = refl
  locked_step head branch detached bare (some (c ∷ cs)) = refl

  prunable_step :
      (head branch : Text) (detached bare locked : Bool) (reason : Option Text)
      → parse_tokens
          (mark (lit "prunable") reason ++ ts)
          (some (info path head branch detached bare locked false))
        ≡ parse_tokens ts (some (info path head branch detached bare locked (is_given reason)))
  unfolding parse_tokens with_attribute cut lit text_eq is_empty
  prunable_step head branch detached bare locked none = refl
  prunable_step head branch detached bare locked (some []) = refl
  prunable_step head branch detached bare locked (some (c ∷ cs)) = refl

marks_step :
    (path : Text) (c : Checkout) (locked prunable : Option Text) (ts : List Text)
    → parse_tokens
        (mark (lit "locked") locked ++ (mark (lit "prunable") prunable ++ ts))
        (some (checked_out path c false false))
      ≡ parse_tokens ts (some (checked_out path c (is_given locked) (is_given prunable)))
marks_step path bare_repository locked prunable ts =
    locked_step path _ [] [] false true locked
    ∙ prunable_step path ts [] [] false true (is_given locked) prunable
marks_step path (detached_at head) locked prunable ts =
    locked_step path _ head [] true false locked
    ∙ prunable_step path ts head [] true false (is_given locked) prunable
marks_step path (on_branch head branch) locked prunable ts =
    locked_step path _ head branch false false locked
    ∙ prunable_step path ts head branch false false (is_given locked) prunable

put_before-none : (r : Parsed) → put_before none r ≡ r
put_before-none (ok rest) = refl
put_before-none (err e) = refl

worktree_step :
    (path : Text) (ts : List Text)
    → parse_tokens ((lit "worktree " ++ path) ∷ ts) none
      ≡ parse_tokens ts (some (info path [] [] false false false false))
unfolding parse_tokens cut lit text_eq is_empty
worktree_step path ts = put_before-none _

end_step :
    (w : WorktreeInfo) (ts : List Text)
    → parse_tokens ([] ∷ ts) (some w) ≡ put_before (some w) (parse_tokens ts none)
unfolding parse_tokens is_empty
end_step w ts = refl

parse_tokens-listed :
    (w : Listed) (ts : List Text)
    → parse_tokens (tokens_before w ts) none ≡ put_before (some (info_of w)) (parse_tokens ts none)
parse_tokens-listed w ts =
    worktree_step w.path _
    ∙ checkout_step w.path _ w.checkout
    ∙ marks_step w.path w.checkout w.locked w.prunable ([] ∷ ts)
    ∙ end_step (info_of w) ts

parse_tokens-all_tokens :
    (ws : List Listed) → parse_tokens (all_tokens ws) none ≡ ok (map info_of ws)
parse_tokens-all_tokens [] = unfold parse_tokens is_empty in refl
parse_tokens-all_tokens (w ∷ ws) =
    parse_tokens-listed w (all_tokens ws)
    ∙ ap (put_before (some (info_of w))) (parse_tokens-all_tokens ws)

-- What Git lists of the worktrees is read back, whatever their paths, heads and branches are: the
-- parse of an output whose NUL-terminated tokens are those of the worktrees returns an entry for
-- each, in their order. A worktree is bare, has a detached head or is on a branch, and it is marked
-- as locked or prunable where Git says so, whether or not it prints a reason.
pub parse_worktree_list-all_tokens :
    (ws : List Listed) (output : Text)
    → split 0 output ≡ all_tokens ws
    → parse_worktree_list output ≡ ok (map info_of ws)
unfolding parse_worktree_list
parse_worktree_list-all_tokens ws output h =
    ap (λ ts. parse_tokens ts none) h ∙ parse_tokens-all_tokens ws
