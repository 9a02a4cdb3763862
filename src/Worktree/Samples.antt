-- ===== src/Worktree/Samples.antt =====
-- Runs of internal/app/worktree.go, with a Git that answers every command with nothing.
use gitgit.Prelude.{
  ◌≡◌, refl, ◌⊎◌, false, not, ◌&&◌, none, some, List, [], ◌∷◌, map, All, if◌then◌else◌,
}
use gitgit.Text.{
  Text, lit, text_eq, is_empty, has_prefix, contains_any, contains, trim_space, split, join,
}
use gitgit.Text.Order.{text_leb, insert_text, sort_texts}
use gitgit.Apperr.{ok}
use gitgit.Path.{clean, is_abs}
use gitgit.Git.{Git}
use gitgit.Worktree.Listing.{parse_worktree_list}
use gitgit.Worktree.Listing.RoundTrip.{
  bare_repository, detached_at, on_branch, Listed, info_of, all_tokens,
  parse_worktree_list-all_tokens,
}
use gitgit.Worktree.Mutation.{AddWorktreeOptions, add_worktree, move_worktree, remove_worktree}
use gitgit.Worktree.Mutation.Guards.{MergesSafely, add_worktree-MergesSafely}
use gitgit.Worktree.Mutation.Arguments.{
  IsPlain, AnswersRemoval, asked_once, move_worktree-asks, remove_worktree-asks,
}
use gitgit.Worktree.Sparse.{
  normalize_sparse_directories, normalize_loop, leaves_repository, names_root,
}
use gitgit.Worktree.Sparse.Normal.{AreSorted, IsInside, normalize_sparse_directories-AreInside}

abbrev silent : Git
silent log i = ok []

abbrev options : AddWorktreeOptions
options = record {
  path = lit "../feature";
  revision = [];
  new_branch = lit "feature";
  detach = false;
  sync = [];
}

add_worktree-MergesSafely_example : MergesSafely (add_worktree silent (lit "/repo") options []).1
add_worktree-MergesSafely_example = add_worktree-MergesSafely silent (lit "/repo") options [] tt

move_worktree-asks_example :
    ((move_worktree silent (lit "/repo") (lit "/a") (lit "/b") []).1 ≡ [])
    ⊎ (((move_worktree silent (lit "/repo") (lit "/a") (lit "/b") []).1
          ≡ asked_once silent
              (lit "/repo")
              (lit "worktree" ∷ lit "move" ∷ lit "/a" ∷ lit "/b" ∷ [])
              [])
        × IsPlain (lit "/a")
        × IsPlain (lit "/b")
        × (text_eq (clean (lit "/a")) (clean (lit "/b")) ≡ false))
move_worktree-asks_example = move_worktree-asks silent (lit "/repo") (lit "/a") (lit "/b") []

remove_worktree-asks_example :
    ((remove_worktree silent (lit "/repo") (lit "/a") false []).1 ≡ (
      if not (is_empty (lit "/a")) && false
      then asked_once silent (lit "/repo") (lit "worktree" ∷ lit "remove" ∷ lit "/a" ∷ []) []
      else []))
    × AnswersRemoval (lit "/a") false (remove_worktree silent (lit "/repo") (lit "/a") false []).0
remove_worktree-asks_example = remove_worktree-asks silent (lit "/repo") (lit "/a") false []

abbrev given : List Text
given = lit " src/lib/ " ∷ lit "docs" ∷ lit "." ∷ lit "src//lib" ∷ []

abbrev normal : List Text
normal = lit "docs" ∷ lit "src/lib" ∷ []

accepted : normalize_sparse_directories given ≡ ok normal
unfolding normalize_sparse_directories normalize_loop contains_any contains trim_space names_root
    leaves_repository clean is_abs is_empty has_prefix text_eq lit split join sort_texts insert_text
    text_leb
accepted = refl

normalize_sparse_directories-AreInside_example : All IsInside normal × AreSorted normal
normalize_sparse_directories-AreInside_example =
    normalize_sparse_directories-AreInside given normal accepted

abbrev listed : List Listed
listed =
    record { path = lit "/repo.git"; checkout = bare_repository; locked = none; prunable = none }
    ∷ record {
      path = lit "/repo";
      checkout = on_branch (lit "0123") (lit "main");
      locked = some [];
      prunable = none;
    }
    ∷ record {
      path = lit "/old tree";
      checkout = detached_at (lit "4567");
      locked = some (lit "on a disk");
      prunable = some (lit "gone");
    }
    ∷ []

abbrev listing : Text
listing = join 0 (all_tokens listed)

listing-split : split 0 listing ≡ all_tokens listed
unfolding split join lit is_empty
listing-split = refl

parse_worktree_list-all_tokens_example : parse_worktree_list listing ≡ ok (map info_of listed)
parse_worktree_list-all_tokens_example = parse_worktree_list-all_tokens listed listing listing-split
