-- ===== src/Search/Changes/Renames.antt =====
-- internal/app/search.go: `matchFileChange` follows a file over its renames.
use gitgit.Prelude.{◌≡◌, Bool, true, not, ◌&&◌, ◌||◌, List, [], ◌∷◌, arith}
use gitgit.Text.{Text, lit, text_eq_refl, is_empty, has_prefix, contains}
use gitgit.Search.Changes.{FileChange, match_file_change}

abbrev pub is_rename : FileChange → Bool
is_rename c = has_prefix (lit "R") c.status && not (is_empty c.old_path)

-- The tracked paths after some changes, the newest change first.
abbrev pub tracked_after : (Text → Bool) → List FileChange → List Text → List Text
tracked_after matcher [] tracked = tracked
tracked_after matcher (c ∷ cs) tracked =
    tracked_after matcher cs (match_file_change matcher true c tracked).1

-- What a file that is now called `name` was called before the changes, which may be changes of
-- other files too.
pub data WasCalled : Text → List FileChange → Text → Type 0 where
  unchanged : (name : Text) → WasCalled name [] name
  renamed :
      (c : FileChange) (cs : List FileChange) (oldest : Text)
      → is_rename c ≡ true
      → WasCalled c.old_path cs oldest
      → WasCalled c.path (c ∷ cs) oldest
  not_renamed :
      (c : FileChange) (cs : List FileChange) (name oldest : Text)
      → WasCalled name cs oldest
      → WasCalled name (c ∷ cs) oldest

-- A name that matches, or is tracked.
abbrev IsFollowed : (Text → Bool) → List Text → Text → Type 0
IsFollowed matcher tracked name = (matcher name || contains tracked name) ≡ true

IsFollowed-on :
    (matcher : Text → Bool) (c : FileChange) (tracked : List Text) (name : Text)
    → IsFollowed matcher tracked name
    → IsFollowed matcher (match_file_change matcher true c tracked).1 name
unfolding match_file_change contains
IsFollowed-on matcher c tracked name h = ground arith

IsFollowed-over :
    (matcher : Text → Bool) (c : FileChange) (tracked : List Text)
    → is_rename c ≡ true
    → IsFollowed matcher tracked c.path
    → IsFollowed matcher (match_file_change matcher true c tracked).1 c.old_path
unfolding match_file_change contains
IsFollowed-over matcher c tracked r h = ground (arith, text_eq_refl c.old_path)

IsFollowed-after :
    (matcher : Text → Bool) (name : Text) (cs : List FileChange) (oldest : Text)
    (tracked : List Text)
    → WasCalled name cs oldest
    → IsFollowed matcher tracked name
    → IsFollowed matcher (tracked_after matcher cs tracked) oldest
IsFollowed-after matcher _ _ _ tracked (unchanged name) h = h
IsFollowed-after matcher _ _ _ tracked (renamed c cs oldest r was) h =
    IsFollowed-after matcher c.old_path cs oldest _ was (IsFollowed-over matcher c tracked r h)
IsFollowed-after matcher _ _ _ tracked (not_renamed c cs name oldest was) h =
    IsFollowed-after matcher name cs oldest _ was (IsFollowed-on matcher c tracked name h)

-- When renames are followed from the newest change to the oldest, a file whose newest name matches
-- is matched under each older name: a change of it is matched even if no path of the change
-- matches the pattern, whatever changes of other files stand between.
pub match_file_change-WasCalled :
    (matcher : Text → Bool) (name : Text) (cs : List FileChange) (oldest : FileChange)
    (tracked : List Text)
    → matcher name ≡ true
    → WasCalled name cs oldest.path
    → (match_file_change matcher true oldest (tracked_after matcher cs tracked)).0 ≡ true
unfolding match_file_change
match_file_change-WasCalled matcher name cs oldest tracked h was =
    ground (arith, IsFollowed-after matcher name cs oldest.path tracked was (ground arith))
