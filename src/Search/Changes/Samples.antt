-- ===== src/Search/Changes/Samples.antt =====
-- A batch of two commits, and a file that was renamed.
use gitgit.Prelude.{◌≡◌, refl, Bool, true, false, List, [], ◌∷◌, ◌++◌, All, arith}
use gitgit.Text.{Text, lit, text_eq, is_empty, has_prefix, contains_byte, contains, split}
use gitgit.Apperr.{ok, ◌>>=◌}
use gitgit.Search.Changes.{
  FileChange, is_hex, all_bytes, is_git_object_id, is_decimal, is_file_change_status, moves,
  read_tokens, no_changes, match_file_change,
}
use gitgit.Search.Changes.RoundTrip.{
  IsSection, batch_tokens, terminated, changes_of, printed_for, read_tokens-terminated,
}
use gitgit.Search.Changes.Renames.{
  unchanged, renamed, is_rename, tracked_after, match_file_change-WasCalled,
}

abbrev first_id : Text
first_id = lit "0123456789abcdef0123456789abcdef01234567"

abbrev second_id : Text
second_id = lit "fedcba9876543210fedcba9876543210fedcba98"

abbrev rename : FileChange
rename = record { status = lit "R100"; old_path = lit "old.go"; path = lit "new.go" }

abbrev addition : FileChange
addition = record { status = lit "A"; old_path = []; path = lit "R100" }

abbrev ids : List Text
ids = first_id ∷ second_id ∷ []

abbrev batch : List (Text × List FileChange)
batch = (first_id, rename ∷ addition ∷ []) ∷ (second_id, []) ∷ []

batch_sections : All (IsSection ids) batch
unfolding is_git_object_id all_bytes is_hex is_file_change_status is_decimal contains contains_byte
    text_eq lit moves
batch_sections =
    ((refl, refl, ((refl, λ e. ground arith), ((refl, λ e. refl), tt))), ((refl, refl, tt), tt))

batch_plain : All (λ t. contains_byte t 0 ≡ false) (batch_tokens batch)
unfolding contains_byte lit moves
batch_plain = (refl, (refl, (refl, (refl, (refl, (refl, (refl, tt)))))))

read_tokens-terminated_example :
    (do
      found ← read_tokens ids (split 0 (terminated (batch_tokens batch))) [] (no_changes ids)
      ok (changes_of first_id found))
    ≡ ok (changes_of first_id (no_changes ids) ++ printed_for first_id batch)
read_tokens-terminated_example =
    read_tokens-terminated ids batch (no_changes ids) first_id batch_sections batch_plain

abbrev names_new : Text → Bool
names_new path = text_eq path (lit "new.go")

names_itself : names_new rename.path ≡ true
unfolding text_eq lit
names_itself = refl

abbrev old_change : FileChange
old_change = record { status = lit "M"; old_path = []; path = lit "old.go" }

was_renamed : is_rename rename ≡ true
unfolding has_prefix is_empty lit
was_renamed = refl

match_file_change-WasCalled_example :
    (match_file_change names_new true old_change (tracked_after names_new (rename ∷ []) [])).0
    ≡ true
match_file_change-WasCalled_example =
    match_file_change-WasCalled names_new rename.path (rename ∷ []) old_change [] names_itself
      (renamed rename [] rename.old_path was_renamed (unchanged rename.old_path))
