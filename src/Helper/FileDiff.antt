-- ===== src/Helper/FileDiff.antt =====
-- internal/vscodehelper/search_diff.go: the diff of one file in Git's output.
pub mod Headers
use gitgit.Prelude.{
  ℕ, zero, suc, ◌+◌, ◌-◌, Bool, true, false, not, ◌&&◌, ◌||◌, Option, none, some, List, [], ◌∷◌,
  ◌++◌, take, drop, ◌==◌, length, if◌then◌else◌,
}
use gitgit.Text.{
  Text, lit, text_eq, is_empty, has_prefix, fields, split, trim_space, trim_right_newlines,
}
use gitgit.Text.Search.{index?}
use gitgit.Apperr.{
  Failure, plain, plain_message, formatted, Result, ok, err, ◌>>=◌, ◌>>◌, refuse_if,
}
use gitgit.Search.Changes.{FileChange}
use gitgit.Helper.History.{valid_file_status, moves_path, change_of}

-- `selectDiffChange`, with none for not found.
unfoldable pub select_diff_change : List FileChange → Text → Text → Option FileChange
select_diff_change [] path old_path = none
select_diff_change (change ∷ changes) path old_path =
    let rest = select_diff_change changes path old_path in
    if text_eq change.path path && (is_empty old_path || text_eq change.old_path old_path)
    then some change
    else rest

-- `binaryDiff`.
unfoldable pub has_binary_line : List Text → Bool
has_binary_line [] = false
has_binary_line (line ∷ lines) =
    has_prefix (lit "Binary files ") line
    || text_eq line (lit "GIT binary patch")
    || has_binary_line lines

unfoldable pub binary_diff : Text → Bool
unfolding has_binary_line
binary_diff diff = has_binary_line (split b'\n' diff)

pub record RawFileChange : Type 0 where
  pub change : FileChange
  pub patch_count : ℕ

-- What a token of the raw part tells: nothing, a status with one path or two and the number of its
-- patches, or an error.
pub data RawToken : Type 0 where
  raw_blank raw_invalid : RawToken
  raw_one : Text → ℕ → RawToken
  raw_two : Text → ℕ → RawToken

abbrev without_first : Text → Text
without_first [] = []
without_first (c ∷ cs) = cs

abbrev starts_with_byte : ℕ → Text → Bool
starts_with_byte b [] = false
starts_with_byte b (c ∷ _) = c == b

-- Git writes one raw record and two patches where a file becomes a submodule, or the reverse.
unfoldable pub patch_count_of : Text → Text → Text → ℕ
patch_count_of status old_mode new_mode =
    if starts_with_byte b'T' status
      && (text_eq (without_first old_mode) (lit "160000") || text_eq new_mode (lit "160000"))
    then 2
    else 1

unfoldable pub raw_record : List Text → RawToken
unfolding patch_count_of
raw_record (old_mode ∷ new_mode ∷ old_id ∷ new_id ∷ status ∷ []) =
    if not (starts_with_byte b':' old_mode) || not (valid_file_status status)
    then raw_invalid
    else if moves_path status
    then raw_two status (patch_count_of status old_mode new_mode)
    else raw_one status (patch_count_of status old_mode new_mode)
raw_record _ = raw_invalid

unfoldable pub raw_token : Text → RawToken
unfolding raw_record
raw_token token = if is_empty token then raw_blank else raw_record (fields token)

abbrev nothing_more : Text → Failure
nothing_more text = plain (plain_message text)

abbrev raw_of : FileChange → ℕ → RawFileChange
raw_of change count = record { change = change; patch_count = count }

-- The loop of `parseRawFileChanges`.
unfoldable pub raw_changes : List Text → Result (List RawFileChange)
unfolding raw_token
raw_changes [] = ok []
raw_changes (t ∷ []) = elim (raw_token t) [
  | raw_blank ↦ ok []
  | raw_invalid ↦ err (nothing_more (lit "Git returned an invalid raw diff record"))
  | raw_one status count ↦ err (nothing_more (lit "Git raw diff path is missing"))
  | raw_two status count ↦ err (nothing_more (lit "Git raw diff path is missing"))
]
raw_changes (t ∷ p ∷ []) = elim (raw_token t) [
  | raw_blank ↦ raw_changes (p ∷ [])
  | raw_invalid ↦ err (nothing_more (lit "Git returned an invalid raw diff record"))
  | raw_one status count ↦ ok (raw_of (change_of status [] p) count ∷ [])
  | raw_two status count ↦ err (nothing_more (lit "Git raw rename paths are missing"))
]
raw_changes (t ∷ p ∷ q ∷ tokens) = elim (raw_token t) [
  | raw_blank ↦ raw_changes (p ∷ q ∷ tokens)
  | raw_invalid ↦ err (nothing_more (lit "Git returned an invalid raw diff record"))
  | raw_one status count ↦
      raw_changes (q ∷ tokens) >>= λ rest. ok (raw_of (change_of status [] p) count ∷ rest)
  | raw_two status count ↦
      raw_changes tokens >>= λ rest. ok (raw_of (change_of status p q) count ∷ rest)
]

-- `parseRawFileChanges`.
unfoldable pub parse_raw_file_changes : Text → Result (List RawFileChange)
unfolding raw_changes
parse_raw_file_changes raw = raw_changes (split 0 raw)

abbrev pub header_line : Text
header_line = lit "\ndiff --git "

-- The loop of `patchHeaderStarts` from an offset, over the text behind it. The length of the text
-- is fuel enough: `Headers` proves it.
unfoldable pub header_starts_from : ℕ → ℕ → Text → List ℕ
unfolding index?
header_starts_from zero offset text = []
header_starts_from (suc fuel) offset text = elim (index? header_line text) [
  | none ↦ []
  | some relative ↦
      (offset + relative + 1)
      ∷ header_starts_from fuel (offset + relative + 2) (drop (relative + 2) text)
]

-- `patchHeaderStarts`.
unfoldable pub patch_header_starts : Text → List ℕ
unfolding header_starts_from
patch_header_starts [] = []
patch_header_starts (c ∷ cs) =
    if has_prefix (lit "diff --git ") (c ∷ cs) then 0 ∷ header_starts_from (length cs) 1 cs else []

unfoldable pub patch_total : List RawFileChange → ℕ
patch_total [] = 0
patch_total (r ∷ rs) = r.patch_count + patch_total rs

-- The end of a patch: the next header, or the end of the text.
abbrev end_of : Text → List ℕ → ℕ
end_of patches [] = length patches
end_of patches (start ∷ _) = start

-- A slice without the line feeds at its end. An index that is out of range, where Go would panic, is
-- ruled out by the test of the patch count: the model gives the empty text there.
unfoldable pub patch_at : Text → List ℕ → ℕ → Text
patch_at patches [] count = []
patch_at patches (start ∷ starts) count =
    let last = end_of patches (drop count (start ∷ starts)) in
    trim_right_newlines (take (last - start) (drop start patches))

unfoldable pub same_change : FileChange → FileChange → Bool
same_change a b =
    text_eq a.status b.status && text_eq a.path b.path && text_eq a.old_path b.old_path

-- The last loop of `selectExactFileDiff`, with the starts that are left.
unfoldable pub select_patch : Text → FileChange → List RawFileChange → List ℕ → Text
unfolding same_change patch_at
select_patch patches selected [] starts = []
select_patch patches selected (r ∷ rs) starts =
    let rest = select_patch patches selected rs (drop r.patch_count starts) in
    if same_change r.change selected then patch_at patches starts r.patch_count else rest

abbrev count_error : Failure
count_error =
    plain
      (formatted (lit "Git returned %d raw changes requiring %d file patches and emitted %d") [])

-- `selectExactFileDiff`, with the empty text for nil.
unfoldable pub select_exact_file_diff : Text → FileChange → Result Text
unfolding select_patch patch_total patch_header_starts
select_exact_file_diff output selected = elim (index? (0 ∷ 0 ∷ []) output) [
  | none ↦
      if is_empty (trim_space output)
      then ok []
      else err (nothing_more (lit "Git returned a diff without a raw/patch boundary"))
  | some separator ↦ parse_raw_file_changes (take (separator + 1) output) >>= λ changes.
      refuse_if
        (not (patch_total changes == length (patch_header_starts (drop (separator + 2) output))))
        count_error
      >> ok (
          select_patch (drop (separator + 2) output) selected changes
            (patch_header_starts (drop (separator + 2) output)))
]
