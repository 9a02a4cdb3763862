-- ===== src/Desktop/Rewrite.antt =====
-- internal/desktop/commit_rewrite.go: what a rewrite of commits accepts, and the trailers that it
-- writes into messages. `time.Parse` with RFC 3339 is a parameter.
pub mod Stripping
pub mod Provenance
mod Samples
use gitgit.Prelude.{
  ℕ, ◌≡◌, Bool, true, false, not, ◌&&◌, ◌||◌, Option, none, some, List, [], ◌∷◌, ◌++◌, reverse, ltb,
  ◌==◌, if◌then◌else◌,
}
use gitgit.Text.{
  Text, lit, text_eq, is_empty, has_prefix, has_suffix, contains_byte, contains_any, contains,
  count_byte, trim_space, split, join, replace_crlf,
}
use gitgit.Text.Runes.{rune_count}
use gitgit.Apperr.{
  Failure, plain, plain_message, formatted, Result, ok, err, ◌>>=◌, ◌>>◌, refuse_if,
}
use gitgit.Path.{is_abs, clean}
use gitgit.Search.Changes.{FileChange}

abbrev pub maximum_rewrite_provenance_note : ℕ
maximum_rewrite_provenance_note = 500

abbrev pub maximum_rewrite_author_name : ℕ
maximum_rewrite_author_name = 256

abbrev pub maximum_rewrite_author_email : ℕ
maximum_rewrite_author_email = 320

abbrev pub message_error : Text → Failure
message_error message = plain (plain_message message)

-- The bytes "\x00\r\n", "\r\n" and "<>\t ".
abbrev pub controls : Text
controls = 0 ∷ b'\r' ∷ b'\n' ∷ []

abbrev pub new_lines : Text
new_lines = b'\r' ∷ b'\n' ∷ []

abbrev pub email_delimiters : Text
email_delimiters = b'<' ∷ b'>' ∷ b'\t' ∷ b' ' ∷ []

-- `validateRewriteAuthor`.
unfoldable pub validate_rewrite_author : Text → Text → Result (Unit {0})
validate_rewrite_author name email = do
  refuse_if (is_empty name) (message_error (lit "author name is required"))
  refuse_if (ltb maximum_rewrite_author_name (rune_count name))
      (message_error (lit "author name exceeds the 256 character limit"))
  refuse_if (contains_any controls name)
      (message_error (lit "author name contains an invalid control character"))
  refuse_if (is_empty email) (message_error (lit "author email is required"))
  refuse_if (ltb maximum_rewrite_author_email (rune_count email))
      (message_error (lit "author email exceeds the 320 character limit"))
  refuse_if (contains_any controls email || contains_any email_delimiters email)
      (message_error (lit "author email must be a single email address"))
  refuse_if
      (not (count_byte b'@' email == 1) || has_prefix (lit "@") email || has_suffix (lit "@") email)
      (message_error (lit "author email must include a local part and domain"))
  ok tt

pub record Author : Type 0 where
  pub name : Text
  pub email : Text

module _ (is_rfc3339 : Text → Bool) where
  unfoldable pub validate_rewrite_author_date : Text → Result (Unit {0})
  validate_rewrite_author_date value = do
    refuse_if (is_empty value) (message_error (lit "author date is required"))
    refuse_if (contains_any controls value)
        (message_error (lit "author date contains an invalid control character"))
    refuse_if (not (is_rfc3339 value))
        (message_error (lit "author date must use ISO 8601 with a timezone"))
    ok tt

  pub planned_author : Author → Option Author → Result Author
  planned_author author none = ok author
  planned_author author (some planned) = do
    validate_rewrite_author (trim_space planned.name) (trim_space planned.email)
    ok (record { name = trim_space planned.name; email = trim_space planned.email })

  pub planned_date : Text → Option Text → Result Text
  planned_date date none = ok date
  planned_date date (some planned) = do
    validate_rewrite_author_date (trim_space planned)
    ok (trim_space planned)

  -- `rewriteCommitAuthorAndDate`, from the author and date of the commit and the planned ones.
  unfoldable pub rewrite_commit_author_and_date :
      Author → Text → Option Author → Option Text → Result (Author × Text)
  unfolding planned_author planned_date
  rewrite_commit_author_and_date author date new_author new_date = do
    a ← planned_author author new_author
    d ← planned_date date new_date
    ok (a, d)

-- `validateRewriteProvenanceNote`.
unfoldable pub validate_rewrite_provenance_note : Bool → Text → Result Text
validate_rewrite_provenance_note enabled note = if not enabled then ok [] else do
  refuse_if (ltb maximum_rewrite_provenance_note (rune_count (trim_space note)))
      (message_error (lit "rewrite provenance note exceeds the 500 character limit"))
  refuse_if (contains_any new_lines (trim_space note))
      (message_error (lit "rewrite provenance note must be a single line"))
  ok (trim_space note)

-- The trailers with the space behind them.
unfoldable pub is_rewrite_provenance_trailer : Text → Bool
is_rewrite_provenance_trailer line =
    has_prefix (lit "rewritten from: ") line
    || has_prefix (lit "GitGit-Rewritten-From: ") line
    || has_prefix (lit "GitGit-Rewrite-Note: ") line

unfoldable pub is_blank : Text → Bool
is_blank line = is_empty (trim_space line)

-- The loops that move `end` down, over the lines in the reversed order.
unfoldable pub drop_lines : (Text → Bool) → List Text → List Text
drop_lines test [] = []
drop_lines test (line ∷ lines) =
    let rest = drop_lines test lines in if test line then rest else line ∷ lines

-- The lines that are left, the last first.
unfoldable pub stripped_lines : List Text → List Text
stripped_lines reversed =
    drop_lines is_blank (drop_lines is_rewrite_provenance_trailer (drop_lines is_blank reversed))

-- `stripTrailingRewriteProvenance`.
unfoldable pub strip_trailing_rewrite_provenance : Text → Text
strip_trailing_rewrite_provenance message =
    join b'\n' (reverse (stripped_lines (reverse (split b'\n' (replace_crlf message)))))

abbrev pub note_trailers : Text → List Text
note_trailers note = if is_empty note then [] else (lit "GitGit-Rewrite-Note: " ++ note) ∷ []

-- `appendRewriteProvenance`.
unfoldable pub append_rewrite_provenance : Text → Text → Text → Text
append_rewrite_provenance message source_oid note =
    strip_trailing_rewrite_provenance message
    ++ (b'\n' ∷ b'\n' ∷ join b'\n' ((lit "rewritten from: " ++ source_oid) ∷ note_trailers note))

-- `validateCommitFilePath`.
unfoldable pub validate_commit_file_path : Text → Result Text
validate_commit_file_path path =
    if is_empty path || is_abs path
    then err (message_error (lit "file path must be repository-relative"))
    else (let cleaned = clean path in
        if text_eq cleaned (lit ".")
          || text_eq cleaned (lit "..")
          || has_prefix (lit "../") cleaned
          || contains_byte cleaned 0
        then err (message_error (lit "file path escapes the repository"))
        else ok cleaned)

-- `commitChangesPath`, `containsBranch` and `isRegularGitFileMode`.
unfoldable pub commit_changes_path : List FileChange → Text → Bool
commit_changes_path [] path = false
commit_changes_path (file ∷ files) path =
    let rest = commit_changes_path files path in
    if text_eq file.path path || text_eq file.old_path path then true else rest

unfoldable pub contains_branch : List Text → Text → Bool
contains_branch branches target = contains branches target

unfoldable pub is_regular_git_file_mode : Text → Bool
is_regular_git_file_mode mode = text_eq mode (lit "100644") || text_eq mode (lit "100755")
