-- ===== src/Helper/Blame.antt =====
-- internal/vscodehelper/methods.go: what `git blame --line-porcelain` and the log of its commits
-- tell. How a time is written is given by the host.
pub mod Lines
use gitgit.Prelude.{
  ℕ, suc, ◌+◌, ◌*◌, ◌%◌, Bool, true, false, not, ◌&&◌, ◌||◌, Option, none, some, List, [], ◌∷◌,
  ◌++◌, take, drop, ltb, leb, ◌==◌, length, if◌then◌else◌, ℤ, pos, negsuc, ◌+ℤ◌, negated, scaled,
  at_most,
}
use gitgit.Text.{
  Text, lit, text_eq, is_empty, contains, contains_byte, has_prefix, has_suffix, trim_prefix,
  fields, split, join, cut,
}
use gitgit.Text.Numbers.{parse_int}
use gitgit.Assoc.{Assoc, put}
use gitgit.Apperr.{
  Failure, plain, wrapped, formatted, plain_message, Result, ok, err, ◌>>=◌, ◌>>◌, refuse_if,
}
use gitgit.Search.Changes.{all_bytes}
use gitgit.Helper.Revision.{is_object_id}
use gitgit.Helper.History.{are_object_ids}
use gitgit.Helper.History.Commits.{Author, without_last_empty}

pub record BlameLine : Type 0 where
  pub line : ℤ
  pub original_line : ℤ
  pub commit : Text
  pub author : Author
  pub date : Text
  pub message : Text
  pub content : Text

pub record BlameCommitMetadata : Type 0 where
  pub message : Text
  pub parent_count : ℕ

-- `isWorkingTreeObjectID`.
unfoldable pub is_working_tree_object_id : Text → Bool
is_working_tree_object_id t = (length t == 40 || length t == 64) && all_bytes (λ c. c == b'0') t

-- The offset of a timezone in seconds, from the sign and the two numbers behind it.
abbrev offset_of : ℕ → Option ℤ → Option ℤ → ℤ
offset_of sign none minutes = pos 0
offset_of sign (some hours) none = pos 0
offset_of sign (some hours) (some minutes) =
    let offset = scaled 3600 hours +ℤ scaled 60 minutes in
    if not (at_most hours 23 && at_most minutes 59)
    then pos 0
    else if sign == b'-'
    then negated offset
    else offset

unfoldable pub timezone_offset : Text → ℤ
timezone_offset (sign ∷ a ∷ b ∷ c ∷ d ∷ []) =
    if sign == b'+' || sign == b'-'
    then offset_of sign (parse_int (a ∷ b ∷ [])) (parse_int (c ∷ d ∷ []))
    else pos 0
timezone_offset _ = pos 0

-- `formatGitTimestamp`; `written` is the RFC 3339 form of a Unix time at an offset.
unfoldable pub format_git_timestamp : (ℤ → ℤ → Text) → Text → Text → Text
unfolding timezone_offset
format_git_timestamp written seconds timezone = elim (parse_int seconds) [
  | none ↦ []
  | some unix_seconds ↦ written unix_seconds (timezone_offset timezone)
]

-- A record of blame that has no content yet.
pub record Pending : Type 0 where
  pub item : BlameLine
  pub author_time : Text
  pub author_timezone : Text

-- `strings.TrimSuffix(text, ">")`.
unfoldable pub without_angle : Text → Text
without_angle [] = []
without_angle (c ∷ []) = if c == b'>' then [] else c ∷ []
without_angle (c ∷ d ∷ cs) = c ∷ without_angle (d ∷ cs)

-- The switch on the key of a line.
unfoldable pub with_field : Text → Text → Pending → Pending
unfolding without_angle
with_field key value p =
    if text_eq key (lit "author")
    then record p {
      item = record (p.item) { author = record { name = value; email = p.item.author.email } };
    }
    else if text_eq key (lit "author-mail")
    then record p {
      item = record (p.item) {
        author = record {
          name = p.item.author.name;
          email = without_angle (trim_prefix (lit "<") value);
        };
      };
    }
    else if text_eq key (lit "author-time")
    then record p { author_time = value }
    else if text_eq key (lit "author-tz")
    then record p { author_timezone = value }
    else if text_eq key (lit "summary")
    then record p { item = record (p.item) { message = value } }
    else p

unfoldable pub with_line : Text → Pending → Pending
unfolding with_field
with_line line p =
    if contains_byte line b' '
    then (let (key, value) = cut b' ' line in with_field key value p)
    else p

abbrev blame_error : Text → Failure
blame_error text = plain (plain_message text)

-- What `strconv.Atoi` gives for a text, its error wrapped.
abbrev number_or : Text → Text → Option ℤ → Result ℤ
number_or format text none =
    err (wrapped format [] (plain (formatted (lit "strconv.Atoi: parsing %q") (text ∷ []))))
number_or format text (some n) = ok n

-- `BlameLine{Commit: …, OriginalLine: …, Line: …}` without the fields that are read later.
abbrev new_pending : Text → ℤ → ℤ → Pending
new_pending commit original_line final_line = record {
  item = record {
    line = final_line;
    original_line = original_line;
    commit = commit;
    author = record { name = []; email = [] };
    date = [];
    message = [];
    content = [];
  };
  author_time = [];
  author_timezone = [];
}

-- The header of a record: the commit, the original line and the final line.
unfoldable pub blame_header : List Text → Result Pending
blame_header (commit ∷ original ∷ final ∷ _) = do
  refuse_if (not (is_object_id commit)) (blame_error (lit "invalid blame header"))
  original_line ← number_or (lit "invalid original blame line: %w") original (parse_int original)
  final_line ← number_or (lit "invalid final blame line: %w") final (parse_int final)
  ok (new_pending commit original_line final_line)
blame_header _ = err (blame_error (lit "invalid blame header"))

-- The content of a record, behind a tab.
unfoldable pub tab_content : Text → Option Text
tab_content [] = none
tab_content (c ∷ cs) = if c == b'\t' then some cs else none

module _ (written : ℤ → ℤ → Text) where
  abbrev finished : Text → Pending → BlameLine
  finished content p = record (p.item) {
    content = content;
    date = format_git_timestamp written p.author_time p.author_timezone;
  }

  -- The loops of `parseLinePorcelain`: outside a record, or inside one.
  unfoldable pub porcelain_lines : Option Pending → List Text → Result (List BlameLine)
  unfolding blame_header tab_content with_line
  porcelain_lines none [] = ok []
  porcelain_lines (some p) [] = err (blame_error (lit "blame record is missing content"))
  porcelain_lines none (line ∷ lines) = elim (is_empty line) [
    | true ↦ porcelain_lines none lines
    | false ↦ blame_header (fields line) >>= λ p. porcelain_lines (some p) lines
  ]
  porcelain_lines (some p) (line ∷ lines) = elim (tab_content line) [
    | none ↦ porcelain_lines (some (with_line line p)) lines
    | some content ↦ porcelain_lines none lines >>= λ rest. ok (finished content p ∷ rest)
  ]

  -- `parseLinePorcelain`.
  unfoldable pub parse_line_porcelain : Text → Result (List BlameLine)
  unfolding porcelain_lines
  parse_line_porcelain output = porcelain_lines none (split b'\n' output)

-- The commits of the lines that metadata is asked for: each once, and none of the working tree.
unfoldable pub blamed_commits : List Text → List BlameLine → List Text
blamed_commits seen [] = []
blamed_commits seen (l ∷ ls) =
    let rest = blamed_commits seen ls in
    let after = blamed_commits (l.commit ∷ seen) ls in
    if contains seen l.commit || is_working_tree_object_id l.commit then rest else l.commit ∷ after

abbrev pub Metadata : Type 0
Metadata = Assoc BlameCommitMetadata

abbrev metadata_entry : Text → ℕ → BlameCommitMetadata
metadata_entry message count = record { message = message; parent_count = count }

-- The loop over the fields of `git log`, three at a time; a field that is no object id leaves no
-- metadata at all.
unfoldable pub metadata_fields : List Text → Metadata → Metadata
metadata_fields (commit ∷ parents ∷ message ∷ rest) m =
    let ids = fields parents in
    let skipped = metadata_fields rest m in
    let kept = metadata_fields rest (put commit (metadata_entry message (length ids)) m) in
    if not (is_object_id commit) || not (are_object_ids ids)
    then []
    else if ltb 64 (length ids)
    then skipped
    else kept
metadata_fields _ m = m

unfoldable pub blame_metadata : Text → Metadata
unfolding metadata_fields
blame_metadata output =
    let found = without_last_empty (split 0 output) in
    if length found % 3 == 0 then metadata_fields found [] else []
