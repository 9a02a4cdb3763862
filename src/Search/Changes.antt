-- ===== src/Search/Changes.antt =====
-- internal/app/search.go: the commits and changed files that a search reads from Git.
pub mod RoundTrip
pub mod Renames
mod Samples
use gitgit.Prelude.{
  ℕ, zero, suc, ◌+◌, ◌≡◌, Bool, true, false, not, ◌&&◌, ◌||◌, Option, none, some, List, [], ◌∷◌,
  ◌++◌, leb, ◌==◌, length, if◌then◌else◌,
}
use gitgit.Text.{
  Text, lit, text_eq, is_empty, has_prefix, contains_byte, contains, trim_space, trim_prefix,
  trim_right_newlines, split, join,
}
use gitgit.Text.Order.{sort_texts}
use gitgit.Assoc.{Assoc, get, put}
use gitgit.Apperr.{Failure, plain, formatted, Result, ok, err}
use gitgit.Apperr
use gitgit.Git.{Git, Exec, pure, fail, lift, ◌>>=◌, ◌>>◌, run}
use gitgit.Search.Options.{SearchOptions}

pub record FileChange : Type 0 where
  pub status : Text
  pub old_path : Text
  pub path : Text

-- `isGitObjectID`: forty or sixty-four digits of "0123456789abcdef".
unfoldable pub is_hex : ℕ → Bool
is_hex c = (leb b'0' c && leb c b'9') || (leb b'a' c && leb c b'f')

unfoldable pub all_bytes : (ℕ → Bool) → Text → Bool
all_bytes test [] = true
all_bytes test (c ∷ cs) = test c && all_bytes test cs

unfoldable pub is_git_object_id : Text → Bool
is_git_object_id t = (length t == 40 || length t == 64) && all_bytes is_hex t

unfoldable pub is_decimal : ℕ → Bool
is_decimal c = leb b'0' c && leb c b'9'

-- `isFileChangeStatus`.
unfoldable pub is_file_change_status : Text → Bool
is_file_change_status [] = false
is_file_change_status (c ∷ cs) = contains_byte (lit "ACDMRTUXB") c && all_bytes is_decimal cs

-- What a token of the output stands for, by the object id that is current ("" for none).
pub data TokenKind : Type 0 where
  blank commit takes_one takes_two : TokenKind
  refused : Text → TokenKind

unfoldable pub moves : Text → Bool
moves [] = false
moves (c ∷ cs) = c == b'R' || c == b'C'

unfoldable pub token_kind : List Text → Text → Text → TokenKind
unfolding moves
token_kind requested current token =
    if is_empty token
    then blank
    else if is_git_object_id token
    then (if contains requested token
        then commit
        else refused (lit "unexpected commit object id %q in diff-tree output"))
    else if is_empty current
    then refused (lit "changed-file status %q appeared before a commit object id")
    else if not (is_file_change_status token)
    then refused (lit "unexpected changed-file status %q")
    else if moves token
    then takes_two
    else takes_one

abbrev pub Changes : Type 0
Changes = Assoc (List FileChange)

-- What a map gives for a key; an empty list where it is missing.
abbrev pub changes_or_none : Option (List FileChange) → List FileChange
changes_or_none none = []
changes_or_none (some changes) = changes

pub add_change : Text → FileChange → Changes → Changes
add_change oid change m = put oid (changes_or_none (get oid m) ++ (change ∷ [])) m

abbrev pub one_path : Text → Text → FileChange
one_path status path = record { status = status; old_path = []; path = path }

abbrev pub two_paths : Text → Text → Text → FileChange
two_paths status old path = record { status = status; old_path = old; path = path }

abbrev pub about : Text → Text → Result Changes
about format token = err (plain (formatted format (token ∷ [])))

-- The loop over the tokens.
unfoldable pub read_tokens : List Text → List Text → Text → Changes → Result Changes
read_tokens requested [] current m = ok m
read_tokens requested (token ∷ []) current m = elim (token_kind requested current token) [
  | blank ↦ ok m
  | commit ↦ ok m
  | takes_one ↦ about (lit "missing path for status %q") token
  | takes_two ↦ about (lit "missing path for status %q") token
  | refused format ↦ about format token
]
read_tokens requested (token ∷ path ∷ []) current m = elim (token_kind requested current token) [
  | blank ↦ read_tokens requested (path ∷ []) current m
  | commit ↦ read_tokens requested (path ∷ []) token m
  | takes_one ↦ ok (add_change current (one_path token path) m)
  | takes_two ↦ about (lit "missing rename paths for status %q") token
  | refused format ↦ about format token
]
read_tokens requested (token ∷ path ∷ after ∷ tokens) current m =
    elim (token_kind requested current token) [
      | blank ↦ read_tokens requested (path ∷ after ∷ tokens) current m
      | commit ↦ read_tokens requested (path ∷ after ∷ tokens) token m
      | takes_one ↦
          read_tokens requested (after ∷ tokens) current
            (add_change current (one_path token path) m)
      | takes_two ↦
          read_tokens requested tokens current (add_change current (two_paths token path after) m)
      | refused format ↦ about format token
    ]

-- The object ids that are asked for, trimmed.
unfoldable pub requested_ids : List Text → Result (List Text)
requested_ids [] = ok []
requested_ids (given ∷ givens) =
    let oid = trim_space given in
    let rest = requested_ids givens in
    if is_empty oid || contains_byte oid 0 || contains_byte oid b'\n'
    then err (plain (formatted (lit "invalid commit object id %q") (oid ∷ [])))
    else Apperr.◌>>=◌ rest (λ oids. ok (oid ∷ oids))

unfoldable pub lines_of : List Text → Text
lines_of [] = []
lines_of (oid ∷ oids) = oid ++ b'\n' ∷ lines_of oids

unfoldable pub no_changes : List Text → Changes
no_changes [] = []
no_changes (oid ∷ oids) = put oid [] (no_changes oids)

abbrev paths_behind : List Text → List Text
paths_behind [] = []
paths_behind (path ∷ paths) = lit "--" ∷ path ∷ paths

module _ (git : Git) (root : Text) where
  pub read_batch : List Text → Bool → List Text → Exec Changes
  read_batch paths first_parent oids = do
    output ← run git root (some (lines_of oids)) (
        (lit "diff-tree"
          ∷ lit "--stdin"
          ∷ lit "--root"
          ∷ lit "--name-status"
          ∷ lit "-r"
          ∷ lit "-z"
          ∷ lit "-M"
          ∷ [])
        ++ ((if first_parent then lit "-m" ∷ lit "--first-parent" ∷ [] else [])
            ++ paths_behind paths))
    lift (read_tokens oids (split 0 output) [] (no_changes oids))

  -- `ReadCommitFileChangesBatch`.
  unfoldable pub read_commit_file_changes_batch : List Text → List Text → Bool → Exec Changes
  unfolding read_batch
  read_commit_file_changes_batch commits paths first_parent =
      if length commits == 0
      then pure []
      else do oids ← lift (requested_ids commits); read_batch paths first_parent oids

-- `searchScopeArgs` and `searchFilterArgs`.
unfoldable pub search_scope_args : SearchOptions → List Text
search_scope_args o =
    if o.all_refs
    then lit "--all" ∷ []
    else if is_empty o.revision
    then lit "--end-of-options" ∷ lit "HEAD" ∷ []
    else lit "--end-of-options" ∷ o.revision ∷ []

abbrev option_arg : Text → Text → List Text
option_arg name value = if is_empty value then [] else (name ++ value) ∷ []

unfoldable pub search_filter_args : SearchOptions → List Text
search_filter_args o =
    option_arg (lit "--author=") o.author
    ++ (option_arg (lit "--since-as-filter=") o.since ++ option_arg (lit "--until=") o.until)

-- `parseSearchDecorations`.
decorations : List Text → List Text
decorations [] = []
decorations (part ∷ parts) =
    let ref = trim_prefix (lit "HEAD -> ") (trim_space part) in
    let rest = decorations parts in if is_empty ref then rest else ref ∷ rest

unfoldable pub parse_search_decorations : Text → List Text
unfolding decorations
parse_search_decorations value = sort_texts (decorations (split b',' value))

-- `changedLines`: the text of the added and the removed lines of the hunks.
changed_text : Text → Text
changed_text [] = []
changed_text (c ∷ cs) = if c == b'+' || c == b'-' then cs ++ b'\n' ∷ [] else []

pub changed_lines_loop : Bool → List Text → Text
unfolding changed_text
changed_lines_loop in_hunk [] = []
changed_lines_loop in_hunk (line ∷ lines) =
    let outside = changed_lines_loop false lines in
    let inside = changed_lines_loop true lines in
    if has_prefix (lit "diff --git ") line
    then outside
    else if has_prefix (lit "@@") line
    then inside
    else if in_hunk
    then changed_text line ++ inside
    else outside

unfoldable pub changed_lines : Text → Text
unfolding changed_lines_loop
changed_lines diff = changed_lines_loop false (split b'\n' diff)

-- `matchFileChange` for a matcher that is not nil, with the set of tracked paths as a list; the result has the set after it.
unfoldable pub match_file_change : (Text → Bool) → Bool → FileChange → List Text → Bool × List Text
match_file_change matcher follow_rename change tracked =
    let path_matched = matcher change.path in
    let is_rename = has_prefix (lit "R") change.status && not (is_empty change.old_path) in
    let old_path_matched = is_rename && matcher change.old_path in
    let path_tracked = contains tracked change.path in
    let old_path_tracked = is_rename && contains tracked change.old_path in
    let matched = path_matched || old_path_matched || path_tracked || old_path_tracked in
    let after_path = if path_matched then change.path ∷ tracked else tracked in
    if not follow_rename
    then (path_matched, tracked)
    else (matched, if is_rename && matched then change.old_path ∷ after_path else after_path)
