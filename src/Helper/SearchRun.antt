-- ===== src/Helper/SearchRun.antt =====
-- internal/vscodehelper/search_diff.go: what `searchRun` makes of its params before it searches.
pub mod Accepted
pub mod Results
pub mod Paged
use gitgit.Prelude.{
  ℕ, suc, ◌+◌, ◌*◌, Bool, true, false, not, ◌&&◌, ◌||◌, Option, none, some, List, [], ◌∷◌, ◌++◌,
  ltb, ◌==◌, length, if◌then◌else◌, ℤ, pos, negsuc,
}
use gitgit.Text.{Text, lit, text_eq, is_empty, contains_byte, trim_space, to_lower}
use gitgit.Apperr.{Message, formatted, counted}
use gitgit.Search.Options.{SearchPredicate, SearchOptions, is_source, is_join}
use gitgit.Helper.Rpc.{
  Answer, answered, refused, RpcError, rpc_error, code_invalid_params, invalid_params, given_params,
}
use gitgit.Helper.Params.{first_given}
use gitgit.Helper.Revision.{has_control, validate_revision}

pub record SearchPattern : Type 0 where
  pub source : Text
  pub value : Text
  pub joined_by : Text
  pub open_groups : ℤ
  pub open_groups_snake : ℤ
  pub close_groups : ℤ
  pub close_groups_snake : ℤ

-- `openGroups` and `closeGroups`: the first number unless it is zero.
abbrev first_nonzero : ℤ → ℤ → ℤ
first_nonzero (pos ℕ.zero) second = second
first_nonzero (pos (ℕ.suc n)) second = pos (suc n)
first_nonzero (negsuc n) second = negsuc n

pub record SearchRunParams : Type 0 where
  pub repository_root : Text
  pub repository_root_snake : Text
  pub repository : Text
  pub patterns : List SearchPattern
  pub engine : Text
  pub scope : Text
  pub all_refs : Bool
  pub all_refs_snake : Bool
  pub author : Text
  pub since : Text
  pub until : Text
  pub follow_rename : Bool
  pub follow_rename_snake : Bool
  pub limit : ℤ
  pub context_lines : ℤ

-- `SearchRunParams.root`.
unfoldable pub search_root : SearchRunParams → Text
search_root p = first_given p.repository_root (first_given p.repository_root_snake p.repository)

-- What `searchRun` has made of its params when it searches.
pub record SearchRequest : Type 0 where
  pub root : Text
  pub scope : Text
  pub options : SearchOptions

abbrev refuse_with {ℓ} : {A : Type ℓ} → Text → Message → Answer A
refuse_with code message = refused (rpc_error code_invalid_params code message)

infixl 10 ◌>>=◌
abbrev pub ◌>>=◌ {ℓ κ} : {A : Type ℓ} {B : Type κ} → Answer A → (A → Answer B) → Answer B
answered a >>= f = f a
refused e >>= f = refused e

-- The limit: 100 for none, and at most 250.
unfoldable pub search_limit : ℤ → Answer ℕ
search_limit (negsuc n) =
    refused (invalid_params (lit "invalid_limit") (lit "limit must be zero or greater"))
search_limit (pos n) = answered (if n == 0 then 100 else if ltb 250 n then 250 else n)

-- The lines of context: 3 for none, and at most 100.
unfoldable pub search_context : ℤ → Answer ℕ
search_context (negsuc n) =
    refuse_with (lit "invalid_context") (counted (lit "context must be between zero and %d") 100)
search_context (pos n) =
    if ltb 100 n
    then refuse_with (lit "invalid_context")
        (counted (lit "context must be between zero and %d") 100)
    else answered (if n == 0 then 3 else n)

unfoldable pub search_engine : Text → Answer Text
search_engine raw =
    let engine = to_lower (trim_space raw) in
    let named = if is_empty engine then lit "glob" else engine in
    if text_eq named (lit "glob") || text_eq named (lit "regex")
    then answered named
    else refused (invalid_params (lit "invalid_engine") (lit "engine must be glob or regex"))

-- The joining word of a predicate; none where it is neither "and" nor "or".
unfoldable pub pattern_join : Bool → Text → Option Text
pattern_join first raw =
    let operator = to_lower (trim_space raw) in
    if first
    then some []
    else if is_empty operator
    then some (lit "or")
    else if is_join operator
    then some operator
    else none

-- The body of the loop over the patterns; `index` is that of the pattern.
unfoldable pub pattern_predicate : ℕ → SearchPattern → Answer SearchPredicate
unfolding pattern_join
pattern_predicate index p =
    let source = to_lower (trim_space p.source) in
    let value = trim_space p.value in
    if not (is_source source)
    then refuse_with (lit "invalid_pattern_source")
        (formatted (lit "unsupported pattern source %q") (p.source ∷ []))
    else if is_empty value
    then refuse_with (lit "invalid_pattern") (counted (lit "pattern %d is empty") (index + 1))
    else if ltb (16 * 1024) (length value)
    then refuse_with (lit "pattern_too_large")
        (counted (lit "pattern %d exceeds the size limit") (index + 1))
    else elim (pattern_join (index == 0) p.joined_by) [
      | none ↦
          refuse_with (lit "invalid_search_join")
            (formatted (lit "unsupported search join %q") (p.joined_by ∷ []))
      | some operator ↦ answered (record {
        source = source;
        value = value;
        joined_by = operator;
        open_groups = first_nonzero p.open_groups p.open_groups_snake;
        close_groups = first_nonzero p.close_groups p.close_groups_snake;
      })
    ]

unfoldable pub pattern_predicates_from : ℕ → List SearchPattern → Answer (List SearchPredicate)
unfolding pattern_predicate
pattern_predicates_from index [] = answered []
pattern_predicates_from index (p ∷ ps) = do
  predicate ← pattern_predicate index p
  predicates ← pattern_predicates_from (index + 1) ps
  answered (predicate ∷ predicates)

unfoldable pub refuse_filter : Text → Text → Answer (Unit {0})
refuse_filter name value =
    if has_control value
    then refused (
        invalid_params (lit "invalid_search_filter")
          (name ++ lit " contains an invalid control character"))
    else answered tt

-- The tests of the number of patterns.
unfoldable pub check_pattern_count : ℕ → Answer (Unit {0})
check_pattern_count n =
    if n == 0
    then refused (
        invalid_params (lit "missing_search_pattern")
          (lit "patterns must contain at least one condition"))
    else if ltb 64 n
    then refuse_with (lit "too_many_search_patterns")
        (counted (lit "patterns cannot contain more than %d conditions") 64)
    else answered tt

-- The scope that is shown, and the revision of the options.
unfoldable pub search_scope : Bool → Text → Answer (Text × Text)
search_scope true raw = answered (lit "All refs", [])
search_scope false raw =
    let trimmed = trim_space raw in
    let scope = if is_empty trimmed then lit "HEAD" else trimmed in
    elim (validate_revision scope) [
      | some e ↦ refused e
      | none ↦ answered (scope, if text_eq scope (lit "HEAD") then [] else scope)
    ]

abbrev pub options_of : SearchRunParams → List SearchPredicate → Text → ℕ → ℕ → Text → SearchOptions
options_of p predicates engine limit context revision = record {
  predicates = predicates;
  messages = [];
  diffs = [];
  files = [];
  engine = engine;
  follow_rename = p.follow_rename || p.follow_rename_snake;
  revision = revision;
  all_refs = p.all_refs || p.all_refs_snake;
  paths = [];
  author = trim_space p.author;
  since = trim_space p.since;
  until = trim_space p.until;
  limit = pos limit;
  context_lines = pos context;
  omit_result_diff = true;
}

-- `searchRun`, up to the search: each test in the order of the source.
unfoldable pub search_request : Option SearchRunParams → Answer SearchRequest
unfolding check_pattern_count search_limit search_context search_engine refuse_filter
    pattern_predicates_from search_scope search_root
search_request params = do
  p ← given_params (lit "invalid_search_params") params
  counted' ← check_pattern_count (length p.patterns)
  limit ← search_limit p.limit
  context ← search_context p.context_lines
  engine ← search_engine p.engine
  author ← refuse_filter (lit "author") p.author
  since ← refuse_filter (lit "since") p.since
  until ← refuse_filter (lit "until") p.until
  predicates ← pattern_predicates_from 0 p.patterns
  scope ← search_scope (p.all_refs || p.all_refs_snake) p.scope
  answered (record {
    root = search_root p;
    scope = scope.0;
    options = options_of p predicates engine limit context scope.1;
  })
