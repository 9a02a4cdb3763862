-- ===== src/Search/Options.antt =====
-- internal/app/search.go: the search options, `validateSearchOptions`,
-- `normalizedSearchPredicates` and `searchPatternsBySource`.
pub mod Normal
use gitgit.Prelude.{
  ℕ, ◌+◌, ◌-◌, Bool, true, false, not, ◌&&◌, ◌||◌, List, [], ◌∷◌, ◌++◌, map, ltb, ◌==◌, length,
  if◌then◌else◌, ℤ, pos, negsuc, pos_part, is_negative,
}
use gitgit.Text.{Text, lit, is_empty, text_eq, has_prefix, trim_space, to_lower, equal_fold}
use gitgit.Apperr.{
  Failure, formatted, app_new, text, texts, usage_error, exit_usage, Result, ok, err, ◌>>=◌, ◌>>◌,
  refuse_if,
}
use gitgit.Search.Expression.{Condition}

pub record SearchPredicate : Type 0 where
  pub source : Text
  pub value : Text
  pub joined_by : Text
  pub open_groups : ℤ
  pub close_groups : ℤ

pub record SearchOptions : Type 0 where
  pub predicates : List SearchPredicate
  pub messages : List Text
  pub diffs : List Text
  pub files : List Text
  pub engine : Text
  pub follow_rename : Bool
  pub revision : Text
  pub all_refs : Bool
  pub paths : List Text
  pub author : Text
  pub since : Text
  pub until : Text
  pub limit : ℤ
  pub context_lines : ℤ
  pub omit_result_diff : Bool

unfoldable pub none_of {ℓ} : {A : Type ℓ} → List A → Bool
none_of [] = true
none_of (_ ∷ _) = false

unfoldable pub not_positive : ℤ → Bool
not_positive (pos n) = n == 0
not_positive (negsuc n) = true

-- The loop that looks for a file predicate.
unfoldable pub has_file_source : List SearchPredicate → Bool
has_file_source [] = false
has_file_source (p ∷ ps) = equal_fold (trim_space p.source) (lit "file") || has_file_source ps

unfoldable pub has_file_predicate : SearchOptions → Bool
unfolding has_file_source
has_file_predicate o = not (none_of o.files) || has_file_source o.predicates

abbrev invalid_arguments : Text → Failure
invalid_arguments = usage_error (lit "invalid_arguments")

-- `validateSearchOptions`: each test in the order of the source.
unfoldable pub validate_search_options : SearchOptions → Result (Unit {0})
validate_search_options o = do
  refuse_if (o.all_refs && not (is_empty o.revision))
      (invalid_arguments (lit "all refs and a revision scope cannot be used together"))
  refuse_if (has_prefix (lit "-") (trim_space o.revision)) (
      app_new (lit "invalid_revision") (formatted (lit "revision scope cannot be a Git option") [])
        exit_usage ((lit "revision", text (trim_space o.revision)) ∷ []))
  refuse_if (o.follow_rename && not (has_file_predicate o))
      (invalid_arguments (lit "rename following requires at least one file pattern"))
  refuse_if (none_of o.predicates && none_of o.messages && none_of o.diffs && none_of o.files) (
      usage_error (lit "missing_search_pattern")
        (lit "at least one message, diff, or file pattern is required"))
  refuse_if (not (text_eq o.engine (lit "glob") || text_eq o.engine (lit "regex"))) (
      app_new (lit "invalid_engine")
        (formatted (lit "unsupported search engine %q") (o.engine ∷ [])) exit_usage
        ((lit "allowed", texts (lit "glob" ∷ lit "regex" ∷ [])) ∷ []))
  refuse_if (o.follow_rename && not (none_of o.paths))
      (invalid_arguments (lit "rename following cannot be combined with a path filter"))
  refuse_if (not_positive o.limit)
      (usage_error (lit "invalid_limit") (lit "limit must be greater than zero"))
  refuse_if (is_negative o.context_lines)
      (usage_error (lit "invalid_context") (lit "context must be zero or greater"))

-- The predicates of the three lists of patterns, in their order.
abbrev pub pattern_predicates : Text → List Text → List SearchPredicate
pattern_predicates source = map (λ value. record {
  source = source;
  value = value;
  joined_by = lit "or";
  open_groups = pos 0;
  close_groups = pos 0;
})

pub raw_predicates : SearchOptions → List SearchPredicate
raw_predicates o =
    if none_of o.predicates
    then pattern_predicates (lit "msg") o.messages
      ++ (pattern_predicates (lit "diff") o.diffs ++ pattern_predicates (lit "file") o.files)
    else o.predicates

unfoldable pub is_source : Text → Bool
is_source source =
    text_eq source (lit "msg") || text_eq source (lit "diff") || text_eq source (lit "file")

unfoldable pub is_join : Text → Bool
is_join operator = text_eq operator (lit "and") || text_eq operator (lit "or")

-- `first` is `len(normalized) == 0`.
pub normalized_join : Bool → Text → Result Text
normalized_join first raw =
    let operator = to_lower (trim_space raw) in
    if first
    then ok []
    else if is_empty operator
    then ok (lit "or")
    else if is_join operator
    then ok operator
    else err (
        app_new (lit "invalid_arguments") (formatted (lit "unsupported search join %q") (raw ∷ []))
          exit_usage [])

bad_groups : ℤ → Bool
bad_groups n = is_negative n || ltb 8 (pos_part n)

-- The body of the loop, for one predicate.
pub normalized_predicate : Bool → SearchPredicate → Result SearchPredicate
unfolding bad_groups
normalized_predicate first p = do
  let source = to_lower (trim_space p.source)
  refuse_if (not (is_source source)) (
      app_new (lit "invalid_arguments")
        (formatted (lit "unsupported pattern source %q") (p.source ∷ [])) exit_usage [])
  operator ← normalized_join first p.joined_by
  refuse_if (bad_groups p.open_groups || bad_groups p.close_groups)
      (invalid_arguments (lit "search parenthesis count must be between zero and eight"))
  ok (record {
    source = source;
    value = trim_space p.value;
    joined_by = operator;
    open_groups = p.open_groups;
    close_groups = p.close_groups;
  })

pub normalized_loop : Bool → List SearchPredicate → Result (List SearchPredicate)
normalized_loop first [] = ok []
normalized_loop first (p ∷ ps) = do
  q ← normalized_predicate first p
  qs ← normalized_loop false ps
  ok (q ∷ qs)

-- The loop over the balance, and the test behind it.
pub check_balance : ℕ → List SearchPredicate → Result (Unit {0})
check_balance balance [] =
    refuse_if (not (balance == 0)) (invalid_arguments (lit "search parentheses are not balanced"))
check_balance balance (p ∷ ps) =
    let opened = balance + pos_part p.open_groups in
    let rest = check_balance (opened - pos_part p.close_groups) ps in
    if ltb opened (pos_part p.close_groups)
    then err (invalid_arguments (lit "search parentheses close before they are opened"))
    else rest

unfoldable pub normalized_search_predicates : SearchOptions → Result (List SearchPredicate)
unfolding raw_predicates normalized_loop normalized_predicate normalized_join check_balance
normalized_search_predicates o = do
  normalized ← normalized_loop true (raw_predicates o)
  check_balance 0 normalized
  ok normalized

-- What the evaluation reads of a predicate: `for range n` makes no round for a negative n.
abbrev pub condition_of : SearchPredicate → Condition
condition_of p = record {
  joined_by = p.joined_by;
  open_groups = pos_part p.open_groups;
  close_groups = pos_part p.close_groups;
}

abbrev Patterns : Type 0
Patterns = List Text × List Text × List Text

-- The messages, diffs and files of the predicates.
collect_patterns : List SearchPredicate → Patterns
collect_patterns [] = ([], [], [])
collect_patterns (p ∷ ps) =
    let (messages, diffs, files) = collect_patterns ps in
    let source = to_lower (trim_space p.source) in
    let value = trim_space p.value in
    if text_eq source (lit "msg")
    then (value ∷ messages, diffs, files)
    else if text_eq source (lit "diff")
    then (messages, value ∷ diffs, files)
    else if text_eq source (lit "file")
    then (messages, diffs, value ∷ files)
    else (messages, diffs, files)

unfoldable pub search_patterns_by_source : SearchOptions → Patterns
unfolding collect_patterns
search_patterns_by_source o =
    if none_of o.predicates then (o.messages, o.diffs, o.files) else collect_patterns o.predicates
