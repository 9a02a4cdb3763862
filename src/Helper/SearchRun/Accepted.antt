-- ===== src/Helper/SearchRun/Accepted.antt =====
-- internal/vscodehelper/search_diff.go and internal/app/search.go: the search options that the helper
-- makes up pass `validateSearchOptions`.
use gitgit.Prelude.{
  ℕ, ◌<◌, ◌≤◌, ◌+◌, ◌≡◌, refl, sym, ap, ◌∙◌, Bool, true, false, not, ◌&&◌, ◌||◌, Option, none, some,
  List, [], ◌∷◌, length, if◌then◌else◌, ℤ, pos, negsuc, is_negative, arith,
}
use mathlib.Core.Path.{subst}
use gitgit.Text.Lines.{trim_space-nil}
use gitgit.Text.{Text, lit, text_eq, is_empty, has_prefix, trim_space}
use gitgit.Apperr.{ok}
use gitgit.Search.Options.{
  SearchPredicate, SearchOptions, has_file_predicate, none_of, not_positive,
  validate_search_options,
}
use gitgit.Helper.Rpc.{Answer, answered, refused, RpcError}
use gitgit.Helper.Revision.{validate_revision}
use gitgit.Helper.SearchRun.{
  SearchPattern, SearchRunParams, SearchRequest, ◌>>=◌, check_pattern_count, search_limit,
  search_context, search_engine, refuse_filter, pattern_predicate, pattern_predicates_from,
  search_scope, search_request,
}

-- What a chain of answers has passed.
>>=-eq-answered {ℓ κ} :
    {A : Type ℓ} {B : Type κ} (a : Answer A) (f : A → Answer B) {b : B}
    → (a >>= f) ≡ answered b
    → (x : A) × (a ≡ answered x) × (f x ≡ answered b)
>>=-eq-answered (answered x) f h = (x, refl, h)
>>=-eq-answered (refused e) f h = cc

module _ {ℓ} {A : Type ℓ} where
  same_answer : {a b : A} → answered a ≡ answered b → a ≡ b
  same_answer h = cc

limit_bounds : (z : ℤ) {n : ℕ} → search_limit z ≡ answered n → (0 < n) × (n ≤ 250)
unfolding search_limit
limit_bounds (negsuc m) h = absurd (ground arith)
limit_bounds (pos m) h = ground arith

context_bounds : (z : ℤ) {n : ℕ} → search_context z ≡ answered n → (0 < n) × (n ≤ 100)
unfolding search_context
context_bounds (negsuc m) h = absurd (ground arith)
context_bounds (pos m) h = ground arith

count_bounds : (n : ℕ) {u : Unit {0}} → check_pattern_count n ≡ answered u → (0 < n) × (n ≤ 64)
unfolding check_pattern_count
count_bounds n h = ground arith

named_engine :
    (raw : Text) {engine : Text}
    → search_engine raw ≡ answered engine
    → (text_eq engine (lit "glob") || text_eq engine (lit "regex")) ≡ true
unfolding search_engine
named_engine raw h = ground arith

predicate_count :
    (index : ℕ) (ps : List SearchPattern) {qs : List SearchPredicate}
    → pattern_predicates_from index ps ≡ answered qs
    → length qs ≡ length ps
unfolding pattern_predicates_from
predicate_count index [] h = ap length (sym (same_answer h))
predicate_count index (p ∷ ps) h =
    let (q, _, rest) = >>=-eq-answered (pattern_predicate index p) _ h in
    let (qs, e, last) = >>=-eq-answered (pattern_predicates_from (index + 1) ps) _ rest in
    ap length (sym (same_answer last)) ∙ omega (arith, predicate_count (index + 1) ps e)

IsNoOption : Text → Type 0
IsNoOption revision = has_prefix (lit "-") (trim_space revision) ≡ false

nil-IsNoOption : IsNoOption []
unfolding IsNoOption has_prefix lit
nil-IsNoOption = rw trim_space-nil refl

valid-IsNoOption : (scope : Text) → validate_revision scope ≡ none → IsNoOption scope
unfolding IsNoOption validate_revision
valid-IsNoOption scope h = ground arith

-- A revision is given only without all refs, and is no option of Git.
abbrev IsScope : Bool → Text × Text → Type 0
IsScope all_refs shown = ((all_refs && not (is_empty shown.1)) ≡ false) × IsNoOption shown.1

scoped :
    (scope : Text) (o : Option RpcError) {shown : Text × Text}
    → validate_revision scope ≡ o
    → elim o [
      | some e ↦ refused e
      | none ↦ answered (scope, if text_eq scope (lit "HEAD") then [] else scope)
    ]
      ≡ answered shown
    → IsScope false shown
scoped scope (some e) v h = absurd (ground arith)
scoped scope none v h =
    subst (IsScope false) (same_answer h) (refl, head (text_eq scope (lit "HEAD")))
  where
    head : (b : Bool) → IsNoOption (if b then [] else scope)
    head true = nil-IsNoOption
    head false = valid-IsNoOption scope v

IsScope-revision :
    (all_refs : Bool) (raw : Text) {shown : Text × Text}
    → search_scope all_refs raw ≡ answered shown
    → IsScope all_refs shown
unfolding search_scope
IsScope-revision true raw h =
    subst (IsScope true) (same_answer h) (unfold is_empty in refl, nil-IsNoOption)
IsScope-revision false raw h = scoped _ _ refl h

-- What the helper promises of the options of a search.
pub record IsBounded (o : SearchOptions) (patterns : ℕ) : Type 0 where
  pub limit : (n : ℕ) × (o.limit ≡ pos n) × (0 < n) × (n ≤ 250)
  pub context_lines : (n : ℕ) × (o.context_lines ≡ pos n) × (0 < n) × (n ≤ 100)
  pub predicates : (length o.predicates ≡ patterns) × (0 < patterns) × (patterns ≤ 64)
  pub unrevised : (o.all_refs && not (is_empty o.revision)) ≡ false
  pub no_option : has_prefix (lit "-") (trim_space o.revision) ≡ false
  pub engine : (text_eq o.engine (lit "glob") || text_eq o.engine (lit "regex")) ≡ true
  pub no_paths : none_of o.paths ≡ true

-- The options that are made up: between 1 and 250 results, between 1 and 100 lines of context, a
-- predicate for each of the 1 to 64 patterns, the engine glob or regex, no path filter, and a
-- revision that is no option of Git and is given only without all refs.
pub search_request-IsBounded :
    (p : SearchRunParams) {r : SearchRequest}
    → search_request (some p) ≡ answered r
    → IsBounded r.options (length p.patterns)
unfolding search_request
search_request-IsBounded p h =
    let (_, counted', after_count) =
      >>=-eq-answered (check_pattern_count (length p.patterns)) _ h in
    let (limit, limited, after_limit) = >>=-eq-answered (search_limit p.limit) _ after_count in
    let (context, in_context, after_context) =
      >>=-eq-answered (search_context p.context_lines) _ after_limit in
    let (engine, named, after_engine) = >>=-eq-answered (search_engine p.engine) _ after_context in
    let (_, _, after_author) =
      >>=-eq-answered (refuse_filter (lit "author") p.author) _ after_engine in
    let (_, _, after_since) =
      >>=-eq-answered (refuse_filter (lit "since") p.since) _ after_author in
    let (_, _, after_until) = >>=-eq-answered (refuse_filter (lit "until") p.until) _ after_since in
    let (qs, made, after_patterns) =
      >>=-eq-answered (pattern_predicates_from 0 p.patterns) _ after_until in
    let (shown, scoped', last) =
      >>=-eq-answered (search_scope (p.all_refs || p.all_refs_snake) p.scope) _ after_patterns in
    let (above, below) = limit_bounds p.limit limited in
    let (some_lines, few_lines) = context_bounds p.context_lines in_context in
    let (some_patterns, few_patterns) = count_bounds _ counted' in
    subst (λ q. IsBounded q.options (length p.patterns)) (same_answer last)
      (record {
        limit = (limit, refl, above, below);
        context_lines = (context, refl, some_lines, few_lines);
        predicates = (predicate_count 0 p.patterns made, some_patterns, few_patterns);
        unrevised = (IsScope-revision _ p.scope scoped').0;
        no_option = unfold IsNoOption in (IsScope-revision _ p.scope scoped').1;
        engine = named_engine p.engine named;
        no_paths = unfold none_of in refl;
      })

given_predicates : (ps : List SearchPredicate) → 0 < length ps → none_of ps ≡ false
unfolding none_of
given_predicates [] h = absurd (omega arith)
given_predicates (p ∷ ps) h = refl

positive_limit : (z : ℤ) (n : ℕ) → z ≡ pos n → 0 < n → not_positive z ≡ false
unfolding not_positive
positive_limit z n e h = rw e (ground arith)

natural_context : (z : ℤ) (n : ℕ) → z ≡ pos n → is_negative z ≡ false
natural_context z n e = ap is_negative e

never_both : (b : Bool) → (b && not true) ≡ false
never_both true = refl
never_both false = refl

-- Options within these bounds are accepted by the search, unless they follow renames without a file
-- predicate.
pub IsBounded-validate_search_options :
    (o : SearchOptions) (patterns : ℕ)
    → IsBounded o patterns
    → (o.follow_rename && not (has_file_predicate o)) ≡ false
    → validate_search_options o ≡ ok tt
unfolding validate_search_options
IsBounded-validate_search_options o patterns h files =
    let (limit, is_limit, above, _) = h.limit in
    let (context, is_context, _, _) = h.context_lines in
    let (count, some_patterns, _) = h.predicates in
    let given = given_predicates o.predicates (omega (arith, count)) in
    rw
      (
        h.unrevised,
        h.no_option,
        files,
        given,
        h.engine,
        h.no_paths,
        never_both o.follow_rename,
        positive_limit o.limit limit is_limit above,
        natural_context o.context_lines context is_context,
      )
      refl

-- Options that the helper makes up pass every test of `validateSearchOptions`, unless they follow
-- renames without a file predicate, which is the one test that may fail. The parentheses of the
-- predicates are tested behind it, when the predicates are normalised, and may be refused there.
pub search_request-validate_search_options :
    (p : SearchRunParams) {r : SearchRequest}
    → search_request (some p) ≡ answered r
    → (r.options.follow_rename && not (has_file_predicate r.options)) ≡ false
    → validate_search_options r.options ≡ ok tt
search_request-validate_search_options p {r} h files =
    IsBounded-validate_search_options r.options (length p.patterns) (search_request-IsBounded p h)
      files
