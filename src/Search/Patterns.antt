-- ===== src/Search/Patterns.antt =====
-- internal/app/search.go: how the patterns of a search become matchers. What regexp.Compile and
-- regexp.QuoteMeta do is a parameter.
pub mod Fuel
use gitgit.Prelude.{
  ℕ, zero, suc, Bool, true, false, not, ◌&&◌, ◌||◌, Option, none, some, List, [], ◌∷◌, ◌++◌, length,
  ◌==◌, if◌then◌else◌,
}
use gitgit.Text.{Text, lit, text_eq, is_empty}
use gitgit.Apperr.{
  Failure, Details, plain, formatted, plain_message, app_new, app_wrap, text, exit_usage, Result,
  ok, err, ◌>>=◌,
}
use gitgit.Search.Options.{SearchPredicate, SearchOptions, normalized_search_predicates}

pub record Regexp : Type 0 where
  -- `regexp.Compile`, and `MatchString` of what it returns
  pub compile : Text → Result (Text → Bool)
  -- `regexp.QuoteMeta`
  pub quote_meta : Text → Text

abbrev about : Text → Failure
about message = plain (plain_message message)

-- The characters up to an end of a class that is not escaped, and what stands behind it.
abbrev pub kept_byte : ℕ → Option (Text × Text) → Option (Text × Text)
kept_byte c none = none
kept_byte c (some (content, behind)) = some (c ∷ content, behind)

pub class_content : Bool → Text → Option (Text × Text)
class_content escaped [] = none
class_content escaped (c ∷ cs) =
    let rest = class_content (not escaped && c == b'\\') cs in
    if not escaped && c == b']' then some ([], cs) else kept_byte c rest

-- The class itself, for a content.
pub class_text : Text → Result Text
class_text [] = err (about (lit "unterminated or empty character class in glob pattern"))
class_text (c ∷ cs) =
    if c == b'!'
    then (if is_empty cs
        then err (about (lit "empty negated character class in glob pattern"))
        else ok (lit "[^" ++ (cs ++ b']' ∷ [])))
    else if c == b'^'
    then ok (lit "[\\^" ++ (cs ++ b']' ∷ []))
    else ok (b'[' ∷ (c ∷ cs) ++ b']' ∷ [])

pub class_with : Option (Text × Text) → Result (Text × Text)
unfolding class_text
class_with none = err (about (lit "unterminated or empty character class in glob pattern"))
class_with (some (content, behind)) = class_text content >>= λ shown. ok (shown, behind)

-- `globCharacterClass`, of the text behind the bracket.
unfoldable pub glob_character_class : Text → Result (Text × Text)
unfolding class_content class_with
glob_character_class t = class_with (class_content false t)

pub skip_stars : Text → Text
skip_stars [] = []
skip_stars (c ∷ cs) = let rest = skip_stars cs in if c == b'*' then rest else c ∷ cs

-- Behind two stars of a path.
pub two_stars : Text → Text × Text
two_stars [] = (lit ".*", [])
two_stars (c ∷ cs) = if c == b'/' then (lit "(?:.*/)?", cs) else (lit ".*", c ∷ cs)

pub star : Bool → Text → Text × Text
unfolding skip_stars two_stars
star false t = (lit ".*", skip_stars t)
star true [] = (lit "[^/]*", [])
star true (c ∷ cs) = if c == b'*' then two_stars cs else (lit "[^/]*", c ∷ cs)

abbrev pub is_special : ℕ → Bool
is_special c = c == b'*' || c == b'?' || c == b'[' || c == b'\\'

-- The bytes up to the next one that is special, and the rest.
pub literal_bytes : Text → Text × Text
literal_bytes [] = ([], [])
literal_bytes (c ∷ cs) =
    let (literal, rest) = literal_bytes cs in
    if is_special c then ([], c ∷ cs) else (c ∷ literal, rest)

module _ (rx : Regexp) where
  pub escaped_byte : Text → Result (Text × Text)
  escaped_byte [] = err (about (lit "trailing escape in glob pattern"))
  escaped_byte (c ∷ cs) = ok (rx.quote_meta (c ∷ []), cs)

  -- One round of the loop of `globExpression`: what is written, and the pattern that is left.
  pub glob_token : Bool → ℕ → Text → Result (Text × Text)
  unfolding star glob_character_class escaped_byte literal_bytes
  glob_token path_aware c cs =
      if c == b'*'
      then ok (star path_aware cs)
      else if c == b'?'
      then ok (if path_aware then lit "[^/]" else lit ".", cs)
      else if c == b'['
      then glob_character_class cs
      else if c == b'\\'
      then escaped_byte cs
      else ok (rx.quote_meta (c ∷ (literal_bytes cs).0), (literal_bytes cs).1)

  -- The loop. A round takes a byte at least, so the length of the pattern is fuel enough.
  pub glob_loop : Bool → ℕ → Text → Result Text
  glob_loop path_aware zero pattern = ok []
  glob_loop path_aware (suc fuel) [] = ok []
  glob_loop path_aware (suc fuel) (c ∷ cs) = glob_token path_aware c cs >>= λ token.
      glob_loop path_aware fuel token.1 >>= λ written. ok (token.0 ++ written)

  -- `globExpression`.
  unfoldable pub glob_expression : Text → Bool → Result Text
  unfolding glob_token glob_loop
  glob_expression pattern path_aware = glob_loop path_aware (length pattern) pattern >>= λ written.
      ok (lit "(?s)^" ++ (written ++ b'$' ∷ []))

  -- `newMatcherMode`.
  unfoldable pub new_matcher_mode : Text → Text → Bool → Result (Text → Bool)
  unfolding glob_expression
  new_matcher_mode pattern engine path_aware =
      if text_eq engine (lit "glob")
      then glob_expression pattern path_aware >>= rx.compile
      else if text_eq engine (lit "regex")
      then rx.compile pattern
      else err (plain (formatted (lit "unsupported search engine %q") (engine ∷ [])))

  abbrev pattern_details : Text → Text → Text → Details
  pattern_details source pattern engine =
      (lit "source", text source) ∷ (lit "pattern", text pattern) ∷ (lit "engine", text engine) ∷ []

  abbrev named_pattern : Text → Text → Text → Result (Text → Bool) → Result (Text → Bool)
  named_pattern pattern engine source (ok matcher) = ok matcher
  named_pattern pattern engine source (err e) = err (
      app_wrap (lit "invalid_pattern") (formatted (lit "invalid %s pattern") (source ∷ []))
        exit_usage e (pattern_details source pattern engine))

  -- `compileSearchMatcher`.
  unfoldable pub compile_search_matcher : Text → Text → Text → Result (Text → Bool)
  unfolding new_matcher_mode
  compile_search_matcher pattern engine source =
      if is_empty pattern
      then err (
          app_new (lit "invalid_pattern")
            (formatted (lit "%s pattern cannot be empty") (source ∷ [])) exit_usage
            (pattern_details source pattern engine))
      else named_pattern pattern engine source
          (new_matcher_mode pattern engine (text_eq source (lit "file")))

-- `compiledSearchPredicate`; its map of tracked paths is a list.
pub record Compiled : Type 0 where
  pub predicate : SearchPredicate
  pub matcher : Text → Bool
  pub tracked : List Text

compiled_loop : Regexp → Text → List SearchPredicate → Result (List Compiled)
compiled_loop rx engine [] = ok []
compiled_loop rx engine (p ∷ ps) = compile_search_matcher rx p.value engine p.source >>= λ matcher.
    compiled_loop rx engine ps >>= λ compiled.
    ok (record { predicate = p; matcher = matcher; tracked = [] } ∷ compiled)

-- `compileSearchPredicates`.
unfoldable pub compile_search_predicates : Regexp → SearchOptions → Result (List Compiled)
unfolding compiled_loop
compile_search_predicates rx o =
    normalized_search_predicates o >>= λ predicates. compiled_loop rx o.engine predicates
