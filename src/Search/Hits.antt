-- ===== src/Search/Hits.antt =====
-- internal/app/search.go: which predicates a commit or a change of it hits, and what the expression
-- says of the hits.
use gitgit.Prelude.{
  Bool, false, not, ◌&&◌, ◌||◌, Option, none, some, List, [], ◌∷◌, ◌++◌, map, if◌then◌else◌,
}
use gitgit.Text.{Text, lit, text_eq, contains}
use gitgit.Search.Expression.{evaluate_search_expression}
use gitgit.Search.Options.{condition_of}
use gitgit.Search.Changes.{FileChange, match_file_change}
use gitgit.Search.Patterns.{Compiled}

unfoldable pub has_source : Text → List Compiled → Bool
has_source source [] = false
has_source source (p ∷ ps) = text_eq p.predicate.source source || has_source source ps

-- `messageHits`.
unfoldable pub message_hits : Text → List Compiled → List Bool
message_hits message [] = []
message_hits message (p ∷ ps) =
    (text_eq p.predicate.source (lit "msg") && p.matcher message) ∷ message_hits message ps

-- The hits of the file predicates in place of those of the message, and the predicates with what
-- they track then. The lists have one length, so the last clause is not met.
unfoldable pub file_hits : Bool → FileChange → List Compiled → List Bool → List Bool × List Compiled
file_hits follow change [] hits = ([], [])
file_hits follow change (p ∷ ps) (hit ∷ hits) =
    let (rest, behind) = file_hits follow change ps hits in
    let (matched, tracked) = match_file_change p.matcher follow change p.tracked in
    if text_eq p.predicate.source (lit "file")
    then (matched ∷ rest, record p { tracked = tracked } ∷ behind)
    else (hit ∷ rest, p ∷ behind)
file_hits follow change (p ∷ ps) [] = ([], p ∷ ps)

unfoldable pub diff_hits : Text → List Compiled → List Bool → List Bool
diff_hits lines (p ∷ ps) (hit ∷ hits) =
    (if text_eq p.predicate.source (lit "diff") then p.matcher lines else hit)
    ∷ diff_hits lines ps hits
diff_hits lines _ _ = []

-- `appendMatchSources`.
unfoldable pub append_match_sources : List Text → List Compiled → List Bool → Bool → List Text
append_match_sources destination (p ∷ ps) (hit ∷ hits) file_scoped_only =
    append_match_sources
      (if not hit
          || (file_scoped_only && text_eq p.predicate.source (lit "msg"))
          || contains destination p.predicate.source
        then destination
        else destination ++ (p.predicate.source ∷ []))
      ps hits file_scoped_only
append_match_sources destination _ _ file_scoped_only = destination

abbrev value_of : Option Bool → Bool
value_of none = false
value_of (some b) = b

-- The evaluation, which does not panic for predicates that the normalisation accepts.
unfoldable pub evaluated : List Compiled → List Bool → Bool
evaluated ps hits =
    value_of (evaluate_search_expression (map (λ p. condition_of p.predicate) ps) hits)
