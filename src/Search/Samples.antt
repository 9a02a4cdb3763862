-- ===== src/Search/Samples.antt =====
-- Runs of the search expression of internal/app/search.go, and its theorems at concrete inputs.
use gitgit.Prelude.{
  String, ℕ, ◌≡◌, refl, Bool, true, false, some, List, [], ◌∷◌, map, length, All, pos,
}
use gitgit.Text.{lit, text_eq, is_empty, trim_space, to_lower}
use gitgit.Apperr.{ok}
use gitgit.Search.Expression.{evaluate_search_expression}
use gitgit.Search.Expression.Tokens.{spell}
use gitgit.Search.Expression.Grammar.{
  Sum, one_product, both, one_factor, atom, group, either, sum_tokens, sum_value,
  evaluate-sum_value,
}
use gitgit.Search.Expression.Balance.{AreJoined, IsBalanced}
use gitgit.Search.Options.{
  SearchPredicate, SearchOptions, none_of, is_source, is_join, normalized_search_predicates,
  condition_of, raw_predicates,
}
use gitgit.Search.Options.Normal.{IsNormal, normalized-IsNormal, normalized-evaluate}

abbrev predicate : String → String → ℕ → ℕ → SearchPredicate
predicate source operator opened closed = record {
  source = lit source;
  value = lit "x";
  joined_by = lit operator;
  open_groups = pos opened;
  close_groups = pos closed;
}

abbrev raw : List SearchPredicate
raw = predicate "msg" "" 0 0 ∷ predicate " File " "AND" 1 0 ∷ predicate "diff" "" 0 1 ∷ []

-- msg and (file or diff)
abbrev first : SearchPredicate
first = predicate "msg" "" 0 0

abbrev others : List SearchPredicate
others = predicate "file" "and" 1 0 ∷ predicate "diff" "or" 0 1 ∷ []

abbrev options_with : List SearchPredicate → SearchOptions
options_with predicates = record {
  predicates = predicates;
  messages = [];
  diffs = [];
  files = [];
  engine = lit "glob";
  follow_rename = false;
  revision = [];
  all_refs = false;
  paths = [];
  author = [];
  since = [];
  until = [];
  limit = pos 10;
  context_lines = pos 3;
  omit_result_diff = false;
}

abbrev hits : List Bool
hits = true ∷ false ∷ true ∷ []

accepted : normalized_search_predicates (options_with raw) ≡ ok (first ∷ others)
unfolding normalized_search_predicates none_of lit text_eq is_empty trim_space to_lower is_source
    is_join
accepted = refl

evaluated : evaluate_search_expression (map condition_of (first ∷ others)) hits ≡ some true
unfolding evaluate_search_expression lit text_eq
evaluated = refl

abbrev tree : Sum
tree = one_product (
    both (one_factor (atom true))
      (group (either (one_product (one_factor (atom false))) (one_factor (atom true)))))

evaluate-sum_value_example :
    evaluate_search_expression (map condition_of (first ∷ others)) hits ≡ some (sum_value tree)
unfolding sum_tokens
evaluate-sum_value_example =
    evaluate-sum_value tree (map condition_of (first ∷ others)) hits refl refl

normalized-IsNormal_example :
    All IsNormal (first ∷ others)
    × AreJoined (map condition_of (first ∷ others))
    × IsBalanced 0 (map condition_of (first ∷ others))
    × (length (first ∷ others) ≡ length (raw_predicates (options_with raw)))
normalized-IsNormal_example = normalized-IsNormal (options_with raw) (first ∷ others) accepted

normalized-evaluate_example :
    (e : Sum) × (spell true (map condition_of (first ∷ others)) hits ≡ sum_tokens e [])
    × (evaluate_search_expression (map condition_of (first ∷ others)) hits ≡ some (sum_value e))
normalized-evaluate_example = normalized-evaluate (options_with raw) first others hits accepted refl
