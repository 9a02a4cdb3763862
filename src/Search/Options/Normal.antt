-- ===== src/Search/Options/Normal.antt =====
-- What `normalizedSearchPredicates` of internal/app/search.go guarantees, and the evaluation of
-- what it returns.
use gitgit.Prelude.{
  ℕ, ◌+◌, ◌-◌, ◌≤◌, ◌≡◌, ◌↔◌, suc, refl, ◌∙◌, ap, inl, inr, Bool, true, false, some, List, [], ◌∷◌,
  arith, map, length, All, Bool-cases, ℤ, pos, pos_part,
}
use gitgit.Text.{Text, lit, text_eq, text_eq_iff, is_empty, trim_space, to_lower}
use gitgit.Apperr.{ok, >>=-eq-ok, ok_eq}
use gitgit.Search.Expression.{Condition, evaluate_search_expression}
use gitgit.Search.Expression.Tokens.{spell}
use gitgit.Search.Expression.Grammar.{Sum, sum_tokens, sum_value}
use gitgit.Search.Expression.Balance.{IsJoin, AreJoined, IsBalanced, IsBalanced-evaluate}
use gitgit.Search.Options.{
  SearchPredicate, SearchOptions, is_source, is_join, normalized_join, bad_groups,
  normalized_predicate, normalized_loop, check_balance, raw_predicates,
  normalized_search_predicates, condition_of,
}

-- A known source, and counts from zero to eight.
pub record IsNormal (p : SearchPredicate) : Type 0 where
  pub known_source : is_source p.source ≡ true
  pub opened : p.open_groups ≡ pos (pos_part p.open_groups)
  pub opened_most : pos_part p.open_groups ≤ 8
  pub closed : p.close_groups ≡ pos (pos_part p.close_groups)
  pub closed_most : pos_part p.close_groups ≤ 8

is_join-IsJoin : (operator : Text) → is_join operator ≡ true → IsJoin operator
unfolding is_join
is_join-IsJoin operator h = elim (Bool-cases (text_eq operator (lit "and"))) [
  | inl e ↦ inl ((text_eq_iff operator (lit "and")).0 e)
  | inr e ↦ inr ((text_eq_iff operator (lit "or")).0 (rw e at h))
]

good_groups : (n : ℤ) → bad_groups n ≡ false → (n ≡ pos (pos_part n)) × (pos_part n ≤ 8)
unfolding bad_groups
good_groups n h = ground arith

normalized_join-IsJoin :
    (raw : Text) {operator : Text} → normalized_join false raw ≡ ok operator → IsJoin operator
unfolding normalized_join
normalized_join-IsJoin raw {operator} h = elim (Bool-cases (is_empty (to_lower (trim_space raw)))) [
  | inl e ↦ inr (ground arith)
  | inr e ↦ elim (Bool-cases (is_join (to_lower (trim_space raw)))) [
    | inl j ↦ is_join-IsJoin operator (ground arith)
    | inr j ↦ absurd (ground arith)
  ]
]

-- What one predicate passes.
pub record Passes (first : Bool) (p q : SearchPredicate) : Type 0 where
  pub normal : IsNormal q
  pub join_passes : normalized_join first p.joined_by ≡ ok q.joined_by

normalized_predicate-Passes :
    (first : Bool) (p : SearchPredicate) {q : SearchPredicate}
    → normalized_predicate first p ≡ ok q
    → Passes first p q
unfolding normalized_predicate
normalized_predicate-Passes first p {q} h = record {
  normal = record {
    known_source = ground arith;
    opened = ground (arith, good_groups p.open_groups);
    opened_most = ground (arith, good_groups p.open_groups);
    closed = ground (arith, good_groups p.close_groups);
    closed_most = ground (arith, good_groups p.close_groups);
  };
  join_passes = ground arith;
}

normalized_loop-normal :
    (first : Bool) (ps : List SearchPredicate) {qs : List SearchPredicate}
    → normalized_loop first ps ≡ ok qs
    → All IsNormal qs × (length qs ≡ length ps)
unfolding normalized_loop
normalized_loop-normal first [] {qs} h = rw (← ok_eq h) (tt, refl)
normalized_loop-normal first (p ∷ ps) {qs} h =
    let (q, hq, rest) = >>=-eq-ok (normalized_predicate first p) _ h in
    let (qs', hqs, built) = >>=-eq-ok (normalized_loop false ps) _ rest in
    let later = normalized_loop-normal false ps hqs in
    rw (← ok_eq built)
      (((normalized_predicate-Passes first p hq).normal, later.0), omega (arith, later.1))

abbrev JoinedRest : List Condition → Type 0
JoinedRest = All (λ (d : Condition). IsJoin d.joined_by)

normalized_loop-joined :
    (ps : List SearchPredicate) {qs : List SearchPredicate}
    → normalized_loop false ps ≡ ok qs
    → JoinedRest (map condition_of qs)
unfolding normalized_loop
normalized_loop-joined [] h = rw (← ok_eq h) tt
normalized_loop-joined (p ∷ ps) h =
    let (q, hq, rest) = >>=-eq-ok (normalized_predicate false p) _ h in
    let (qs', hqs, built) = >>=-eq-ok (normalized_loop false ps) _ rest in
    rw (← ok_eq built) (
      normalized_join-IsJoin p.joined_by (normalized_predicate-Passes false p hq).join_passes,
      normalized_loop-joined ps hqs,
    )

normalized_loop-AreJoined :
    (ps : List SearchPredicate) {qs : List SearchPredicate}
    → normalized_loop true ps ≡ ok qs
    → AreJoined (map condition_of qs)
unfolding normalized_loop
normalized_loop-AreJoined [] h = rw (← ok_eq h) tt
normalized_loop-AreJoined (p ∷ ps) h =
    let (q, hq, rest) = >>=-eq-ok (normalized_predicate true p) _ h in
    let (qs', hqs, built) = >>=-eq-ok (normalized_loop false ps) _ rest in
    rw (← ok_eq built) (normalized_loop-joined ps hqs)

-- The test of the balance accepts exactly the balanced lists.
pub check_balance_iff :
    (balance : ℕ) (ps : List SearchPredicate)
    → (check_balance balance ps ≡ ok tt) ↔ IsBalanced balance (map condition_of ps)
unfolding check_balance
check_balance_iff balance [] = ground arith
check_balance_iff balance (p ∷ ps) =
    ground
      (arith, check_balance_iff (balance + pos_part p.open_groups - pos_part p.close_groups) ps)

normalized_parts :
    (o : SearchOptions) {ps : List SearchPredicate}
    → normalized_search_predicates o ≡ ok ps
    → (normalized_loop true (raw_predicates o) ≡ ok ps) × (check_balance 0 ps ≡ ok tt)
unfolding normalized_search_predicates
normalized_parts o {ps} h =
    let (qs, looped, rest) = >>=-eq-ok (normalized_loop true (raw_predicates o)) _ h in
    let (unit, checked, last) = >>=-eq-ok (check_balance 0 qs) _ rest in
    (looped ∙ last, rw (← ok_eq last) checked)

-- Whatever the normalisation accepts has only known sources, group counts from zero to eight,
-- joins "and" or "or" from the second predicate on, and balanced parentheses; and it has as many
-- predicates as it was given.
pub normalized-IsNormal :
    (o : SearchOptions) (ps : List SearchPredicate)
    → normalized_search_predicates o ≡ ok ps
    → All IsNormal ps
      × AreJoined (map condition_of ps)
      × IsBalanced 0 (map condition_of ps)
      × (length ps ≡ length (raw_predicates o))
normalized-IsNormal o ps h =
    let (looped, checked) = normalized_parts o h in
    let (normal, same) = normalized_loop-normal true (raw_predicates o) looped in
    (
      normal,
      normalized_loop-AreJoined (raw_predicates o) looped,
      (check_balance_iff 0 ps).0 checked,
      same,
    )

length-conditions : (ps : List SearchPredicate) → length (map condition_of ps) ≡ length ps
length-conditions [] = refl
length-conditions (p ∷ ps) = ap suc (length-conditions ps)

-- Predicates that the normalisation accepts, at least one, spell an expression with any hits of
-- as many, and the evaluation returns the value of that expression: "and" binds tighter than
-- "or", both group to the left, and no evaluation panics or gives up.
pub normalized-evaluate :
    (o : SearchOptions) (p : SearchPredicate) (ps : List SearchPredicate) (hits : List Bool)
    → normalized_search_predicates o ≡ ok (p ∷ ps)
    → length (p ∷ ps) ≡ length hits
    → (e : Sum) × (spell true (map condition_of (p ∷ ps)) hits ≡ sum_tokens e [])
      × (evaluate_search_expression (map condition_of (p ∷ ps)) hits ≡ some (sum_value e))
normalized-evaluate o p ps hits h same =
    let facts = normalized-IsNormal o (p ∷ ps) h in
    IsBalanced-evaluate (condition_of p) (map condition_of ps) hits
      (omega (arith, length-conditions ps)) facts.2 facts.1
