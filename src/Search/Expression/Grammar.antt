-- ===== src/Search/Expression/Grammar.antt =====
-- The grammar that internal/app/search.go evaluates: "and" binds tighter than "or", both group to
-- the left, and parentheses hold a whole expression. The value of a tree is defined without any
-- stack, and the run over its text leaves that value.
use gitgit.Prelude.{
  ℕ, ◌≡◌, refl, sym, ◌∙◌, Bool, true, false, not, ◌&&◌, ◌||◌, some, List, [], ◌∷◌, arith, length,
  ◌==◌, ==_iff, Bool-cases, inl, inr,
}
use gitgit.Text.{Text, lit}
use gitgit.Search.Expression.{
  Condition, Stacks, next, precedence, apply, reduce_while, binds, push_operator, push_value,
  join_step, pop_paren, close_group, conditions_loop, only_value, finish, empty,
  evaluate_search_expression,
}
use gitgit.Search.Expression.Tokens.{
  Token, joined, opened, value, closed, run_tokens, token_step, spell, conditions_loop-run_tokens,
}
use gitgit.Search.Expression.Reduce.{
  Stops, reduce-Stops, apply_step, reduce_again, reduce_to_paren, finish-reduce, paren_binds,
  and_is_and, or_is_not_and, and_is_not_paren, or_is_not_paren, paren_is_paren,
}

mutual
  pub data Factor : Type 0 where
    atom : Bool → Factor
    group : Sum → Factor

  pub data Product : Type 0 where
    one_factor : Factor → Product
    both : Product → Factor → Product

  pub data Sum : Type 0 where
    one_product : Product → Sum
    either : Sum → Product → Sum

-- The text of a tree, in front of what follows it.
unfoldable mutual
  pub factor_tokens : Factor → List Token → List Token
  factor_tokens (atom b) rest = value b ∷ rest
  factor_tokens (group e) rest = opened ∷ sum_tokens e (closed ∷ rest)

  pub product_tokens : Product → List Token → List Token
  product_tokens (one_factor f) rest = factor_tokens f rest
  product_tokens (both p f) rest = product_tokens p (joined (lit "and") ∷ factor_tokens f rest)

  pub sum_tokens : Sum → List Token → List Token
  sum_tokens (one_product p) rest = product_tokens p rest
  sum_tokens (either e p) rest = sum_tokens e (joined (lit "or") ∷ product_tokens p rest)

unfoldable mutual
  pub factor_value : Factor → Bool
  factor_value (atom b) = b
  factor_value (group e) = sum_value e

  pub product_value : Product → Bool
  product_value (one_factor f) = factor_value f
  product_value (both p f) = product_value p && factor_value f

  pub sum_value : Sum → Bool
  sum_value (one_product p) = product_value p
  sum_value (either e p) = sum_value e || product_value p

-- Where a run over a text goes: to a state that reduces, at this level, to one more value.
record Leaves (level : ℕ) (text : List Token) (v : Bool) (s : Stacks) (rest : List Token)
    : Type 0 where
  state : Stacks
  runs : run_tokens text s ≡ run_tokens rest state
  reduces : reduce_while (binds level) state.operators state.values ≡ next (push_value v s)

module _ (s : Stacks) (v : Bool) where
  -- "and" after a product: the product is reduced.
  run_and :
      (rest : List Token) (t : Stacks)
      → reduce_while (binds 2) t.operators t.values ≡ next (push_value v s)
      → run_tokens (joined (lit "and") ∷ rest) t
        ≡ run_tokens rest (push_operator (lit "and") (push_value v s))
  unfolding run_tokens token_step join_step precedence
  run_and rest t e = rw (and_is_and, e)

  run_or :
      (rest : List Token) (t : Stacks)
      → reduce_while (binds 1) t.operators t.values ≡ next (push_value v s)
      → run_tokens (joined (lit "or") ∷ rest) t
        ≡ run_tokens rest (push_operator (lit "or") (push_value v s))
  unfolding run_tokens token_step join_step precedence
  run_or rest t e = rw (or_is_not_and, e)

  run_closed :
      (rest : List Token) (t : Stacks)
      → reduce_while (binds 1) t.operators t.values
        ≡ next (push_value v (push_operator (lit "(") s))
      → run_tokens (closed ∷ rest) t ≡ run_tokens rest (push_value v s)
  unfolding run_tokens token_step close_group push_value push_operator pop_paren
  run_closed rest t e = rw (reduce_to_paren, e)

and_binds : binds 2 (lit "and") ≡ true
unfolding binds precedence
and_binds = rw (and_is_not_paren, and_is_and)

or_binds : binds 1 (lit "or") ≡ true
or_binds = paren_binds (lit "or") ∙ rw or_is_not_paren

or_stops_two : binds 2 (lit "or") ≡ false
unfolding binds precedence
or_stops_two = rw (or_is_not_paren, or_is_not_and)

paren_stops : (level : ℕ) → binds level (lit "(") ≡ false
unfolding binds
paren_stops level = rw paren_is_paren

Stops-weaken : (operators : List Text) → Stops 1 operators → Stops 2 operators
unfolding binds precedence
Stops-weaken [] h = tt
Stops-weaken (top ∷ operators) h = ground arith

-- A product or sum that was just completed, under the operator that completes it.
reduce_and :
    (left right : Bool) (s : Stacks)
    → Stops 2 s.operators
    → reduce_while (binds 2) (lit "and" ∷ s.operators) (right ∷ left ∷ s.values)
      ≡ next (push_value (left && right) s)
unfolding apply push_value
reduce_and left right s h =
    apply_step (binds 2) (lit "and") s.operators (right ∷ left ∷ s.values) and_binds
    ∙ rw and_is_and (reduce-Stops 2 s.operators _ h)

reduce_or :
    (left right : Bool) (s : Stacks)
    → Stops 1 s.operators
    → reduce_while (binds 1) (lit "or" ∷ s.operators) (right ∷ left ∷ s.values)
      ≡ next (push_value (left || right) s)
unfolding apply push_value
reduce_or left right s h =
    apply_step (binds 1) (lit "or") s.operators (right ∷ left ∷ s.values) or_binds
    ∙ rw or_is_not_and (reduce-Stops 1 s.operators _ h)

mutual
  unfolding factor_tokens product_tokens sum_tokens factor_value product_value sum_value run_tokens
      token_step push_value push_operator

  factor_runs :
      (f : Factor) (s : Stacks) (rest : List Token)
      → run_tokens (factor_tokens f rest) s ≡ run_tokens rest (push_value (factor_value f) s)
  factor_runs (atom b) s rest = refl
  factor_runs (group e) s rest =
      let inner = sum_runs e (push_operator (lit "(") s) (closed ∷ rest) (paren_stops 1) in
      inner.runs ∙ run_closed s (sum_value e) rest inner.state inner.reduces

  product_runs :
      (p : Product) (s : Stacks) (rest : List Token)
      → Stops 2 s.operators
      → Leaves 2 (product_tokens p rest) (product_value p) s rest
  product_runs (one_factor f) s rest h = record {
    state = push_value (factor_value f) s;
    runs = factor_runs f s rest;
    reduces = reduce-Stops 2 s.operators (factor_value f ∷ s.values) h;
  }
  product_runs (both p f) s rest h =
      let left = product_runs p s (joined (lit "and") ∷ factor_tokens f rest) h in
      let joining = push_operator (lit "and") (push_value (product_value p) s) in
      record {
        state = push_value (factor_value f) joining;
        runs =
            left.runs
            ∙ run_and s (product_value p) (factor_tokens f rest) left.state left.reduces
            ∙ factor_runs f joining rest;
        reduces = reduce_and (product_value p) (factor_value f) s h;
      }

  sum_runs :
      (e : Sum) (s : Stacks) (rest : List Token)
      → Stops 1 s.operators
      → Leaves 1 (sum_tokens e rest) (sum_value e) s rest
  sum_runs (one_product p) s rest h =
      let inner = product_runs p s rest (Stops-weaken s.operators h) in
      record {
        state = inner.state;
        runs = inner.runs;
        reduces =
            reduce_again inner.state.operators inner.state.values inner.reduces
            ∙ reduce-Stops 1 s.operators (product_value p ∷ s.values) h;
      }
  sum_runs (either e p) s rest h =
      let left = sum_runs e s (joined (lit "or") ∷ product_tokens p rest) h in
      let joining = push_operator (lit "or") (push_value (sum_value e) s) in
      let right = product_runs p joining rest or_stops_two in
      record {
        state = right.state;
        runs =
            left.runs
            ∙ run_or s (sum_value e) (product_tokens p rest) left.state left.reduces
            ∙ right.runs;
        reduces =
            reduce_again right.state.operators right.state.values right.reduces
            ∙ reduce_or (sum_value e) (product_value p) s h;
      }

spell-nil : (cs : List Condition) (hits : List Bool) → length cs ≡ 0 → spell true cs hits ≡ []
spell-nil [] hits h = refl
spell-nil (c ∷ cs) hits h = absurd (omega arith)

-- The text of a tree is not empty: it ends at a value or a parenthesis.
mutual
  unfolding factor_tokens product_tokens sum_tokens

  factor_some : (f : Factor) (rest : List Token) → (factor_tokens f rest ≡ []) → ⊥
  factor_some (atom b) rest e = cc
  factor_some (group g) rest e = cc

  product_some : (p : Product) (rest : List Token) → (product_tokens p rest ≡ []) → ⊥
  product_some (one_factor f) rest e = factor_some f rest e
  product_some (both p f) rest e = product_some p _ e

  sum_some : (g : Sum) (rest : List Token) → (sum_tokens g rest ≡ []) → ⊥
  sum_some (one_product p) rest e = product_some p rest e
  sum_some (either g p) rest e = sum_some g _ e

guard_passes :
    (e : Sum) (cs : List Condition) (hits : List Bool)
    → length cs ≡ length hits
    → spell true cs hits ≡ sum_tokens e []
    → (length cs == 0 || not (length cs == length hits)) ≡ false
guard_passes e cs hits same spelt =
    let some_conditions : (length cs ≡ 0 → ⊥) =
      λ none'. sum_some e [] (sym spelt ∙ spell-nil cs hits none') in
    elim (Bool-cases (length cs == 0)) [
      | inl h ↦ absurd (some_conditions ((==_iff (length cs) 0).0 h))
      | inr h ↦ rw h (ground arith)
    ]

finish_leaves :
    (v : Bool) (s : Stacks)
    → reduce_while (binds 1) s.operators s.values ≡ next (push_value v empty)
    → finish s.operators s.values ≡ next v
unfolding finish push_value only_value
finish_leaves v s e = finish-reduce s.operators s.values e

-- If the conditions with their hits spell an expression, the evaluation returns the value of the
-- expression: it neither panics nor gives up.
pub evaluate-sum_value :
    (e : Sum) (cs : List Condition) (hits : List Bool)
    → length cs ≡ length hits
    → spell true cs hits ≡ sum_tokens e []
    → evaluate_search_expression cs hits ≡ some (sum_value e)
unfolding evaluate_search_expression
evaluate-sum_value e cs hits same spelt =
    let run = sum_runs e empty [] tt in
    let loop : conditions_loop true cs hits empty ≡ next run.state =
      conditions_loop-run_tokens true cs hits empty same
      ∙ rw spelt (unfold run_tokens in run.runs) in
    rw (guard_passes e cs hits same spelt, loop, finish_leaves (sum_value e) run.state run.reduces)
