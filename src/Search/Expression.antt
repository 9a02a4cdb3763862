-- ===== src/Search/Expression.antt =====
-- internal/app/search.go: `evaluateSearchExpression`, with its two stacks. A slice that grows at
-- its end is a list that grows at its head. An index out of range panics in Go: here it is
-- `panic`, so that its absence can be proved.
pub mod Tokens
pub mod Reduce
pub mod Grammar
pub mod Balance
use gitgit.Prelude.{
  ℕ, zero, suc, ◌≡◌, refl, Bool, true, false, not, ◌&&◌, ◌||◌, Option, none, some, List, [], ◌∷◌,
  leb, length, ◌==◌, if◌then◌else◌,
}
use gitgit.Text.{Text, lit, text_eq}

-- The fields of a compiled predicate that the evaluation reads. The group counts are not negative
-- after `normalizedSearchPredicates`.
pub record Condition : Type 0 where
  pub joined_by : Text
  pub open_groups : ℕ
  pub close_groups : ℕ

pub record Stacks : Type 0 where
  pub values : List Bool
  pub operators : List Text

-- One statement's outcome: go on, return early, or panic.
pub data Flow {ℓ} (A : Type ℓ) : Type ℓ where
  next : A → Flow A
  returns : Bool → Flow A
  panic : Flow A

infixl 10 ◌>>=◌
abbrev pub ◌>>=◌ {ℓ κ} : {A : Type ℓ} {B : Type κ} → Flow A → (A → Flow B) → Flow B
next a >>= f = f a
returns b >>= f = returns b
panic >>= f = panic

unfoldable pub is_paren : Text → Bool
is_paren operator = text_eq operator (lit "(")

unfoldable pub is_and : Text → Bool
is_and operator = text_eq operator (lit "and")

pub precedence : Text → ℕ
precedence operator = if is_and operator then 2 else 1

-- `apply`, for an operator that is popped already.
pub apply : Text → List Bool → Flow (List Bool)
apply operator (right ∷ left ∷ values) =
    next ((if is_and operator then left && right else left || right) ∷ values)
apply operator _ = panic

-- `for len(operators) > 0 && keep(top) { apply() }`.
pub reduce_while : (Text → Bool) → List Text → List Bool → Flow Stacks
reduce_while keep [] values = next (record { values = values; operators = [] })
reduce_while keep (top ∷ operators) values =
    if keep top
    then (do values' ← apply top values; reduce_while keep operators values')
    else next (record { values = values; operators = top ∷ operators })

-- The loops stop at a parenthesis, and at an operator that binds less than `level`.
pub binds : ℕ → Text → Bool
binds level operator = not (is_paren operator) && leb level (precedence operator)

pub push_operator : Text → Stacks → Stacks
push_operator operator s = record s { operators = operator ∷ s.operators }

pub push_value : Bool → Stacks → Stacks
push_value value s = record s { values = value ∷ s.values }

-- `if index > 0 { … }`.
pub join_step : Text → Stacks → Flow Stacks
join_step operator s = do
  reduced ← reduce_while (binds (precedence operator)) s.operators s.values
  next (push_operator operator reduced)

pub open_groups : ℕ → Stacks → Stacks
open_groups zero s = s
open_groups (suc n) s = open_groups n (push_operator (lit "(") s)

-- `if len(operators) == 0 { return false }` and the pop behind it.
pub pop_paren : List Text → List Bool → Flow Stacks
pop_paren [] values = returns false
pop_paren (_ ∷ operators) values = next (record { values = values; operators = operators })

pub close_group : Stacks → Flow Stacks
close_group s = do
  reduced ← reduce_while (λ operator. not (is_paren operator)) s.operators s.values
  pop_paren reduced.operators reduced.values

pub close_groups : ℕ → Stacks → Flow Stacks
close_groups zero s = next s
close_groups (suc n) s = do closed ← close_group s; close_groups n closed

-- The body of the loop over the predicates; `first` is `index == 0`.
pub condition_step : Bool → Condition → Bool → Stacks → Flow Stacks
condition_step first c hit s = do
  joined ← if first then next s else join_step c.joined_by s
  close_groups c.close_groups (push_value hit (open_groups c.open_groups joined))

-- The two lists have one length, so the last clause is not met.
pub conditions_loop : Bool → List Condition → List Bool → Stacks → Flow Stacks
conditions_loop first [] hits s = next s
conditions_loop first (c ∷ cs) (hit ∷ hits) s = do
  stepped ← condition_step first c hit s
  conditions_loop false cs hits stepped
conditions_loop first (c ∷ cs) [] s = panic

-- The last loop, and `len(values) == 1 && values[0]`.
pub only_value : List Bool → Bool
only_value (value ∷ []) = value
only_value _ = false

pub finish : List Text → List Bool → Flow Bool
finish [] values = next (only_value values)
finish (top ∷ operators) values =
    if is_paren top then returns false else do values' ← apply top values; finish operators values'

abbrev pub empty : Stacks
empty = record { values = []; operators = [] }

-- What the function returns; `none` is a panic.
abbrev returned : Flow Bool → Option Bool
returned (next b) = some b
returned (returns b) = some b
returned panic = none

unfoldable pub evaluate_search_expression : List Condition → List Bool → Option Bool
unfolding is_paren is_and precedence apply reduce_while binds push_operator push_value join_step
    open_groups pop_paren close_group close_groups condition_step conditions_loop only_value finish
evaluate_search_expression conditions hits =
    if length conditions == 0 || not (length conditions == length hits)
    then some false
    else returned (do s ← conditions_loop true conditions hits empty; finish s.operators s.values)
