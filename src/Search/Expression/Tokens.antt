-- ===== src/Search/Expression/Tokens.antt =====
-- The evaluation of internal/app/search.go token by token: a list of conditions spells a text of
-- joins, parentheses and values, and the loop does one step for each of them.
use gitgit.Prelude.{
  ℕ, zero, suc, ◌≡◌, refl, ap, ◌∙◌, sym, fun_ext, Bool, true, false, List, [], ◌∷◌, arith, length,
  if◌then◌else◌,
}
use gitgit.Text.{Text, lit}
use gitgit.Search.Expression.{
  Condition, Stacks, Flow, next, returns, panic, ◌>>=◌, push_operator, push_value, join_step,
  open_groups, close_group, close_groups, condition_step, conditions_loop,
}

pub data Token : Type 0 where
  joined : Text → Token
  opened : Token
  value : Bool → Token
  closed : Token

unfoldable pub token_step : Token → Stacks → Flow Stacks
token_step (joined operator) s = join_step operator s
token_step opened s = next (push_operator (lit "(") s)
token_step (value hit) s = next (push_value hit s)
token_step closed s = close_group s

unfoldable pub run_tokens : List Token → Stacks → Flow Stacks
run_tokens [] s = next s
run_tokens (t ∷ ts) s = do stepped ← token_step t s; run_tokens ts stepped

abbrev pub opened_tokens : ℕ → List Token → List Token
opened_tokens zero rest = rest
opened_tokens (suc n) rest = opened ∷ opened_tokens n rest

abbrev pub closed_tokens : ℕ → List Token → List Token
closed_tokens zero rest = rest
closed_tokens (suc n) rest = closed ∷ closed_tokens n rest

-- The text of a list of conditions, with the hit of each.
abbrev pub spell_groups : Condition → Bool → List Token → List Token
spell_groups c hit rest =
    opened_tokens c.open_groups (value hit ∷ closed_tokens c.close_groups rest)

abbrev pub spell : Bool → List Condition → List Bool → List Token
spell first (c ∷ cs) (hit ∷ hits) =
    let rest = spell_groups c hit (spell false cs hits) in
    if first then rest else joined c.joined_by ∷ rest
spell first _ _ = []

bind_assoc {ℓ} :
    {A B C : Type ℓ} (m : Flow A) (f : A → Flow B) (g : B → Flow C)
    → ((m >>= f) >>= g) ≡ (m >>= λ a. f a >>= g)
bind_assoc (next a) f g = refl
bind_assoc (returns b) f g = refl
bind_assoc panic f g = refl

run-opened_tokens :
    (n : ℕ) (rest : List Token) (s : Stacks)
    → run_tokens (opened_tokens n rest) s ≡ run_tokens rest (open_groups n s)
unfolding run_tokens token_step open_groups
run-opened_tokens zero rest s = refl
run-opened_tokens (suc n) rest s = run-opened_tokens n rest (push_operator (lit "(") s)

run-closed_tokens :
    (n : ℕ) (rest : List Token) (s : Stacks)
    → run_tokens (closed_tokens n rest) s ≡ (close_groups n s >>= run_tokens rest)
unfolding run_tokens token_step close_groups
run-closed_tokens zero rest s = refl
run-closed_tokens (suc n) rest s =
    ap (λ f. close_group s >>= f) (fun_ext (run-closed_tokens n rest))
    ∙ sym (bind_assoc (close_group s) (close_groups n) (run_tokens rest))

run-spell_groups :
    (c : Condition) (hit : Bool) (rest : List Token) (s : Stacks)
    → run_tokens (spell_groups c hit rest) s ≡ (
        close_groups c.close_groups (push_value hit (open_groups c.open_groups s))
        >>= run_tokens rest)
run-spell_groups c hit rest s =
    run-opened_tokens c.open_groups _ s
    ∙ unfold run_tokens token_step in
      run-closed_tokens c.close_groups rest (push_value hit (open_groups c.open_groups s))

run-spell_step :
    (first : Bool) (c : Condition) (hit : Bool) (rest : List Token) (s : Stacks)
    → run_tokens
        (if first then spell_groups c hit rest else joined c.joined_by ∷ spell_groups c hit rest)
        s
      ≡ (condition_step first c hit s >>= run_tokens rest)
unfolding condition_step
run-spell_step true c hit rest s = run-spell_groups c hit rest s
run-spell_step false c hit rest s =
    unfold run_tokens token_step in
    ap (λ f. join_step c.joined_by s >>= f) (fun_ext (run-spell_groups c hit rest))
    ∙ sym (bind_assoc (join_step c.joined_by s) _ (run_tokens rest))

-- The loop over the conditions is the run over their tokens.
pub conditions_loop-run_tokens :
    (first : Bool) (cs : List Condition) (hits : List Bool) (s : Stacks)
    → length cs ≡ length hits
    → conditions_loop first cs hits s ≡ run_tokens (spell first cs hits) s
unfolding conditions_loop run_tokens
conditions_loop-run_tokens first [] hits s e = refl
conditions_loop-run_tokens first (c ∷ cs) [] s e = absurd (omega arith)
conditions_loop-run_tokens first (c ∷ cs) (hit ∷ hits) s e =
    ap (λ f. condition_step first c hit s >>= f)
      (fun_ext (λ t. conditions_loop-run_tokens false cs hits t (omega arith)))
    ∙ sym (run-spell_step first c hit (spell false cs hits) s)
