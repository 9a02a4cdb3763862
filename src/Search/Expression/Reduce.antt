-- ===== src/Search/Expression/Reduce.antt =====
-- The reductions of the two stacks in internal/app/search.go: where they stop, and that a
-- reduction to a lower level may first reduce to a higher one.
use gitgit.Prelude.{
  ℕ, ◌≡◌, refl, sym, fun_ext, Bool, true, false, not, List, [], ◌∷◌, arith, Bool-cases, inl, inr,
}
use gitgit.Text.{Text, lit, text_eq}
use gitgit.Search.Expression.{
  Stacks, Flow, next, returns, panic, ◌>>=◌, is_paren, is_and, precedence, apply, reduce_while,
  binds, finish,
}

-- A reduction to this level does not touch the operators.
abbrev pub Stops : ℕ → List Text → Type 0
Stops level [] = Unit
Stops level (top ∷ _) = binds level top ≡ false

pub reduce-Stops :
    (level : ℕ) (operators : List Text) (values : List Bool)
    → Stops level operators
    → reduce_while (binds level) operators values
      ≡ next (record { values = values; operators = operators })
unfolding reduce_while
reduce-Stops level [] values h = refl
reduce-Stops level (top ∷ operators) values h = rw h

binds_weaken : (operator : Text) → binds 2 operator ≡ true → binds 1 operator ≡ true
unfolding binds precedence
binds_weaken operator h = ground arith

pub apply_step :
    (keep : Text → Bool) (top : Text) (operators : List Text) (values : List Bool)
    → keep top ≡ true
    → reduce_while keep (top ∷ operators) values
      ≡ (apply top values >>= reduce_while keep operators)
unfolding reduce_while
apply_step keep top operators values h = rw h

-- Reducing further after a reduction to the level of "and".
pub reduce_again :
    (operators : List Text) (values : List Bool) {s : Stacks}
    → reduce_while (binds 2) operators values ≡ next s
    → reduce_while (binds 1) operators values ≡ reduce_while (binds 1) s.operators s.values
unfolding reduce_while
reduce_again [] values h = cc
reduce_again (top ∷ operators) values {s} h = elim (Bool-cases (binds 2 top)) [
  | inr stops ↦ ground arith
  | inl keeps ↦
      rw (binds_weaken top keeps)
        (go (λ vs. reduce_again operators vs) (apply top values) (rw keeps at h))
]
  where
    go :
        ((vs : List Bool)
          → reduce_while (binds 2) operators vs ≡ next s
          → reduce_while (binds 1) operators vs ≡ reduce_while (binds 1) s.operators s.values)
        → (m : Flow (List Bool)) → (m >>= reduce_while (binds 2) operators) ≡ next s
        → (m >>= reduce_while (binds 1) operators) ≡ reduce_while (binds 1) s.operators s.values
    go rest (next vs) e = rest vs e
    go rest (returns b) e = cc
    go rest panic e = cc

pub paren_binds : (operator : Text) → binds 1 operator ≡ not (is_paren operator)
unfolding binds precedence
paren_binds operator = ground arith

-- The test of the loop that closes a group.
pub reduce_to_paren : (λ (operator : Text). not (is_paren operator)) ≡ binds 1
reduce_to_paren = fun_ext (λ operator. sym (paren_binds operator))

-- The last loop may reduce first.
pub finish-reduce :
    (operators : List Text) (values : List Bool) {s : Stacks}
    → reduce_while (binds 1) operators values ≡ next s
    → finish operators values ≡ finish s.operators s.values
unfolding reduce_while finish
finish-reduce [] values h = cc
finish-reduce (top ∷ operators) values {s} h = elim (Bool-cases (is_paren top)) [
  | inl paren ↦ ground (arith, paren_binds top)
  | inr other ↦
      rw other (
        go (λ vs. finish-reduce operators vs) (apply top values) (rw (paren_binds top, other) at h))
]
  where
    go :
        ((vs : List Bool)
          → reduce_while (binds 1) operators vs ≡ next s
          → finish operators vs ≡ finish s.operators s.values)
        → (m : Flow (List Bool)) → (m >>= reduce_while (binds 1) operators) ≡ next s
        → (m >>= finish operators) ≡ finish s.operators s.values
    go rest (next vs) e = rest vs e
    go rest (returns b) e = cc
    go rest panic e = cc

pub and_is_and : is_and (lit "and") ≡ true
unfolding is_and lit text_eq
and_is_and = refl

pub or_is_not_and : is_and (lit "or") ≡ false
unfolding is_and lit text_eq
or_is_not_and = refl

pub and_is_not_paren : is_paren (lit "and") ≡ false
unfolding is_paren lit text_eq
and_is_not_paren = refl

pub or_is_not_paren : is_paren (lit "or") ≡ false
unfolding is_paren lit text_eq
or_is_not_paren = refl

pub paren_is_paren : is_paren (lit "(") ≡ true
unfolding is_paren lit text_eq
paren_is_paren = refl
