-- ===== src/Search/Expression/Balance.antt =====
-- Every list of conditions that `normalizedSearchPredicates` of internal/app/search.go lets
-- through spells an expression, whatever the hits: so the evaluation never panics.
use gitgit.Prelude.{
  ℕ, zero, suc, ◌+◌, ◌-◌, ◌≤◌, ◌≡◌, refl, ◌∙◌, ap, ◌⊎◌, inl, inr, Bool, true, false, Option, none,
  some, List, [], ◌∷◌, arith, length, All,
}
use gitgit.Text.{Text, lit}
use gitgit.Search.Expression.{Condition, evaluate_search_expression}
use gitgit.Search.Expression.Tokens.{
  Token, joined, opened, closed, opened_tokens, closed_tokens, spell_groups, spell,
}
use gitgit.Search.Expression.Grammar.{
  Factor, atom, group, Product, one_factor, both, Sum, one_product, either, factor_tokens,
  product_tokens, sum_tokens, sum_value, evaluate-sum_value,
}

-- The joins that normalisation leaves, from the second condition on.
abbrev pub IsJoin : Text → Type 0
IsJoin operator = (operator ≡ lit "and") ⊎ (operator ≡ lit "or")

abbrev pub AreJoined : List Condition → Type 0
AreJoined [] = Unit
AreJoined (c ∷ cs) = All (λ (d : Condition). IsJoin d.joined_by) cs

-- From `depth` open groups the parentheses never close below zero, and end at zero.
abbrev pub IsBalanced : ℕ → List Condition → Type 0
IsBalanced depth [] = depth ≡ 0
IsBalanced depth (c ∷ cs) =
    (c.close_groups ≤ depth + c.open_groups)
    × IsBalanced (depth + c.open_groups - c.close_groups) cs

-- A group that is being read: the sum and the product in front of the factor that comes next.
record Frame : Type 0 where
  sum : Option Sum
  product : Option Product

abbrev before_sum : Option Sum → List Token → List Token
before_sum none rest = rest
before_sum (some e) rest = sum_tokens e (joined (lit "or") ∷ rest)

abbrev before_product : Option Product → List Token → List Token
before_product none rest = rest
before_product (some p) rest = product_tokens p (joined (lit "and") ∷ rest)

abbrev before : Frame → List Token → List Token
before f rest = before_sum f.sum (before_product f.product rest)

-- The text in front of the group that is being read, innermost frame first.
abbrev outer : List Frame → List Token → List Token
outer [] rest = rest
outer (f ∷ fs) rest = outer fs (before f (opened ∷ rest))

abbrev fill : Option Product → Factor → Product
fill none f = one_factor f
fill (some p) f = both p f

abbrev complete : Option Sum → Product → Sum
complete none p = one_product p
complete (some e) p = either e p

fill_tokens :
    (o : Option Product) (f : Factor) (rest : List Token)
    → before_product o (factor_tokens f rest) ≡ product_tokens (fill o f) rest
unfolding product_tokens
fill_tokens none f rest = refl
fill_tokens (some p) f rest = refl

complete_tokens :
    (o : Option Sum) (p : Product) (rest : List Token)
    → before_sum o (product_tokens p rest) ≡ sum_tokens (complete o p) rest
unfolding sum_tokens
complete_tokens none p rest = refl
complete_tokens (some e) p rest = refl

-- What was read so far, when a factor is complete.
record Reading : Type 0 where
  frames : List Frame
  sum : Option Sum
  product : Product

abbrev text_of : Reading → List Token → List Token
text_of r rest = outer r.frames (before_sum r.sum (product_tokens r.product rest))

abbrev empty_frame : Frame
empty_frame = record { sum = none; product = none }

open_frames : ℕ → Frame → List Frame → List Frame
open_frames zero f fs = fs
open_frames (suc n) f fs = open_frames n empty_frame (f ∷ fs)

last_frame : ℕ → Frame → Frame
last_frame zero f = f
last_frame (suc n) f = empty_frame

length-open_frames :
    (n : ℕ) (f : Frame) (fs : List Frame) → length (open_frames n f fs) ≡ length fs + n
unfolding open_frames
length-open_frames zero f fs = omega arith
length-open_frames (suc n) f fs = omega (arith, length-open_frames n empty_frame (f ∷ fs))

last_frame_empty : (n : ℕ) → last_frame n empty_frame ≡ empty_frame
unfolding last_frame
last_frame_empty zero = refl
last_frame_empty (suc n) = refl

open_frames_tokens :
    (n : ℕ) (f : Frame) (fs : List Frame) (rest : List Token)
    → outer fs (before f (opened_tokens n rest))
      ≡ outer (open_frames n f fs) (before (last_frame n f) rest)
unfolding open_frames last_frame
open_frames_tokens zero f fs rest = refl
open_frames_tokens (suc n) f fs rest =
    open_frames_tokens n empty_frame (f ∷ fs) rest
    ∙ ap (λ g. outer (open_frames n empty_frame (f ∷ fs)) (before g rest)) (last_frame_empty n)

-- A closing parenthesis makes the group a factor of the frame around it.
close_frame : Frame → List Frame → Reading → Reading
close_frame f fs r = record {
  frames = fs;
  sum = f.sum;
  product = fill f.product (group (complete r.sum r.product));
}

close_frame_tokens :
    (f : Frame) (fs : List Frame) (r : Reading) (rest : List Token)
    → r.frames ≡ f ∷ fs
    → text_of r (closed ∷ rest) ≡ text_of (close_frame f fs r) rest
unfolding close_frame
close_frame_tokens f fs r rest e =
    rw (e, complete_tokens r.sum r.product (closed ∷ rest), ← fill_tokens f.product _ rest)
      (unfold factor_tokens in refl)

-- A reading that stands for a text, with so many groups open.
record Reads (text : List Token → List Token) (depth : ℕ) : Type 0 where
  reading : Reading
  same_text : (rest : List Token) → text rest ≡ text_of reading rest
  same_depth : length reading.frames ≡ depth

close_all :
    (n : ℕ) (r : Reading) (fs : List Frame)
    → r.frames ≡ fs
    → n ≤ length fs
    → Reads (λ rest. text_of r (closed_tokens n rest)) (length fs - n)
close_all zero r fs e h = record {
  reading = r;
  same_text = λ rest. refl;
  same_depth = rw e (omega arith);
}
close_all (suc n) r [] e h = absurd (omega arith)
close_all (suc n) r (f ∷ fs) e h =
    let later = close_all n (close_frame f fs r) fs (unfold close_frame in refl) (omega arith) in
    record {
      reading = later.reading;
      same_text = λ rest. close_frame_tokens f fs r (closed_tokens n rest) e ∙ later.same_text rest;
      same_depth = omega (arith, later.same_depth);
    }

-- One condition, after its join.
read_condition :
    (c : Condition) (hit : Bool) (f : Frame) (fs : List Frame)
    → c.close_groups ≤ length fs + c.open_groups
    → Reads
        (λ rest. outer fs (before f (spell_groups c hit rest)))
        (length fs + c.open_groups - c.close_groups)
unfolding factor_tokens
read_condition c hit f fs h =
    let inner = last_frame c.open_groups f in
    let frames = open_frames c.open_groups f fs in
    let depth = length-open_frames c.open_groups f fs in
    let r : Reading = record {
      frames = frames;
      sum = inner.sum;
      product = fill inner.product (atom hit);
    } in
    let closing = close_all c.close_groups r frames refl (omega (arith, depth)) in
    record {
      reading = closing.reading;
      same_text = λ rest.
          open_frames_tokens c.open_groups f fs _
          ∙ ap (λ t. outer frames (before_sum inner.sum t))
              (fill_tokens inner.product (atom hit) (closed_tokens c.close_groups rest))
          ∙ closing.same_text rest;
      same_depth = omega (arith, closing.same_depth, depth);
    }

-- The frame that a join leaves.
record Joins (operator : Text) (r : Reading) : Type 0 where
  frame : Frame
  same_text :
      (rest : List Token) → text_of r (joined operator ∷ rest) ≡ outer r.frames (before frame rest)

join_frame : (operator : Text) (r : Reading) → IsJoin operator → Joins operator r
join_frame operator r (inl e) = record {
  frame = record { sum = r.sum; product = some r.product };
  same_text = λ rest. rw e;
}
join_frame operator r (inr e) = record {
  frame = record { sum = some (complete r.sum r.product); product = none };
  same_text = λ rest. rw (e, complete_tokens r.sum r.product);
}

frames_nil : (fs : List Frame) → length fs ≡ 0 → fs ≡ []
frames_nil [] h = refl
frames_nil (f ∷ fs) h = absurd (omega arith)

read-All :
    (cs : List Condition) (hits : List Bool) (r : Reading) (depth : ℕ)
    → length cs ≡ length hits
    → length r.frames ≡ depth
    → IsBalanced depth cs
    → All (λ (d : Condition). IsJoin d.joined_by) cs
    → (e : Sum) × (text_of r (spell false cs hits) ≡ sum_tokens e [])
read-All [] hits r depth same d b j =
    let done = frames_nil r.frames (d ∙ b) in
    (complete r.sum r.product, rw done (complete_tokens r.sum r.product []))
read-All (c ∷ cs) [] r depth same d b j = absurd (omega arith)
read-All (c ∷ cs) (hit ∷ hits) r depth same d b j =
    let joining = join_frame c.joined_by r j.0 in
    let step = read_condition c hit joining.frame r.frames (omega arith) in
    let (e, spelt) =
      read-All cs hits step.reading (depth + c.open_groups - c.close_groups) (omega arith)
        (omega (arith, step.same_depth)) b.1 j.1 in
    (e, joining.same_text _ ∙ step.same_text _ ∙ spelt)

-- Balanced conditions spell an expression, whatever they hit.
pub IsBalanced-spell :
    (c : Condition) (cs : List Condition) (hits : List Bool)
    → length (c ∷ cs) ≡ length hits
    → IsBalanced 0 (c ∷ cs)
    → AreJoined (c ∷ cs)
    → (e : Sum) × (spell true (c ∷ cs) hits ≡ sum_tokens e [])
IsBalanced-spell c cs [] same b j = absurd (omega arith)
IsBalanced-spell c cs (hit ∷ hits) same b j =
    let start = read_condition c hit empty_frame [] b.0 in
    let (e, spelt) =
      read-All cs hits start.reading (0 + c.open_groups - c.close_groups) (omega arith)
        start.same_depth b.1 j in
    (e, start.same_text _ ∙ spelt)

-- What a balanced list of conditions evaluates to, whatever its hits: it spells an expression,
-- and the evaluation returns the value of that expression, with no panic.
pub IsBalanced-evaluate :
    (c : Condition) (cs : List Condition) (hits : List Bool)
    → length (c ∷ cs) ≡ length hits
    → IsBalanced 0 (c ∷ cs)
    → AreJoined (c ∷ cs)
    → (e : Sum) × (spell true (c ∷ cs) hits ≡ sum_tokens e [])
      × (evaluate_search_expression (c ∷ cs) hits ≡ some (sum_value e))
IsBalanced-evaluate c cs hits same b j =
    let (e, spelt) = IsBalanced-spell c cs hits same b j in
    (e, spelt, evaluate-sum_value e (c ∷ cs) hits same spelt)
