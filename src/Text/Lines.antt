-- ===== src/Text/Lines.antt =====
-- Lines of a text: splitting, joining and trimming.
use gitgit.Prelude.{
  ℕ, ◌≡◌, refl, sym, ap, ◌∙◌, Bool, true, false, ◌||◌, List, [], ◌∷◌, ◌++◌, reverse, append_assoc,
  leb, ◌==◌, All, if◌then◌else◌, arith,
}
use mathlib.Core.List.{reverse-cons}
use gitgit.Text.{
  Text, is_empty, contains_byte, trim_space, trim_left, trim_left_reversed, is_space1, is_space2,
  is_space3, split, push_front, join, replace_crlf,
}

-- A text with neither a line feed nor a carriage return.
abbrev pub IsLine : Text → Type 0
IsLine t = (contains_byte t b'\n' ≡ false) × (contains_byte t b'\r' ≡ false)

contains_byte-append :
    (b : ℕ) (t u : Text) → contains_byte (t ++ u) b ≡ (contains_byte t b || contains_byte u b)
unfolding contains_byte
contains_byte-append b [] u = refl
contains_byte-append b (c ∷ t) u = ground (arith, contains_byte-append b t u)

push_front-All :
    (c : ℕ) (ts : List Text)
    → (c == b'\n') ≡ false
    → (c == b'\r') ≡ false
    → All IsLine ts
    → All IsLine (push_front c ts)
unfolding contains_byte
push_front-All c [] h k all = ((ground arith, ground arith), tt)
push_front-All c (t ∷ ts) h k all = ((ground (arith, all.0.0), ground (arith, all.0.1)), all.1)

pub split-All : (t : Text) → contains_byte t b'\r' ≡ false → All IsLine (split b'\n' t)
unfolding split contains_byte
split-All [] h = ((refl, refl), tt)
split-All (c ∷ cs) h = choose (c == b'\n') refl (split-All cs (ground arith))
  where
    choose :
        (b : Bool)
        → (c == b'\n') ≡ b
        → All IsLine (split b'\n' cs)
        → All IsLine (if b then [] ∷ split b'\n' cs else push_front c (split b'\n' cs))
    choose true e rest = ((refl, refl), rest)
    choose false e rest = push_front-All c (split b'\n' cs) e (ground arith) rest

split-line : (t : Text) → contains_byte t b'\n' ≡ false → split b'\n' t ≡ t ∷ []
unfolding split contains_byte
split-line [] h = refl
split-line (c ∷ cs) h = rw (split-line cs (ground arith)) (ground arith)

split-append :
    (t rest : Text)
    → contains_byte t b'\n' ≡ false
    → split b'\n' (t ++ b'\n' ∷ rest) ≡ t ∷ split b'\n' rest
unfolding split contains_byte
split-append [] rest h = refl
split-append (c ∷ cs) rest h = rw (split-append cs rest (ground arith)) (ground arith)

pub split-join :
    (t : Text) (ts : List Text) → All IsLine (t ∷ ts) → split b'\n' (join b'\n' (t ∷ ts)) ≡ t ∷ ts
unfolding join
split-join t [] all = split-line t all.0.0
split-join t (u ∷ ts) all =
    split-append t (join b'\n' (u ∷ ts)) all.0.0 ∙ ap (λ us. t ∷ us) (split-join u ts all.1)

pub join-line : (ts : List Text) → All IsLine ts → contains_byte (join b'\n' ts) b'\r' ≡ false
unfolding join contains_byte
join-line [] all = refl
join-line (t ∷ []) all = all.0.1
join-line (t ∷ u ∷ ts) all =
    contains_byte-append b'\r' t _ ∙ ground (arith, all.0.1, join-line (u ∷ ts) all.1)

pub replace_crlf-same : (t : Text) → contains_byte t b'\r' ≡ false → replace_crlf t ≡ t
unfolding replace_crlf contains_byte
replace_crlf-same [] h = refl
replace_crlf-same (c ∷ []) h = refl
replace_crlf-same (c ∷ d ∷ cs) h = rw (replace_crlf-same (d ∷ cs) (ground arith)) (ground arith)

pub join-append :
    (t : Text) (ts : List Text) (u : Text) (us : List Text)
    → join b'\n' ((t ∷ ts) ++ (u ∷ us)) ≡ join b'\n' (t ∷ ts) ++ b'\n' ∷ join b'\n' (u ∷ us)
unfolding join
join-append t [] u us = refl
join-append t (v ∷ ts) u us =
    rw (join-append v ts u us) (sym (append_assoc t (b'\n' ∷ join b'\n' (v ∷ ts)) _))

-- A text whose first byte is an ASCII letter is not blank.
abbrev IsLetter : ℕ → Type 0
IsLetter c = (leb b'A' c ≡ true) × (leb c b'z' ≡ true)

letter_not_space :
    (c x y : ℕ)
    → IsLetter c
    → (is_space1 c ≡ false) × (is_space2 c x ≡ false) × (is_space3 c x y ≡ false)
unfolding is_space1 is_space2 is_space3
letter_not_space c x y h =
    (ground (arith, h.0, h.1), ground (arith, h.0, h.1), ground (arith, h.0, h.1))

kept_branches :
    (one two three : Bool) (a b c : Text) (x : ℕ) (xs : Text)
    → is_empty a ≡ false
    → is_empty b ≡ false
    → (three ≡ true → is_empty c ≡ false)
    → is_empty (if one then a else if two then b else if three then c else x ∷ xs) ≡ false
unfolding is_empty
kept_branches true two three a b c x xs ha hb hc = ha
kept_branches false true three a b c x xs ha hb hc = hb
kept_branches false false true a b c x xs ha hb hc = hc refl
kept_branches false false false a b c x xs ha hb hc = refl

ends-kept : (t : Text) (c : ℕ) → IsLetter c → is_empty (trim_left_reversed (t ++ (c ∷ []))) ≡ false
unfolding trim_left_reversed is_empty
ends-kept [] c h = rw (letter_not_space c 0 0 h).0 refl
ends-kept (x ∷ []) c h = ground (arith, (letter_not_space c x 0 h).0, (letter_not_space c x 0 h).1)
ends-kept (x ∷ y ∷ []) c h =
    kept_branches (is_space1 x) (is_space2 y x) (is_space3 c y x) _ _ _ x (y ∷ c ∷ [])
      (ends-kept (y ∷ []) c h) (ends-kept [] c h)
      (λ e. absurd_text (sym e ∙ (letter_not_space c y x h).2))
  where
    absurd_text : true ≡ false → is_empty [] ≡ false
    absurd_text e = cc
ends-kept (x ∷ y ∷ z ∷ t) c h =
    kept_branches (is_space1 x) (is_space2 y x) (is_space3 z y x) _ _ _ x _
      (ends-kept (y ∷ z ∷ t) c h) (ends-kept (z ∷ t) c h) (λ e. ends-kept t c h)

reverse-given : (t : Text) → is_empty (reverse t) ≡ is_empty t
unfolding is_empty
reverse-given [] = refl
reverse-given (c ∷ cs) = ap is_empty (reverse-cons c cs) ∙ last_given (reverse cs)
  where
    last_given : (t : Text) → is_empty (t ++ (c ∷ [])) ≡ false
    last_given [] = refl
    last_given (d ∷ ds) = refl

letter_left : (c : ℕ) (t : Text) → IsLetter c → trim_left (c ∷ t) ≡ c ∷ t
unfolding trim_left
letter_left c [] h = rw (letter_not_space c 0 0 h).0 refl
letter_left c (x ∷ []) h = rw ((letter_not_space c x 0 h).0, (letter_not_space c x 0 h).1) refl
letter_left c (x ∷ y ∷ t) h =
    rw ((letter_not_space c x y h).0, (letter_not_space c x y h).1, (letter_not_space c x y h).2)
      refl

pub letter-kept : (c : ℕ) (t : Text) → IsLetter c → is_empty (trim_space (c ∷ t)) ≡ false
unfolding trim_space
letter-kept c t h =
    reverse-given _
    ∙ ap (λ u. is_empty (trim_left_reversed (reverse u))) (letter_left c t h)
    ∙ ap (λ u. is_empty (trim_left_reversed u)) (reverse-cons c t)
    ∙ ends-kept (reverse t) c h

pub trim_space-nil : trim_space [] ≡ []
unfolding trim_space trim_left trim_left_reversed
trim_space-nil = refl
