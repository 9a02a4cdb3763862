-- ===== src/Text/Numbers.antt =====
-- Go's `strconv.Atoi` and `strconv.ParseInt(text, 10, 64)`, where an int has 64 bits.
use gitgit.Prelude.{
  ℕ, ◌+◌, ◌-◌, ◌*◌, ◌/◌, ◌%◌, ◌^◌, Bool, true, false, ◌&&◌, Option, none, some, [], ◌∷◌, ltb, leb,
  ◌==◌, if◌then◌else◌, ℤ, pos, negsuc,
}
use gitgit.Text.{Text}

are_digits : Text → Bool
are_digits [] = true
are_digits (c ∷ cs) = leb b'0' c && leb c b'9' && are_digits cs

value_from : ℕ → Text → ℕ
value_from n [] = n
value_from n (c ∷ cs) = value_from (n * 10 + (c - b'0')) cs

-- The digits behind a sign: at least one, and nothing else.
magnitude : Text → Option ℕ
unfolding are_digits value_from
magnitude [] = none
magnitude (c ∷ cs) = if are_digits (c ∷ cs) then some (value_from 0 (c ∷ cs)) else none

abbrev positive : Option ℕ → Option ℤ
positive none = none
positive (some n) = if leb n (2 ^ 63 - 1) then some (pos n) else none

abbrev negated : ℕ → ℤ
negated n = elim n [ ℕ.zero ↦ pos 0 | ℕ.suc m ↦ negsuc m ]

abbrev negative : Option ℕ → Option ℤ
negative none = none
negative (some n) = if leb n (2 ^ 63) then some (negated n) else none

-- None for an error.
unfoldable pub parse_int : Text → Option ℤ
unfolding magnitude
parse_int [] = none
parse_int (c ∷ cs) =
    if c == b'-'
    then negative (magnitude cs)
    else if c == b'+'
    then positive (magnitude cs)
    else positive (magnitude (c ∷ cs))

-- The decimal digits of a number in front of a text; `n + 1` rounds are enough, since each round
-- leaves a smaller number.
digits_before : ℕ → ℕ → Text → Text
digits_before ℕ.zero n text = text
digits_before (ℕ.suc fuel) n text =
    let shown = (b'0' + n % 10) ∷ text in
    elim (ltb n 10) [ true ↦ shown | false ↦ digits_before fuel (n / 10) shown ]

-- `%d` of a number that is not negative.
unfoldable pub show_number : ℕ → Text
unfolding digits_before
show_number n = digits_before (n + 1) n []

-- `%d` of an int.
unfoldable pub show_int : ℤ → Text
show_int (pos n) = show_number n
show_int (negsuc n) = b'-' ∷ show_number (n + 1)
