-- ===== src/Text.antt =====
-- Go strings and byte slices as lists of bytes, with the functions of Go's packages strings and
-- bytes that the program calls. `strings.TrimSpace` trims every space of `unicode.IsSpace`, in
-- its UTF-8 encoding. `to_lower` lowers ASCII letters and the two other letters whose lower case
-- is ASCII (U+0130 and U+212A); its results are only compared with ASCII words, or refused where
-- they hold another byte than those of a host name.
pub mod Order
pub mod Runes
pub mod Lines
pub mod Numbers
pub mod Splitting
pub mod Search
use Prim.Native.Char.{code}
use gitgit.Prelude.{
  ℕ, ◌+◌, ◌≡◌, refl, ◌↔◌, Bool, true, false, ◌&&◌, ◌||◌, Option, none, some, List, [], ◌∷◌, ◌++◌,
  reverse, String, leb, ltb, ◌==◌, if◌then◌else◌, arith,
}

abbrev pub Text : Type 0
Text = List ℕ

abbrev pub codes : String → Text
codes String.[] = []
codes (String.◌∷◌ c s) = code c ∷ codes s

-- A string literal; every literal of the program that is used here is ASCII.
unfoldable pub lit : String → Text
lit s = codes s

-- `a == b` on strings.
unfoldable pub text_eq : Text → Text → Bool
text_eq [] [] = true
text_eq (x ∷ xs) (y ∷ ys) = x == y && text_eq xs ys
text_eq _ _ = false

pub text_eq_iff : (a b : Text) → (text_eq a b ≡ true) ↔ (a ≡ b)
unfolding text_eq
text_eq_iff (x ∷ a) (y ∷ b) = ground (arith, text_eq_iff a b)
text_eq_iff _ _ = ground arith

pub text_eq_refl : (a : Text) → text_eq a a ≡ true
text_eq_refl a = (text_eq_iff a a).1 refl

unfoldable pub is_empty : Text → Bool
is_empty [] = true
is_empty (_ ∷ _) = false

-- `strings.HasPrefix(text, prefix)`, the prefix first.
unfoldable pub has_prefix : Text → Text → Bool
has_prefix [] t = true
has_prefix (p ∷ ps) [] = false
has_prefix (p ∷ ps) (c ∷ cs) = p == c && has_prefix ps cs

-- `strings.HasSuffix`, the suffix first.
unfoldable pub has_suffix : Text → Text → Bool
unfolding has_prefix
has_suffix s t = has_prefix (reverse s) (reverse t)

-- What follows a prefix, the prefix first: none where it is not there.
unfoldable pub strip_prefix? : Text → Text → Option Text
strip_prefix? [] t = some t
strip_prefix? (p ∷ ps) [] = none
strip_prefix? (p ∷ ps) (c ∷ cs) = if p == c then strip_prefix? ps cs else none

abbrev or_else : Text → Option Text → Text
or_else t none = t
or_else t (some s) = s

-- `strings.TrimPrefix`, the prefix first.
unfoldable pub trim_prefix : Text → Text → Text
unfolding strip_prefix?
trim_prefix p t = or_else t (strip_prefix? p t)

unfoldable pub contains_byte : Text → ℕ → Bool
contains_byte [] b = false
contains_byte (c ∷ cs) b = c == b || contains_byte cs b

-- `strings.ContainsAny(text, chars)` for ASCII chars, the chars first.
unfoldable pub contains_any : Text → Text → Bool
unfolding contains_byte
contains_any chars [] = false
contains_any chars (c ∷ cs) = contains_byte chars c || contains_any chars cs

-- `strings.Count(text, "c")` for one byte.
unfoldable pub count_byte : ℕ → Text → ℕ
count_byte b [] = 0
count_byte b (c ∷ cs) = (if c == b then 1 else 0) + count_byte b cs

-- `unicode.IsSpace`, for the encodings of one, two and three bytes.
is_space1 : ℕ → Bool
is_space1 a = (leb 9 a && leb a 13) || a == 32

is_space2 : ℕ → ℕ → Bool
is_space2 a b = a == 0xc2 && (b == 0x85 || b == 0xa0)

is_space3 : ℕ → ℕ → ℕ → Bool
is_space3 a b c =
    (a == 0xe1 && b == 0x9a && c == 0x80)
    || (a == 0xe2
        && b == 0x80
        && ((leb 0x80 c && leb c 0x8a) || c == 0xa8 || c == 0xa9 || c == 0xaf))
    || (a == 0xe2 && b == 0x81 && c == 0x9f)
    || (a == 0xe3 && b == 0x80 && c == 0x80)

trim_left : Text → Text
unfolding is_space1 is_space2 is_space3
trim_left [] = []
trim_left (a ∷ []) = if is_space1 a then [] else a ∷ []
trim_left (a ∷ b ∷ []) =
    let one = trim_left (b ∷ []) in
    if is_space1 a then one else if is_space2 a b then [] else a ∷ b ∷ []
trim_left (a ∷ b ∷ c ∷ r) =
    let one = trim_left (b ∷ c ∷ r) in
    let two = trim_left (c ∷ r) in
    let three = trim_left r in
    if is_space1 a
    then one
    else if is_space2 a b
    then two
    else if is_space3 a b c
    then three
    else a ∷ b ∷ c ∷ r

-- The same on the reversed text, so the last byte of an encoding comes first.
trim_left_reversed : Text → Text
unfolding is_space1 is_space2 is_space3
trim_left_reversed [] = []
trim_left_reversed (a ∷ []) = if is_space1 a then [] else a ∷ []
trim_left_reversed (b ∷ a ∷ []) =
    let one = trim_left_reversed (a ∷ []) in
    if is_space1 b then one else if is_space2 a b then [] else b ∷ a ∷ []
trim_left_reversed (c ∷ b ∷ a ∷ r) =
    let one = trim_left_reversed (b ∷ a ∷ r) in
    let two = trim_left_reversed (a ∷ r) in
    let three = trim_left_reversed r in
    if is_space1 c
    then one
    else if is_space2 b c
    then two
    else if is_space3 a b c
    then three
    else c ∷ b ∷ a ∷ r

unfoldable pub trim_space : Text → Text
unfolding trim_left trim_left_reversed
trim_space t = reverse (trim_left_reversed (reverse (trim_left t)))

-- `strings.TrimRight(text, "\n")`.
drop_newlines : Text → Text
drop_newlines [] = []
drop_newlines (c ∷ cs) = let rest = drop_newlines cs in if c == b'\n' then rest else c ∷ cs

unfoldable pub trim_right_newlines : Text → Text
unfolding drop_newlines
trim_right_newlines t = reverse (drop_newlines (reverse t))

-- `strings.Split(text, "c")` and `bytes.Split` by one byte: never the empty list.
abbrev push_front : ℕ → List Text → List Text
push_front c [] = (c ∷ []) ∷ []
push_front c (t ∷ ts) = (c ∷ t) ∷ ts

unfoldable pub split : ℕ → Text → List Text
split sep [] = [] ∷ []
split sep (c ∷ cs) = let rest = split sep cs in if c == sep then [] ∷ rest else push_front c rest

-- `strings.Join(texts, "c")` for one byte.
unfoldable pub join : ℕ → List Text → Text
join sep [] = []
join sep (t ∷ []) = t
join sep (t ∷ u ∷ ts) = t ++ sep ∷ join sep (u ∷ ts)

-- `strings.Cut(text, "c")` without the flag: the text after it is empty where there is no cut.
abbrev cons_first : ℕ → Text × Text → Text × Text
cons_first c (a, b) = (c ∷ a, b)

unfoldable pub cut : ℕ → Text → Text × Text
cut sep [] = ([], [])
cut sep (c ∷ cs) = let rest = cut sep cs in if c == sep then ([], cs) else cons_first c rest

-- `strings.Fields`.
abbrev flush_field : Text → List Text → List Text
flush_field [] fs = fs
flush_field (c ∷ cs) fs = reverse (c ∷ cs) ∷ fs

fields_from : Text → Text → List Text
unfolding is_space1 is_space2 is_space3
fields_from word [] = flush_field word []
fields_from word (a ∷ []) = if is_space1 a then flush_field word [] else flush_field (a ∷ word) []
fields_from word (a ∷ b ∷ []) =
    let one = flush_field word (fields_from [] (b ∷ [])) in
    let none' = fields_from (a ∷ word) (b ∷ []) in
    if is_space1 a then one else if is_space2 a b then flush_field word [] else none'
fields_from word (a ∷ b ∷ c ∷ r) =
    let one = flush_field word (fields_from [] (b ∷ c ∷ r)) in
    let two = flush_field word (fields_from [] (c ∷ r)) in
    let three = flush_field word (fields_from [] r) in
    let inside = fields_from (a ∷ word) (b ∷ c ∷ r) in
    if is_space1 a
    then one
    else if is_space2 a b
    then two
    else if is_space3 a b c
    then three
    else inside

unfoldable pub fields : Text → List Text
unfolding fields_from
fields t = fields_from [] t

-- `strings.ToLower`.
lower_byte : ℕ → ℕ
lower_byte c = if leb b'A' c && leb c b'Z' then c + 32 else c

unfoldable pub to_lower : Text → Text
unfolding lower_byte
to_lower [] = []
to_lower (a ∷ []) = lower_byte a ∷ []
to_lower (a ∷ b ∷ []) =
    let rest = to_lower (b ∷ []) in
    if a == 0xc4 && b == 0xb0 then b'i' ∷ [] else lower_byte a ∷ rest
to_lower (a ∷ b ∷ c ∷ r) =
    let rest = to_lower (b ∷ c ∷ r) in
    let two = to_lower (c ∷ r) in
    let three = to_lower r in
    if a == 0xc4 && b == 0xb0
    then b'i' ∷ two
    else if a == 0xe2 && b == 0x84 && c == 0xaa
    then b'k' ∷ three
    else lower_byte a ∷ rest

-- `slices.Contains` and the lookup in a set kept as `map[string]bool`.
unfoldable pub contains : List Text → Text → Bool
unfolding text_eq
contains [] t = false
contains (x ∷ xs) t = text_eq x t || contains xs t

pub not-contains-nil : (t : Text) → contains [] t ≡ false
unfolding contains
not-contains-nil t = refl

-- `strings.EqualFold(text, word)` for a word of lower-case ASCII letters other than k and s, and
-- of bytes that have no case: only the ASCII letters fold to those.
fold_bytes : Text → Text
fold_bytes [] = []
fold_bytes (c ∷ cs) = lower_byte c ∷ fold_bytes cs

unfoldable pub equal_fold : Text → Text → Bool
unfolding fold_bytes lower_byte text_eq
equal_fold t word = text_eq (fold_bytes t) word

-- `strings.ReplaceAll(text, "\r\n", "\n")`.
unfoldable pub replace_crlf : Text → Text
replace_crlf [] = []
replace_crlf (c ∷ []) = c ∷ []
replace_crlf (c ∷ d ∷ cs) =
    let one = replace_crlf (d ∷ cs) in
    let two = replace_crlf cs in if c == b'\r' && d == b'\n' then b'\n' ∷ two else c ∷ one
