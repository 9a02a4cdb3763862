-- ===== src/Text/Search.antt =====
-- Go's `bytes.Index`, `strings.Contains`, `strings.Trim` and `strings.LastIndexByte`.
use gitgit.Prelude.{
  ℕ, ◌+◌, Bool, true, false, Option, none, some, [], ◌∷◌, reverse, ◌==◌, if◌then◌else◌,
}
use gitgit.Text.{Text, has_prefix, cut}

abbrev pub one_later : Option ℕ → Option ℕ
one_later none = none
one_later (some n) = some (n + 1)

-- `bytes.Index(text, pattern)`, the pattern first; none for -1.
unfoldable pub index? : Text → Text → Option ℕ
unfolding has_prefix
index? pattern [] = if has_prefix pattern [] then some 0 else none
index? pattern (c ∷ cs) =
    let rest = index? pattern cs in if has_prefix pattern (c ∷ cs) then some 0 else one_later rest

-- `strings.Contains(text, pattern)`, the pattern first.
unfoldable pub contains_text : Text → Text → Bool
unfolding index?
contains_text pattern text = elim (index? pattern text) [ none ↦ false | some _ ↦ true ]

-- `strings.TrimLeft(text, "c")` for one byte.
unfoldable pub trim_left_byte : ℕ → Text → Text
trim_left_byte b [] = []
trim_left_byte b (c ∷ cs) = let rest = trim_left_byte b cs in if c == b then rest else c ∷ cs

-- `strings.Trim(text, "c")` for one byte.
unfoldable pub trim_byte : ℕ → Text → Text
unfolding trim_left_byte
trim_byte b t = reverse (trim_left_byte b (reverse (trim_left_byte b t)))

-- What stands before and behind the last of a byte, where the text has it.
unfoldable pub cut_last : ℕ → Text → Text × Text
unfolding cut
cut_last b t = let (after, before) = cut b (reverse t) in (reverse before, reverse after)
