-- ===== src/Text/Runes.antt =====
-- The characters of a text in UTF-8.
use gitgit.Prelude.{ℕ, ◌+◌, Bool, ◌&&◌, ◌||◌, [], ◌∷◌, leb, ◌==◌, if◌then◌else◌}
use gitgit.Text.{Text}

-- `utf8.RuneCountInString`: an encoded character counts once, and so does each other byte.
between : ℕ → ℕ → ℕ → Bool
between low high c = leb low c && leb c high

unfoldable pub starts_two : ℕ → ℕ → Bool
unfolding between
starts_two a b = between 0xc2 0xdf a && between 0x80 0xbf b

unfoldable pub starts_three : ℕ → ℕ → ℕ → Bool
unfolding between
starts_three a b c =
    ((a == 0xe0 && between 0xa0 0xbf b)
      || (a == 0xed && between 0x80 0x9f b)
      || ((between 0xe1 0xec a || between 0xee 0xef a) && between 0x80 0xbf b))
    && between 0x80 0xbf c

unfoldable pub starts_four : ℕ → ℕ → ℕ → ℕ → Bool
unfolding between
starts_four a b c d =
    ((a == 0xf0 && between 0x90 0xbf b)
      || (between 0xf1 0xf3 a && between 0x80 0xbf b)
      || (a == 0xf4 && between 0x80 0x8f b))
    && between 0x80 0xbf c
    && between 0x80 0xbf d

unfoldable pub rune_count : Text → ℕ
rune_count [] = 0
rune_count (a ∷ []) = 1
rune_count (a ∷ b ∷ []) = let one = rune_count (b ∷ []) in if starts_two a b then 1 else 1 + one
rune_count (a ∷ b ∷ c ∷ []) =
    let one = rune_count (b ∷ c ∷ []) in
    let two = rune_count (c ∷ []) in
    if starts_two a b then 1 + two else if starts_three a b c then 1 else 1 + one
rune_count (a ∷ b ∷ c ∷ d ∷ r) =
    let one = rune_count (b ∷ c ∷ d ∷ r) in
    let two = rune_count (c ∷ d ∷ r) in
    let three = rune_count (d ∷ r) in
    let four = rune_count r in
    if starts_two a b
    then 1 + two
    else if starts_three a b c
    then 1 + three
    else if starts_four a b c d
    then 1 + four
    else 1 + one
