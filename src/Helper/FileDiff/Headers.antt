-- ===== src/Helper/FileDiff/Headers.antt =====
-- internal/vscodehelper/search_diff.go: `patchHeaderStarts` ends, and finds every header.
use gitgit.Prelude.{
  ℕ, zero, suc, ◌+◌, ◌≤◌, ◌≡◌, refl, sym, ap, ◌∙◌, true, false, Option, none, some, List, [], ◌∷◌,
  drop, ◌==◌, length, if◌then◌else◌, arith, Bool-cases, inl, inr,
}
use gitgit.Text.{Text, lit, has_prefix}
use gitgit.Text.Search.{index?, one_later}
use gitgit.Helper.FileDiff.{header_line, header_starts_from}

-- A single pass over the text: the place behind each line feed that a file header follows.
unfoldable pub scanned_starts : ℕ → Text → List ℕ
scanned_starts offset [] = []
scanned_starts offset (c ∷ cs) =
    let rest = scanned_starts (offset + 1) cs in
    if has_prefix header_line (c ∷ cs) then (offset + 1) ∷ rest else rest

header_then :
    (c d : ℕ) (cs : Text) → has_prefix header_line (c ∷ d ∷ cs) ≡ true → (b'\n' == d) ≡ false
unfolding has_prefix lit
header_then c d cs h = ground arith

-- The byte behind the line feed of a header starts no header.
scanned_starts-header :
    (offset c : ℕ) (cs : Text)
    → has_prefix header_line (c ∷ cs) ≡ true
    → scanned_starts (offset + 1) cs ≡ scanned_starts (offset + 2) (drop 1 cs)
unfolding scanned_starts
scanned_starts-header offset c [] h = refl
scanned_starts-header offset c (d ∷ cs) h =
    unfold has_prefix lit in
    (rw (header_then c d cs h) (ap (λ n. scanned_starts n cs) (omega arith)))

-- A round of the loop, from the place of the next header in the text.
abbrev behind : ℕ → ℕ → Text → Option ℕ → List ℕ
behind fuel offset text none = []
behind fuel offset text (some relative) =
    (offset + relative + 1)
    ∷ header_starts_from fuel (offset + relative + 2) (drop (relative + 2) text)

behind-one_later :
    (fuel offset c : ℕ) (cs : Text) (o : Option ℕ)
    → behind fuel offset (c ∷ cs) (one_later o) ≡ behind fuel (offset + 1) cs o
behind-one_later fuel offset c cs none = refl
behind-one_later fuel offset c cs (some r) =
    let place : offset + (r + 1) + 1 ≡ offset + 1 + r + 1 = omega arith in
    let after : offset + (r + 1) + 2 ≡ offset + 1 + r + 2 = omega arith in
    let further : r + 1 + 2 ≡ suc (r + 2) = omega arith in rw (place, after, further) refl

behind-zero :
    (fuel offset c : ℕ) (cs : Text)
    → behind fuel offset (c ∷ cs) (some 0)
      ≡ (offset + 1) ∷ header_starts_from fuel (offset + 2) (drop 1 cs)
behind-zero fuel offset c cs =
    let place : offset + 0 + 1 ≡ offset + 1 = omega arith in
    let after : offset + 0 + 2 ≡ offset + 2 = omega arith in rw (place, after) refl

index?-later :
    (c : ℕ) (cs : Text)
    → has_prefix header_line (c ∷ cs) ≡ false
    → index? header_line (c ∷ cs) ≡ one_later (index? header_line cs)
unfolding index?
index?-later c cs h = rw h refl

index?-here :
    (c : ℕ) (cs : Text)
    → has_prefix header_line (c ∷ cs) ≡ true
    → index? header_line (c ∷ cs) ≡ some 0
unfolding index?
index?-here c cs h = rw h refl

header_starts_from-behind :
    (fuel offset : ℕ) (text : Text)
    → header_starts_from (suc fuel) offset text ≡ behind fuel offset text (index? header_line text)
unfolding header_starts_from
header_starts_from-behind fuel offset text = refl

skipped :
    (offset c : ℕ) (cs : Text)
    → has_prefix header_line (c ∷ cs) ≡ false
    → scanned_starts offset (c ∷ cs) ≡ scanned_starts (offset + 1) cs
unfolding scanned_starts
skipped offset c cs h = rw h refl

found_here :
    (offset c : ℕ) (cs : Text)
    → has_prefix header_line (c ∷ cs) ≡ true
    → scanned_starts offset (c ∷ cs) ≡ (offset + 1) ∷ scanned_starts (offset + 2) (drop 1 cs)
found_here offset c cs h =
    kept offset c cs h ∙ ap (λ ns. (offset + 1) ∷ ns) (scanned_starts-header offset c cs h)
  where
    kept :
        (o b : ℕ) (bs : Text)
        → has_prefix header_line (b ∷ bs) ≡ true
        → scanned_starts o (b ∷ bs) ≡ (o + 1) ∷ scanned_starts (o + 1) bs
    kept o b bs e = unfold scanned_starts in rw e refl

length-drop : (n : ℕ) (t : Text) → length (drop n t) ≤ length t
length-drop zero t = omega arith
length-drop (suc n) [] = omega arith
length-drop (suc n) (c ∷ t) = omega (arith, length-drop n t)

-- The loop that looks for the next header, which skips to the place behind each, finds the same
-- starts as a single pass, and the length of the text is fuel enough: it always ends.
pub header_starts_from-scanned :
    (fuel offset : ℕ) (text : Text)
    → length text ≤ fuel
    → header_starts_from fuel offset text ≡ scanned_starts offset text
header_starts_from-scanned zero offset [] h = unfold scanned_starts header_starts_from in refl
header_starts_from-scanned zero offset (c ∷ cs) h = absurd (omega arith)
header_starts_from-scanned (suc fuel) offset [] h =
    unfold scanned_starts header_starts_from index? has_prefix lit in refl
header_starts_from-scanned (suc fuel) offset (c ∷ cs) h =
    elim (Bool-cases (has_prefix header_line (c ∷ cs))) [
      | inl found ↦
          header_starts_from-behind fuel offset (c ∷ cs)
          ∙ ap (behind fuel offset (c ∷ cs)) (index?-here c cs found)
          ∙ behind-zero fuel offset c cs
          ∙ ap (λ ns. (offset + 1) ∷ ns)
              (header_starts_from-scanned fuel (offset + 2) (drop 1 cs)
                (omega (arith, length-drop 1 cs)))
          ∙ sym (found_here offset c cs found)
      | inr other ↦
          header_starts_from-behind fuel offset (c ∷ cs)
          ∙ ap (behind fuel offset (c ∷ cs)) (index?-later c cs other)
          ∙ behind-one_later fuel offset c cs (index? header_line cs)
          ∙ sym (header_starts_from-behind fuel (offset + 1) cs)
          ∙ header_starts_from-scanned (suc fuel) (offset + 1) cs (omega arith)
          ∙ sym (skipped offset c cs other)
    ]
