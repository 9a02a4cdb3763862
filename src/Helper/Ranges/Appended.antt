-- ===== src/Helper/Ranges/Appended.antt =====
-- `appendRange` (internal/vscodehelper/search_diff.go) on ranges whose ends stay within an int, and
-- the diffs whose line numbers do so.
use gitgit.Prelude.{
  ℕ, ◌+◌, ◌^◌, ◌<◌, ◌≡◌, refl, ap, Bool, true, false, not, ◌||◌, List, [], ◌∷◌, ltb, leb, length,
  All, if◌then◌else◌, arith,
}
use gitgit.Helper.Int64.{int_next-eq, int_less-eq}
use gitgit.Helper.Ranges.{TargetRange, LineKind, hunk, append_last, append_valid, append_range}
use gitgit.Helper.Ranges.Natural

-- From each hunk header on, the target line that it names and the lines behind it stay within an
-- int together.
abbrev pub HeadersFit : List LineKind → Type 0
HeadersFit [] = Unit
HeadersFit (hunk n ∷ ks) = (n + length ks < 2 ^ 63) × HeadersFit ks
HeadersFit (_ ∷ ks) = HeadersFit ks

-- And so does the number of all lines.
abbrev pub FitsInt : List LineKind → Type 0
FitsInt ks = (length ks < 2 ^ 63) × HeadersFit ks

abbrev pub IsSmall : TargetRange → Type 0
IsSmall r = r.end_line + 1 < 2 ^ 63

leb-not : (a b : ℕ) → not (ltb a b) ≡ leb b a
leb-not a b = ground arith

append_last-eq :
    (r : TargetRange) (rs : List TargetRange) (c : TargetRange)
    → All IsSmall (r ∷ rs)
    → c.start_line < 2 ^ 63
    → c.end_line < 2 ^ 63
    → append_last r rs c ≡ Natural.append_last r rs c
unfolding append_last Natural.append_last
append_last-eq r [] c small low high =
    rw
      (
        int_next-eq r.end_line (omega (arith, small.0)),
        int_less-eq (r.end_line + 1) c.start_line small.0 low,
        int_less-eq r.end_line c.end_line (omega (arith, small.0)) high,
        leb-not (r.end_line + 1) c.start_line,
      )
      refl
append_last-eq r (s ∷ rs) c small low high =
    ap (λ ranges. r ∷ ranges) (append_last-eq s rs c small.1 low high)

append_last-IsSmall :
    (r : TargetRange) (rs : List TargetRange) (c : TargetRange)
    → All IsSmall (r ∷ rs)
    → IsSmall c
    → All IsSmall (Natural.append_last r rs c)
unfolding Natural.append_last
append_last-IsSmall r [] c small h = ground (arith, small.0, h)
append_last-IsSmall r (s ∷ rs) c small h = (small.0, append_last-IsSmall s rs c small.1 h)

pub append_range-eq :
    (rs : List TargetRange) (c : TargetRange)
    → All IsSmall rs
    → c.start_line < 2 ^ 63
    → c.end_line < 2 ^ 63
    → append_range rs c ≡ Natural.append_range rs c
unfolding append_range Natural.append_range append_valid Natural.append_valid
append_range-eq rs c small low high =
    rw (int_less-eq c.start_line 1 low (omega arith), int_less-eq c.end_line c.start_line high low)
      (ap (λ ranges. if ltb c.start_line 1 || ltb c.end_line c.start_line then rs else ranges)
        (valid rs small))
  where
    valid :
        (ranges : List TargetRange)
        → All IsSmall ranges
        → append_valid ranges c ≡ Natural.append_valid ranges c
    valid [] all = refl
    valid (r ∷ ranges) all = append_last-eq r ranges c all low high

pub append_range-IsSmall :
    (rs : List TargetRange) (c : TargetRange)
    → All IsSmall rs
    → IsSmall c
    → All IsSmall (Natural.append_range rs c)
unfolding Natural.append_range Natural.append_valid
append_range-IsSmall rs c small h =
    chosen (ltb c.start_line 1 || ltb c.end_line c.start_line) (valid rs small)
  where
    valid :
        (ranges : List TargetRange)
        → All IsSmall ranges
        → All IsSmall (Natural.append_valid ranges c)
    valid [] all = (h, tt)
    valid (r ∷ ranges) all = append_last-IsSmall r ranges c all h

    chosen :
        (b : Bool)
        → All IsSmall (Natural.append_valid rs c)
        → All IsSmall (if b then rs else Natural.append_valid rs c)
    chosen true appended = small
    chosen false appended = appended
