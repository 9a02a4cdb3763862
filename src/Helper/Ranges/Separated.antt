-- ===== src/Helper/Ranges/Separated.antt =====
-- The ranges of `parseUnifiedRanges` (internal/vscodehelper/search_diff.go) lie apart, whatever
-- the diff.
use gitgit.Prelude.{
  ℕ, ◌+◌, ◌≤◌, ◌<◌, ◌≡◌, Bool, true, false, List, [], ◌∷◌, arith, ltb, ◌==◌, ◌||◌, Bool-cases, inl,
  inr, if◌then◌else◌,
}
use gitgit.Text.{Text}
use gitgit.Apperr.{ok, >>=-eq-ok, ok_eq}
use gitgit.Helper.Ranges.{
  TargetRange, LineKind, Scan, flush_deletion, start, diff_kinds, hunk, bad_hunk, file_header,
  context_line, deleted, added, other,
}
use gitgit.Helper.Ranges.Natural.{
  append_last, append_valid, append_range, flush_addition, flush, body_step, line_step, scan_lines,
  ranges_of,
}

-- Each range starts at least two lines behind the end of the one before it: they are sorted, do
-- not meet, and could not be joined. The first starts behind `low`.
abbrev pub AreSeparated : ℕ → List TargetRange → Type 0
AreSeparated low [] = Unit
AreSeparated low (r ∷ rs) =
    (low < r.start_line) × (r.start_line ≤ r.end_line) × AreSeparated (r.end_line + 1) rs

append_last-AreSeparated :
    (low : ℕ) (r : TargetRange) (rs : List TargetRange) (candidate : TargetRange)
    → candidate.start_line ≤ candidate.end_line
    → AreSeparated low (r ∷ rs)
    → AreSeparated low (append_last r rs candidate)
unfolding append_last
append_last-AreSeparated low r [] c valid h = ground arith
append_last-AreSeparated low r (s ∷ rest) c valid h =
    (h.0, h.1, append_last-AreSeparated (r.end_line + 1) s rest c valid h.2)

append_valid-AreSeparated :
    (rs : List TargetRange) (c : TargetRange)
    → 0 < c.start_line
    → c.start_line ≤ c.end_line
    → AreSeparated 0 rs
    → AreSeparated 0 (append_valid rs c)
unfolding append_valid
append_valid-AreSeparated [] c positive valid h = (positive, valid, tt)
append_valid-AreSeparated (r ∷ rs) c positive valid h = append_last-AreSeparated 0 r rs c valid h

append_range-AreSeparated :
    (rs : List TargetRange) (c : TargetRange)
    → AreSeparated 0 rs
    → AreSeparated 0 (append_range rs c)
unfolding append_range
append_range-AreSeparated rs c h =
    elim (Bool-cases (ltb c.start_line 1 || ltb c.end_line c.start_line)) [
      | inl e ↦ rw e h
      | inr e ↦ rw e (append_valid-AreSeparated rs c (ground arith) (ground arith) h)
    ]

abbrev Good : Scan → Type 0
Good s = AreSeparated 0 s.ranges

flush_addition-Good : (s : Scan) → Good s → Good (flush_addition s)
unfolding flush_addition
flush_addition-Good s h = elim (Bool-cases (s.add_start == 0)) [
  | inl e ↦ rw e h
  | inr e ↦ rw e (append_range-AreSeparated s.ranges _ h)
]

flush_deletion-ranges : (target : ℕ) (s : Scan) → (flush_deletion target s).ranges ≡ s.ranges
unfolding flush_deletion
flush_deletion-ranges target s = ground arith

flush-Good : (target : ℕ) (s : Scan) → Good s → Good (flush target s)
unfolding flush
flush-Good target s h =
    rw (flush_deletion-ranges target (flush_addition s)) (flush_addition-Good s h)

body_step-Good : (target : ℕ) (k : LineKind) (s : Scan) → Good s → Good (body_step target k s)
unfolding body_step
body_step-Good target file_header s h = flush-Good target s h
body_step-Good target context_line s h = flush-Good target s h
body_step-Good target deleted s h = flush_addition-Good s h
body_step-Good target added s h = rw (flush_deletion-ranges target s) h
body_step-Good target other s h = flush-Good target s h
body_step-Good target _ s h = h

if_Good : (b : Bool) (s t : Scan) → Good s → Good t → Good (if b then s else t)
if_Good true s t hs ht = hs
if_Good false s t hs ht = ht

line_step-Good :
    (target : ℕ) (k : LineKind) (s : Scan) {t : Scan}
    → line_step target k s ≡ ok t
    → Good s
    → Good t
unfolding line_step
line_step-Good target (hunk n) s e h = rw (← ok_eq e) (flush-Good target s h)
line_step-Good target bad_hunk s e h = cc
line_step-Good target k s e h =
    rw (← ok_eq e) (if_Good s.in_hunk _ _ (body_step-Good target k s h) h)

scan_lines-Good :
    (target : ℕ) (ks : List LineKind) (s : Scan) {t : Scan}
    → scan_lines target ks s ≡ ok t
    → Good s
    → Good t
unfolding scan_lines
scan_lines-Good target [] s e h = rw (← ok_eq e) h
scan_lines-Good target (k ∷ ks) s e h =
    let (u, stepped, rest) = >>=-eq-ok (line_step target k s) _ e in
    scan_lines-Good target ks u rest (line_step-Good target k s stepped h)

-- The ranges that are returned start at line one or later, none is empty, and each starts at
-- least two lines behind the end of the one before it.
pub ranges_of-AreSeparated :
    (diff : Text) (target : ℕ) (ranges : List TargetRange) (anchors : List ℕ)
    → ranges_of diff target ≡ ok (ranges, anchors)
    → AreSeparated 0 ranges
unfolding ranges_of
ranges_of-AreSeparated diff target ranges anchors h =
    let (s, scanned, last) = >>=-eq-ok (scan_lines target (diff_kinds diff) start) _ h in
    let same : (flush target s).ranges ≡ ranges = cc in
    rw (← same) (flush-Good target s (scan_lines-Good target (diff_kinds diff) start scanned tt))
