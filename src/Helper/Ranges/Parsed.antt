-- ===== src/Helper/Ranges/Parsed.antt =====
-- `parseUnifiedRanges` (internal/vscodehelper/search_diff.go) for a diff whose line numbers stay
-- within an int.
use gitgit.Prelude.{
  ℕ, suc, ◌^◌, ◌<◌, ◌≡◌, refl, sym, ap, ◌∙◌, Bool, true, false, List, [], ◌∷◌, if◌then◌else◌,
  length, arith,
}
use gitgit.Text.{Text}
use gitgit.Apperr.{Result, ok, err, ok_eq, ◌>>=◌}
use gitgit.Helper.Ranges.{
  TargetRange, LineKind, hunk, bad_hunk, Scan, flush_deletion, flush, body_step, line_step,
  scan_lines, start, diff_kinds, parse_unified_ranges,
}
use gitgit.Helper.Ranges.Natural
use gitgit.Helper.Ranges.Natural.{ranges_of}
use gitgit.Helper.Ranges.Appended.{HeadersFit, FitsInt}
use gitgit.Helper.Ranges.Bounded.{
  InRange, InRange-earlier, flush-eq, flushed-InRange, body_step-eq, body_step-InRange,
}
use gitgit.Helper.Ranges.Separated.{AreSeparated, ranges_of-AreSeparated}
use gitgit.Helper.Ranges.Added.{FollowOn, in_ranges, holds, added_lines}
use gitgit.Helper.Ranges.Coverage.{ranges_of-covers}

-- The scan agrees from a state on, with the flush behind its end.
abbrev EndsAlike : ℕ → Result Scan → Result Scan → Type 0
EndsAlike target scanned natural =
    (do t ← scanned; ok (flush target t)) ≡ (do t ← natural; ok (Natural.flush target t))

module _ (target : ℕ) where
  abbrev ScansAlike : List LineKind → Scan → Scan → Type 0
  ScansAlike ks s u = EndsAlike target (scan_lines target ks s) (Natural.scan_lines target ks u)

  body_line :
      (k : LineKind) (ks : List LineKind) (s : Scan)
      → ((u : Scan) → InRange (length ks) u → ScansAlike ks u u)
      → InRange (suc (length ks)) s
      → ScansAlike ks
          (if s.in_hunk then body_step target k s else s)
          (if s.in_hunk then Natural.body_step target k s else s)
  body_line k ks s rest h = chosen s.in_hunk (body_step-eq target (length ks) k s h)
    where
      chosen :
          (b : Bool)
          → body_step target k s ≡ Natural.body_step target k s
          → ScansAlike ks
              (if b then body_step target k s else s)
              (if b then Natural.body_step target k s else s)
      chosen true e = rw e (rest _ (body_step-InRange target (length ks) k s h))
      chosen false e = rest s (InRange-earlier (length ks) s h)

  flush-closed : (s : Scan) → (Natural.flush target s).add_start ≡ 0
  unfolding Natural.flush Natural.flush_addition flush_deletion
  flush-closed s = ground arith

  scan_lines-alike :
      (ks : List LineKind) (s : Scan)
      → HeadersFit ks
      → InRange (length ks) s
      → EndsAlike target (scan_lines target ks s) (Natural.scan_lines target ks s)
  unfolding scan_lines Natural.scan_lines line_step Natural.line_step
  scan_lines-alike [] s f h = ap ok (flush-eq target 0 s h)
  scan_lines-alike (hunk n ∷ ks) s f h =
      let flushed = flushed-InRange target (length ks) s h in
      rw (flush-eq target (suc (length ks)) s h) (
        scan_lines-alike ks _ f.1 (record {
          ahead = f.0;
          opened = λ pos. absurd (omega (arith, pos, flush-closed s));
          ends = flushed.ends;
        }))
  scan_lines-alike (bad_hunk ∷ ks) s f h = refl
  scan_lines-alike (k ∷ ks) s f h = body_line k ks s (λ u. scan_lines-alike ks u f) h

start-InRange : (left : ℕ) → left < 2 ^ 63 → InRange left start
start-InRange left h = record {
  ahead = omega (arith, h);
  opened = λ pos. absurd (omega arith);
  ends = tt;
}

abbrev answer : Scan → List TargetRange × List ℕ
answer flushed = (flushed.ranges, flushed.anchors)

parse_unified_ranges-ranges_of :
    (diff : Text) (target : ℕ)
    → FitsInt (diff_kinds diff)
    → parse_unified_ranges diff target ≡ ranges_of diff target
unfolding parse_unified_ranges ranges_of
parse_unified_ranges-ranges_of diff target fits =
    pairs (scan_lines target (diff_kinds diff) start)
      (Natural.scan_lines target (diff_kinds diff) start)
      (scan_lines-alike target (diff_kinds diff) start fits.1 (start-InRange _ fits.0))
  where
    pairs :
        (r n : Result Scan)
        → EndsAlike target r n
        → (do t ← r; ok (answer (flush target t)))
          ≡ (do t ← n; ok (answer (Natural.flush target t)))
    pairs (ok s) (ok t) e = ap (λ flushed. ok (answer flushed)) (ok_eq e)
    pairs (ok s) (err f) e = cc
    pairs (err f) (ok t) e = cc
    pairs (err f) (err g) e = cc

-- For a diff whose hunks follow one another, a line of the target from one on lies in a returned
-- range exactly when the diff adds it. The number of all lines of the diff, and the line that each
-- hunk header names together with the number of the lines behind it, stay within an int.
pub parse_unified_ranges-covers :
    (diff : Text) (target : ℕ) (ranges : List TargetRange) (anchors : List ℕ)
    → FitsInt (diff_kinds diff)
    → FollowOn false 0 (diff_kinds diff)
    → parse_unified_ranges diff target ≡ ok (ranges, anchors)
    → (n : ℕ) → 0 < n
    → in_ranges ranges n ≡ holds (added_lines false 0 (diff_kinds diff)) n
parse_unified_ranges-covers diff target ranges anchors fits follow h =
    ranges_of-covers diff target ranges anchors follow
      (sym (parse_unified_ranges-ranges_of diff target fits) ∙ h)

-- The ranges that are returned start at line one or later, none is empty, and each starts at least
-- two lines behind the end of the one before it. The number of all lines of the diff, and the line
-- that each hunk header names together with the number of the lines behind it, stay within an int.
pub parse_unified_ranges-AreSeparated :
    (diff : Text) (target : ℕ) (ranges : List TargetRange) (anchors : List ℕ)
    → FitsInt (diff_kinds diff)
    → parse_unified_ranges diff target ≡ ok (ranges, anchors)
    → AreSeparated 0 ranges
parse_unified_ranges-AreSeparated diff target ranges anchors fits h =
    ranges_of-AreSeparated diff target ranges anchors
      (sym (parse_unified_ranges-ranges_of diff target fits) ∙ h)
