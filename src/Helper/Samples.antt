-- ===== src/Helper/Samples.antt =====
-- Runs of `parseUnifiedRanges` of internal/vscodehelper/search_diff.go, and its theorems at a
-- concrete diff.
mod Progress
mod Web
mod History
mod Searched
mod Server
mod Requests
use gitgit.Prelude.{ℕ, ◌≡◌, refl, true, false, List, [], ◌∷◌, arith}
use gitgit.Text.{Text, lit, text_eq, has_prefix, strip_prefix?, split, join}
use gitgit.Apperr.{ok}
use gitgit.Helper.Int64.{int_next, int_previous, int_less}
use gitgit.Helper.Ranges.{TargetRange, line_kind, diff_kinds, parse_unified_ranges}
use gitgit.Helper.Ranges.Separated.{AreSeparated}
use gitgit.Helper.Ranges.Added.{FollowOn, in_ranges, holds, added_lines}
use gitgit.Helper.Ranges.Appended.{FitsInt}
use gitgit.Helper.Ranges.Parsed.{parse_unified_ranges-covers, parse_unified_ranges-AreSeparated}
use gitgit.Helper.Ranges.Anchors.{AreAnchors, no_bad_hunk, parse_unified_ranges-AreAnchors}

diff : Text
diff = join b'\n' (
    lit "diff --git a/f b/f"
    ∷ lit "@@ -1,2 +1,3 @@"
    ∷ lit " a"
    ∷ lit "+b"
    ∷ lit "+c"
    ∷ lit "-d"
    ∷ lit "@@ -9 +10,2 @@ f"
    ∷ lit "+x"
    ∷ [])

abbrev two_ranges : List TargetRange
two_ranges =
    record { start_line = 2; end_line = 3 } ∷ record { start_line = 10; end_line = 10 } ∷ []

parsed : parse_unified_ranges diff 12 ≡ ok (two_ranges, 4 ∷ [])
unfolding diff parse_unified_ranges int_next int_previous int_less line_kind lit text_eq has_prefix
    strip_prefix? split join
parsed = refl

diff_fits : FitsInt (diff_kinds diff)
unfolding diff line_kind lit text_eq has_prefix strip_prefix? split join
diff_fits = omega arith

parse_unified_ranges-AreSeparated_example : AreSeparated 0 two_ranges
parse_unified_ranges-AreSeparated_example =
    parse_unified_ranges-AreSeparated diff 12 two_ranges (4 ∷ []) diff_fits parsed

diff_follows : FollowOn false 0 (diff_kinds diff)
unfolding diff line_kind lit text_eq has_prefix strip_prefix? split join
diff_follows = omega arith

parse_unified_ranges-covers_example :
    in_ranges two_ranges 3 ≡ holds (added_lines false 0 (diff_kinds diff)) 3
parse_unified_ranges-covers_example =
    parse_unified_ranges-covers diff 12 two_ranges (4 ∷ []) diff_fits diff_follows parsed 3
      (omega arith)

no_bad : no_bad_hunk (diff_kinds diff) ≡ true
unfolding diff line_kind lit text_eq has_prefix strip_prefix? split join
no_bad = refl

parse_unified_ranges-AreAnchors_example :
    (ranges : List TargetRange) × (anchors : List ℕ) × (parse_unified_ranges diff 12
      ≡ ok (ranges, anchors))
    × AreAnchors 12 anchors
parse_unified_ranges-AreAnchors_example = parse_unified_ranges-AreAnchors diff 12 no_bad
