-- ===== src/Helper/Ranges/Natural.antt =====
-- The scan of internal/vscodehelper/search_diff.go in natural numbers: what the code computes while
-- no line number leaves the range of an int.
use gitgit.Prelude.{ℕ, ◌+◌, ◌-◌, true, false, ◌||◌, List, [], ◌∷◌, ltb, leb, ◌==◌, if◌then◌else◌}
use gitgit.Text.{Text}
use gitgit.Apperr.{Result, ok, err, ◌>>=◌}
use gitgit.Helper.Ranges.{
  TargetRange, LineKind, hunk, bad_hunk, file_header, context_line, deleted, added, other, Scan,
  flush_deletion, bad_header, start, diff_kinds,
}

-- `appendRange`, with the last range of the list at hand.
unfoldable pub append_last : TargetRange → List TargetRange → TargetRange → List TargetRange
append_last last [] candidate =
    if leb candidate.start_line (last.end_line + 1)
    then (if ltb last.end_line candidate.end_line
        then record last { end_line = candidate.end_line }
        else last)
      ∷ []
    else last ∷ candidate ∷ []
append_last r (s ∷ rest) candidate = r ∷ append_last s rest candidate

unfoldable pub append_valid : List TargetRange → TargetRange → List TargetRange
append_valid [] candidate = candidate ∷ []
append_valid (r ∷ rest) candidate = append_last r rest candidate

unfoldable pub append_range : List TargetRange → TargetRange → List TargetRange
append_range ranges candidate =
    if ltb candidate.start_line 1 || ltb candidate.end_line candidate.start_line
    then ranges
    else append_valid ranges candidate

unfoldable pub flush_addition : Scan → Scan
flush_addition s = if s.add_start == 0 then s else record s {
  ranges = append_range s.ranges (record { start_line = s.add_start; end_line = s.new_line - 1 });
  add_start = 0;
}

unfoldable pub flush : ℕ → Scan → Scan
flush target s = flush_deletion target (flush_addition s)

-- A line of a hunk that is not a header.
unfoldable pub body_step : ℕ → LineKind → Scan → Scan
body_step target file_header s = record (flush target s) { in_hunk = false }
body_step target context_line s =
    let flushed = flush target s in record flushed { new_line = flushed.new_line + 1 }
body_step target deleted s = record (flush_addition s) { deletion_active = true }
body_step target added s =
    let flushed = flush_deletion target s in
    record flushed {
      add_start = if flushed.add_start == 0 then flushed.new_line else flushed.add_start;
      new_line = flushed.new_line + 1;
    }
body_step target other s = record (flush target s) { in_hunk = false }
body_step target _ s = s

unfoldable pub line_step : ℕ → LineKind → Scan → Result Scan
line_step target (hunk n) s = ok (record (flush target s) { new_line = n; in_hunk = true })
line_step target bad_hunk s = err bad_header
line_step target kind s = ok (if s.in_hunk then body_step target kind s else s)

unfoldable pub scan_lines : ℕ → List LineKind → Scan → Result Scan
scan_lines target [] s = ok s
scan_lines target (k ∷ ks) s = do t ← line_step target k s; scan_lines target ks t

-- The whole scan.
unfoldable pub ranges_of : Text → ℕ → Result (List TargetRange × List ℕ)
unfolding scan_lines line_step body_step flush flush_addition append_range append_valid append_last
ranges_of diff target = do
  s ← scan_lines target (diff_kinds diff) start
  let flushed = flush target s
  ok (flushed.ranges, flushed.anchors)
