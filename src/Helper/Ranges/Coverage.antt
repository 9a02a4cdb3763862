-- ===== src/Helper/Ranges/Coverage.antt =====
-- The ranges of `parseUnifiedRanges` (internal/vscodehelper/search_diff.go) hold exactly the
-- added lines, for a diff whose hunks follow one another.
use gitgit.Prelude.{
  ℕ, ◌+◌, ◌≤◌, ◌<◌, ◌≡◌, refl, ◌∙◌, Bool, true, false, List, [], ◌∷◌, arith, ◌==◌, ◌||◌,
  if◌then◌else◌,
}
use gitgit.Text.{Text}
use gitgit.Apperr.{ok, >>=-eq-ok}
use gitgit.Helper.Ranges.{
  TargetRange, LineKind, Scan, flush_deletion, start, diff_kinds, hunk, bad_hunk, file_header,
  skipped, context_line, deleted, added, other,
}
use gitgit.Helper.Ranges.Natural.{
  flush_addition, flush, body_step, line_step, scan_lines, ranges_of,
}
use gitgit.Helper.Ranges.Added.{added_lines, FollowOn, holds, in_ranges, EndsBelow-weaken}
use gitgit.Helper.Ranges.Flushes.{
  bound_of, Ahead, covers, Flushed, flush_addition-Flushed, SameAdditions,
  flush_deletion-SameAdditions, flush-Flushed,
}

-- One line: the state stays ahead, and covers what it covered and what the line adds.
record Steps (s t : Scan) (hunk_after : Bool) (line_after : ℕ) (adds : ℕ → Bool) : Type 0 where
  ahead : Ahead t
  hunk_is : t.in_hunk ≡ hunk_after
  line_is : t.new_line ≡ line_after
  covered : (n : ℕ) → 0 < n → covers t n ≡ (covers s n || adds n)

abbrev nothing : ℕ → Bool
nothing n = false

-- After a flush, at a line that is no less.
Flushed-step :
    (s t u : Scan)
    → Flushed s t
    → u.ranges ≡ t.ranges
    → u.add_start ≡ t.add_start
    → s.new_line ≤ u.new_line
    → Steps s u u.in_hunk u.new_line nothing
Flushed-step s t u f r a le = record {
  ahead = record {
    ends = rw (r, a, f.closed) (EndsBelow-weaken s.new_line u.new_line t.ranges le f.ends);
    opened = omega (arith, f.closed, a);
    strictly = λ h. absurd (h (a ∙ f.closed));
  };
  hunk_is = refl;
  line_is = refl;
  covered = λ n pos. ground (arith, f.covered n, a, f.closed, r);
}

abbrev add_line : Scan → Scan
add_line d = record d {
  add_start = if d.add_start == 0 then d.new_line else d.add_start;
  new_line = d.new_line + 1;
}

added_step :
    (s d : Scan)
    → Ahead s
    → SameAdditions s d
    → Steps s (add_line d) s.in_hunk (s.new_line + 1) (λ n. s.new_line == n)
added_step s d a same = record {
  ahead = record {
    ends =
        rw same.same_ranges
          (EndsBelow-weaken (bound_of s) (bound_of (add_line d)) s.ranges bounds a.ends);
    opened = ground (arith, same.same_start, same.same_line, a.opened);
    strictly = λ h. ground (arith, same.same_start, same.same_line, a.opened);
  };
  hunk_is = same.same_hunk;
  line_is = ground (arith, same.same_line);
  covered = λ n pos.
      rw (same.same_ranges, same.same_start, same.same_line) (ground (arith, a.opened, a.strictly));
}
  where
    bounds : bound_of s ≤ bound_of (add_line d)
    bounds = ground (arith, same.same_start, same.same_line)

-- What a scan covers in the end, for the lines that are left.
record Covers (s t : Scan) (lines : List ℕ) : Type 0 where
  ahead : Ahead t
  covered : (n : ℕ) → 0 < n → covers t n ≡ (covers s n || holds lines n)

Covers-here : (s t : Scan) → ok s ≡ ok t → Ahead s → Covers s t []
Covers-here s t e a = rw (← same) (record { ahead = a; covered = λ n pos. ground arith })
  where
    same : s ≡ t
    same = cc

Covers-step :
    {s t u : Scan} {b : Bool} {l : ℕ} {lines : List ℕ}
    → Steps s t b l nothing
    → Covers t u lines
    → Covers s u lines
Covers-step {s} {t} {u} {lines = lines} step later = record {
  ahead = later.ahead;
  covered = λ n pos. ground (arith, step.covered n pos, later.covered n pos);
}

Covers-cons :
    {s t u : Scan} {b : Bool} {l m : ℕ} {lines : List ℕ}
    → Steps s t b l (λ n. m == n)
    → Covers t u lines
    → Covers s u (m ∷ lines)
Covers-cons {s} {t} {u} {lines = lines} step later = record {
  ahead = later.ahead;
  covered = λ n pos. ground (arith, step.covered n pos, later.covered n pos);
}

outside : (b : Bool) (x s : Scan) → b ≡ false → (if b then x else s) ≡ s
outside b x s e = rw e

inside : (b : Bool) (x s : Scan) → b ≡ true → (if b then x else s) ≡ x
inside b x s e = rw e

module _ (target : ℕ) where
  hunk-Steps :
      (n : ℕ) (s : Scan)
      → Ahead s
      → s.new_line ≤ n
      → Steps s (record (flush target s) { new_line = n; in_hunk = true }) true n nothing
  hunk-Steps n s a le = Flushed-step s (flush target s) _ (flush-Flushed target s a) refl refl le

  leave-Steps :
      (s : Scan)
      → Ahead s
      → Steps s
          (record (flush target s) { in_hunk = false })
          false
          (flush target s).new_line
          nothing
  leave-Steps s a =
      let f = flush-Flushed target s a in
      Flushed-step s (flush target s) _ f refl refl (omega (arith, f.same_line))

  context-Steps :
      (s : Scan)
      → Ahead s
      → Steps s
          (record (flush target s) { new_line = (flush target s).new_line + 1 })
          (flush target s).in_hunk
          ((flush target s).new_line + 1)
          nothing
  context-Steps s a =
      let f = flush-Flushed target s a in
      Flushed-step s (flush target s) _ f refl refl (omega (arith, f.same_line))

  deleted-Steps :
      (s : Scan)
      → Ahead s
      → Steps s
          (record (flush_addition s) { deletion_active = true })
          (flush_addition s).in_hunk
          (flush_addition s).new_line
          nothing
  deleted-Steps s a =
      let f = flush_addition-Flushed s a in
      Flushed-step s (flush_addition s) _ f refl refl (omega (arith, f.same_line))

  scan_lines-Covers :
      (ks : List LineKind) (b : Bool) (l : ℕ) (s : Scan) {t : Scan}
      → s.in_hunk ≡ b
      → s.new_line ≡ l
      → Ahead s
      → FollowOn b l ks
      → scan_lines target ks s ≡ ok t
      → Covers s t (added_lines b l ks)
  unfolding scan_lines line_step body_step
  scan_lines-Covers [] b l s {t} eb el a f e = Covers-here s t e a
  scan_lines-Covers (hunk n ∷ ks) b l s eb el a f e =
      Covers-step (hunk-Steps n s a (omega (arith, f.0))) (
        scan_lines-Covers ks true n _ refl refl (hunk-Steps n s a (omega (arith, f.0))).ahead f.1 e)
  scan_lines-Covers (bad_hunk ∷ ks) b l s eb el a f e = cc
  scan_lines-Covers (skipped ∷ ks) true l s eb el a f e =
      scan_lines-Covers ks true l s eb el a f (rw (inside s.in_hunk _ s eb) at e)
  scan_lines-Covers (file_header ∷ ks) true l s eb el a f e = Covers-step (leave-Steps s a) (
      scan_lines-Covers ks false l _ refl ((flush-Flushed target s a).same_line ∙ el)
        (leave-Steps s a).ahead f (rw (inside s.in_hunk _ s eb) at e))
  scan_lines-Covers (other ∷ ks) true l s eb el a f e = Covers-step (leave-Steps s a) (
      scan_lines-Covers ks false l _ refl ((flush-Flushed target s a).same_line ∙ el)
        (leave-Steps s a).ahead f (rw (inside s.in_hunk _ s eb) at e))
  scan_lines-Covers (context_line ∷ ks) true l s eb el a f e =
      let flushed = flush-Flushed target s a in
      Covers-step (context-Steps s a) (
        scan_lines-Covers ks true (l + 1) _ (flushed.same_hunk ∙ eb)
          (omega (arith, flushed.same_line)) (context-Steps s a).ahead f
          (rw (inside s.in_hunk _ s eb) at e))
  scan_lines-Covers (deleted ∷ ks) true l s eb el a f e =
      let flushed = flush_addition-Flushed s a in
      Covers-step (deleted-Steps s a) (
        scan_lines-Covers ks true l _ (flushed.same_hunk ∙ eb) (flushed.same_line ∙ el)
          (deleted-Steps s a).ahead f (rw (inside s.in_hunk _ s eb) at e))
  scan_lines-Covers (added ∷ ks) true l s eb el a f e =
      let same = flush_deletion-SameAdditions target s in
      let step = added_step s (flush_deletion target s) a same in
      rw (← el) (
        Covers-cons step (
          scan_lines-Covers ks true (s.new_line + 1) _ (step.hunk_is ∙ eb) step.line_is step.ahead
            (rw (← el) at f) (rw (inside s.in_hunk _ s eb) at e)))
  scan_lines-Covers (k ∷ ks) false l s eb el a f e =
      scan_lines-Covers ks false l s eb el a f (rw (outside s.in_hunk _ s eb) at e)

start-Ahead : Ahead start
start-Ahead = record { ends = tt; opened = omega arith; strictly = λ h. absurd (h refl) }

-- For a diff whose hunks follow one another, a line of the target from one on lies in a returned
-- range exactly when the diff adds it.
pub ranges_of-covers :
    (diff : Text) (target : ℕ) (ranges : List TargetRange) (anchors : List ℕ)
    → FollowOn false 0 (diff_kinds diff)
    → ranges_of diff target ≡ ok (ranges, anchors)
    → (n : ℕ) → 0 < n
    → in_ranges ranges n ≡ holds (added_lines false 0 (diff_kinds diff)) n
unfolding ranges_of
ranges_of-covers diff target ranges anchors follow h n pos =
    let (s, scanned, last) = >>=-eq-ok (scan_lines target (diff_kinds diff) start) _ h in
    let same : (flush target s).ranges ≡ ranges = cc in
    let all =
      scan_lines-Covers target (diff_kinds diff) false 0 start refl refl start-Ahead follow
        scanned in
    rw (← same) ((flush-Flushed target s all.ahead).covered n ∙ all.covered n pos)
