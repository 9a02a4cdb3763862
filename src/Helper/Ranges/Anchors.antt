-- ===== src/Helper/Ranges/Anchors.antt =====
-- The deletion anchors of `parseUnifiedRanges` (internal/vscodehelper/search_diff.go), and when it
-- returns.
use gitgit.Prelude.{
  ℕ, ◌≤◌, ◌≡◌, ◌≢◌, refl, sym, Bool, true, false, List, [], ◌∷◌, arith, ◌==◌, Bool-cases, inl, inr,
  if◌then◌else◌, max,
}
use mathlib.Core.Path.{subst}
use gitgit.Text.{Text}
use gitgit.Helper.Int64.{int_less}
use gitgit.Apperr.{ok, >>=-eq-ok, ok_eq}
use gitgit.Helper.Ranges.{
  TargetRange, LineKind, Scan, flush_addition, append_anchor, anchor_line, flush_deletion, flush,
  body_step, line_step, scan_lines, start, diff_kinds, parse_unified_ranges, hunk, bad_hunk,
  file_header, context_line, deleted, added, other,
}

-- Each anchor is a line of the target file (line one where it has none), and differs from the
-- anchor before it.
abbrev pub AreAnchors : ℕ → List ℕ → Type 0
AreAnchors target [] = Unit
AreAnchors target (a ∷ []) = (1 ≤ a) × (a ≤ max 1 target)
AreAnchors target (a ∷ b ∷ rest) =
    ((1 ≤ a) × (a ≤ max 1 target)) × (a ≢ b) × AreAnchors target (b ∷ rest)

anchor_line_bounds :
    (target line : ℕ) → (1 ≤ anchor_line target line) × (anchor_line target line ≤ max 1 target)
unfolding anchor_line int_less
anchor_line_bounds target line = ground arith

append_anchor-AreAnchors :
    (target : ℕ) (anchors : List ℕ) (a : ℕ)
    → (1 ≤ a) × (a ≤ max 1 target)
    → AreAnchors target anchors
    → AreAnchors target (append_anchor anchors a)
unfolding append_anchor
append_anchor-AreAnchors target [] a fits h = fits
append_anchor-AreAnchors target (b ∷ []) a fits h = elim (Bool-cases (b == a)) [
  | inl e ↦ rw e h
  | inr e ↦ rw e (h, (λ same. ground arith), fits)
]
append_anchor-AreAnchors target (b ∷ c ∷ []) a fits h = elim (Bool-cases (c == a)) [
  | inl e ↦ rw e h
  | inr e ↦ rw e (h.0, h.1, (h.2, (λ same. ground arith), fits))
]
append_anchor-AreAnchors target (b ∷ c ∷ d ∷ rest) a fits h =
    (h.0, h.1, append_anchor-AreAnchors target (c ∷ d ∷ rest) a fits h.2)

module _ (target : ℕ) where
  abbrev Good : Scan → Type 0
  Good s = AreAnchors target s.anchors

  flush_addition-anchors : (s : Scan) → (flush_addition s).anchors ≡ s.anchors
  unfolding flush_addition
  flush_addition-anchors s = ground arith

  flush_deletion-Good : (s : Scan) → Good s → Good (flush_deletion target s)
  unfolding flush_deletion
  flush_deletion-Good s h = elim (Bool-cases s.deletion_active) [
    | inl e ↦
        subst
          (λ b. Good (
            if b
            then record s {
              anchors = append_anchor s.anchors (anchor_line target s.new_line);
              deletion_active = false;
            }
            else s))
          (sym e)
          (append_anchor-AreAnchors target s.anchors _ (anchor_line_bounds target s.new_line) h)
    | inr e ↦
        subst
          (λ b. Good (
            if b
            then record s {
              anchors = append_anchor s.anchors (anchor_line target s.new_line);
              deletion_active = false;
            }
            else s))
          (sym e) h
  ]

  flush-Good : (s : Scan) → Good s → Good (flush target s)
  unfolding flush
  flush-Good s h = flush_deletion-Good (flush_addition s) (rw flush_addition-anchors h)

  body_step-Good : (k : LineKind) (s : Scan) → Good s → Good (body_step target k s)
  unfolding body_step
  body_step-Good file_header s h = flush-Good s h
  body_step-Good context_line s h = flush-Good s h
  body_step-Good deleted s h = rw flush_addition-anchors h
  body_step-Good added s h = flush_deletion-Good s h
  body_step-Good other s h = flush-Good s h
  body_step-Good _ s h = h

  if_Good : (b : Bool) (s t : Scan) → Good s → Good t → Good (if b then s else t)
  if_Good true s t hs ht = hs
  if_Good false s t hs ht = ht

  line_step-Good :
      (k : LineKind) (s : Scan) {t : Scan} → line_step target k s ≡ ok t → Good s → Good t
  unfolding line_step
  line_step-Good (hunk n) s e h = rw (← ok_eq e) (flush-Good s h)
  line_step-Good bad_hunk s e h = cc
  line_step-Good k s e h = rw (← ok_eq e) (if_Good s.in_hunk _ _ (body_step-Good k s h) h)

  scan_lines-Good :
      (ks : List LineKind) (s : Scan) {t : Scan} → scan_lines target ks s ≡ ok t → Good s → Good t
  unfolding scan_lines
  scan_lines-Good [] s e h = rw (← ok_eq e) h
  scan_lines-Good (k ∷ ks) s e h =
      let (u, stepped, rest) = >>=-eq-ok (line_step target k s) _ e in
      scan_lines-Good ks u rest (line_step-Good k s stepped h)

abbrev pub no_bad_hunk : List LineKind → Bool
no_bad_hunk [] = true
no_bad_hunk (bad_hunk ∷ ks) = false
no_bad_hunk (_ ∷ ks) = no_bad_hunk ks

scan_lines_total :
    (target : ℕ) (ks : List LineKind) (s : Scan)
    → no_bad_hunk ks ≡ true
    → (t : Scan) × (scan_lines target ks s ≡ ok t)
unfolding scan_lines line_step
scan_lines_total target [] s h = (s, refl)
scan_lines_total target (bad_hunk ∷ ks) s h = cc
scan_lines_total target (k ∷ ks) s h = scan_lines_total target ks _ h

-- Unless a hunk header has a target line beyond the range of an int, the parse returns, and its
-- anchors are lines of the target file (line one where the file has no line), each different from
-- the one before it.
pub parse_unified_ranges-AreAnchors :
    (diff : Text) (target : ℕ)
    → no_bad_hunk (diff_kinds diff) ≡ true
    → (ranges : List TargetRange) × (anchors : List ℕ) × (parse_unified_ranges diff target
        ≡ ok (ranges, anchors))
      × AreAnchors target anchors
unfolding parse_unified_ranges
parse_unified_ranges-AreAnchors diff target h =
    let (s, scanned) = scan_lines_total target (diff_kinds diff) start h in
    (
      (flush target s).ranges,
      (flush target s).anchors,
      rw scanned,
      flush-Good target s (scan_lines-Good target (diff_kinds diff) start scanned tt),
    )
