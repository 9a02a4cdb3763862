-- ===== src/Helper/Ranges/Bounded.antt =====
-- Steps of `parseUnifiedRanges` (internal/vscodehelper/search_diff.go) on states whose line numbers
-- stay within an int.
use gitgit.Prelude.{
  ℕ, suc, ◌+◌, ◌^◌, ◌<◌, ◌≡◌, refl, ap, inl, inr, Bool, true, false, ◌==◌, All, Bool-cases,
  if◌then◌else◌, arith,
}
use gitgit.Helper.Int64.{int_next-eq, int_previous-eq}
use gitgit.Helper.Ranges.{
  LineKind, hunk, bad_hunk, file_header, skipped, context_line, deleted, added, other, Scan,
  flush_addition, anchor_line, append_anchor, flush_deletion, flush, body_step,
}
use gitgit.Helper.Ranges.Natural
use gitgit.Helper.Ranges.Appended.{IsSmall, append_range-eq, append_range-IsSmall}

-- No number of the state leaves the range of an int in so many more lines.
pub record InRange (left : ℕ) (s : Scan) : Type 0 where
  pub ahead : s.new_line + left < 2 ^ 63
  pub opened : 0 < s.add_start → s.add_start < s.new_line
  pub ends : All IsSmall s.ranges

pub InRange-earlier : (left : ℕ) (s : Scan) → InRange (suc left) s → InRange left s
InRange-earlier left s h = record {
  ahead = omega (arith, h.ahead);
  opened = h.opened;
  ends = h.ends;
}

flush_addition-eq :
    (left : ℕ) (s : Scan) → InRange left s → flush_addition s ≡ Natural.flush_addition s
unfolding flush_addition Natural.flush_addition
flush_addition-eq left s h = elim (Bool-cases (s.add_start == 0)) [
  | inl e ↦ rw e refl
  | inr e ↦
      let open' : s.add_start < s.new_line = h.opened (ground (arith, e)) in
      rw (e, int_previous-eq s.new_line (omega (arith, open')) (omega (arith, h.ahead)))
        (ap (λ ranges. record s { ranges = ranges; add_start = 0 })
          (append_range-eq s.ranges _ h.ends (omega (arith, open', h.ahead))
            (omega (arith, h.ahead))))
]

flush_addition-InRange :
    (left : ℕ) (s : Scan) → InRange left s → InRange left (Natural.flush_addition s)
unfolding Natural.flush_addition
flush_addition-InRange left s h = elim (Bool-cases (s.add_start == 0)) [
  | inl e ↦ rw e h
  | inr e ↦
      let open' : s.add_start < s.new_line = h.opened (ground (arith, e)) in
      rw e (record {
        ahead = h.ahead;
        opened = λ zero'. absurd (omega arith);
        ends = append_range-IsSmall s.ranges _ h.ends (omega (arith, open', h.ahead));
      })
]

-- The next line of the target, inside an addition or outside of one.
next_line-InRange :
    (left : ℕ) (s : Scan) (opened_at : ℕ)
    → opened_at < s.new_line + 1
    → InRange (suc left) s
    → InRange left (record s { new_line = s.new_line + 1; add_start = opened_at })
next_line-InRange left s opened_at before h = record {
  ahead = omega (arith, h.ahead);
  opened = λ _. before;
  ends = h.ends;
}

same_start : (left : ℕ) (s : Scan) → InRange left s → s.add_start < s.new_line + 1
same_start left s h = elim (Bool-cases (s.add_start == 0)) [
  | inl e ↦ ground (arith, e)
  | inr e ↦
      let open' : s.add_start < s.new_line = h.opened (ground (arith, e)) in omega (arith, open')
]

added_start :
    (left : ℕ) (s : Scan)
    → InRange left s
    → (if s.add_start == 0 then s.new_line else s.add_start) < s.new_line + 1
added_start left s h = elim (Bool-cases (s.add_start == 0)) [
  | inl e ↦ rw e (omega arith)
  | inr e ↦ rw e (same_start left s h)
]

module _ (target : ℕ) where
  flush_deletion-InRange :
      (left : ℕ) (s : Scan) → InRange left s → InRange left (flush_deletion target s)
  unfolding flush_deletion
  flush_deletion-InRange left s h = chosen s.deletion_active
    where
      chosen :
          (b : Bool)
          → InRange left (
              if b
              then record s {
                anchors = append_anchor s.anchors (anchor_line target s.new_line);
                deletion_active = false;
              }
              else s)
      chosen true = record { ahead = h.ahead; opened = h.opened; ends = h.ends }
      chosen false = h

  pub flush-eq : (left : ℕ) (s : Scan) → InRange left s → flush target s ≡ Natural.flush target s
  unfolding flush Natural.flush
  flush-eq left s h = ap (flush_deletion target) (flush_addition-eq left s h)

  pub flush-InRange : (left : ℕ) (s : Scan) → InRange left s → InRange left (Natural.flush target s)
  unfolding Natural.flush
  flush-InRange left s h =
      flush_deletion-InRange left (Natural.flush_addition s) (flush_addition-InRange left s h)

  pub body_step-eq :
      (left : ℕ) (k : LineKind) (s : Scan)
      → InRange (suc left) s
      → body_step target k s ≡ Natural.body_step target k s
  unfolding body_step Natural.body_step
  body_step-eq left file_header s h =
      ap {A = Scan} (λ flushed. record flushed { in_hunk = false }) (flush-eq (suc left) s h)
  body_step-eq left context_line s h =
      let flushed = flush-InRange (suc left) s h in
      rw (flush-eq (suc left) s h) (
        ap (λ n. record (Natural.flush target s) { new_line = n })
          (int_next-eq (Natural.flush target s).new_line (omega (arith, flushed.ahead))))
  body_step-eq left deleted s h =
      ap {A = Scan} (λ flushed. record flushed { deletion_active = true })
        (flush_addition-eq (suc left) s h)
  body_step-eq left added s h =
      let flushed = flush_deletion-InRange (suc left) s h in
      ap
        (λ n.
          let rest = flush_deletion target s in
          record rest {
            add_start = if rest.add_start == 0 then rest.new_line else rest.add_start;
            new_line = n;
          })
        (int_next-eq (flush_deletion target s).new_line (omega (arith, flushed.ahead)))
  body_step-eq left other s h =
      ap {A = Scan} (λ flushed. record flushed { in_hunk = false }) (flush-eq (suc left) s h)
  body_step-eq left (hunk n) s h = refl
  body_step-eq left bad_hunk s h = refl
  body_step-eq left skipped s h = refl

  pub flushed-InRange :
      (left : ℕ) (s : Scan) → InRange (suc left) s → InRange left (Natural.flush target s)
  flushed-InRange left s h = flush-InRange left s (InRange-earlier left s h)

  pub body_step-InRange :
      (left : ℕ) (k : LineKind) (s : Scan)
      → InRange (suc left) s
      → InRange left (Natural.body_step target k s)
  unfolding Natural.body_step
  body_step-InRange left file_header s h =
      let flushed = flushed-InRange left s h in
      record { ahead = flushed.ahead; opened = flushed.opened; ends = flushed.ends }
  body_step-InRange left context_line s h =
      let flushed = flush-InRange (suc left) s h in
      next_line-InRange left (Natural.flush target s) _ (same_start (suc left) _ flushed) flushed
  body_step-InRange left deleted s h =
      let flushed = flush_addition-InRange left s (InRange-earlier left s h) in
      record { ahead = flushed.ahead; opened = flushed.opened; ends = flushed.ends }
  body_step-InRange left added s h =
      let flushed = flush_deletion-InRange (suc left) s h in
      next_line-InRange left (flush_deletion target s) _ (added_start (suc left) _ flushed) flushed
  body_step-InRange left other s h =
      let flushed = flushed-InRange left s h in
      record { ahead = flushed.ahead; opened = flushed.opened; ends = flushed.ends }
  body_step-InRange left (hunk n) s h = InRange-earlier left s h
  body_step-InRange left bad_hunk s h = InRange-earlier left s h
  body_step-InRange left skipped s h = InRange-earlier left s h
