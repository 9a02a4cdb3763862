-- ===== src/Helper/Ranges/Flushes.antt =====
-- The flush functions of `parseUnifiedRanges` (internal/vscodehelper/search_diff.go): what the open
-- range adds when it is closed.
use gitgit.Prelude.{
  ℕ, ◌-◌, ◌≤◌, ◌<◌, ◌≡◌, refl, ◌∙◌, Bool, true, false, arith, ltb, leb, ◌==◌, not, ◌||◌, ◌&&◌,
  Bool-cases, inl, inr, if◌then◌else◌,
}
use gitgit.Helper.Ranges.{TargetRange, Scan, flush_deletion}
use gitgit.Helper.Ranges.Natural.{append_valid, append_range, flush_addition, flush}
use gitgit.Helper.Ranges.Added.{
  in_ranges, EndsBelow, EndsBelow-weaken, append_valid-in_ranges, append_valid-EndsBelow,
}

-- Where the ranges that are written so far end, and what the open one adds.
abbrev pub bound_of : Scan → ℕ
bound_of s = if s.add_start == 0 then s.new_line else s.add_start

pub record Ahead (s : Scan) : Type 0 where
  pub ends : EndsBelow (bound_of s) s.ranges
  pub opened : s.add_start ≤ s.new_line
  pub strictly : (s.add_start ≡ 0 → ⊥) → s.add_start < s.new_line

abbrev pub covers : Scan → ℕ → Bool
covers s n =
    in_ranges s.ranges n || (not (s.add_start == 0) && (leb s.add_start n && ltb n s.new_line))

-- Closing the open range changes neither what is covered nor the place.
pub record Flushed (s t : Scan) : Type 0 where
  pub ends : EndsBelow s.new_line t.ranges
  pub closed : t.add_start ≡ 0
  pub same_line : t.new_line ≡ s.new_line
  pub same_hunk : t.in_hunk ≡ s.in_hunk
  pub covered : (n : ℕ) → in_ranges t.ranges n ≡ covers s n

pub flush_closed : (s : Scan) → (s.add_start == 0) ≡ true → flush_addition s ≡ s
unfolding flush_addition
flush_closed s e = rw e

abbrev pub last_range : Scan → TargetRange
last_range s = record { start_line = s.add_start; end_line = s.new_line - 1 }

pub flush_open :
    (s : Scan)
    → (s.add_start == 0) ≡ false
    → s.add_start < s.new_line
    → flush_addition s ≡ record s { ranges = append_valid s.ranges (last_range s); add_start = 0 }
unfolding flush_addition append_range
flush_open s e h = ground arith

pub flush_addition-Flushed : (s : Scan) → Ahead s → Flushed s (flush_addition s)
flush_addition-Flushed s a = elim (Bool-cases (s.add_start == 0)) [
  | inl e ↦ rw (flush_closed s e) (record {
    ends = rw e at a.ends;
    closed = ground arith;
    same_line = refl;
    same_hunk = refl;
    covered = λ n. ground arith;
  })
  | inr e ↦
      let below : s.add_start < s.new_line = a.strictly (ground arith) in
      let ends : EndsBelow s.add_start s.ranges = rw e at a.ends in
      rw (flush_open s e below) (record {
        ends =
            append_valid-EndsBelow s.new_line s.ranges (last_range s) (omega arith) (omega arith)
              (EndsBelow-weaken s.add_start s.new_line s.ranges (omega arith) ends);
        closed = refl;
        same_line = refl;
        same_hunk = refl;
        covered =
            λ n. append_valid-in_ranges s.ranges (last_range s) n (omega arith) ends ∙ ground arith;
      })
]

-- Closing a deletion touches none of this.
pub record SameAdditions (s t : Scan) : Type 0 where
  pub same_ranges : t.ranges ≡ s.ranges
  pub same_start : t.add_start ≡ s.add_start
  pub same_line : t.new_line ≡ s.new_line
  pub same_hunk : t.in_hunk ≡ s.in_hunk

pub flush_deletion-SameAdditions :
    (target : ℕ) (s : Scan) → SameAdditions s (flush_deletion target s)
unfolding flush_deletion
flush_deletion-SameAdditions target s = ground arith

pub flush-Flushed : (target : ℕ) (s : Scan) → Ahead s → Flushed s (flush target s)
unfolding flush
flush-Flushed target s a =
    let f = flush_addition-Flushed s a in
    let d = flush_deletion-SameAdditions target (flush_addition s) in
    record {
      ends = rw d.same_ranges f.ends;
      closed = d.same_start ∙ f.closed;
      same_line = d.same_line ∙ f.same_line;
      same_hunk = d.same_hunk ∙ f.same_hunk;
      covered = λ n. rw d.same_ranges (f.covered n);
    }
