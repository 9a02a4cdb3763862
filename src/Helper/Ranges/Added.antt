-- ===== src/Helper/Ranges/Added.antt =====
-- The added lines of a diff, for internal/vscodehelper/search_diff.go, and what `appendRange` adds
-- to the ranges.
use gitgit.Prelude.{
  ℕ, ◌+◌, ◌≤◌, ◌<◌, ◌≡◌, Bool, true, false, List, [], ◌∷◌, arith, leb, ◌==◌, ◌||◌, ◌&&◌, All,
}
use gitgit.Helper.Ranges.{
  TargetRange, LineKind, hunk, bad_hunk, file_header, context_line, added, other,
}
use gitgit.Helper.Ranges.Natural.{append_last, append_valid}

-- The numbers of the added lines, read off the lines alone: a header sets the number of the next
-- line of the target, and context and added lines count.
abbrev pub added_lines : Bool → ℕ → List LineKind → List ℕ
added_lines in_hunk line [] = []
added_lines in_hunk line (hunk n ∷ ks) = added_lines true n ks
added_lines in_hunk line (bad_hunk ∷ ks) = added_lines in_hunk line ks
added_lines true line (context_line ∷ ks) = added_lines true (line + 1) ks
added_lines true line (added ∷ ks) = line ∷ added_lines true (line + 1) ks
added_lines true line (file_header ∷ ks) = added_lines false line ks
added_lines true line (other ∷ ks) = added_lines false line ks
added_lines in_hunk line (_ ∷ ks) = added_lines in_hunk line ks

-- No hunk starts above the place that the hunks before it have reached.
abbrev pub FollowOn : Bool → ℕ → List LineKind → Type 0
FollowOn in_hunk line [] = Unit
FollowOn in_hunk line (hunk n ∷ ks) = (line ≤ n) × FollowOn true n ks
FollowOn in_hunk line (bad_hunk ∷ ks) = FollowOn in_hunk line ks
FollowOn true line (context_line ∷ ks) = FollowOn true (line + 1) ks
FollowOn true line (added ∷ ks) = FollowOn true (line + 1) ks
FollowOn true line (file_header ∷ ks) = FollowOn false line ks
FollowOn true line (other ∷ ks) = FollowOn false line ks
FollowOn in_hunk line (_ ∷ ks) = FollowOn in_hunk line ks

abbrev pub holds : List ℕ → ℕ → Bool
holds [] n = false
holds (m ∷ ms) n = m == n || holds ms n

abbrev pub within : TargetRange → ℕ → Bool
within r n = leb r.start_line n && leb n r.end_line

abbrev pub in_ranges : List TargetRange → ℕ → Bool
in_ranges [] n = false
in_ranges (r ∷ rs) n = within r n || in_ranges rs n

abbrev pub EndsBelow : ℕ → List TargetRange → Type 0
EndsBelow bound = All (λ (r : TargetRange). (r.start_line ≤ r.end_line) × (r.end_line < bound))

pub append_last-in_ranges :
    (r : TargetRange) (rs : List TargetRange) (c : TargetRange) (n : ℕ)
    → c.start_line ≤ c.end_line
    → EndsBelow c.start_line (r ∷ rs)
    → in_ranges (append_last r rs c) n ≡ (in_ranges (r ∷ rs) n || within c n)
unfolding append_last
append_last-in_ranges r [] c n v h = ground arith
append_last-in_ranges r (s ∷ rest) c n v h = ground (arith, append_last-in_ranges s rest c n v h.1)

pub append_last-EndsBelow :
    (bound : ℕ) (r : TargetRange) (rs : List TargetRange) (c : TargetRange)
    → c.start_line ≤ c.end_line
    → c.end_line < bound
    → EndsBelow bound (r ∷ rs)
    → EndsBelow bound (append_last r rs c)
unfolding append_last
append_last-EndsBelow bound r [] c v b h = ground arith
append_last-EndsBelow bound r (s ∷ rest) c v b h =
    (h.0, append_last-EndsBelow bound s rest c v b h.1)

pub EndsBelow-weaken :
    (low high : ℕ) (rs : List TargetRange) → low ≤ high → EndsBelow low rs → EndsBelow high rs
EndsBelow-weaken low high [] le h = tt
EndsBelow-weaken low high (r ∷ rs) le h =
    ((h.0.0, omega arith), EndsBelow-weaken low high rs le h.1)

pub append_valid-in_ranges :
    (rs : List TargetRange) (c : TargetRange) (n : ℕ)
    → c.start_line ≤ c.end_line
    → EndsBelow c.start_line rs
    → in_ranges (append_valid rs c) n ≡ (in_ranges rs n || within c n)
unfolding append_valid
append_valid-in_ranges [] c n v h = ground arith
append_valid-in_ranges (r ∷ rs) c n v h = append_last-in_ranges r rs c n v h

pub append_valid-EndsBelow :
    (bound : ℕ) (rs : List TargetRange) (c : TargetRange)
    → c.start_line ≤ c.end_line
    → c.end_line < bound
    → EndsBelow bound rs
    → EndsBelow bound (append_valid rs c)
unfolding append_valid
append_valid-EndsBelow bound [] c v b h = ((v, b), tt)
append_valid-EndsBelow bound (r ∷ rs) c v b h = append_last-EndsBelow bound r rs c v b h
