-- ===== src/Helper/Ranges.antt =====
-- internal/vscodehelper/search_diff.go: `parseUnifiedRanges`, the lines that a unified diff adds
-- and the places where it deletes. Line numbers are Go ints, which wrap around.
pub mod Natural
pub mod Appended
pub mod Bounded
pub mod Separated
pub mod Added
pub mod Flushes
pub mod Coverage
pub mod Parsed
pub mod Anchors
use gitgit.Prelude.{
  ℕ, zero, suc, ◌+◌, ◌-◌, ◌*◌, ◌^◌, ◌<◌, ◌≤◌, ◌≡◌, Bool, true, false, not, ◌&&◌, ◌||◌, Option, none,
  some, List, [], ◌∷◌, ◌++◌, map, ltb, leb, ◌==◌, if◌then◌else◌,
}
use gitgit.Text.{Text, lit, text_eq, has_prefix, strip_prefix?, split}
use gitgit.Helper.Int64.{int_next, int_previous, int_less}
use gitgit.Apperr.{Failure, plain_message, wrapped, plain, Result, ok, err, ◌>>=◌}

pub record TargetRange : Type 0 where
  pub start_line : ℕ
  pub end_line : ℕ

abbrev is_digit : ℕ → Bool
is_digit c = leb b'0' c && leb c b'9'

abbrev cons_digit : ℕ → Text × Text → Text × Text
cons_digit c (digits, rest) = (c ∷ digits, rest)

take_digits : Text → Text × Text
take_digits [] = ([], [])
take_digits (c ∷ cs) =
    let rest = take_digits cs in if is_digit c then cons_digit c rest else ([], c ∷ cs)

-- `[0-9]+`: the digits, and what follows them.
abbrev some_digits : Text × Text → Option (Text × Text)
some_digits ([], rest) = none
some_digits (c ∷ digits, rest) = some (c ∷ digits, rest)

digits_prefix : Text → Option (Text × Text)
digits_prefix t = some_digits (take_digits t)

infixl 10 ◌>>=?◌
abbrev ◌>>=?◌ {ℓ κ} : {A : Type ℓ} {B : Type κ} → Option A → (A → Option B) → Option B
none >>=? f = none
some a >>=? f = f a

-- `(?:,([0-9]+))?`: what follows it.
skip_count : Text → Option Text
skip_count [] = some []
skip_count (c ∷ cs) = if c == b',' then digits_prefix cs >>=? (λ p. some p.1) else some (c ∷ cs)

-- `^@@ -([0-9]+)(?:,([0-9]+))? \+([0-9]+)(?:,([0-9]+))? @@`: the third group.
hunk_start : Text → Option Text
hunk_start line = strip_prefix? (lit "@@ -") line >>=? λ after_old.
    digits_prefix after_old >>=? λ old. skip_count old.1 >>=? λ counted.
    strip_prefix? (lit " +") counted >>=? λ after_new. digits_prefix after_new >>=? λ new.
    skip_count new.1 >>=? λ last. strip_prefix? (lit " @@") last >>=? λ _. some new.0

decimal : ℕ → Text → ℕ
decimal n [] = n
decimal n (c ∷ cs) = decimal (n * 10 + (c - 48)) cs

-- `strconv.Atoi` on a text of digits.
abbrev max_int : ℕ
max_int = 2 ^ 63 - 1

atoi : Text → Option ℕ
atoi digits = let n = decimal 0 digits in if leb n max_int then some n else none

-- What the tests of the loop tell of a line.
pub data LineKind : Type 0 where
  -- a hunk header with its target line, or one that is out of range
  hunk : ℕ → LineKind
  bad_hunk : LineKind
  file_header skipped context_line deleted added other : LineKind

first_byte_kind : Text → LineKind
first_byte_kind [] = skipped
first_byte_kind (c ∷ _) =
    if c == b' '
    then context_line
    else if c == b'-'
    then deleted
    else if c == b'+'
    then added
    else other

body_kind : Text → LineKind
body_kind line =
    if has_prefix (lit "diff --git ") line
    then file_header
    else if text_eq line (lit "\\ No newline at end of file")
    then skipped
    else first_byte_kind line

header_kind : Option ℕ → LineKind
header_kind none = bad_hunk
header_kind (some n) = hunk n

abbrev kind_from : Text → Option Text → LineKind
kind_from line none = body_kind line
kind_from line (some digits) = header_kind (atoi digits)

unfoldable pub line_kind : Text → LineKind
unfolding take_digits digits_prefix skip_count hunk_start decimal atoi first_byte_kind body_kind
    header_kind
line_kind line = kind_from line (hunk_start line)

pub record Scan : Type 0 where
  pub ranges : List TargetRange
  pub anchors : List ℕ
  pub in_hunk : Bool
  pub new_line : ℕ
  pub add_start : ℕ
  pub deletion_active : Bool

-- `appendRange`, with the last range of the list at hand.
pub append_last : TargetRange → List TargetRange → TargetRange → List TargetRange
append_last last [] candidate =
    if not (int_less (int_next last.end_line) candidate.start_line)
    then (if int_less last.end_line candidate.end_line
        then record last { end_line = candidate.end_line }
        else last)
      ∷ []
    else last ∷ candidate ∷ []
append_last r (s ∷ rest) candidate = r ∷ append_last s rest candidate

pub append_valid : List TargetRange → TargetRange → List TargetRange
append_valid [] candidate = candidate ∷ []
append_valid (r ∷ rest) candidate = append_last r rest candidate

pub append_range : List TargetRange → TargetRange → List TargetRange
append_range ranges candidate =
    if int_less candidate.start_line 1 || int_less candidate.end_line candidate.start_line
    then ranges
    else append_valid ranges candidate

pub flush_addition : Scan → Scan
flush_addition s = if s.add_start == 0 then s else record s {
  ranges =
      append_range s.ranges
        (record { start_line = s.add_start; end_line = int_previous s.new_line });
  add_start = 0;
}

-- The anchor of a deletion, within the target file.
pub anchor_line : ℕ → ℕ → ℕ
anchor_line target_line_count new_line =
    if target_line_count == 0
    then 1
    else let at_least = if int_less new_line 1 then 1 else new_line in
      if int_less target_line_count at_least then target_line_count else at_least

-- `append`, unless the last anchor is the same.
pub append_anchor : List ℕ → ℕ → List ℕ
append_anchor [] anchor = anchor ∷ []
append_anchor (a ∷ []) anchor = if a == anchor then a ∷ [] else a ∷ anchor ∷ []
append_anchor (a ∷ b ∷ rest) anchor = a ∷ append_anchor (b ∷ rest) anchor

pub flush_deletion : ℕ → Scan → Scan
flush_deletion target s =
    if s.deletion_active
    then record s {
      anchors = append_anchor s.anchors (anchor_line target s.new_line);
      deletion_active = false;
    }
    else s

pub flush : ℕ → Scan → Scan
flush target s = flush_deletion target (flush_addition s)

-- A line of a hunk that is not a header.
pub body_step : ℕ → LineKind → Scan → Scan
body_step target file_header s = record (flush target s) { in_hunk = false }
body_step target context_line s =
    let flushed = flush target s in record flushed { new_line = int_next flushed.new_line }
body_step target deleted s = record (flush_addition s) { deletion_active = true }
body_step target added s =
    let flushed = flush_deletion target s in
    record flushed {
      add_start = if flushed.add_start == 0 then flushed.new_line else flushed.add_start;
      new_line = int_next flushed.new_line;
    }
body_step target other s = record (flush target s) { in_hunk = false }
body_step target _ s = s

abbrev pub bad_header : Failure
bad_header =
    wrapped (lit "invalid target hunk line: %w") []
      (plain (plain_message (lit "value out of range")))

pub line_step : ℕ → LineKind → Scan → Result Scan
line_step target (hunk n) s = ok (record (flush target s) { new_line = n; in_hunk = true })
line_step target bad_hunk s = err bad_header
line_step target kind s = ok (if s.in_hunk then body_step target kind s else s)

pub scan_lines : ℕ → List LineKind → Scan → Result Scan
scan_lines target [] s = ok s
scan_lines target (k ∷ ks) s = do t ← line_step target k s; scan_lines target ks t

abbrev pub start : Scan
start = record {
  ranges = [];
  anchors = [];
  in_hunk = false;
  new_line = 0;
  add_start = 0;
  deletion_active = false;
}

abbrev pub diff_kinds : Text → List LineKind
diff_kinds diff = map line_kind (split b'\n' diff)

unfoldable pub parse_unified_ranges : Text → ℕ → Result (List TargetRange × List ℕ)
unfolding scan_lines line_step body_step flush flush_deletion append_anchor anchor_line
    flush_addition append_range append_valid append_last
parse_unified_ranges diff target = do
  s ← scan_lines target (diff_kinds diff) start
  let flushed = flush target s
  ok (flushed.ranges, flushed.anchors)
