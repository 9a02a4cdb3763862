-- ===== src/Helper/Int64.antt =====
-- Go's int of 64 bits, as the native number of its two's complement: it wraps around at 2^64, and a
-- number from 2^63 on stands for a negative one.
use gitgit.Prelude.{
  ℕ, ◌+◌, ◌-◌, ◌%◌, ◌^◌, ◌<◌, ◌≡◌, Bool, true, false, ltb, leb, if◌then◌else◌, arith,
}

-- `n + 1` and `n - 1`.
unfoldable pub int_next : ℕ → ℕ
int_next n = (n + 1) % 2 ^ 64

unfoldable pub int_previous : ℕ → ℕ
int_previous n = (n + (2 ^ 64 - 1)) % 2 ^ 64

abbrev pub is_below_zero : ℕ → Bool
is_below_zero n = leb (2 ^ 63) n

-- `a < b`.
unfoldable pub int_less : ℕ → ℕ → Bool
int_less a b =
    if is_below_zero a
    then (if is_below_zero b then ltb a b else true)
    else if is_below_zero b
    then false
    else ltb a b

pub int_next-eq : (n : ℕ) → n + 1 < 2 ^ 64 → int_next n ≡ n + 1
unfolding int_next
int_next-eq n h = omega arith

pub int_previous-eq : (n : ℕ) → 0 < n → n < 2 ^ 64 → int_previous n ≡ n - 1
unfolding int_previous
int_previous-eq n h k = omega arith

pub int_less-eq : (a b : ℕ) → a < 2 ^ 63 → b < 2 ^ 63 → int_less a b ≡ ltb a b
unfolding int_less
int_less-eq a b h k = ground arith

-- A number that is not below one is one of 1 to 2^63 - 1.
pub int_less-one : (n : ℕ) → int_less n 1 ≡ false → (0 < n) × (n < 2 ^ 63)
unfolding int_less
int_less-one n h = ground arith
