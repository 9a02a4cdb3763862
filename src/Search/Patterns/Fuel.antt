-- ===== src/Search/Patterns/Fuel.antt =====
-- internal/app/search.go: the loop of `globExpression` ends.
use gitgit.Prelude.{
  ℕ, zero, suc, ◌≤◌, ◌≡◌, refl, ap, Bool, true, false, not, ◌&&◌, Option, none, some, [], ◌∷◌, ◌++◌,
  length, ◌==◌, if◌then◌else◌, arith,
}
use gitgit.Text.{Text}
use gitgit.Apperr.{Result, ok, err, ◌>>=◌}
use gitgit.Search.Patterns.{
  Regexp, class_content, class_text, class_with, kept_byte, glob_character_class, skip_stars,
  two_stars, star, literal_bytes, escaped_byte, glob_token, glob_loop,
}

-- What is left of a pattern is not longer than a text.
abbrev Leaves : ℕ → Option (Text × Text) → Type 0
Leaves n none = Unit
Leaves n (some (content, behind)) = length behind ≤ n

kept_byte-Leaves :
    (n : ℕ) (c : ℕ) (rest : Option (Text × Text))
    → Leaves n rest
    → Leaves (suc n) (kept_byte c rest)
kept_byte-Leaves n c none h = tt
kept_byte-Leaves n c (some (content, behind)) h = omega (arith, h)

class_content-Leaves : (escaped : Bool) (t : Text) → Leaves (length t) (class_content escaped t)
unfolding class_content
class_content-Leaves escaped [] = tt
class_content-Leaves escaped (c ∷ cs) =
    if-Leaves (not escaped && c == b']') (some ([], cs)) _ (omega arith)
      (kept_byte-Leaves (length cs) c _ (class_content-Leaves (not escaped && c == b'\\') cs))
  where
    if-Leaves :
        (b : Bool) (m k : Option (Text × Text))
        → Leaves (suc (length cs)) m
        → Leaves (suc (length cs)) k
        → Leaves (suc (length cs)) (if b then m else k)
    if-Leaves true m k h g = h
    if-Leaves false m k h g = g

skip_stars-length : (t : Text) → length (skip_stars t) ≤ length t
unfolding skip_stars
skip_stars-length [] = omega arith
skip_stars-length (c ∷ cs) = ground (arith, skip_stars-length cs)

two_stars-length : (t : Text) → length (two_stars t).1 ≤ length t
unfolding two_stars
two_stars-length [] = omega arith
two_stars-length (c ∷ cs) = ground arith

star-length : (path_aware : Bool) (t : Text) → length (star path_aware t).1 ≤ length t
unfolding star
star-length false t = skip_stars-length t
star-length true [] = omega arith
star-length true (c ∷ cs) = ground (arith, two_stars-length cs)

literal_bytes-length : (t : Text) → length (literal_bytes t).1 ≤ length t
unfolding literal_bytes
literal_bytes-length [] = omega arith
literal_bytes-length (c ∷ cs) = ground (arith, literal_bytes-length cs)

-- What a round of the loop leaves is not longer than the pattern behind its first byte.
abbrev IsShorter : ℕ → Result (Text × Text) → Type 0
IsShorter n (ok (written, behind)) = length behind ≤ n
IsShorter n (err e) = Unit

class_with-length :
    (n : ℕ) (found : Option (Text × Text)) → Leaves n found → IsShorter n (class_with found)
unfolding class_with
class_with-length n none h = tt
class_with-length n (some (content, behind)) h = shown (class_text content)
  where
    shown : (r : Result Text) → IsShorter n (r >>= λ text. ok (text, behind))
    shown (ok text) = h
    shown (err e) = tt

module _ (rx : Regexp) where
  escaped_byte-length : (cs : Text) → IsShorter (length cs) (escaped_byte rx cs)
  unfolding escaped_byte
  escaped_byte-length [] = tt
  escaped_byte-length (c ∷ cs) = omega arith

  if-IsShorter :
      (n : ℕ) (b : Bool) (m k : Result (Text × Text))
      → IsShorter n m
      → IsShorter n k
      → IsShorter n (if b then m else k)
  if-IsShorter n true m k h g = h
  if-IsShorter n false m k h g = g

  glob_token-length :
      (path_aware : Bool) (c : ℕ) (cs : Text)
      → IsShorter (length cs) (glob_token rx path_aware c cs)
  unfolding glob_token glob_character_class
  glob_token-length path_aware c cs =
      if-IsShorter (length cs) (c == b'*') (ok (star path_aware cs)) _ (star-length path_aware cs) (
        if-IsShorter (length cs) (c == b'?') (ok (_, cs)) _ (omega arith) (
          if-IsShorter (length cs) (c == b'[') (glob_character_class cs) _
            (class_with-length (length cs) _ (class_content-Leaves false cs))
            (if-IsShorter (length cs) (c == b'\\') (escaped_byte rx cs) _ (escaped_byte-length cs)
              (literal_bytes-length cs))))

  after_token :
      (path_aware : Bool) (n fuel more : ℕ) (r : Result (Text × Text))
      → IsShorter n r
      → ((t : Text)
          → length t ≤ n
          → glob_loop rx path_aware fuel t ≡ glob_loop rx path_aware more t)
      → (r >>= λ token. glob_loop rx path_aware fuel token.1 >>= λ written. ok (token.0 ++ written))
        ≡ (r >>= λ token.
            glob_loop rx path_aware more token.1 >>= λ written. ok (token.0 ++ written))
  after_token path_aware n fuel more (ok (shown, behind)) h same =
      ap (λ rest. rest >>= λ written. ok (shown ++ written)) (same behind h)
  after_token path_aware n fuel more (err e) h same = refl

  -- As much fuel as the pattern is long is enough: more makes no difference.
  pub glob_loop-enough :
      (path_aware : Bool) (fuel more : ℕ) (t : Text)
      → length t ≤ fuel
      → length t ≤ more
      → glob_loop rx path_aware fuel t ≡ glob_loop rx path_aware more t
  unfolding glob_loop
  glob_loop-enough path_aware zero zero t h g = refl
  glob_loop-enough path_aware zero (suc more) [] h g = refl
  glob_loop-enough path_aware zero (suc more) (c ∷ cs) h g = absurd (omega arith)
  glob_loop-enough path_aware (suc fuel) zero [] h g = refl
  glob_loop-enough path_aware (suc fuel) zero (c ∷ cs) h g = absurd (omega arith)
  glob_loop-enough path_aware (suc fuel) (suc more) [] h g = refl
  glob_loop-enough path_aware (suc fuel) (suc more) (c ∷ cs) h g =
      after_token path_aware (length cs) fuel more (glob_token rx path_aware c cs)
        (glob_token-length path_aware c cs)
        (λ t short. glob_loop-enough path_aware fuel more t (omega arith) (omega arith))
