-- ===== src/Search/Run/Ends.antt =====
-- internal/app/search.go: what an action gives wherever it ends in a value, and sublists.
use mathlib.Core.Path.{subst}
use gitgit.Prelude.{◌≡◌, refl, Bool, true, false, List, [], ◌∷◌, ◌++◌, if◌then◌else◌, arith}
use gitgit.Apperr.{Result, ok, err}
use gitgit.Git.{Event, Exec, pure, continue, ◌>>=◌}

-- Wherever an action ends in a value, that has a property.
unfoldable pub Ends {ℓ} : {A : Type ℓ} → (A → Type 0) → Exec A → Type ℓ
Ends {A} Holds m = (log : List Event) (a : A) → (m log).0 ≡ ok a → Holds a

module _ {ℓ} {A : Type ℓ} (Holds : A → Type 0) where
  ok_eq : (a b : A) → Path (Result A) (ok a) (ok b) → a ≡ b
  ok_eq a b e = cc

  pub Ends-pure : (a : A) → Holds a → Ends Holds (pure a)
  unfolding Ends
  Ends-pure a h log b e = subst Holds (ok_eq a b e) h

  pub Ends-always : (m : Exec A) → ((a : A) → Holds a) → Ends Holds m
  unfolding Ends
  Ends-always m holds log a e = holds a

  pub Ends-if :
      (b : Bool) (m k : Exec A) → Ends Holds m → Ends Holds k → Ends Holds (if b then m else k)
  Ends-if true m k on_true on_false = on_true
  Ends-if false m k on_true on_false = on_false

  -- The same where the outcome of the test counts.
  pub Ends-test :
      (b : Bool) (m k : Exec A)
      → (b ≡ true → Ends Holds m)
      → (b ≡ false → Ends Holds k)
      → Ends Holds (if b then m else k)
  Ends-test true m k on_true on_false = on_true refl
  Ends-test false m k on_true on_false = on_false refl

module _ {ℓ κ} {A : Type ℓ} {B : Type κ} (Given : A → Type 0) (Holds : B → Type 0) where
  continue-Holds :
      (r : Result A) (k : A → Exec B) (log : List Event) (b : B)
      → ((a : A) → r ≡ ok a → Given a)
      → ((a : A) → Given a → Ends Holds (k a))
      → (continue r k log).0 ≡ ok b
      → Holds b
  unfolding Ends
  continue-Holds (ok a) k log b given next e = next a (given a refl) log b e
  continue-Holds (err failure) k log b given next e = absurd (ground arith)

  pub Ends-bind :
      (m : Exec A) (k : A → Exec B)
      → Ends Given m
      → ((a : A) → Given a → Ends Holds (k a))
      → Ends Holds (m >>= k)
  unfolding Ends
  Ends-bind m k ends next log b e = continue-Holds (m log).0 k (m log).1 b (ends log) next e

module _ {ℓ κ} {A : Type ℓ} {B : Type κ} (Holds : B → Type 0) where
  -- The same where the first action may end in any value.
  pub Ends-then :
      (m : Exec A) (k : A → Exec B) → ((a : A) → Ends Holds (k a)) → Ends Holds (m >>= k)
  Ends-then m k next =
      Ends-bind (λ _. Unit {0}) Holds m k (Ends-always (λ _. Unit {0}) m (λ _. tt)) (λ a _. next a)

-- Some of the elements of a list, in its order.
pub data IsSublist {ℓ} {A : Type ℓ} : List A → List A → Type ℓ where
  none_left : IsSublist [] []
  taken : (x : A) (xs ys : List A) → IsSublist xs ys → IsSublist (x ∷ xs) (x ∷ ys)
  skipped : (y : A) (xs ys : List A) → IsSublist xs ys → IsSublist xs (y ∷ ys)

module _ {ℓ} {A : Type ℓ} where
  pub nil-IsSublist : (ys : List A) → IsSublist [] ys
  nil-IsSublist [] = none_left
  nil-IsSublist (y ∷ ys) = skipped y [] ys (nil-IsSublist ys)

  pub IsSublist-append :
      {xs ys us vs : List A} → IsSublist xs ys → IsSublist us vs → IsSublist (xs ++ us) (ys ++ vs)
  IsSublist-append {us = us} {vs = vs} none_left h = h
  IsSublist-append {us = us} {vs = vs} (taken x xs ys g) h =
      taken x (xs ++ us) (ys ++ vs) (IsSublist-append g h)
  IsSublist-append {us = us} {vs = vs} (skipped y xs ys g) h =
      skipped y (xs ++ us) (ys ++ vs) (IsSublist-append g h)
