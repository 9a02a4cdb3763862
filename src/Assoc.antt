-- ===== src/Assoc.antt =====
-- Go maps with string keys as association lists. The program never depends on their order.
use gitgit.Prelude.{
  ◌≡◌, refl, ◌∙◌, Bool, true, false, ◌||◌, Option, none, some, List, [], ◌∷◌, ◌++◌, arith,
  if◌then◌else◌,
}
use gitgit.Text.{Text, text_eq, text_eq_iff, contains}

abbrev pub Assoc {ℓ} : Type ℓ → Type ℓ
Assoc V = List (Text × V)

module _ {ℓ} {V : Type ℓ} where
  unfoldable pub get : Text → Assoc V → Option V
  get k [] = none
  get k ((j, v) ∷ m) = if text_eq j k then some v else get k m

  unfoldable pub put : Text → V → Assoc V → Assoc V
  put k v [] = (k, v) ∷ []
  put k v ((j, w) ∷ m) = if text_eq j k then (k, v) ∷ m else (j, w) ∷ put k v m

  unfoldable pub delete : Text → Assoc V → Assoc V
  delete k [] = []
  delete k ((j, v) ∷ m) = let rest = delete k m in if text_eq j k then rest else (j, v) ∷ rest

  pub get-put :
      (k j : Text) (v : V) (m : Assoc V)
      → get j (put k v m) ≡ (if text_eq k j then some v else get j m)
  unfolding get put
  get-put k j v [] = refl
  get-put k j v ((i, w) ∷ m) =
      ground (arith, text_eq_iff k j, text_eq_iff i k, text_eq_iff i j, get-put k j v m)

  pub get-delete :
      (k j : Text) (m : Assoc V) → get j (delete k m) ≡ (if text_eq k j then none else get j m)
  unfolding get delete
  get-delete k j [] = ground arith
  get-delete k j ((i, w) ∷ m) =
      ground (arith, text_eq_iff k j, text_eq_iff i k, text_eq_iff i j, get-delete k j m)

module _ {ℓ κ} {V : Type ℓ} (P : V → Type κ) where
  abbrev pub AllValues : Assoc V → Type κ
  AllValues [] = Unit
  AllValues ((k, v) ∷ m) = P v × AllValues m

  pub AllValues-put : (k : Text) (v : V) (m : Assoc V) → P v → AllValues m → AllValues (put k v m)
  unfolding put
  AllValues-put k v [] h all = (h, tt)
  AllValues-put k v ((j, w) ∷ m) h all = choose (text_eq j k) (AllValues-put k v m h all.1)
    where
      choose :
          (b : Bool)
          → AllValues (put k v m)
          → AllValues (if b then (k, v) ∷ m else (j, w) ∷ put k v m)
      choose true rest = (h, all.1)
      choose false rest = (all.0, rest)

  pub AllValues-delete : (k : Text) (m : Assoc V) → AllValues m → AllValues (delete k m)
  unfolding delete
  AllValues-delete k [] all = tt
  AllValues-delete k ((j, w) ∷ m) all = choose (text_eq j k) (AllValues-delete k m all.1)
    where
      choose :
          (b : Bool)
          → AllValues (delete k m)
          → AllValues (if b then delete k m else (j, w) ∷ delete k m)
      choose true rest = rest
      choose false rest = (all.0, rest)

  pub AllValues-get : (k : Text) (m : Assoc V) {v : V} → AllValues m → get k m ≡ some v → P v
  unfolding get
  AllValues-get k [] all e = absurd (ground arith)
  AllValues-get k ((j, w) ∷ m) {v} all e = choose (text_eq j k) (λ e'. AllValues-get k m all.1 e') e
    where
      choose :
          (b : Bool) → (get k m ≡ some v → P v) → (if b then some w else get k m) ≡ some v → P v
      choose true rest e' = take_first (ground arith)
        where
          take_first : w ≡ v → P v
          take_first same = rw (← same) all.0
      choose false rest e' = rest e'

-- No key stands twice.
abbrev pub NoDuplicates : List Text → Type 0
NoDuplicates [] = Unit
NoDuplicates (k ∷ ks) = (contains ks k ≡ false) × NoDuplicates ks

pub contains-append :
    (ks : List Text) (k j : Text) → contains (ks ++ k ∷ []) j ≡ (contains ks j || text_eq k j)
unfolding contains
contains-append [] k j = ground arith
contains-append (i ∷ ks) k j = ground (arith, contains-append ks k j)

pub NoDuplicates-append :
    (ks : List Text) (k : Text)
    → contains ks k ≡ false
    → NoDuplicates ks
    → NoDuplicates (ks ++ k ∷ [])
unfolding contains
NoDuplicates-append [] k fresh h = (refl, tt)
NoDuplicates-append (i ∷ ks) k fresh h = (
  ground (arith, contains-append ks k i, text_eq_iff i k, text_eq_iff k i),
  NoDuplicates-append ks k (ground arith) h.1,
)

pub contains-last : (keys : List Text) (k : Text) → contains (keys ++ k ∷ []) k ≡ true
contains-last keys k = contains-append keys k k ∙ ground (arith, text_eq_iff k k)
