-- ===== src/Worktree/Sparse/Normal.antt =====
-- internal/app/worktree.go: what `normalizeSparseDirectories` accepts.
use gitgit.Prelude.{
  ◌≡◌, refl, ◌⊎◌, inl, inr, Bool, true, false, List, [], ◌∷◌, All, if◌then◌else◌, arith,
}
use mathlib.Core.Path.{subst}
use gitgit.Text.{Text, contains, contains_any, trim_space, split}
use gitgit.Text.Order.{text_leb, insert_text, sort_texts}
use gitgit.Apperr.{Failure, Result, ok, err, >>=-eq-ok, ok_eq}
use gitgit.Path.{clean}
use gitgit.Path.Cleaned.{names_entry, clean-entries}
use gitgit.Worktree.Mutation.{line_breaks}
use gitgit.Worktree.Sparse.{
  leaves_repository, names_root, normalize_loop, normalize_sparse_directories,
}

-- The names in order, each before the next or equal to it.
abbrev pub AreSorted : List Text → Type 0
AreSorted [] = Unit
AreSorted (t ∷ []) = Unit
AreSorted (t ∷ u ∷ ts) = (text_leb t u ≡ true) × AreSorted (u ∷ ts)

text_leb-total : (t u : Text) → text_leb t u ≡ false → text_leb u t ≡ true
unfolding text_leb
text_leb-total [] u h = ground arith
text_leb-total (c ∷ cs) [] h = refl
text_leb-total (c ∷ cs) (d ∷ ds) h = ground (arith, text_leb-total cs ds)

insert_text-AreSorted : (t : Text) (ts : List Text) → AreSorted ts → AreSorted (insert_text t ts)
unfolding insert_text
insert_text-AreSorted t [] h = tt
insert_text-AreSorted t (u ∷ []) h = choose (text_leb t u) refl
  where
    choose : (b : Bool) → text_leb t u ≡ b → AreSorted (if b then t ∷ u ∷ [] else u ∷ t ∷ [])
    choose true e = (e, tt)
    choose false e = (text_leb-total t u e, tt)
insert_text-AreSorted t (u ∷ v ∷ ts) h =
    choose (text_leb t u) refl (text_leb t v) (insert_text-AreSorted t (v ∷ ts) h.1)
  where
    choose :
        (b : Bool)
        → text_leb t u ≡ b
        → (c : Bool) → AreSorted (if c then t ∷ v ∷ ts else v ∷ insert_text t ts)
        → AreSorted
            (if b then t ∷ u ∷ v ∷ ts else u ∷ (if c then t ∷ v ∷ ts else v ∷ insert_text t ts))
    choose true e c rest = (e, h)
    choose false e true rest = (text_leb-total t u e, rest)
    choose false e false rest = (h.0, rest)

sort_texts-AreSorted : (ts : List Text) → AreSorted (sort_texts ts)
unfolding sort_texts
sort_texts-AreSorted [] = tt
sort_texts-AreSorted (t ∷ ts) = insert_text-AreSorted t (sort_texts ts) (sort_texts-AreSorted ts)

module _ {κ} (P : Text → Type κ) where
  insert_text-All : (t : Text) (ts : List Text) → P t → All P ts → All P (insert_text t ts)
  unfolding insert_text
  insert_text-All t [] h all = (h, tt)
  insert_text-All t (u ∷ us) h all = choose (text_leb t u) (insert_text-All t us h all.1)
    where
      choose :
          (b : Bool)
          → All P (insert_text t us)
          → All P (if b then t ∷ u ∷ us else u ∷ insert_text t us)
      choose true rest = (h, all)
      choose false rest = (all.0, rest)

  sort_texts-All : (ts : List Text) → All P ts → All P (sort_texts ts)
  unfolding sort_texts
  sort_texts-All [] all = tt
  sort_texts-All (t ∷ ts) all = insert_text-All t (sort_texts ts) all.0 (sort_texts-All ts all.1)

-- A path to a directory below the root of the repository: each of its elements, one at least, goes
-- down to an entry, so none is empty, "." or "..".
abbrev pub IsInside : Text → Type 0
IsInside directory = All (λ e. names_entry e ≡ true) (split b'/' directory)

cleaned-IsInside :
    (given : Text)
    → names_root (clean given) ≡ false
    → leaves_repository (clean given) ≡ false
    → IsInside (clean given)
unfolding names_root leaves_repository
cleaned-IsInside given named stays =
    clean-entries given (ground (arith, stays)) (ground (arith, named)) (ground (arith, stays))

if-eq-ok {ℓ} :
    {A : Type ℓ} (b : Bool) (x y : Result A) {a : A}
    → (if b then x else y) ≡ ok a
    → ((b ≡ true) × (x ≡ ok a)) ⊎ ((b ≡ false) × (y ≡ ok a))
if-eq-ok true x y h = inl (refl, h)
if-eq-ok false x y h = inr (refl, h)

not_refused {ℓ} :
    {A : Type ℓ} (b : Bool) (e : Failure) (y : Result A) {a : A}
    → (if b then err e else y) ≡ ok a
    → (b ≡ false) × (y ≡ ok a)
not_refused true e y h = cc
not_refused false e y h = (refl, h)

normalize_loop-AreInside :
    (givens seen result : List Text) → normalize_loop givens seen ≡ ok result → All IsInside result
unfolding normalize_loop
normalize_loop-AreInside [] seen result h = ap_All (ok_eq h)
  where
    ap_All : [] ≡ result → All IsInside result
    ap_All e = subst (All IsInside) e tt
normalize_loop-AreInside (given ∷ givens) seen result h =
    let (_, whole) = not_refused (contains_any line_breaks given) _ _ h in
    elim (if-eq-ok (names_root (clean (trim_space given))) _ _ whole) [
      | inl (_, skipped) ↦ normalize_loop-AreInside givens seen result skipped
      | inr (named, rest) ↦
          let (inside, same) =
            not_refused (leaves_repository (clean (trim_space given))) _ _ rest in
          elim (if-eq-ok (contains seen (clean (trim_space given))) _ _ same) [
            | inl (_, skipped) ↦ normalize_loop-AreInside givens seen result skipped
            | inr (_, kept) ↦
                let (ds, e, made) =
                  >>=-eq-ok (normalize_loop givens (clean (trim_space given) ∷ seen)) _ kept in
                subst (All IsInside) (ok_eq made) (
                  cleaned-IsInside (trim_space given) named inside,
                  normalize_loop-AreInside givens (clean (trim_space given) ∷ seen) ds e,
                )
          ]
    ]

-- The directories that are accepted are in order, and each one is a path to a directory below the
-- root of the repository that never leads above it: every element of it is a name, none is empty,
-- "." or "..", so that it is no absolute path either.
pub normalize_sparse_directories-AreInside :
    (directories result : List Text)
    → normalize_sparse_directories directories ≡ ok result
    → All IsInside result × AreSorted result
unfolding normalize_sparse_directories
normalize_sparse_directories-AreInside directories result h =
    let (found, e, made) = >>=-eq-ok (normalize_loop directories []) _ h in
    (
      subst (All IsInside) (ok_eq made)
          (sort_texts-All IsInside found (normalize_loop-AreInside directories [] found e)),
      subst AreSorted (ok_eq made) (sort_texts-AreSorted found),
    )
