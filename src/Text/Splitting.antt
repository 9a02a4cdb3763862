-- ===== src/Text/Splitting.antt =====
-- Splitting a text by a byte, and joining the parts again.
use gitgit.Prelude.{
  ℕ, ◌≡◌, refl, sym, ap, ◌∙◌, Bool, true, false, List, [], ◌∷◌, ◌++◌, ◌==◌, ==_iff, All,
  if◌then◌else◌, arith,
}
use mathlib.Core.Path.{subst}
use gitgit.Text.{Text, contains_byte, split, push_front, join}

-- A split has a first part.
pub split-cons : (sep : ℕ) (t : Text) → (u : Text) × (us : List Text) × (split sep t ≡ u ∷ us)
unfolding split
split-cons sep [] = ([], [], refl)
split-cons sep (c ∷ cs) = go (c == sep) (split-cons sep cs)
  where
    go :
        (b : Bool)
        → (u : Text) × (us : List Text) × (split sep cs ≡ u ∷ us)
        → (u : Text) × (us : List Text) × ((if b
              then [] ∷ split sep cs
              else push_front c (split sep cs))
            ≡ u ∷ us)
    go true (u, us, e) = ([], split sep cs, refl)
    go false (u, us, e) = (c ∷ u, us, ap (push_front c) e)

join-push_front :
    (sep c : ℕ) (t : Text) (ts : List Text)
    → join sep (push_front c (t ∷ ts)) ≡ c ∷ join sep (t ∷ ts)
unfolding join
join-push_front sep c t [] = refl
join-push_front sep c t (u ∷ ts) = refl

-- Joining undoes splitting.
pub join-split : (sep : ℕ) (t : Text) → join sep (split sep t) ≡ t
unfolding split join
join-split sep [] = refl
join-split sep (c ∷ cs) =
    let (u, us, e) = split-cons sep cs in go (c == sep) refl u us e (join-split sep cs)
  where
    go :
        (b : Bool)
        → (c == sep) ≡ b
        → (u : Text) (us : List Text) → split sep cs ≡ u ∷ us
        → join sep (split sep cs) ≡ cs
        → join sep (if b then [] ∷ split sep cs else push_front c (split sep cs)) ≡ c ∷ cs
    go true same u us e ih = rw e (
        ap (λ x. x ∷ join sep (u ∷ us)) (sym ((==_iff c sep).0 same))
        ∙ ap (λ t. c ∷ t) (ap (join sep) (sym e) ∙ ih))
    go false other u us e ih =
        ap (λ ts. join sep (push_front c ts)) e
        ∙ join-push_front sep c u us
        ∙ ap (λ t. c ∷ t) (ap (join sep) (sym e) ∙ ih)

-- A part without the separator, before the rest.
pub split-first :
    (sep : ℕ) (t rest : Text)
    → contains_byte t sep ≡ false
    → split sep (t ++ sep ∷ rest) ≡ t ∷ split sep rest
unfolding split contains_byte
split-first sep [] rest h = ground arith
split-first sep (c ∷ cs) rest h = rw (split-first sep cs rest (ground arith)) (ground arith)

pub split-whole : (sep : ℕ) (t : Text) → contains_byte t sep ≡ false → split sep t ≡ t ∷ []
unfolding split contains_byte
split-whole sep [] h = refl
split-whole sep (c ∷ cs) h = rw (split-whole sep cs (ground arith)) (ground arith)

-- Splitting undoes joining of parts without the separator.
pub split-join :
    (sep : ℕ) (t : Text) (ts : List Text)
    → All (λ u. contains_byte u sep ≡ false) (t ∷ ts)
    → split sep (join sep (t ∷ ts)) ≡ t ∷ ts
unfolding join
split-join sep t [] all = split-whole sep t all.0
split-join sep t (u ∷ ts) all =
    split-first sep t (join sep (u ∷ ts)) all.0 ∙ ap (λ us. t ∷ us) (split-join sep u ts all.1)

-- No part holds the separator.
pub split-All : (sep : ℕ) (t : Text) → All (λ u. contains_byte u sep ≡ false) (split sep t)
unfolding split
split-All sep [] = (unfold contains_byte in refl, tt)
split-All sep (c ∷ cs) =
    let (u, us, e) = split-cons sep cs in go (c == sep) refl u us e (split-All sep cs)
  where
    Parts : List Text → Type 0
    Parts ts = All (λ u. contains_byte u sep ≡ false) ts

    go :
        (b : Bool)
        → (c == sep) ≡ b
        → (u : Text) (us : List Text) → split sep cs ≡ u ∷ us
        → Parts (split sep cs)
        → Parts (if b then [] ∷ split sep cs else push_front c (split sep cs))
    go true same u us e all = (unfold contains_byte in refl, all)
    go false other u us e all = rw e (
        let parts = subst Parts e all in
        (unfold contains_byte in ground (arith, other, parts.0), parts.1))
