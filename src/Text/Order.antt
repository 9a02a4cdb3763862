-- ===== src/Text/Order.antt =====
-- The order of Go's strings, and `sort.Strings`.
use gitgit.Prelude.{Bool, true, false, List, [], ◌∷◌, ltb, ◌==◌, if◌then◌else◌}
use gitgit.Text.{Text}

-- By their bytes.
unfoldable pub text_leb : Text → Text → Bool
text_leb [] u = true
text_leb (c ∷ cs) [] = false
text_leb (c ∷ cs) (d ∷ ds) = let rest = text_leb cs ds in if c == d then rest else ltb c d

unfoldable pub insert_text : Text → List Text → List Text
insert_text t [] = t ∷ []
insert_text t (u ∷ us) =
    let rest = insert_text t us in if text_leb t u then t ∷ u ∷ us else u ∷ rest

unfoldable pub sort_texts : List Text → List Text
sort_texts [] = []
sort_texts (t ∷ ts) = insert_text t (sort_texts ts)
