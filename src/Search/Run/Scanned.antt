-- ===== src/Search/Run/Scanned.antt =====
-- internal/app/search.go: what a search has found when it has gone over some commits.
use gitgit.Prelude.{
  ℕ, suc, ◌+◌, ◌≤◌, ◌≡◌, refl, sym, ap, true, false, Option, List, [], ◌∷◌, ◌++◌, map, append-nil,
  length, length-append, ℤ, pos, at_most, All, arith,
}
use mathlib.Core.Path.{subst}
use gitgit.Text.{Text}
use gitgit.Search.Options.{SearchOptions}
use gitgit.Search.Commits.{CommitMeta}
use gitgit.Search.Matching.{SearchMatch}
use gitgit.Search.Run.{Scan, Step, going, full, is_eligible, with_result}
use gitgit.Search.Run.Ends.{IsSublist, none_left, taken, nil-IsSublist, IsSublist-append}

abbrev pub results_commits : List SearchMatch → List Text
results_commits = map (λ m. m.commit)

abbrev pub oids_of : List CommitMeta → List Text
oids_of = map (λ c. c.oid)

module _ (o : SearchOptions) (eligible : Option (List Text)) where
  abbrev pub IsChosen : SearchMatch → Type 0
  IsChosen m = is_eligible eligible m.commit ≡ true

  abbrev pub IsWithin : List SearchMatch → Type 0
  IsWithin ms = (n : ℕ) → o.limit ≡ pos n → length ms ≤ n

  -- The loop has gone over some commits.
  pub record Scanned (seen : List Text) (s : Scan) : Type 0 where
    pub count : s.visited ≡ length seen
    pub in_order : IsSublist (results_commits s.results) seen
    pub within : IsWithin s.results
    pub chosen : All IsChosen s.results

  -- It has returned before the end of the commits.
  pub record Filled (all : List Text) (s : Scan) : Type 0 where
    pub count : s.visited ≤ length all
    pub in_order : IsSublist (results_commits s.results) all
    pub within : IsWithin s.results
    pub chosen : All IsChosen s.results
    pub at_limit : at_most o.limit (length s.results) ≡ true

  unfoldable pub Outcome : List Text → Step → Type 0
  Outcome seen (going s) = Scanned seen s
  Outcome seen (full s) = Filled seen s

  pub Filled-append : (all more : List Text) (s : Scan) → Filled all s → Filled (all ++ more) s
  Filled-append all more s h = record {
    count = omega (arith, h.count, length-append all more);
    in_order =
        subst (λ xs. IsSublist xs (all ++ more)) (append-nil (results_commits s.results))
          (IsSublist-append h.in_order (nil-IsSublist more));
    within = h.within;
    chosen = h.chosen;
    at_limit = h.at_limit;
  }

  -- A commit without a result.
  pub Scanned-skip :
      (seen : List Text) (oid : Text) (s t : Scan)
      → t.visited ≡ s.visited + 1
      → t.results ≡ s.results
      → Scanned seen s
      → Scanned (seen ++ oid ∷ []) t
  Scanned-skip seen oid s t visited same h = record {
    count = omega (arith, visited, h.count, length-append seen (oid ∷ []));
    in_order =
        subst (λ ms. IsSublist (results_commits ms) (seen ++ oid ∷ [])) (sym same)
          (subst (λ xs. IsSublist xs (seen ++ oid ∷ [])) (append-nil (results_commits s.results))
            (IsSublist-append h.in_order (nil-IsSublist (oid ∷ []))));
    within = subst IsWithin (sym same) h.within;
    chosen = subst (All IsChosen) (sym same) h.chosen;
  }

  pub Scanned-full :
      (seen : List Text) (oid : Text) (t : Scan)
      → at_most o.limit (length t.results) ≡ true
      → Scanned (seen ++ oid ∷ []) t
      → Filled (seen ++ oid ∷ []) t
  Scanned-full seen oid t reached h = record {
    count = omega (arith, h.count);
    in_order = h.in_order;
    within = h.within;
    chosen = h.chosen;
    at_limit = reached;
  }

  commits-append :
      (ms : List SearchMatch) (m : SearchMatch)
      → results_commits (ms ++ m ∷ []) ≡ results_commits ms ++ m.commit ∷ []
  commits-append [] m = refl
  commits-append (n ∷ ms) m = ap (λ xs. n.commit ∷ xs) (commits-append ms m)

  IsChosen-append :
      (ms : List SearchMatch) (m : SearchMatch)
      → All IsChosen ms
      → IsChosen m
      → All IsChosen (ms ++ m ∷ [])
  IsChosen-append [] m all h = (h, tt)
  IsChosen-append (n ∷ ms) m all h = (all.0, IsChosen-append ms m all.1 h)

  IsWithin-append :
      (l : ℤ) (ms : List SearchMatch) (m : SearchMatch)
      → at_most l (length ms) ≡ false
      → (n : ℕ) → l ≡ pos n
      → length (ms ++ m ∷ []) ≤ n
  IsWithin-append l ms m below n e = omega (arith, length-append ms (m ∷ []), leb_false)
    where
      leb_false : suc (length ms) ≤ n
      leb_false = ground (arith, subst (λ l'. at_most l' (length ms) ≡ false) e below)

  -- A commit with a result.
  pub Scanned-add :
      (seen : List Text) (s t : Scan) (m : SearchMatch)
      → t.visited ≡ s.visited + 1
      → t.results ≡ s.results
      → at_most o.limit (length s.results) ≡ false
      → IsChosen m
      → Scanned seen s
      → Scanned (seen ++ m.commit ∷ []) (with_result t m)
  unfolding with_result
  Scanned-add seen s t m visited same below choice h = record {
    count = omega (arith, visited, h.count, length-append seen (m.commit ∷ []));
    in_order =
        subst (λ ms. IsSublist (results_commits (ms ++ m ∷ [])) (seen ++ m.commit ∷ [])) (sym same)
          (subst (λ xs. IsSublist xs (seen ++ m.commit ∷ [])) (sym (commits-append s.results m))
            (IsSublist-append h.in_order (taken m.commit [] [] none_left)));
    within =
        subst (λ ms. IsWithin (ms ++ m ∷ [])) (sym same)
          (IsWithin-append o.limit s.results m below);
    chosen =
        subst (λ ms. All IsChosen (ms ++ m ∷ [])) (sym same)
          (IsChosen-append s.results m h.chosen choice);
  }
