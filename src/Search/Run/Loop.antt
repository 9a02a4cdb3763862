-- ===== src/Search/Run/Loop.antt =====
-- internal/app/search.go: the loops of `SearchWithProgress` keep account of the commits gone over.
use mathlib.Core.Path.{subst}
use gitgit.Prelude.{
  ℕ, zero, suc, ◌+◌, ◌≤◌, ◌≡◌, refl, sym, ap, ◌∙◌, Bool, true, false, not, ◌||◌, Option, List, [],
  ◌∷◌, ◌++◌, append-nil, append_assoc, length, take, drop, at_most, arith,
}
use gitgit.Text.{Text}
use gitgit.Apperr.{Failure}
use gitgit.Git.{Git, Exec}
use gitgit.Search.Options.{SearchOptions, none_of}
use gitgit.Search.Changes.{FileChange, Changes}
use gitgit.Search.Commits.{CommitMeta}
use gitgit.Search.Patterns.{Compiled}
use gitgit.Search.Matching.{
  SearchFileMatch, first_or_blank, SearchMatch, Found, scan_change, scan_changes, match_message,
  find_matches, make_result, result_from, result_of,
}
use gitgit.Search.Run.{
  Scan, Step, going, full, is_eligible, visit, while_going, add_result, scan_commit, scan_batch,
  scan_batches, with_result,
}
use gitgit.Search.Run.Ends.{Ends, Ends-pure, Ends-always, Ends-if, Ends-test, Ends-bind, Ends-then}
use gitgit.Search.Run.Scanned.{
  oids_of, Scanned, Outcome, Filled-append, Scanned-skip, Scanned-full, Scanned-add,
}

-- A commit is only found where it is eligible.
abbrev IsFound : Bool → Found → Type 0
IsFound eligible f = f.matched ≡ true → eligible ≡ true

module _ (git : Git) (root : Text) (o : SearchOptions) where
  scan_changes-unmatched :
      (oid : Text) (messages : List Bool) (changes : List FileChange) (f : Found)
      → f.matched ≡ false
      → Ends (λ g. g.matched ≡ false) (scan_changes git root o oid false messages changes f)
  unfolding scan_changes scan_change
  scan_changes-unmatched oid messages [] f h = Ends-pure (λ g. g.matched ≡ false) f h
  scan_changes-unmatched oid messages (change ∷ changes) f h =
      Ends-bind (λ g. g.matched ≡ false) (λ g. g.matched ≡ false) _ _
        (Ends-pure (λ g. g.matched ≡ false) _ h)
        (λ g h'. scan_changes-unmatched oid messages changes g h')

  find_matches-IsFound :
      (oid : Text) (eligible : Bool) (messages : List Bool) (changed : List FileChange)
      (ps : List Compiled)
      → Ends (IsFound eligible) (find_matches git root o oid eligible messages changed ps)
  unfolding find_matches match_message
  find_matches-IsFound oid true messages changed ps = Ends-always (IsFound true) _ (λ f e. refl)
  find_matches-IsFound oid false messages changed ps =
      Ends-if (IsFound false) _ _ _ (Ends-pure (IsFound false) _ (λ e. e)) (
        Ends-bind (λ g. g.matched ≡ false) (IsFound false) _ _
          (scan_changes-unmatched oid messages changed _ refl)
          (λ g h. Ends-pure (IsFound false) _ (λ e. sym h ∙ e)))

  abbrev IsFor : Text → SearchMatch → Type 0
  IsFor oid m = m.commit ≡ oid

  result_of-IsFor :
      (c : CommitMeta) (changed : List FileChange) (f : Found) (file : FileChange) (diff : Text)
      → IsFor c.oid (result_of c changed f file diff)
  unfolding result_of
  result_of-IsFor c changed f file diff = refl

  result_from-IsFor :
      (c : CommitMeta) (changed : List FileChange) (f : Found) (ms : List SearchFileMatch)
      → Ends (IsFor c.oid) (result_from git root o c changed f ms)
  unfolding result_from
  result_from-IsFor c changed f (m ∷ ms) =
      Ends-pure (IsFor c.oid) _ (result_of-IsFor c changed f m.change f.first_diff)
  result_from-IsFor c changed f [] =
      Ends-if (IsFor c.oid) (none_of changed || o.omit_result_diff) _ _
        (Ends-pure (IsFor c.oid) _ (result_of-IsFor c changed f (first_or_blank changed) []))
        (Ends-then (IsFor c.oid) _ _ (λ diff.
          Ends-pure (IsFor c.oid) _ (result_of-IsFor c changed f (first_or_blank changed) diff)))

  module _ (interrupted : ℕ → Option Failure) (total : ℕ) (eligible : Option (List Text)) where
    add_result-Outcome :
        (c : CommitMeta) (changed : List FileChange) (f : Found) (seen : List Text) (s t : Scan)
        → t.visited ≡ s.visited + 1
        → t.results ≡ s.results
        → IsFound (is_eligible eligible c.oid) f
        → Scanned o eligible seen s
        → Ends
            (Outcome o eligible (seen ++ c.oid ∷ []))
            (add_result git root o interrupted total eligible c changed f t)
    unfolding add_result make_result Outcome
    add_result-Outcome c changed f seen s t visited same found h =
        Ends-test (Outcome o eligible (seen ++ c.oid ∷ [])) (not f.matched) _ _
          (λ unmatched. Ends-pure (Outcome o eligible (seen ++ c.oid ∷ [])) (going t) skip)
          (λ is_matched.
            Ends-test (Outcome o eligible (seen ++ c.oid ∷ [])) (at_most o.limit (length t.results))
              _ _
              (λ reached.
                Ends-pure (Outcome o eligible (seen ++ c.oid ∷ [])) (full t)
                  (Scanned-full o eligible seen c.oid t reached skip))
              (λ below.
                Ends-bind (IsFor c.oid) (Outcome o eligible (seen ++ c.oid ∷ [])) _ _
                  (result_from-IsFor c changed f f.files)
                  (λ m is.
                    Ends-pure (Outcome o eligible (seen ++ c.oid ∷ [])) (going (with_result t m)) (
                      subst (λ oid. Scanned o eligible (seen ++ oid ∷ []) (with_result t m)) is
                        (Scanned-add o eligible seen s t m visited same
                          (subst (λ ms. at_most o.limit (length ms) ≡ false) same below)
                          (ap (is_eligible eligible) is ∙ found (ground (arith, is_matched))) h)))))
      where
        skip : Scanned o eligible (seen ++ c.oid ∷ []) t
        skip = Scanned-skip o eligible seen c.oid s t visited same h

    scan_commit-Outcome :
        (changes : Changes) (c : CommitMeta) (seen : List Text) (s : Scan)
        → Scanned o eligible seen s
        → Ends
            (Outcome o eligible (seen ++ c.oid ∷ []))
            (scan_commit git root o interrupted total eligible changes c s)
    unfolding scan_commit visit
    scan_commit-Outcome changes c seen s h =
        Ends-then (Outcome o eligible (seen ++ c.oid ∷ [])) _ _ (λ _.
          Ends-bind (IsFound (is_eligible eligible c.oid)) (Outcome o eligible (seen ++ c.oid ∷ []))
            _ _ (find_matches-IsFound c.oid (is_eligible eligible c.oid) _ _ s.predicates)
            (λ f found. add_result-Outcome c _ f seen s _ refl refl found h))

    while_going-Outcome :
        (all more : List Text) (step : Step) (rest : Scan → Exec Step)
        → Outcome o eligible all step
        → ((t : Scan) → Scanned o eligible all t → Ends (Outcome o eligible (all ++ more)) (rest t))
        → Ends (Outcome o eligible (all ++ more)) (while_going step rest)
    unfolding Outcome
    while_going-Outcome all more (going t) rest scanned after = after t scanned
    while_going-Outcome all more (full t) rest filled after =
        Ends-pure (Outcome o eligible (all ++ more)) (full t)
          (Filled-append o eligible all more t filled)

    scan_batch-Outcome :
        (changes : Changes) (cs : List CommitMeta) (seen : List Text) (s : Scan)
        → Scanned o eligible seen s
        → Ends
            (Outcome o eligible (seen ++ oids_of cs))
            (scan_batch git root o interrupted total eligible changes cs s)
    unfolding scan_batch Outcome
    scan_batch-Outcome changes [] seen s h =
        Ends-pure (Outcome o eligible (seen ++ [])) (going s)
          (subst (λ all. Scanned o eligible all s) (sym (append-nil seen)) h)
    scan_batch-Outcome changes (c ∷ cs) seen s h =
        subst
          (λ all.
            Ends (Outcome o eligible all)
              (scan_batch git root o interrupted total eligible changes (c ∷ cs) s))
          (append_assoc seen (c.oid ∷ []) (oids_of cs))
          (Ends-bind (Outcome o eligible (seen ++ c.oid ∷ []))
            (Outcome o eligible ((seen ++ c.oid ∷ []) ++ oids_of cs)) _ _
            (scan_commit-Outcome changes c seen s h)
            (λ step ended.
              while_going-Outcome (seen ++ c.oid ∷ []) (oids_of cs) step _ ended
                (λ t scanned. scan_batch-Outcome changes cs (seen ++ c.oid ∷ []) t scanned)))

    take-drop-oids :
        (n : ℕ) (cs : List CommitMeta) → oids_of (take n cs) ++ oids_of (drop n cs) ≡ oids_of cs
    take-drop-oids zero cs = refl
    take-drop-oids (suc n) [] = refl
    take-drop-oids (suc n) (c ∷ cs) = ap (λ oids. c.oid ∷ oids) (take-drop-oids n cs)

    length-drop : (n : ℕ) (cs : List CommitMeta) → length (drop n cs) ≤ length cs
    length-drop zero cs = omega arith
    length-drop (suc n) [] = omega arith
    length-drop (suc n) (c ∷ cs) = omega (arith, length-drop n cs)

    -- All the commits are gone over where there is as much fuel as there are commits.
    pub scan_batches-Outcome :
        (fuel : ℕ) (cs : List CommitMeta) (seen : List Text) (s : Scan)
        → length cs ≤ fuel
        → Scanned o eligible seen s
        → Ends
            (Outcome o eligible (seen ++ oids_of cs))
            (scan_batches git root o interrupted total eligible fuel cs s)
    unfolding scan_batches Outcome
    scan_batches-Outcome zero [] seen s enough h =
        Ends-pure (Outcome o eligible (seen ++ [])) (going s)
          (subst (λ all. Scanned o eligible all s) (sym (append-nil seen)) h)
    scan_batches-Outcome zero (c ∷ cs) seen s enough h = absurd (omega arith)
    scan_batches-Outcome (suc fuel) [] seen s enough h =
        Ends-pure (Outcome o eligible (seen ++ [])) (going s)
          (subst (λ all. Scanned o eligible all s) (sym (append-nil seen)) h)
    scan_batches-Outcome (suc fuel) (c ∷ cs) seen s enough h =
        subst
          (λ all.
            Ends (Outcome o eligible all)
              (scan_batches git root o interrupted total eligible (suc fuel) (c ∷ cs) s))
          (append_assoc seen (oids_of (take 500 (c ∷ cs))) (oids_of (drop 500 (c ∷ cs)))
            ∙ ap (λ oids. seen ++ oids) (take-drop-oids 500 (c ∷ cs)))
          (Ends-then
            (Outcome o eligible
              ((seen ++ oids_of (take 500 (c ∷ cs))) ++ oids_of (drop 500 (c ∷ cs))))
            _ _
            (λ changes.
              Ends-bind (Outcome o eligible (seen ++ oids_of (take 500 (c ∷ cs))))
                (Outcome o eligible
                  ((seen ++ oids_of (take 500 (c ∷ cs))) ++ oids_of (drop 500 (c ∷ cs))))
                _ _ (scan_batch-Outcome changes (take 500 (c ∷ cs)) seen s h)
                (λ step ended.
                  while_going-Outcome (seen ++ oids_of (take 500 (c ∷ cs)))
                    (oids_of (drop 500 (c ∷ cs))) step _ ended
                    (λ t scanned.
                      scan_batches-Outcome fuel (drop 500 (c ∷ cs))
                        (seen ++ oids_of (take 500 (c ∷ cs))) t (omega (arith, length-drop 499 cs))
                        scanned))))
