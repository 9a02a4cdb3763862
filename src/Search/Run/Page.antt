-- ===== src/Search/Run/Page.antt =====
-- internal/app/search.go: the page of results that `SearchWithProgress` answers.
use gitgit.Prelude.{
  ℕ, ◌≤◌, ◌≡◌, refl, true, false, Option, List, [], ◌∷◌, length, ℤ, pos, at_most, All, arith,
}
use mathlib.Core.Path.{subst}
use gitgit.Text.{Text}
use gitgit.Apperr.{Failure, ok}
use gitgit.Git.{Git, Event}
use gitgit.Search.Options.{SearchOptions}
use gitgit.Search.Commits.{CommitMeta}
use gitgit.Search.Patterns.{Compiled}
use gitgit.Search.Run.{
  SearchResponse, SearchProgress, scan_batches, nothing_visited, Step, going, full, search_response,
  response_of, scan_history,
}
use gitgit.Search.Run.Ends.{Ends, Ends-pure, Ends-bind, IsSublist, none_left}
use gitgit.Search.Run.Scanned.{results_commits, oids_of, IsChosen, IsWithin, Scanned, Outcome}
use gitgit.Search.Run.Loop.{scan_batches-Outcome}

module _ (o : SearchOptions) (eligible : Option (List Text)) (commits : List CommitMeta) where
  -- A page of results: commits of those given, in their order, none that is filtered out, and no
  -- more than the limit. All the commits were scanned, or the page is full.
  pub record IsPage (r : SearchResponse) : Type 0 where
    pub in_order : IsSublist (results_commits r.results) (oids_of commits)
    pub chosen : All (IsChosen o eligible) r.results
    pub within : IsWithin o eligible r.results
    pub counted : r.count ≡ length r.results
    pub scanned : r.scanned ≤ length commits
    pub whole : r.has_more ≡ false → r.scanned ≡ length commits
    pub full_page : (n : ℕ) → o.limit ≡ pos n → r.has_more ≡ true → length r.results ≡ n

  length-oids : (cs : List CommitMeta) → length (oids_of cs) ≡ length cs
  length-oids [] = refl
  length-oids (c ∷ cs) = omega (arith, length-oids cs)

  at_limit-eq : (l : ℤ) (n k : ℕ) → at_most l k ≡ true → l ≡ pos n → k ≤ n → k ≡ n
  at_limit-eq l n k reached e below = omega (arith, reaches)
    where
      reaches : n ≤ k
      reaches = ground (arith, subst (λ l'. at_most l' k ≡ true) e reached)

  response_of-IsPage :
      (step : Step) → Outcome o eligible (oids_of commits) step → IsPage (response_of o step).0
  unfolding Outcome search_response
  response_of-IsPage (going s) h = record {
    in_order = h.in_order;
    chosen = h.chosen;
    within = h.within;
    counted = refl;
    scanned = omega (arith, h.count, length-oids commits);
    whole = λ _. omega (arith, h.count, length-oids commits);
    full_page = λ n e more. absurd (ground arith);
  }
  response_of-IsPage (full s) h = record {
    in_order = h.in_order;
    chosen = h.chosen;
    within = h.within;
    counted = refl;
    scanned = omega (arith, h.count, length-oids commits);
    whole = λ more. absurd (ground arith);
    full_page = λ n e _. at_limit-eq o.limit n (length s.results) h.at_limit e (h.within n e);
  }

  -- Whatever Git answers, loops that end without an error answer a page of the commits given: results
  -- for them in their order, each one eligible, and at most the limit.
  pub scan_history-IsPage :
      (git : Git) (root : Text) (interrupted : ℕ → Option Failure) (ps : List Compiled)
      (log : List Event) {r : SearchResponse} {reported : List SearchProgress}
      → (scan_history git root o interrupted ps eligible commits log).0 ≡ ok (r, reported)
      → IsPage r
  unfolding scan_history Ends
  scan_history-IsPage git root interrupted ps log {r} {reported} e =
      Ends-bind (Outcome o eligible (oids_of commits)) (λ answer. IsPage answer.0)
        (scan_batches git root o interrupted (length commits) eligible (length commits) commits
          (nothing_visited ps))
        _
        (scan_batches-Outcome git root o interrupted (length commits) eligible (length commits)
          commits [] (nothing_visited ps) (omega arith) begun)
        (λ step h. Ends-pure (λ answer. IsPage answer.0) _ (response_of-IsPage step h)) log
        (r, reported) e
    where
      begun : Scanned o eligible [] (nothing_visited ps)
      begun = record {
        count = refl;
        in_order = none_left;
        within = λ n _. omega arith;
        chosen = tt;
      }
