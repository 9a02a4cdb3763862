-- ===== src/Search/Run/Bounded.antt =====
-- internal/app/search.go: the page of a whole search.
use mathlib.Core.Path.{subst}
use gitgit.Prelude.{ℕ, ◌≤◌, ◌≡◌, Option, none, some, List, map, length, ℤ, pos, arith}
use gitgit.Text.{Text, lit}
use gitgit.Apperr.{Failure}
use gitgit.Git.{Git, lift, or_fail}
use gitgit.Search.Options.{SearchOptions, validate_search_options}
use gitgit.Search.Commits.{CommitMeta, list_commits}
use gitgit.Search.Patterns.{Regexp, Compiled, compile_search_predicates}
use gitgit.Search.Matching.{search_git_error}
use gitgit.Search.Run.{
  SearchResponse, SearchProgress, scan_history, with_engine, unfiltered, is_traversal,
  search_history, search_with_progress,
}
use gitgit.Search.Run.Ends.{Ends, Ends-then, Ends-if}
use gitgit.Search.Run.Page.{scan_history-IsPage}

-- The number of results is that which is told, and at most the limit.
abbrev pub IsBoundedBy : ℤ → SearchResponse × List SearchProgress → Type 0
IsBoundedBy limit answer =
    (answer.0.count ≡ length answer.0.results)
    × ((n : ℕ) → limit ≡ pos n → length answer.0.results ≤ n)

module _ (rx : Regexp) (git : Git) (root : Text) (interrupted : ℕ → Option Failure) where
  scan_history-IsBoundedBy :
      (o : SearchOptions) (ps : List Compiled) (eligible : Option (List Text))
      (commits : List CommitMeta)
      → Ends (IsBoundedBy o.limit) (scan_history git root o interrupted ps eligible commits)
  unfolding Ends
  scan_history-IsBoundedBy o ps eligible commits log answer e =
      let page = scan_history-IsPage o eligible commits git root interrupted ps log e in
      (page.counted, page.within)

  search_history-IsBoundedBy :
      (o : SearchOptions) → Ends (IsBoundedBy o.limit) (search_history rx git root interrupted o)
  unfolding search_history
  search_history-IsBoundedBy o =
      Ends-then (IsBoundedBy o.limit) (lift (validate_search_options o)) _ (λ _.
        Ends-then (IsBoundedBy o.limit) (lift (compile_search_predicates rx o)) _ (λ ps.
          Ends-then (IsBoundedBy o.limit)
            (or_fail (list_commits git root o) (search_git_error (lit "list history"))) _
            (λ commits.
              Ends-if (IsBoundedBy o.limit) (is_traversal o) _ _
                (Ends-then (IsBoundedBy o.limit)
                  (or_fail (list_commits git root (unfiltered o))
                    (search_git_error (lit "list rename traversal history")))
                  _
                  (λ traversed.
                    scan_history-IsBoundedBy o ps (some (map (λ c. c.oid) commits)) traversed))
                (scan_history-IsBoundedBy o ps none commits))))

  with_engine-limit : (o : SearchOptions) → (with_engine o).limit ≡ o.limit
  unfolding with_engine
  with_engine-limit o = ground arith

  pub search_with_progress-IsBoundedBy :
      (o : SearchOptions)
      → Ends (IsBoundedBy o.limit) (search_with_progress rx git root interrupted o)
  unfolding search_with_progress
  search_with_progress-IsBoundedBy o =
      subst (λ l. Ends (IsBoundedBy l) (search_history rx git root interrupted (with_engine o)))
        (with_engine-limit o) (search_history-IsBoundedBy (with_engine o))
