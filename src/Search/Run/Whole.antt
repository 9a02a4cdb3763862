-- ===== src/Search/Run/Whole.antt =====
-- internal/app/search.go: the page of results that the whole of `SearchWithProgress` answers, with
-- the log that it reads and the options that it fills in.
use gitgit.Prelude.{ℕ, ◌≡◌, ◌⊎◌, true, false, Option, none, some, List, if◌then◌else◌}
use gitgit.Text.{Text, lit}
use gitgit.Apperr.{Failure, ok}
use gitgit.Git.{Git, Event, Exec, lift, or_fail, ◌>>=◌}
use gitgit.Search.Options.{SearchOptions}
use gitgit.Search.Commits.{CommitMeta, list_commits}
use gitgit.Search.Patterns.{Regexp, Compiled, compile_search_predicates}
use gitgit.Search.Matching.{search_git_error}
use gitgit.Search.Run.{SearchResponse, SearchProgress, scan_history, unfiltered, is_traversal}
use gitgit.Search.Run.Scanned.{oids_of}
use gitgit.Search.Run.Page.{IsPage}

abbrev Answer : Type 0
Answer = SearchResponse × List SearchProgress

module _ (git : Git) (root : Text) where
  -- The page of a search without a traversal is one of the log that was read. With one it is one
  -- of the second log, which is read without the filters, for the commits of the first.
  abbrev pub IsSearched : SearchOptions → List Event → SearchResponse → Type 0
  IsSearched o log r =
      let (first, log') = list_commits git root o log in
      (listed : List CommitMeta) × (first ≡ ok listed)
      × (((is_traversal o ≡ false) × IsPage o none listed r)
          ⊎ ((is_traversal o ≡ true)
              × ((traversed : List CommitMeta) × ((list_commits git root (unfiltered o) log').0
                    ≡ ok traversed)
                  × IsPage o (some (oids_of listed)) traversed r)))

module _ (rx : Regexp) (git : Git) (root : Text) (interrupted : ℕ → Option Failure) where
  abbrev once : SearchOptions → List Compiled → List CommitMeta → Exec Answer
  once o ps listed = scan_history git root o interrupted ps none listed

  abbrev again : SearchOptions → List Compiled → List CommitMeta → List CommitMeta → Exec Answer
  again o ps listed traversed =
      scan_history git root o interrupted ps (some (oids_of listed)) traversed

  abbrev list_again : SearchOptions → Exec (List CommitMeta)
  list_again o =
      or_fail (list_commits git root (unfiltered o))
        (search_git_error (lit "list rename traversal history"))

  -- What is done with the commits of the first log.
  abbrev pages_of : SearchOptions → List Compiled → List CommitMeta → Exec Answer
  pages_of o ps listed =
      if is_traversal o then list_again o >>= again o ps listed else once o ps listed

  abbrev list_first : SearchOptions → Exec (List CommitMeta)
  list_first o = or_fail (list_commits git root o) (search_git_error (lit "list history"))

  abbrev compile_first : SearchOptions → Exec Answer
  compile_first o = lift (compile_search_predicates rx o) >>= λ ps. list_first o >>= pages_of o ps
