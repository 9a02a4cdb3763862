-- ===== src/Search/Run.antt =====
-- internal/app/search.go: `SearchWithProgress`, the loop over the commits of a search. What
-- `ctx.Err()` gives when a commit's turn comes is a parameter.
pub mod Ends
pub mod Scanned
pub mod Loop
pub mod Page
pub mod Bounded
pub mod Whole
mod Samples
use gitgit.Prelude.{
  ℕ, zero, suc, ◌+◌, ◌/◌, ◌%◌, max, Bool, true, false, not, ◌&&◌, ◌||◌, Option, none, some, List,
  [], ◌∷◌, ◌++◌, map, leb, ◌==◌, length, take, drop, if◌then◌else◌, ℤ, at_most,
}
use gitgit.Text.{Text, lit, text_eq, is_empty, contains, trim_right_newlines}
use gitgit.Text.Numbers.{show_int}
use gitgit.Assoc.{get}
use gitgit.Apperr.{Failure, formatted, app_wrap, exit_failure}
use gitgit.Git.{Git, Exec, pure, fail, lift, or_fail, ◌>>=◌, run}
use gitgit.Search.Expression.{evaluate_search_expression}
use gitgit.Search.Options.{
  SearchOptions, none_of, condition_of, validate_search_options, search_patterns_by_source,
}
use gitgit.Search.Changes.{
  FileChange, Changes, changes_or_none, read_commit_file_changes_batch, changed_lines,
  match_file_change,
}
use gitgit.Search.Commits.{CommitMeta, list_commits}
use gitgit.Search.Hits.{message_hits}
use gitgit.Search.Matching.{
  SearchFileMatch, SearchMatch, Found, search_git_error, find_matches, make_result,
}
use gitgit.Search.Patterns.{Regexp, Compiled, compile_search_predicates}

pub record SearchProgress : Type 0 where
  pub scanned : ℕ
  pub total : ℕ

pub record SearchResponse : Type 0 where
  pub message_patterns : List Text
  pub diff_patterns : List Text
  pub file_patterns : List Text
  pub engine : Text
  pub follow_rename : Bool
  pub results : List SearchMatch
  pub count : ℕ
  pub scanned : ℕ
  pub has_more : Bool

-- `searchResponse`.
unfoldable pub search_response : SearchOptions → List SearchMatch → ℕ → Bool → SearchResponse
search_response o results scanned has_more =
    let (messages, diffs, files) = search_patterns_by_source o in
    record {
      message_patterns = messages;
      diff_patterns = diffs;
      file_patterns = files;
      engine = o.engine;
      follow_rename = o.follow_rename;
      results = results;
      count = length results;
      scanned = scanned;
      has_more = has_more;
    }

-- The variables of the loop, with the calls of `onProgress`, the last first.
pub record Scan : Type 0 where
  pub visited : ℕ
  pub results : List SearchMatch
  pub predicates : List Compiled
  pub reported : List SearchProgress

-- Whether the loop goes on, or has returned since there is more than the limit.
pub data Step : Type 0 where
  going : Scan → Step
  full : Scan → Step

abbrev pub while_going : Step → (Scan → Exec Step) → Exec Step
while_going (going s) rest = rest s
while_going (full s) rest = pure (full s)

unfoldable pub progress_is_due : ℕ → ℕ → Bool
progress_is_due total visited =
    visited == 1 || visited == total || visited % max 1 ((total + 199) / 200) == 0

-- `eligibleCommits == nil || eligibleCommits[oid]`.
unfoldable pub is_eligible : Option (List Text) → Text → Bool
is_eligible none oid = true
is_eligible (some oids) oid = contains oids oid

unfoldable pub with_result : Scan → SearchMatch → Scan
with_result s m = record s { results = s.results ++ (m ∷ []) }

-- A commit is visited.
unfoldable pub visit : ℕ → Scan → Scan
visit total s = record s {
  visited = s.visited + 1;
  reported =
      if progress_is_due total (s.visited + 1)
      then record { scanned = s.visited + 1; total = total } ∷ s.reported
      else s.reported;
}

abbrev pub nothing_visited : List Compiled → Scan
nothing_visited ps = record { visited = 0; results = []; predicates = ps; reported = [] }

abbrev pub response_of : SearchOptions → Step → SearchResponse × List SearchProgress
response_of o (going s) = (search_response o s.results s.visited false, s.reported)
response_of o (full s) = (search_response o s.results s.visited true, s.reported)

module _ (git : Git) (root : Text) (o : SearchOptions) where
  module _ (interrupted : ℕ → Option Failure) (total : ℕ) (eligible : Option (List Text)) where
    abbrev go_on : Option Failure → Exec (Unit {0})
    go_on none = pure tt
    go_on (some e) = fail e

    -- A commit that was looked at.
    unfoldable pub add_result : CommitMeta → List FileChange → Found → Scan → Exec Step
    unfolding make_result with_result
    add_result c changed f s =
        if not f.matched
        then pure (going s)
        else if at_most o.limit (length s.results)
        then pure (full s)
        else make_result git root o c changed f >>= λ m. pure (going (with_result s m))

    -- The body of the loop over a batch.
    unfoldable pub scan_commit : Changes → CommitMeta → Scan → Exec Step
    unfolding visit message_hits is_eligible find_matches add_result
    scan_commit changes c s =
        let changed = changes_or_none (get c.oid changes) in
        let messages = message_hits c.message s.predicates in
        go_on (interrupted s.visited) >>= λ _.
        find_matches git root o c.oid (is_eligible eligible c.oid) messages changed s.predicates
        >>= λ f. add_result c changed f (record (visit total s) { predicates = f.predicates })

    unfoldable pub scan_batch : Changes → List CommitMeta → Scan → Exec Step
    unfolding scan_commit
    scan_batch changes [] s = pure (going s)
    scan_batch changes (c ∷ cs) s =
        scan_commit changes c s >>= λ step. while_going step (λ s'. scan_batch changes cs s')

    abbrev batch_size : ℕ
    batch_size = 500

    -- The loop over the batches. A batch is not empty, so the number of the commits is fuel enough.
    unfoldable pub scan_batches : ℕ → List CommitMeta → Scan → Exec Step
    unfolding scan_batch search_git_error
    scan_batches zero cs s = pure (going s)
    scan_batches (suc fuel) [] s = pure (going s)
    scan_batches (suc fuel) (c ∷ cs) s =
        or_fail
          (read_commit_file_changes_batch git root (map (λ c'. c'.oid) (take batch_size (c ∷ cs)))
            o.paths false)
          (search_git_error (lit "read changed files"))
        >>= λ changes. scan_batch changes (take batch_size (c ∷ cs)) s >>= λ step.
            while_going step (λ s'. scan_batches fuel (drop batch_size (c ∷ cs)) s')

  -- The loops, from no results, and the response.
  unfoldable pub scan_history :
      (ℕ → Option Failure)
      → List Compiled
      → Option (List Text)
      → List CommitMeta
      → Exec (SearchResponse × List SearchProgress)
  unfolding scan_batches search_response
  scan_history interrupted ps eligible commits =
      scan_batches interrupted (length commits) eligible (length commits) commits
        (nothing_visited ps)
      >>= λ step. pure (response_of o step)

-- `if options.Engine == "" { options.Engine = "glob" }`.
unfoldable pub with_engine : SearchOptions → SearchOptions
with_engine o = if is_empty o.engine then record o { engine = lit "glob" } else o

-- The options of the second log, which follows renames over commits that are filtered out.
unfoldable pub unfiltered : SearchOptions → SearchOptions
unfiltered o = record o { author = []; since = []; until = [] }

unfoldable pub is_traversal : SearchOptions → Bool
is_traversal o = o.follow_rename && not (is_empty o.author && is_empty o.since && is_empty o.until)

module _ (rx : Regexp) (git : Git) (root : Text) (interrupted : ℕ → Option Failure) where
  unfoldable pub search_history : SearchOptions → Exec (SearchResponse × List SearchProgress)
  unfolding compile_search_predicates list_commits scan_history unfiltered is_traversal
      search_git_error validate_search_options
  search_history o = lift (validate_search_options o) >>= λ _.
      lift (compile_search_predicates rx o) >>= λ ps.
      or_fail (list_commits git root o) (search_git_error (lit "list history")) >>= λ commits.
      if is_traversal o
      then (or_fail (list_commits git root (unfiltered o))
            (search_git_error (lit "list rename traversal history"))
          >>= λ traversed.
              scan_history git root o interrupted ps (some (map (λ c. c.oid) commits)) traversed)
      else scan_history git root o interrupted ps none commits

  -- `SearchWithProgress`: the response, and the calls of `onProgress`, the last first.
  unfoldable pub search_with_progress : SearchOptions → Exec (SearchResponse × List SearchProgress)
  unfolding search_history with_engine
  search_with_progress o = search_history (with_engine o)
