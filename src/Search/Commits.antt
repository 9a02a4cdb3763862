-- ===== src/Search/Commits.antt =====
-- internal/app/search.go: `listCommits`, the commits that a search goes through.
pub mod RoundTrip
mod Samples
use gitgit.Prelude.{ℕ, ◌%◌, Bool, not, none, List, [], ◌∷◌, ◌++◌, ◌==◌, length, if◌then◌else◌}
use gitgit.Text.{Text, lit, is_empty, trim_space, split}
use gitgit.Apperr.{Failure, plain, counted, Result, ok, err}
use gitgit.Git.{Git, Exec, lift, ◌>>=◌, run}
use gitgit.Search.Options.{SearchOptions}
use gitgit.Search.Changes.{search_filter_args, search_scope_args, parse_search_decorations}

pub record CommitMeta : Type 0 where
  pub oid : Text
  pub author_name : Text
  pub author_email : Text
  pub message : Text
  pub date : Text
  pub refs : List Text

-- The fields without the last one, where that is empty.
unfoldable pub without_last_empty : List Text → List Text
without_last_empty [] = []
without_last_empty (t ∷ []) = if is_empty t then [] else t ∷ []
without_last_empty (t ∷ u ∷ ts) = t ∷ without_last_empty (u ∷ ts)

-- The loop, which takes six fields at a time.
unfoldable pub commits_loop : List Text → List CommitMeta
commits_loop (oid ∷ name ∷ email ∷ date ∷ message ∷ refs ∷ fields) =
    record {
      oid = oid;
      author_name = name;
      author_email = email;
      message = trim_space message;
      date = date;
      refs = parse_search_decorations refs;
    }
    ∷ commits_loop fields
commits_loop _ = []

abbrev pub uneven : ℕ → Failure
uneven count = plain (counted (lit "unexpected git log field count %d") count)

-- What follows the command.
unfoldable pub read_commits : Text → Result (List CommitMeta)
read_commits output =
    let fields = without_last_empty (split 0 output) in
    if not (length fields % 6 == 0) then err (uneven (length fields)) else ok (commits_loop fields)

abbrev paths_behind : List Text → List Text
paths_behind [] = []
paths_behind (path ∷ paths) = lit "--" ∷ path ∷ paths

-- `listCommits`.
unfoldable pub list_commits : Git → Text → SearchOptions → Exec (List CommitMeta)
list_commits git root o = do
  output ← run git root none (
      (lit "log"
        ∷ lit "--date-order"
        ∷ lit "-z"
        ∷ lit "--date=iso-strict"
        ∷ lit "--format=%H%x00%an%x00%ae%x00%aI%x00%B%x00%D"
        ∷ [])
      ++ (search_filter_args o ++ (search_scope_args o ++ paths_behind o.paths)))
  lift (read_commits output)
