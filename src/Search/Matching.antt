-- ===== src/Search/Matching.antt =====
-- internal/app/search.go: whether and where a commit matches, in the body of the loop of
-- `SearchWithProgress`, and the result for a commit that does.
use gitgit.Prelude.{Bool, true, false, not, ◌&&◌, ◌||◌, none, List, [], ◌∷◌, ◌++◌, if◌then◌else◌}
use gitgit.Text.{Text, lit, is_empty, trim_right_newlines}
use gitgit.Text.Numbers.{show_int}
use gitgit.Apperr.{Failure, formatted, app_wrap, exit_failure}
use gitgit.Git.{Git, Exec, pure, or_fail, ◌>>=◌, run}
use gitgit.Search.Options.{SearchOptions, none_of}
use gitgit.Search.Changes.{FileChange, changed_lines}
use gitgit.Search.Commits.{CommitMeta}
use gitgit.Search.Patterns.{Compiled}
use gitgit.Search.Hits.{has_source, file_hits, diff_hits, append_match_sources, evaluated}

pub record SearchFileMatch : Type 0 where
  pub change : FileChange
  pub match_sources : List Text

-- `Files` is `ChangedFiles`, and is left out.
pub record SearchMatch : Type 0 where
  pub author_name : Text
  pub author_email : Text
  pub commit : Text
  pub message : Text
  pub date : Text
  pub refs : List Text
  pub matched_files : List SearchFileMatch
  pub changed_files : List FileChange
  pub match_sources : List Text
  pub file : FileChange
  pub diff : Text

-- `searchGitError`.
unfoldable pub search_git_error : Text → Failure → Failure
search_git_error action e =
    app_wrap (lit "git_history_error") (formatted (lit "failed to %s") (action ∷ [])) exit_failure e
      []

-- The variables of a commit's round.
pub record Found : Type 0 where
  pub matched : Bool
  pub sources : List Text
  pub files : List SearchFileMatch
  pub first_diff : Text
  pub predicates : List Compiled

abbrev pub first_or_blank : List FileChange → FileChange
first_or_blank [] = record { status = []; old_path = []; path = [] }
first_or_blank (change ∷ changes) = change

unfoldable pub result_of : CommitMeta → List FileChange → Found → FileChange → Text → SearchMatch
result_of c changed f file diff = record {
  author_name = c.author_name;
  author_email = c.author_email;
  commit = c.oid;
  message = c.message;
  date = c.date;
  refs = c.refs;
  matched_files = f.files;
  changed_files = changed;
  match_sources = f.sources;
  file = file;
  diff = diff;
}

module _ (git : Git) (root : Text) (o : SearchOptions) where
  abbrev old_path_of : FileChange → List Text
  old_path_of change = if is_empty change.old_path then [] else change.old_path ∷ []

  -- `fileDiff`.
  unfoldable pub file_diff : Text → FileChange → Exec Text
  file_diff oid change =
      run git root none (
        (lit "show"
          ∷ lit "--format="
          ∷ lit "--no-ext-diff"
          ∷ lit "--no-color"
          ∷ lit "--find-renames"
          ∷ (lit "--unified=" ++ show_int o.context_lines)
          ∷ oid
          ∷ lit "--"
          ∷ [])
        ++ (old_path_of change ++ (change.path ∷ [])))
      >>= λ out. pure (trim_right_newlines out)

  unfoldable pub read_file_diff : Text → FileChange → Exec Text
  unfolding file_diff search_git_error
  read_file_diff oid change =
      or_fail (file_diff oid change) (search_git_error (lit "read file diff"))

  -- A change whose hits fulfil the expression, with the diff that was read for it.
  unfoldable pub matched_change : Text → FileChange → List Bool → Text → Found → Exec Found
  unfolding read_file_diff append_match_sources
  matched_change oid change hits diff f =
      let file_sources = append_match_sources [] f.predicates hits true in
      let sourced = record f {
        matched = true;
        sources = append_match_sources f.sources f.predicates hits false;
      } in
      if none_of file_sources
      then pure sourced
      else (if none_of f.files && is_empty diff && not o.omit_result_diff
          then read_file_diff oid change
          else pure diff)
        >>= λ shown. pure (record sourced {
          first_diff = if none_of f.files then shown else f.first_diff;
          files = f.files ++ (record { change = change; match_sources = file_sources } ∷ []);
        })

  -- The hits of a change with those of its diff, and the diff, where a predicate asks for it.
  unfoldable pub with_diff : Text → FileChange → List Compiled → List Bool → Exec (Text × List Bool)
  unfolding read_file_diff diff_hits has_source
  with_diff oid change ps hits =
      if has_source (lit "diff") ps
      then (read_file_diff oid change >>= λ diff.
          pure (diff, diff_hits (changed_lines diff) ps hits))
      else pure ([], hits)

  -- The body of the loop over the changed files.
  unfoldable pub scan_change : Text → Bool → List Bool → FileChange → Found → Exec Found
  unfolding file_hits with_diff evaluated matched_change
  scan_change oid eligible messages change f =
      let (hits, ps) = file_hits o.follow_rename change f.predicates messages in
      let tracking = record f { predicates = ps } in
      if not eligible
      then pure tracking
      else with_diff oid change ps hits >>= λ found.
          if not (evaluated ps found.1)
          then pure tracking
          else matched_change oid change found.1 found.0 tracking

  unfoldable pub scan_changes : Text → Bool → List Bool → List FileChange → Found → Exec Found
  unfolding scan_change
  scan_changes oid eligible messages [] f = pure f
  scan_changes oid eligible messages (change ∷ changes) f =
      scan_change oid eligible messages change f >>= λ found.
      scan_changes oid eligible messages changes found

  -- The message alone.
  unfoldable pub match_message : Bool → List Bool → Found → Found
  unfolding evaluated append_match_sources
  match_message eligible messages f =
      if eligible && evaluated f.predicates messages
      then record f {
        matched = true;
        sources = append_match_sources f.sources f.predicates messages false;
      }
      else f

  abbrev nothing_found : List Compiled → Found
  nothing_found ps = record {
    matched = false;
    sources = [];
    files = [];
    first_diff = [];
    predicates = ps;
  }

  -- Whether a commit matches, and where.
  unfoldable pub find_matches :
      Text → Bool → List Bool → List FileChange → List Compiled → Exec Found
  unfolding has_source scan_changes match_message
  find_matches oid eligible messages changed ps =
      if not (has_source (lit "diff") ps || has_source (lit "file") ps)
      then pure (match_message eligible messages (nothing_found ps))
      else scan_changes oid eligible messages changed (nothing_found ps) >>= λ f.
          pure (match_message eligible messages f)

  -- The result for a commit that matches; its file and diff are those of the first file that
  -- matched, or else of the first that changed.
  unfoldable pub result_from :
      CommitMeta → List FileChange → Found → List SearchFileMatch → Exec SearchMatch
  unfolding result_of read_file_diff
  result_from c changed f (m ∷ ms) = pure (result_of c changed f m.change f.first_diff)
  result_from c changed f [] =
      if none_of changed || o.omit_result_diff
      then pure (result_of c changed f (first_or_blank changed) [])
      else read_file_diff c.oid (first_or_blank changed) >>= λ diff.
          pure (result_of c changed f (first_or_blank changed) diff)

  unfoldable pub make_result : CommitMeta → List FileChange → Found → Exec SearchMatch
  unfolding result_from
  make_result c changed f = result_from c changed f f.files
