-- ===== src/Helper/Samples/Searched.antt =====
-- A search of the helper over a log of one commit.
use gitgit.Prelude.{◌≡◌, refl, false, none, some, List, [], ◌∷◌, ◌++◌, pos, if◌then◌else◌}
use gitgit.Text.{
  Text, lit, text_eq, is_empty, to_lower, trim_space, contains_byte, has_prefix, join, split,
  contains, trim_prefix,
}
use gitgit.Apperr.{Result, ok}
use gitgit.Search.Patterns.{Regexp, compile_search_matcher}
use gitgit.Search.Run.{SearchProgress, progress_is_due}
use gitgit.Helper.Rpc.{
  Host, answered, ◌>>=◌, settle, or_refuse, refuse_if, answer, refuse_if_cancelled,
}
use gitgit.Helper.SearchRun.{SearchRunParams}
use gitgit.Helper.SearchRun.Results.{SearchRunResult, search_run}
use gitgit.Helper.SearchRun.Paged.{HasFewResults, search_run-HasFewResults}
use gitgit.Helper.Samples.History.{host}
use gitgit.Helper.Revision.{has_control, validate_revision}
use gitgit.Search.Options.{
  is_source, none_of, not_positive, normalized_search_predicates, search_patterns_by_source,
}
use gitgit.Helper.Repository.{open_requested}
use gitgit.Path.{is_abs, clean}
use gitgit.Git.Repository.{open_repository, absolute, resolved_or_same}
use gitgit.Git.{run}
use gitgit.Helper.Paths.{canonical_path}
use gitgit.Search.Commits.{read_commits, without_last_empty, commits_loop}
use gitgit.Search.Changes.{
  read_commit_file_changes_batch, requested_ids, read_tokens, token_kind, no_changes,
  parse_search_decorations,
}
use gitgit.Assoc.{get, put}
use gitgit.Search.Expression.{evaluate_search_expression}
use gitgit.Text.Order.{sort_texts}

abbrev field : Text → Text
field t = t ++ (0 ∷ [])

-- The log has one commit without changed files.
abbrev logged : Text
logged =
    field (lit "c1")
    ++ (field (lit "A") ++ (field (lit "a@b") ++ (field [] ++ (field (lit "fix") ++ field []))))

abbrev printed : Text → Result Text → Result Text
printed command other =
    if text_eq command (lit "log")
    then ok logged
    else if text_eq command (lit "diff-tree")
    then ok []
    else other

abbrev command_of : List Text → Text
command_of [] = []
command_of (t ∷ ts) = t

abbrev log_host : Host
log_host = record host { git = λ log i. printed (command_of i.arguments) (host.git log i) }

abbrev by_message : SearchRunParams
by_message = record {
  repository_root = lit "/repo";
  repository_root_snake = [];
  repository = [];
  patterns =
      record {
        source = lit "msg";
        value = lit "fix";
        joined_by = [];
        open_groups = pos 0;
        open_groups_snake = pos 0;
        close_groups = pos 0;
        close_groups_snake = pos 0;
      }
      ∷ [];
  engine = lit "regex";
  scope = [];
  all_refs = false;
  all_refs_snake = false;
  author = [];
  since = [];
  until = [];
  follow_rename = false;
  follow_rename_snake = false;
  limit = pos 0;
  context_lines = pos 0;
}

-- A regular expression that matches itself only.
abbrev itself : Regexp
itself = record { compile = λ pattern. ok (text_eq pattern); quote_meta = λ t. t }

abbrev result : SearchRunResult
result = record {
  scope = lit "HEAD";
  all_refs = false;
  scanned = 1;
  count = 1;
  has_more = false;
  results =
      record {
        author_name = lit "A";
        author_email = lit "a@b";
        commit = lit "c1";
        short_commit = lit "c1";
        message = lit "fix";
        date = [];
        refs = [];
        matched_files = [];
        changed_files = [];
        match_sources = lit "msg" ∷ [];
      }
      ∷ [];
}

abbrev progress : List SearchProgress
progress = record { scanned = 1; total = 1 } ∷ []

answered_search :
    (search_run log_host itself (λ visited. none) (some by_message) []).0
    ≡ answered (result, progress)
unfolding search_run ◌>>=◌ text_eq lit settle is_empty to_lower trim_space has_control contains_byte
    is_source validate_revision has_prefix open_requested is_abs or_refuse open_repository clean
    absolute run refuse_if canonical_path resolved_or_same join split answer none_of not_positive
    normalized_search_predicates compile_search_matcher read_commits without_last_empty commits_loop
    read_commit_file_changes_batch requested_ids read_tokens token_kind no_changes get put contains
    evaluate_search_expression search_patterns_by_source progress_is_due parse_search_decorations
    sort_texts trim_prefix refuse_if_cancelled
answered_search = refl

search_run-HasFewResults_example : HasFewResults result
search_run-HasFewResults_example =
    search_run-HasFewResults log_host itself (λ visited. none) by_message [] answered_search
