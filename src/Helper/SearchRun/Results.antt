-- ===== src/Helper/SearchRun/Results.antt =====
-- internal/vscodehelper/search_diff.go: `searchRun` with the search, and what it answers.
use gitgit.Prelude.{ℕ, Bool, Option, List, [], ◌∷◌, leb, ◌==◌, ◌||◌, length, take, if◌then◌else◌}
use gitgit.Text.{Text}
use gitgit.Apperr.{Failure, exit_code, exit_usage, error_details}
use gitgit.Git.{Event}
use gitgit.Search.Changes.{FileChange}
use gitgit.Search.Matching.{SearchFileMatch, SearchMatch}
use gitgit.Search.Patterns.{Regexp}
use gitgit.Search.Run.{SearchProgress, SearchResponse, search_with_progress}
use gitgit.Helper.Rpc.{
  RpcError, rpc_error, code_invalid_params, code_internal_error, cancelled_error, Host, Serve,
  answer, settle, or_refuse, refuse_if_cancelled, ◌>>=◌, ◌>>◌,
}
use gitgit.Helper.Repository.{open_requested}
use gitgit.Helper.Progress.{ProgressParams, ProgressReporter, new_progress_reporter, report, done}
use gitgit.Helper.SearchRun.{SearchRunParams, SearchRequest, search_request}

pub record SearchMatchedFile : Type 0 where
  pub status : Text
  pub old_path : Text
  pub path : Text
  pub match_sources : List Text

pub record SearchResult : Type 0 where
  pub author_name : Text
  pub author_email : Text
  pub commit : Text
  pub short_commit : Text
  pub message : Text
  pub date : Text
  pub refs : List Text
  pub matched_files : List SearchMatchedFile
  pub changed_files : List FileChange
  pub match_sources : List Text

pub record SearchRunResult : Type 0 where
  pub scope : Text
  pub all_refs : Bool
  pub scanned : ℕ
  pub count : ℕ
  pub has_more : Bool
  pub results : List SearchResult

-- `shortObjectID`.
unfoldable pub short_object_id : Text → Text
short_object_id id = if leb (length id) 8 then id else take 8 id

-- The loop over the matched files, and the one over the results.
unfoldable pub matched_files_of : List SearchFileMatch → List SearchMatchedFile
matched_files_of [] = []
matched_files_of (m ∷ ms) =
    record {
      status = m.change.status;
      old_path = m.change.old_path;
      path = m.change.path;
      match_sources = m.match_sources;
    }
    ∷ matched_files_of ms

unfoldable pub search_results : List SearchMatch → List SearchResult
unfolding short_object_id matched_files_of
search_results [] = []
search_results (m ∷ ms) =
    record {
      author_name = m.author_name;
      author_email = m.author_email;
      commit = m.commit;
      short_commit = short_object_id m.commit;
      message = m.message;
      date = m.date;
      refs = m.refs;
      matched_files = matched_files_of m.matched_files;
      changed_files = m.changed_files;
      match_sources = m.match_sources;
    }
    ∷ search_results ms

unfoldable pub search_run_result : SearchRequest → SearchResponse → SearchRunResult
unfolding search_results
search_run_result r found = record {
  scope = r.scope;
  all_refs = r.options.all_refs;
  scanned = found.scanned;
  count = length (search_results found.results);
  has_more = found.has_more;
  results = search_results found.results;
}

-- The calls of `report`, the last first, on a reporter.
unfoldable pub report_all : List SearchProgress → ProgressReporter → ProgressReporter
unfolding report
report_all [] p = p
report_all (progress ∷ before) p = report progress (report_all before p)

module _ (host : Host) (rx : Regexp) (interrupted : ℕ → Option Failure) where
  -- An error of the search.
  unfoldable pub search_error : List Event → Failure → RpcError
  unfolding cancelled_error rpc_error
  search_error log e =
      let (stable_code, message, details) = error_details e in
      if host.is_cancelled log || host.is_cancel_error e
      then cancelled_error
      else if exit_code e == exit_usage
      then rpc_error code_invalid_params stable_code message
      else rpc_error code_internal_error stable_code message

  -- `searchRun`: its result, and the calls of `progress.report`, the last first.
  unfoldable pub search_run : Option SearchRunParams → Serve (SearchRunResult × List SearchProgress)
  unfolding search_request search_error search_with_progress search_run_result refuse_if_cancelled
  search_run params = do
    request ← settle (search_request params)
    repository ← open_requested host request.root
    found ←
        or_refuse (search_with_progress rx host.git repository.root interrupted request.options)
          search_error
    refuse_if_cancelled host
    answer (search_run_result request found.0, found.1)

  -- The same between `newProgressReporter` and `progress.done`, with what the reporter has written,
  -- the last first. A request that ends in an error has its notifications too, which are left out.
  unfoldable pub search_and_report :
      Text → Option SearchRunParams → Serve (SearchRunResult × List ProgressParams)
  unfolding search_run report_all done new_progress_reporter
  search_and_report request_id params = search_run params >>= λ found. λ log.
      answer
        (
          found.0,
          (done found.0.scanned (host.is_cancelled log)
              (report_all found.1 (new_progress_reporter request_id))).written,
        )
        log
