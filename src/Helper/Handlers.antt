-- ===== src/Helper/Handlers.antt =====
-- internal/vscodehelper/methods.go: `refs.list`, `revision.content` and `history.file`. Params that
-- are no object, or that `json.Unmarshal` refuses, are none.
pub mod Blame
pub mod Diff
pub mod Reading
pub mod Counted
use gitgit.Prelude.{
  ℕ, Bool, true, false, not, ◌&&◌, ◌||◌, Option, none, some, List, [], ◌∷◌, ◌++◌, ltb, leb, ◌==◌,
  length, if◌then◌else◌, ℤ, pos, negsuc,
}
use gitgit.Text.{Text, lit, is_empty, trim_space}
use gitgit.Text.Numbers.{show_number}
use gitgit.Assoc.{get}
use gitgit.Git.Repository.{Repository}
use gitgit.Helper.Rpc.{
  Answer, answered, refused, RpcError, Host, Serve, answer, settle, or_refuse, attempt, ◌>>=◌, ◌>>◌,
  refuse_if, refuse_failed_if_cancelled, internal_error, invalid_params, given_params,
  parsed_or_refused, git_command_error, run_read_only_git, max_output_bytes,
}
use gitgit.Helper.Params.{RepositoryParams, root_of, FileParams, path_of}
use gitgit.Helper.Revision.{resolve_revision, read_revision_blob}
use gitgit.Helper.Paths.{validate_relative_path}
use gitgit.Helper.Repository.{open_requested}
use gitgit.Helper.Discovery.{printed}
use gitgit.Helper.Refs.{Ref, parse_refs}
use gitgit.Helper.History.{Changes, bounded_output, read_commit_files_batch}
use gitgit.Helper.History.Commits.{HistoryCommit, parse_file_history}

-- The repository of a file's params, and its path.
pub record Located : Type 0 where
  pub root : Text
  pub path : Text

pub record HistoryFileParams : Type 0 where
  pub file_params : FileParams
  pub revision : Text
  pub limit : ℤ

-- The limit of a history: 100 for none, and at most 500.
unfoldable pub history_limit : ℕ → ℕ
history_limit n = if n == 0 then 100 else if ltb 500 n then 500 else n

-- `commits[index].Commit` for each.
unfoldable pub commit_ids : List HistoryCommit → List Text
commit_ids [] = []
commit_ids (c ∷ cs) = c.commit ∷ commit_ids cs

-- `commits[index].Files = filesByCommit[commits[index].Commit]`.
unfoldable pub with_files : Changes → List HistoryCommit → List HistoryCommit
with_files m [] = []
with_files m (c ∷ cs) =
    record c { files = elim (get c.commit m) [ none ↦ [] | some found ↦ found ] } ∷ with_files m cs

module _ (host : Host) where
  -- `openRepository`, then `validateRelativePath` in it.
  unfoldable pub locate : FileParams → Serve Located
  locate p = do
    repository ← open_requested host (root_of p.repository_params)
    path ← settle (validate_relative_path host repository.root (path_of p))
    answer (record { root = repository.root; path = path })

  -- `listRefs`.
  unfoldable pub list_refs : Option RepositoryParams → Serve (List Ref)
  list_refs params = do
    p ← settle (given_params (lit "invalid_refs_params") params)
    repository ← open_requested host (root_of p)
    current ← attempt (
        run_read_only_git host repository.root none
          (lit "symbolic-ref" ∷ lit "--quiet" ∷ lit "HEAD" ∷ []))
    refuse_failed_if_cancelled host current
    output ← bounded_output host (lit "Git ref output exceeds maxOutputBytes") (
        run_read_only_git host repository.root none (
          lit "for-each-ref"
          ∷ lit "--format=%(refname)%00%(refname:short)%00%(objectname)%00%(symref)"
          ∷ lit "refs/heads"
          ∷ lit "refs/remotes"
          ∷ []))
    settle (parsed_or_refused (parse_refs output (printed current)))

  -- `revisionContent`, of the file and the revision.
  unfoldable pub revision_content : Option (FileParams × Text) → Serve Text
  unfolding locate
  revision_content params = do
    p ← settle (given_params (lit "invalid_revision_content_params") params)
    located ← locate p.0
    revision ← resolve_revision host located.root p.1
    read_revision_blob host located.root revision located.path

  -- The limit that is asked for, or an error.
  unfoldable pub requested_limit : ℤ → Answer ℕ
  requested_limit (pos n) = answered (history_limit n)
  requested_limit (negsuc n) =
      refused (invalid_params (lit "invalid_limit") (lit "limit must be zero or greater"))

  abbrev history_args : ℕ → Text → Text → List Text
  history_args limit revision path =
      lit "log"
      ∷ lit "--follow"
      ∷ lit "--find-renames"
      ∷ lit "--date-order"
      ∷ lit "-z"
      ∷ lit "--date=iso-strict"
      ∷ lit "--format=%H%x00%h%x00%P%x00%an%x00%ae%x00%aI%x00%B"
      ∷ (lit "--max-count=" ++ show_number limit)
      ∷ lit "--end-of-options"
      ∷ revision
      ∷ lit "--"
      ∷ path
      ∷ []

  -- `fileHistory`.
  unfoldable pub file_history : Option HistoryFileParams → Serve (List HistoryCommit)
  unfolding locate requested_limit history_limit with_files commit_ids
  file_history params = do
    p ← settle (given_params (lit "invalid_history_params") params)
    limit ← settle (requested_limit p.limit)
    located ← locate p.file_params
    revision ←
        resolve_revision host located.root
          (if is_empty (trim_space p.revision) then lit "HEAD" else p.revision)
    output ←
        bounded_output host (lit "Git history output exceeds maxOutputBytes")
          (run_read_only_git host located.root none (history_args limit revision located.path))
    commits ← settle (parsed_or_refused (parse_file_history output))
    files ← read_commit_files_batch host located.root (commit_ids commits)
    answer (with_files files commits)
