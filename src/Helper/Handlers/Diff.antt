-- ===== src/Helper/Handlers/Diff.antt =====
-- internal/vscodehelper/search_diff.go: `diff.file`.
use gitgit.Prelude.{
  ℕ, true, false, not, ◌||◌, Option, none, some, List, [], ◌∷◌, ◌++◌, ltb, ◌==◌, take, length,
  if◌then◌else◌, ℤ, pos, negsuc,
}
use gitgit.Text.{
  Text, lit, text_eq, is_empty, contains_byte, fields, trim_space, trim_right_newlines,
}
use gitgit.Text.Numbers.{show_number}
use gitgit.Assoc.{get}
use gitgit.Search.Changes.{FileChange}
use gitgit.Helper.Rpc.{
  Answer, answered, refused, RpcError, Host, Serve, answer, settle, or_refuse, ◌>>=◌, ◌>>◌,
  refuse_if, internal_error, invalid_params, given_params, parsed_or_refused, git_command_error,
  run_read_only_git, max_text_bytes,
}
use gitgit.Helper.Params.{first_given}
use gitgit.Helper.Revision.{
  is_object_id, resolve_revision, read_revision_blob, text_line_count, literal_pathspec,
}
use gitgit.Helper.Paths.{validate_relative_path}
use gitgit.Helper.Repository.{open_requested}
use gitgit.Helper.History.{read_commit_files_batch}
use gitgit.Helper.Ranges.{TargetRange, parse_unified_ranges}
use gitgit.Helper.FileDiff.{select_diff_change, binary_diff, select_exact_file_diff}

pub record DiffFileParams : Type 0 where
  pub repository_root : Text
  pub repository : Text
  pub commit : Text
  pub path : Text
  pub old_path : Text
  pub old_path_snake : Text
  pub context_lines : ℤ

pub record DiffFileResult : Type 0 where
  pub parent : Text
  pub diff : Text
  pub target_ranges : List TargetRange
  pub deletion_anchors : List ℕ

-- The lines of context: 3 for none, and at most 100.
unfoldable pub diff_context : ℤ → Answer ℕ
diff_context (pos n) =
    if ltb 100 n
    then refused
        (invalid_params (lit "invalid_context") (lit "context must be between zero and %d"))
    else answered (if n == 0 then 3 else n)
diff_context (negsuc n) =
    refused (invalid_params (lit "invalid_context") (lit "context must be between zero and %d"))

-- The parent that a line of `rev-list --parents` names, "" for none.
unfoldable pub parent_field : Text → List Text → Answer Text
parent_field commit [] =
    refused (internal_error (lit "invalid_git_output") (lit "Git returned invalid parent metadata"))
parent_field commit (id ∷ parents) =
    if not (text_eq id commit)
    then refused
        (internal_error (lit "invalid_git_output") (lit "Git returned invalid parent metadata"))
    else elim parents [
      | [] ↦ answered []
      | ◌∷◌ parent others ↦
          if not (is_object_id parent)
          then refused
              (internal_error (lit "invalid_git_output") (lit "Git returned an invalid parent id"))
          else answered parent
    ]

unfoldable pub diff_args : FileChange → ℕ → Text → Text → List Text
diff_args change context parent commit =
    lit "diff-tree"
    ∷ lit "--no-commit-id"
    ∷ lit "--raw"
    ∷ lit "-z"
    ∷ lit "-p"
    ∷ lit "--no-ext-diff"
    ∷ lit "--no-textconv"
    ∷ lit "--no-color"
    ∷ lit "-M"
    ∷ lit "-r"
    ∷ (lit "--diff-filter=" ++ take 1 change.status)
    ∷ (lit "--unified=" ++ show_number context)
    ∷ ((if is_empty parent then lit "--root" ∷ commit ∷ [] else parent ∷ commit ∷ [])
        ++ (lit "--"
            ∷ ((if is_empty change.old_path then [] else literal_pathspec change.old_path ∷ [])
                ++ (literal_pathspec change.path ∷ []))))

-- The lines of the file behind the commit; a path that is no file there has none.
abbrev target_lines : Answer Text → Answer ℕ
target_lines (answered content) = answered (text_line_count content)
target_lines (refused e) =
    if text_eq e.stable_code (lit "revision_content_not_found")
      || text_eq e.stable_code (lit "revision_content_not_file")
    then answered 0
    else refused e

abbrev diff_not_found : Text → RpcError
diff_not_found = invalid_params (lit "diff_not_found")

abbrev found_change : Option FileChange → Answer FileChange
found_change none = refused (diff_not_found (lit "path was not changed by the requested commit"))
found_change (some change) = answered change

abbrev ranged : Text → Text → List TargetRange × List ℕ → DiffFileResult
ranged parent diff r = record {
  parent = parent;
  diff = diff;
  target_ranges = r.0;
  deletion_anchors = r.1;
}

module _ (host : Host) where
  -- `firstParent`.
  unfoldable pub first_parent : Text → Text → Serve Text
  unfolding parent_field
  first_parent root commit = do
    output ←
        or_refuse
          (run_read_only_git host root none (
            lit "rev-list"
            ∷ lit "--parents"
            ∷ lit "--max-count=1"
            ∷ lit "--end-of-options"
            ∷ commit
            ∷ []))
          (git_command_error host)
    settle (parent_field commit (fields output))

  -- An old path is checked only where one is given.
  abbrev requested_old_path : Text → Text → Answer Text
  requested_old_path root old_path =
      if is_empty old_path then answered [] else validate_relative_path host root old_path

  -- The tests of the diff before its ranges are read.
  unfoldable pub checked_diff : Text → Serve Text
  checked_diff output = do
    refuse_if (ltb max_text_bytes (length output)) (
        internal_error (lit "output_too_large")
          (lit "file diff exceeds the helper text size limit"))
    refuse_if (is_empty (trim_space output)) (diff_not_found (lit "Git returned no file diff"))
    refuse_if (contains_byte output 0 || not (host.valid_utf8 output))
        (invalid_params (lit "binary_file") (lit "file diff is not UTF-8 text"))
    answer (trim_right_newlines output)

  -- The lines of the target; the request goes on where the file is not there.
  unfoldable pub count_target_lines : Text → Text → Text → Serve ℕ
  count_target_lines root commit path log =
      let (a, log') = read_revision_blob host root commit path log in (target_lines a, log')

  -- The ranges of a diff that is not binary.
  unfoldable pub diff_ranges : Text → Text → Text → Text → Text → Serve DiffFileResult
  unfolding count_target_lines
  diff_ranges root commit path parent diff = elim (binary_diff diff) [
    | true ↦ answer (ranged parent diff ([], []))
    | false ↦ count_target_lines root commit path >>= λ target.
        settle (parsed_or_refused (parse_unified_ranges diff target)) >>= λ ranges.
        answer (ranged parent diff ranges)
  ]

  -- `diffFile`.
  unfoldable pub diff_file : Option DiffFileParams → Serve DiffFileResult
  unfolding diff_context first_parent diff_args checked_diff diff_ranges
  diff_file params = do
    p ← settle (given_params (lit "invalid_diff_params") params)
    context ← settle (diff_context p.context_lines)
    repository ← open_requested host (first_given p.repository_root p.repository)
    path ← settle (validate_relative_path host repository.root p.path)
    old_path ← settle (requested_old_path repository.root (first_given p.old_path p.old_path_snake))
    commit ← resolve_revision host repository.root p.commit
    parent ← first_parent repository.root commit
    files ← read_commit_files_batch host repository.root (commit ∷ [])
    change ← settle (
        found_change (
          select_diff_change (elim (get commit files) [ none ↦ [] | some found ↦ found ]) path
            old_path))
    output ←
        or_refuse
          (run_read_only_git host repository.root none (diff_args change context parent commit))
          (git_command_error host)
    selected ← settle (parsed_or_refused (select_exact_file_diff output change))
    diff ← checked_diff selected
    diff_ranges repository.root commit change.path parent diff
