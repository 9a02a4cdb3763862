-- ===== src/Helper/Handlers/Reading.antt =====
-- internal/vscodehelper: the requests of the helper only read the repository.
use gitgit.Prelude.{ℕ, refl, Bool, Option, none, some, List, [], ◌∷◌, ℤ}
use gitgit.Text.{Text, lit, text_eq, has_prefix, contains, is_empty, trim_space}
use gitgit.Apperr.{Result, ok, err}
use gitgit.Helper.Rpc.{Host}
use gitgit.Helper.Params.{RepositoryParams, FileParams}
use gitgit.Helper.Rpc.Offline.{
  reads_only, Keeps, KeepsIn, Keeps-elim, Keeps-answer, Keeps-settle, Keeps-bind, Keeps-attempt,
  KeepsIn-run_with_env_limit, keeps_rules,
}
use gitgit.Helper.Revision.Reading.{
  Keeps-refuse_some, Keeps-resolve_revision, Keeps-ensure_revision_file, Keeps-read_revision_blob,
}
use gitgit.Helper.Repository.Reading.{Keeps-open_requested}
use gitgit.Helper.History.{read_first_parents_batch, read_commit_files_batch}
use gitgit.Helper.Handlers.{HistoryFileParams, locate, list_refs, revision_content, file_history}
use gitgit.Helper.Handlers.Blame.{
  BlameLinesParams, blamed_revision, blamed_source, metadata_of, read_metadata,
  read_blame_commit_metadata, read_blame, blame_args, blame_lines,
}
use gitgit.Helper.Blame.{BlameLine}
use gitgit.Helper.FileDiff.{binary_diff}
use gitgit.Helper.Handlers.Diff.{
  DiffFileParams, first_parent, diff_args, checked_diff, count_target_lines, diff_ranges, diff_file,
}

module _ (host : Host) (root : Text) where
  Keeps-read_first_parents_batch :
      (commits : List Text) → Keeps (read_first_parents_batch host root commits)
  unfolding read_first_parents_batch reads_only contains has_prefix text_eq lit
  Keeps-read_first_parents_batch [] = search keeps_rules
  Keeps-read_first_parents_batch (c ∷ cs) = search keeps_rules depth 14

  Keeps-read_commit_files_batch :
      (commits : List Text) → Keeps (read_commit_files_batch host root commits)
  unfolding read_commit_files_batch reads_only contains has_prefix text_eq lit
  Keeps-read_commit_files_batch [] = search keeps_rules
  Keeps-read_commit_files_batch (c ∷ cs) =
      search (keeps_rules, Keeps-read_first_parents_batch) depth 18

module _ (host : Host) (resolving : KeepsIn host.resolve_git) where
  Keeps-locate : (p : FileParams) → Keeps (locate host p)
  unfolding locate
  Keeps-locate p = search (keeps_rules, Keeps-open_requested host resolving) depth 10

  pub Keeps-list_refs : (params : Option RepositoryParams) → Keeps (list_refs host params)
  unfolding list_refs reads_only contains has_prefix text_eq lit
  Keeps-list_refs params = search (keeps_rules, Keeps-open_requested host resolving) depth 20

  pub Keeps-revision_content :
      (params : Option (FileParams × Text)) → Keeps (revision_content host params)
  unfolding revision_content
  Keeps-revision_content params =
      search (keeps_rules, Keeps-locate, Keeps-resolve_revision, Keeps-read_revision_blob) depth 14

  pub Keeps-file_history : (params : Option HistoryFileParams) → Keeps (file_history host params)
  unfolding file_history reads_only contains has_prefix text_eq lit
  Keeps-file_history params =
      search (keeps_rules, Keeps-locate, Keeps-resolve_revision, Keeps-read_commit_files_batch)
        depth 24

module _ (host : Host) where
  Keeps-first_parent : (root commit : Text) → Keeps (first_parent host root commit)
  unfolding first_parent reads_only contains has_prefix text_eq lit
  Keeps-first_parent root commit = search keeps_rules depth 8

  Keeps-checked_diff : (output : Text) → Keeps (checked_diff host output)
  unfolding checked_diff
  Keeps-checked_diff output = search keeps_rules depth 10

  Keeps-count_target_lines :
      (root commit path : Text) → Keeps (count_target_lines host root commit path)
  unfolding count_target_lines Keeps
  Keeps-count_target_lines root commit path log h =
      Keeps-read_revision_blob host root commit path log h

  Keeps-diff_ranges :
      (root commit path parent diff : Text) → Keeps (diff_ranges host root commit path parent diff)
  unfolding diff_ranges
  Keeps-diff_ranges root commit path parent diff =
      Keeps-elim (binary_diff diff) _ _ (Keeps-answer _)
        (search (keeps_rules, Keeps-count_target_lines) depth 10)

module _ (host : Host) (written : ℤ → ℤ → Text) where
  Keeps-metadata_of : (r : Result Text) → Keeps (metadata_of host written r)
  unfolding metadata_of Keeps
  Keeps-metadata_of (ok t) log h = h
  Keeps-metadata_of (err e) log h = h

  Keeps-read_metadata :
      (root : Text) (commits : List Text) → Keeps (read_metadata host written root commits)
  unfolding read_metadata reads_only contains has_prefix text_eq lit
  Keeps-read_metadata root [] = search keeps_rules
  Keeps-read_metadata root (c ∷ cs) =
      Keeps-bind _ _ (Keeps-attempt _ (KeepsIn-run_with_env_limit host root _ _ _ refl))
        Keeps-metadata_of

  Keeps-read_blame_commit_metadata :
      (root : Text) (lines : List BlameLine)
      → Keeps (read_blame_commit_metadata host written root lines)
  unfolding read_blame_commit_metadata
  Keeps-read_blame_commit_metadata root lines = Keeps-read_metadata root _

  Keeps-blamed_revision :
      (root path revision : Text) → Keeps (blamed_revision host written root path revision)
  unfolding blamed_revision reads_only contains has_prefix text_eq lit
  Keeps-blamed_revision root path revision =
      Keeps-elim (is_empty (trim_space revision)) _ _ (search keeps_rules depth 8)
        (search (keeps_rules, Keeps-resolve_revision, Keeps-ensure_revision_file) depth 8)

  Keeps-blamed_source :
      (root path revision : Text) (contents : Option Text)
      → Keeps (blamed_source host written root path revision contents)
  unfolding blamed_source
  Keeps-blamed_source root path revision (some contents) = Keeps-answer _
  Keeps-blamed_source root path revision none =
      Keeps-elim (is_empty revision) _ _ (Keeps-settle _)
        (Keeps-read_revision_blob host root revision path)

  Keeps-read_blame :
      (root : Text) (stdin : Option Text) (path revision : Text) (first last count : ℕ) (w c : Bool)
      → Keeps (read_blame host written root stdin (blame_args path first last w c revision) count)
  unfolding read_blame blame_args reads_only contains has_prefix text_eq lit
  Keeps-read_blame root stdin path revision first last count w c = search keeps_rules depth 14

module _ (host : Host) (resolving : KeepsIn host.resolve_git) where
  pub Keeps-blame_lines :
      (written : ℤ → ℤ → Text) (params : Option BlameLinesParams)
      → Keeps (blame_lines host written params)
  unfolding blame_lines
  Keeps-blame_lines written params =
      search
        (
          keeps_rules,
          Keeps-locate host resolving,
          Keeps-blamed_revision host,
          Keeps-blamed_source host,
          Keeps-refuse_some,
          Keeps-read_blame host,
          Keeps-read_blame_commit_metadata host,
        )
        depth 24 fits 4000

  pub Keeps-diff_file : (params : Option DiffFileParams) → Keeps (diff_file host params)
  unfolding diff_file diff_args reads_only contains has_prefix text_eq lit
  Keeps-diff_file params =
      search
        (
          keeps_rules,
          Keeps-open_requested host resolving,
          Keeps-resolve_revision,
          Keeps-first_parent host,
          Keeps-read_commit_files_batch,
          Keeps-checked_diff host,
          Keeps-diff_ranges host,
        )
        depth 34 fits 4000
