-- ===== src/Worktree/Sparse/Changes.antt =====
-- internal/app/worktree.go: the changes of a sparse checkout, with the check that they hide no path
-- that is modified or untracked. The temporary file of rules is a parameter: its path or the error
-- of making it, and the error of writing it, if there is one.
use gitgit.Prelude.{
  Bool, not, ◌&&◌, Option, none, some, List, [], ◌∷◌, ◌++◌, ◌==◌, length, if◌then◌else◌,
}
use gitgit.Text.{Text, lit, split, join}
use gitgit.Apperr.{
  Failure, plain_message, app_new, app_wrap, usage_error, texts, exit_failure, exit_precondition,
  Result, ok, err,
}
use gitgit.Git.{Git, Exec, pure, lift, or_fail, ◌>>=◌, ◌>>◌, refuse_if, run}
use gitgit.Worktree.Listing.{SparseState, no_sparse, worktree_git_error}
use gitgit.Worktree.Sparse.{
  normalize_sparse_directories, parse_porcelain_paths, non_cone, lines_of, without_texts,
  non_empty_texts, target_path, sparse_state,
}

pub paths_outside : List Text → Failure
paths_outside outside =
    app_new (lit "dirty_paths_outside_sparse")
      (plain_message
        (lit "modified or untracked paths would fall outside the new sparse specification"))
      exit_precondition ((lit "paths", texts outside) ∷ [])

-- The end of `protectDirtyPaths`: the dirty paths that the rules do not match.
unfoldable pub check_matched : List Text → Text → Result (Unit {0})
unfolding paths_outside
check_matched dirty matched_output =
    let outside = without_texts (non_empty_texts (split 0 matched_output)) dirty in
    if length outside == 0 then ok tt else err (paths_outside outside)

abbrev written : Option Failure → Result (Unit {0})
written none = ok tt
written (some e) = err e

non_cone_managed : Failure
non_cone_managed = non_cone (
    lit
      "GitGit only manages cone-mode sparse checkouts; disable the existing non-cone checkout first")

no_directories : Failure
no_directories =
    usage_error (lit "missing_directories") (lit "at least one sparse directory is required")

sparse_disabled : Failure
sparse_disabled =
    app_new (lit "sparse_disabled") (plain_message (lit "sparse-checkout is not enabled"))
      exit_precondition []

not_in_specification : List Text → Failure
not_in_specification directories =
    app_new (lit "sparse_directory_missing")
      (plain_message (lit "none of the requested directories are in the sparse specification"))
      exit_precondition ((lit "directories", texts directories) ∷ [])

module _ (git : Git) (root : Text) (rules_file : Result Text) (write_error : Option Failure) where
  -- Where some paths are dirty.
  pub protect_listed : Text → List Text → List Text → Exec (Unit {0})
  protect_listed target directories dirty = if length dirty == 0 then pure tt else do
    rules ← or_fail (lift rules_file) (λ e.
        app_wrap (lit "sparse_rules_error")
          (plain_message (lit "failed to create temporary sparse rules")) exit_failure e [])
    lift (written write_error)
    matched ←
        or_fail
          (run git target (some (join 0 dirty ++ 0 ∷ [])) (
            lit "sparse-checkout" ∷ lit "check-rules" ∷ lit "--rules-file" ∷ rules ∷ lit "-z" ∷ []))
          (λ e.
            app_wrap (lit "sparse_rules_unsupported")
              (plain_message (lit "Git cannot validate the proposed sparse rules"))
              exit_precondition e [])
    lift (check_matched dirty matched)

  -- `protectDirtyPaths`.
  unfoldable pub protect_dirty_paths : Text → List Text → Exec (Unit {0})
  unfolding protect_listed
  protect_dirty_paths target directories = do
    output ←
        or_fail
          (run git target none
            (lit "status" ∷ lit "--porcelain=v1" ∷ lit "-z" ∷ lit "--untracked-files=all" ∷ []))
          (worktree_git_error (lit "check sparse worktree status"))
    protect_listed target directories (parse_porcelain_paths output)

  unfoldable pub check_sparse_rules : Text → List Text → Exec (Unit {0})
  check_sparse_rules given directories = do
    normal ← lift (normalize_sparse_directories directories)
    protect_dirty_paths (target_path git root given) normal

  unfoldable pub sparse_list : Text → Exec SparseState
  sparse_list given = sparse_state git root (target_path git root given)

  -- The command that sets the directories.
  pub set_directories : Text → Bool → List Text → Exec SparseState
  set_directories target enabled directories = do
    done ←
        or_fail
          (run git target (some (lines_of directories)) (
            lit "sparse-checkout"
            ∷ lit "set"
            ∷ lit "--cone"
            ∷ ((if enabled then [] else lit "--no-sparse-index" ∷ []) ++ (lit "--stdin" ∷ []))))
          (worktree_git_error (lit "set sparse directories"))
    sparse_state git root target

  -- Behind the state of the checkout.
  pub set_from : Text → List Text → SparseState → Exec SparseState
  set_from target directories current = do
    refuse_if (current.enabled && not current.cone) non_cone_managed
    if current.enabled then protect_dirty_paths target directories else pure tt
    set_directories target current.enabled directories

  -- `SparseSet`.
  unfoldable pub sparse_set : Text → List Text → Exec SparseState
  unfolding set_from set_directories non_cone_managed
  sparse_set given directories = do
    let target = target_path git root given
    normal ← lift (normalize_sparse_directories directories)
    current ← sparse_state git root target
    set_from target normal current

  -- `SparseExpand`.
  pub expand_from : Text → List Text → SparseState → Exec SparseState
  expand_from target directories current = do
    refuse_if (current.enabled && not current.cone)
        (non_cone (lit "GitGit only manages cone-mode sparse checkouts"))
    if not current.enabled then sparse_set target directories else do
      done ←
          or_fail
            (run git target (some (lines_of directories))
              (lit "sparse-checkout" ∷ lit "add" ∷ lit "--stdin" ∷ []))
            (worktree_git_error (lit "expand sparse directories"))
      sparse_state git root target

  unfoldable pub sparse_expand : Text → List Text → Exec SparseState
  unfolding expand_from no_directories
  sparse_expand given directories = do
    let target = target_path git root given
    normal ← lift (normalize_sparse_directories directories)
    refuse_if (length normal == 0) no_directories
    current ← sparse_state git root target
    expand_from target normal current

  -- `SparseContract`.
  pub contract_from : Text → List Text → SparseState → Exec SparseState
  contract_from target directories current = do
    refuse_if (not current.enabled) sparse_disabled
    refuse_if (not current.cone) (non_cone (lit "GitGit only manages cone-mode sparse checkouts"))
    let next = without_texts directories current.directories
    refuse_if (length next == length current.directories) (not_in_specification directories)
    sparse_set target next

  unfoldable pub sparse_contract : Text → List Text → Exec SparseState
  unfolding contract_from no_directories sparse_disabled not_in_specification
  sparse_contract given directories = do
    let target = target_path git root given
    normal ← lift (normalize_sparse_directories directories)
    refuse_if (length normal == 0) no_directories
    current ← sparse_state git root target
    contract_from target normal current

  -- `SparseDisable`.
  unfoldable pub sparse_disable : Text → Exec SparseState
  sparse_disable given = do
    done ←
        or_fail
          (run git (target_path git root given) none (lit "sparse-checkout" ∷ lit "disable" ∷ []))
          (worktree_git_error (lit "disable sparse-checkout"))
    pure no_sparse
