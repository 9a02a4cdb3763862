-- ===== src/Helper/Repository/Reading.antt =====
-- internal/vscodehelper: opening a repository only reads it.
use gitgit.Prelude.{refl, Option, none, if◌then◌else◌, List, [], ◌∷◌}
use gitgit.Text.{Text, lit, text_eq, is_empty, contains}
use gitgit.Git.{Git}
use gitgit.Git.Repository.{open_repository, open_at, given_directory, absolute}
use gitgit.Apperr.{ok}
use gitgit.Helper.Rpc.{Host}
use gitgit.Helper.Rpc.Offline.{
  reads_only, opens, Keeps, KeepsIn, KeepsIn-bind, KeepsIn-or_fail, KeepsIn-pure, KeepsIn-refuse_if,
  KeepsIn-run, continue-KeepsIn, keeps_rules,
}
use gitgit.Helper.Repository.{
  opened_repository, open_requested, repository_web_remotes, read_web_remotes,
}

module _ (git : Git) (working : Option Text) (eval_symlinks : Text → Option Text) where
  KeepsIn-open_at : (directory : Text) → KeepsIn (open_at git working eval_symlinks directory)
  unfolding open_at reads_only opens contains text_eq lit
  KeepsIn-open_at directory =
      KeepsIn-bind _ _
        (KeepsIn-or_fail _ _
          (KeepsIn-run git directory none (lit "rev-parse" ∷ lit "--show-toplevel" ∷ []) refl refl))
        (λ out. KeepsIn-bind _ _ (KeepsIn-refuse_if _ _) (λ _.
          KeepsIn-bind _ _ (KeepsIn-or_fail _ _ (KeepsIn-run git _ none _ refl refl))
            (λ common. KeepsIn-bind _ _ (KeepsIn-refuse_if _ _) (λ _. KeepsIn-pure _))))

  pub KeepsIn-open_repository :
      (path : Text) → KeepsIn (open_repository git working eval_symlinks path)
  unfolding open_repository KeepsIn
  KeepsIn-open_repository path log h =
      continue-KeepsIn (if is_empty path then given_directory working else ok path) _ log
        (λ start.
          unfold KeepsIn in
          λ log' h'. continue-KeepsIn (absolute working start) _ log' KeepsIn-open_at h')
        h

module _ (host : Host) (resolving : KeepsIn host.resolve_git) where
  pub KeepsIn-opened_repository : (path : Text) → KeepsIn (opened_repository host path)
  unfolding opened_repository
  KeepsIn-opened_repository path =
      KeepsIn-open_repository host.git host.working_directory host.eval_symlinks path

  pub Keeps-open_requested : (root : Text) → Keeps (open_requested host root)
  unfolding open_requested
  Keeps-open_requested root = search (keeps_rules, resolving, KeepsIn-opened_repository) depth 14

  Keeps-read_web_remotes :
      (root : Text) (names remotes : List Text) → Keeps (read_web_remotes host root names remotes)
  unfolding read_web_remotes reads_only contains text_eq lit
  Keeps-read_web_remotes root [] remotes = search keeps_rules
  Keeps-read_web_remotes root (name ∷ names) remotes =
      search (keeps_rules, Keeps-read_web_remotes root names) depth 12

  pub Keeps-repository_web_remotes : (root : Text) → Keeps (repository_web_remotes host root)
  unfolding repository_web_remotes reads_only contains text_eq lit
  Keeps-repository_web_remotes root = search (keeps_rules, Keeps-read_web_remotes) depth 12
