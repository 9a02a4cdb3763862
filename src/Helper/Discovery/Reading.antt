-- ===== src/Helper/Discovery/Reading.antt =====
-- internal/vscodehelper/server.go: `repository.discover` and the search for Git only read.
use gitgit.Prelude.{refl, Option, none, [], ◌∷◌}
use gitgit.Text.{Text, lit, text_eq, contains}
use gitgit.Apperr.{wrapped}
use gitgit.Git.{Git, Exec, run}
use gitgit.Git
use gitgit.Git.Repository.{Repository, git_version}
use gitgit.Helper.Rpc.{Host}
use gitgit.Helper.Rpc.Offline.{
  reads_only, opens, Keeps, KeepsIn, KeepsIn-bind, KeepsIn-or_fail, KeepsIn-pure, KeepsIn-run,
  KeepsIn-found, keeps_rules,
}
use gitgit.Helper.Repository.Reading.{KeepsIn-opened_repository, Keeps-repository_web_remotes}
use gitgit.Helper.Discovery.{
  System, discover_git_executable, resolve_git_installation, describe_repository,
  discover_repository,
}

KeepsIn-git_version : (git : Git) → KeepsIn (git_version git)
unfolding git_version reads_only opens contains text_eq lit
KeepsIn-git_version git =
    KeepsIn-bind _ _ (KeepsIn-run git [] none (lit "--version" ∷ []) refl refl)
      (λ out. KeepsIn-pure _)

pub KeepsIn-resolve_git_installation :
    (s : System) (git : Git) → KeepsIn (resolve_git_installation s git)
unfolding resolve_git_installation
KeepsIn-resolve_git_installation s git = KeepsIn-found (discover_git_executable s) _ _ (λ p.
    KeepsIn-bind (Git.or_fail (git_version git) (wrapped (lit "read Git version: %w") [])) _
      (KeepsIn-or_fail (git_version git) _ (KeepsIn-git_version git)) (λ version. KeepsIn-pure _))

module _ (host : Host) (resolving : KeepsIn host.resolve_git) where
  Keeps-describe_repository :
      (repository : Repository) → Keeps (describe_repository host repository)
  unfolding describe_repository reads_only contains text_eq lit
  Keeps-describe_repository repository =
      search (keeps_rules, Keeps-repository_web_remotes host resolving) depth 20

  pub Keeps-discover_repository : (path : Option Text) → Keeps (discover_repository host path)
  unfolding discover_repository
  Keeps-discover_repository path =
      search
        (
          keeps_rules,
          resolving,
          KeepsIn-opened_repository host resolving,
          Keeps-describe_repository,
        )
        depth 14
