-- ===== src/Helper/Dispatch/Reading.antt =====
-- internal/vscodehelper/server.go: what the helper asks of Git for any request.
use mathlib.Core.Path.{subst}
use gitgit.Prelude.{ℕ, ◌≡◌, refl, sym, false, Option, List, ℤ, All}
use gitgit.Text.{Text, lit, text_eq}
use gitgit.Apperr.{Failure, Result, ok, err}
use gitgit.Git.{Event}
use gitgit.Search.Patterns.{Regexp}
use gitgit.Helper.Rpc.{Host, GitInstallation, Serve, settle}
use gitgit.Helper.Rpc.Offline.{Keeps, KeepsIn, IsReading, keeps_rules}
use gitgit.Helper.Server.{Request}
use gitgit.Helper.Discovery.Reading.{Keeps-discover_repository}
use gitgit.Helper.Handlers.Reading.{
  Keeps-list_refs, Keeps-revision_content, Keeps-file_history, Keeps-blame_lines, Keeps-diff_file,
}
use gitgit.Helper.Dispatch.{
  Decoders, HandlerResult, git_diagnostics, initialize, unknown_method, handle_with, handle_search,
  handle,
}

module _ (host : Host) (written : ℤ → ℤ → Text) (d : Decoders)
    (resolving : KeepsIn host.resolve_git) where
  Keeps-git_diagnostics : (r : Result GitInstallation) → Keeps (git_diagnostics host written d r)
  unfolding git_diagnostics Keeps
  Keeps-git_diagnostics (ok i) log h = h
  Keeps-git_diagnostics (err e) log h = h

  Keeps-initialize : (raw : Text) → Keeps (initialize host written d raw)
  unfolding initialize
  Keeps-initialize raw = search (keeps_rules, resolving, Keeps-git_diagnostics) depth 10

  Keeps-handle_with :
      (run_search : Text → Serve HandlerResult)
      → ((params : Text) → Keeps (run_search params))
      → (r : Request) → Keeps (handle_with host written d run_search r)
  unfolding handle_with
  Keeps-handle_with run_search searching r =
      search
        (
          keeps_rules,
          searching,
          Keeps-initialize,
          Keeps-discover_repository host resolving,
          Keeps-list_refs host resolving,
          Keeps-blame_lines host resolving,
          Keeps-file_history host resolving,
          Keeps-revision_content host resolving,
          Keeps-diff_file host resolving,
        )
        depth 20 fits 4000

  -- A request for something else does not look at what searches.
  handle_with-eq :
      (run_search other : Text → Serve HandlerResult) (r : Request)
      → text_eq r.method (lit "search.run") ≡ false
      → handle_with host written d run_search r ≡ handle_with host written d other r
  unfolding handle_with
  handle_with-eq run_search other r e = rw e refl

  no_search : Text → Serve HandlerResult
  no_search params = settle (unknown_method host written d params)

  Keeps-no_search : (params : Text) → Keeps (no_search params)
  unfolding no_search
  Keeps-no_search params = search keeps_rules depth 3

  -- Whatever a request other than `search.run` asks for and whatever Git answers, the helper runs no
  -- Git command but rev-parse, for-each-ref, ls-files, blame, diff-tree, rev-list, cat-file and
  -- --version, with any arguments, `log` without an option that names a file for the output, `remote`
  -- and `remote get-url --all` with a name, and `symbolic-ref --quiet` with `HEAD` or with `--short
  -- HEAD`; and each with the environment that forbids fetching, prompting and optional locks, unless
  -- it is exactly `rev-parse --show-toplevel`, `rev-parse --git-common-dir` or `--version`. What the
  -- request finds already run and the resolution of Git must do so too.
  pub handle-IsReading :
      (rx : Regexp) (interrupted : ℕ → Option Failure) (r : Request)
      → text_eq r.method (lit "search.run") ≡ false
      → (log : List Event) → All IsReading log
      → All IsReading (handle host written d rx interrupted r log).1
  unfolding handle
  handle-IsReading rx interrupted r e log h =
      subst (λ m. All IsReading (m log).1)
        (sym (handle_with-eq (handle_search host written d rx interrupted r.id) no_search r e))
        (unfold Keeps in Keeps-handle_with no_search Keeps-no_search r log h)
