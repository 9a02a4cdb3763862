-- ===== src/Helper/SearchRun/Paged.antt =====
-- internal/vscodehelper/search_diff.go: how many results `search.run` answers.
use mathlib.Core.Path.{subst}
use gitgit.Prelude.{ℕ, ◌≤◌, ◌≡◌, refl, ap, Option, some, List, [], ◌∷◌, length, arith}
use gitgit.Apperr.{Failure, Result, ok, err}
use gitgit.Git.{Event, Exec}
use gitgit.Search.Matching.{SearchMatch}
use gitgit.Search.Patterns.{Regexp}
use gitgit.Search.Run.{SearchProgress}
use gitgit.Search.Run.Ends.{Ends}
use gitgit.Search.Run.Bounded.{search_with_progress-IsBoundedBy}
use gitgit.Helper.Rpc.{RpcError, answered, settled, Host, or_refuse}
use gitgit.Helper.Rpc.Inversion.{>>=-eq-answered, answer-eq, settle-eq}
use gitgit.Helper.SearchRun.{SearchRunParams}
use gitgit.Helper.SearchRun.Accepted.{search_request-IsBounded}
use gitgit.Helper.SearchRun.Results.{SearchRunResult, search_results, search_run_result, search_run}

length-search_results : (ms : List SearchMatch) → length (search_results ms) ≡ length ms
unfolding search_results
length-search_results [] = refl
length-search_results (m ∷ ms) = omega (arith, length-search_results ms)

or_refuse-eq {ℓ} :
    {A : Type ℓ} (m : Exec A) (on_error : List Event → Failure → RpcError) (log : List Event)
    {a : A}
    → (or_refuse m on_error log).0 ≡ answered a
    → (m log).0 ≡ ok a
unfolding or_refuse
or_refuse-eq {A = A} m on_error log {a} h = known (m log).0 (m log).1 h
  where
    known :
        (r : Result A) (log' : List Event) → (settled on_error (r, log')).0 ≡ answered a → r ≡ ok a
    known (ok x) log' e = cc
    known (err failure) log' e = cc

-- The number of results is that which is told, and at most 250.
abbrev pub HasFewResults : SearchRunResult → Type 0
HasFewResults r = (r.count ≡ length r.results) × (length r.results ≤ 250)

module _ (host : Host) (rx : Regexp) (interrupted : ℕ → Option Failure) where
  -- A search that is answered has at most 250 results, whatever limit was asked for and whatever Git
  -- answers, and tells how many they are.
  pub search_run-HasFewResults :
      (p : SearchRunParams) (log : List Event) {r : SearchRunResult}
      {reported : List SearchProgress}
      → (search_run host rx interrupted (some p) log).0 ≡ answered (r, reported)
      → HasFewResults r
  unfolding search_run Ends
  search_run-HasFewResults p log {r} {reported} h =
      let (request, made, after_request) = >>=-eq-answered _ _ _ h in
      let (repository, _, after_open) = >>=-eq-answered _ _ _ after_request in
      let (found, ran, after_search) = >>=-eq-answered _ _ _ after_open in
      let (_, _, last) = >>=-eq-answered _ _ _ after_search in
      let bounded = search_request-IsBounded p (settle-eq _ _ made) in
      let (n, limited, _, few) = bounded.limit in
      let page =
        search_with_progress-IsBoundedBy rx host.git repository.root interrupted request.options _
          found (or_refuse-eq _ _ _ ran) in
      subst HasFewResults (ap (λ a. a.0) (answer-eq _ _ last)) (
        unfold search_run_result in
        (refl, omega (arith, length-search_results found.0.results, page.1 n limited, few)))
