-- ===== src/Desktop/Cache/Calls.antt =====
-- Any sequence of calls of the cached… and store… methods of internal/desktop/cache.go.
use gitgit.Prelude.{ℕ, ◌≡◌, ◌≢◌, ◌∙◌, ap, Option, some, List, [], ◌∷◌, arith}
use gitgit.Text.{Text, text_eq_iff, text_eq_refl}
use gitgit.Assoc.{get}
use gitgit.Desktop.Fifo
use gitgit.Desktop.Fifo.{Fifo, store, cached}
use gitgit.Desktop.Fifo.Bounded.{
  empty-IsBounded, store-IsBounded, cached-IsBounded, get-store_self, cached_answer,
}
use gitgit.Desktop.Cache.{
  RepositoryCache, Caches, cache_for_repository, refresh_ref_cache, write_back, open_cache,
  store_history_scope, cached_history_scope, store_history, cached_history, store_detail,
  cached_detail, store_branches, cached_branches,
}
use gitgit.Desktop.Cache.Serving.{
  IsServing, cache_for_repository-Opened, open_cache-Opened, write_back-IsServing, get-write_back,
}

-- One call of a method of the cache.
pub data Call (Scope History Detail : Type 0) : Type 0 where
  scope_stored : Text → Text → Text → Scope → Call Scope History Detail
  scope_asked : Text → Text → Text → Option Scope → Call Scope History Detail
  history_stored : Text → Text → Text → History → Call Scope History Detail
  history_asked : Text → Text → Text → Option History → Call Scope History Detail
  detail_stored : Text → Text → Detail → Call Scope History Detail
  detail_asked : Text → Text → Option Detail → Call Scope History Detail
  branches_stored : Text → Text → Text → List Text → Call Scope History Detail
  branches_asked : Text → Text → Text → Option (List Text) → Call Scope History Detail

empty_answer {ℓ} :
    {V : Type ℓ} (maximum : ℕ) (key : Text) (persisted : Option V)
    → (cached maximum key persisted Fifo.empty).0 ≡ persisted
unfolding get
empty_answer maximum key persisted = cached_answer maximum key persisted Fifo.empty

module _ {Scope History Detail : Type 0} where
  abbrev pub after_call :
      Call Scope History Detail → Caches Scope History Detail → Caches Scope History Detail
  after_call (scope_stored root fingerprint key v) s = store_history_scope root fingerprint key v s
  after_call (scope_asked root fingerprint key p) s =
      (cached_history_scope root fingerprint key p s).1
  after_call (history_stored root fingerprint key v) s = store_history root fingerprint key v s
  after_call (history_asked root fingerprint key p) s = (cached_history root fingerprint key p s).1
  after_call (detail_stored root key v) s = store_detail root key v s
  after_call (detail_asked root key p) s = (cached_detail root key p s).1
  after_call (branches_stored root fingerprint oid v) s = store_branches root fingerprint oid v s
  after_call (branches_asked root fingerprint oid p) s =
      (cached_branches root fingerprint oid p s).1

  abbrev pub after_calls :
      List (Call Scope History Detail) → Caches Scope History Detail → Caches Scope History Detail
  after_calls [] s = s
  after_calls (c ∷ cs) s = after_calls cs (after_call c s)

  call-IsServing :
      (c : Call Scope History Detail) (s : Caches Scope History Detail)
      → IsServing s
      → IsServing (after_call c s)
  unfolding store_history_scope cached_history_scope store_history cached_history store_detail
      cached_detail store_branches cached_branches
  call-IsServing (scope_stored root fingerprint key v) s h =
      let o = open_cache-Opened root fingerprint s h in
      write_back-IsServing root _ o (record {
        scopes_kept = store-IsBounded _ key v _ o.kept.scopes_kept;
        pages_kept = o.kept.pages_kept;
        details_kept = o.kept.details_kept;
        branches_kept = o.kept.branches_kept;
      })
  call-IsServing (scope_asked root fingerprint key p) s h =
      let o = open_cache-Opened root fingerprint s h in
      write_back-IsServing root _ o (record {
        scopes_kept = cached-IsBounded _ key p _ o.kept.scopes_kept;
        pages_kept = o.kept.pages_kept;
        details_kept = o.kept.details_kept;
        branches_kept = o.kept.branches_kept;
      })
  call-IsServing (history_stored root fingerprint key v) s h =
      let o = open_cache-Opened root fingerprint s h in
      write_back-IsServing root _ o (record {
        scopes_kept = o.kept.scopes_kept;
        pages_kept = store-IsBounded _ key v _ o.kept.pages_kept;
        details_kept = o.kept.details_kept;
        branches_kept = o.kept.branches_kept;
      })
  call-IsServing (history_asked root fingerprint key p) s h =
      let o = open_cache-Opened root fingerprint s h in
      write_back-IsServing root _ o (record {
        scopes_kept = o.kept.scopes_kept;
        pages_kept = cached-IsBounded _ key p _ o.kept.pages_kept;
        details_kept = o.kept.details_kept;
        branches_kept = o.kept.branches_kept;
      })
  call-IsServing (detail_stored root key v) s h =
      let o = cache_for_repository-Opened root s h in
      write_back-IsServing root _ o (record {
        scopes_kept = o.kept.scopes_kept;
        pages_kept = o.kept.pages_kept;
        details_kept = store-IsBounded _ key v _ o.kept.details_kept;
        branches_kept = o.kept.branches_kept;
      })
  call-IsServing (detail_asked root key p) s h =
      let o = cache_for_repository-Opened root s h in
      write_back-IsServing root _ o (record {
        scopes_kept = o.kept.scopes_kept;
        pages_kept = o.kept.pages_kept;
        details_kept = cached-IsBounded _ key p _ o.kept.details_kept;
        branches_kept = o.kept.branches_kept;
      })
  call-IsServing (branches_stored root fingerprint oid v) s h =
      let o = open_cache-Opened root fingerprint s h in
      write_back-IsServing root _ o (record {
        scopes_kept = o.kept.scopes_kept;
        pages_kept = o.kept.pages_kept;
        details_kept = o.kept.details_kept;
        branches_kept = store-IsBounded _ oid v _ o.kept.branches_kept;
      })
  call-IsServing (branches_asked root fingerprint oid p) s h =
      let o = open_cache-Opened root fingerprint s h in
      write_back-IsServing root _ o (record {
        scopes_kept = o.kept.scopes_kept;
        pages_kept = o.kept.pages_kept;
        details_kept = o.kept.details_kept;
        branches_kept = cached-IsBounded _ oid p _ o.kept.branches_kept;
      })

  -- From empty caches, whatever is stored and asked for, at most eight repositories are kept,
  -- each map is within its limit, and each is indexed by its list of keys, which holds no key
  -- twice.
  pub after_calls-IsServing :
      (calls : List (Call Scope History Detail)) → IsServing (after_calls calls Fifo.empty)
  after_calls-IsServing calls = go calls Fifo.empty start
    where
      start : IsServing {Scope = Scope} {History = History} {Detail = Detail} Fifo.empty
      start = record { repositories_kept = empty-IsBounded _; each_kept = tt }

      go :
          (cs : List (Call Scope History Detail)) (s : Caches Scope History Detail)
          → IsServing s
          → IsServing (after_calls cs s)
      go [] s h = h
      go (c ∷ cs) s h = go cs (after_call c s) (call-IsServing c s h)

  opened_again :
      (root fingerprint : Text) (s : Caches Scope History Detail)
      (c : RepositoryCache Scope History Detail)
      → get root s.values ≡ some c
      → c.fingerprint ≡ fingerprint
      → open_cache root fingerprint s ≡ (c, s)
  unfolding open_cache cache_for_repository refresh_ref_cache
  opened_again root fingerprint s c e f = rw e (rw f (rw text_eq_refl))

  refresh-fingerprint :
      (fingerprint : Text) (c : RepositoryCache Scope History Detail)
      → (refresh_ref_cache fingerprint c).fingerprint ≡ fingerprint
  unfolding refresh_ref_cache
  refresh-fingerprint fingerprint c = ground (arith, text_eq_iff c.fingerprint fingerprint)

  open_cache-fingerprint :
      (root fingerprint : Text) (s : Caches Scope History Detail)
      → (open_cache root fingerprint s).0.fingerprint ≡ fingerprint
  unfolding open_cache
  open_cache-fingerprint root fingerprint s = refresh-fingerprint fingerprint _

  -- In caches that are well kept, a page of history that was stored is the answer to the next
  -- question for its key under the same refs, whatever the persistent cache holds.
  pub cached_history-store_history :
      (root fingerprint key : Text) (response : History) (persisted : Option History)
      (s : Caches Scope History Detail)
      → IsServing s
      → (cached_history root fingerprint key persisted
          (store_history root fingerprint key response s)).0
        ≡ some response
  unfolding cached_history store_history
  cached_history-store_history root fingerprint key response persisted s h =
      let o = open_cache-Opened root fingerprint s h in
      let c = (open_cache root fingerprint s).0 in
      let d : RepositoryCache Scope History Detail = record c {
        history = store 16 key response c.history;
      } in
      let stored = write_back root d (open_cache root fingerprint s).1 in
      let again =
        opened_again root fingerprint stored d
          (get-write_back root d (open_cache root fingerprint s).1)
          (open_cache-fingerprint root fingerprint s) in
      let hit = get-store_self 16 key response c.history o.kept.pages_kept (omega arith) in
      ap
        (λ (t : RepositoryCache Scope History Detail × Caches Scope History Detail).
          (cached 16 key persisted t.0.history).0)
        again
      ∙ cached_answer 16 key persisted d.history
      ∙ rw hit

  stale_opened :
      (root fingerprint : Text) (s : Caches Scope History Detail)
      (c : RepositoryCache Scope History Detail)
      → get root s.values ≡ some c
      → c.fingerprint ≢ fingerprint
      → open_cache root fingerprint s ≡ (
        record c {
          fingerprint = fingerprint;
          history_scopes = Fifo.empty;
          history = Fifo.empty;
          branches = Fifo.empty;
        },
        s,
      )
  unfolding open_cache cache_for_repository refresh_ref_cache
  stale_opened root fingerprint s c e f =
      rw e (ground (arith, text_eq_iff c.fingerprint fingerprint))

  -- After the refs of a repository have changed, no page of history, no scope and no list of
  -- branches is answered from what was kept under the old refs: only the persistent cache
  -- answers. The details of commits do not depend on refs, and are still answered as before.
  pub cached_after_refs_change :
      (root fingerprint key : Text) (s : Caches Scope History Detail)
      (c : RepositoryCache Scope History Detail) (page : Option History) (scope : Option Scope)
      (branches : Option (List Text)) (detail : Option Detail)
      → get root s.values ≡ some c
      → c.fingerprint ≢ fingerprint
      → ((cached_history root fingerprint key page s).0 ≡ page)
        × ((cached_history_scope root fingerprint key scope s).0 ≡ scope)
        × ((cached_branches root fingerprint key branches s).0 ≡ branches)
        × ((cached_detail root key detail (cached_history root fingerprint key page s).1).0
            ≡ (cached_detail root key detail s).0)
  unfolding cached_history cached_history_scope cached_branches cached_detail
  cached_after_refs_change root fingerprint key s c page scope branches detail e f =
      let opened = stale_opened root fingerprint s c e f in
      (
        rw opened (empty_answer 16 key page),
        rw opened (empty_answer 32 key scope),
        rw opened (empty_answer 1000 key branches),
        rw opened (unfold cache_for_repository in rw (get-write_back root _ s, e)),
      )
