-- ===== src/Desktop/Cache.antt =====
-- internal/desktop/cache.go: the caches of the desktop service, one for each of the repositories
-- used last, each with four bounded maps. All the methods hold one mutex, so each is one step.
-- The values that are cached are only copied, so their types are parameters; the copies that the
-- clone functions make are the values themselves. `persisted` is what the persistent cache of
-- internal/desktop/persistent_cache.go has for the key: none without such a cache, on a miss and
-- on an error. The write to that cache, whose result is dropped, is not modelled.
pub mod Serving
pub mod Calls
use gitgit.Prelude.{
  ℕ, Bool, true, false, Option, none, some, List, [], ◌∷◌, ◌++◌, leb, length, if◌then◌else◌,
}
use gitgit.Text.{Text, text_eq}
use gitgit.Assoc.{Assoc, get, put, delete}
use gitgit.Desktop.Fifo
use gitgit.Desktop.Fifo.{Fifo, store, cached}

abbrev pub maximum_cached_repositories : ℕ
maximum_cached_repositories = 8

abbrev pub maximum_cached_history_scopes : ℕ
maximum_cached_history_scopes = 32

abbrev pub maximum_cached_history_pages : ℕ
maximum_cached_history_pages = 16

abbrev pub maximum_cached_details : ℕ
maximum_cached_details = 128

abbrev pub maximum_cached_branches : ℕ
maximum_cached_branches = 1000

pub record RepositoryCache (Scope History Detail : Type 0) : Type 0 where
  pub fingerprint : Text
  pub history_scopes : Fifo Scope
  pub history : Fifo History
  pub details : Fifo Detail
  pub branches : Fifo (List Text)

-- `s.caches` and `s.cacheRoots`.
abbrev pub Caches : Type 0 → Type 0 → Type 0 → Type 0
Caches Scope History Detail = Fifo (RepositoryCache Scope History Detail)

module _ {Scope History Detail : Type 0} where
  -- `newRepositoryCache`.
  abbrev pub new_repository_cache : RepositoryCache Scope History Detail
  new_repository_cache = record {
    fingerprint = [];
    history_scopes = Fifo.empty;
    history = Fifo.empty;
    details = Fifo.empty;
    branches = Fifo.empty;
  }

  -- The oldest repository is dropped at the limit.
  drop_oldest : List Text → Caches Scope History Detail → Caches Scope History Detail
  drop_oldest [] s = s
  drop_oldest (oldest ∷ roots) s = record { values = delete oldest s.values; keys = roots }

  pub make_room : Caches Scope History Detail → Caches Scope History Detail
  unfolding drop_oldest
  make_room s = if leb maximum_cached_repositories (length s.keys) then drop_oldest s.keys s else s

  add_cache : Text → Caches Scope History Detail → Caches Scope History Detail
  add_cache root s = record {
    values = put root new_repository_cache s.values;
    keys = s.keys ++ root ∷ [];
  }

  abbrev found_or_new :
      Option (RepositoryCache Scope History Detail)
      → Text
      → Caches Scope History Detail
      → RepositoryCache Scope History Detail × Caches Scope History Detail
  found_or_new (some cache) root s = (cache, s)
  found_or_new none root s = (new_repository_cache, add_cache root (make_room s))

  -- `cacheForRepositoryLocked`.
  unfoldable pub cache_for_repository :
      Text
      → Caches Scope History Detail
      → RepositoryCache Scope History Detail × Caches Scope History Detail
  unfolding make_room add_cache
  cache_for_repository root s = found_or_new (get root s.values) root s

  -- `refreshRefCacheLocked`.
  unfoldable pub refresh_ref_cache :
      Text → RepositoryCache Scope History Detail → RepositoryCache Scope History Detail
  refresh_ref_cache fingerprint c = if text_eq c.fingerprint fingerprint then c else record c {
    fingerprint = fingerprint;
    history_scopes = Fifo.empty;
    history = Fifo.empty;
    branches = Fifo.empty;
  }

  -- The methods write through the pointer to the cache of the repository.
  unfoldable pub write_back :
      Text
      → RepositoryCache Scope History Detail
      → Caches Scope History Detail
      → Caches Scope History Detail
  write_back root c s = record s { values = put root c s.values }

  -- The cache that a method works on, with its maps of refs fresh.
  unfoldable pub open_cache :
      Text
      → Text
      → Caches Scope History Detail
      → RepositoryCache Scope History Detail × Caches Scope History Detail
  unfolding cache_for_repository refresh_ref_cache
  open_cache root fingerprint s =
      let (c, s') = cache_for_repository root s in (refresh_ref_cache fingerprint c, s')

  unfoldable pub store_history_scope :
      Text → Text → Text → Scope → Caches Scope History Detail → Caches Scope History Detail
  store_history_scope root fingerprint key value s =
      let (c, s') = open_cache root fingerprint s in
      write_back root
        (record c {
          history_scopes = store maximum_cached_history_scopes key value c.history_scopes;
        })
        s'

  unfoldable pub cached_history_scope :
      Text
      → Text
      → Text
      → Option Scope
      → Caches Scope History Detail
      → Option Scope × Caches Scope History Detail
  cached_history_scope root fingerprint key persisted s =
      let (c, s') = open_cache root fingerprint s in
      let (found, scopes) = cached maximum_cached_history_scopes key persisted c.history_scopes in
      (found, write_back root (record c { history_scopes = scopes }) s')

  unfoldable pub store_history :
      Text → Text → Text → History → Caches Scope History Detail → Caches Scope History Detail
  store_history root fingerprint key response s =
      let (c, s') = open_cache root fingerprint s in
      write_back root
        (record c { history = store maximum_cached_history_pages key response c.history }) s'

  unfoldable pub cached_history :
      Text
      → Text
      → Text
      → Option History
      → Caches Scope History Detail
      → Option History × Caches Scope History Detail
  cached_history root fingerprint key persisted s =
      let (c, s') = open_cache root fingerprint s in
      let (found, pages) = cached maximum_cached_history_pages key persisted c.history in
      (found, write_back root (record c { history = pages }) s')

  unfoldable pub store_detail :
      Text → Text → Detail → Caches Scope History Detail → Caches Scope History Detail
  store_detail root key detail s =
      let (c, s') = cache_for_repository root s in
      write_back root (record c { details = store maximum_cached_details key detail c.details }) s'

  unfoldable pub cached_detail :
      Text
      → Text
      → Option Detail
      → Caches Scope History Detail
      → Option Detail × Caches Scope History Detail
  cached_detail root key persisted s =
      let (c, s') = cache_for_repository root s in
      let (found, details) = cached maximum_cached_details key persisted c.details in
      (found, write_back root (record c { details = details }) s')

  unfoldable pub store_branches :
      Text → Text → Text → List Text → Caches Scope History Detail → Caches Scope History Detail
  store_branches root fingerprint oid branches s =
      let (c, s') = open_cache root fingerprint s in
      write_back root
        (record c { branches = store maximum_cached_branches oid branches c.branches }) s'

  unfoldable pub cached_branches :
      Text
      → Text
      → Text
      → Option (List Text)
      → Caches Scope History Detail
      → Option (List Text) × Caches Scope History Detail
  cached_branches root fingerprint oid persisted s =
      let (c, s') = open_cache root fingerprint s in
      let (found, branches) = cached maximum_cached_branches oid persisted c.branches in
      (found, write_back root (record c { branches = branches }) s')
