-- ===== src/Desktop/Cache/Serving.antt =====
-- The caches of internal/desktop/cache.go stay bounded, answer with what was stored last, and
-- never with what was stored under other refs.
use gitgit.Prelude.{
  ◌<◌, ◌≡◌, refl, ◌∙◌, ap, Bool, true, false, Option, none, some, List, [], ◌∷◌, arith, leb, length,
  length-append, if◌then◌else◌,
}
use gitgit.Text.{Text, text_eq, text_eq_iff}
use gitgit.Assoc.{
  get, get-put, get-delete, AllValues, AllValues-put, AllValues-delete, AllValues-get,
}
use gitgit.Desktop.Fifo
use gitgit.Desktop.Fifo.{Fifo, store, cached}
use gitgit.Desktop.Fifo.Bounded.{
  IsBounded, Indexes, empty-IsBounded, delete-Indexes, put-Indexes-fresh, put-Indexes-again,
}
use gitgit.Desktop.Cache.{
  RepositoryCache, Caches, new_repository_cache, drop_oldest, make_room, add_cache, found_or_new,
  cache_for_repository, refresh_ref_cache, write_back, open_cache, maximum_cached_repositories,
  maximum_cached_history_scopes, maximum_cached_history_pages, maximum_cached_details,
  maximum_cached_branches,
}

module _ {Scope History Detail : Type 0} where
  -- Every map of a repository cache is within its limit and indexed by its list of keys.
  pub record IsKept (c : RepositoryCache Scope History Detail) : Type 0 where
    pub scopes_kept : IsBounded maximum_cached_history_scopes c.history_scopes
    pub pages_kept : IsBounded maximum_cached_history_pages c.history
    pub details_kept : IsBounded maximum_cached_details c.details
    pub branches_kept : IsBounded maximum_cached_branches c.branches

  -- So is the map of repositories, and each repository's cache.
  pub record IsServing (s : Caches Scope History Detail) : Type 0 where
    pub repositories_kept : IsBounded maximum_cached_repositories s
    pub each_kept : AllValues IsKept s.values

  new-IsKept : IsKept new_repository_cache
  new-IsKept = record {
    scopes_kept = empty-IsBounded _;
    pages_kept = empty-IsBounded _;
    details_kept = empty-IsBounded _;
    branches_kept = empty-IsBounded _;
  }

  refresh-IsKept :
      (fingerprint : Text) (c : RepositoryCache Scope History Detail)
      → IsKept c
      → IsKept (refresh_ref_cache fingerprint c)
  unfolding refresh_ref_cache
  refresh-IsKept fingerprint c h = go (text_eq c.fingerprint fingerprint)
    where
      go :
          (same : Bool)
          → IsKept (
              if same then c else record c {
                fingerprint = fingerprint;
                history_scopes = Fifo.empty;
                history = Fifo.empty;
                branches = Fifo.empty;
              })
      go true = h
      go false = record {
        scopes_kept = empty-IsBounded _;
        pages_kept = empty-IsBounded _;
        details_kept = h.details_kept;
        branches_kept = empty-IsBounded _;
      }

  -- Room for one more repository.
  record HasRoom (s : Caches Scope History Detail) : Type 0 where
    fits : length s.keys < maximum_cached_repositories
    room_indexes : Indexes s.keys s.values
    room_kept : AllValues IsKept s.values

  drop_oldest-HasRoom :
      (keys : List Text) (s : Caches Scope History Detail)
      → s.keys ≡ keys
      → 0 < length keys
      → IsServing s
      → HasRoom (drop_oldest keys s)
  unfolding drop_oldest
  drop_oldest-HasRoom [] s e positive h = absurd (omega arith)
  drop_oldest-HasRoom (k ∷ keys) s e positive h = record {
    fits = omega (arith, ap length e, h.repositories_kept.within);
    room_indexes = delete-Indexes k keys s.values (rw e at h.repositories_kept.indexes);
    room_kept = AllValues-delete IsKept k s.values h.each_kept;
  }

  make_room-HasRoom : (s : Caches Scope History Detail) → IsServing s → HasRoom (make_room s)
  unfolding make_room
  make_room-HasRoom s h = go (leb maximum_cached_repositories (length s.keys)) refl
    where
      go :
          (full : Bool)
          → leb maximum_cached_repositories (length s.keys) ≡ full
          → HasRoom (if full then drop_oldest s.keys s else s)
      go true e = drop_oldest-HasRoom s.keys s refl (ground arith) h
      go false e = record {
        fits = ground arith;
        room_indexes = h.repositories_kept.indexes;
        room_kept = h.each_kept;
      }

  -- A repository's cache at hand, and in its place in the map.
  pub record Opened (root : Text) (c : RepositoryCache Scope History Detail)
      (s : Caches Scope History Detail) : Type 0 where
    pub serving : IsServing s
    pub present : (d : RepositoryCache Scope History Detail) × (get root s.values ≡ some d)
    pub kept : IsKept c

  make_room-none :
      (root : Text) (s : Caches Scope History Detail)
      → get root s.values ≡ none
      → get root (make_room s).values ≡ none
  unfolding make_room
  make_room-none root s e = go (leb maximum_cached_repositories (length s.keys)) s.keys
    where
      go :
          (full : Bool) (keys : List Text)
          → get root (if full then drop_oldest keys s else s).values ≡ none
      go false keys = e
      go true [] = unfold drop_oldest in e
      go true (k ∷ keys) = unfold drop_oldest in get-delete k root s.values ∙ ground (arith, e)

  add_cache-Opened :
      (root : Text) (s : Caches Scope History Detail)
      → get root s.values ≡ none
      → HasRoom s
      → Opened root new_repository_cache (add_cache root s)
  unfolding add_cache
  add_cache-Opened root s e h = record {
    serving = record {
      repositories_kept = record {
        within = omega (arith, length-append s.keys (root ∷ []), h.fits);
        indexes = put-Indexes-fresh s.keys root new_repository_cache s.values e h.room_indexes;
      };
      each_kept = AllValues-put IsKept root new_repository_cache s.values new-IsKept h.room_kept;
    };
    present = (
      new_repository_cache,
      get-put root root new_repository_cache s.values ∙ ground (arith, text_eq_iff root root),
    );
    kept = new-IsKept;
  }

  pub cache_for_repository-Opened :
      (root : Text) (s : Caches Scope History Detail)
      → IsServing s
      → Opened root (cache_for_repository root s).0 (cache_for_repository root s).1
  unfolding cache_for_repository
  cache_for_repository-Opened root s h = go (get root s.values) refl
    where
      go :
          (found : Option (RepositoryCache Scope History Detail))
          → get root s.values ≡ found
          → Opened root (found_or_new found root s).0 (found_or_new found root s).1
      go (some c) e = record {
        serving = h;
        present = (c, e);
        kept = AllValues-get IsKept root s.values h.each_kept e;
      }
      go none e =
          add_cache-Opened root (make_room s) (make_room-none root s e) (make_room-HasRoom s h)

  pub open_cache-Opened :
      (root fingerprint : Text) (s : Caches Scope History Detail)
      → IsServing s
      → Opened root (open_cache root fingerprint s).0 (open_cache root fingerprint s).1
  unfolding open_cache
  open_cache-Opened root fingerprint s h =
      let o = cache_for_repository-Opened root s h in
      record {
        serving = o.serving;
        present = o.present;
        kept = refresh-IsKept fingerprint (cache_for_repository root s).0 o.kept;
      }

  pub write_back-IsServing :
      (root : Text) {c : RepositoryCache Scope History Detail}
      (d : RepositoryCache Scope History Detail) {s : Caches Scope History Detail}
      → Opened root c s
      → IsKept d
      → IsServing (write_back root d s)
  unfolding write_back
  write_back-IsServing root d {s} o k = record {
    repositories_kept = record {
      within = o.serving.repositories_kept.within;
      indexes =
          put-Indexes-again s.keys root d o.present.0 s.values o.present.1
            o.serving.repositories_kept.indexes;
    };
    each_kept = AllValues-put IsKept root d s.values k o.serving.each_kept;
  }

  pub get-write_back :
      (root : Text) (d : RepositoryCache Scope History Detail) (s : Caches Scope History Detail)
      → get root (write_back root d s).values ≡ some d
  unfolding write_back
  get-write_back root d s = get-put root root d s.values ∙ ground (arith, text_eq_iff root root)
