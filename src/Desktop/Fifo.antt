-- ===== src/Desktop/Fifo.antt =====
-- internal/desktop/cache.go: one bounded map of a repository cache, a map with the list of its
-- keys, oldest first; `trimCache`, and the two ways in which the cached… and store… methods write
-- to it.
pub mod Bounded
use gitgit.Prelude.{
  ℕ, Bool, true, false, Option, none, some, List, [], ◌∷◌, ◌++◌, leb, length, if◌then◌else◌,
}
use gitgit.Text.{Text}
use gitgit.Assoc.{Assoc, get, put, delete}

pub record Fifo {ℓ} (V : Type ℓ) : Type ℓ where
  pub values : Assoc V
  pub keys : List Text

module _ {ℓ} {V : Type ℓ} where
  abbrev pub empty : Fifo V
  empty = record { values = []; keys = [] }

  -- `trimCache`.
  pub trim_loop : ℕ → Assoc V → List Text → Fifo V
  trim_loop maximum values [] = record { values = values; keys = [] }
  trim_loop maximum values (oldest ∷ keys) =
      let rest = trim_loop maximum (delete oldest values) keys in
      if leb (length (oldest ∷ keys)) maximum
      then record { values = values; keys = oldest ∷ keys }
      else rest

  pub trim_cache : ℕ → Fifo V → Fifo V
  unfolding trim_loop
  trim_cache maximum c = trim_loop maximum c.values c.keys

  -- The body of a store… method: the key is appended unless it is there.
  abbrev key_list : Option V → Text → List Text → List Text
  key_list none key keys = keys ++ key ∷ []
  key_list (some _) key keys = keys

  unfoldable pub store : ℕ → Text → V → Fifo V → Fifo V
  unfolding trim_cache
  store maximum key value c =
      trim_cache maximum
        (record { values = put key value c.values; keys = key_list (get key c.values) key c.keys })

  -- What a cached… method does with a value that the persistent cache has found.
  pub remember : ℕ → Text → V → Fifo V → Fifo V
  unfolding trim_cache
  remember maximum key value c =
      trim_cache maximum (record { values = put key value c.values; keys = c.keys ++ key ∷ [] })

  -- The body of a cached… method; `persisted` is what the persistent cache has, and none where
  -- there is no such cache, or it fails.
  cached_from : Option V → ℕ → Text → Option V → Fifo V → Option V × Fifo V
  cached_from (some value) maximum key persisted c = (some value, c)
  cached_from none maximum key (some value) c = (some value, remember maximum key value c)
  cached_from none maximum key none c = (none, c)

  unfoldable pub cached : ℕ → Text → Option V → Fifo V → Option V × Fifo V
  unfolding cached_from remember
  cached maximum key persisted c = cached_from (get key c.values) maximum key persisted c
