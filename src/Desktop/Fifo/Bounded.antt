-- ===== src/Desktop/Fifo/Bounded.antt =====
-- The invariant of a bounded map of internal/desktop/cache.go, what it keeps and what it may drop.
use gitgit.Prelude.{
  ℕ, ◌≤◌, ◌<◌, ◌≡◌, ◌≢◌, refl, ◌∙◌, inl, inr, Bool, true, false, Option, none, some, List, [], ◌∷◌,
  ◌++◌, arith, leb, length, Bool-cases, Option-cases, if◌then◌else◌,
}
use gitgit.Text.{Text, text_eq, text_eq_iff, contains}
use gitgit.Assoc.{
  Assoc, get, put, delete, get-put, get-delete, NoDuplicates, contains-append, contains-last,
  NoDuplicates-append,
}
use gitgit.Desktop.Fifo.{Fifo, empty, trim_loop, key_list, store, remember, cached_from, cached}

abbrev pub is_some {ℓ} : {A : Type ℓ} → Option A → Bool
is_some none = false
is_some (some _) = true

-- The list holds each key of the map once.
abbrev pub Indexes {ℓ} : {V : Type ℓ} → List Text → Assoc V → Type 0
Indexes keys values = NoDuplicates keys × ((k : Text) → contains keys k ≡ is_some (get k values))

pub record IsBounded {ℓ} {V : Type ℓ} (maximum : ℕ) (c : Fifo V) : Type 0 where
  pub within : length c.keys ≤ maximum
  pub indexes : Indexes c.keys c.values

module _ {ℓ} {V : Type ℓ} where
  pub empty-IsBounded : (maximum : ℕ) → IsBounded maximum (empty {V = V})
  unfolding get contains
  empty-IsBounded maximum = record { within = omega arith; indexes = (tt, λ k. refl) }

  pub delete-Indexes :
      (k : Text) (keys : List Text) (values : Assoc V)
      → Indexes (k ∷ keys) values
      → Indexes keys (delete k values)
  unfolding contains
  delete-Indexes k keys values h =
      (h.0.1, λ j. ground (arith, h.0.0, h.1 j, get-delete k j values, text_eq_iff k j))

  trim_loop-IsBounded :
      (maximum : ℕ) (keys : List Text) (values : Assoc V)
      → Indexes keys values
      → IsBounded maximum (trim_loop maximum values keys)
  unfolding trim_loop
  trim_loop-IsBounded maximum [] values h = record { within = omega arith; indexes = h }
  trim_loop-IsBounded maximum (k ∷ keys) values h =
      choose (leb (length (k ∷ keys)) maximum) refl
        (trim_loop-IsBounded maximum keys (delete k values) (delete-Indexes k keys values h))
    where
      choose :
          (b : Bool)
          → leb (length (k ∷ keys)) maximum ≡ b
          → IsBounded maximum (trim_loop maximum (delete k values) keys)
          → IsBounded maximum (
              if b
              then record { values = values; keys = k ∷ keys }
              else trim_loop maximum (delete k values) keys)
      choose true e rest = record { within = ground arith; indexes = h }
      choose false e rest = rest

  -- A trim only drops: what is left in the map stood there before.
  trim_loop-keeps :
      (maximum : ℕ) (keys : List Text) (values : Assoc V) (j : Text) {w : V}
      → get j (trim_loop maximum values keys).values ≡ some w
      → get j values ≡ some w
  unfolding trim_loop
  trim_loop-keeps maximum [] values j h = h
  trim_loop-keeps maximum (k ∷ keys) values j h =
      elim (Bool-cases (leb (length (k ∷ keys)) maximum)) [
        | inl e ↦ rw e at h
        | inr e ↦
            let deleted = trim_loop-keeps maximum keys (delete k values) j (rw e at h) in
            ground (arith, get-delete k j values)
      ]

  -- The newest key survives a trim to one key or more.
  trim_loop-newest :
      (maximum : ℕ) (keys : List Text) (k : Text) (values : Assoc V)
      → 0 < maximum
      → NoDuplicates (keys ++ k ∷ [])
      → get k (trim_loop maximum values (keys ++ k ∷ [])).values ≡ get k values
  unfolding trim_loop
  trim_loop-newest maximum [] k values h d = elim (Bool-cases (leb 1 maximum)) [
    | inl e ↦ rw e
    | inr e ↦ absurd (ground arith)
  ]
  trim_loop-newest maximum (i ∷ keys) k values h d =
      let other : text_eq i k ≡ false =
        ground (arith, contains-last keys k, d.0, text_eq_iff i k) in
      let rest = trim_loop-newest maximum keys k (delete i values) h d.1 in
      elim (Bool-cases (leb (length (i ∷ (keys ++ k ∷ []))) maximum)) [
        | inl e ↦ rw e
        | inr e ↦ rw e (rest ∙ get-delete i k values ∙ rw other)
      ]

  -- With no key too many nothing is dropped.
  trim_loop-fits :
      (maximum : ℕ) (keys : List Text) (values : Assoc V)
      → length keys ≤ maximum
      → trim_loop maximum values keys ≡ record { values = values; keys = keys }
  unfolding trim_loop
  trim_loop-fits maximum [] values h = refl
  trim_loop-fits maximum (k ∷ keys) values h =
      let fits : leb (length (k ∷ keys)) maximum ≡ true = ground arith in rw fits

  pub put-Indexes-fresh :
      (keys : List Text) (k : Text) (v : V) (values : Assoc V)
      → get k values ≡ none
      → Indexes keys values
      → Indexes (keys ++ k ∷ []) (put k v values)
  put-Indexes-fresh keys k v values e h = (
    NoDuplicates-append keys k (ground (arith, h.1 k)) h.0,
    λ j. ground (arith, contains-append keys k j, get-put k j v values, h.1 j),
  )

  pub put-Indexes-again :
      (keys : List Text) (k : Text) (v w : V) (values : Assoc V)
      → get k values ≡ some w
      → Indexes keys values
      → Indexes keys (put k v values)
  put-Indexes-again keys k v w values e h =
      (h.0, λ j. ground (arith, get-put k j v values, h.1 j, text_eq_iff k j))

  module _ (maximum : ℕ) (key : Text) (value : V) (c : Fifo V) (h : IsBounded maximum c) where
    pub store-IsBounded : IsBounded maximum (store maximum key value c)
    unfolding store
    store-IsBounded = elim (Option-cases (get key c.values)) [
      | inl e ↦ rw e (
          trim_loop-IsBounded maximum (c.keys ++ key ∷ []) (put key value c.values)
            (put-Indexes-fresh c.keys key value c.values e h.indexes))
      | inr (w, e) ↦ rw e (
          trim_loop-IsBounded maximum c.keys (put key value c.values)
            (put-Indexes-again c.keys key value w c.values e h.indexes))
    ]

    pub remember-IsBounded :
        get key c.values ≡ none → IsBounded maximum (remember maximum key value c)
    unfolding remember
    remember-IsBounded e =
        trim_loop-IsBounded maximum (c.keys ++ key ∷ []) (put key value c.values)
          (put-Indexes-fresh c.keys key value c.values e h.indexes)

    put_self : get key (put key value c.values) ≡ some value
    put_self = get-put key key value c.values ∙ ground (arith, text_eq_iff key key)

    -- What was just stored is there.
    pub get-store_self : 0 < maximum → get key (store maximum key value c).values ≡ some value
    unfolding store
    get-store_self positive = elim (Option-cases (get key c.values)) [
      | inl e ↦ rw e (
          trim_loop-newest maximum c.keys key (put key value c.values) positive
            (NoDuplicates-append c.keys key (ground (arith, h.indexes.1 key)) h.indexes.0)
          ∙ put_self)
      | inr (w, e) ↦
          rw (e, trim_loop-fits maximum c.keys (put key value c.values) h.within) put_self
    ]

    -- Another key has what it had, or nothing.
    pub get-store_other :
        (j : Text) {w : V}
        → key ≢ j
        → get j (store maximum key value c).values ≡ some w
        → get j c.values ≡ some w
    unfolding store
    get-store_other j ne e =
        let kept =
          trim_loop-keeps maximum (key_list (get key c.values) key c.keys) (put key value c.values)
            j e in
        ground (arith, kept, get-put key j value c.values, text_eq_iff key j)

  pub cached-IsBounded :
      (maximum : ℕ) (key : Text) (persisted : Option V) (c : Fifo V)
      → IsBounded maximum c
      → IsBounded maximum (cached maximum key persisted c).1
  unfolding cached
  cached-IsBounded maximum key persisted c h = go (get key c.values) refl persisted
    where
      go :
          (found : Option V)
          → get key c.values ≡ found
          → (p : Option V) → IsBounded maximum (cached_from found maximum key p c).1
      go (some w) e p = h
      go none e none = h
      go none e (some w) = remember-IsBounded maximum key w c h e

  -- A lookup answers from the map if it can, then from the persistent cache.
  pub cached_answer :
      (maximum : ℕ) (key : Text) (persisted : Option V) (c : Fifo V)
      → (cached maximum key persisted c).0
        ≡ (if is_some (get key c.values) then get key c.values else persisted)
  unfolding cached
  cached_answer maximum key persisted c = go (get key c.values) persisted
    where
      go :
          (found p : Option V)
          → (cached_from found maximum key p c).0 ≡ (if is_some found then found else p)
      go (some w) p = refl
      go none none = refl
      go none (some w) = refl
