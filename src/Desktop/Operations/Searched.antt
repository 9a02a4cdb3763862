-- ===== src/Desktop/Operations/Searched.antt =====
-- internal/desktop/operations.go and internal/desktop/service.go: where the contexts are after the
-- steps of a search, and after `CancelOperations`.
use gitgit.Prelude.{
  ℕ, suc, ◌<◌, ◌≡◌, refl, sym, ap, ◌∙◌, inl, inr, some, ◌++◌, ◌==◌, ==_iff, Bool-cases, arith,
}
use gitgit.Desktop.Operations.{
  operation, option_list, Service, incremented, active, cancel_operations, begin_search,
  finish_search, cancel_search,
}
use gitgit.Desktop.Operations.Runs.{
  member, member-left, member-right, member-option, Found, is_cancelled, is_active, is_search, Run,
  Listed, searching, All-listed, All-weaken,
}
use gitgit.Desktop.Operations.Kept.{OwnsOperation, OwnsSearch, IsKept, cancel-Found}

module _ (n : ℕ) (r : Run) (kept : IsKept n r) where
  -- After a step that cancels what is active, and makes the contexts that `news` speaks of.
  pub cancelled-Found :
      (s : Service) (c : ℕ)
      → s.cancelled ≡ active r.service ++ r.service.cancelled
      → c < r.service.contexts
      → Found s c
  cancelled-Found s c e h =
      is_cancelled (ap (member c) e ∙ cancel-Found r.service c (kept.found c h))

  pub cancel_operations-IsKept :
      incremented r.service.search_id ≡ suc r.service.search_id
      → IsKept (suc n) (record r { service = cancel_operations r.service })
  unfolding cancel_operations operation
  cancel_operations-IsKept e = record {
    ids = ground (arith, kept.ids);
    search_ids = ground (arith, kept.search_ids);
    fresh = λ id k. refl;
    owned =
        All-weaken (OwnsOperation r.service) (OwnsOperation (cancel_operations r.service))
          r.finishers (λ f own. (own.0, inl refl)) kept.owned;
    search_owned =
        All-weaken (OwnsSearch r.service) (OwnsSearch (cancel_operations r.service)) r.searches
          (λ f own. (ground (arith, own.0), λ k. inl refl)) kept.search_owned;
    found = λ c k. cancelled-Found (cancel_operations r.service) c refl k;
  }

  cancel_search-Found : (c : ℕ) → Found r.service c → Found (cancel_search r.service) c
  unfolding cancel_search
  cancel_search-Found c (is_cancelled h) =
      is_cancelled (member-right c (option_list r.service.search) r.service.cancelled h)
  cancel_search-Found c (is_active j h) = is_active j h
  cancel_search-Found c (is_search h) = is_cancelled (
      member-left c (option_list r.service.search) r.service.cancelled
        (member-option c r.service.search h))

  pub cancel_search-IsKept :
      incremented r.service.search_id ≡ suc r.service.search_id
      → IsKept (suc n) (record r { service = cancel_search r.service })
  unfolding cancel_search
  cancel_search-IsKept e = record {
    ids = ground (arith, kept.ids);
    search_ids = ground (arith, kept.search_ids);
    fresh = kept.fresh;
    owned = kept.owned;
    search_owned =
        All-weaken (OwnsSearch r.service) (OwnsSearch (cancel_search r.service)) r.searches
          (λ f own. (ground (arith, own.0), λ k. inl refl)) kept.search_owned;
    found = λ c k. cancel_search-Found c (kept.found c k);
  }

  begin_search-Found : (c : ℕ) → c < suc r.service.contexts → Found (begin_search r.service).0 c
  unfolding begin_search
  begin_search-Found c h = elim (Bool-cases (c == r.service.contexts)) [
    | inl new ↦ is_search (ap some (sym ((==_iff c r.service.contexts).0 new)))
    | inr old ↦ stays (kept.found c (ground arith))
  ]
    where
      stays : Found r.service c → Found (begin_search r.service).0 c
      stays (is_cancelled k) =
          is_cancelled (member-right c (option_list r.service.search) r.service.cancelled k)
      stays (is_active j k) = is_active j k
      stays (is_search k) = is_cancelled (
          member-left c (option_list r.service.search) r.service.cancelled
            (member-option c r.service.search k))

  pub begin_search-IsKept :
      incremented r.service.search_id ≡ suc r.service.search_id
      → IsKept (suc n) (searching r (begin_search r.service))
  unfolding begin_search
  begin_search-IsKept e = record {
    ids = ground (arith, kept.ids);
    search_ids = ground (arith, kept.search_ids);
    fresh = kept.fresh;
    owned = kept.owned;
    search_owned = (
      (ground arith, λ k. inr refl),
      All-weaken (OwnsSearch r.service) (OwnsSearch (begin_search r.service).0) r.searches
          (λ f own. (ground (arith, own.0), λ k. ground (arith, own.0, k, e))) kept.search_owned,
    );
    found = begin_search-Found;
  }

  finish_search-Found :
      (id d c : ℕ)
      → OwnsSearch r.service (id, d)
      → Found r.service c
      → Found (finish_search id d r.service) c
  unfolding finish_search member
  finish_search-Found id d c own (is_cancelled h) = is_cancelled (ground arith)
  finish_search-Found id d c own (is_active j h) = is_active j h
  finish_search-Found id d c own (is_search h) = elim (Bool-cases (r.service.search_id == id)) [
    | inl same ↦ is_cancelled (ground (arith, own.1 (ground arith)))
    | inr other ↦ is_search (ground arith)
  ]

  finish_search-owned :
      (id d : ℕ) (g : ℕ × ℕ) → OwnsSearch r.service g → OwnsSearch (finish_search id d r.service) g
  unfolding finish_search
  finish_search-owned id d (j, c) (bound, held) = elim (Bool-cases (r.service.search_id == id)) [
    | inl same ↦ (bound, λ k. inl (ground arith))
    | inr other ↦
        (bound, λ k. elim (held k) [ inl h ↦ inl (ground arith) | inr h ↦ inr (ground arith) ])
  ]

  pub finish_search-IsKept :
      (id d : ℕ)
      → Listed (id, d) r.searches
      → IsKept (suc n) (record r { service = finish_search id d r.service })
  unfolding finish_search
  finish_search-IsKept id d at = record {
    ids = ground (arith, kept.ids);
    search_ids = ground (arith, kept.search_ids);
    fresh = kept.fresh;
    owned = kept.owned;
    search_owned =
        All-weaken (OwnsSearch r.service) (OwnsSearch (finish_search id d r.service)) r.searches
          (finish_search-owned id d) kept.search_owned;
    found = λ c k.
        finish_search-Found id d c
          (All-listed (OwnsSearch r.service) (id, d) r.searches at kept.search_owned)
          (kept.found c k);
  }
