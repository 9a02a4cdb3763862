-- ===== src/Desktop/Operations/Tracked.antt =====
-- internal/desktop/operations.go: no context is lost. Each one that was handed out is cancelled,
-- or a switch of the repository and `CancelOperations` will cancel it.
use gitgit.Prelude.{
  ℕ, suc, ◌^◌, ◌<◌, ◌≡◌, refl, sym, ap, ◌∙◌, inl, inr, Bool, true, false, Option, some, ◌∷◌, ◌++◌,
  ◌==◌, ==_iff, if◌then◌else◌, Bool-cases, arith,
}
use gitgit.Text.{Text}
use gitgit.Desktop.Operations.{
  operation, Service, incremented, previous_id, begin_operation, reserve_repository_switch, active,
  begin_reserved_switch, accepted_switch, refused_switch, complete_repository_switch,
  fail_repository_switch, cancel_operations,
}
use gitgit.Desktop.Operations.Runs.{
  member, Found, is_cancelled, is_active, is_search, Run, started, switched, Reaches, start,
  by_begin, by_finish, by_reserve, by_switch, by_complete, by_fail, by_cancel, by_search,
  by_searched, by_cancel_search, incremented-small, All-weaken,
}
use gitgit.Desktop.Operations.Kept.{
  OwnsOperation, OwnsSearch, IsKept, cancel-Found, begin_operation-IsKept, finish_operation-IsKept,
}
use gitgit.Desktop.Operations.Searched.{
  cancelled-Found, cancel_operations-IsKept, cancel_search-IsKept, begin_search-IsKept,
  finish_search-IsKept,
}

module _ (n : ℕ) (r : Run) (kept : IsKept n r) where
  switched-Found :
      (s : Service)
      → s.cancelled ≡ active r.service ++ r.service.cancelled
      → operation (suc r.service.next_id) s.operations ≡ some r.service.contexts
      → (c : ℕ) → c < suc r.service.contexts
      → Found s c
  switched-Found s e new c h = elim (Bool-cases (c == r.service.contexts)) [
    | inl same ↦
        is_active (suc r.service.next_id)
          (new ∙ ap some (sym ((==_iff c r.service.contexts).0 same)))
    | inr old ↦ cancelled-Found n r kept s c e (ground arith)
  ]

  stale-Found :
      (c : ℕ)
      → c < suc r.service.contexts
      → Found
          (record r.service {
            contexts = suc r.service.contexts;
            cancelled = r.service.contexts ∷ r.service.cancelled;
          })
          c
  unfolding member
  stale-Found c h = elim (Bool-cases (c == r.service.contexts)) [
    | inl same ↦ is_cancelled (ground arith)
    | inr old ↦ elim (kept.found c (ground arith)) [
      | is_cancelled k ↦ is_cancelled (ground arith)
      | is_active j k ↦ is_active j k
      | is_search k ↦ is_search k
    ]
  ]

  begin_switch-IsKept :
      (generation : ℕ)
      → incremented r.service.next_id ≡ suc r.service.next_id
      → incremented r.service.search_id ≡ suc r.service.search_id
      → IsKept (suc n) (switched r (begin_reserved_switch generation r.service))
  unfolding begin_reserved_switch operation
  begin_switch-IsKept generation e e' = accept (generation == r.service.generation)
    where
      accept :
          (b : Bool)
          → IsKept
              (suc n)
              (switched r (if b then accepted_switch r.service else refused_switch r.service))
      accept true = record {
        ids = ground (arith, kept.ids);
        search_ids = ground (arith, kept.search_ids);
        fresh = λ j h. ground arith;
        owned = (
          (ground arith, inr (ground arith)),
          All-weaken (OwnsOperation r.service) _ r.finishers
              (λ f own. (ground (arith, own.0), inl (ground (arith, own.0)))) kept.owned,
        );
        search_owned =
            All-weaken (OwnsSearch r.service) _ r.searches
              (λ f own. (ground (arith, own.0), λ k. inl refl)) kept.search_owned;
        found = switched-Found _ refl (ground arith);
      }
      accept false = record {
        ids = ground (arith, kept.ids);
        search_ids = ground (arith, kept.search_ids);
        fresh = kept.fresh;
        owned = kept.owned;
        search_owned = kept.search_owned;
        found = stale-Found;
      }

  -- A step that only touches the fields of the switch.
  unchanged-IsKept :
      (generation : ℕ) (switching : Bool) (repository : Option Text)
      → IsKept (suc n) (record r {
        service = record r.service {
          generation = generation;
          switching = switching;
          repository = repository;
        };
      })
  unchanged-IsKept generation switching repository = record {
    ids = ground (arith, kept.ids);
    search_ids = ground (arith, kept.search_ids);
    fresh = kept.fresh;
    owned = kept.owned;
    search_owned = kept.search_owned;
    found = λ c h. elim (kept.found c h) [
      | is_cancelled k ↦ is_cancelled k
      | is_active j k ↦ is_active j k
      | is_search k ↦ is_search k
    ];
  }

  abbrev completed : Text → Bool → Service × Bool
  completed root b =
      if b
      then (record r.service { repository = some root; switching = false }, true)
      else (r.service, false)

  complete_switch-IsKept :
      (generation : ℕ) (root : Text)
      → IsKept
          (suc n)
          (record r { service = (complete_repository_switch generation root r.service).0 })
  unfolding complete_repository_switch
  complete_switch-IsKept generation root = accept (generation == r.service.generation)
    where
      accept : (b : Bool) → IsKept (suc n) (record r { service = (completed root b).0 })
      accept true = unchanged-IsKept r.service.generation false (some root)
      accept false = unchanged-IsKept r.service.generation r.service.switching r.service.repository

  fail_switch-IsKept :
      (generation : ℕ)
      → IsKept (suc n) (record r { service = fail_repository_switch generation r.service })
  unfolding fail_repository_switch
  fail_switch-IsKept generation = accept (generation == r.service.generation)
    where
      accept :
          (b : Bool)
          → IsKept (suc n) (record r {
            service = if b then record r.service { switching = false } else r.service;
          })
      accept true = unchanged-IsKept r.service.generation false r.service.repository
      accept false = unchanged-IsKept r.service.generation r.service.switching r.service.repository

start-IsKept : IsKept 0 started
unfolding operation
start-IsKept = record {
  ids = omega arith;
  search_ids = omega arith;
  fresh = λ id h. refl;
  owned = tt;
  search_owned = tt;
  found = λ c h. ground arith;
}

pub next-small :
    (n : ℕ) (r : Run)
    → IsKept n r
    → suc n < 2 ^ 64
    → incremented r.service.next_id ≡ suc r.service.next_id
next-small n r kept h = incremented-small r.service.next_id (ground (arith, kept.ids))

search-small :
    (n : ℕ) (r : Run)
    → IsKept n r
    → suc n < 2 ^ 64
    → incremented r.service.search_id ≡ suc r.service.search_id
search-small n r kept h = incremented-small r.service.search_id (ground (arith, kept.search_ids))

pub reaches-IsKept : (n : ℕ) (r : Run) → Reaches n r → n < 2 ^ 64 → IsKept n r
unfolding begin_operation reserve_repository_switch
reaches-IsKept _ _ start h = start-IsKept
reaches-IsKept _ _ (by_begin n r key reached) h =
    let kept = reaches-IsKept n r reached (omega arith) in
    begin_operation-IsKept n r kept key _ (previous_id key r.service.latest)
      (incremented r.service.next_id) (next-small n r kept h) _ refl refl
reaches-IsKept _ _ (by_finish n r f at reached) h =
    finish_operation-IsKept n r (reaches-IsKept n r reached (omega arith)) f at
reaches-IsKept _ _ (by_reserve n r reached) h =
    unchanged-IsKept n r (reaches-IsKept n r reached (omega arith)) _ _ _
reaches-IsKept _ _ (by_switch n r generation reached) h =
    let kept = reaches-IsKept n r reached (omega arith) in
    begin_switch-IsKept n r kept generation (next-small n r kept h) (search-small n r kept h)
reaches-IsKept _ _ (by_complete n r generation root reached) h =
    complete_switch-IsKept n r (reaches-IsKept n r reached (omega arith)) generation root
reaches-IsKept _ _ (by_fail n r generation reached) h =
    fail_switch-IsKept n r (reaches-IsKept n r reached (omega arith)) generation
reaches-IsKept _ _ (by_cancel n r reached) h =
    let kept = reaches-IsKept n r reached (omega arith) in
    cancel_operations-IsKept n r kept (search-small n r kept h)
reaches-IsKept _ _ (by_search n r reached) h =
    let kept = reaches-IsKept n r reached (omega arith) in
    begin_search-IsKept n r kept (search-small n r kept h)
reaches-IsKept _ _ (by_searched n r id c at reached) h =
    finish_search-IsKept n r (reaches-IsKept n r reached (omega arith)) id c at
reaches-IsKept _ _ (by_cancel_search n r reached) h =
    let kept = reaches-IsKept n r reached (omega arith) in
    cancel_search-IsKept n r kept (search-small n r kept h)

-- In every run of fewer than 2^64 steps, with the calls and the handed-out functions in any order,
-- a repository switch that is begun for the current generation cancels every context that was
-- handed out before it, and so does CancelOperations.
pub switch-cancels_all :
    (n : ℕ) (r : Run) (c : ℕ)
    → Reaches n r
    → n < 2 ^ 64
    → c < r.service.contexts
    → (member c ((begin_reserved_switch r.service.generation r.service).0).cancelled ≡ true)
      × (member c (cancel_operations r.service).cancelled ≡ true)
unfolding begin_reserved_switch cancel_operations
switch-cancels_all n r c reached h made =
    let all = cancel-Found r.service c ((reaches-IsKept n r reached h).found c made) in
    (ground (arith, all), all)
