-- ===== src/Desktop/Operations/Latest/Reached.antt =====
-- internal/desktop/operations.go: in every run, an operation with a key is cancelled or is the last
-- one of its key.
use gitgit.Prelude.{
  ℕ, ◌^◌, ◌<◌, ◌≡◌, refl, ap, ◌∙◌, inl, inr, Bool, true, false, List, [], ◌∷◌, ◌++◌, ◌==◌,
  if◌then◌else◌, All, arith,
}
use gitgit.Text.{Text, is_empty}
use gitgit.Assoc.{get}
use gitgit.Desktop.Operations.{
  operation, handles, option_list, Service, Finisher, begin_operation, reserve_repository_switch,
  active, begin_reserved_switch, accepted_switch, refused_switch, complete_repository_switch,
  fail_repository_switch, cancel_operations, begin_search, finish_search, cancel_search,
}
use gitgit.Desktop.Operations.Runs.{
  member, member-left, member-right, operation-handles, Run, Listed, switched, searching, Reaches,
  start, by_begin, by_finish, by_reserve, by_switch, by_complete, by_fail, by_cancel, by_search,
  by_searched, by_cancel_search, All-listed, All-weaken,
}
use gitgit.Desktop.Operations.Kept.{OwnsOperation}
use gitgit.Desktop.Operations.Tracked.{next-small, reaches-IsKept}
use gitgit.Desktop.Operations.Latest.{
  LastOfKey, begin_operation-cancels, begin_operation-LastOfKey, begin_operation-new_last,
  finish_operation-LastOfKey,
}

-- A step that leaves the operations and their keys as they are, and cancels more.
more-LastOfKey :
    (s : Service) (cancelled : List ℕ)
    → ((c : ℕ) → member c s.cancelled ≡ true → member c cancelled ≡ true)
    → (f : Finisher) → LastOfKey s f
    → LastOfKey (record s { cancelled = cancelled }) f
more-LastOfKey s cancelled grows f last given = elim (last given) [
  | inl h ↦ inl (grows f.context h)
  | inr h ↦ inr h
]

active-cancels :
    (s : Service) (f : Finisher)
    → LastOfKey s f
    → is_empty f.key ≡ false
    → member f.context (active s ++ s.cancelled) ≡ true
unfolding active
active-cancels s f last given = elim (last given) [
  | inl h ↦ member-right f.context (active s) s.cancelled h
  | inr (is_last, runs) ↦ member-left f.context (active s) s.cancelled (
      member-left f.context (handles s.operations) (option_list s.search)
        (operation-handles f.id f.context s.operations runs))
]

member-cons : (d c : ℕ) (xs : List ℕ) → member c xs ≡ true → member c (d ∷ xs) ≡ true
unfolding member
member-cons d c xs h = ground arith

module _ (r : Run) (all : All (LastOfKey r.service) r.finishers) where
  abbrev Lasting : Run → Type 0
  Lasting t = All (LastOfKey t.service) t.finishers

  switch-Lasting :
      (generation : ℕ) → Lasting (switched r (begin_reserved_switch generation r.service))
  unfolding begin_reserved_switch is_empty
  switch-Lasting generation = accept (generation == r.service.generation)
    where
      accept :
          (b : Bool)
          → Lasting (switched r (if b then accepted_switch r.service else refused_switch r.service))
      accept true = (
        λ given. ground arith,
        All-weaken (LastOfKey r.service) _ r.finishers
            (λ f last given. inl (active-cancels r.service f last given)) all,
      )
      accept false =
          All-weaken (LastOfKey r.service) _ r.finishers
            (more-LastOfKey r.service _ (λ c. member-cons r.service.contexts c r.service.cancelled))
            all

  cancel_operations-Lasting : Lasting (record r { service = cancel_operations r.service })
  unfolding cancel_operations
  cancel_operations-Lasting =
      All-weaken (LastOfKey r.service) _ r.finishers
        (λ f last given. inl (active-cancels r.service f last given)) all

  begin_search-Lasting : Lasting (searching r (begin_search r.service))
  unfolding begin_search
  begin_search-Lasting =
      All-weaken (LastOfKey r.service) _ r.finishers
        (more-LastOfKey r.service _
          (λ c. member-right c (option_list r.service.search) r.service.cancelled))
        all

  finish_search-Lasting : (id c : ℕ) → Lasting (record r { service = finish_search id c r.service })
  unfolding finish_search
  finish_search-Lasting id c =
      All-weaken (LastOfKey r.service) _ r.finishers
        (more-LastOfKey r.service _ (λ d. member-cons c d r.service.cancelled)) all

  cancel_search-Lasting : Lasting (record r { service = cancel_search r.service })
  unfolding cancel_search
  cancel_search-Lasting =
      All-weaken (LastOfKey r.service) _ r.finishers
        (more-LastOfKey r.service _
          (λ c. member-right c (option_list r.service.search) r.service.cancelled))
        all

  fields-Lasting :
      (s : Service)
      → s.cancelled ≡ r.service.cancelled
      → s.latest ≡ r.service.latest
      → s.operations ≡ r.service.operations
      → Lasting (record r { service = s })
  fields-Lasting s e l o =
      All-weaken (LastOfKey r.service) _ r.finishers
        (λ f last given. elim (last given) [
          | inl h ↦ inl (ap (member f.context) e ∙ h)
          | inr h ↦ inr (ap (get f.key) l ∙ h.0, ap (operation f.id) o ∙ h.1)
        ])
        all

All-both {ℓ κ λ'} :
    {A : Type ℓ} (P : A → Type κ) (Q : A → Type λ') (xs : List A)
    → All P xs
    → All Q xs
    → All (λ a. P a × Q a) xs
All-both P Q [] p q = tt
All-both P Q (x ∷ xs) p q = ((p.0, q.0), All-both P Q xs p.1 q.1)

complete-fields :
    (generation : ℕ) (root : Text) (s : Service)
    → (((complete_repository_switch generation root s).0).cancelled ≡ s.cancelled)
      × (((complete_repository_switch generation root s).0).latest ≡ s.latest)
      × (((complete_repository_switch generation root s).0).operations ≡ s.operations)
unfolding complete_repository_switch
complete-fields generation root s = (ground arith, ground arith, ground arith)

fail-fields :
    (generation : ℕ) (s : Service)
    → ((fail_repository_switch generation s).cancelled ≡ s.cancelled)
      × ((fail_repository_switch generation s).latest ≡ s.latest)
      × ((fail_repository_switch generation s).operations ≡ s.operations)
unfolding fail_repository_switch
fail-fields generation s = (ground arith, ground arith, ground arith)

reaches-Lasting :
    (n : ℕ) (r : Run) → Reaches n r → n < 2 ^ 64 → All (LastOfKey r.service) r.finishers
reaches-Lasting _ _ start h = tt
reaches-Lasting _ _ (by_begin n r key reached) h =
    let kept = reaches-IsKept n r reached (omega arith) in
    let small = next-small n r kept h in
    (
      begin_operation-new_last n r kept key small,
      All-weaken _ _ r.finishers (begin_operation-LastOfKey n r kept key small) (
          All-both (OwnsOperation r.service) (LastOfKey r.service) r.finishers kept.owned
            (reaches-Lasting n r reached (omega arith))),
    )
reaches-Lasting _ _ (by_finish n r f at reached) h =
    let kept = reaches-IsKept n r reached (omega arith) in
    All-weaken (LastOfKey r.service) _ r.finishers
      (finish_operation-LastOfKey n r kept f
        (All-listed (OwnsOperation r.service) f r.finishers at kept.owned))
      (reaches-Lasting n r reached (omega arith))
reaches-Lasting _ _ (by_reserve n r reached) h =
    fields-Lasting r (reaches-Lasting n r reached (omega arith))
      (reserve_repository_switch r.service) (unfold reserve_repository_switch in refl)
      (unfold reserve_repository_switch in refl) (unfold reserve_repository_switch in refl)
reaches-Lasting _ _ (by_switch n r generation reached) h =
    switch-Lasting r (reaches-Lasting n r reached (omega arith)) generation
reaches-Lasting _ _ (by_complete n r generation root reached) h =
    let (e, l, o) = complete-fields generation root r.service in
    fields-Lasting r (reaches-Lasting n r reached (omega arith))
      ((complete_repository_switch generation root r.service).0) e l o
reaches-Lasting _ _ (by_fail n r generation reached) h =
    let (e, l, o) = fail-fields generation r.service in
    fields-Lasting r (reaches-Lasting n r reached (omega arith))
      (fail_repository_switch generation r.service) e l o
reaches-Lasting _ _ (by_cancel n r reached) h =
    cancel_operations-Lasting r (reaches-Lasting n r reached (omega arith))
reaches-Lasting _ _ (by_search n r reached) h =
    begin_search-Lasting r (reaches-Lasting n r reached (omega arith))
reaches-Lasting _ _ (by_searched n r id c at reached) h =
    finish_search-Lasting r (reaches-Lasting n r reached (omega arith)) id c
reaches-Lasting _ _ (by_cancel_search n r reached) h =
    cancel_search-Lasting r (reaches-Lasting n r reached (omega arith))

-- In every run of fewer than 2^64 steps, an operation that is begun for a key that is not empty
-- cancels the context of every operation that was begun for the same key before.
pub begin_operation-cancels_same_key :
    (n : ℕ) (r : Run) (f : Finisher)
    → Reaches n r
    → n < 2 ^ 64
    → Listed f r.finishers
    → is_empty f.key ≡ false
    → member f.context ((begin_operation f.key r.service).0).cancelled ≡ true
begin_operation-cancels_same_key n r f reached h at given =
    begin_operation-cancels f.key r.service f
      (All-listed (LastOfKey r.service) f r.finishers at (reaches-Lasting n r reached h)) given refl
