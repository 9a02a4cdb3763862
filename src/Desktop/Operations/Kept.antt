-- ===== src/Desktop/Operations/Kept.antt =====
-- internal/desktop/operations.go: where the contexts are, and the steps that begin and finish an
-- operation.
use gitgit.Prelude.{
  ℕ, suc, ◌≤◌, ◌<◌, ◌≡◌, sym, ap, ◌∙◌, ◌≢◌, ◌⊎◌, inl, inr, true, Option, none, some, ◌∷◌, ◌++◌,
  ◌==◌, ==_iff, All, Bool-cases, arith,
}
use gitgit.Text.{Text}
use gitgit.Assoc.{Assoc}
use gitgit.Desktop.Operations.{
  Operations, operation, without, handles, option_list, Service, Finisher, previous_cancel,
  without_previous, finish_operation, active,
}
use gitgit.Desktop.Operations.Runs.{
  member, member-left, member-right, operation-without, operation-handles, member-option, Found,
  is_cancelled, is_active, is_search, Run, Listed, All-listed, All-weaken,
}

-- What holds of a function handed out for an operation, and for a search.
abbrev pub OwnsOperation : Service → Finisher → Type 0
OwnsOperation s f =
    (f.id ≤ s.next_id)
    × ((operation f.id s.operations ≡ none) ⊎ (operation f.id s.operations ≡ some f.context))

abbrev pub OwnsSearch : Service → ℕ × ℕ → Type 0
OwnsSearch s (id, c) =
    (id ≤ s.search_id) × (id ≡ s.search_id → (s.search ≡ none) ⊎ (s.search ≡ some c))

pub record IsKept (n : ℕ) (r : Run) : Type 0 where
  pub ids : r.service.next_id ≤ n
  pub search_ids : r.service.search_id ≤ n
  pub fresh : (id : ℕ) → r.service.next_id < id → operation id r.service.operations ≡ none
  pub owned : All (OwnsOperation r.service) r.finishers
  pub search_owned : All (OwnsSearch r.service) r.searches
  pub found : (c : ℕ) → c < r.service.contexts → Found r.service c

pub cancel-Found : (s : Service) (c : ℕ) → Found s c → member c (active s ++ s.cancelled) ≡ true
unfolding active
cancel-Found s c (is_cancelled h) = member-right c (active s) s.cancelled h
cancel-Found s c (is_active id h) = member-left c (active s) s.cancelled (
    member-left c (handles s.operations) (option_list s.search)
      (operation-handles id c s.operations h))
cancel-Found s c (is_search h) =
    member-left c (active s) s.cancelled
      (member-right c (handles s.operations) (option_list s.search) (member-option c s.search h))

-- A begun operation: the one before it of its key is cancelled, the others stay.
pub operation-previous :
    (p : Option ℕ) (id c : ℕ) (ops : Operations)
    → operation id ops ≡ some c
    → (member c (previous_cancel p ops) ≡ true) ⊎ (operation id (without_previous p ops) ≡ some c)
operation-previous none id c ops h = inr h
operation-previous (some p) id c ops h = elim (Bool-cases (p == id)) [
  | inl same ↦
      inl (member-option c (operation p ops) (ap (λ i. operation i ops) ((==_iff p id).0 same) ∙ h))
  | inr other ↦ inr (operation-without p id ops ∙ (ground arith))
]

rest_or_none :
    (p : Option ℕ) (id c : ℕ) (ops : Operations)
    → operation id ops ≡ some c
    → (operation id (without_previous p ops) ≡ none)
      ⊎ (operation id (without_previous p ops) ≡ some c)
rest_or_none none id c ops h = inr h
rest_or_none (some p) id c ops h = elim (Bool-cases (p == id)) [
  | inl same ↦ inl (operation-without p id ops ∙ ground arith)
  | inr other ↦ inr (operation-without p id ops ∙ ground arith)
]

operation-previous_none :
    (p : Option ℕ) (id : ℕ) (ops : Operations)
    → operation id ops ≡ none
    → operation id (without_previous p ops) ≡ none
operation-previous_none none id ops h = h
operation-previous_none (some p) id ops h = operation-without p id ops ∙ ground arith

module _ (n : ℕ) (r : Run) (kept : IsKept n r) (key : Text) (latest : Assoc ℕ) (p : Option ℕ)
    (id : ℕ) (e : id ≡ suc r.service.next_id) where
  abbrev pub rest : Operations
  rest = without_previous p r.service.operations

  abbrev pub after : Service
  after = record r.service {
    operations = (id, r.service.contexts) ∷ without id rest;
    latest = latest;
    next_id = id;
    contexts = suc r.service.contexts;
    cancelled = previous_cancel p r.service.operations ++ r.service.cancelled;
  }

  pub begin_operation-other :
      (j : ℕ) → id ≢ j → operation j ((id, r.service.contexts) ∷ without id rest) ≡ operation j rest
  unfolding operation
  begin_operation-other j h = ground (arith, operation-without id j rest)

  begin_operation-fresh :
      (j : ℕ) → id < j → operation j ((id, r.service.contexts) ∷ without id rest) ≡ none
  begin_operation-fresh j h =
      begin_operation-other j (ground arith)
      ∙ operation-previous_none p j r.service.operations (kept.fresh j (omega arith))

  begin_operation-owned : (f : Finisher) → OwnsOperation r.service f → OwnsOperation after f
  begin_operation-owned f (bound, held) =
      (omega arith, owns (begin_operation-other f.id (ground arith)) held)
    where
      owns :
          operation f.id after.operations ≡ operation f.id rest
          → (operation f.id r.service.operations ≡ none)
            ⊎ (operation f.id r.service.operations ≡ some f.context)
          → (operation f.id after.operations ≡ none)
            ⊎ (operation f.id after.operations ≡ some f.context)
      owns same (inl h) = inl (same ∙ operation-previous_none p f.id r.service.operations h)
      owns same (inr h) = elim (rest_or_none p f.id f.context r.service.operations h) [
        | inl gone ↦ inl (same ∙ gone)
        | inr stays ↦ inr (same ∙ stays)
      ]

  pub begin_operation-new : operation id after.operations ≡ some r.service.contexts
  unfolding operation
  begin_operation-new = ground arith

  begin_operation-Found : (c : ℕ) → c < suc r.service.contexts → Found after c
  begin_operation-Found c h = elim (Bool-cases (c == r.service.contexts)) [
    | inl new ↦
        is_active id (begin_operation-new ∙ ap some (sym ((==_iff c r.service.contexts).0 new)))
    | inr old ↦ stays (kept.found c (ground arith))
  ]
    where
      not_new : (j : ℕ) → operation j r.service.operations ≡ some c → id ≢ j
      not_new j k same = ground (arith, kept.fresh j (omega arith))

      stays : Found r.service c → Found after c
      stays (is_cancelled k) =
          is_cancelled
            (member-right c (previous_cancel p r.service.operations) r.service.cancelled k)
      stays (is_search k) = is_search k
      stays (is_active j k) = elim (operation-previous p j c r.service.operations k) [
        | inl gone ↦
            is_cancelled
              (member-left c (previous_cancel p r.service.operations) r.service.cancelled gone)
        | inr there ↦ is_active j (begin_operation-other j (not_new j k) ∙ there)
      ]

  pub begin_operation-IsKept :
      (f : Finisher)
      → f.id ≡ id
      → f.context ≡ r.service.contexts
      → IsKept (suc n) (record r { service = after; finishers = f ∷ r.finishers })
  begin_operation-IsKept f same_id same_context = record {
    ids = ground (arith, kept.ids);
    search_ids = ground (arith, kept.search_ids);
    fresh = begin_operation-fresh;
    owned = (
      (
        ground arith,
        inr (
            ap (λ i. operation i after.operations) same_id
            ∙ begin_operation-new
            ∙ ap some (sym same_context)),
      ),
      All-weaken (OwnsOperation r.service) (OwnsOperation after) r.finishers begin_operation-owned
          kept.owned,
    );
    search_owned = kept.search_owned;
    found = begin_operation-Found;
  }

module _ (n : ℕ) (r : Run) (kept : IsKept n r) where
  finish_operation-Found :
      (f : Finisher)
      → OwnsOperation r.service f
      → (c : ℕ) → Found r.service c
      → Found (finish_operation f r.service) c
  unfolding finish_operation member
  finish_operation-Found f own c (is_cancelled h) = is_cancelled (ground arith)
  finish_operation-Found f own c (is_search h) = is_search h
  finish_operation-Found f own c (is_active j h) = elim (Bool-cases (f.id == j)) [
    | inl same ↦ is_cancelled (ground (arith, own.1))
    | inr other ↦ is_active j (operation-without f.id j r.service.operations ∙ ground arith)
  ]

  finish_operation-owned :
      (f g : Finisher) → OwnsOperation r.service g → OwnsOperation (finish_operation f r.service) g
  unfolding finish_operation
  finish_operation-owned f g (bound, held) = elim (Bool-cases (f.id == g.id)) [
    | inl same ↦ (bound, inl (operation-without f.id g.id r.service.operations ∙ ground arith))
    | inr other ↦ (
      bound,
      elim held [
        | inl h ↦ inl (operation-without f.id g.id r.service.operations ∙ ground arith)
        | inr h ↦ inr (operation-without f.id g.id r.service.operations ∙ ground arith)
      ],
    )
  ]

  pub finish_operation-IsKept :
      (f : Finisher)
      → Listed f r.finishers
      → IsKept (suc n) (record r { service = finish_operation f r.service })
  unfolding finish_operation
  finish_operation-IsKept f at = record {
    ids = ground (arith, kept.ids);
    search_ids = ground (arith, kept.search_ids);
    fresh =
        λ id h. operation-without f.id id r.service.operations ∙ ground (arith, kept.fresh id h);
    owned =
        All-weaken (OwnsOperation r.service) (OwnsOperation (finish_operation f r.service))
          r.finishers (finish_operation-owned f) kept.owned;
    search_owned = kept.search_owned;
    found = λ c h.
        finish_operation-Found f (All-listed (OwnsOperation r.service) f r.finishers at kept.owned)
          c (kept.found c h);
  }
