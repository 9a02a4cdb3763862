-- ===== src/Desktop/Operations/Latest.antt =====
-- internal/desktop/operations.go: a read surface has at most one operation. What a begun operation
-- of the same key cancels.
pub mod Reached
use gitgit.Prelude.{
  ℕ, zero, suc, ◌+◌, ◌%◌, ◌^◌, ◌≤◌, ◌<◌, ◌≡◌, refl, sym, ap, ◌∙◌, ◌≢◌, ◌⊎◌, inl, inr, Bool, true,
  false, not, ◌&&◌, ◌||◌, Option, none, some, List, [], ◌∷◌, ◌++◌, map, ◌==◌, ==_iff, if◌then◌else◌,
  All, Bool-cases, Option-cases, arith,
}
use gitgit.Text.{Text, is_empty, text_eq, text_eq_iff, text_eq_refl}
use gitgit.Assoc.{Assoc, get, put, delete, get-put, get-delete}
use gitgit.Desktop.Operations.{
  Operations, operation, without, handles, handle, option_list, Service, incremented, Finisher,
  previous_id, latest_or_zero, previous_cancel, without_previous, begin_operation, finish_operation,
  reserve_repository_switch, active, begin_reserved_switch, accepted_switch, refused_switch,
  complete_repository_switch, fail_repository_switch, cancel_operations, begin_search,
  finish_search, cancel_search,
}
use gitgit.Desktop.Operations.Runs.{
  member, member-left, member-right, operation-without, operation-handles, member-option, Found,
  is_cancelled, is_active, is_search, Run, started, Listed, begun, switched, searching, Reaches,
  start, by_begin, by_finish, by_reserve, by_switch, by_complete, by_fail, by_cancel, by_search,
  by_searched, by_cancel_search, incremented-small, All-listed, All-weaken,
}
use gitgit.Desktop.Operations.Kept.{
  OwnsOperation, OwnsSearch, IsKept, cancel-Found, operation-previous, begin_operation-new,
  begin_operation-other,
}
use gitgit.Desktop.Operations.Tracked.{next-small, reaches-IsKept}

-- An operation with a key is cancelled, or it is the last one of its key.
abbrev pub LastOfKey : Service → Finisher → Type 0
LastOfKey s f =
    is_empty f.key ≡ false
    → (member f.context s.cancelled ≡ true)
      ⊎ ((get f.key s.latest ≡ some f.id) × (operation f.id s.operations ≡ some f.context))

-- The operation that is begun cancels the last one of its key.
pub begin_operation-cancels :
    (key : Text) (s : Service) (f : Finisher)
    → LastOfKey s f
    → is_empty key ≡ false
    → f.key ≡ key
    → member f.context ((begin_operation key s).0).cancelled ≡ true
unfolding begin_operation previous_id
begin_operation-cancels key s f last given same = elim (last (ap is_empty same ∙ given)) [
  | inl h ↦ member-right f.context _ s.cancelled h
  | inr (is_last, runs) ↦ member-left f.context _ s.cancelled (
      cancels (if is_empty key then none else get key s.latest)
        (previous_is_last (is_empty key) given is_last) runs)
]
  where
    previous_is_last :
        (b : Bool)
        → b ≡ false
        → get f.key s.latest ≡ some f.id
        → (if b then none else get key s.latest) ≡ some f.id
    previous_is_last true h k = ground arith
    previous_is_last false h k = ap (λ t. get t s.latest) (sym same) ∙ k

    cancels :
        (p : Option ℕ)
        → p ≡ some f.id
        → operation f.id s.operations ≡ some f.context
        → member f.context (previous_cancel p s.operations) ≡ true
    cancels none h k = ground arith
    cancels (some q) h k = member-option f.context (operation q s.operations) (ground arith)

-- The look-up of another key, after the key of the begun operation is put.
get-put_other :
    (b : Bool) (key j : Text) (id : ℕ) (latest : Assoc ℕ)
    → text_eq key j ≡ false
    → get j (if b then latest else put key id latest) ≡ get j latest
get-put_other true key j id latest h = refl
get-put_other false key j id latest h = get-put key j id latest ∙ ground arith

get-put_same :
    (b : Bool) (key : Text) (id : ℕ) (latest : Assoc ℕ)
    → b ≡ false
    → get key (if b then latest else put key id latest) ≡ some id
get-put_same true key id latest h = ground arith
get-put_same false key id latest h = get-put key key id latest ∙ ground (arith, text_eq_refl key)

module _ (n : ℕ) (r : Run) (kept : IsKept n r) where
  pub begin_operation-LastOfKey :
      (key : Text)
      → incremented r.service.next_id ≡ suc r.service.next_id
      → (f : Finisher) → OwnsOperation r.service f × LastOfKey r.service f
      → LastOfKey (begin_operation key r.service).0 f
  unfolding begin_operation
  begin_operation-LastOfKey key e f (own, last) given = elim (Bool-cases (text_eq key f.key)) [
    | inl same ↦ inl (
        begin_operation-cancels key r.service f last
          (ap is_empty ((text_eq_iff key f.key).0 same) ∙ given)
          (sym ((text_eq_iff key f.key).0 same)))
    | inr other ↦ keep other (last given)
  ]
    where
      found : Option ℕ
      found = previous_id key r.service.latest

      not_new : incremented r.service.next_id ≢ f.id
      not_new = ground (arith, own.0)

      keep :
          text_eq key f.key ≡ false
          → (member f.context r.service.cancelled ≡ true)
            ⊎ ((get f.key r.service.latest ≡ some f.id)
                × (operation f.id r.service.operations ≡ some f.context))
          → (member f.context ((begin_operation key r.service).0).cancelled ≡ true)
            ⊎ ((get f.key ((begin_operation key r.service).0).latest ≡ some f.id)
                × (operation f.id ((begin_operation key r.service).0).operations ≡ some f.context))
      keep other (inl h) = inl (member-right f.context _ r.service.cancelled h)
      keep other (inr (is_last, runs)) =
          elim (operation-previous found f.id f.context r.service.operations runs) [
            | inl gone ↦ inl (member-left f.context _ r.service.cancelled gone)
            | inr stays ↦ inr (
              get-put_other (is_empty key) key f.key _ r.service.latest other ∙ is_last,
              begin_operation-other n r kept key r.service.latest found _ e f.id not_new ∙ stays,
            )
          ]

  pub begin_operation-new_last :
      (key : Text)
      → incremented r.service.next_id ≡ suc r.service.next_id
      → LastOfKey (begin_operation key r.service).0 (begin_operation key r.service).1
  unfolding begin_operation
  begin_operation-new_last key e given = inr (
    get-put_same (is_empty key) key _ r.service.latest given,
    begin_operation-new n r kept key r.service.latest (previous_id key r.service.latest) _ e,
  )

  pub finish_operation-LastOfKey :
      (f : Finisher)
      → OwnsOperation r.service f
      → (g : Finisher) → LastOfKey r.service g
      → LastOfKey (finish_operation f r.service) g
  unfolding finish_operation member
  finish_operation-LastOfKey f own g last given = elim (last given) [
    | inl h ↦ inl (ground arith)
    | inr (is_last, runs) ↦ elim (Bool-cases (f.id == g.id)) [
      | inl same ↦ inl (ground (arith, own.1))
      | inr other ↦ inr (
        stays is_last other (not (is_empty f.key)),
        operation-without f.id g.id r.service.operations ∙ ground arith,
      )
    ]
  ]
    where
      delete_other :
          (b : Bool)
          → text_eq f.key g.key ≡ false
          → get g.key (if b then delete f.key r.service.latest else r.service.latest)
            ≡ get g.key r.service.latest
      delete_other true h = get-delete f.key g.key r.service.latest ∙ ground arith
      delete_other false h = refl

      stays :
          get g.key r.service.latest ≡ some g.id
          → (f.id == g.id) ≡ false
          → (b : Bool)
          → get g.key (
              if b && latest_or_zero (get f.key r.service.latest) == f.id
              then delete f.key r.service.latest
              else r.service.latest)
            ≡ some g.id
      stays is_last other false = is_last
      stays is_last other true = elim (Bool-cases (text_eq f.key g.key)) [
        | inl same ↦
            ap
              (λ found. get g.key (
                if latest_or_zero found == f.id
                then delete f.key r.service.latest
                else r.service.latest))
              (ap (λ k. get k r.service.latest) ((text_eq_iff f.key g.key).0 same) ∙ is_last)
            ∙ ground arith
        | inr differs ↦
            delete_other (latest_or_zero (get f.key r.service.latest) == f.id) differs ∙ is_last
      ]
