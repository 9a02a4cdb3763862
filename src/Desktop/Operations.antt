-- ===== src/Desktop/Operations.antt =====
-- internal/desktop/operations.go, and the search part of internal/desktop/service.go: which
-- contexts are cancelled. A context is named by the number of contexts made before it; its cancel
-- function adds the name to `cancelled`. A step is a critical section with the cancel calls after
-- it, which touch no field of the service. The ids are 64-bit integers.
pub mod Runs
pub mod Kept
pub mod Searched
pub mod Tracked
pub mod Latest
use gitgit.Prelude.{
  ℕ, zero, suc, ◌+◌, ◌%◌, ◌^◌, Bool, true, false, not, ◌&&◌, Option, none, some, List, [], ◌∷◌,
  ◌++◌, map, ◌==◌, if◌then◌else◌,
}
use gitgit.Text.{Text, text_eq, is_empty}
use gitgit.Apperr.{Failure, plain, plain_message, Result, ok, err}
use gitgit.Text.{lit}
use gitgit.Assoc.{Assoc, get, put, delete}

abbrev pub Operations : Type 0
Operations = List (ℕ × ℕ)

unfoldable pub operation : ℕ → Operations → Option ℕ
operation id [] = none
operation id ((i, c) ∷ ops) = let rest = operation id ops in if i == id then some c else rest

unfoldable pub without : ℕ → Operations → Operations
without id [] = []
without id ((i, c) ∷ ops) = let rest = without id ops in if i == id then rest else (i, c) ∷ rest

pub handle : ℕ × ℕ → ℕ
handle (i, c) = c

unfoldable pub handles : Operations → List ℕ
unfolding handle
handles ops = map handle ops

abbrev pub option_list {ℓ} : {A : Type ℓ} → Option A → List A
option_list none = []
option_list (some a) = a ∷ []

pub record Service : Type 0 where
  pub operations : Operations
  pub latest : Assoc ℕ
  pub next_id : ℕ
  pub search : Option ℕ
  pub search_id : ℕ
  pub generation : ℕ
  pub switching : Bool
  pub repository : Option Text
  -- the contexts made so far, and those that are cancelled
  pub contexts : ℕ
  pub cancelled : List ℕ

unfoldable pub incremented : ℕ → ℕ
incremented n = suc n % 2 ^ 64

-- What the function that `beginOperationWithKey` returns has captured.
pub record Finisher : Type 0 where
  pub id : ℕ
  pub key : Text
  pub context : ℕ

-- The id that `latestOperations` holds for a key that is not empty.
unfoldable pub previous_id : Text → Assoc ℕ → Option ℕ
previous_id key latest = if is_empty key then none else get key latest

abbrev pub previous_cancel : Option ℕ → Operations → List ℕ
previous_cancel none ops = []
previous_cancel (some p) ops = option_list (operation p ops)

abbrev pub without_previous : Option ℕ → Operations → Operations
without_previous none ops = ops
without_previous (some p) ops = without p ops

-- `beginOperationWithKey`, with the key "" for `beginOperation`.
unfoldable pub begin_operation : Text → Service → Service × Finisher
begin_operation key s =
    let previous = previous_id key s.latest in
    let id = incremented s.next_id in
    let rest = without_previous previous s.operations in
    (
      record s {
        operations = (id, s.contexts) ∷ without id rest;
        latest = if is_empty key then s.latest else put key id s.latest;
        next_id = id;
        contexts = suc s.contexts;
        cancelled = previous_cancel previous s.operations ++ s.cancelled;
      },
      record { id = id; key = key; context = s.contexts },
    )

-- A key that is missing gives the id 0, which no operation has before the ids wrap around.
abbrev pub latest_or_zero : Option ℕ → ℕ
latest_or_zero none = 0
latest_or_zero (some p) = p

-- The function that it returns.
unfoldable pub finish_operation : Finisher → Service → Service
finish_operation f s = record s {
  operations = without f.id s.operations;
  latest =
      if not (is_empty f.key) && latest_or_zero (get f.key s.latest) == f.id
      then delete f.key s.latest
      else s.latest;
  cancelled = f.context ∷ s.cancelled;
}

unfoldable pub reserve_repository_switch : Service → Service
reserve_repository_switch s = record s { generation = incremented s.generation }

-- What a switch and `CancelOperations` cancel.
unfoldable pub active : Service → List ℕ
active s = handles s.operations ++ option_list s.search

abbrev pub accepted_switch : Service → Service × Option Finisher
accepted_switch s = (
  record s {
    operations = (incremented s.next_id, s.contexts) ∷ [];
    latest = [];
    next_id = incremented s.next_id;
    search = none;
    search_id = incremented s.search_id;
    switching = true;
    contexts = suc s.contexts;
    cancelled = active s ++ s.cancelled;
  },
  some (record { id = incremented s.next_id; key = []; context = s.contexts }),
)

abbrev pub refused_switch : Service → Service × Option Finisher
refused_switch s =
    (record s { contexts = suc s.contexts; cancelled = s.contexts ∷ s.cancelled }, none)

-- `beginReservedRepositorySwitch`. A generation that is not the last gives a cancelled context.
unfoldable pub begin_reserved_switch : ℕ → Service → Service × Option Finisher
begin_reserved_switch generation s =
    if generation == s.generation then accepted_switch s else refused_switch s

unfoldable pub complete_repository_switch : ℕ → Text → Service → Service × Bool
complete_repository_switch generation repository s =
    if generation == s.generation
    then (record s { repository = some repository; switching = false }, true)
    else (s, false)

unfoldable pub fail_repository_switch : ℕ → Service → Service
fail_repository_switch generation s =
    if generation == s.generation then record s { switching = false } else s

unfoldable pub cancel_operations : Service → Service
cancel_operations s = record s {
  operations = [];
  latest = [];
  search = none;
  search_id = incremented s.search_id;
  cancelled = active s ++ s.cancelled;
}

-- The part of `SearchWithProgress` that registers the context of a search; the result is the id
-- and the context that its deferred function captures.
unfoldable pub begin_search : Service → Service × (ℕ × ℕ)
begin_search s =
    let id = incremented s.search_id in
    (
      record s {
        search = some s.contexts;
        search_id = id;
        contexts = suc s.contexts;
        cancelled = option_list s.search ++ s.cancelled;
      },
      (id, s.contexts),
    )

unfoldable pub finish_search : ℕ → ℕ → Service → Service
finish_search id context s = record s {
  search = if s.search_id == id then none else s.search;
  cancelled = context ∷ s.cancelled;
}

unfoldable pub cancel_search : Service → Service
cancel_search s = record s {
  search = none;
  search_id = incremented s.search_id;
  cancelled = option_list s.search ++ s.cancelled;
}

-- `currentRepository`.
unfoldable pub current_repository : Service → Result Text
current_repository s =
    if s.switching
    then err (plain (plain_message (lit "repository switch is in progress")))
    else elim s.repository [
      | none ↦ err (plain (plain_message (lit "no repository is open")))
      | some root ↦ ok root
    ]
