-- ===== src/Desktop/Operations/Runs.antt =====
-- internal/desktop/operations.go: the runs of the service, and the look-ups in its operations.
use gitgit.Prelude.{
  ℕ, suc, ◌^◌, ◌<◌, ◌≡◌, Bool, true, false, ◌||◌, Option, none, some, List, [], ◌∷◌, ◌++◌, ◌==◌,
  if◌then◌else◌, All, arith,
}
use gitgit.Text.{Text}
use gitgit.Desktop.Operations.{
  Operations, operation, without, handles, handle, option_list, Service, incremented, Finisher,
  begin_operation, finish_operation, reserve_repository_switch, begin_reserved_switch,
  complete_repository_switch, fail_repository_switch, cancel_operations, begin_search,
  finish_search, cancel_search,
}

unfoldable pub member : ℕ → List ℕ → Bool
member c [] = false
member c (x ∷ xs) = x == c || member c xs

pub member-left : (c : ℕ) (xs ys : List ℕ) → member c xs ≡ true → member c (xs ++ ys) ≡ true
unfolding member
member-left c [] ys h = ground arith
member-left c (x ∷ xs) ys h = ground (arith, member-left c xs ys)

pub member-right : (c : ℕ) (xs ys : List ℕ) → member c ys ≡ true → member c (xs ++ ys) ≡ true
unfolding member
member-right c [] ys h = h
member-right c (x ∷ xs) ys h = ground (arith, member-right c xs ys h)

pub operation-without :
    (i j : ℕ) (ops : Operations)
    → operation j (without i ops) ≡ (if i == j then none else operation j ops)
unfolding operation without
operation-without i j [] = ground arith
operation-without i j ((k, c) ∷ ops) = ground (arith, operation-without i j ops)

pub operation-handles :
    (id c : ℕ) (ops : Operations) → operation id ops ≡ some c → member c (handles ops) ≡ true
unfolding operation handles member handle
operation-handles id c [] h = ground arith
operation-handles id c ((k, d) ∷ ops) h = ground (arith, operation-handles id c ops)

pub member-option :
    (c : ℕ) (found : Option ℕ) → found ≡ some c → member c (option_list found) ≡ true
unfolding member
member-option c none h = ground arith
member-option c (some d) h = ground arith

-- Where a context is found.
pub data Found (s : Service) (c : ℕ) : Type 0 where
  is_cancelled : member c s.cancelled ≡ true → Found s c
  is_active : (id : ℕ) → operation id s.operations ≡ some c → Found s c
  is_search : s.search ≡ some c → Found s c

-- The service, with the functions that it has handed out.
pub record Run : Type 0 where
  pub service : Service
  pub finishers : List Finisher
  pub searches : List (ℕ × ℕ)

abbrev pub started : Run
started = record {
  service = record {
    operations = [];
    latest = [];
    next_id = 0;
    search = none;
    search_id = 0;
    generation = 0;
    switching = false;
    repository = none;
    contexts = 0;
    cancelled = [];
  };
  finishers = [];
  searches = [];
}

pub data Listed {ℓ} {A : Type ℓ} : A → List A → Type ℓ where
  here : (a : A) (xs : List A) → Listed a (a ∷ xs)
  there : (a x : A) (xs : List A) → Listed a xs → Listed a (x ∷ xs)

abbrev pub begun : Run → Service × Finisher → Run
begun r (s, f) = record r { service = s; finishers = f ∷ r.finishers }

abbrev pub switched : Run → Service × Option Finisher → Run
switched r (s, none) = record r { service = s }
switched r (s, some f) = record r { service = s; finishers = f ∷ r.finishers }

abbrev pub searching : Run → Service × (ℕ × ℕ) → Run
searching r (s, f) = record r { service = s; searches = f ∷ r.searches }

-- The runs of a number of steps: the calls in any order, and the handed-out functions at any
-- time, also twice.
pub data Reaches : ℕ → Run → Type 0 where
  start : Reaches 0 started
  by_begin :
      (n : ℕ) (r : Run) (key : Text)
      → Reaches n r
      → Reaches (suc n) (begun r (begin_operation key r.service))
  by_finish :
      (n : ℕ) (r : Run) (f : Finisher)
      → Listed f r.finishers
      → Reaches n r
      → Reaches (suc n) (record r { service = finish_operation f r.service })
  by_reserve :
      (n : ℕ) (r : Run)
      → Reaches n r
      → Reaches (suc n) (record r { service = reserve_repository_switch r.service })
  by_switch :
      (n : ℕ) (r : Run) (generation : ℕ)
      → Reaches n r
      → Reaches (suc n) (switched r (begin_reserved_switch generation r.service))
  by_complete :
      (n : ℕ) (r : Run) (generation : ℕ) (root : Text)
      → Reaches n r
      → Reaches
          (suc n)
          (record r { service = (complete_repository_switch generation root r.service).0 })
  by_fail :
      (n : ℕ) (r : Run) (generation : ℕ)
      → Reaches n r
      → Reaches (suc n) (record r { service = fail_repository_switch generation r.service })
  by_cancel :
      (n : ℕ) (r : Run)
      → Reaches n r
      → Reaches (suc n) (record r { service = cancel_operations r.service })
  by_search :
      (n : ℕ) (r : Run) → Reaches n r → Reaches (suc n) (searching r (begin_search r.service))
  by_searched :
      (n : ℕ) (r : Run) (id c : ℕ)
      → Listed (id, c) r.searches
      → Reaches n r
      → Reaches (suc n) (record r { service = finish_search id c r.service })
  by_cancel_search :
      (n : ℕ) (r : Run)
      → Reaches n r
      → Reaches (suc n) (record r { service = cancel_search r.service })

pub incremented-small : (n : ℕ) → suc n < 2 ^ 64 → incremented n ≡ suc n
unfolding incremented
incremented-small n h = omega arith

pub All-listed {ℓ κ} :
    {A : Type ℓ} (P : A → Type κ) (a : A) (xs : List A) → Listed a xs → All P xs → P a
All-listed P a xs (here b ys) all = all.0
All-listed P a xs (there b x ys at) all = All-listed P b ys at all.1

pub All-weaken {ℓ κ λ'} :
    {A : Type ℓ} (P : A → Type κ) (Q : A → Type λ') (xs : List A)
    → ((a : A) → P a → Q a)
    → All P xs
    → All Q xs
All-weaken P Q [] f all = tt
All-weaken P Q (x ∷ xs) f all = (f x all.0, All-weaken P Q xs f all.1)
