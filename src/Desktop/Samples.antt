-- ===== src/Desktop/Samples.antt =====
-- Runs of internal/desktop: the caches, and the operations of the service.
use gitgit.Prelude.{ℕ, ◌<◌, ◌≡◌, refl, ◌≢◌, true, false, none, some, List, [], ◌∷◌, arith}
use gitgit.Text.{Text, lit, text_eq_refl, is_empty}
use gitgit.Assoc.{get}
use gitgit.Desktop.Fifo
use gitgit.Desktop.Fifo.{trim_cache}
use gitgit.Desktop.Cache.{
  RepositoryCache, Caches, store_history, cached_history, cached_history_scope, cached_branches,
  cached_detail,
}
use gitgit.Desktop.Cache.Serving.{IsServing}
use gitgit.Desktop.Cache.Calls.{
  Call, history_stored, history_asked, detail_stored, after_calls, after_calls-IsServing,
  cached_history-store_history, cached_after_refs_change,
}
use gitgit.Desktop.Operations.{Finisher, begin_operation, begin_reserved_switch, cancel_operations}
use gitgit.Desktop.Operations.Runs.{member, Run, started, here, begun, Reaches, start, by_begin}
use gitgit.Desktop.Operations.Tracked.{switch-cancels_all}
use gitgit.Desktop.Operations.Latest.Reached.{begin_operation-cancels_same_key}

abbrev calls : List (Call ℕ ℕ ℕ)
calls =
    history_stored (lit "/a") (lit "refs") (lit "page") 1
    ∷ detail_stored (lit "/b") (lit "commit") 2
    ∷ history_asked (lit "/a") (lit "refs") (lit "page") none
    ∷ []

after_calls-IsServing_example : IsServing (after_calls calls Fifo.empty)
after_calls-IsServing_example = after_calls-IsServing calls

cached_history-store_history_example :
    (cached_history
      (lit "/a")
      (lit "refs")
      (lit "page")
      none
      (store_history (lit "/a") (lit "refs") (lit "page") 7 (after_calls calls Fifo.empty))).0
    ≡ some 7
cached_history-store_history_example =
    cached_history-store_history (lit "/a") (lit "refs") (lit "page") 7 none
      (after_calls calls Fifo.empty) (after_calls-IsServing calls)

abbrev kept_cache : RepositoryCache ℕ ℕ ℕ
kept_cache = record {
  fingerprint = lit "old";
  history_scopes = Fifo.empty;
  history = record { values = (lit "page", 1) ∷ []; keys = lit "page" ∷ [] };
  details = Fifo.empty;
  branches = Fifo.empty;
}

abbrev kept : Caches ℕ ℕ ℕ
kept = record { values = (lit "/a", kept_cache) ∷ []; keys = lit "/a" ∷ [] }

kept_there : get (lit "/a") kept.values ≡ some kept_cache
unfolding get
kept_there = ground (arith, text_eq_refl (lit "/a"))

other_refs : lit "old" ≢ lit "new"
unfolding lit
other_refs h = ground arith

cached_after_refs_change_example :
    ((cached_history (lit "/a") (lit "new") (lit "page") (some 2) kept).0 ≡ some 2)
    × ((cached_history_scope (lit "/a") (lit "new") (lit "page") none kept).0 ≡ none)
    × ((cached_branches (lit "/a") (lit "new") (lit "page") none kept).0 ≡ none)
    × ((cached_detail
          (lit "/a")
          (lit "page")
          none
          (cached_history (lit "/a") (lit "new") (lit "page") (some 2) kept).1).0
        ≡ (cached_detail (lit "/a") (lit "page") none kept).0)
cached_after_refs_change_example =
    cached_after_refs_change (lit "/a") (lit "new") (lit "page") kept kept_cache (some 2) none none
      none kept_there other_refs

-- A service that has begun one operation for the history.
abbrev history_key : Text
history_key = lit "history"

abbrev one_begun : Run
one_begun = begun started (begin_operation history_key started.service)

reached : Reaches 1 one_begun
reached = by_begin 0 started history_key start

abbrev first_finisher : Finisher
first_finisher = (begin_operation history_key started.service).1

first_context : 0 < one_begun.service.contexts
unfolding begin_operation
first_context = omega arith

switch-cancels_all_example :
    (member 0 ((begin_reserved_switch one_begun.service.generation one_begun.service).0).cancelled
      ≡ true)
    × (member 0 (cancel_operations one_begun.service).cancelled ≡ true)
switch-cancels_all_example = switch-cancels_all 1 one_begun 0 reached (omega arith) first_context

key_given : is_empty first_finisher.key ≡ false
unfolding begin_operation is_empty lit
key_given = refl

begin_operation-cancels_same_key_example :
    member first_finisher.context
      ((begin_operation first_finisher.key one_begun.service).0).cancelled
    ≡ true
begin_operation-cancels_same_key_example =
    begin_operation-cancels_same_key 1 one_begun first_finisher reached (omega arith)
      (here first_finisher []) key_given
