-- ===== src/Worktree/Mutation/Guards.antt =====
-- internal/app/worktree.go: what `Add`, `Move` and `Remove` ask of Git, whatever Git answers.
use gitgit.Prelude.{
  ◌≡◌, refl, ap, ◌∙◌, Bool, true, false, not, ◌&&◌, ◌||◌, Option, none, List, [], ◌∷◌, ltb, ◌==◌,
  length, if◌then◌else◌, arith,
}
use gitgit.Text.{Text, lit, text_eq, is_empty, trim_space, fields}
use gitgit.Apperr.{Failure, Result, ok, err}
use gitgit.Git.{
  Git, Exec, Event, Invocation, pure, lift, or_fail, attempt, continue, wrap_result, ◌>>=◌, ◌>>◌,
  refuse_if, run,
}
use gitgit.Worktree.Mutation.{
  AddWorktreeOptions, git_run, merge_when_clean, fast_forward, sync_counts, sync_upstream,
  sync_branch, sync_remotes, known_mode, sync_in_mode, sync_before_add, add_worktree, add_args,
  atoi_or_zero,
}

-- The first argument of a command, as a test.
unfoldable pub asks_for : Text → Event → Bool
asks_for word e = elim e.asked.arguments [ [] ↦ false | ◌∷◌ first _ ↦ text_eq first word ]

unfoldable pub is_merge : Event → Bool
unfolding asks_for
is_merge e = asks_for (lit "merge") e

-- A branch can be fast-forwarded without a loss: the last two answers of Git are a clean status,
-- and before it the counts of a branch that is behind its upstream and not ahead of it.
abbrev pub IsFastForwardable : List Event → Type 0
IsFastForwardable (status ∷ counts ∷ log) =
    (status.asked.arguments ≡ lit "status" ∷ lit "--porcelain=v2" ∷ lit "-z" ∷ [])
    × (status.reply ≡ ok [])
    × (counts.asked.arguments
        ≡ lit "rev-list" ∷ lit "--left-right" ∷ lit "--count" ∷ lit "HEAD...@{upstream}" ∷ [])
    × ((output ahead behind : Text) × (counts.reply ≡ ok output)
        × (fields output ≡ ahead ∷ behind ∷ [])
        × (atoi_or_zero ahead ≡ 0)
        × (ltb 0 (atoi_or_zero behind) ≡ true))
IsFastForwardable log = ⊥

-- Every merge in the events was safe when it was asked for.
abbrev pub MergesSafely : List Event → Type 0
MergesSafely [] = Unit
MergesSafely (e ∷ log) = (is_merge e ≡ true → IsFastForwardable log) × MergesSafely log

-- An action that adds no unsafe merge.
unfoldable Keeps {ℓ} : {A : Type ℓ} → Exec A → Type 0
Keeps m = (log : List Event) → MergesSafely log → MergesSafely (m log).1

module _ {ℓ} {A : Type ℓ} where
  Keeps-or_fail : (m : Exec A) (wrap : Failure → Failure) → Keeps m → Keeps (or_fail m wrap)
  unfolding Keeps
  Keeps-or_fail m wrap keeps log h = keeps log h

  Keeps-attempt : (m : Exec A) → Keeps m → Keeps (attempt m)
  unfolding Keeps
  Keeps-attempt m keeps log h = keeps log h

module _ {ℓ κ} {A : Type ℓ} {B : Type κ} where
  continue-MergesSafely :
      (r : Result A) (k : A → Exec B) (log : List Event)
      → ((a : A) → Keeps (k a))
      → MergesSafely log
      → MergesSafely (continue r k log).1
  unfolding Keeps
  continue-MergesSafely (ok a) k log keeps h = keeps a log h
  continue-MergesSafely (err e) k log keeps h = h

  Keeps-bind : (m : Exec A) (k : A → Exec B) → Keeps m → ((a : A) → Keeps (k a)) → Keeps (m >>= k)
  unfolding Keeps
  Keeps-bind m k keeps_m keeps_k log h =
      continue-MergesSafely (m log).0 k (m log).1 keeps_k (keeps_m log h)

Keeps-lift {ℓ} : {A : Type ℓ} (r : Result A) → Keeps (lift r)
unfolding Keeps
Keeps-lift r log h = h

Keeps-refuse_if : (b : Bool) (e : Failure) → Keeps (refuse_if b e)
unfolding Keeps
Keeps-refuse_if true e log h = h
Keeps-refuse_if false e log h = h

Keeps-if {ℓ} :
    {A : Type ℓ} (b : Bool) (m k : Exec A) → Keeps m → Keeps k → Keeps (if b then m else k)
unfolding Keeps
Keeps-if true m k keeps_m keeps_k log h = keeps_m log h
Keeps-if false m k keeps_m keeps_k log h = keeps_k log h

Keeps-run :
    (git : Git) (root : Text) (stdin : Option Text) (first : Text) (arguments : List Text)
    → text_eq first (lit "merge") ≡ false
    → Keeps (run git root stdin (first ∷ arguments))
unfolding run is_merge asks_for Keeps
Keeps-run git root stdin first arguments other log h = (λ merge. ground arith, h)

is_empty-nil : (t : Text) → is_empty t ≡ true → t ≡ []
unfolding is_empty
is_empty-nil [] h = refl
is_empty-nil (c ∷ cs) h = ground arith

refuse-known {ℓ} :
    {B : Type ℓ} (b : Bool) (e : Failure) (k : Exec B) (log : List Event)
    → (b ≡ false → MergesSafely (k log).1)
    → MergesSafely log
    → MergesSafely ((refuse_if b e >> k) log).1
refuse-known true e k log keeps h = h
refuse-known false e k log keeps h = keeps refl

module _ (git : Git) (root : Text) where
  abbrev asked_in_root : List Text → Invocation
  asked_in_root arguments = record {
    directory = root;
    stdin = none;
    overrides = [];
    arguments = arguments;
  }

  -- The events after one more command in the root.
  abbrev answered : List Text → List Event → List Event
  answered arguments log =
      record { asked = asked_in_root arguments; reply = git log (asked_in_root arguments) } ∷ log

  -- A command in the root, and what follows it where its answer is known.
  known_answer {ℓ} :
      {B : Type ℓ} (first : Text) (rest : List Text) (wrap : Failure → Failure) (k : Text → Exec B)
      (log : List Event)
      → (text_eq first (lit "merge") ≡ true → IsFastForwardable log)
      → ((a : Text)
          → git log (asked_in_root (first ∷ rest)) ≡ ok a
          → MergesSafely (answered (first ∷ rest) log)
          → MergesSafely (k a (answered (first ∷ rest) log)).1)
      → MergesSafely log
      → MergesSafely ((or_fail (git_run git root (first ∷ rest)) wrap >>= k) log).1
  unfolding run is_merge asks_for
  known_answer first rest wrap k log safe keeps h =
      go (git log (asked_in_root (first ∷ rest))) (λ a e. keeps a e (safe, h))
    where
      go :
          (r : Result Text)
          → ((a : Text) → r ≡ ok a → MergesSafely (k a (answered (first ∷ rest) log)).1)
          → MergesSafely (continue (wrap_result wrap r) k (answered (first ∷ rest) log)).1
      go (ok a) keeps = keeps a refl
      go (err e) keeps = (safe, h)

  merge_when_clean-safe :
      (upstream status : Text) (log : List Event)
      → (status ≡ [] → IsFastForwardable log)
      → MergesSafely log
      → MergesSafely (merge_when_clean git root upstream status log).1
  unfolding merge_when_clean
  merge_when_clean-safe upstream status log clean h =
      refuse-known (not (is_empty status)) _ _ log
        (λ e.
          known_answer (lit "merge") (lit "--ff-only" ∷ lit "@{upstream}" ∷ []) _ _ log
            (λ _. clean (is_empty-nil status (ground arith))) (λ a reply later. later) h)
        h

  fast_forward-safe :
      (upstream output : Text) (ahead behind : Text) (counts : Event) (log : List Event)
      → counts.asked.arguments
        ≡ lit "rev-list" ∷ lit "--left-right" ∷ lit "--count" ∷ lit "HEAD...@{upstream}" ∷ []
      → counts.reply ≡ ok output
      → fields output ≡ ahead ∷ behind ∷ []
      → atoi_or_zero ahead ≡ 0
      → ltb 0 (atoi_or_zero behind) ≡ true
      → MergesSafely (counts ∷ log)
      → MergesSafely (fast_forward git root upstream (counts ∷ log)).1
  unfolding fast_forward
  fast_forward-safe upstream output ahead behind counts log e1 e2 e3 e4 e5 h =
      known_answer (lit "status") (lit "--porcelain=v2" ∷ lit "-z" ∷ []) _ _ (counts ∷ log)
        (λ merge. absurd (not_merge merge))
        (λ status reply later.
          merge_when_clean-safe upstream status _
            (λ clean. (refl, reply ∙ ap ok clean, e1, (output, ahead, behind, e2, e3, e4, e5)))
            later)
        h
    where
      not_merge : text_eq (lit "status") (lit "merge") ≡ true → ⊥
      not_merge = unfold lit text_eq in (λ e. ground arith)

  -- After the counts: only a branch that is behind and not ahead is merged.
  sync_counts-safe :
      (upstream output : Text) (counted : List Text) (counts : Event) (log : List Event)
      → counts.asked.arguments
        ≡ lit "rev-list" ∷ lit "--left-right" ∷ lit "--count" ∷ lit "HEAD...@{upstream}" ∷ []
      → counts.reply ≡ ok output
      → fields output ≡ counted
      → MergesSafely (counts ∷ log)
      → MergesSafely (sync_counts git root upstream output counted (counts ∷ log)).1
  unfolding sync_counts Keeps
  sync_counts-safe upstream output [] counts log e1 e2 e3 h = h
  sync_counts-safe upstream output (a ∷ []) counts log e1 e2 e3 h = h
  sync_counts-safe upstream output (a ∷ b ∷ c ∷ d) counts log e1 e2 e3 h = h
  sync_counts-safe upstream output (a ∷ b ∷ []) counts log e1 e2 e3 h =
      refuse-known (ltb 0 (atoi_or_zero a) && ltb 0 (atoi_or_zero b)) _ _ (counts ∷ log)
        (λ e. continue-MergesSafely _ _ _ (λ _ later k. k) (behind e (ltb 0 (atoi_or_zero b)) refl))
        h
    where
      behind :
          (ltb 0 (atoi_or_zero a) && ltb 0 (atoi_or_zero b)) ≡ false
          → (is_behind : Bool) → ltb 0 (atoi_or_zero b) ≡ is_behind
          → MergesSafely
              ((if is_behind then fast_forward git root upstream else pure tt) (counts ∷ log)).1
      behind e true k = fast_forward-safe upstream output a b counts log e1 e2 e3 (ground arith) k h
      behind e false k = h

  sync_upstream-Keeps : (upstream : Result Text) → Keeps (sync_upstream git root upstream)
  unfolding sync_upstream Keeps
  sync_upstream-Keeps (err e) log h = h
  sync_upstream-Keeps (ok upstream) log h =
      known_answer (lit "rev-list")
        (lit "--left-right" ∷ lit "--count" ∷ lit "HEAD...@{upstream}" ∷ []) _ _ log
        (λ merge. absurd (not_merge merge))
        (λ output reply later.
          sync_counts-safe (trim_space upstream) output (fields output) _ log refl reply refl later)
        h
    where
      not_merge : text_eq (lit "rev-list") (lit "merge") ≡ true → ⊥
      not_merge = unfold lit text_eq in (λ e. ground arith)

  sync_branch-Keeps : (head : Result Text) → Keeps (sync_branch git root head)
  unfolding sync_branch
  sync_branch-Keeps (err e) = Keeps-lift _
  sync_branch-Keeps (ok head) =
      Keeps-bind _ _
        (Keeps-attempt _ (Keeps-run git root none (lit "rev-parse") _ (unfold lit text_eq in refl)))
        sync_upstream-Keeps

  sync_remotes-Keeps :
      (mode revision remotes : Text) → Keeps (sync_remotes git root mode revision remotes)
  unfolding sync_remotes
  sync_remotes-Keeps mode revision remotes =
      Keeps-if (length (fields remotes) == 0) _ _ (Keeps-lift _) (
        Keeps-bind _ _
          (Keeps-or_fail _ _ (Keeps-run git root none (lit "fetch") _ (unfold lit text_eq in refl)))
          (λ fetched.
            Keeps-if (text_eq mode (lit "fetch") || not (is_empty revision)) _ _ (Keeps-lift _) (
              Keeps-bind _ _
                (Keeps-attempt _
                  (Keeps-run git root none (lit "symbolic-ref") _ (unfold lit text_eq in refl)))
                sync_branch-Keeps)))

  sync_in_mode-Keeps : (mode revision : Text) → Keeps (sync_in_mode git root mode revision)
  unfolding sync_in_mode
  sync_in_mode-Keeps mode revision =
      Keeps-bind _ _ (Keeps-refuse_if (not (known_mode mode)) _) (λ _.
        Keeps-if (text_eq mode (lit "none")) _ _ (Keeps-lift _) (
          Keeps-bind _ _
            (Keeps-or_fail _ _
              (Keeps-run git root none (lit "remote") _ (unfold lit text_eq in refl)))
            (sync_remotes-Keeps mode revision)))

  sync_before_add-Keeps : (given revision : Text) → Keeps (sync_before_add git root given revision)
  unfolding sync_before_add
  sync_before_add-Keeps given revision = sync_in_mode-Keeps _ revision

  add_worktree-Keeps : (o : AddWorktreeOptions) → Keeps (add_worktree git root o)
  unfolding add_worktree add_args
  add_worktree-Keeps o = Keeps-bind _ _ (Keeps-lift _) (λ _.
      Keeps-bind _ _ (sync_before_add-Keeps o.sync o.revision) (λ warnings.
        Keeps-bind _ _
          (Keeps-or_fail _ _
            (Keeps-run git root none (lit "worktree") _ (unfold lit text_eq in refl)))
          (λ added. Keeps-lift _)))

  -- Whatever Git answers, `Add` asks for a merge only directly after a clean status, which it asks
  -- for directly after counts that say that the branch is behind its upstream and not ahead of it.
  pub add_worktree-MergesSafely :
      (o : AddWorktreeOptions) (log : List Event)
      → MergesSafely log
      → MergesSafely (add_worktree git root o log).1
  add_worktree-MergesSafely o log h = unfold Keeps in (add_worktree-Keeps o log h)
