-- ===== src/Helper/Progress.antt =====
-- internal/vscodehelper/search_diff.go: the progress notifications of a search.
use gitgit.Prelude.{
  ℕ, ◌+◌, ◌≤◌, ◌≡◌, refl, inl, inr, Bool, true, false, not, ◌||◌, List, [], ◌∷◌, ◌++◌, ltb, leb,
  ◌==◌, length, All, Bool-cases, if◌then◌else◌, arith,
}
use gitgit.Text.{Text, is_empty}
use gitgit.Search.Run.{SearchProgress}

-- `ProgressParams` without the id of the request.
pub record ProgressParams : Type 0 where
  pub scanned : ℕ
  pub total : ℕ
  pub is_done : Bool
  pub is_cancelled : Bool

-- `progressReporter`; `has_sink` is `p != nil && p.sink != nil`, and `written` holds what was
-- given to the sink, the last first.
pub record ProgressReporter : Type 0 where
  pub request_id : Text
  pub has_sink : Bool
  pub sent : ℕ
  pub last : SearchProgress
  pub finished : Bool
  pub written : List ProgressParams

abbrev pub max_progress_updates : ℕ
max_progress_updates = 200

-- `newProgressReporter`.
unfoldable pub new_progress_reporter : Text → ProgressReporter
new_progress_reporter request_id = record {
  request_id = request_id;
  has_sink = true;
  sent = 0;
  last = record { scanned = 0; total = 0 };
  finished = false;
  written = [];
}

-- The test that both methods begin with, and the one behind the lock.
abbrev is_silent : ProgressReporter → Bool
is_silent p = not p.has_sink || is_empty p.request_id || p.finished

-- `report`.
unfoldable pub report : SearchProgress → ProgressReporter → ProgressReporter
report progress p =
    if is_silent p
    then p
    else if leb max_progress_updates p.sent
    then record p { last = progress }
    else record p {
      last = progress;
      sent = p.sent + 1;
      written =
          record {
            scanned = progress.scanned;
            total = progress.total;
            is_done = false;
            is_cancelled = false;
          }
          ∷ p.written;
    }

abbrev final_notice : ℕ → ℕ → Bool → ProgressParams
final_notice scanned total cancelled = record {
  scanned = scanned;
  total = if ltb total scanned then scanned else total;
  is_done = true;
  is_cancelled = cancelled;
}

-- `done`.
unfoldable pub done : ℕ → Bool → ProgressReporter → ProgressReporter
done scanned cancelled p = if is_silent p then p else record p {
  finished = true;
  written =
      final_notice (if scanned == 0 then p.last.scanned else scanned) p.last.total cancelled
      ∷ p.written;
}

pub data Call : Type 0 where
  reported : SearchProgress → Call
  ended : ℕ → Bool → Call

-- The calls of a search in any order, since it reports from several places.
unfoldable pub after_calls : List Call → ProgressReporter → ProgressReporter
unfolding report done
after_calls [] p = p
after_calls (reported progress ∷ calls) p = after_calls calls (report progress p)
after_calls (ended scanned cancelled ∷ calls) p = after_calls calls (done scanned cancelled p)

abbrev IsUpdate : ProgressParams → Type 0
IsUpdate n = n.is_done ≡ false

-- A last notification: its total is not below what was scanned.
abbrev IsLast : ProgressParams → Type 0
IsLast n = (n.is_done ≡ true) × (n.scanned ≤ n.total)

abbrev AreUpdates : List ProgressParams → Type 0
AreUpdates updates = All IsUpdate updates × (length updates ≤ 200)

abbrev pub EndsWell : List ProgressParams → Type 0
EndsWell [] = ⊥
EndsWell (n ∷ updates) = IsLast n × AreUpdates updates

-- Updates only while it is not finished; behind them one last notification when it is.
abbrev pub IsStream : ProgressReporter → Type 0
IsStream p = (p.finished ≡ false → AreUpdates p.written) × (p.finished ≡ true → EndsWell p.written)

abbrev IsCounted : ProgressReporter → Type 0
IsCounted p = p.finished ≡ false → length p.written ≡ p.sent

final_notice-IsLast :
    (scanned total : ℕ) (cancelled : Bool) → IsLast (final_notice scanned total cancelled)
final_notice-IsLast scanned total cancelled = (refl, ground arith)

open_when_heard : (p : ProgressReporter) → is_silent p ≡ false → p.finished ≡ false
open_when_heard p h = ground arith

report-IsStream :
    (progress : SearchProgress) (p : ProgressReporter)
    → IsStream p
    → IsCounted p
    → IsStream (report progress p) × IsCounted (report progress p)
unfolding report
report-IsStream progress p stream counted = elim (Bool-cases (is_silent p)) [
  | inl silent ↦ rw silent (stream, counted)
  | inr heard ↦ rw heard (elim (Bool-cases (leb max_progress_updates p.sent)) [
    | inl full ↦ rw full (stream, counted)
    | inr room ↦ rw room (
      (
        λ e. ((refl, (stream.0 e).0), ground (arith, counted e)),
        λ e. absurd (ground (arith, open_when_heard p heard)),
      ),
      λ e. ground (arith, counted e),
    )
  ])
]

done-IsStream :
    (scanned : ℕ) (cancelled : Bool) (p : ProgressReporter)
    → IsStream p
    → IsCounted p
    → IsStream (done scanned cancelled p) × IsCounted (done scanned cancelled p)
unfolding done
done-IsStream scanned cancelled p stream counted = elim (Bool-cases (is_silent p)) [
  | inl silent ↦ rw silent (stream, counted)
  | inr heard ↦ rw heard (
    (
      λ e. absurd (ground arith),
      λ e. (final_notice-IsLast _ _ cancelled, stream.0 (open_when_heard p heard)),
    ),
    λ e. absurd (ground arith),
  )
]

IsStream-after_calls :
    (calls : List Call) (p : ProgressReporter)
    → IsStream p
    → IsCounted p
    → IsStream (after_calls calls p)
unfolding after_calls
IsStream-after_calls [] p stream counted = stream
IsStream-after_calls (reported progress ∷ calls) p stream counted =
    let (stream', counted') = report-IsStream progress p stream counted in
    IsStream-after_calls calls (report progress p) stream' counted'
IsStream-after_calls (ended scanned cancelled ∷ calls) p stream counted =
    let (stream', counted') = done-IsStream scanned cancelled p stream counted in
    IsStream-after_calls calls (done scanned cancelled p) stream' counted'

-- Whatever the calls of `report` and `done` and their order, the sink is given at most 200 updates
-- until the reporter is finished, and behind them exactly one last notification once it is, whose
-- total is not below what it says was scanned.
pub after_calls-IsStream :
    (calls : List Call) (request_id : Text)
    → IsStream (after_calls calls (new_progress_reporter request_id))
unfolding new_progress_reporter
after_calls-IsStream calls request_id =
    IsStream-after_calls calls (new_progress_reporter request_id)
      ((λ e. (tt, omega arith)), λ e. absurd (ground arith)) (λ e. refl)

abbrev IsHeard : ProgressReporter → Type 0
IsHeard p = (p.has_sink ≡ true) × (is_empty p.request_id ≡ false)

report-IsHeard :
    (progress : SearchProgress) (p : ProgressReporter) → IsHeard p → IsHeard (report progress p)
unfolding report
report-IsHeard progress p h = ground (arith, h.0, h.1)

done-IsHeard :
    (scanned : ℕ) (cancelled : Bool) (p : ProgressReporter)
    → IsHeard p
    → IsHeard (done scanned cancelled p)
unfolding done
done-IsHeard scanned cancelled p h = ground (arith, h.0, h.1)

done-finished :
    (scanned : ℕ) (cancelled : Bool) (p : ProgressReporter)
    → IsHeard p
    → (done scanned cancelled p).finished ≡ true
unfolding done
done-finished scanned cancelled p h = ground (arith, h.0, h.1)

after_calls-finished :
    (calls : List Call) (scanned : ℕ) (cancelled : Bool) (p : ProgressReporter)
    → IsHeard p
    → (after_calls (calls ++ ended scanned cancelled ∷ []) p).finished ≡ true
unfolding after_calls
after_calls-finished [] scanned cancelled p h = done-finished scanned cancelled p h
after_calls-finished (reported progress ∷ calls) scanned cancelled p h =
    after_calls-finished calls scanned cancelled (report progress p) (report-IsHeard progress p h)
after_calls-finished (ended n c ∷ calls) scanned cancelled p h =
    after_calls-finished calls scanned cancelled (done n c p) (done-IsHeard n c p h)

-- A request with an id whose search ends, so that `done` is the last call, has given the sink a last
-- notification as the last thing written, and before it at most 200 updates and nothing else, also
-- when it was finished before.
pub after_calls-EndsWell :
    (calls : List Call) (scanned : ℕ) (cancelled : Bool) (request_id : Text)
    → is_empty request_id ≡ false
    → EndsWell
        (after_calls
          (calls ++ ended scanned cancelled ∷ [])
          (new_progress_reporter request_id)).written
after_calls-EndsWell calls scanned cancelled request_id given =
    (after_calls-IsStream (calls ++ ended scanned cancelled ∷ []) request_id).1 (
      after_calls-finished calls scanned cancelled (new_progress_reporter request_id)
        (unfold new_progress_reporter in (refl, given)))
