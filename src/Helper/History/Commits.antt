-- ===== src/Helper/History/Commits.antt =====
-- internal/vscodehelper/methods.go: `parseFileHistory`, and that it reads back what Git prints.
use gitgit.Prelude.{
  ◌*◌, ◌%◌, ◌≡◌, refl, ap, true, false, not, List, [], ◌∷◌, ◌++◌, ◌==◌, length, All, if◌then◌else◌,
  arith,
}
use gitgit.Text.{Text, lit, is_empty, contains_byte, fields, split, trim_space}
use gitgit.Apperr.{plain, counted, Result, ok, err}
use gitgit.Search.Changes.{FileChange}
use gitgit.Search.Changes.RoundTrip.{terminated, split_tokens}

pub record Author : Type 0 where
  pub name : Text
  pub email : Text

pub record HistoryCommit : Type 0 where
  pub commit : Text
  pub short_commit : Text
  pub message : Text
  pub date : Text
  pub author : Author
  pub parents : List Text
  pub files : List FileChange

-- `fields[:len(fields)-1]` where the last field is empty.
unfoldable pub without_last_empty : List Text → List Text
without_last_empty [] = []
without_last_empty (t ∷ []) = if is_empty t then [] else t ∷ []
without_last_empty (t ∷ u ∷ ts) = t ∷ without_last_empty (u ∷ ts)

-- The loop of `parseFileHistory`, seven fields at a time.
unfoldable pub history_commits : List Text → List HistoryCommit
history_commits (commit ∷ short ∷ parents ∷ name ∷ email ∷ date ∷ message ∷ rest) =
    record {
      commit = commit;
      short_commit = short;
      message = trim_space message;
      date = date;
      author = record { name = name; email = email };
      parents = fields parents;
      files = [];
    }
    ∷ history_commits rest
history_commits _ = []

-- `parseFileHistory`.
unfoldable pub parse_file_history : Text → Result (List HistoryCommit)
unfolding without_last_empty history_commits
parse_file_history output =
    let found = without_last_empty (split 0 output) in
    if not (length found % 7 == 0)
    then err (plain (counted (lit "unexpected history field count %d") (length found)))
    else ok (history_commits found)

-- What Git prints for a commit with the format of `fileHistory`.
pub record Printed : Type 0 where
  pub hash : Text
  pub abbreviated : Text
  pub parents : Text
  pub author_name : Text
  pub author_email : Text
  pub date : Text
  pub body : Text

abbrev pub printed_fields : Printed → List Text
printed_fields p =
    p.hash ∷ p.abbreviated ∷ p.parents ∷ p.author_name ∷ p.author_email ∷ p.date ∷ p.body ∷ []

abbrev pub all_fields : List Printed → List Text
all_fields [] = []
all_fields (p ∷ ps) = printed_fields p ++ all_fields ps

abbrev pub commit_of : Printed → HistoryCommit
commit_of p = record {
  commit = p.hash;
  short_commit = p.abbreviated;
  message = trim_space p.body;
  date = p.date;
  author = record { name = p.author_name; email = p.author_email };
  parents = fields p.parents;
  files = [];
}

abbrev pub commits_of : List Printed → List HistoryCommit
commits_of [] = []
commits_of (p ∷ ps) = commit_of p ∷ commits_of ps

without_last_empty-last : (ts : List Text) → without_last_empty (ts ++ ([] ∷ [])) ≡ ts
unfolding without_last_empty
without_last_empty-last [] = unfold is_empty in refl
without_last_empty-last (t ∷ []) = unfold is_empty in refl
without_last_empty-last (t ∷ u ∷ ts) = ap (λ us. t ∷ us) (without_last_empty-last (u ∷ ts))

all_fields-count : (ps : List Printed) → length (all_fields ps) ≡ 7 * length ps
all_fields-count [] = refl
all_fields-count (p ∷ ps) = omega (arith, all_fields-count ps)

history_commits-fields : (ps : List Printed) → history_commits (all_fields ps) ≡ commits_of ps
unfolding history_commits
history_commits-fields [] = refl
history_commits-fields (p ∷ ps) = ap (λ cs. commit_of p ∷ cs) (history_commits-fields ps)

-- The history that Git prints, with a NUL byte behind each field, is read back commit for commit in
-- its order, when no field has a NUL byte: a message may have any other bytes.
pub parse_file_history-fields :
    (ps : List Printed)
    → All (λ t. contains_byte t 0 ≡ false) (all_fields ps)
    → parse_file_history (terminated (all_fields ps)) ≡ ok (commits_of ps)
unfolding parse_file_history
parse_file_history-fields ps plain_fields =
    rw (split_tokens (all_fields ps) plain_fields, without_last_empty-last (all_fields ps))
      (rw (divided ps) (ap ok (history_commits-fields ps)))
  where
    divided : (qs : List Printed) → (length (all_fields qs) % 7 == 0) ≡ true
    divided qs = ground (arith, all_fields-count qs)
