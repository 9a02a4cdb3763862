-- ===== src/Search/Changes/RoundTrip.antt =====
-- internal/app/search.go: `ReadCommitFileChangesBatch` reads back what Git prints for the commits.
use gitgit.Prelude.{
  ℕ, ◌≡◌, refl, sym, ap, ◌∙◌, Bool, true, false, List, [], ◌∷◌, ◌++◌, append_assoc, append-nil, All,
  Bool-cases, inl, inr, if◌then◌else◌, arith,
}
use gitgit.Text.{Text, lit, text_eq, text_eq_iff, is_empty, contains_byte, contains, split}
use gitgit.Assoc.{get, get-put}
use gitgit.Apperr.{ok, ◌>>=◌}
use gitgit.Search.Changes.{
  FileChange, is_hex, all_bytes, is_git_object_id, is_file_change_status, commit, takes_one,
  takes_two, moves, one_path, two_paths, token_kind, Changes, changes_or_none, add_change,
  read_tokens,
}

-- The tokens that stand for a change, for the changes of a commit, and for all of them.
abbrev pub change_tokens : FileChange → List Text
change_tokens c =
    if moves c.status then c.status ∷ c.old_path ∷ c.path ∷ [] else c.status ∷ c.path ∷ []

abbrev pub changes_tokens : List FileChange → List Text
changes_tokens [] = []
changes_tokens (c ∷ cs) = change_tokens c ++ changes_tokens cs

abbrev pub batch_tokens : List (Text × List FileChange) → List Text
batch_tokens [] = []
batch_tokens ((oid, cs) ∷ rest) = oid ∷ (changes_tokens cs ++ batch_tokens rest)

-- Each token with a NUL byte behind it.
abbrev pub terminated : List Text → Text
terminated [] = []
terminated (t ∷ ts) = t ++ 0 ∷ terminated ts

-- The changes of the commits, added one after the other.
abbrev with_changes : Text → List FileChange → Changes → Changes
with_changes oid [] m = m
with_changes oid (c ∷ cs) m = with_changes oid cs (add_change oid c m)

abbrev with_batch : List (Text × List FileChange) → Changes → Changes
with_batch [] m = m
with_batch ((oid, cs) ∷ rest) m = with_batch rest (with_changes oid cs m)

-- A change as Git prints it: only a rename or a copy has an old path.
abbrev pub IsChange : FileChange → Type 0
IsChange c = (is_file_change_status c.status ≡ true) × (moves c.status ≡ false → c.old_path ≡ [])

abbrev pub IsSection : List Text → Text × List FileChange → Type 0
IsSection requested (oid, cs) =
    (is_git_object_id oid ≡ true) × (contains requested oid ≡ true) × All IsChange cs

letter_not_hex : (c : ℕ) → contains_byte (lit "ACDMRTUXB") c ≡ true → is_hex c ≡ false
unfolding contains_byte lit is_hex
letter_not_hex c h = ground arith

status_not_id : (s : Text) → is_file_change_status s ≡ true → is_git_object_id s ≡ false
unfolding is_file_change_status is_git_object_id all_bytes
status_not_id [] h = ground arith
status_not_id (c ∷ cs) h = ground (arith, letter_not_hex c)

token_kind-status :
    (requested : List Text) (current s : Text)
    → is_file_change_status s ≡ true
    → is_empty current ≡ false
    → token_kind requested current s ≡ (if moves s then takes_two else takes_one)
unfolding token_kind is_empty
token_kind-status requested current [] h k = unfold is_file_change_status in ground arith
token_kind-status requested current (c ∷ cs) h k = rw (status_not_id (c ∷ cs) h) (rw (h, k) refl)

token_kind-commit :
    (requested : List Text) (current oid : Text)
    → is_git_object_id oid ≡ true
    → contains requested oid ≡ true
    → token_kind requested current oid ≡ commit
unfolding token_kind is_empty
token_kind-commit requested current [] h k = unfold is_git_object_id in ground arith
token_kind-commit requested current (c ∷ cs) h k = rw (h, k) refl

read_tokens-commit :
    (requested : List Text) (current oid : Text) (tokens : List Text) (m : Changes)
    → token_kind requested current oid ≡ commit
    → read_tokens requested (oid ∷ tokens) current m ≡ read_tokens requested tokens oid m
unfolding read_tokens
read_tokens-commit requested current oid [] m e = rw (read_tokens, e) refl
read_tokens-commit requested current oid (p ∷ []) m e = rw (read_tokens, e) refl
read_tokens-commit requested current oid (p ∷ q ∷ tokens) m e = rw (read_tokens, e) refl

split-terminated :
    (t rest : Text) → contains_byte t 0 ≡ false → split 0 (t ++ 0 ∷ rest) ≡ t ∷ split 0 rest
unfolding split contains_byte
split-terminated [] rest h = refl
split-terminated (c ∷ cs) rest h = rw (split-terminated cs rest (ground arith)) (ground arith)

pub split_tokens :
    (ts : List Text)
    → All (λ t. contains_byte t 0 ≡ false) ts
    → split 0 (terminated ts) ≡ ts ++ ([] ∷ [])
split_tokens [] all = unfold split in refl
split_tokens (t ∷ ts) all =
    split-terminated t (terminated ts) all.0 ∙ ap (λ us. t ∷ us) (split_tokens ts all.1)

module _ (requested : List Text) (oid : Text) where
  read_tokens-two :
      (status old path : Text) (tokens : List Text) (m : Changes)
      → token_kind requested oid status ≡ takes_two
      → read_tokens requested (status ∷ old ∷ path ∷ tokens) oid m
        ≡ read_tokens requested tokens oid (add_change oid (two_paths status old path) m)
  unfolding read_tokens
  read_tokens-two status old path tokens m e = rw (read_tokens, e) refl

  read_tokens-one :
      (status path : Text) (tokens : List Text) (m : Changes)
      → token_kind requested oid status ≡ takes_one
      → read_tokens requested (status ∷ path ∷ tokens) oid m
        ≡ read_tokens requested tokens oid (add_change oid (one_path status path) m)
  unfolding read_tokens
  read_tokens-one status path [] m e = rw (read_tokens, e) refl
  read_tokens-one status path (t ∷ tokens) m e = rw (read_tokens, e) refl

module _ (requested : List Text) where
  read_tokens-change :
      (oid : Text) (c : FileChange) (tokens : List Text) (m : Changes)
      → IsChange c
      → is_empty oid ≡ false
      → read_tokens requested (change_tokens c ++ tokens) oid m
        ≡ read_tokens requested tokens oid (add_change oid c m)
  read_tokens-change oid c tokens m valid given =
      go (moves c.status) refl (token_kind-status requested oid c.status valid.0 given)
    where
      go :
          (two : Bool)
          → moves c.status ≡ two
          → token_kind requested oid c.status ≡ (if moves c.status then takes_two else takes_one)
          → read_tokens requested
              ((if two then c.status ∷ c.old_path ∷ c.path ∷ [] else c.status ∷ c.path ∷ [])
                ++ tokens)
              oid
              m
            ≡ read_tokens requested tokens oid (add_change oid c m)
      go true e k =
          read_tokens-two requested oid c.status c.old_path c.path tokens m (k ∙ rw e refl)
      go false e k =
          read_tokens-one requested oid c.status c.path tokens m (k ∙ rw e refl)
          ∙ ap
              (λ old.
                read_tokens requested tokens oid (add_change oid (record c { old_path = old }) m))
              (sym (valid.1 e))

  read_tokens-changes :
      (oid : Text) (cs : List FileChange) (tokens : List Text) (m : Changes)
      → All IsChange cs
      → is_empty oid ≡ false
      → read_tokens requested (changes_tokens cs ++ tokens) oid m
        ≡ read_tokens requested tokens oid (with_changes oid cs m)
  read_tokens-changes oid [] tokens m all given = refl
  read_tokens-changes oid (c ∷ cs) tokens m all given =
      ap (λ ts. read_tokens requested ts oid m)
        (append_assoc (change_tokens c) (changes_tokens cs) tokens)
      ∙ read_tokens-change oid c (changes_tokens cs ++ tokens) m all.0 given
      ∙ read_tokens-changes oid cs tokens (add_change oid c m) all.1 given

  id_given : (oid : Text) → is_git_object_id oid ≡ true → is_empty oid ≡ false
  unfolding is_git_object_id is_empty
  id_given [] h = ground arith
  id_given (c ∷ cs) h = refl

  read_tokens-batch :
      (batch : List (Text × List FileChange)) (current : Text) (m : Changes)
      → All (IsSection requested) batch
      → read_tokens requested (batch_tokens batch ++ ([] ∷ [])) current m ≡ ok (with_batch batch m)
  read_tokens-batch [] current m all = unfold read_tokens token_kind is_empty in refl
  read_tokens-batch ((oid, cs) ∷ batch) current m all =
      read_tokens-commit requested current oid _ m
        (token_kind-commit requested current oid all.0.0 all.0.1)
      ∙ ap (λ ts. read_tokens requested ts oid m)
          (append_assoc (changes_tokens cs) (batch_tokens batch) ([] ∷ []))
      ∙ read_tokens-changes oid cs (batch_tokens batch ++ ([] ∷ [])) m all.0.2
          (id_given oid all.0.0)
      ∙ read_tokens-batch batch oid (with_changes oid cs m) all.1

abbrev pub changes_of : Text → Changes → List FileChange
changes_of oid m = changes_or_none (get oid m)

-- The changes that are printed for a commit, in their order; a commit may stand in the batch
-- more than once.
abbrev pub printed_for : Text → List (Text × List FileChange) → List FileChange
printed_for oid [] = []
printed_for oid ((printed, cs) ∷ rest) =
    if text_eq printed oid then cs ++ printed_for oid rest else printed_for oid rest

module _ (oid : Text) where
  changes_of-add_change :
      (printed : Text) (c : FileChange) (m : Changes)
      → changes_of oid (add_change printed c m)
        ≡ (if text_eq printed oid then changes_of oid m ++ (c ∷ []) else changes_of oid m)
  unfolding add_change
  changes_of-add_change printed c m =
      rw (get-put printed oid (changes_of printed m ++ (c ∷ [])) m)
        (elim (Bool-cases (text_eq printed oid)) [
          | inl e ↦ rw (e, (text_eq_iff printed oid).0 e) refl
          | inr e ↦ rw e refl
        ])

  changes_of-with_changes :
      (printed : Text) (cs : List FileChange) (m : Changes)
      → changes_of oid (with_changes printed cs m)
        ≡ (if text_eq printed oid then changes_of oid m ++ cs else changes_of oid m)
  changes_of-with_changes printed [] m = elim (Bool-cases (text_eq printed oid)) [
    | inl e ↦ rw e (sym (append-nil (changes_of oid m)))
    | inr e ↦ rw e refl
  ]
  changes_of-with_changes printed (c ∷ cs) m =
      changes_of-with_changes printed cs (add_change printed c m)
      ∙ rw (changes_of-add_change printed c m) (elim (Bool-cases (text_eq printed oid)) [
        | inl e ↦ rw e (append_assoc (changes_of oid m) (c ∷ []) cs)
        | inr e ↦ rw e refl
      ])

  changes_of-with_batch :
      (batch : List (Text × List FileChange)) (m : Changes)
      → changes_of oid (with_batch batch m) ≡ changes_of oid m ++ printed_for oid batch
  changes_of-with_batch [] m = sym (append-nil (changes_of oid m))
  changes_of-with_batch ((printed, cs) ∷ rest) m =
      changes_of-with_batch rest (with_changes printed cs m)
      ∙ rw (changes_of-with_changes printed cs m) (elim (Bool-cases (text_eq printed oid)) [
        | inl e ↦ rw e (append_assoc (changes_of oid m) cs (printed_for oid rest))
        | inr e ↦ rw e refl
      ])

-- What Git prints for a batch of commits that were asked for, with a NUL byte behind each token,
-- is read back: behind the changes that a commit had before, it has those that were printed for it,
-- in their order, and nothing else. No token may hold a NUL byte; a path may be any text, also one
-- that looks like an object id or a status.
pub read_tokens-terminated :
    (requested : List Text) (batch : List (Text × List FileChange)) (m : Changes) (oid : Text)
    → All (IsSection requested) batch
    → All (λ t. contains_byte t 0 ≡ false) (batch_tokens batch)
    → (do
      found ← read_tokens requested (split 0 (terminated (batch_tokens batch))) [] m
      ok (changes_of oid found))
      ≡ ok (changes_of oid m ++ printed_for oid batch)
read_tokens-terminated requested batch m oid all plain =
    rw (split_tokens (batch_tokens batch) plain, read_tokens-batch requested batch [] m all)
      (ap ok (changes_of-with_batch oid batch m))
