-- ===== src/Git/Environment.antt =====
-- The environment that internal/gitexec/runner.go gives to Git.
use gitgit.Prelude.{
  ◌≡◌, refl, ◌∙◌, true, false, Option, none, some, List, [], ◌∷◌, ◌++◌, arith, Bool-cases, inl, inr,
  if◌then◌else◌,
}
use gitgit.Text.{Text, lit, text_eq, text_eq_iff, contains, has_prefix, cut}
use gitgit.Git.{
  Invocation, is_repository_selection_environment, is_left_out, sanitized_git_environment,
  process_environment,
}

abbrev key_of : Text → Text
key_of entry = (cut b'=' entry).0

abbrev here : Text → Text → Option Text
here key entry = if text_eq (key_of entry) key then some (cut b'=' entry).1 else none

abbrev later_or : Option Text → Option Text → Option Text
later_or (some v) o = some v
later_or none o = o

-- The value that a process reads for a key: the last entry counts.
abbrev pub effective : Text → List Text → Option Text
effective key [] = none
effective key (entry ∷ entries) = later_or (effective key entries) (here key entry)

later_or_assoc : (a b c : Option Text) → later_or (later_or a b) c ≡ later_or a (later_or b c)
later_or_assoc (some v) b c = refl
later_or_assoc none b c = refl

later_or-none : (a : Option Text) → later_or a none ≡ a
later_or-none (some v) = refl
later_or-none none = refl

effective-append :
    (key : Text) (xs ys : List Text)
    → effective key (xs ++ ys) ≡ later_or (effective key ys) (effective key xs)
effective-append key [] ys = rw later_or-none
effective-append key (x ∷ xs) ys =
    rw (effective-append key xs ys)
      (later_or_assoc (effective key ys) (effective key xs) (here key x))

abbrev IsSelection : Text → Type 0
IsSelection key = is_repository_selection_environment key ≡ true

other_key :
    (key entry : Text)
    → IsSelection key
    → is_repository_selection_environment (key_of entry) ≡ false
    → here key entry ≡ none
other_key key entry h e = ground (arith, text_eq_iff (key_of entry) key)

kept_key :
    (entry : Text)
    → is_left_out entry ≡ false
    → is_repository_selection_environment (key_of entry) ≡ false
unfolding is_left_out
kept_key entry e = ground arith

effective-sanitized :
    (key : Text) (environ : List Text)
    → IsSelection key
    → effective key (sanitized_git_environment environ) ≡ none
unfolding sanitized_git_environment
effective-sanitized key [] h = refl
effective-sanitized key (e ∷ es) h = elim (Bool-cases (is_left_out e)) [
  | inl dropped ↦ rw dropped (effective-sanitized key es h)
  | inr kept ↦ rw (kept, effective-sanitized key es h) (other_key key e h (kept_key e kept))
]

pager_is_other : is_repository_selection_environment (key_of (lit "GIT_PAGER=cat")) ≡ false
unfolding is_repository_selection_environment contains has_prefix cut lit text_eq
pager_is_other = refl

locale_is_other : is_repository_selection_environment (key_of (lit "LC_ALL=C")) ≡ false
unfolding is_repository_selection_environment contains has_prefix cut lit text_eq
locale_is_other = refl

-- A variable that selects a repository or injects configuration has for Git the value that the
-- call overrides it with, and none if it does not: what the surrounding process has set for it
-- never reaches Git.
pub effective-process_environment :
    (key : Text) (environ : List Text) (i : Invocation)
    → is_repository_selection_environment key ≡ true
    → effective key (process_environment environ i) ≡ effective key i.overrides
unfolding process_environment
effective-process_environment key environ i h =
    effective-append key (sanitized_git_environment environ) _
    ∙ rw
        (
          effective-sanitized key environ h,
          other_key key (lit "GIT_PAGER=cat") h pager_is_other,
          other_key key (lit "LC_ALL=C") h locale_is_other,
        )
        (rw (later_or-none, later_or-none, later_or-none))
