-- ===== src/Path/Cleaned.antt =====
-- `filepath.Clean` on Unix: a relative path that it gives and that does not begin with ".." never
-- leaves the directory that it is relative to.
use gitgit.Prelude.{
  ◌≡◌, refl, sym, ap, ◌∙◌, ◌⊎◌, inl, inr, Bool, true, false, not, ◌||◌, List, [], ◌∷◌, ◌++◌,
  reverse, reverse-append, All, Bool-cases, arith,
}
use mathlib.Core.List.{reverse_aux}
use mathlib.Core.Path.{subst}
use gitgit.Text.{Text, lit, text_eq, text_eq_iff, is_empty, has_prefix, contains_byte, split, join}
use gitgit.Text.Splitting.{split-join, split-All}
use gitgit.Path.{is_abs, clean_element, clean_elements, path_elements, written, clean}

-- An element that names an entry of its directory.
abbrev pub names_entry : Text → Bool
names_entry e = not (is_empty e || text_eq e (lit ".") || text_eq e (lit ".."))

abbrev IsEntry : Text → Type 0
IsEntry e = names_entry e ≡ true

abbrev IsPart : Text → Type 0
IsPart e = contains_byte e b'/' ≡ false

-- What is kept, the last first: entries only, or ".." at the bottom.
abbrev EndsUp : List Text → Type 0
EndsUp kept = (above : List Text) × (kept ≡ above ++ (lit ".." ∷ []))

abbrev IsKept : List Text → Type 0
IsKept kept = All IsPart kept × (All IsEntry kept ⊎ EndsUp kept)

abbrev is_nothing : Text → Bool
is_nothing e = is_empty e || text_eq e (lit ".")

entry : (e : Text) → is_nothing e ≡ false → text_eq e (lit "..") ≡ false → IsEntry e
entry e some' down = ground (arith, some', down)

up_is : (e : Text) → text_eq e (lit "..") ≡ true → e ≡ lit ".."
up_is e h = (text_eq_iff e (lit "..")).0 h

push_up : (e : Text) (kept : List Text) → EndsUp kept → EndsUp (e ∷ kept)
push_up e kept (above, same) = (e ∷ above, ap (λ k. e ∷ k) same)

pop_up :
    (last : Text) (kept : List Text)
    → text_eq last (lit "..") ≡ false
    → EndsUp (last ∷ kept)
    → EndsUp kept
pop_up last kept other ([], same) = absurd (cc (other, (text_eq_iff last (lit "..")).1 first))
  where
    first : last ≡ lit ".."
    first = cc
pop_up last kept other (e ∷ above, same) = (above, cc)

clean_element-IsKept :
    (e : Text) (kept : List Text) → IsPart e → IsKept kept → IsKept (clean_element false e kept)
unfolding clean_element
clean_element-IsKept e [] part h = elim (Bool-cases (is_nothing e)) [
  | inl nothing ↦ rw nothing h
  | inr some' ↦ rw some' (elim (Bool-cases (text_eq e (lit ".."))) [
    | inl up ↦ rw up ((part, tt), inr ([], ap (λ u. u ∷ []) (up_is e up)))
    | inr down ↦ rw down ((part, tt), inl (entry e some' down, tt))
  ])
]
clean_element-IsKept e (last ∷ kept) part h = elim (Bool-cases (is_nothing e)) [
  | inl nothing ↦ rw nothing h
  | inr some' ↦ rw some' (elim (Bool-cases (text_eq e (lit ".."))) [
    | inl up ↦ rw up (elim (Bool-cases (text_eq last (lit ".."))) [
      | inl climbs ↦ rw climbs (
        (part, h.0),
        elim h.1 [
          | inl entries ↦ absurd (ground (arith, entries.0, climbs))
          | inr ends ↦ inr (push_up e (last ∷ kept) ends)
        ],
      )
      | inr other ↦ rw other (
        h.0.1,
        elim h.1 [ inl entries ↦ inl entries.1 | inr ends ↦ inr (pop_up last kept other ends) ],
      )
    ])
    | inr down ↦ rw down (
      (part, h.0),
      elim h.1 [
        | inl entries ↦ inl (entry e some' down, entries)
        | inr ends ↦ inr (push_up e (last ∷ kept) ends)
      ],
    )
  ])
]

clean_elements-IsKept :
    (es kept : List Text) → All IsPart es → IsKept kept → IsKept (clean_elements false es kept)
unfolding clean_elements
clean_elements-IsKept [] kept parts h = h
clean_elements-IsKept (e ∷ es) kept parts h =
    clean_elements-IsKept es (clean_element false e kept) parts.1
      (clean_element-IsKept e kept parts.0 h)

module _ (P : Text → Type 0) where
  reverse_aux-All : (es acc : List Text) → All P es → All P acc → All P (reverse_aux es acc)
  reverse_aux-All [] acc all rest = rest
  reverse_aux-All (e ∷ es) acc all rest = reverse_aux-All es (e ∷ acc) all.1 (all.0, rest)

-- The elements of a cleaned relative path: entries only, or ".." in front.
abbrev StartsUp : List Text → Type 0
StartsUp es = (below : List Text) × (es ≡ lit ".." ∷ below)

IsCleaned : List Text → Type 0
IsCleaned es = All IsPart es × (All IsEntry es ⊎ StartsUp es)

path_elements-IsCleaned : (path : Text) → is_abs path ≡ false → IsCleaned (path_elements path)
unfolding path_elements IsCleaned
path_elements-IsCleaned path relative = rw relative (
    let (parts, ends) =
      clean_elements-IsKept (split b'/' path) [] (split-All b'/' path) (tt, inl tt) in
    (
      reverse_aux-All IsPart (clean_elements false (split b'/' path) []) [] parts tt,
      elim ends [
        | inl entries ↦
            inl (reverse_aux-All IsEntry (clean_elements false (split b'/' path) []) [] entries tt)
        | inr (above, same) ↦
            inr (reverse above, ap reverse same ∙ reverse-append above (lit ".." ∷ []))
      ],
    ))

-- ".." or what begins with "../".
abbrev pub climbs_first : Text → Bool
climbs_first path = text_eq path (lit "..") || has_prefix (lit "../") path

written-climbs : (es : List Text) → climbs_first (written false (lit ".." ∷ es)) ≡ true
unfolding written join text_eq has_prefix lit
written-climbs [] = refl
written-climbs (e ∷ es) = refl

written-entries :
    (es : List Text)
    → IsCleaned es
    → text_eq (written false es) (lit ".") ≡ false
    → climbs_first (written false es) ≡ false
    → All IsEntry (split b'/' (written false es))
unfolding IsCleaned written
written-entries [] h named stays = absurd (unfold written text_eq lit in ground (arith, named))
written-entries (e ∷ es) (parts, inl entries) named stays =
    subst (All IsEntry) (sym (split-join b'/' e es parts)) entries
written-entries (e ∷ es) (parts, inr (below, same)) named stays =
    absurd (cc (written-climbs below, same, stays))

cleaned-entries :
    (rooted : Bool) (es : List Text)
    → (rooted ≡ false → IsCleaned es)
    → is_abs (written rooted es) ≡ false
    → text_eq (written rooted es) (lit ".") ≡ false
    → climbs_first (written rooted es) ≡ false
    → All IsEntry (split b'/' (written rooted es))
cleaned-entries true es cleaned relative named stays =
    absurd (unfold written is_abs in ground (arith, relative))
cleaned-entries false es cleaned relative named stays =
    written-entries es (cleaned refl) named stays

-- Every element of a cleaned path names an entry, unless the path is absolute, ".", or begins with
-- "..".
pub clean-entries :
    (path : Text)
    → is_abs (clean path) ≡ false
    → text_eq (clean path) (lit ".") ≡ false
    → climbs_first (clean path) ≡ false
    → All (λ e. names_entry e ≡ true) (split b'/' (clean path))
unfolding clean
clean-entries path =
    cleaned-entries (is_abs path) (path_elements path) (path_elements-IsCleaned path)
