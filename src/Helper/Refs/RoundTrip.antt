-- ===== src/Helper/Refs/RoundTrip.antt =====
-- internal/vscodehelper/methods.go: `parseRefs` reads back what Git prints for the refs.
use gitgit.Prelude.{
  ◌≡◌, refl, sym, ap, ◌∙◌, Bool, false, Option, none, some, List, [], ◌∷◌, ◌++◌, map, append_assoc,
  append-nil, All, ℕ, if◌then◌else◌, arith,
}
use gitgit.Text.{Text, lit, text_eq, is_empty, contains_byte, split, join}
use gitgit.Text.Splitting.{split-join}
use gitgit.Apperr.{plain, formatted, ok, err}
use gitgit.Helper.Refs.{Ref, ref_kind, ref_of, refs_of, without_newline, parse_refs}

-- The line that Git prints for a ref with the format of `listRefs`.
abbrev pub ref_fields : Ref → List Text
ref_fields r = r.full_name ∷ r.name ∷ r.commit ∷ r.symbolic_to ∷ []

abbrev pub ref_line : Ref → Text
ref_line r = join 0 (ref_fields r)

-- The whole output: each line with a line feed behind it.
abbrev pub ref_lines : List Ref → Text
ref_lines [] = []
ref_lines (r ∷ rs) = ref_line r ++ b'\n' ∷ ref_lines rs

-- A ref of Git for a current ref: none of its parts has a NUL byte, its line has no line feed, and
-- its kind and its mark are those of its name.
pub record IsRef (current_ref : Text) (r : Ref) : Type 0 where
  pub plain : All (λ t. contains_byte t 0 ≡ false) (ref_fields r)
  pub one_line : contains_byte (ref_line r) b'\n' ≡ false
  pub kind_of : ref_kind r.full_name ≡ some r.kind
  pub marked : text_eq r.full_name current_ref ≡ r.current

given-append : (t : Text) (c : ℕ) (u : Text) → is_empty (t ++ c ∷ u) ≡ false
unfolding is_empty
given-append [] c u = refl
given-append (d ∷ t) c u = refl

without_newline-append :
    (t u : Text) → is_empty u ≡ false → without_newline (t ++ u) ≡ t ++ without_newline u
unfolding without_newline is_empty
without_newline-append [] u h = refl
without_newline-append (c ∷ []) [] h = absurd (ground arith)
without_newline-append (c ∷ []) (d ∷ u) h = refl
without_newline-append (c ∷ e ∷ t) u h = ap (λ v. c ∷ v) (without_newline-append (e ∷ t) u h)

without_newline-lines :
    (r : Ref) (rs : List Ref)
    → without_newline (ref_lines (r ∷ rs)) ≡ join b'\n' (map ref_line (r ∷ rs))
unfolding join without_newline
without_newline-lines r [] =
    without_newline-append (ref_line r) (b'\n' ∷ []) (unfold is_empty in refl)
    ∙ append-nil (ref_line r)
without_newline-lines r (q ∷ rs) =
    ap without_newline (sym (append_assoc (ref_line r) (b'\n' ∷ []) (ref_lines (q ∷ rs))))
    ∙ without_newline-append (ref_line r ++ b'\n' ∷ []) (ref_lines (q ∷ rs))
        (given-append (ref_line q) b'\n' (ref_lines rs))
    ∙ ap (λ u. (ref_line r ++ b'\n' ∷ []) ++ u) (without_newline-lines q rs)
    ∙ append_assoc (ref_line r) (b'\n' ∷ []) _

line-given : (r : Ref) (rs : List Ref) → is_empty (join b'\n' (map ref_line (r ∷ rs))) ≡ false
unfolding join
line-given r [] = given-append r.full_name 0 _
line-given r (q ∷ rs) = given-append (ref_line r) b'\n' _

module _ (current_ref : Text) where
  ref_of-line : (r : Ref) → IsRef current_ref r → ref_of current_ref (split 0 (ref_line r)) ≡ ok r
  unfolding ref_of
  ref_of-line r h =
      ap (ref_of current_ref) (split-join 0 r.full_name _ h.plain)
      ∙ read (ref_kind r.full_name) h.kind_of (text_eq r.full_name current_ref) h.marked
    where
      read :
          (kind : Option Text)
          → kind ≡ some r.kind
          → (mark : Bool) → mark ≡ r.current
          → elim kind [
            | none ↦ err (plain (formatted (lit "unexpected ref %q") (r.full_name ∷ [])))
            | some k ↦ ok (record r { kind = k; current = mark })
          ]
            ≡ ok r
      read kind e mark m = rw (e, m) refl

  refs_of-lines :
      (rs : List Ref) → All (IsRef current_ref) rs → refs_of current_ref (map ref_line rs) ≡ ok rs
  unfolding refs_of
  refs_of-lines [] all = refl
  refs_of-lines (r ∷ rs) all = rw (ref_of-line r all.0, refs_of-lines rs all.1) refl

  -- The lines that Git prints for any refs are read back as those refs, in order, when no part has
  -- a NUL byte, no line a line feed, each name is one of a branch or of a remote-tracking branch,
  -- and the current ref is the one that is marked.
  pub parse_refs-lines :
      (rs : List Ref) → All (IsRef current_ref) rs → parse_refs (ref_lines rs) current_ref ≡ ok rs
  unfolding parse_refs
  parse_refs-lines [] all = unfold without_newline is_empty in refl
  parse_refs-lines (r ∷ rs) all =
      ap (λ shown. if is_empty shown then ok [] else refs_of current_ref (split b'\n' shown))
        (without_newline-lines r rs)
      ∙ rw (line-given r rs) (
          ap (refs_of current_ref)
            (split-join b'\n' (ref_line r) (map ref_line rs) (one_lines (r ∷ rs) all))
          ∙ refs_of-lines (r ∷ rs) all)
    where
      one_lines :
          (qs : List Ref)
          → All (IsRef current_ref) qs
          → All (λ t. contains_byte t b'\n' ≡ false) (map ref_line qs)
      one_lines [] all = tt
      one_lines (q ∷ qs) all = (all.0.one_line, one_lines qs all.1)
