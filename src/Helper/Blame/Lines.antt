-- ===== src/Helper/Blame/Lines.antt =====
-- internal/vscodehelper/methods.go: the lines that `parseLinePorcelain` reads.
use mathlib.Core.Path.{subst}
use gitgit.Prelude.{
  ◌≡◌, refl, sym, ap, ◌∙◌, Bool, true, false, not, Option, none, some, List, [], ◌∷◌, All, arith, ℤ,
}
use gitgit.Text.{Text, lit, is_empty, cut, fields, split}
use gitgit.Text.Numbers.{parse_int}
use gitgit.Apperr.{Failure, Result, ok, err, ◌>>=◌, ◌>>◌, refuse_if, ok_eq}
use gitgit.Helper.Revision.{is_object_id}
use gitgit.Helper.Blame.{
  BlameLine, Pending, new_pending, number_or, with_field, with_line, blame_header, tab_content,
  blame_error, porcelain_lines, parse_line_porcelain,
}

abbrev pub IsBlamed : BlameLine → Type 0
IsBlamed l = is_object_id l.commit ≡ true

-- A result whose lines all name a commit.
GivesBlamed : Result (List BlameLine) → Type 0
GivesBlamed r = (ls : List BlameLine) → r ≡ ok ls → All IsBlamed ls

with_field-commit :
    (key value : Text) (p : Pending) → (with_field key value p).item.commit ≡ p.item.commit
unfolding with_field
with_field-commit key value p = ground arith

with_line-commit : (line : Text) (p : Pending) → (with_line line p).item.commit ≡ p.item.commit
unfolding with_line
with_line-commit line p = ground (arith, with_field-commit (cut b' ' line).0 (cut b' ' line).1 p)

GivesBlamed-err : (e : Failure) → GivesBlamed (err e)
unfolding GivesBlamed
GivesBlamed-err e ls h = absurd (ground arith)

GivesBlamed-bind {ℓ} :
    {A : Type ℓ} (r : Result A) (f : A → Result (List BlameLine))
    → ((a : A) → r ≡ ok a → GivesBlamed (f a))
    → GivesBlamed (r >>= f)
unfolding GivesBlamed
GivesBlamed-bind (ok a) f h = h a refl
GivesBlamed-bind (err e) f h = λ ls k. absurd (ground arith)

GivesBlamed-elim :
    (b : Bool) (x y : Result (List BlameLine))
    → GivesBlamed x
    → GivesBlamed y
    → GivesBlamed (elim b [ true ↦ x | false ↦ y ])
GivesBlamed-elim true x y hx hy = hx
GivesBlamed-elim false x y hx hy = hy

GivesBlamed-content :
    (o : Option Text) (x : Result (List BlameLine)) (f : Text → Result (List BlameLine))
    → GivesBlamed x
    → ((t : Text) → GivesBlamed (f t))
    → GivesBlamed (elim o [ none ↦ x | some t ↦ f t ])
GivesBlamed-content none x f hx hf = hx
GivesBlamed-content (some t) x f hx hf = hf t

GivesBlamed-cons :
    (l : BlameLine) (r : Result (List BlameLine))
    → IsBlamed l
    → GivesBlamed r
    → GivesBlamed (r >>= λ rest. ok (l ∷ rest))
unfolding GivesBlamed
GivesBlamed-cons l (err e) hl hr ls k = absurd (ground arith)
GivesBlamed-cons l (ok rest) hl hr ls k = subst (All IsBlamed) (ok_eq k) (hl, hr rest refl)

header_pending :
    (commit : Text) (b : Bool) (rest : Result Pending) (p : Pending)
    → (refuse_if (not b) (blame_error (lit "invalid blame header")) >> rest) ≡ ok p
    → (b ≡ true) × (rest ≡ ok p)
header_pending commit true rest p e = (refl, e)
header_pending commit false rest p e = absurd (ground arith)

numbers-commit :
    (commit : Text) (original final : Result ℤ) (p : Pending)
    → (original >>= λ m. final >>= λ n. ok (new_pending commit m n)) ≡ ok p
    → p.item.commit ≡ commit
numbers-commit commit (err e) final p h = absurd (ground arith)
numbers-commit commit (ok m) (err e) p h = absurd (ground arith)
numbers-commit commit (ok m) (ok n) p h = ap (λ q. q.item.commit) (sym (ok_eq h))

blame_header-IsBlamed :
    (words : List Text) (p : Pending) → blame_header words ≡ ok p → IsBlamed p.item
unfolding blame_header
blame_header-IsBlamed [] p e = absurd (ground arith)
blame_header-IsBlamed (a ∷ []) p e = absurd (ground arith)
blame_header-IsBlamed (a ∷ b ∷ []) p e = absurd (ground arith)
blame_header-IsBlamed (commit ∷ original ∷ final ∷ words) p e =
    let (id, rest) = header_pending commit (is_object_id commit) _ p e in
    ap is_object_id (
      numbers-commit commit
        (number_or (lit "invalid original blame line: %w") original (parse_int original))
        (number_or (lit "invalid final blame line: %w") final (parse_int final)) p rest)
    ∙ id

module _ (written : ℤ → ℤ → Text) where
  abbrev IsOpen : Option Pending → Type 0
  IsOpen none = Unit
  IsOpen (some p) = IsBlamed p.item

  porcelain_lines-GivesBlamed :
      (o : Option Pending) (lines : List Text)
      → IsOpen o
      → GivesBlamed (porcelain_lines written o lines)
  unfolding porcelain_lines
  porcelain_lines-GivesBlamed none [] h =
      unfold GivesBlamed in λ ls e. subst (All IsBlamed) (ok_eq e) tt
  porcelain_lines-GivesBlamed (some p) [] h = GivesBlamed-err _
  porcelain_lines-GivesBlamed none (line ∷ lines) h =
      GivesBlamed-elim (is_empty line) _ _ (porcelain_lines-GivesBlamed none lines tt) (
        GivesBlamed-bind (blame_header (fields line)) _ (λ p e.
          porcelain_lines-GivesBlamed (some p) lines (blame_header-IsBlamed (fields line) p e)))
  porcelain_lines-GivesBlamed (some p) (line ∷ lines) h =
      GivesBlamed-content (tab_content line) _ _
        (porcelain_lines-GivesBlamed (some (with_line line p)) lines
          (ap is_object_id (with_line-commit line p) ∙ h))
        (λ content. GivesBlamed-cons _ _ h (porcelain_lines-GivesBlamed none lines tt))

  -- Every line of blame that is read names an object id as its commit, whatever Git prints.
  pub parse_line_porcelain-IsBlamed :
      (output : Text) {ls : List BlameLine}
      → parse_line_porcelain written output ≡ ok ls
      → All IsBlamed ls
  unfolding parse_line_porcelain GivesBlamed
  parse_line_porcelain-IsBlamed output h =
      porcelain_lines-GivesBlamed none (split b'\n' output) tt _ h
