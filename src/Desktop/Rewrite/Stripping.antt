-- ===== src/Desktop/Rewrite/Stripping.antt =====
-- internal/desktop/commit_rewrite.go: what the loops of `stripTrailingRewriteProvenance` take off.
use gitgit.Prelude.{◌≡◌, refl, ap, ◌∙◌, Bool, true, false, List, [], ◌∷◌, ◌++◌, All, if◌then◌else◌}
use mathlib.Core.List.{reverse_aux}
use gitgit.Text.{Text, lit, is_empty, has_prefix, contains_byte, trim_space}
use gitgit.Text.Lines.{IsLine, letter-kept}
use gitgit.Desktop.Rewrite.{is_rewrite_provenance_trailer, is_blank, drop_lines, stripped_lines}

pub drop_lines-All :
    (test : Text → Bool) (ts : List Text) → All IsLine ts → All IsLine (drop_lines test ts)
unfolding drop_lines
drop_lines-All test [] all = tt
drop_lines-All test (t ∷ ts) all = choose (test t) (drop_lines-All test ts all.1)
  where
    choose :
        (b : Bool)
        → All IsLine (drop_lines test ts)
        → All IsLine (if b then drop_lines test ts else t ∷ ts)
    choose true rest = rest
    choose false rest = all

pub drop_lines-again :
    (test : Text → Bool) (ts : List Text)
    → drop_lines test (drop_lines test ts) ≡ drop_lines test ts
unfolding drop_lines
drop_lines-again test [] = refl
drop_lines-again test (t ∷ ts) = choose (test t) refl (drop_lines-again test ts)
  where
    choose :
        (b : Bool)
        → test t ≡ b
        → drop_lines test (drop_lines test ts) ≡ drop_lines test ts
        → drop_lines test (if b then drop_lines test ts else t ∷ ts)
          ≡ (if b then drop_lines test ts else t ∷ ts)
    choose true e again = again
    choose false e again = rw e refl

pub reverse-All_lines :
    (ts us : List Text) → All IsLine ts → All IsLine us → All IsLine (reverse_aux ts us)
reverse-All_lines [] us all others = others
reverse-All_lines (t ∷ ts) us all others = reverse-All_lines ts (t ∷ us) all.1 (all.0, others)

pub drop_front :
    (test : Text → Bool) (t : Text) (ts : List Text)
    → test t ≡ true
    → drop_lines test (t ∷ ts) ≡ drop_lines test ts
unfolding drop_lines
drop_front test t ts h = rw h refl

pub keep_front :
    (test : Text → Bool) (t : Text) (ts : List Text)
    → test t ≡ false
    → drop_lines test (t ∷ ts) ≡ t ∷ ts
unfolding drop_lines
keep_front test t ts h = rw h refl

-- The two kinds of trailers that are written.
abbrev pub from_line : Text → Text
from_line oid = lit "rewritten from: " ++ oid

abbrev pub note_line : Text → Text
note_line note = lit "GitGit-Rewrite-Note: " ++ note

pub from-trailer : (oid : Text) → is_rewrite_provenance_trailer (from_line oid) ≡ true
unfolding is_rewrite_provenance_trailer has_prefix lit
from-trailer oid = refl

pub note-trailer : (note : Text) → is_rewrite_provenance_trailer (note_line note) ≡ true
unfolding is_rewrite_provenance_trailer has_prefix lit
note-trailer note = refl

pub from-not_blank : (oid : Text) → is_blank (from_line oid) ≡ false
unfolding is_blank lit
from-not_blank oid = letter-kept b'r' _ (refl, refl)

pub note-not_blank : (note : Text) → is_blank (note_line note) ≡ false
unfolding is_blank lit
note-not_blank note = letter-kept b'G' _ (refl, refl)

pub from-IsLine : (oid : Text) → IsLine oid → IsLine (from_line oid)
unfolding lit contains_byte
from-IsLine oid h = (h.0, h.1)

pub note-IsLine : (note : Text) → IsLine note → IsLine (note_line note)
unfolding lit contains_byte
note-IsLine note h = (h.0, h.1)

pub blank_line : is_blank [] ≡ true
unfolding is_blank is_empty trim_space
blank_line = refl

pub blank_is_no_trailer : is_rewrite_provenance_trailer [] ≡ false
unfolding is_rewrite_provenance_trailer has_prefix lit
blank_is_no_trailer = refl

-- The lines of the trailers, the last first, are taken off again.
abbrev pub reversed_trailers : Text → Text → List Text
reversed_trailers oid note =
    if is_empty note then from_line oid ∷ [] else note_line note ∷ from_line oid ∷ []

pub strip_one :
    (oid : Text) (rest : List Text)
    → stripped_lines (from_line oid ∷ [] ∷ rest) ≡ drop_lines is_blank rest
unfolding stripped_lines
strip_one oid rest =
    ap (λ ts. drop_lines is_blank (drop_lines is_rewrite_provenance_trailer ts))
      (keep_front is_blank (from_line oid) ([] ∷ rest) (from-not_blank oid))
    ∙ ap (drop_lines is_blank) (
        drop_front is_rewrite_provenance_trailer (from_line oid) ([] ∷ rest) (from-trailer oid)
        ∙ keep_front is_rewrite_provenance_trailer [] rest blank_is_no_trailer)
    ∙ drop_front is_blank [] rest blank_line

pub strip_two :
    (oid note : Text) (rest : List Text)
    → stripped_lines (note_line note ∷ from_line oid ∷ [] ∷ rest) ≡ drop_lines is_blank rest
unfolding stripped_lines
strip_two oid note rest =
    ap (λ ts. drop_lines is_blank (drop_lines is_rewrite_provenance_trailer ts))
      (keep_front is_blank (note_line note) (from_line oid ∷ [] ∷ rest) (note-not_blank note))
    ∙ ap (drop_lines is_blank) (
        drop_front is_rewrite_provenance_trailer (note_line note) (from_line oid ∷ [] ∷ rest)
          (note-trailer note)
        ∙ drop_front is_rewrite_provenance_trailer (from_line oid) ([] ∷ rest) (from-trailer oid)
        ∙ keep_front is_rewrite_provenance_trailer [] rest blank_is_no_trailer)
    ∙ drop_front is_blank [] rest blank_line
