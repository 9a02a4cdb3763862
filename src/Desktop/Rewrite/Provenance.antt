-- ===== src/Desktop/Rewrite/Provenance.antt =====
-- internal/desktop/commit_rewrite.go: the provenance of a message does not pile up over rewrites.
use gitgit.Prelude.{
  ◌≡◌, refl, sym, ap, ◌∙◌, false, List, [], ◌∷◌, ◌++◌, reverse, reverse-append, reverse-reverse,
  append_assoc, All,
}
use mathlib.Core.Path.{subst}
use mathlib.Core.List.{reverse-cons}
use gitgit.Text.{Text, is_empty, contains_byte, split, join, replace_crlf}
use gitgit.Text.Lines.{IsLine, split-All, split-join, join-line, join-append, replace_crlf-same}
use gitgit.Desktop.Rewrite.{
  is_rewrite_provenance_trailer, is_blank, drop_lines, stripped_lines,
  strip_trailing_rewrite_provenance, note_trailers, append_rewrite_provenance,
}
use gitgit.Desktop.Rewrite.Stripping.{
  drop_lines-All, drop_lines-again, reverse-All_lines, drop_front, from_line, note_line,
  from-IsLine, note-IsLine, blank_line, strip_one, strip_two,
}

-- The lines in front of the trailers: one empty line where the message is empty.
abbrev padded : List Text → List Text
padded [] = [] ∷ []
padded (t ∷ ts) = t ∷ ts

padded-All : (ts : List Text) → All IsLine ts → All IsLine (padded ts)
unfolding contains_byte
padded-All [] all = ((refl, refl), tt)
padded-All (t ∷ ts) all = all

padded-stripped :
    (base lines : List Text)
    → base ≡ reverse lines
    → drop_lines is_blank lines ≡ lines
    → drop_lines is_blank (reverse (padded base)) ≡ lines
padded-stripped [] lines e same =
    drop_front is_blank [] [] blank_line
    ∙ unfold drop_lines in (ap reverse e ∙ reverse-reverse lines)
padded-stripped (t ∷ ts) lines e same =
    ap (drop_lines is_blank) (ap reverse e ∙ reverse-reverse lines) ∙ same

join-padded :
    (base : List Text) (t : Text) (ts : List Text)
    → join b'\n' base ++ (b'\n' ∷ b'\n' ∷ join b'\n' (t ∷ ts))
      ≡ join b'\n' (padded base ++ ([] ∷ t ∷ ts))
join-padded [] t ts = unfold join in refl
join-padded (b ∷ bs) t ts = sym (join-append b bs [] (t ∷ ts) ∙ unfold join in refl)

All-append : (ts us : List Text) → All IsLine ts → All IsLine us → All IsLine (ts ++ us)
All-append [] us all others = others
All-append (t ∷ ts) us all others = (all.0, All-append ts us all.1 others)

split_lines :
    (ts : List Text) (u : Text) (us : List Text)
    → All IsLine (ts ++ (u ∷ us))
    → split b'\n' (replace_crlf (join b'\n' (ts ++ (u ∷ us)))) ≡ ts ++ (u ∷ us)
split_lines [] u us all =
    ap (split b'\n') (replace_crlf-same _ (join-line (u ∷ us) all)) ∙ split-join u us all
split_lines (t ∷ ts) u us all =
    ap (split b'\n') (replace_crlf-same _ (join-line (t ∷ (ts ++ (u ∷ us))) all))
    ∙ split-join t (ts ++ (u ∷ us)) all

-- The lines that are left of a message without a carriage return.
abbrev left_of : Text → List Text
left_of message = stripped_lines (reverse (split b'\n' (replace_crlf message)))

left_of-again : (message : Text) → drop_lines is_blank (left_of message) ≡ left_of message
unfolding stripped_lines
left_of-again message = drop_lines-again is_blank _

left_of-All : (message : Text) → contains_byte message b'\r' ≡ false → All IsLine (left_of message)
unfolding stripped_lines
left_of-All message h = drop_lines-All is_blank _ (
    drop_lines-All is_rewrite_provenance_trailer _ (
      drop_lines-All is_blank _ (
        reverse-All_lines (split b'\n' (replace_crlf message)) []
          (subst (λ m. All IsLine (split b'\n' m)) (sym (replace_crlf-same message h))
            (split-All message h))
          tt)))

-- A message with its trailers, as lines.
abbrev appended_lines : Text → List Text → List Text
appended_lines message trailers = padded (reverse (left_of message)) ++ ([] ∷ trailers)

appended_lines-All :
    (message : Text) (trailers : List Text)
    → contains_byte message b'\r' ≡ false
    → All IsLine trailers
    → All IsLine (appended_lines message trailers)
unfolding contains_byte
appended_lines-All message trailers h all =
    All-append (padded (reverse (left_of message))) ([] ∷ trailers)
      (padded-All (reverse (left_of message))
        (reverse-All_lines (left_of message) [] (left_of-All message h) tt))
      ((refl, refl), all)

strip-appended :
    (message trailer : Text) (trailers : List Text)
    → contains_byte message b'\r' ≡ false
    → All IsLine (trailer ∷ trailers)
    → ((rest : List Text)
        → stripped_lines (reverse (trailer ∷ trailers) ++ ([] ∷ rest)) ≡ drop_lines is_blank rest)
    → strip_trailing_rewrite_provenance (
        strip_trailing_rewrite_provenance message
        ++ (b'\n' ∷ b'\n' ∷ join b'\n' (trailer ∷ trailers)))
      ≡ strip_trailing_rewrite_provenance message
unfolding strip_trailing_rewrite_provenance
strip-appended message trailer trailers h all strips =
    ap (λ text. join b'\n' (reverse (left_of text)))
      (join-padded (reverse (left_of message)) trailer trailers)
    ∙ ap (λ lines. join b'\n' (reverse (stripped_lines (reverse lines))))
        (split_lines (padded (reverse (left_of message))) [] (trailer ∷ trailers)
          (appended_lines-All message (trailer ∷ trailers) h all))
    ∙ ap (λ lines. join b'\n' (reverse (stripped_lines lines)))
        (reverse-append (padded (reverse (left_of message))) ([] ∷ trailer ∷ trailers)
          ∙ ap (λ front. front ++ reverse (padded (reverse (left_of message))))
              (reverse-cons [] (trailer ∷ trailers))
          ∙ append_assoc (reverse (trailer ∷ trailers)) ([] ∷ []) _)
    ∙ ap (λ lines. join b'\n' (reverse lines))
        (strips (reverse (padded (reverse (left_of message))))
          ∙ padded-stripped (reverse (left_of message)) (left_of message) refl
              (left_of-again message))

abbrev trailers_behind : Text → Text → Text
trailers_behind oid note = b'\n' ∷ b'\n' ∷ join b'\n' (from_line oid ∷ note_trailers note)

-- What a rewrite has appended is taken off before the next rewrite appends its own: of a message
-- that was rewritten twice, only the trailers of the second rewrite are left. The message holds no
-- carriage return, and the object id and the note of the first rewrite are single lines.
pub append-append_rewrite_provenance :
    (message first_oid first_note oid note : Text)
    → contains_byte message b'\r' ≡ false
    → IsLine first_oid
    → IsLine first_note
    → append_rewrite_provenance (append_rewrite_provenance message first_oid first_note) oid note
      ≡ append_rewrite_provenance message oid note
unfolding append_rewrite_provenance is_empty
append-append_rewrite_provenance message first_oid [] oid note h plain noted =
    ap (λ base. base ++ trailers_behind oid note)
      (strip-appended message (from_line first_oid) [] h (from-IsLine first_oid plain, tt)
        (strip_one first_oid))
append-append_rewrite_provenance message first_oid (c ∷ cs) oid note h plain noted =
    ap (λ base. base ++ trailers_behind oid note)
      (strip-appended message (from_line first_oid) (note_line (c ∷ cs) ∷ []) h
        (from-IsLine first_oid plain, (note-IsLine (c ∷ cs) noted, tt))
        (strip_two first_oid (c ∷ cs)))
