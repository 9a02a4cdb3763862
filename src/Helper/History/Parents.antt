-- ===== src/Helper/History/Parents.antt =====
-- internal/vscodehelper/methods.go: what `readFirstParentsBatch` answers.
use mathlib.Core.Path.{subst}
use gitgit.Prelude.{
  ◌≡◌, ◌⊎◌, inl, refl, sym, ◌∙◌, Bool, true, false, List, [], ◌∷◌, if◌then◌else◌, arith,
}
use gitgit.Text.{Text, lit, is_empty, fields, split, trim_space}
use gitgit.Assoc.{Assoc, get, put, AllValues, AllValues-put}
use gitgit.Git.{Event}
use gitgit.Helper.Rpc.{Answer, answered, refused, Host, settle}
use gitgit.Helper.Rpc.Inversion.{>>=-eq-answered, answered_eq, answer-eq}
use gitgit.Helper.Revision.{is_object_id}
use gitgit.Helper.History.{
  each_to, ParentLine, no_parents, parent_of, bad_line, parent_line, parent_lines, set_parent,
  parents_of, all_seen, invalid_output, read_first_parents_batch,
}
use gitgit.Helper.History.Keys.{HasKeys, is_some, each_to-HasKeys, put-HasKeys}

-- No parent, or an object id.
abbrev pub IsParent : Text → Type 0
IsParent parent = (parent ≡ []) ⊎ (is_object_id parent ≡ true)

pub record IsParents (commits : List Text) (parents : Assoc Text) : Type 0 where
  pub keys : HasKeys commits parents
  pub ids : AllValues IsParent parents

line_parent :
    (parents : Assoc Text) (seen line : List Text) (commit parent : Text)
    → parent_line parents seen line ≡ parent_of commit parent
    → (is_some (get commit parents) ≡ true) × IsParent parent
unfolding parent_line
line_parent parents seen [] commit parent e = absurd (ground arith)
line_parent parents seen (c ∷ []) commit parent e = ground arith
line_parent parents seen (c ∷ p ∷ ps) commit parent e = ground arith

module _ (commits : List Text) where
  set_parent-IsParents :
      (commit parent : Text) (parents : Assoc Text)
      → is_some (get commit parents) ≡ true
      → IsParent parent
      → IsParents commits parents
      → IsParents commits (set_parent commit parent parents)
  unfolding set_parent
  set_parent-IsParents commit parent parents known is_parent h = go (is_empty parent)
    where
      go : (b : Bool) → IsParents commits (if b then parents else put commit parent parents)
      go true = h
      go false = record {
        keys = put-HasKeys commits commit parent parents (sym (h.keys commit) ∙ known) h.keys;
        ids = AllValues-put IsParent commit parent parents is_parent h.ids;
      }

  -- The parents that a loop gives are those of the commits.
  GivesParents : Answer (Assoc Text × List Text) → Type 0
  GivesParents a = (p : Assoc Text × List Text) → a ≡ answered p → IsParents commits p.0

  GivesParents-line :
      (k : ParentLine) (a : Answer (Assoc Text × List Text))
      (f : Text → Text → Answer (Assoc Text × List Text))
      → GivesParents a
      → ((commit parent : Text) → k ≡ parent_of commit parent → GivesParents (f commit parent))
      → GivesParents (elim k [
        | no_parents ↦ a
        | parent_of commit parent ↦ f commit parent
        | bad_line text ↦ refused (invalid_output text)
      ])
  unfolding GivesParents
  GivesParents-line no_parents a f ha hf = ha
  GivesParents-line (parent_of commit parent) a f ha hf = hf commit parent refl
  GivesParents-line (bad_line text) a f ha hf = λ p e. cc

  parent_lines-GivesParents :
      (lines : List Text) (parents : Assoc Text) (seen : List Text)
      → IsParents commits parents
      → GivesParents (parent_lines lines parents seen)
  unfolding parent_lines
  parent_lines-GivesParents [] parents seen h =
      unfold GivesParents in λ p e. subst (λ q. IsParents commits q.0) (answered_eq e) h
  parent_lines-GivesParents (line ∷ lines) parents seen h =
      GivesParents-line (parent_line parents seen (fields line)) _ _
        (parent_lines-GivesParents lines parents seen h)
        (λ commit parent e.
          let (known, id) = line_parent parents seen (fields line) commit parent e in
          parent_lines-GivesParents lines (set_parent commit parent parents) (commit ∷ seen)
            (set_parent-IsParents commit parent parents known id h))

each_to-AllValues :
    (cs : List Text) (m : Assoc Text) → AllValues IsParent m → AllValues IsParent (each_to [] cs m)
unfolding each_to
each_to-AllValues [] m h = h
each_to-AllValues (c ∷ cs) m h =
    each_to-AllValues cs (put c [] m) (AllValues-put IsParent c [] m (inl refl) h)

empty-IsParents : (commits : List Text) → IsParents commits (each_to [] commits [])
empty-IsParents commits = record {
  keys = each_to-HasKeys [] commits;
  ids = each_to-AllValues commits [] tt;
}

-- The map that is answered behind the last loop is the one of the lines.
seen-IsParents :
    (commits : List Text) (a : Answer (Assoc Text × List Text)) {parents : Assoc Text}
    → GivesParents commits a
    → elim a [
      | refused e ↦ refused e
      | answered p ↦
          if all_seen p.1 p.0
          then answered p.0
          else refused (invalid_output (lit "Git omitted requested parent metadata"))
    ]
      ≡ answered parents
    → IsParents commits parents
unfolding GivesParents
seen-IsParents commits (refused e) gives h = absurd (ground arith)
seen-IsParents commits (answered p) gives h =
    subst (IsParents commits) (ground arith) (gives p refl)

-- The parents that are answered are a map whose keys are exactly the commits asked for, each with no
-- parent or with an object id, whatever Git prints.
pub read_first_parents_batch-IsParents :
    (host : Host) (root : Text) (commits : List Text) (log : List Event) {parents : Assoc Text}
    → (read_first_parents_batch host root commits log).0 ≡ answered parents
    → IsParents commits parents
unfolding read_first_parents_batch
read_first_parents_batch-IsParents host root [] log h =
    subst (IsParents []) (answer-eq _ log h) (unfold each_to in empty-IsParents [])
read_first_parents_batch-IsParents host root (c ∷ cs) log h =
    let (output, _, last) = >>=-eq-answered _ _ _ h in
    unfold settle parents_of in
    seen-IsParents (c ∷ cs) _
      (parent_lines-GivesParents (c ∷ cs) (split b'\n' (trim_space output)) (each_to [] (c ∷ cs) [])
        [] (empty-IsParents (c ∷ cs)))
      last
