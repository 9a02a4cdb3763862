-- ===== src/Search/Commits/RoundTrip.antt =====
-- internal/app/search.go: `listCommits` reads back the log that it asks for.
use gitgit.Prelude.{
  ◌*◌, ◌%◌, ◌≡◌, refl, ap, ◌∙◌, false, not, List, [], ◌∷◌, ◌++◌, map, ◌==◌, length, All,
  if◌then◌else◌, arith,
}
use gitgit.Text.{Text, is_empty, contains_byte, trim_space}
use gitgit.Apperr.{ok, err}
use gitgit.Search.Changes.{parse_search_decorations}
use gitgit.Search.Changes.RoundTrip.{terminated, split_tokens}
use gitgit.Search.Commits.{CommitMeta, without_last_empty, commits_loop, uneven, read_commits}

-- A commit as the format of the log prints it.
pub record Logged : Type 0 where
  pub oid : Text
  pub name : Text
  pub email : Text
  pub date : Text
  pub body : Text
  pub decoration : Text

abbrev pub log_fields : List Logged → List Text
log_fields [] = []
log_fields (c ∷ cs) = c.oid ∷ c.name ∷ c.email ∷ c.date ∷ c.body ∷ c.decoration ∷ log_fields cs

abbrev pub meta_of : Logged → CommitMeta
meta_of c = record {
  oid = c.oid;
  author_name = c.name;
  author_email = c.email;
  message = trim_space c.body;
  date = c.date;
  refs = parse_search_decorations c.decoration;
}

without_last_empty-append : (ts : List Text) → without_last_empty (ts ++ ([] ∷ [])) ≡ ts
unfolding without_last_empty is_empty
without_last_empty-append [] = refl
without_last_empty-append (t ∷ []) = refl
without_last_empty-append (t ∷ u ∷ ts) = ap (λ us. t ∷ us) (without_last_empty-append (u ∷ ts))

length-log_fields : (cs : List Logged) → length (log_fields cs) ≡ length cs * 6
length-log_fields [] = refl
length-log_fields (c ∷ cs) = omega (arith, length-log_fields cs)

commits_loop-log_fields : (cs : List Logged) → commits_loop (log_fields cs) ≡ map meta_of cs
unfolding commits_loop
commits_loop-log_fields [] = refl
commits_loop-log_fields (c ∷ cs) = ap (λ ms. meta_of c ∷ ms) (commits_loop-log_fields cs)

six_fields :
    (cs : List Logged)
    → (if not (length (log_fields cs) % 6 == 0)
        then err (uneven (length (log_fields cs)))
        else ok (commits_loop (log_fields cs)))
      ≡ ok (commits_loop (log_fields cs))
six_fields cs = ground (arith, length-log_fields cs)

-- The commits of a log whose fields hold no NUL byte are read back, each field where the format
-- put it, the body trimmed and the decoration parsed; a message or a decoration that is empty
-- shifts no field, also in the last commit.
pub read_commits-terminated :
    (cs : List Logged)
    → All (λ t. contains_byte t 0 ≡ false) (log_fields cs)
    → read_commits (terminated (log_fields cs)) ≡ ok (map meta_of cs)
unfolding read_commits
read_commits-terminated cs plain =
    ap
      (λ fields.
        if not (length fields % 6 == 0)
        then err (uneven (length fields))
        else ok (commits_loop fields))
      (ap without_last_empty (split_tokens (log_fields cs) plain)
        ∙ without_last_empty-append (log_fields cs))
    ∙ six_fields cs
    ∙ ap ok (commits_loop-log_fields cs)
