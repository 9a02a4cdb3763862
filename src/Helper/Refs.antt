-- ===== src/Helper/Refs.antt =====
-- internal/vscodehelper/methods.go: `refs.list`.
pub mod RoundTrip
use gitgit.Prelude.{
  ℕ, Bool, true, false, Option, none, some, List, [], ◌∷◌, ltb, length, ◌==◌, if◌then◌else◌,
}
use gitgit.Text.{Text, lit, text_eq, is_empty, has_prefix, has_suffix, split, trim_space}
use gitgit.Apperr.{
  Failure, Message, plain, formatted, counted, error_message, Result, ok, err, ◌>>=◌,
}
use gitgit.Git.Repository.{Repository}
use gitgit.Helper.Rpc.{
  Answer, answered, refused, Host, Serve, answer, settle, or_refuse, attempt, refuse_if,
  refuse_failed_if_cancelled, internal_error, invalid_params, invalid_git_output, git_command_error,
  run_read_only_git, max_output_bytes,
}
use gitgit.Helper.Rpc
use gitgit.Helper.Repository.{open_requested}
use gitgit.Helper.Discovery.{printed}

-- `Ref`; `Ref` and `FullName` of the source are one field here.
pub record Ref : Type 0 where
  pub full_name : Text
  pub name : Text
  pub kind : Text
  pub commit : Text
  pub current : Bool
  pub symbolic_to : Text

-- The kind of a ref, or none.
unfoldable pub ref_kind : Text → Option Text
ref_kind name =
    if has_prefix (lit "refs/heads/") name
    then some (lit "local")
    else if has_prefix (lit "refs/remotes/") name
    then some (lit "remote")
    else none

unfoldable pub ref_of : Text → List Text → Result Ref
unfolding ref_kind
ref_of current_ref (full_name ∷ name ∷ commit ∷ symbolic_to ∷ []) = elim (ref_kind full_name) [
  | none ↦ err (plain (formatted (lit "unexpected ref %q") (full_name ∷ [])))
  | some kind ↦ ok (record {
    full_name = full_name;
    name = name;
    kind = kind;
    commit = commit;
    current = text_eq full_name current_ref;
    symbolic_to = symbolic_to;
  })
]
ref_of current_ref fields =
    err (plain (counted (lit "unexpected ref field count %d") (length fields)))

unfoldable pub refs_of : Text → List Text → Result (List Ref)
unfolding ref_of
refs_of current_ref [] = ok []
refs_of current_ref (line ∷ lines) = do
  ref ← ref_of current_ref (split 0 line)
  refs ← refs_of current_ref lines
  ok (ref ∷ refs)

-- `bytes.TrimSuffix(output, "\n")`.
unfoldable pub without_newline : Text → Text
without_newline [] = []
without_newline (c ∷ []) = if c == b'\n' then [] else c ∷ []
without_newline (c ∷ d ∷ cs) = c ∷ without_newline (d ∷ cs)

-- `parseRefs`.
unfoldable pub parse_refs : Text → Text → Result (List Ref)
unfolding refs_of without_newline
parse_refs output current_ref =
    let shown = without_newline output in
    if is_empty shown then ok [] else refs_of current_ref (split b'\n' shown)
