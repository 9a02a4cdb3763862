-- ===== src/Helper/Revision.antt =====
-- internal/vscodehelper/methods.go: revisions, and the contents of a file at one.
pub mod Reading
use gitgit.Prelude.{
  ℕ, ◌+◌, Bool, true, false, not, ◌&&◌, ◌||◌, Option, none, some, List, [], ◌∷◌, ◌++◌, reverse, ltb,
  ◌==◌, length, if◌then◌else◌, ℤ, pos, negsuc,
}
use gitgit.Text.{
  Text, lit, text_eq, is_empty, has_prefix, has_suffix, contains_byte, count_byte, trim_space,
}
use gitgit.Text.Numbers.{parse_int}
use gitgit.Apperr.{Result, ok, err}
use gitgit.Search.Changes.{is_hex, all_bytes}
use gitgit.Helper.Rpc.{
  Answer, answered, refused, RpcError, Host, Serve, answer, refuse, settle, or_refuse, ◌>>=◌, ◌>>◌,
  refuse_if, invalid_params, internal_error, cancelled_or, git_command_error, run_read_only_git,
  max_text_bytes,
}

-- `isObjectID`: every character is one of "0123456789abcdef".
unfoldable pub is_object_id : Text → Bool
is_object_id t = (length t == 40 || length t == 64) && all_bytes is_hex t

-- A control character that ends a line of Git's input, or the text itself.
unfoldable pub has_control : Text → Bool
has_control t = contains_byte t 0 || contains_byte t b'\n' || contains_byte t b'\r'

-- `validateRevision`, with none for nil.
unfoldable pub validate_revision : Text → Option RpcError
validate_revision revision =
    let trimmed = trim_space revision in
    if is_empty trimmed
    then some (invalid_params (lit "revision_required") (lit "revision is required"))
    else if has_prefix (lit "-") trimmed
    then some (invalid_params (lit "invalid_revision") (lit "revision cannot be a Git option"))
    else if has_control trimmed
    then some (
        invalid_params (lit "invalid_revision")
          (lit "revision contains an invalid control character"))
    else none

unfoldable pub refuse_some : Option RpcError → Serve (Unit {0})
refuse_some none log = (answered tt, log)
refuse_some (some e) log = (refused e, log)

-- `validateText`, of the test `utf8.Valid`.
unfoldable pub validate_text : (Text → Bool) → Text → Option RpcError
validate_text valid_utf8 content =
    if ltb max_text_bytes (length content)
    then some
        (invalid_params (lit "file_too_large") (lit "file exceeds the helper text size limit"))
    else if contains_byte content 0 || not (valid_utf8 content)
    then some
        (invalid_params (lit "binary_file") (lit "binary or non-UTF-8 files are not supported"))
    else none

-- `textLineCount`.
unfoldable pub text_line_count : Text → ℕ
text_line_count content =
    if is_empty content
    then 0
    else count_byte b'\n' content + (if has_suffix (lit "\n") content then 0 else 1)

-- `literalPathspec`.
unfoldable pub literal_pathspec : Text → Text
literal_pathspec path = lit ":(literal)" ++ path

-- The size that `cat-file -s` prints: what `ParseInt` reads, and no negative number.
unfoldable pub blob_size : Text → Answer ℕ
blob_size output = elim (parse_int (trim_space output)) [
  | some (pos n) ↦ answered n
  | _ ↦
      refused (internal_error (lit "invalid_git_output") (lit "Git returned an invalid blob size"))
]

module _ (host : Host) (root : Text) where
  -- `resolveRevision`.
  unfoldable pub resolve_revision : Text → Serve Text
  unfolding validate_revision is_object_id
  resolve_revision revision = do
    let trimmed = trim_space revision
    refuse_some (validate_revision trimmed)
    output ←
        or_refuse
          (run_read_only_git host root none (
            lit "rev-parse"
            ∷ lit "--verify"
            ∷ lit "--end-of-options"
            ∷ (trimmed ++ lit "^{commit}")
            ∷ []))
          (cancelled_or host
            (invalid_params (lit "invalid_revision") (lit "revision does not resolve to a commit")))
    refuse_if (not (is_object_id (trim_space output)))
        (internal_error (lit "invalid_git_output") (lit "Git returned an invalid commit id"))
    answer (trim_space output)

  -- `ensureRevisionFile`.
  unfoldable pub ensure_revision_file : Text → Text → Serve Text
  ensure_revision_file revision path = do
    let object_spec = revision ++ b':' ∷ path
    output ←
        or_refuse (run_read_only_git host root none (lit "cat-file" ∷ lit "-e" ∷ object_spec ∷ []))
          (cancelled_or host (
            invalid_params (lit "revision_content_not_found")
              (lit "file does not exist at the requested revision")))
    answer object_spec

  unfoldable pub cat_file : Text → Text → Serve Text
  cat_file option object_spec =
      or_refuse (run_read_only_git host root none (lit "cat-file" ∷ option ∷ object_spec ∷ []))
        (git_command_error host)

  -- `readRevisionBlob`, from the object on.
  unfoldable pub read_blob : Text → Serve Text
  unfolding blob_size validate_text
  read_blob object_spec = do
    kind ← cat_file (lit "-t") object_spec
    refuse_if (not (text_eq (trim_space kind) (lit "blob"))) (
        invalid_params (lit "revision_content_not_file")
          (lit "path at the requested revision is not a file"))
    size_output ← cat_file (lit "-s") object_spec
    size ← settle (blob_size size_output)
    refuse_if (ltb max_text_bytes size)
        (invalid_params (lit "file_too_large") (lit "file exceeds the helper text size limit"))
    output ← cat_file (lit "blob") object_spec
    refuse_if (not (length output == size))
        (internal_error (lit "invalid_git_output") (lit "Git returned an unexpected blob size"))
    refuse_some (validate_text host.valid_utf8 output)
    answer output

  -- `readRevisionBlob`.
  unfoldable pub read_revision_blob : Text → Text → Serve Text
  unfolding ensure_revision_file read_blob
  read_revision_blob revision path = do
    object_spec ← ensure_revision_file revision path
    read_blob object_spec
