-- ===== src/Helper/Paths.antt =====
-- internal/vscodehelper/methods.go: the paths of files in a request, on Unix.
pub mod Inside
use gitgit.Prelude.{
  ℕ, Bool, true, false, not, ◌&&◌, ◌||◌, Option, none, some, List, [], ◌∷◌, ◌++◌, reverse, leb, ltb,
  ◌==◌, if◌then◌else◌,
}
use gitgit.Text.{Text, lit, text_eq, is_empty, has_prefix, contains_byte, trim_space, split}
use gitgit.Path.{is_abs, clean, join_paths, path_elements, written}
use gitgit.Apperr.{Result, ok, err, plain_message, error_message}
use gitgit.Git.Repository.{resolved_or_same}
use gitgit.Helper.Rpc.{
  Answer, answered, refused, RpcError, rpc_error, Host, invalid_params, code_internal_error,
  max_text_bytes,
}
use gitgit.Helper.Revision.{has_control}

-- `canonicalPath`.
unfoldable pub canonical_path : Host → Text → Text
canonical_path host path = resolved_or_same host.eval_symlinks (clean path)

-- `windowsDrivePath`.
unfoldable pub windows_drive_path : Text → Bool
windows_drive_path (drive ∷ colon ∷ _) =
    colon == b':' && ((leb b'a' drive && leb drive b'z') || (leb b'A' drive && leb drive b'Z'))
windows_drive_path _ = false

-- `filepath.Rel` on the elements of two cleaned paths, both rooted or both not.
unfoldable pub climb : List Text → List Text
climb [] = []
climb (_ ∷ elements) = lit ".." ∷ climb elements

unfoldable pub relative_elements : List Text → List Text → Option (List Text)
relative_elements [] target = some target
relative_elements (b ∷ base) [] = if text_eq b (lit "..") then none else some (climb (b ∷ base))
relative_elements (b ∷ base) (t ∷ target) =
    let rest = relative_elements base target in
    if text_eq b t
    then rest
    else if text_eq b (lit "..")
    then none
    else some (climb (b ∷ base) ++ (t ∷ target))

-- `filepath.Rel`.
unfoldable pub relative_path : Text → Text → Option Text
unfolding relative_elements written
relative_path base target =
    if (is_abs base && is_abs target) || (not (is_abs base) && not (is_abs target))
    then elim (relative_elements (path_elements base) (path_elements target)) [
      | none ↦ none
      | some elements ↦ some (written false elements)
    ]
    else none

-- The test of `pathWithin` on what `filepath.Rel` gives.
unfoldable pub stays_inside : Option Text → Bool
stays_inside none = false
stays_inside (some relative) =
    not (is_abs relative)
    && not (text_eq relative (lit ".."))
    && not (has_prefix (lit "../") relative)

-- `pathWithin`.
unfoldable pub path_within : Host → Text → Text → Bool
unfolding canonical_path relative_path stays_inside
path_within host root candidate =
    stays_inside (relative_path (canonical_path host root) (canonical_path host candidate))

-- The loop of `resolveExistingAncestor`, on the elements of the path, the last first: the parent of
-- a path without elements is that path, and ends the loop.
resolve_upward : Host → Bool → List Text → Option Text
unfolding written
resolve_upward host rooted [] = host.eval_symlinks (written rooted [])
resolve_upward host rooted (e ∷ elements) =
    let parent = resolve_upward host rooted elements in
    elim (host.eval_symlinks (written rooted (reverse (e ∷ elements)))) [
      | none ↦ parent
      | some resolved ↦ some resolved
    ]

-- `resolveExistingAncestor`, with none for an error.
unfoldable pub resolve_existing_ancestor : Host → Text → Option Text
unfolding resolve_upward path_elements
resolve_existing_ancestor host candidate =
    resolve_upward host (is_abs candidate) (reverse (path_elements candidate))

-- A component that no path of a request has.
unfoldable pub bad_component : Text → Bool
bad_component component =
    is_empty component || text_eq component (lit ".") || text_eq component (lit "..")

unfoldable pub has_bad_component : List Text → Bool
unfolding bad_component
has_bad_component [] = false
has_bad_component (component ∷ components) = bad_component component || has_bad_component components

abbrev is_inside : Host → Text → Option Text → Bool
is_inside host root none = false
is_inside host root (some resolved) = path_within host root resolved

abbrev invalid_file_path : Text → Answer Text
invalid_file_path text = refused (invalid_params (lit "invalid_file_path") text)

-- The tests of `validateRelativePath` on the cleaned path.
unfoldable pub check_location : Host → Text → Text → Answer Text
unfolding path_within resolve_existing_ancestor
check_location host root cleaned =
    let joined = join_paths root cleaned in
    if text_eq cleaned (lit ".") || text_eq cleaned (lit "..") || has_prefix (lit "../") cleaned
    then invalid_file_path (lit "relativePath cannot escape the repository")
    else if text_eq cleaned (lit ".git") || has_prefix (lit ".git/") cleaned
    then invalid_file_path (lit "relativePath cannot address Git metadata")
    else if not (path_within host root joined)
    then invalid_file_path (lit "relativePath cannot escape the repository")
    else if not (is_inside host root (resolve_existing_ancestor host joined))
    then invalid_file_path (lit "relativePath resolves outside the repository")
    else answered cleaned

-- `validateRelativePath`.
unfoldable pub validate_relative_path : Host → Text → Text → Answer Text
unfolding check_location windows_drive_path has_control has_bad_component
validate_relative_path host root candidate =
    if is_empty (trim_space candidate)
    then refused (invalid_params (lit "relative_path_required") (lit "relativePath is required"))
    else if has_control candidate
    then invalid_file_path (lit "relativePath contains an invalid control character")
    else if is_abs candidate || contains_byte candidate b'\\' || windows_drive_path candidate
    then invalid_file_path (lit "relativePath must be a portable repository-relative path")
    else if has_bad_component (split b'/' candidate)
    then invalid_file_path (lit "relativePath contains an invalid component")
    else check_location host root (clean candidate)

-- `readWorkingTreeFile`, of the size that `os.Stat` gives a regular file.
unfoldable pub read_working_tree_file : Host → Text → Text → Answer Text
read_working_tree_file host root path = elim (host.regular_file_size (join_paths root path)) [
  | none ↦ refused (
      invalid_params (lit "file_not_found") (lit "relativePath must name an existing regular file"))
  | some size ↦
      if ltb max_text_bytes size
      then refused
          (invalid_params (lit "file_too_large") (lit "file exceeds the helper text size limit"))
      else elim (host.read_file (join_paths root path)) [
        | err e ↦ refused (rpc_error code_internal_error (lit "file_read_failed") (error_message e))
        | ok content ↦ answered content
      ]
]
