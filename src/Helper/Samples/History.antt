-- ===== src/Helper/Samples/History.antt =====
-- A host whose Git answers by the first argument and the last, and the requests that read the
-- history with it.
use gitgit.Prelude.{◌≡◌, refl, true, false, none, some, List, [], ◌∷◌, ◌++◌, if◌then◌else◌}
use gitgit.Text.{Text, lit, text_eq, is_empty, contains_byte, contains, split, fields, trim_space}
use gitgit.Text.Numbers.{parse_int}
use gitgit.Assoc.{Assoc, get, put}
use gitgit.Apperr.{ok}
use gitgit.Git.{Git, run_with_env, run_invocation}
use gitgit.Search.Changes.{is_hex, all_bytes, is_decimal}
use gitgit.Helper.Rpc.{
  Host, answered, answer, settle, or_refuse, ◌>>=◌, refuse_if, run_read_only_git,
}
use gitgit.Helper.Revision.{
  is_object_id, read_revision_blob, ensure_revision_file, read_blob, cat_file, blob_size,
  validate_text, refuse_some,
}
use gitgit.Helper.Revision.Reading.{IsSendable, read_revision_blob-IsSendable}
use gitgit.Helper.History.{
  Changes, read_first_parents_batch, read_commit_files_batch, parents_of, parent_lines, parent_line,
  set_parent, each_to, all_seen, input_lines, diff_lines, diff_line, batch_of, batch_token,
  append_change, change_of, valid_file_status, moves_path,
}
use gitgit.Helper.History.Keys.{HasKeys, read_commit_files_batch-HasKeys}
use gitgit.Helper.History.Parents.{IsParents, read_first_parents_batch-IsParents}

-- A commit and its parent.
abbrev pub commit_id : Text
commit_id = lit "aaaaaaaaaaaaaaaaaaaaaaaaaaaaaaaaaaaaaaaa"

abbrev pub parent_id : Text
parent_id = lit "bbbbbbbbbbbbbbbbbbbbbbbbbbbbbbbbbbbbbbbb"

abbrev last_text : List Text → Text
last_text [] = []
last_text (t ∷ []) = t
last_text (t ∷ u ∷ ts) = last_text (u ∷ ts)

-- The second argument of a command.
abbrev option_text : List Text → Text
option_text (a ∷ b ∷ ts) = b
option_text _ = []

abbrev command_text : List Text → Text
command_text [] = []
command_text (t ∷ ts) = t

abbrev printed_output : Text → Text → Text
printed_output command option =
    if text_eq command (lit "rev-list")
    then commit_id ++ b' ' ∷ parent_id ++ lit "\n"
    else if text_eq command (lit "diff-tree")
    then commit_id
      ++ 0 ∷ lit "R100"
      ++ 0 ∷ lit "f"
      ++ 0 ∷ lit "g"
      ++ 0 ∷ lit "M"
      ++ 0 ∷ lit "h"
      ++ 0 ∷ []
    else if text_eq option (lit "--show-toplevel")
    then lit "/repo\n"
    else if text_eq option (lit "--git-common-dir")
    then lit ".git\n"
    else if text_eq option (lit "--verify")
    then commit_id ++ lit "\n"
    else if text_eq option (lit "-t")
    then lit "blob\n"
    else if text_eq option (lit "-s")
    then lit "3\n"
    else if text_eq option (lit "blob")
    then lit "ab\n"
    else if text_eq command (lit "blame")
    then commit_id ++ lit " 1 1 1\nauthor Ann\n\tx\n"
    else []

abbrev sample_git : Git
sample_git log i = ok (printed_output (command_text i.arguments) (option_text i.arguments))

abbrev pub host : Host
host = record {
  git = sample_git;
  is_cancelled = λ log. false;
  is_cancel_error = λ e. false;
  working_directory = none;
  eval_symlinks = λ path. some path;
  is_directory = λ path. true;
  regular_file_size = λ path. some 3;
  read_file = λ path. ok (lit "ab\n");
  valid_utf8 = λ t. true;
  parse_url = λ t. none;
  escaped_path = λ t. t;
  resolve_git =
      λ log. (ok (record { executable = lit "/bin/git"; origin = lit "PATH"; version = [] }), log);
}

abbrev found_parents : Assoc Text
found_parents = (commit_id, parent_id) ∷ []

parents_read :
    (read_first_parents_batch host (lit "/repo") (commit_id ∷ []) []).0 ≡ answered found_parents
unfolding read_first_parents_batch ◌>>=◌ or_refuse run_read_only_git refuse_if text_eq lit answer
    settle split trim_space fields get put contains is_object_id all_bytes is_hex run_invocation
    run_with_env all_seen each_to input_lines parent_line parent_lines parents_of set_parent
    is_empty
parents_read = refl

read_first_parents_batch-IsParents_example : IsParents (commit_id ∷ []) found_parents
read_first_parents_batch-IsParents_example =
    read_first_parents_batch-IsParents host (lit "/repo") (commit_id ∷ []) [] parents_read

abbrev found_changes : Changes
found_changes =
    (commit_id, change_of (lit "R100") (lit "f") (lit "g") ∷ change_of (lit "M") [] (lit "h") ∷ [])
    ∷ []

changes_read :
    (read_commit_files_batch host (lit "/repo") (commit_id ∷ []) []).0 ≡ answered found_changes
unfolding read_commit_files_batch read_first_parents_batch ◌>>=◌ or_refuse run_read_only_git
    refuse_if text_eq lit answer settle split trim_space fields get put contains is_object_id
    all_bytes is_hex run_invocation run_with_env all_seen each_to input_lines parent_line
    parent_lines parents_of set_parent is_empty diff_lines diff_line batch_of batch_token
    append_change valid_file_status moves_path contains_byte is_decimal
changes_read = refl

read_commit_files_batch-HasKeys_example : HasKeys (commit_id ∷ []) found_changes
read_commit_files_batch-HasKeys_example =
    read_commit_files_batch-HasKeys host (lit "/repo") (commit_id ∷ []) [] changes_read

blob_read : (read_revision_blob host (lit "/repo") commit_id (lit "f") []).0 ≡ answered (lit "ab\n")
unfolding read_revision_blob ensure_revision_file read_blob cat_file blob_size validate_text
    refuse_some ◌>>=◌ or_refuse run_read_only_git refuse_if text_eq lit answer settle trim_space
    run_invocation run_with_env is_empty parse_int contains_byte
blob_read = refl

read_revision_blob-IsSendable_example : IsSendable host (lit "ab\n")
read_revision_blob-IsSendable_example =
    read_revision_blob-IsSendable host (lit "/repo") commit_id (lit "f") [] blob_read
