-- ===== src/Helper/History.antt =====
-- internal/vscodehelper/methods.go: the commits of a file, their parents and their changed files.
pub mod Commits
pub mod Keys
pub mod Parents
use gitgit.Prelude.{
  ℕ, Bool, true, false, not, ◌&&◌, ◌||◌, Option, none, some, List, [], ◌∷◌, ◌++◌, ltb, ◌==◌, length,
  if◌then◌else◌,
}
use gitgit.Text.{Text, lit, text_eq, is_empty, contains, contains_byte, fields, split, trim_space}
use gitgit.Assoc.{Assoc, get, put}
use gitgit.Git.{Exec}
use gitgit.Search.Changes.{FileChange, all_bytes, is_decimal}
use gitgit.Helper.Rpc.{
  Answer, answered, refused, RpcError, Host, Serve, answer, settle, or_refuse, ◌>>=◌, ◌>>◌,
  refuse_if, internal_error, git_command_error, run_read_only_git, max_output_bytes,
}
use gitgit.Helper.Revision.{is_object_id}

abbrev pub invalid_output : Text → RpcError
invalid_output = internal_error (lit "invalid_git_output")

-- `validFileStatus`.
unfoldable pub valid_file_status : Text → Bool
valid_file_status [] = false
valid_file_status (c ∷ cs) = contains_byte (lit "ACDMRTUXB") c && all_bytes is_decimal cs

abbrev pub are_object_ids : List Text → Bool
are_object_ids [] = true
are_object_ids (t ∷ ts) = is_object_id t && are_object_ids ts

-- What a line of Git tells: nothing, a commit with its first parent ("" for none), or an error.
pub data ParentLine : Type 0 where
  no_parents : ParentLine
  parent_of : Text → Text → ParentLine
  bad_line : Text → ParentLine

unfoldable pub parent_line : Assoc Text → List Text → List Text → ParentLine
parent_line parents seen [] = no_parents
parent_line parents seen (commit ∷ ids) =
    if elim (get commit parents) [ none ↦ true | some _ ↦ false ] || contains seen commit
    then bad_line (lit "Git returned unexpected parent metadata")
    else if not (are_object_ids ids)
    then bad_line (lit "Git returned an invalid parent id")
    else parent_of commit (elim ids [ [] ↦ [] | ◌∷◌ first _ ↦ first ])

-- A line without a parent leaves the map as it is.
unfoldable pub set_parent : Text → Text → Assoc Text → Assoc Text
set_parent commit parent parents = if is_empty parent then parents else put commit parent parents

-- The loop of `readFirstParentsBatch` over the lines of Git, with the parents and the commits seen.
unfoldable pub parent_lines : List Text → Assoc Text → List Text → Answer (Assoc Text × List Text)
unfolding parent_line set_parent
parent_lines [] parents seen = answered (parents, seen)
parent_lines (line ∷ lines) parents seen = elim (parent_line parents seen (fields line)) [
  | no_parents ↦ parent_lines lines parents seen
  | parent_of commit parent ↦ parent_lines lines (set_parent commit parent parents) (commit ∷ seen)
  | bad_line text ↦ refused (invalid_output text)
]

-- A map from the commits: a commit that stands twice has one entry.
unfoldable pub each_to {ℓ} : {V : Type ℓ} → V → List Text → Assoc V → Assoc V
each_to v [] m = m
each_to v (commit ∷ commits) m = each_to v commits (put commit v m)

-- The last loop: every key was seen.
unfoldable pub all_seen : List Text → Assoc Text → Bool
all_seen seen [] = true
all_seen seen ((commit, parent) ∷ parents) = contains seen commit && all_seen seen parents

unfoldable pub parents_of : List Text → Text → Answer (Assoc Text)
unfolding parent_lines each_to all_seen
parents_of commits output =
    elim (parent_lines (split b'\n' (trim_space output)) (each_to [] commits []) []) [
      | refused e ↦ refused e
      | answered p ↦
          if all_seen p.1 p.0
          then answered p.0
          else refused (invalid_output (lit "Git omitted requested parent metadata"))
    ]

unfoldable pub input_lines : List Text → Text
input_lines [] = []
input_lines (t ∷ ts) = t ++ b'\n' ∷ input_lines ts

abbrev no_commits : List Text → Bool
no_commits [] = true
no_commits (_ ∷ _) = false

-- Git's output, when it is not larger than what may be sent.
abbrev pub bounded_output : Host → Text → Exec Text → Serve Text
bounded_output host text run = or_refuse run (git_command_error host) >>= λ output.
    refuse_if (ltb max_output_bytes (length output)) (internal_error (lit "output_too_large") text)
    >> answer output

-- `readFirstParentsBatch`.
unfoldable pub read_first_parents_batch : Host → Text → List Text → Serve (Assoc Text)
unfolding parents_of input_lines
read_first_parents_batch host root [] = answer []
read_first_parents_batch host root (c ∷ cs) = do
  output ← bounded_output host (lit "Git parent output exceeds maxOutputBytes") (
      run_read_only_git host root (some (input_lines (c ∷ cs)))
        (lit "rev-list" ∷ lit "--parents" ∷ lit "--stdin" ∷ lit "--no-walk=unsorted" ∷ []))
  settle (parents_of (c ∷ cs) output)

abbrev pub Changes : Type 0
Changes = Assoc (List FileChange)

-- What a token of `diff-tree` stands for, by the current commit ("" for none).
pub data BatchToken : Type 0 where
  blank_token commit_token one_path two_paths : BatchToken
  bad_token : Text → BatchToken

unfoldable pub moves_path : Text → Bool
moves_path [] = false
moves_path (c ∷ cs) = c == b'R' || c == b'C'

unfoldable pub batch_token : Changes → Text → Text → BatchToken
unfolding valid_file_status moves_path
batch_token result current token =
    if is_empty token
    then blank_token
    else if is_object_id token
    then elim (get token result) [
      | none ↦ bad_token (lit "Git returned an unexpected commit id")
      | some _ ↦ commit_token
    ]
    else if is_empty current || not (valid_file_status token)
    then bad_token (lit "invalid changed-file record")
    else if moves_path token
    then two_paths
    else one_path

-- `result[commit] = append(result[commit], change)`.
unfoldable pub append_change : Text → FileChange → Changes → Changes
append_change commit change m =
    put commit (elim (get commit m) [ none ↦ [] | some before ↦ before ] ++ (change ∷ [])) m

abbrev pub change_of : Text → Text → Text → FileChange
change_of status old path = record { status = status; old_path = old; path = path }

-- The loop of `readCommitFilesBatch`.
unfoldable pub batch_of : List Text → Text → Changes → Answer Changes
unfolding batch_token append_change
batch_of [] current m = answered m
batch_of (t ∷ []) current m = elim (batch_token m current t) [
  | blank_token ↦ answered m
  | commit_token ↦ answered m
  | one_path ↦ refused (invalid_output (lit "changed-file path is missing"))
  | two_paths ↦ refused (invalid_output (lit "changed-file path is missing"))
  | bad_token text ↦ refused (invalid_output text)
]
batch_of (t ∷ p ∷ []) current m = elim (batch_token m current t) [
  | blank_token ↦ batch_of (p ∷ []) current m
  | commit_token ↦ batch_of (p ∷ []) t m
  | one_path ↦ answered (append_change current (change_of t [] p) m)
  | two_paths ↦ refused (invalid_output (lit "rename paths are missing"))
  | bad_token text ↦ refused (invalid_output text)
]
batch_of (t ∷ p ∷ q ∷ tokens) current m = elim (batch_token m current t) [
  | blank_token ↦ batch_of (p ∷ q ∷ tokens) current m
  | commit_token ↦ batch_of (p ∷ q ∷ tokens) t m
  | one_path ↦ batch_of (q ∷ tokens) current (append_change current (change_of t [] p) m)
  | two_paths ↦ batch_of tokens current (append_change current (change_of t p q) m)
  | bad_token text ↦ refused (invalid_output text)
]

-- The lines on the standard input of `diff-tree`: a commit, and its first parent behind a space.
abbrev parent_text : Option Text → Text
parent_text none = []
parent_text (some parent) = parent

unfoldable pub diff_line : Assoc Text → Text → Text
diff_line parents commit =
    let parent = parent_text (get commit parents) in
    if is_empty parent then commit else commit ++ b' ' ∷ parent

unfoldable pub diff_lines : Assoc Text → List Text → List Text
unfolding diff_line
diff_lines parents [] = []
diff_lines parents (commit ∷ commits) = diff_line parents commit ∷ diff_lines parents commits

-- `readCommitFilesBatch`.
unfoldable pub read_commit_files_batch : Host → Text → List Text → Serve Changes
unfolding diff_lines input_lines batch_of each_to read_first_parents_batch
read_commit_files_batch host root [] = answer []
read_commit_files_batch host root (c ∷ cs) = do
  refuse_if (not (are_object_ids (c ∷ cs)))
      (invalid_output (lit "history contained an invalid commit id"))
  parents ← read_first_parents_batch host root (c ∷ cs)
  output ← bounded_output host (lit "Git changed-file output exceeds maxOutputBytes") (
      run_read_only_git host root (some (input_lines (diff_lines parents (c ∷ cs)))) (
        lit "diff-tree"
        ∷ lit "--stdin"
        ∷ lit "--root"
        ∷ lit "--name-status"
        ∷ lit "-r"
        ∷ lit "-z"
        ∷ lit "-M"
        ∷ []))
  settle (batch_of (split 0 output) [] (each_to [] (c ∷ cs) []))
