-- ===== src/Git/Samples.antt =====
-- An environment that a Git process is started with.
use gitgit.Prelude.{◌≡◌, refl, true, none, List, [], ◌∷◌}
use gitgit.Text.{Text, lit, text_eq, has_prefix, contains}
use gitgit.Git.{Invocation, is_repository_selection_environment, process_environment}
use gitgit.Git.Environment.{effective, effective-process_environment}

abbrev index_key : Text
index_key = lit "GIT_INDEX_FILE"

abbrev surrounding : List Text
surrounding = lit "PATH=/bin" ∷ lit "GIT_INDEX_FILE=/other" ∷ lit "GIT_DIR=/x" ∷ []

abbrev with_index : Invocation
with_index = record {
  directory = lit "/repo";
  stdin = none;
  overrides = lit "GIT_INDEX_FILE=/tmp/index" ∷ [];
  arguments = lit "status" ∷ [];
}

index_selects : is_repository_selection_environment index_key ≡ true
unfolding is_repository_selection_environment contains has_prefix lit text_eq
index_selects = refl

effective-process_environment_example :
    effective index_key (process_environment surrounding with_index)
    ≡ effective index_key with_index.overrides
effective-process_environment_example =
    effective-process_environment index_key surrounding with_index index_selects
