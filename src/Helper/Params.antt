-- ===== src/Helper/Params.antt =====
-- internal/vscodehelper/protocol.go: the params that name a repository and a file.
use gitgit.Prelude.{if◌then◌else◌}
use gitgit.Text.{Text, is_empty}

-- The first text, or the second where it is empty.
abbrev pub first_given : Text → Text → Text
first_given first second = if is_empty first then second else first

pub record RepositoryParams : Type 0 where
  pub repository_root : Text
  pub repository : Text

-- `RepositoryParams.root`.
unfoldable pub root_of : RepositoryParams → Text
root_of p = first_given p.repository_root p.repository

pub record FileParams : Type 0 where
  pub repository_params : RepositoryParams
  pub relative_path : Text
  pub file : Text

-- `FileParams.path`.
unfoldable pub path_of : FileParams → Text
path_of p = first_given p.relative_path p.file
