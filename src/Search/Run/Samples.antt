-- ===== src/Search/Run/Samples.antt =====
-- A search that follows renames under a filter of author: Git answers one commit for the author, and
-- two in the second log, which is not filtered. Both messages match.
use gitgit.Prelude.{ℕ, true, false, Option, none, List, [], ◌∷◌, ◌++◌, pos, if◌then◌else◌}
use gitgit.Text.{Text, lit, text_eq}
use gitgit.Apperr.{Failure, ok}
use gitgit.Git.{Git}
use gitgit.Search.Options.{SearchOptions}
use gitgit.Search.Patterns.{Regexp}
use gitgit.Search.Run.{SearchResponse, SearchProgress}

abbrev search_options : SearchOptions
search_options = record {
  predicates = [];
  messages = lit "fix" ∷ [];
  diffs = [];
  files = lit "f" ∷ [];
  engine = lit "regex";
  follow_rename = true;
  revision = [];
  all_refs = false;
  paths = [];
  author = lit "A";
  since = [];
  until = [];
  limit = pos 2;
  context_lines = pos 3;
  omit_result_diff = true;
}

abbrev field : Text → Text
field t = t ++ (0 ∷ [])

abbrev logged : Text → Text → Text
logged oid author =
    field oid
    ++ (field author ++ (field (lit "a@b") ++ (field [] ++ (field (lit "fix") ++ field []))))

abbrev command_of : List Text → Text
command_of [] = []
command_of (t ∷ ts) = t

-- The first question is for the log of the author; there are no changed files.
abbrev two_logs : Git
two_logs [] i = ok (logged (lit "c1") (lit "A"))
two_logs (event ∷ log) i = ok (
    if text_eq (command_of i.arguments) (lit "log")
    then logged (lit "c2") (lit "B") ++ logged (lit "c1") (lit "A")
    else [])

abbrev itself : Regexp
itself = record { compile = λ pattern. ok (text_eq pattern); quote_meta = λ t. t }

abbrev never : ℕ → Option Failure
never visited = none

abbrev page : SearchResponse
page = record {
  message_patterns = lit "fix" ∷ [];
  diff_patterns = [];
  file_patterns = lit "f" ∷ [];
  engine = lit "regex";
  follow_rename = true;
  results =
      record {
        author_name = lit "A";
        author_email = lit "a@b";
        commit = lit "c1";
        message = lit "fix";
        date = [];
        refs = [];
        matched_files = [];
        changed_files = [];
        match_sources = lit "msg" ∷ [];
        file = record { status = []; old_path = []; path = [] };
        diff = [];
      }
      ∷ [];
  count = 1;
  scanned = 2;
  has_more = false;
}

abbrev reports : List SearchProgress
reports = record { scanned = 2; total = 2 } ∷ record { scanned = 1; total = 2 } ∷ []
