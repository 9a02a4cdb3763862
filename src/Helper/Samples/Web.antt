-- ===== src/Helper/Samples/Web.antt =====
-- Runs of the parsers of the helper, and their theorems at concrete inputs.
use gitgit.Prelude.{◌≡◌, refl, true, false, [], ◌∷◌, All}
use gitgit.Text.{Text, lit, text_eq, has_prefix, contains_byte, join}
use gitgit.Apperr.{ok}
use gitgit.Helper.Refs.{Ref, ref_kind, parse_refs}
use gitgit.Helper.Refs.RoundTrip.{IsRef, ref_lines, parse_refs-lines}
use gitgit.Helper.History.Commits.{
  Printed, all_fields, commits_of, parse_file_history, parse_file_history-fields,
}
use gitgit.Search.Changes.RoundTrip.{terminated}

abbrev main_ref : Ref
main_ref = record {
  full_name = lit "refs/heads/main";
  name = lit "main";
  kind = lit "local";
  commit = lit "a1";
  current = true;
  symbolic_to = [];
}

abbrev origin_ref : Ref
origin_ref = record {
  full_name = lit "refs/remotes/origin/HEAD";
  name = lit "origin";
  kind = lit "remote";
  commit = lit "a1";
  current = false;
  symbolic_to = lit "refs/remotes/origin/main";
}

abbrev current_name : Text
current_name = lit "refs/heads/main"

refs_valid : All (IsRef current_name) (main_ref ∷ origin_ref ∷ [])
unfolding lit text_eq has_prefix contains_byte ref_kind join
refs_valid = (
  record {
    plain = (refl, (refl, (refl, (refl, tt))));
    one_line = refl;
    kind_of = refl;
    marked = refl;
  },
  (
    record {
      plain = (refl, (refl, (refl, (refl, tt))));
      one_line = refl;
      kind_of = refl;
      marked = refl;
    },
    tt,
  ),
)

parse_refs-lines_example :
    parse_refs (ref_lines (main_ref ∷ origin_ref ∷ [])) current_name
    ≡ ok (main_ref ∷ origin_ref ∷ [])
parse_refs-lines_example = parse_refs-lines current_name (main_ref ∷ origin_ref ∷ []) refs_valid

abbrev printed_commit : Printed
printed_commit = record {
  hash = lit "a1a1";
  abbreviated = lit "a1";
  parents = lit "b2 c3";
  author_name = lit "Ann";
  author_email = lit "ann@example.org";
  date = lit "2024-01-02T03:04:05Z";
  body = lit "Merge\n\nbody\n";
}

fields_plain : All (λ t. contains_byte t 0 ≡ false) (all_fields (printed_commit ∷ []))
unfolding lit contains_byte
fields_plain = (refl, (refl, (refl, (refl, (refl, (refl, (refl, tt)))))))

parse_file_history-fields_example :
    parse_file_history (terminated (all_fields (printed_commit ∷ [])))
    ≡ ok (commits_of (printed_commit ∷ []))
parse_file_history-fields_example = parse_file_history-fields (printed_commit ∷ []) fields_plain
