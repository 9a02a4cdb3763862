-- ===== src/Search/Commits/Samples.antt =====
-- A log of one commit without decorations.
use gitgit.Prelude.{◌≡◌, refl, false, List, [], ◌∷◌, map, All}
use gitgit.Text.{lit, contains_byte}
use gitgit.Apperr.{ok}
use gitgit.Search.Changes.RoundTrip.{terminated}
use gitgit.Search.Commits.{read_commits}
use gitgit.Search.Commits.RoundTrip.{Logged, log_fields, meta_of, read_commits-terminated}

abbrev logged : List Logged
logged =
    record {
      oid = lit "0123";
      name = lit "Ada";
      email = lit "ada@example.org";
      date = lit "2024-01-02T03:04:05Z";
      body = lit "Fix the cache ";
      decoration = [];
    }
    ∷ []

fields_plain : All (λ t. contains_byte t 0 ≡ false) (log_fields logged)
unfolding contains_byte lit
fields_plain = (refl, (refl, (refl, (refl, (refl, (refl, tt))))))

read_commits-terminated_example :
    read_commits (terminated (log_fields logged)) ≡ ok (map meta_of logged)
read_commits-terminated_example = read_commits-terminated logged fields_plain
