-- ===== src/Helper/Samples/Progress.antt =====
-- Runs of the progress reporter, of the search for file headers and of the options of a search, and
-- their theorems at concrete inputs.
use gitgit.Prelude.{ℕ, ◌≤◌, ◌≡◌, refl, false, List, [], ◌∷◌, ◌++◌, length, map, arith}
use gitgit.Text.{Text, lit, has_prefix, is_empty}
use gitgit.Text.Search.{index?}
use gitgit.Search.Run.{SearchProgress}
use gitgit.Helper.Progress.{
  Call, reported, ended, new_progress_reporter, report, done, after_calls, IsStream, EndsWell,
  after_calls-IsStream, after_calls-EndsWell,
}
use gitgit.Helper.FileDiff.{header_starts_from, patch_header_starts}
use gitgit.Helper.FileDiff.Headers.{scanned_starts, header_starts_from-scanned}

abbrev seen : ℕ → SearchProgress
seen n = record { scanned = n; total = 9 }

abbrev calls : List Call
calls = reported (seen 3) ∷ reported (seen 7) ∷ []

abbrev request_id : Text
request_id = lit "7"

-- The last notification says 7 of 9, and a report behind it is not written.
runs :
    map
      (λ n. n.scanned)
      (after_calls
        (calls ++ ended 0 false ∷ reported (seen 8) ∷ [])
        (new_progress_reporter request_id)).written
    ≡ 7 ∷ 7 ∷ 3 ∷ []
unfolding after_calls new_progress_reporter report done is_empty lit
runs = refl

id_given : is_empty request_id ≡ false
unfolding is_empty lit
id_given = refl

after_calls-IsStream_example : IsStream (after_calls calls (new_progress_reporter request_id))
after_calls-IsStream_example = after_calls-IsStream calls request_id

after_calls-EndsWell_example :
    EndsWell (after_calls (calls ++ ended 0 false ∷ []) (new_progress_reporter request_id)).written
after_calls-EndsWell_example = after_calls-EndsWell calls 0 false request_id id_given

abbrev two_patches : Text
two_patches = lit "diff --git a/f b/f\n+x\ndiff --git a/g b/g\n+y\n"

two_starts : patch_header_starts two_patches ≡ 0 ∷ 22 ∷ []
unfolding patch_header_starts header_starts_from index? has_prefix lit
two_starts = refl

short : length two_patches ≤ 60
unfolding lit
short = omega arith

header_starts_from-scanned_example :
    header_starts_from 60 1 two_patches ≡ scanned_starts 1 two_patches
header_starts_from-scanned_example = header_starts_from-scanned 60 1 two_patches short
