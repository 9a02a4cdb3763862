-- ===== src/Desktop/Rewrite/Samples.antt =====
-- A message that is rewritten twice.
use gitgit.Prelude.{◌≡◌, refl, false, [], ◌∷◌, ◌++◌}
use gitgit.Text.{Text, lit, contains_byte}
use gitgit.Text.Lines.{IsLine}
use gitgit.Desktop.Rewrite.{append_rewrite_provenance}
use gitgit.Desktop.Rewrite.Provenance.{append-append_rewrite_provenance}

abbrev message : Text
message = lit "Fix the cache" ++ b'\n' ∷ []

no_return : contains_byte message b'\r' ≡ false
unfolding contains_byte lit
no_return = refl

first-IsLine : IsLine (lit "0123abc")
unfolding contains_byte lit
first-IsLine = (refl, refl)

second-IsLine : IsLine (lit "split in two")
unfolding contains_byte lit
second-IsLine = (refl, refl)

append-append_rewrite_provenance_example :
    append_rewrite_provenance
      (append_rewrite_provenance message (lit "0123abc") (lit "split in two"))
      (lit "4567def")
      []
    ≡ append_rewrite_provenance message (lit "4567def") []
append-append_rewrite_provenance_example =
    append-append_rewrite_provenance message (lit "0123abc") (lit "split in two") (lit "4567def") []
      no_return first-IsLine second-IsLine
