-- ===== src/Helper/Handlers/Counted.antt =====
-- internal/vscodehelper/methods.go: the lines that `blame.lines` answers with.
use gitgit.Prelude.{ℕ, ◌+◌, ◌-◌, ◌≤◌, ◌≡◌, length, All, pos}
use gitgit.Text.{Text}
use gitgit.Helper.Blame.Lines.{IsBlamed}
use gitgit.Helper.Handlers.Blame.{BlameLinesParams, BlameLinesResult}

-- The lines of an answer are those from the first to the last of the params.
pub record IsCounted (p : BlameLinesParams) (r : BlameLinesResult) : Type 0 where
  pub first : ℕ
  pub last : ℕ
  pub starts : p.start_line ≡ pos first
  pub ends : p.end_line ≡ pos last
  pub from_one : 1 ≤ first
  pub in_order : first ≤ last
  pub count : length r.lines ≡ last - first + 1
  pub bounded : length r.lines ≤ 2000
  pub blamed : All IsBlamed r.lines
