-- ===== src/Helper/Server/Rest.antt =====
-- internal/vscodehelper/server.go: the server can always come to rest, with every reply written and
-- an empty registry.
use gitgit.Prelude.{◌≡◌, ◌⊎◌, true, false, List, [], ◌∷◌, ◌++◌, All}
use gitgit.Text.{Text, is_empty}
use gitgit.Helper.Server.{Json, Running, Serving, Written, reply, write_reply, end_request}

-- A message stands among those that are written.
abbrev pub IsIn : Written → List Written → Type 0
IsIn w [] = ⊥
IsIn w (v ∷ vs) = (w ≡ v) ⊎ IsIn w vs

-- The reply of a request that runs, where it has an id and is not replied to yet.
abbrev pub HasReply : List Written → Running → Type 0
HasReply ws r = r.replied ≡ false → is_empty r.id ≡ false → IsIn (reply r.number r.id) ws

-- The steps in which requests that run write their replies and end, and no line is read and nothing
-- is cancelled.
pub data Drains (json : Json) : Serving → Serving → Type 0 where
  drained_all : (s : Serving) → Drains json s s
  reply_then :
      (s t : Serving) (r : Running) (before after : List Running)
      → s.running ≡ before ++ r ∷ after
      → r.replied ≡ false
      → Drains json (write_reply r before after s) t
      → Drains json s t
  end_then :
      (s t : Serving) (r : Running) (before after : List Running)
      → s.running ≡ before ++ r ∷ after
      → r.replied ≡ true
      → Drains json (end_request json r before after s) t
      → Drains json s t

-- A state at rest that a state leads to: all that was written is kept.
pub record RestsAt (json : Json) (s t : Serving) : Type 0 where
  pub steps : Drains json s t
  pub idle : t.running ≡ []
  pub kept : (w : Written) → IsIn w s.written → IsIn w t.written
  pub replied : All (HasReply t.written) s.running
