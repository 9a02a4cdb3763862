-- ===== src/Helper/History/Keys.antt =====
-- internal/vscodehelper/methods.go: `readCommitFilesBatch` answers for the commits asked for, and
-- for no others.
use mathlib.Core.Path.{subst}
use gitgit.Prelude.{
  ◌≡◌, ◌⊎◌, refl, sym, ap, ◌∙◌, Bool, true, false, ◌||◌, Option, none, some, List, [], ◌∷◌, arith,
  inl, inr,
}
use gitgit.Text.{Text, is_empty, text_eq_iff, contains, split}
use gitgit.Assoc.{Assoc, get, put, get-put}
use gitgit.Git.{Event}
use gitgit.Search.Changes.{FileChange}
use gitgit.Helper.Rpc.{Answer, answered, refused, RpcError, Host, settle}
use gitgit.Helper.Rpc.Inversion.{>>=-eq-answered, answered_eq, answer-eq, refuse_if-passed}
use gitgit.Helper.History.{
  Changes, each_to, BatchToken, blank_token, commit_token, one_path, two_paths, bad_token,
  batch_token, append_change, invalid_output, batch_of, read_commit_files_batch,
}

abbrev pub is_some {ℓ} : {A : Type ℓ} → Option A → Bool
is_some none = false
is_some (some a) = true

-- The keys of the map are the commits.
abbrev pub HasKeys {ℓ} : {V : Type ℓ} → List Text → Assoc V → Type 0
HasKeys commits m = (k : Text) → is_some (get k m) ≡ contains commits k

module _ {ℓ} {V : Type ℓ} where
  each_to-get :
      (v : V) (commits : List Text) (m : Assoc V) (k : Text)
      → is_some (get k (each_to v commits m)) ≡ (contains commits k || is_some (get k m))
  unfolding each_to contains
  each_to-get v [] m k = refl
  each_to-get v (c ∷ cs) m k = each_to-get v cs (put c v m) k ∙ ground (arith, get-put c k v m)

  pub each_to-HasKeys : (v : V) (commits : List Text) → HasKeys commits (each_to v commits [])
  each_to-HasKeys v commits k = each_to-get v commits [] k ∙ unfold get in ground arith

  pub put-HasKeys :
      (commits : List Text) (j : Text) (v : V) (m : Assoc V)
      → contains commits j ≡ true
      → HasKeys commits m
      → HasKeys commits (put j v m)
  put-HasKeys commits j v m known h k = ground (arith, get-put j k v m, h k, text_eq_iff j k)

token-current :
    (m : Changes) (current t : Text) (k : BatchToken)
    → batch_token m current t ≡ k
    → (k ≡ one_path) ⊎ (k ≡ two_paths)
    → is_empty current ≡ false
unfolding batch_token
token-current m current t k e either = ground arith

token-known :
    (m : Changes) (current t : Text)
    → batch_token m current t ≡ commit_token
    → is_some (get t m) ≡ true
unfolding batch_token
token-known m current t e = ground arith

module _ (commits : List Text) where
  -- A map that is answered has the commits as its keys.
  GivesKeys : Answer Changes → Type 0
  GivesKeys a = (m : Changes) → a ≡ answered m → HasKeys commits m

  -- The current commit is one of the commits, once there is one.
  abbrev IsCurrent : Text → Type 0
  IsCurrent current = is_empty current ≡ false → contains commits current ≡ true

  GivesKeys-answered : (m : Changes) → HasKeys commits m → GivesKeys (answered m)
  unfolding GivesKeys
  GivesKeys-answered m h r e = subst (HasKeys commits) (answered_eq e) h

  GivesKeys-refused : (e : RpcError) → GivesKeys (refused e)
  unfolding GivesKeys
  GivesKeys-refused e r k = cc

  GivesKeys-token :
      (k : BatchToken) (a b c d : Answer Changes)
      → GivesKeys a
      → (k ≡ commit_token → GivesKeys b)
      → (k ≡ one_path → GivesKeys c)
      → (k ≡ two_paths → GivesKeys d)
      → GivesKeys (elim k [
        | blank_token ↦ a
        | commit_token ↦ b
        | one_path ↦ c
        | two_paths ↦ d
        | bad_token text ↦ refused (invalid_output text)
      ])
  GivesKeys-token blank_token a b c d ha hb hc hd = ha
  GivesKeys-token commit_token a b c d ha hb hc hd = hb refl
  GivesKeys-token one_path a b c d ha hb hc hd = hc refl
  GivesKeys-token two_paths a b c d ha hb hc hd = hd refl
  GivesKeys-token (bad_token text) a b c d ha hb hc hd = GivesKeys-refused _

  appended :
      (current : Text) (change : FileChange) (m : Changes)
      → HasKeys commits m
      → contains commits current ≡ true
      → HasKeys commits (append_change current change m)
  unfolding append_change
  appended current change m h known = put-HasKeys commits current _ m known h

  batch_of-GivesKeys :
      (tokens : List Text) (current : Text) (m : Changes)
      → IsCurrent current
      → HasKeys commits m
      → GivesKeys (batch_of tokens current m)
  unfolding batch_of
  batch_of-GivesKeys [] current m is h = GivesKeys-answered m h
  batch_of-GivesKeys (t ∷ []) current m is h =
      GivesKeys-token (batch_token m current t) _ _ _ _ (GivesKeys-answered m h)
        (λ e. GivesKeys-answered m h) (λ e. GivesKeys-refused _) (λ e. GivesKeys-refused _)
  batch_of-GivesKeys (t ∷ p ∷ []) current m is h =
      GivesKeys-token (batch_token m current t) _ _ _ _ (batch_of-GivesKeys (p ∷ []) current m is h)
        (λ e. batch_of-GivesKeys (p ∷ []) t m (λ _. sym (h t) ∙ token-known m current t e) h)
        (λ e.
          GivesKeys-answered _
            (appended current _ m h (is (token-current m current t _ e (inl refl)))))
        (λ e. GivesKeys-refused _)
  batch_of-GivesKeys (t ∷ p ∷ q ∷ tokens) current m is h =
      GivesKeys-token (batch_token m current t) _ _ _ _
        (batch_of-GivesKeys (p ∷ q ∷ tokens) current m is h)
        (λ e.
          batch_of-GivesKeys (p ∷ q ∷ tokens) t m (λ _. sym (h t) ∙ token-known m current t e) h)
        (λ e.
          batch_of-GivesKeys (q ∷ tokens) current _ is
            (appended current _ m h (is (token-current m current t _ e (inl refl)))))
        (λ e.
          batch_of-GivesKeys tokens current _ is
            (appended current _ m h (is (token-current m current t _ e (inr refl)))))

-- The changed files that are answered are a map whose keys are exactly the commits asked for,
-- whatever Git prints: none is missing and none is added.
pub read_commit_files_batch-HasKeys :
    (host : Host) (root : Text) (commits : List Text) (log : List Event) {m : Changes}
    → (read_commit_files_batch host root commits log).0 ≡ answered m
    → HasKeys commits m
unfolding read_commit_files_batch
read_commit_files_batch-HasKeys host root [] log h =
    λ k. ap (λ m. is_some (get k m)) (sym (answer-eq _ log h)) ∙ unfold get contains in refl
read_commit_files_batch-HasKeys host root (c ∷ cs) log h =
    let (valid, asked) = refuse_if-passed _ _ _ _ h in
    let (parents, _, after_parents) = >>=-eq-answered _ _ _ asked in
    let (output, _, last) = >>=-eq-answered _ _ _ after_parents in
    unfold GivesKeys settle in
    (batch_of-GivesKeys (c ∷ cs) (split 0 output) [] (each_to [] (c ∷ cs) [])
      (λ given. absurd (unfold is_empty in ground arith)) (each_to-HasKeys [] (c ∷ cs)) _ last)
