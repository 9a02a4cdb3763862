-- ===== src/Helper/Rpc/Inversion.antt =====
-- internal/vscodehelper: what a request has passed when it is answered.
use gitgit.Prelude.{◌≡◌, refl, Bool, true, false, List, if◌then◌else◌}
use gitgit.Git.{Event}
use gitgit.Helper.Rpc.{
  Answer, answered, refused, RpcError, Serve, answer, settle, next, ◌>>=◌, ◌>>◌, refuse_if,
}

module _ {ℓ κ} {A : Type ℓ} {B : Type κ} where
  next-eq-answered :
      (a : Answer A) (f : A → Serve B) (log : List Event) {b : B}
      → (next a f log).0 ≡ answered b
      → (x : A) × (a ≡ answered x) × ((f x log).0 ≡ answered b)
  next-eq-answered (answered x) f log h = (x, refl, h)
  next-eq-answered (refused e) f log h = cc

  -- A chain is answered when its first action is, and then the rest.
  pub >>=-eq-answered :
      (m : Serve A) (f : A → Serve B) (log : List Event) {b : B}
      → ((m >>= f) log).0 ≡ answered b
      → (x : A) × ((m log).0 ≡ answered x) × ((f x (m log).1).0 ≡ answered b)
  unfolding ◌>>=◌
  >>=-eq-answered m f log h = next-eq-answered (m log).0 f (m log).1 h

module _ {ℓ} {A : Type ℓ} where
  pub answered_eq : {a b : A} → answered a ≡ answered b → a ≡ b
  answered_eq h = cc

  pub answer-eq : (a : A) (log : List Event) {b : A} → (answer a log).0 ≡ answered b → a ≡ b
  unfolding answer
  answer-eq a log h = answered_eq h

  -- A guard was passed.
  pub refuse_if-passed :
      (b : Bool) (e : RpcError) (k : Serve A) (log : List Event) {a : A}
      → ((refuse_if b e >> k) log).0 ≡ answered a
      → (b ≡ false) × ((k log).0 ≡ answered a)
  unfolding refuse_if ◌>>=◌
  refuse_if-passed true e k log h = cc
  refuse_if-passed false e k log h = (refl, h)

  -- The same for a test outside a chain.
  pub guard-passed :
      (b : Bool) (e : RpcError) (rest : Answer A) {a : A}
      → (if b then refused e else rest) ≡ answered a
      → (b ≡ false) × (rest ≡ answered a)
  guard-passed true e rest h = cc
  guard-passed false e rest h = (refl, h)

  pub settle-eq :
      (a : Answer A) (log : List Event) {x : A} → (settle a log).0 ≡ answered x → a ≡ answered x
  unfolding settle
  settle-eq a log h = h
