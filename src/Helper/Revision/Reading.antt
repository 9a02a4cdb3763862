-- ===== src/Helper/Revision/Reading.antt =====
-- internal/vscodehelper/methods.go: what `resolveRevision` and `readRevisionBlob` give and what they
-- ask of Git.
use mathlib.Core.Path.{subst}
use gitgit.Prelude.{ltb, length, not, arith, ◌≡◌, refl, Option, none, some, Bool, true, false, List}
use gitgit.Text.{Text, lit, text_eq, contains, contains_byte, trim_space}
use gitgit.Git.{Event}
use gitgit.Helper.Rpc.{RpcError, Host, Serve, answered, ◌>>=◌, ◌>>◌, max_text_bytes}
use gitgit.Helper.Rpc.Inversion.{>>=-eq-answered, answer-eq, refuse_if-passed}
use gitgit.Helper.Rpc.Offline.{reads_only, Keeps, keeps_rules}
use gitgit.Helper.Revision.{
  is_object_id, validate_revision, validate_text, refuse_some, cat_file, read_blob,
  resolve_revision, ensure_revision_file, read_revision_blob,
}

pub Keeps-refuse_some : (e : Option RpcError) → Keeps (refuse_some e)
unfolding Keeps refuse_some
Keeps-refuse_some none log h = h
Keeps-refuse_some (some e) log h = h

module _ (host : Host) (root : Text) where
  pub Keeps-resolve_revision : (revision : Text) → Keeps (resolve_revision host root revision)
  unfolding resolve_revision reads_only contains text_eq lit
  Keeps-resolve_revision revision = search (keeps_rules, Keeps-refuse_some)

  pub Keeps-ensure_revision_file :
      (revision path : Text) → Keeps (ensure_revision_file host root revision path)
  unfolding ensure_revision_file reads_only contains text_eq lit
  Keeps-ensure_revision_file revision path = search keeps_rules

  Keeps-cat_file : (option object_spec : Text) → Keeps (cat_file host root option object_spec)
  unfolding cat_file reads_only contains text_eq lit
  Keeps-cat_file option object_spec = search keeps_rules

  Keeps-read_blob : (object_spec : Text) → Keeps (read_blob host root object_spec)
  unfolding read_blob
  Keeps-read_blob object_spec = search (keeps_rules, Keeps-refuse_some, Keeps-cat_file) depth 20

  pub Keeps-read_revision_blob :
      (revision path : Text) → Keeps (read_revision_blob host root revision path)
  unfolding read_revision_blob
  Keeps-read_revision_blob revision path =
      search (keeps_rules, Keeps-ensure_revision_file, Keeps-read_blob)

pub refuse_some-passed {ℓ} :
    {A : Type ℓ} (e : Option RpcError) (k : Serve A) (log : List Event) {a : A}
    → ((refuse_some e >> k) log).0 ≡ answered a
    → (e ≡ none) × ((k log).0 ≡ answered a)
unfolding refuse_some ◌>>=◌
refuse_some-passed none k log h = (refl, h)
refuse_some-passed (some e) k log h = cc

-- What a client is sent: a text without a NUL byte, in UTF-8, of at most 4 MiB.
abbrev pub IsSendable : Host → Text → Type 0
IsSendable host t =
    (ltb max_text_bytes (length t) ≡ false)
    × (contains_byte t 0 ≡ false)
    × (host.valid_utf8 t ≡ true)

validate_text-IsSendable :
    (host : Host) (t : Text) → validate_text host.valid_utf8 t ≡ none → IsSendable host t
unfolding validate_text
validate_text-IsSendable host t h = ground arith

module _ (host : Host) (root : Text) where
  read_blob-IsSendable :
      (object_spec : Text) (log : List Event) {content : Text}
      → (read_blob host root object_spec log).0 ≡ answered content
      → IsSendable host content
  unfolding read_blob
  read_blob-IsSendable object_spec log h =
      let (kind, _, after_kind) = >>=-eq-answered _ _ _ h in
      let (_, after_type) = refuse_if-passed _ _ _ _ after_kind in
      let (size_output, _, after_output) = >>=-eq-answered _ _ _ after_type in
      let (size, _, after_size) = >>=-eq-answered _ _ _ after_output in
      let (_, small) = refuse_if-passed _ _ _ _ after_size in
      let (output, _, read) = >>=-eq-answered _ _ _ small in
      let (_, sized) = refuse_if-passed _ _ _ _ read in
      let (valid, last) = refuse_some-passed _ _ _ sized in
      subst (IsSendable host) (answer-eq _ _ last) (validate_text-IsSendable host output valid)

  -- A content that is read from a revision is a text that the client may be sent: no NUL byte, valid
  -- UTF-8 and at most 4 MiB, whatever Git answers.
  pub read_revision_blob-IsSendable :
      (revision path : Text) (log : List Event) {content : Text}
      → (read_revision_blob host root revision path log).0 ≡ answered content
      → IsSendable host content
  unfolding read_revision_blob
  read_revision_blob-IsSendable revision path log h =
      let (object_spec, _, rest) = >>=-eq-answered _ _ _ h in
      read_blob-IsSendable object_spec _ rest

  -- A revision resolves to an object id only, and only where it is no option of Git, not blank and
  -- without a control character.
  pub resolve_revision-id :
      (revision : Text) (log : List Event) {commit : Text}
      → (resolve_revision host root revision log).0 ≡ answered commit
      → (is_object_id commit ≡ true) × (validate_revision (trim_space revision) ≡ none)
  unfolding resolve_revision
  resolve_revision-id revision log h =
      let (valid, resolving) = refuse_some-passed _ _ _ h in
      let (output, _, rest) = >>=-eq-answered _ _ _ resolving in
      let (id, last) = refuse_if-passed _ _ _ _ rest in
      (subst (λ t. is_object_id t ≡ true) (answer-eq _ _ last) (not-false id), valid)
    where
      not-false : {b : Bool} → not b ≡ false → b ≡ true
      not-false h = ground arith
