-- ===== src/Helper/Paths/Inside.antt =====
-- internal/vscodehelper/methods.go: the paths that `validateRelativePath` lets through.
use mathlib.Core.Path.{subst}
use gitgit.Prelude.{
  ◌≡◌, refl, sym, ap, ◌∙◌, true, false, List, [], ◌∷◌, reverse, reverse-reverse, arith,
}
use mathlib.Core.List.{reverse_aux}
use gitgit.Text.{Text, lit, text_eq, has_prefix, split, join}
use gitgit.Text.Splitting.{split-cons, join-split}
use gitgit.Path.{is_abs, clean, join_paths, path_elements, written, clean_elements, clean_element}
use gitgit.Helper.Rpc.{answered, Host}
use gitgit.Helper.Rpc.Inversion.{guard-passed}
use gitgit.Helper.Revision.{has_control}
use gitgit.Helper.Paths.{
  bad_component, has_bad_component, check_location, is_inside, path_within,
  resolve_existing_ancestor, validate_relative_path,
}

-- Elements that are neither empty nor "." nor ".." are all kept, in order.
clean_element-kept :
    (e : Text) (kept : List Text) → bad_component e ≡ false → clean_element false e kept ≡ e ∷ kept
unfolding clean_element bad_component
clean_element-kept e [] h = ground arith
clean_element-kept e (k ∷ kept) h = ground arith

clean_elements-kept :
    (es kept : List Text)
    → has_bad_component es ≡ false
    → clean_elements false es kept ≡ reverse_aux es kept
unfolding clean_elements has_bad_component
clean_elements-kept [] kept h = refl
clean_elements-kept (e ∷ es) kept h =
    ap (clean_elements false es) (clean_element-kept e kept (ground arith))
    ∙ clean_elements-kept es (e ∷ kept) (ground arith)

path_elements-kept :
    (path : Text)
    → is_abs path ≡ false
    → has_bad_component (split b'/' path) ≡ false
    → path_elements path ≡ split b'/' path
unfolding path_elements
path_elements-kept path relative good =
    ap (λ rooted. reverse (clean_elements rooted (split b'/' path) [])) relative
    ∙ ap reverse (clean_elements-kept (split b'/' path) [] good)
    ∙ reverse-reverse (split b'/' path)

-- A relative path with good components only is not changed by `filepath.Clean`.
clean-kept :
    (path : Text)
    → is_abs path ≡ false
    → has_bad_component (split b'/' path) ≡ false
    → clean path ≡ path
unfolding clean
clean-kept path relative good =
    let (u, us, e) = split-cons b'/' path in
    ap (λ rooted. written rooted (path_elements path)) relative
    ∙ ap (written false) (path_elements-kept path relative good ∙ e)
    ∙ unfold written in (ap (join b'/') (sym e) ∙ join-split b'/' path)

-- What a path of a request may be.
abbrev pub IsRequestPath : Host → Text → Text → Type 0
IsRequestPath host root path =
    (has_bad_component (split b'/' path) ≡ false)
    × (has_control path ≡ false)
    × (is_abs path ≡ false)
    × (text_eq path (lit ".git") ≡ false)
    × (has_prefix (lit ".git/") path ≡ false)
    × (path_within host root (join_paths root path) ≡ true)
    × (is_inside host root (resolve_existing_ancestor host (join_paths root path)) ≡ true)

module _ (host : Host) (root : Text) where
  check_location-passed :
      (cleaned : Text) {path : Text}
      → check_location host root cleaned ≡ answered path
      → (cleaned ≡ path)
        × (text_eq cleaned (lit ".git") ≡ false)
        × (has_prefix (lit ".git/") cleaned ≡ false)
        × (path_within host root (join_paths root cleaned) ≡ true)
        × (is_inside host root (resolve_existing_ancestor host (join_paths root cleaned)) ≡ true)
  unfolding check_location
  check_location-passed cleaned h = ground arith

  -- A path that is let through is the path of the request itself: relative, without an empty
  -- component, "." or ".." and without a control character, outside ".git", and inside the
  -- repository both as it is written and where its links lead.
  pub validate_relative_path-IsRequestPath :
      (candidate : Text) {path : Text}
      → validate_relative_path host root candidate ≡ answered path
      → (path ≡ candidate) × IsRequestPath host root candidate
  unfolding validate_relative_path
  validate_relative_path-IsRequestPath candidate {path} h =
      let (_, given) = guard-passed _ _ _ h in
      let (plain, portable) = guard-passed _ _ _ given in
      let (relative, parts) = guard-passed _ _ _ portable in
      let (good, located) = guard-passed _ _ _ parts in
      let same = clean-kept candidate (ground arith) good in
      let (e, git, below, written_in, resolved_in) =
        check_location-passed (clean candidate) located in
      let (git', below', written', resolved') =
        subst Located same (git, below, written_in, resolved_in) in
      (sym e ∙ same, (good, plain, ground arith, git', below', written', resolved'))
    where
      Located : Text → Type 0
      Located path =
          (text_eq path (lit ".git") ≡ false)
          × (has_prefix (lit ".git/") path ≡ false)
          × (path_within host root (join_paths root path) ≡ true)
          × (is_inside host root (resolve_existing_ancestor host (join_paths root path)) ≡ true)
