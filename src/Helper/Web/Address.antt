-- ===== src/Helper/Web/Address.antt =====
-- internal/vscodehelper/server.go: the web addresses that the helper makes up.
use gitgit.Prelude.{
  ◌≡◌, refl, sym, Bool, true, false, Option, none, some, [], ◌∷◌, if◌then◌else◌, arith,
}
use gitgit.Text.{Text, lit, is_empty, contains_byte, contains_any, split}
use gitgit.Helper.Rpc.{Host, ParsedUrl}
use gitgit.Helper.Paths.{has_bad_component}
use gitgit.Helper.Web.{
  valid_web_host, web_host_text, web_path_text, refused_address, https_address,
  build_web_repository_url, on_web_host, scp_address, parsed_address, normalize_web_repository_url,
}

-- An https address of a host without a user, and of a path without empty, "." or ".." parts.
abbrev pub IsWebAddress : Host → Text → Type 0
IsWebAddress h address =
    (host path : Text) × (address ≡ https_address h host path)
    × (valid_web_host host ≡ true)
    × (contains_byte host b'@' ≡ false)
    × (is_empty path ≡ false)
    × (has_bad_component (split b'/' path) ≡ false)

-- All that an address can be is a web address.
Gives : Host → Option Text → Type 0
Gives h o = (web : Text) → o ≡ some web → IsWebAddress h web

Gives-none : (h : Host) → Gives h none
unfolding Gives
Gives-none h web e = absurd (ground arith)

Gives-if :
    (h : Host) (b : Bool) (x y : Option Text) → Gives h x → Gives h y → Gives h (if b then x else y)
Gives-if h true x y gives_x gives_y = gives_x
Gives-if h false x y gives_x gives_y = gives_y

some_eq : {a b : Text} → some a ≡ some b → a ≡ b
some_eq h = cc

no_user : (host : Text) → contains_any (lit "@/\\?#") host ≡ false → contains_byte host b'@' ≡ false
unfolding contains_any contains_byte lit
no_user [] h = refl
no_user (c ∷ cs) h = ground (arith, no_user cs)

accepted :
    (host path : Text)
    → refused_address host path ≡ false
    → (valid_web_host host ≡ true)
      × (contains_any (lit "@/\\?#") host ≡ false)
      × (is_empty path ≡ false)
      × (has_bad_component (split b'/' path) ≡ false)
unfolding refused_address
accepted host path h = ground arith

module _ (h : Host) where
  built_address :
      (host path : Text) (b : Bool)
      → refused_address host path ≡ b
      → Gives h (if b then none else some (https_address h host path))
  unfolding Gives
  built_address host path true e web none_is = absurd (ground arith)
  built_address host path false e web is_web =
      let (valid, plain, given, parts) = accepted host path e in
      (host, path, sym (some_eq is_web), valid, no_user _ plain, given, parts)

  build-Gives : (host path : Text) → Gives h (build_web_repository_url h host path)
  unfolding build_web_repository_url
  build-Gives host path = built_address (web_host_text host) (web_path_text path) _ refl

  on_web_host-Gives : (o : Option Text) (path : Text) → Gives h (on_web_host h o path)
  on_web_host-Gives none path = Gives-none h
  on_web_host-Gives (some host) path = build-Gives host path

  scp_address-Gives : (value : Text) → Gives h (scp_address h value)
  unfolding scp_address
  scp_address-Gives value = Gives-if h _ _ _ (Gives-none h) (on_web_host-Gives _ _)

  parsed_address-Gives : (p : ParsedUrl) → Gives h (parsed_address h p)
  unfolding parsed_address
  parsed_address-Gives p =
      search (Gives-if h, Gives-none h, build-Gives, on_web_host-Gives) depth 12

  read-Gives :
      (o : Option ParsedUrl) → Gives h (elim o [ none ↦ none | some p ↦ parsed_address h p ])
  read-Gives none = Gives-none h
  read-Gives (some p) = parsed_address-Gives p

  normalize_web_repository_url-Gives :
      (remote_url : Text) → Gives h (normalize_web_repository_url h remote_url)
  unfolding normalize_web_repository_url
  normalize_web_repository_url-Gives remote_url =
      Gives-if h _ _ _ (Gives-none h)
        (Gives-if h _ _ _ (scp_address-Gives _) (read-Gives (h.parse_url _)))

  -- Whatever the remote's address is and however `url.Parse` reads it, a web address that the helper
  -- gives for it is an https one whose host is valid and has no user in front of it, and whose path is
  -- not empty and has no empty, "." or ".." part before it is escaped.
  pub normalize_web_repository_url-IsWebAddress :
      (remote_url : Text) {web : Text}
      → normalize_web_repository_url h remote_url ≡ some web
      → IsWebAddress h web
  unfolding Gives
  normalize_web_repository_url-IsWebAddress remote_url e =
      normalize_web_repository_url-Gives remote_url _ e
