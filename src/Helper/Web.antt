-- ===== src/Helper/Web.antt =====
-- internal/vscodehelper/server.go: the web addresses of a repository's remotes. What `url.Parse`
-- reads and how a path is escaped are given by the host.
pub mod Address
use gitgit.Prelude.{
  ℕ, suc, ◌-◌, Bool, true, false, not, ◌&&◌, ◌||◌, Option, none, some, List, [], ◌∷◌, ◌++◌, take,
  drop, reverse, leb, ltb, ◌==◌, length, if◌then◌else◌, ℤ, pos, negsuc,
}
use gitgit.Text.{
  Text, lit, text_eq, is_empty, has_prefix, contains_byte, contains_any, trim_space, to_lower,
  equal_fold, split, cut,
}
use gitgit.Text.Numbers.{parse_int}
use gitgit.Text.Search.{contains_text, trim_byte, cut_last}
use gitgit.Helper.Rpc.{Host, ParsedUrl}
use gitgit.Helper.Paths.{has_bad_component, windows_drive_path}

-- `sshWebHost`.
unfoldable pub ssh_web_host : Text → Option Text
ssh_web_host host =
    let lowered = to_lower host in
    if text_eq lowered (lit "github.com") || text_eq lowered (lit "ssh.github.com")
    then some (lit "github.com")
    else if text_eq lowered (lit "gitlab.com") || text_eq lowered (lit "altssh.gitlab.com")
    then some (lit "gitlab.com")
    else none

-- `asciiLetterOrDigit`.
unfoldable pub ascii_letter_or_digit : ℕ → Bool
ascii_letter_or_digit c =
    (leb b'a' c && leb c b'z') || (leb b'A' c && leb c b'Z') || (leb b'0' c && leb c b'9')

-- The bytes of a label behind its first: hyphens only before the last.
unfoldable pub valid_label_rest : Text → Bool
unfolding ascii_letter_or_digit
valid_label_rest [] = true
valid_label_rest (c ∷ []) = ascii_letter_or_digit c
valid_label_rest (c ∷ d ∷ cs) = (ascii_letter_or_digit c || c == b'-') && valid_label_rest (d ∷ cs)

unfoldable pub valid_label : Text → Bool
unfolding valid_label_rest ascii_letter_or_digit
valid_label [] = false
valid_label (c ∷ cs) = ascii_letter_or_digit c && valid_label_rest cs

unfoldable pub valid_labels : List Text → Bool
unfolding valid_label
valid_labels [] = true
valid_labels (label ∷ labels) = valid_label label && valid_labels labels

-- `net.SplitHostPort`, with none for an error; the text holds a colon.
unfoldable pub split_host_port : Text → Option (Text × Text)
split_host_port [] = none
split_host_port (c ∷ cs) =
    let (before, port) = cut_last b':' (c ∷ cs) in
    let (inside, behind) = cut b']' cs in
    if c == b'['
    then (if not (contains_byte cs b']')
          || not (text_eq behind (b':' ∷ port))
          || contains_byte cs b'['
          || contains_byte behind b']'
        then none
        else some (inside, port))
    else if contains_byte before b':' || contains_byte (c ∷ cs) b'[' || contains_byte (c ∷ cs) b']'
    then none
    else some (before, port)

-- The test of the port: `strconv.Atoi`, and between 1 and 65535.
unfoldable pub valid_port : Text → Bool
valid_port port = elim (parse_int port) [ some (pos n) ↦ leb 1 n && leb n 65535 | _ ↦ false ]

-- `validWebHost`.
unfoldable pub valid_web_host : Text → Bool
unfolding valid_labels split_host_port valid_port
valid_web_host host =
    if contains_byte host b':'
    then elim (split_host_port host) [
      | none ↦ false
      | some p ↦ valid_port p.1 && valid_labels (split b'.' p.0)
    ]
    else valid_labels (split b'.' host)

-- The path without ".git" at its end.
unfoldable pub without_git_suffix : Text → Text
without_git_suffix path =
    let kept = length path - 4 in
    if leb 4 (length path) && equal_fold (drop kept path) (lit ".git") then take kept path else path

-- What `buildWebRepositoryURL` makes of its two arguments before its tests.
unfoldable pub web_host_text : Text → Text
web_host_text host = to_lower (trim_space host)

unfoldable pub web_path_text : Text → Text
unfolding without_git_suffix
web_path_text path = without_git_suffix (trim_byte b'/' (trim_space path))

unfoldable pub refused_address : Text → Text → Bool
unfolding valid_web_host
refused_address host path =
    is_empty host
    || is_empty path
    || contains_any (lit "@/\\?#") host
    || contains_any (lit "\\?#()[]<>\"'") path
    || not (valid_web_host host)
    || has_bad_component (split b'/' path)

-- `url.URL.String` of an https address; nothing of a valid host is escaped.
unfoldable pub https_address : Host → Text → Text → Text
https_address h host path = lit "https://" ++ host ++ h.escaped_path (b'/' ∷ path)

-- `buildWebRepositoryURL`.
unfoldable pub build_web_repository_url : Host → Text → Text → Option Text
unfolding refused_address web_host_text web_path_text https_address
build_web_repository_url h host path =
    if refused_address (web_host_text host) (web_path_text path)
    then none
    else some (https_address h (web_host_text host) (web_path_text path))

-- What follows an "@", or the whole text.
unfoldable pub without_user : Text → Text
without_user left = if contains_byte left b'@' then (cut b'@' left).1 else left

unfoldable pub is_drive_letter : Text → Bool
is_drive_letter (c ∷ []) = (leb b'a' c && leb c b'z') || (leb b'A' c && leb c b'Z')
is_drive_letter _ = false

module _ (h : Host) where
  abbrev on_web_host : Option Text → Text → Option Text
  on_web_host none path = none
  on_web_host (some web_host) path = build_web_repository_url h web_host path

  -- An address of the form `user@host:path`.
  unfoldable pub scp_address : Text → Option Text
  unfolding build_web_repository_url ssh_web_host without_user is_drive_letter
  scp_address value =
      let (left, path) = cut b':' value in
      if not (contains_byte value b':')
        || is_drive_letter left
        || contains_any (lit "/\\") left
        || contains_byte path b'\\'
      then none
      else on_web_host (ssh_web_host (without_user left)) path

  -- An address with a scheme, as `url.Parse` reads it.
  unfoldable pub parsed_address : ParsedUrl → Option Text
  unfolding build_web_repository_url ssh_web_host
  parsed_address p =
      let https = text_eq p.scheme (lit "https") in
      if is_empty p.host_name || not (is_empty p.raw_query) || not (is_empty p.fragment)
      then none
      else if (https || text_eq p.scheme (lit "http")) && p.has_user
      then none
      else if https
      then build_web_repository_url h (if text_eq p.port (lit "443") then p.host_name else p.host)
          p.path
      else if text_eq p.scheme (lit "ssh")
      then on_web_host (ssh_web_host p.host_name) p.path
      else none

  -- `normalizeWebRepositoryURL`.
  unfoldable pub normalize_web_repository_url : Text → Option Text
  unfolding scp_address parsed_address
  normalize_web_repository_url remote_url =
      let value = trim_space remote_url in
      if is_empty value || contains_any (lit "\r\n\t ") value
      then none
      else if not (contains_text (lit "://") value)
      then scp_address value
      else elim (h.parse_url value) [ none ↦ none | some p ↦ parsed_address p ]
