-- ===== src/Path.antt =====
-- Go's package path/filepath on Unix: the lexical functions that the program calls.
pub mod Cleaned
use gitgit.Prelude.{
  Bool, true, false, ◌&&◌, ◌||◌, List, [], ◌∷◌, ◌++◌, reverse, ◌==◌, if◌then◌else◌,
}
use gitgit.Text.{Text, lit, text_eq, is_empty, split, join}

unfoldable pub is_abs : Text → Bool
is_abs [] = false
is_abs (c ∷ _) = c == b'/'

-- One element of the path, on the elements that are kept, the last first.
unfoldable pub clean_element : Bool → Text → List Text → List Text
clean_element rooted element [] =
    if is_empty element || text_eq element (lit ".")
    then []
    else if text_eq element (lit "..") && rooted
    then []
    else element ∷ []
clean_element rooted element (last ∷ kept) =
    if is_empty element || text_eq element (lit ".")
    then last ∷ kept
    else if text_eq element (lit "..")
    then (if text_eq last (lit "..") then element ∷ last ∷ kept else kept)
    else element ∷ last ∷ kept

unfoldable pub clean_elements : Bool → List Text → List Text → List Text
clean_elements rooted [] kept = kept
clean_elements rooted (element ∷ elements) kept =
    clean_elements rooted elements (clean_element rooted element kept)

-- The elements of the cleaned path.
unfoldable pub path_elements : Text → List Text
unfolding clean_elements clean_element
path_elements path = reverse (clean_elements (is_abs path) (split b'/' path) [])

unfoldable pub written : Bool → List Text → Text
written true elements = b'/' ∷ join b'/' elements
written false [] = lit "."
written false (e ∷ es) = join b'/' (e ∷ es)

-- `filepath.Clean`.
unfoldable pub clean : Text → Text
unfolding written path_elements
clean path = written (is_abs path) (path_elements path)

-- `filepath.Join` of two paths.
unfoldable pub join_paths : Text → Text → Text
unfolding clean
join_paths root path =
    if is_empty root
    then (if is_empty path then [] else clean path)
    else if is_empty path
    then clean root
    else clean (root ++ b'/' ∷ path)
