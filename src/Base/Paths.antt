-- ===== src/Base/Paths.antt =====
-- path/filepath on Unix: Clean, Base and IsAbs, on slash-separated texts.
use mathlib.Core.Bool.{Bool, false, ◌&&◌, ◌||◌}
use mathlib.Core.List.{List, [], ◌∷◌, ◌++◌, reverse}
use tmux_a2a_postman.Base.Test.{eqb, if◌then◌else◌}
use tmux_a2a_postman.Base.Strings.{Text, codes, ◌==◌, is_empty, contains_byte}

-- strings.Split at a slash
unfoldable pub split_slash : Text → List Text
split_slash [] = [] ∷ []
split_slash (c ∷ s) =
    let rest = split_slash s in
    if eqb c b'/' then [] ∷ rest else elim rest [ [] ↦ (c ∷ []) ∷ [] | x ∷ xs ↦ (c ∷ x) ∷ xs ]

-- strings.Join with a slash
unfoldable pub join_slash : List Text → Text
join_slash [] = []
join_slash (x ∷ []) = x
join_slash (x ∷ y ∷ xs) = x ++ (b'/' ∷ join_slash (y ∷ xs))

-- One element of a path, on the cleaned elements before it in reverse.
unfoldable pub clean_element : Bool → Text → List Text → List Text
clean_element rooted e [] =
    if is_empty e || e == codes "." then [] else if e == codes ".." && rooted then [] else e ∷ []
clean_element rooted e (x ∷ xs) =
    if is_empty e || e == codes "."
    then x ∷ xs
    else if e == codes ".."
    then (if x == codes ".." then e ∷ x ∷ xs else xs)
    else e ∷ x ∷ xs

unfoldable pub clean_elements : Bool → List Text → List Text → List Text
unfolding clean_element
clean_elements rooted done [] = reverse done
clean_elements rooted done (e ∷ es) = clean_elements rooted (clean_element rooted e done) es

-- filepath.IsAbs
abbrev pub is_abs : Text → Bool
is_abs [] = false
is_abs (c ∷ s) = eqb c b'/'

-- filepath.Clean
unfoldable pub path_clean : Text → Text
unfolding split_slash join_slash clean_elements
path_clean path =
    let body = join_slash (clean_elements (is_abs path) [] (split_slash path)) in
    if is_abs path then b'/' ∷ body else if is_empty body then codes "." else body

-- filepath.Base without the slashes at the end
unfoldable pub strip_slashes : Text → Text
strip_slashes [] = []
strip_slashes (c ∷ s) =
    let rest = strip_slashes s in if is_empty rest && eqb c b'/' then [] else c ∷ rest

unfoldable pub last_element : Text → Text
unfolding contains_byte
last_element [] = []
last_element (c ∷ s) =
    let rest = last_element s in if contains_byte b'/' (c ∷ s) then rest else c ∷ s

-- filepath.Base
unfoldable pub path_base : Text → Text
unfolding strip_slashes last_element
path_base [] = b'.' ∷ []
path_base (c ∷ s) =
    let base = last_element (strip_slashes (c ∷ s)) in if is_empty base then b'/' ∷ [] else base

unfoldable pub up_to_slash : Text → Text
unfolding contains_byte
up_to_slash [] = []
up_to_slash (c ∷ s) =
    let rest = up_to_slash s in if contains_byte b'/' (c ∷ s) then c ∷ rest else []

-- filepath.Dir
unfoldable pub path_dir : Text → Text
unfolding up_to_slash path_clean
path_dir path = path_clean (up_to_slash path)
