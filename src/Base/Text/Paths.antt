-- ===== src/Base/Text/Paths.antt =====
-- Go's package `path` (slash-separated paths), which `path/filepath` is on this program's systems.
use Prim.Native.String.{String, ◌++◌ as ◌<>◌}
use mathlib.Core.Bool.{Bool, xor, ◌&&◌, ◌||◌}
use mathlib.Core.Path.{◌≡◌, refl}
use mathlib.Core.List.{List, [], ◌∷◌, ◌++◌, reverse}
use dbt_rules.Base.Tests.{◌==◌, string_eq, if◌then◌else◌}
use dbt_rules.Base.Text.{has_prefix, split, join}

-- One element of a path, against the elements kept so far, the last one first.
unfoldable pub clean_step : Bool → List String → String → List String
clean_step rooted [] e =
    if e == "" || e == "." then [] else if e == ".." && rooted then [] else e ∷ []
clean_step rooted (top ∷ kept) e =
    if e == "" || e == "."
    then top ∷ kept
    else if e == ".."
    then (if top == ".." then e ∷ top ∷ kept else kept)
    else e ∷ top ∷ kept

unfoldable pub clean_loop : Bool → List String → List String → List String
clean_loop rooted kept [] = kept
clean_loop rooted kept (e ∷ es) = clean_loop rooted (clean_step rooted kept e) es

-- path.Clean
unfoldable pub clean : String → String
unfolding clean_loop clean_step split join
clean p =
    let rooted = has_prefix p "/" in
    let body = join "/" (reverse (clean_loop rooted [] (split b'/' p))) in
    if rooted then "/" <> body else if body == "" then "." else body

-- The elements behind the first that is not empty.
skip_empty : List String → List String
skip_empty [] = []
skip_empty (e ∷ es) = let rest = skip_empty es in if e == "" then rest else e ∷ es

-- path.Join
unfoldable pub join_path : List String → String
unfolding clean skip_empty
join_path elems = elim (skip_empty elems) [ [] ↦ "" | e ∷ es ↦ clean (join "/" (e ∷ es)) ]

-- All but the last field, joined with a slash behind each: what path.Split calls the directory.
dir_part : List String → String
dir_part [] = ""
dir_part (x ∷ []) = ""
dir_part (x ∷ y ∷ xs) = x <> "/" <> dir_part (y ∷ xs)

-- path.Dir
unfoldable pub dir : String → String
unfolding clean dir_part
dir p = clean (dir_part (split b'/' p))

-- The last field that is not empty, or the default.
last_field : String → List String → String
last_field d [] = d
last_field d (x ∷ xs) = last_field (if x == "" then d else x) xs

-- path.Base
unfoldable pub base : String → String
unfolding split last_field
base p = if p == "" then "." else last_field "/" (split b'/' p)

last : String → List String → String
last d [] = d
last d (x ∷ xs) = last x xs

last_dot : List String → String
last_dot [] = ""
last_dot (x ∷ []) = ""
last_dot (x ∷ y ∷ xs) = "." <> last y xs

-- path.Ext
unfoldable pub ext : String → String
unfolding split last last_dot
ext p = last_dot (split b'.' (last "" (split b'/' p)))

clean_tests :
    (clean "a//b/./c/../d/" ≡ "a/b/d")
    × (clean "/../a" ≡ "/a")
    × (clean "../../x" ≡ "../../x")
    × (clean "" ≡ ".")
    × (clean "/" ≡ "/")
unfolding clean
clean_tests = (refl, refl, refl, refl, refl)

path_tests :
    (dir "a/b.c" ≡ "a")
    × (dir "x" ≡ ".")
    × (dir "/x" ≡ "/")
    × (base "a/b/" ≡ "b")
    × (ext "a.d/b" ≡ "")
    × (ext "a/b.tar.gz" ≡ ".gz")
    × (join_path ("" ∷ "a" ∷ "" ∷ "b" ∷ []) ≡ "a/b")
unfolding dir base ext join_path
path_tests = (refl, refl, refl, refl, refl, refl, refl)

-- The rests of two lists behind their common beginning.
drop_common : List String → List String → List String × List String
drop_common [] ys = ([], ys)
drop_common (x ∷ xs) [] = (x ∷ xs, [])
drop_common (x ∷ xs) (y ∷ ys) =
    let rest = drop_common xs ys in if x == y then rest else (x ∷ xs, y ∷ ys)

ups : List String → List String
ups [] = []
ups (x ∷ xs) = ".." ∷ ups xs

-- The elements of a cleaned path. The path "." and the root have none.
elements : String → List String
elements p = if p == "." || p == "/" then [] else fields (split b'/' p)
  where
    fields : List String → List String
    fields [] = []
    fields (x ∷ xs) = if x == "" then xs else x ∷ xs

-- The path through the elements that are left over. Past a ".." there is no way back up.
climb : List String → List String → String
climb [] [] = "."
climb [] (y ∷ ys) = join "/" (y ∷ ys)
climb (x ∷ xs) ys = if x == ".." then "" else join "/" (ups (x ∷ xs) ++ ys)

-- filepath.Rel of absolute paths, which the program's are, and whose error the program drops: it has the empty path then.
unfoldable pub rel : String → String → String
unfolding clean elements drop_common climb ups xor
rel from to =
    let b = clean from in
    let t = clean to in
    if xor (has_prefix b "/") (has_prefix t "/")
    then ""
    else (let (x, y) = drop_common (elements b) (elements t) in climb x y)

rel_tests :
    (rel "/w/a" "/w/b/c" ≡ "../b/c")
    × (rel "/w" "/w/o" ≡ "o")
    × (rel "/" "/a" ≡ "a")
    × (rel "/w/a" "/w/a" ≡ ".")
    × (rel "w" "/w" ≡ "")
unfolding rel
rel_tests = (refl, refl, refl, refl, refl)
