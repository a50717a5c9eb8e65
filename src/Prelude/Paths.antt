-- ===== src/Prelude/Paths.antt =====
-- What the program uses of Go's `path` and `path/filepath` packages.
use Prim.Native.String.{String, ◌++◌}
use mathlib.Core.Bool.{Bool, true, false}
use mathlib.Core.List.{List, [], ◌∷◌, reverse}
use mathlib.Core.Path.{◌≡◌, refl}
use text.Mathlib.Text.{◌==◌ as str_eq}
use space_daemon.Prelude.Tests.{if◌then◌else◌}
use space_daemon.Prelude.Text.{split, join}

last_or : String → List String → String
last_or d [] = d
last_or d (x ∷ xs) = last_or x xs

-- filepath.Split: the part behind the last slash
unfoldable pub file_part : String → String
unfolding last_or split
file_part p = last_or "" (split "/" p)

-- the pieces before the last
init : List String → List String
init [] = []
init (x ∷ []) = []
init (x ∷ (y ∷ r)) = x ∷ init (y ∷ r)

-- one piece of a path put on the pieces that are kept, the last of them first
abbrev keep_piece : Bool → String → List String → List String
keep_piece rooted p [] =
    if str_eq p ""
    then []
    else if str_eq p "."
    then []
    else if str_eq p ".."
    then (if rooted then [] else ".." ∷ [])
    else p ∷ []
keep_piece rooted p (q ∷ kept) =
    if str_eq p ""
    then q ∷ kept
    else if str_eq p "."
    then q ∷ kept
    else if str_eq p ".."
    then (if str_eq q ".." then ".." ∷ (q ∷ kept) else kept)
    else p ∷ (q ∷ kept)

keep_pieces : Bool → List String → List String → List String
keep_pieces rooted kept [] = kept
keep_pieces rooted kept (p ∷ ps) = keep_pieces rooted (keep_piece rooted p kept) ps

abbrev is_rooted : List String → Bool
is_rooted (p ∷ (q ∷ ps)) = str_eq p ""
is_rooted _ = false

abbrev or_dot : String → String
or_dot s = if str_eq s "" then "." else s

clean_pieces : List String → String
unfolding keep_pieces
clean_pieces ps =
    if is_rooted ps
    then "/" ++ join "/" (reverse (keep_pieces true [] ps))
    else or_dot (join "/" (reverse (keep_pieces false [] ps)))

-- path.Clean
unfoldable pub clean : String → String
unfolding clean_pieces split join
clean p = clean_pieces (split "/" p)

-- path.Dir: what stands up to the last slash, cleaned; a single slash is the root
dir_pieces : List String → String
unfolding clean_pieces init
dir_pieces ps = if is_rooted ps then clean_pieces ("" ∷ init ps) else clean_pieces (init ps)

unfoldable pub dir : String → String
unfolding dir_pieces split join
dir p = dir_pieces (split "/" p)

-- the last piece that is not empty
last_piece : String → List String → String
last_piece d [] = d
last_piece d (x ∷ xs) = last_piece (if str_eq x "" then d else x) xs

-- path.Base: trailing slashes do not count
unfoldable pub base : String → String
unfolding last_piece split
base p =
    if str_eq p ""
    then "."
    else let b = last_piece "" (split "/" p) in if str_eq b "" then "/" else b

abbrev extension_of : List String → String
extension_of (p ∷ (q ∷ r)) = last_or q r
extension_of _ = ""

-- filepath.Ext with its dot taken away
unfoldable pub extension : String → String
unfolding last_or split file_part
extension p = extension_of (split "." (file_part p))

dir_tests :
    (dir "/a/b" ≡ "/a")
    × (dir "a" ≡ ".")
    × (dir "/a" ≡ "/")
    × (dir "a/b/../c" ≡ "a")
    × (dir "a/" ≡ "a")
    × (clean "/../x//y/." ≡ "/x/y")
unfolding dir clean
dir_tests = (refl, refl, refl, refl, refl, refl)

base_tests : (base "/a/b/" ≡ "b") × (base "" ≡ ".") × (base "//" ≡ "/") × (file_part "a/b" ≡ "b")
unfolding base file_part
base_tests = (refl, refl, refl, refl)
