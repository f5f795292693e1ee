-- ===== src/Text/FilePaths.antt =====
-- Package path/filepath on Unix, and package path: Clean, Join, Dir, Base and IsAbs.
use docker_control.Prelude.{Bool, ◌||◌, List, [], ◌∷◌, ◌++◌, ◌=?◌, if◌then◌else◌, ◌≡◌, refl}
use docker_control.Text.Search.{Text, codes, has_prefix, split, join, trim_right}

-- The list from its end, in front of `acc`.
abbrev pub reversed_onto : List Text → List Text → List Text
reversed_onto acc [] = acc
reversed_onto acc (part ∷ parts) = reversed_onto (part ∷ acc) parts

-- ".." behind the parts so far, the latest first: it takes the last one away, if that is a name.
abbrev pub up : Bool → List Text → List Text
up rooted [] = if rooted then [] else codes ".." ∷ []
up rooted (part ∷ parts) = if part =? codes ".." then codes ".." ∷ part ∷ parts else parts

abbrev pub step : Bool → Text → List Text → List Text
step rooted part parts =
    if part =? [] || part =? codes "."
    then parts
    else if part =? codes ".."
    then up rooted parts
    else part ∷ parts

-- The parts that Clean keeps, the latest first.
unfoldable pub kept_parts : Bool → List Text → List Text → List Text
kept_parts rooted parts [] = parts
kept_parts rooted parts (part ∷ rest) = kept_parts rooted (step rooted part parts) rest

abbrev pub is_abs : Text → Bool
is_abs path = has_prefix path (codes "/")

abbrev pub or_dot : Text → Text
or_dot s = if s =? [] then codes "." else s

unfoldable pub clean : Text → Text
unfolding kept_parts
clean path =
    let body = join (reversed_onto [] (kept_parts (is_abs path) [] (split path b'/'))) b'/' in
    if is_abs path then b'/' ∷ body else or_dot body

-- Join: leading elements that are empty are left out.
unfoldable pub join_paths : List Text → Text
unfolding clean
join_paths [] = []
join_paths (part ∷ parts) =
    let rest = join_paths parts in if part =? [] then rest else clean (join (part ∷ parts) b'/')

-- The parts without the last one, and the last one.
abbrev pub all_but_last : List Text → List Text
all_but_last [] = []
all_but_last (part ∷ []) = []
all_but_last (part ∷ next ∷ parts) = part ∷ all_but_last (next ∷ parts)

abbrev pub last_part : List Text → Text
last_part [] = []
last_part (part ∷ []) = part
last_part (part ∷ next ∷ parts) = last_part (next ∷ parts)

-- Dir: Clean of what stands in front of the last slash, with the slash.
unfoldable pub dir : Text → Text
unfolding clean
dir path = clean (join (all_but_last (split path b'/') ++ [] ∷ []) b'/')

unfoldable pub base : Text → Text
base path =
    if path =? []
    then codes "."
    else let name = last_part (split (trim_right path b'/') b'/') in
      if name =? [] then codes "/" else name

paths :
    (clean (codes "/a//b/../c/./") ≡ codes "/a/c")
    × (clean (codes "../../a/..") ≡ codes "../..")
    × (clean (codes "/..") ≡ codes "/")
    × (clean [] ≡ codes ".")
    × (join_paths ([] ∷ codes "/root" ∷ codes ".docker-control" ∷ [])
        ≡ codes "/root/.docker-control")
    × (dir (codes "/root/bin/x") ≡ codes "/root/bin")
    × (dir (codes "x") ≡ codes ".")
    × (dir (codes "/x") ≡ codes "/")
    × (base (codes "/root/bin/") ≡ codes "bin")
    × (base (codes "//") ≡ codes "/")
unfolding clean join_paths dir base split join trim_right ◌=?◌
paths = (refl, refl, refl, refl, refl, refl, refl, refl, refl, refl)
