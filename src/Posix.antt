-- ===== src/Posix.antt =====
-- Paths as the services take them apart, by `PurePosixPath` and by `str.split("/")`, and the two
-- checks of paths that callers give: shared_libs/workspace_paths.py and `relative_file` of
-- catalog_service/src/management.py.
pub mod Split
pub mod Workspace
pub mod Contained
mod Samples
use Prim.Native.Char.{Char, code}
use Prim.Native.String.{String, [], ◌∷◌, ◌++◌ as ◌<>◌}
use text.Mathlib.Text.{starts_with}
use opencode_cloud.Prelude.{
  ℕ, Bool, true, false, not, ◌&&◌, ◌||◌, List, [], ◌∷◌, ◌==◌, eqb, select, if◌then◌else◌,
}

abbrev grow : Char → List String → List String
grow c [] = (c ∷ "") ∷ []
grow c (p ∷ ps) = (c ∷ p) ∷ ps

-- s.split("/")
unfoldable pub split : String → List String
split [] = "" ∷ []
split (c ∷ s) = let rest = split s in if eqb (code c) b'/' then "" ∷ rest else grow c rest

-- "/".join(parts)
unfoldable pub join : List String → String
join [] = ""
join (p ∷ []) = p
join (p ∷ (q ∷ ps)) = p <> ("/" ∷ join (q ∷ ps))

abbrev pub contains_char : ℕ → String → Bool
contains_char n [] = false
contains_char n (c ∷ s) = eqb (code c) n || contains_char n s

-- A name that PurePosixPath keeps.
abbrev pub is_name : String → Bool
is_name p = not (p == "" || p == ".")

abbrev pub is_absolute : String → Bool
is_absolute [] = false
is_absolute (c ∷ s) = eqb (code c) b'/'

-- The parts of a PurePosixPath after its root.
abbrev pub names : String → List String
names s = select is_name (split s)

-- PurePosixPath(s).root: exactly two slashes are a root of their own.
abbrev pub root : String → String
root s =
    if not (is_absolute s)
    then ""
    else if starts_with s "//" && not (starts_with s "///")
    then "//"
    else "/"

-- str(PurePosixPath(s))
abbrev pub as_posix : String → String
as_posix s = elim (names s) [
  | [] ↦ if root s == "" then "." else root s
  | p ∷ ps ↦ root s <> join (p ∷ ps)
]

abbrev last_of : String → List String → String
last_of p [] = p
last_of p (q ∷ ps) = last_of q ps

-- PurePosixPath(s).name
abbrev pub name_of : String → String
name_of s = last_of "" (names s)
