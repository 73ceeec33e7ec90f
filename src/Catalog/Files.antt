-- ===== src/Catalog/Files.antt =====
-- `relative_file` of catalog_service/src/management.py, and the suffix of a hook's entry.
use Prim.Native.Char.{code}
use Prim.Native.String.{String, [], ◌∷◌}
use opencode_cloud.Prelude.{
  Bool, true, false, ◌||◌, Option, none, some, List, [], ◌∷◌, ◌==◌, eqb, any, if◌then◌else◌,
}
use opencode_cloud.Posix.{split, names, as_posix, contains_char, is_absolute, name_of}
use opencode_cloud.Catalog.Replies.{Reply, ok, fail}

abbrev is_step : String → Bool
is_step p = p == ".." || p == "."

abbrev none_of : List String → Bool
none_of [] = true
none_of (p ∷ ps) = false

unfoldable pub relative_file : String → Reply String
relative_file value =
    if contains_char b'\\' value || (contains_char b':' value || contains_char 0 value)
    then fail 400 "Invalid resource file path"
    else if is_absolute value || (any is_step (split value) || none_of (names value))
    then fail 400 "Resource file escapes root"
    else ok (as_posix value)

-- The text from the last dot, when something stands before and after it.
abbrev dotted : String → Option String
dotted [] = none
dotted (c ∷ s) = elim (dotted s) [
  | some suffix ↦ some suffix
  | none ↦ if eqb (code c) b'.' then some (c ∷ s) else none
]

abbrev kept : Option String → String
kept (some (c ∷ d ∷ s)) = c ∷ d ∷ s
kept _ = ""

abbrev after_first : String → Option String
after_first [] = none
after_first (c ∷ s) = dotted s

-- PurePosixPath(s).suffix
abbrev pub suffix : String → String
suffix s = kept (after_first (name_of s))
