-- ===== src/Posix/Workspace.antt =====
-- `validate_identifier` and `normalize_relative_parts` of shared_libs/workspace_paths.py.
use Prim.Native.Char.{code}
use Prim.Native.String.{String, [], ◌∷◌, count, ◌++◌ as ◌<>◌}
use opencode_cloud.Prelude.{
  ℕ, Option, none, some, Bool, true, false, not, ◌&&◌, ◌||◌, List, ◌==◌, eqb, leb, any, select,
  if◌then◌else◌,
}
use opencode_cloud.Posix.{contains_char, is_absolute, names}

-- The parts, or the message of a WorkspacePathError.
pub data Checked : Type 0 where
  accepted : List String → Checked
  refused : String → Checked

-- ^[A-Za-z]:
abbrev pub is_drive : String → Bool
is_drive (c ∷ d ∷ s) =
    ((leb b'a' (code c) && leb (code c) b'z') || (leb b'A' (code c) && leb (code c) b'Z'))
    && eqb (code d) b':'
is_drive _ = false

abbrev pub is_part : String → Bool
is_part p = not (p == "" || p == ".")

unfoldable pub normalize_relative_parts : String → Checked
normalize_relative_parts raw =
    if contains_char 0 raw
    then refused "relative path contains a NUL byte"
    else if contains_char b'\\' raw
    then refused "relative path must use forward slashes"
    else if is_absolute raw || is_drive raw
    then refused "absolute paths are not allowed"
    else if any (λ p. p == "..") (names raw)
    then refused "parent traversal is not allowed"
    else accepted (select is_part (names raw))

abbrev is_alphanumeric : ℕ → Bool
is_alphanumeric c =
    (leb b'0' c && leb c b'9') || ((leb b'a' c && leb c b'z') || (leb b'A' c && leb c b'Z'))

abbrev continues : ℕ → Bool
continues c = is_alphanumeric c || (eqb c b'.' || (eqb c b'_' || eqb c b'-'))

abbrev all_continue : String → Bool
all_continue [] = true
all_continue (c ∷ s) = continues (code c) && all_continue s

-- ^[A-Za-z0-9][A-Za-z0-9._-]{0,127}$
unfoldable pub is_valid_identifier : String → Bool
is_valid_identifier [] = false
is_valid_identifier (c ∷ s) = is_alphanumeric (code c) && (leb (count s) 127 && all_continue s)

-- The message of a WorkspacePathError, if the value is refused.
unfoldable pub validate_identifier : String → String → Option String
validate_identifier value field =
    if not (is_valid_identifier value)
    then some (field <> " must be 1-128 ASCII letters, digits, dots, underscores, or hyphens")
    else if value == "." || value == ".."
    then some (field <> " cannot be '" <> value <> "'")
    else none
