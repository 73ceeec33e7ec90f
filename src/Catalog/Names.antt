-- ===== src/Catalog/Names.antt =====
-- `identifier` of catalog_service/src/management.py.
use Prim.Native.Char.{code}
use Prim.Native.String.{String, [], ◌∷◌, count}
use opencode_cloud.Prelude.{ℕ, Bool, true, false, ◌&&◌, ◌||◌, leb, eqb, if◌then◌else◌}
use opencode_cloud.Catalog.Replies.{Reply, ok, fail}

abbrev pub is_alphanumeric : ℕ → Bool
is_alphanumeric c =
    (leb b'0' c && leb c b'9') || ((leb b'a' c && leb c b'z') || (leb b'A' c && leb c b'Z'))

abbrev all_chars : (ℕ → Bool) → String → Bool
all_chars p [] = true
all_chars p (c ∷ s) = p (code c) && all_chars p s

-- [a-zA-Z0-9][a-zA-Z0-9_-]{0,63}
unfoldable pub is_identifier : String → Bool
is_identifier [] = false
is_identifier (c ∷ s) =
    is_alphanumeric (code c)
    && (leb (count s) 63 && all_chars (λ d. is_alphanumeric d || (eqb d b'_' || eqb d b'-')) s)

unfoldable pub identifier : String → Reply String
identifier value =
    if is_identifier value
    then ok value
    else fail 400 "ID must contain 1–64 letters, digits, underscores or hyphens"
