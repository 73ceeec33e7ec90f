-- ===== src/Posix/Samples.antt =====
-- The checks of shared_libs/workspace_paths.py at concrete paths.
use opencode_cloud.Prelude.{false, String, List, ◌∷◌, [], ◌≡◌, refl, All, any, select}
use opencode_cloud.Posix.{as_posix, name_of, split, join}
use opencode_cloud.Posix.Workspace.{accepted, refused, is_drive, normalize_relative_parts}
use opencode_cloud.Posix.Contained.{
  Contained, normalize_relative_parts-Contained, normalize_relative_parts_again,
}

abbrev raw_path : String
raw_path = "docs/./notes//a.txt"

abbrev its_parts : List String
its_parts = "docs" ∷ "notes" ∷ "a.txt" ∷ []

raw_path_accepted : normalize_relative_parts raw_path ≡ accepted its_parts
unfolding normalize_relative_parts any select split
raw_path_accepted = refl

traversal_refused :
    normalize_relative_parts "docs/../../etc" ≡ refused "parent traversal is not allowed"
unfolding normalize_relative_parts any select split
traversal_refused = refl

absolute_refused : normalize_relative_parts "/etc" ≡ refused "absolute paths are not allowed"
unfolding normalize_relative_parts any select split
absolute_refused = refl

-- A drive after a leading "./" passes the test of the drive.
hidden_drive : normalize_relative_parts "./C:/x" ≡ accepted ("C:" ∷ "x" ∷ [])
unfolding normalize_relative_parts any select split
hidden_drive = refl

posix_name : name_of "/usr/bin/env/" ≡ "env"
unfolding split select
posix_name = refl

posix_text : as_posix "//a/./b/" ≡ "//a/b"
unfolding split join select
posix_text = refl

plain_drive : is_drive (join its_parts) ≡ false
unfolding join
plain_drive = refl

normalize_relative_parts-Contained_example : All Contained its_parts
normalize_relative_parts-Contained_example =
    normalize_relative_parts-Contained raw_path its_parts raw_path_accepted

normalize_relative_parts_again_example :
    normalize_relative_parts (join its_parts) ≡ accepted its_parts
normalize_relative_parts_again_example =
    normalize_relative_parts_again raw_path its_parts raw_path_accepted plain_drive
