-- ===== src/Posix/Contained.antt =====
-- The relative paths that shared_libs/workspace_paths.py accepts.
use Prim.Native.String.{String, [], ◌∷◌}
use text.Mathlib.TextLemmas.{cons-append}
use opencode_cloud.Prelude.{
  ℕ, Bool, true, false, List, ◌∷◌, [], ◌==◌, ◌≡◌, refl, ap, ◌∙◌, sym, subst, arith, All, All-map,
  All-select, All-both, any, any-false, any-none, select, select-all, if◌then◌else◌,
}
use opencode_cloud.Posix.{split, join, names, is_name, is_absolute}
use opencode_cloud.Posix.Split.{Lacks, split-Lacks, split_parts, split-join, join-Lacks}
use opencode_cloud.Posix.Workspace.{accepted, refused, is_drive, is_part, normalize_relative_parts}

-- A part that names an entry of the directory that it is joined to, and nothing else.
pub record Contained (p : String) : Type 0 where
  pub named : is_part p ≡ true
  pub below : (p == "..") ≡ false
  pub single : Lacks b'/' p
  pub forward : Lacks b'\\' p
  pub whole : Lacks 0 p

pub names-Lacks : (n : ℕ) (raw : String) → Lacks n raw → All (Lacks n) (names raw)
names-Lacks n raw h =
    All-map (λ p. Lacks n p × (is_name p ≡ true)) (Lacks n) (names raw) (λ p k. k.0)
      (All-select (Lacks n) is_name (split raw) (split-Lacks n raw h))

pub names_parts : (raw : String) → All (λ p. Lacks b'/' p × (is_name p ≡ true)) (names raw)
names_parts raw = All-select (Lacks b'/') is_name (split raw) (split_parts raw)

-- What the guards of an accepted path say.
guards :
    (nul back absolute up : Bool) (kept ps : List String)
    → (if nul
        then refused "relative path contains a NUL byte"
        else if back
        then refused "relative path must use forward slashes"
        else if absolute
        then refused "absolute paths are not allowed"
        else if up
        then refused "parent traversal is not allowed"
        else accepted kept)
      ≡ accepted ps
    → (nul ≡ false) × (back ≡ false) × (absolute ≡ false) × (up ≡ false) × (kept ≡ ps)
guards nul back absolute up kept ps e = ground arith

parts_of : (raw : String) → select is_part (names raw) ≡ names raw
parts_of raw = select-all is_part (names raw) (
    All-map (λ p. Lacks b'/' p × (is_name p ≡ true)) (λ p. is_part p ≡ true) (names raw)
      (λ p k. k.1) (names_parts raw))

names-Contained :
    (raw : String)
    → Lacks 0 raw
    → Lacks b'\\' raw
    → any (λ p. p == "..") (names raw) ≡ false
    → All Contained (names raw)
names-Contained raw nul back up =
    All-map _ Contained (names raw)
      (λ p ((a, b), (c, d)). record {
        named = a.1;
        below = b;
        single = a.0;
        forward = c;
        whole = d;
      })
      (All-both _ _ (names raw)
        (All-both _ _ (names raw) (names_parts raw) (any-false (λ p. p == "..") (names raw) up))
        (All-both _ _ (names raw) (names-Lacks b'\\' raw back) (names-Lacks 0 raw nul)))

pub accepted_parts :
    (raw : String) (ps : List String)
    → normalize_relative_parts raw ≡ accepted ps
    → (All Contained ps) × (names raw ≡ ps)
unfolding normalize_relative_parts
accepted_parts raw ps e =
    let (nul, back, absolute, up, kept) = guards _ _ _ _ _ _ e in
    let same : names raw ≡ ps = sym (parts_of raw) ∙ kept in
    (subst (All Contained) same (names-Contained raw nul back up), same)

-- A relative path that is accepted has only parts that name an entry of the directory that they are
-- joined to: no part is empty, "." or "..", and none holds a slash, a backslash or a NUL.
pub normalize_relative_parts-Contained :
    (raw : String) (ps : List String)
    → normalize_relative_parts raw ≡ accepted ps
    → All Contained ps
normalize_relative_parts-Contained raw ps e = (accepted_parts raw ps e).0

relative_join : (p : String) (ps : List String) → Contained p → is_absolute (join (p ∷ ps)) ≡ false
unfolding join
relative_join [] ps h = absurd (ground (arith, h.named))
relative_join (c ∷ p) [] h = ground (arith, h.single)
relative_join (c ∷ p) (q ∷ ps) h =
    rw (cons-append c p ("/" ∷ join (q ∷ ps))) (ground (arith, h.single))

names-join : (ps : List String) → All Contained ps → names (join ps) ≡ ps
unfolding join split select
names-join [] h = refl
names-join (p ∷ ps) h =
    ap (select is_name)
      (split-join p ps (All-map Contained (Lacks b'/') (p ∷ ps) (λ q k. k.single) h))
    ∙ select-all is_name (p ∷ ps)
        (All-map Contained (λ q. is_name q ≡ true) (p ∷ ps) (λ q k. k.named) h)

passes :
    (nul back absolute up : Bool) (kept : List String)
    → nul ≡ false
    → back ≡ false
    → absolute ≡ false
    → up ≡ false
    → (if nul
        then refused "relative path contains a NUL byte"
        else if back
        then refused "relative path must use forward slashes"
        else if absolute
        then refused "absolute paths are not allowed"
        else if up
        then refused "parent traversal is not allowed"
        else accepted kept)
      ≡ accepted kept
passes nul back absolute up kept a b c d = rw (a, b, c, d) refl

absolute_join : (ps : List String) → All Contained ps → is_absolute (join ps) ≡ false
unfolding join
absolute_join [] h = refl
absolute_join (p ∷ ps) h = relative_join p ps h.0

-- The parts of an accepted relative path, joined by slashes, are accepted again with the same
-- parts, provided that the joined path does not begin with a drive such as "C:".
pub normalize_relative_parts_again :
    (raw : String) (ps : List String)
    → normalize_relative_parts raw ≡ accepted ps
    → is_drive (join ps) ≡ false
    → normalize_relative_parts (join ps) ≡ accepted ps
unfolding normalize_relative_parts
normalize_relative_parts_again raw ps e drive =
    let h = (accepted_parts raw ps e).0 in
    let same = names-join ps h in
    passes _ _ _ _ _ (join-Lacks 0 ps refl (All-map Contained (Lacks 0) ps (λ q k. k.whole) h))
      (join-Lacks b'\\' ps refl (All-map Contained (Lacks b'\\') ps (λ q k. k.forward) h))
      (rw (absolute_join ps h) drive)
      (rw same (any-none _ ps (All-map Contained (λ p. (p == "..") ≡ false) ps (λ q k. k.below) h)))
    ∙ ap accepted (parts_of (join ps) ∙ same)
