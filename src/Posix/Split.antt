-- ===== src/Posix/Split.antt =====
-- Texts split at slashes and joined again.
use Prim.Native.Char.{Char, code}
use Prim.Native.String.{String, [], ◌∷◌, ◌++◌ as ◌<>◌}
use text.Mathlib.TextLemmas.{nil-append, cons-append}
use opencode_cloud.Prelude.{
  ℕ, false, ◌||◌, List, ◌∷◌, [], ◌≡◌, refl, ap, ◌∙◌, inl, inr, arith, eqb, All, Bool-cases,
}
use opencode_cloud.Posix.{grow, split, join, contains_char}

-- The text has no character with the code `n`.
abbrev pub Lacks : ℕ → String → Type 0
Lacks n s = contains_char n s ≡ false

Lacks-grow :
    (n : ℕ) (c : Char) (ps : List String)
    → eqb (code c) n ≡ false
    → All (Lacks n) ps
    → All (Lacks n) (grow c ps)
Lacks-grow n c [] e h = (ground arith, tt)
Lacks-grow n c (p ∷ ps) e h = (ground (arith, h.0), h.1)

pub split-Lacks : (n : ℕ) (s : String) → Lacks n s → All (Lacks n) (split s)
unfolding split
split-Lacks n [] h = (refl, tt)
split-Lacks n (c ∷ s) h =
    let rest = split-Lacks n s (ground arith) in
    elim (Bool-cases (eqb (code c) b'/')) [
      | inl t ↦ rw t (refl, rest)
      | inr f ↦ rw f (Lacks-grow n c (split s) (ground arith) rest)
    ]

pub split_parts : (s : String) → All (Lacks b'/') (split s)
unfolding split
split_parts [] = (refl, tt)
split_parts (c ∷ s) = elim (Bool-cases (eqb (code c) b'/')) [
  | inl t ↦ rw t (refl, split_parts s)
  | inr f ↦ rw f (Lacks-grow b'/' c (split s) f (split_parts s))
]

split_plain : (p : String) → Lacks b'/' p → split p ≡ p ∷ []
unfolding split
split_plain [] h = refl
split_plain (c ∷ p) h =
    let f : eqb (code c) b'/' ≡ false = ground arith in
    rw f (ap (grow c) (split_plain p (ground arith)))

split_append : (p s : String) → Lacks b'/' p → split (p <> ("/" ∷ s)) ≡ p ∷ split s
unfolding split
split_append [] s h = rw (nil-append ("/" ∷ s)) refl
split_append (c ∷ p) s h =
    let f : eqb (code c) b'/' ≡ false = ground arith in
    rw (cons-append c p ("/" ∷ s)) (rw f (ap (grow c) (split_append p s (ground arith))))

pub split-join :
    (p : String) (ps : List String) → All (Lacks b'/') (p ∷ ps) → split (join (p ∷ ps)) ≡ p ∷ ps
unfolding join
split-join p [] h = split_plain p h.0
split-join p (q ∷ ps) h = split_append p (join (q ∷ ps)) h.0 ∙ ap (λ r. p ∷ r) (split-join q ps h.1)

contains_append :
    (n : ℕ) (s t : String) → contains_char n (s <> t) ≡ (contains_char n s || contains_char n t)
contains_append n [] t = rw (nil-append t) refl
contains_append n (c ∷ s) t = rw (cons-append c s t) (ground (arith, contains_append n s t))

pub join-Lacks :
    (n : ℕ) (ps : List String) → eqb b'/' n ≡ false → All (Lacks n) ps → Lacks n (join ps)
unfolding join
join-Lacks n [] e h = refl
join-Lacks n (p ∷ []) e h = h.0
join-Lacks n (p ∷ q ∷ ps) e h =
    ground (arith, contains_append n p ("/" ∷ join (q ∷ ps)), join-Lacks n (q ∷ ps) e h.1, h.0)
