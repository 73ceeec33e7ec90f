-- ===== src/Prelude/Maps.antt =====
-- A dictionary with text keys as an association list.
use Prim.Native.String.{String}
use mathlib.Core.Path.{◌≡◌, refl}
use mathlib.Core.Option.{Option, none, some}
use mathlib.Core.List.{List, [], ◌∷◌}
use native.Mathlib.Omega.{arith}
use text.Mathlib.Text.{◌==◌}
use text.Mathlib.TextEquality.{eq_iff}
use mathlib.Core.Logic.{inl, inr}
use opencode_cloud.Prelude.Tests.{if◌then◌else◌, Bool-cases}
use opencode_cloud.Prelude.Lists.{All}

module _ {ℓ} {V : Type ℓ} where
  unfoldable pub lookup : String → List (String × V) → Option V
  lookup key [] = none
  lookup key ((k, v) ∷ rows) = if k == key then some v else lookup key rows

  -- d[key] = value, and INSERT OR REPLACE.
  unfoldable pub put : String → V → List (String × V) → List (String × V)
  put key value [] = (key, value) ∷ []
  put key value ((k, v) ∷ rows) =
      if k == key then (key, value) ∷ rows else (k, v) ∷ put key value rows

  pub lookup-put :
      (key j : String) (value : V) (rows : List (String × V))
      → lookup j (put key value rows) ≡ (if key == j then some value else lookup j rows)
  unfolding lookup put
  lookup-put key j value [] = refl
  lookup-put key j value ((k, v) ∷ rows) =
      ground (arith, eq_iff key j, eq_iff k key, eq_iff k j, lookup-put key j value rows)

  -- Every value of the dictionary.
  abbrev pub Values {κ} : (V → Type κ) → List (String × V) → Type κ
  Values P [] = Unit
  Values P ((k, v) ∷ rows) = P v × Values P rows

  pub Values-put {κ} :
      (P : V → Type κ) (key : String) (value : V) (rows : List (String × V))
      → P value
      → Values P rows
      → Values P (put key value rows)
  unfolding put
  Values-put P key value [] p h = (p, tt)
  Values-put P key value ((k, v) ∷ rows) p h = elim (Bool-cases (k == key)) [
    | inl t ↦ rw t (p, h.1)
    | inr f ↦ rw f (h.0, Values-put P key value rows p h.1)
  ]

  pub Values-lookup {κ} :
      (P : V → Type κ) (key : String) (value : V) (rows : List (String × V))
      → Values P rows
      → lookup key rows ≡ some value
      → P value
  unfolding lookup
  Values-lookup P key value [] h e = absurd (ground arith)
  Values-lookup P key value ((k, v) ∷ rows) h e = elim (Bool-cases (k == key)) [
    | inl t ↦ let same : v ≡ value = ground arith in rw (← same) (h.0)
    | inr f ↦ Values-lookup P key value rows h.1 (ground arith)
  ]

  -- del d[key]
  unfoldable pub erase : String → List (String × V) → List (String × V)
  erase key [] = []
  erase key ((k, v) ∷ rows) = let rest = erase key rows in if k == key then rest else (k, v) ∷ rest

  pub lookup-erase :
      (key j : String) (rows : List (String × V))
      → lookup j (erase key rows) ≡ (if key == j then none else lookup j rows)
  unfolding lookup erase
  lookup-erase key j [] = ground arith
  lookup-erase key j ((k, v) ∷ rows) =
      ground (arith, eq_iff key j, eq_iff k key, eq_iff k j, lookup-erase key j rows)

  -- Predicates on the entries of a dictionary.
  pub All-put {κ} :
      (P : String × V → Type κ) (key : String) (value : V) (rows : List (String × V))
      → P (key, value)
      → All P rows
      → All P (put key value rows)
  unfolding put
  All-put P key value [] p h = (p, tt)
  All-put P key value ((k, v) ∷ rows) p h = elim (Bool-cases (k == key)) [
    | inl t ↦ rw t (p, h.1)
    | inr f ↦ rw f (h.0, All-put P key value rows p h.1)
  ]

  pub All-erase {κ} :
      (P : String × V → Type κ) (key : String) (rows : List (String × V))
      → All P rows
      → All P (erase key rows)
  unfolding erase
  All-erase P key [] h = tt
  All-erase P key ((k, v) ∷ rows) h = elim (Bool-cases (k == key)) [
    | inl t ↦ rw t (All-erase P key rows h.1)
    | inr f ↦ rw f (h.0, All-erase P key rows h.1)
  ]

  pub All-lookup {κ} :
      (P : String × V → Type κ) (key : String) (value : V) (rows : List (String × V))
      → All P rows
      → lookup key rows ≡ some value
      → P (key, value)
  unfolding lookup
  All-lookup P key value [] h e = absurd (ground arith)
  All-lookup P key value ((k, v) ∷ rows) h e = elim (Bool-cases (k == key)) [
    | inl t ↦
        let name : k ≡ key = (eq_iff k key).0 t in
        let same : v ≡ value = ground arith in rw (← name) (rw (← same) (h.0))
    | inr f ↦ All-lookup P key value rows h.1 (ground arith)
  ]
