-- ===== src/Prelude/Keys.antt =====
-- Rows that are distinct in a key, and the writes that keep them distinct.
use mathlib.Core.Path.{◌≡◌, refl}
use mathlib.Core.Logic.{inl, inr}
use mathlib.Core.Bool.{Bool, false, ◌&&◌}
use mathlib.Core.List.{List, [], ◌∷◌, ◌++◌}
use mathlib.Core.Option.{some}
use native.Mathlib.Omega.{arith}
use opencode_cloud.Prelude.Tests.{Bool-cases}
use opencode_cloud.Prelude.Lists.{find, update_where, All}
use opencode_cloud.Prelude.Rows.{All-append, All-update_where, All-map, All-find}

module _ {ℓ} {A : Type ℓ} where
  -- No two rows pass the test `same`.
  abbrev pub Distinct : (A → A → Bool) → List A → Type 0
  Distinct same [] = Unit
  Distinct same (x ∷ xs) = All (λ y. same x y ≡ false) xs × Distinct same xs

  pub Distinct-update_where :
      (same : A → A → Bool) (p : A → Bool) (f : A → A) (xs : List A)
      → ((x y : A) → same x (f y) ≡ same x y)
      → ((x y : A) → same (f x) y ≡ same x y)
      → Distinct same xs
      → Distinct same (update_where p f xs)
  unfolding update_where
  Distinct-update_where same p f [] right left h = tt
  Distinct-update_where same p f (x ∷ xs) right left h =
      let rest = Distinct-update_where same p f xs right left h.1 in
      let apart : All (λ y. same x y ≡ false) (update_where p f xs) =
        All-update_where (λ y. same x y ≡ false) p f xs (λ y e. rw (right x y) e) h.0 in
      elim (Bool-cases (p x)) [
        | inl t ↦ rw t (
          All-map (λ y. same x y ≡ false) (λ y. same (f x) y ≡ false) (update_where p f xs)
              (λ y e. rw (left x y) e) apart,
          rest,
        )
        | inr t ↦ rw t (apart, rest)
      ]

  pub Distinct-append :
      (same : A → A → Bool) (xs : List A) (y : A)
      → Distinct same xs
      → All (λ x. same x y ≡ false) xs
      → Distinct same (xs ++ y ∷ [])
  Distinct-append same [] y h k = (tt, tt)
  Distinct-append same (x ∷ xs) y h k = (
    All-append (λ z. same x z ≡ false) xs (y ∷ []) h.0 (k.0, tt),
    Distinct-append same xs y h.1 k.1,
  )

module _ {ℓ} {A : Type ℓ} where
  pub Distinct-map :
      (same finer : A → A → Bool) (xs : List A)
      → ((x y : A) → same x y ≡ false → finer x y ≡ false)
      → Distinct same xs
      → Distinct finer xs
  Distinct-map same finer [] weaken h = tt
  Distinct-map same finer (x ∷ xs) weaken h = (
    All-map (λ y. same x y ≡ false) (λ y. finer x y ≡ false) xs (weaken x) h.0,
    Distinct-map same finer xs weaken h.1,
  )

  update_where-none :
      (p : A → Bool) (f : A → A) (xs : List A)
      → All (λ x. p x ≡ false) xs
      → update_where p f xs ≡ xs
  unfolding update_where
  update_where-none p f [] h = refl
  update_where-none p f (x ∷ xs) h = rw (h.0, update_where-none p f xs h.1) refl

  -- The row that a search finds is apart from the other rows.
  pub Distinct-find :
      (same : A → A → Bool) (p : A → Bool) (xs : List A) (x : A)
      → ((x y : A) → same x y ≡ same y x)
      → Distinct same xs
      → find p xs ≡ some x
      → All (λ y. p y ≡ false → same x y ≡ false) xs
  unfolding find
  Distinct-find same p [] x swap h e = tt
  Distinct-find same p (z ∷ zs) x swap h e = elim (Bool-cases (p z)) [
    | inl t ↦
        let found : z ≡ x = ground arith in
        (
          λ f. absurd (ground arith),
          All-map (λ y. same z y ≡ false) (λ y. p y ≡ false → same x y ≡ false) zs
              (λ y k _. rw found at k) h.0,
        )
    | inr f ↦
        let rest : find p zs ≡ some x = ground arith in
        (
          λ _. rw (swap x z) (All-find (λ y. same z y ≡ false) p zs x h.0 rest),
          Distinct-find same p zs x swap h.1 rest,
        )
  ]

  -- One row, the only one that the test finds, is replaced by a row that is apart from the others.
  pub Distinct-replace :
      (same : A → A → Bool) (p : A → Bool) (z : A) (xs : List A)
      → ((x y : A) → same x y ≡ same y x)
      → Distinct (λ x y. p x && p y) xs
      → All (λ y. p y ≡ false → same z y ≡ false) xs
      → Distinct same xs
      → Distinct same (update_where p (λ _. z) xs)
  unfolding update_where
  Distinct-replace same p z [] swap one apart h = tt
  Distinct-replace same p z (x ∷ xs) swap one apart h = elim (Bool-cases (p x)) [
    | inr f ↦ rw f (
      All-update_where (λ y. same x y ≡ false) p (λ _. z) xs (λ y _. rw (swap x z) (apart.0 f)) h.0,
      Distinct-replace same p z xs swap one.1 apart.1 h.1,
    )
    | inl t ↦
        let others : All (λ y. p y ≡ false) xs =
          All-map (λ y. (p x && p y) ≡ false) (λ y. p y ≡ false) xs (λ y e. ground arith) one.0 in
        rw (t, update_where-none p (λ _. z) xs others) (All-mp xs apart.1 others, h.1)
  ]
    where
      All-mp :
          (ys : List A)
          → All (λ y. p y ≡ false → same z y ≡ false) ys
          → All (λ y. p y ≡ false) ys
          → All (λ y. same z y ≡ false) ys
      All-mp [] a b = tt
      All-mp (y ∷ ys) a b = (a.0 b.0, All-mp ys a.1 b.1)
