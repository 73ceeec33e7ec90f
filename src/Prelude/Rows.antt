-- ===== src/Prelude/Rows.antt =====
-- Laws of the searches and updates of `Lists`, and rows that are distinct in a key.
use mathlib.Core.Path.{◌≡◌, refl, ap}
use mathlib.Core.Logic.{inl, inr}
use mathlib.Core.Bool.{Bool, true, false}
use mathlib.Core.List.{List, [], ◌∷◌, ◌++◌}
use mathlib.Core.Option.{Option, none, some}
use native.Mathlib.Omega.{arith}
use opencode_cloud.Prelude.Tests.{if◌then◌else◌, Bool-cases}
use opencode_cloud.Prelude.Lists.{find, select, update_where, any, All}

module _ {ℓ κ} {A : Type ℓ} (P : A → Type κ) where
  pub All-append : (xs ys : List A) → All P xs → All P ys → All P (xs ++ ys)
  All-append [] ys hx hy = hy
  All-append (x ∷ xs) ys hx hy = (hx.0, All-append xs ys hx.1 hy)

  pub All-update_where :
      (p : A → Bool) (f : A → A) (xs : List A)
      → ((x : A) → P x → P (f x))
      → All P xs
      → All P (update_where p f xs)
  unfolding update_where
  All-update_where p f [] keep h = tt
  All-update_where p f (x ∷ xs) keep h = elim (Bool-cases (p x)) [
    | inl e ↦ rw e (keep x h.0, All-update_where p f xs keep h.1)
    | inr e ↦ rw e (h.0, All-update_where p f xs keep h.1)
  ]

  pub All-find : (p : A → Bool) (xs : List A) (x : A) → All P xs → find p xs ≡ some x → P x
  unfolding find
  All-find p [] x h e = absurd (ground arith)
  All-find p (y ∷ ys) x h e = elim (Bool-cases (p y)) [
    | inl t ↦ let same : y ≡ x = ground arith in rw (← same) (h.0)
    | inr t ↦ All-find p ys x h.1 (ground arith)
  ]

module _ {ℓ κ μ} {A : Type ℓ} (P : A → Type κ) (Q : A → Type μ) where
  pub All-map : (xs : List A) → ((x : A) → P x → Q x) → All P xs → All Q xs
  All-map [] f h = tt
  All-map (x ∷ xs) f h = (f x h.0, All-map xs f h.1)

module _ {ℓ} {A : Type ℓ} where
  pub find_sound : (p : A → Bool) (xs : List A) (x : A) → find p xs ≡ some x → p x ≡ true
  unfolding find
  find_sound p [] x e = ground arith
  find_sound p (y ∷ ys) x e = elim (Bool-cases (p y)) [
    | inl t ↦ let same : y ≡ x = ground arith in rw (← same) t
    | inr t ↦ find_sound p ys x (ground arith)
  ]

  pub find-none : (p : A → Bool) (xs : List A) → find p xs ≡ none → All (λ x. p x ≡ false) xs
  unfolding find
  find-none p [] e = tt
  find-none p (x ∷ xs) e = elim (Bool-cases (p x)) [
    | inl t ↦ absurd (ground arith)
    | inr t ↦ (t, find-none p xs (ground arith))
  ]

  pub any-false : (p : A → Bool) (xs : List A) → any p xs ≡ false → All (λ x. p x ≡ false) xs
  unfolding any
  any-false p [] e = tt
  any-false p (x ∷ xs) e = (ground arith, any-false p xs (ground arith))

  pub any-find :
      (p q : A → Bool) (xs : List A) (x : A) → find p xs ≡ some x → q x ≡ true → any q xs ≡ true
  unfolding find any
  any-find p q [] x e h = ground arith
  any-find p q (y ∷ ys) x e h = elim (Bool-cases (p y)) [
    | inl t ↦ let same : q y ≡ q x = ap q (ground arith) in ground arith
    | inr t ↦ ground (arith, any-find p q ys x (ground arith) h)
  ]

  pub any-append : (p : A → Bool) (xs ys : List A) → any p xs ≡ true → any p (xs ++ ys) ≡ true
  unfolding any
  any-append p [] ys h = ground arith
  any-append p (x ∷ xs) ys h = ground (arith, any-append p xs ys)

  pub any-update_where :
      (p q : A → Bool) (f : A → A) (xs : List A)
      → ((x : A) → q (f x) ≡ q x)
      → any q (update_where p f xs) ≡ any q xs
  unfolding any update_where
  any-update_where p q f [] keep = refl
  any-update_where p q f (x ∷ xs) keep = ground (arith, keep x, any-update_where p q f xs keep)

  -- A search for a key that the update leaves alone finds the updated row.
  pub find-update_where :
      (p q : A → Bool) (f : A → A) (xs : List A)
      → ((x : A) → q (f x) ≡ q x)
      → find q (update_where p f xs)
        ≡ elim (find q xs) [ none ↦ none | some x ↦ some (if p x then f x else x) ]
  unfolding find update_where
  find-update_where p q f [] keep = refl
  find-update_where p q f (x ∷ xs) keep = ground (arith, keep x, find-update_where p q f xs keep)

  pub find-append :
      (p : A → Bool) (xs ys : List A)
      → find p (xs ++ ys) ≡ elim (find p xs) [ none ↦ find p ys | some x ↦ some x ]
  unfolding find
  find-append p [] ys = refl
  find-append p (x ∷ xs) ys = ground (arith, find-append p xs ys)

  -- A row that was found is found again as the row that replaces it.
  pub find-replace_self :
      (p : A → Bool) (z x : A) (xs : List A)
      → find p xs ≡ some x
      → p z ≡ true
      → find p (update_where p (λ _. z) xs) ≡ some z
  unfolding find update_where
  find-replace_self p z x [] e h = absurd (ground arith)
  find-replace_self p z x (y ∷ ys) e h = elim (Bool-cases (p y)) [
    | inl t ↦ rw t (rw h refl)
    | inr f ↦ rw f (rw f (find-replace_self p z x ys (ground arith) h))
  ]

  -- A search for rows that are not replaced finds what it found.
  pub find-replace_ne :
      (p q : A → Bool) (z : A) (xs : List A)
      → ((x : A) → p x ≡ true → q x ≡ false)
      → q z ≡ false
      → find q (update_where p (λ _. z) xs) ≡ find q xs
  unfolding find update_where
  find-replace_ne p q z [] ne h = refl
  find-replace_ne p q z (y ∷ ys) ne h = elim (Bool-cases (p y)) [
    | inl t ↦ rw t (rw (h, ne y t) (find-replace_ne p q z ys ne h))
    | inr f ↦
        rw f (ap (λ (r : Option A). if q y then some y else r) (find-replace_ne p q z ys ne h))
  ]

pub All-select {ℓ κ} :
    {A : Type ℓ} (P : A → Type κ) (p : A → Bool) (xs : List A)
    → All P xs
    → All (λ x. P x × (p x ≡ true)) (select p xs)
unfolding select
All-select P p [] h = tt
All-select P p (x ∷ xs) h = elim (Bool-cases (p x)) [
  | inl t ↦ rw t ((h.0, t), All-select P p xs h.1)
  | inr f ↦ rw f (All-select P p xs h.1)
]

pub select-all {ℓ} :
    {A : Type ℓ} (p : A → Bool) (xs : List A) → All (λ x. p x ≡ true) xs → select p xs ≡ xs
unfolding select
select-all p [] h = refl
select-all p (x ∷ xs) h = rw (h.0, select-all p xs h.1) refl

pub All-both {ℓ κ μ} :
    {A : Type ℓ} (P : A → Type κ) (Q : A → Type μ) (xs : List A)
    → All P xs
    → All Q xs
    → All (λ x. P x × Q x) xs
All-both P Q [] h k = tt
All-both P Q (x ∷ xs) h k = ((h.0, k.0), All-both P Q xs h.1 k.1)

pub any-none {ℓ} :
    {A : Type ℓ} (p : A → Bool) (xs : List A) → All (λ x. p x ≡ false) xs → any p xs ≡ false
unfolding any
any-none p [] h = refl
any-none p (x ∷ xs) h = ground (arith, h.0, any-none p xs h.1)
