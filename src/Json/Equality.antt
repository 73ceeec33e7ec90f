-- ===== src/Json/Equality.antt =====
-- Comparison of a document with itself.
use opencode_cloud.Prelude.{
  ℕ, String, Bool, true, false, ◌&&◌, Option, none, some, ◌≡◌, refl, arith, eqb, eq_iff, eq_refl,
}
use opencode_cloud.Json.{
  Json, null, boolean, number, text, array, object, Items, nil, cons, Fields, end, field, value_of,
  size, json_eq, items_eq, within, proper, proper_items, proper_fields, absent,
}

pub both : (a b : Bool) → (a && b) ≡ true → (a ≡ true) × (b ≡ true)
both a b e = (ground arith, ground arith)

and_true : (a b : Bool) → a ≡ true → b ≡ true → (a && b) ≡ true
and_true a b p q = ground arith

pub absent-none : (o : Option Json) → absent o ≡ true → o ≡ none
absent-none none e = refl
absent-none (some v) e = absurd (ground arith)

value_of-here : (k : String) (v : Json) (rest : Fields) → value_of k (field k v rest) ≡ some v
unfolding value_of
value_of-here k v rest = rw (eq_refl k) refl

eqb_refl : (n : ℕ) → eqb n n ≡ true
eqb_refl n = ground arith

-- The entries of the first are found in the second.
unfoldable pub Found : Fields → Fields → Type 0
Found end fields = Unit
Found (field k v rest) fields = (value_of k fields ≡ some v) × Found rest fields

Found-field :
    (rest fields : Fields) (k : String) (v : Json)
    → value_of k fields ≡ none
    → Found rest fields
    → Found rest (field k v fields)
unfolding value_of Found
Found-field end fields k v new h = tt
Found-field (field k' v' rest) fields k v new h =
    (ground (arith, eq_iff k k', h.0), Found-field rest fields k v new h.1)

pub Found-self : (fields : Fields) → proper_fields fields ≡ true → Found fields fields
unfolding value_of Found proper_fields
Found-self end e = tt
Found-self (field k v rest) e =
    let (new, tail) = both (absent (value_of k rest)) (proper v && proper_fields rest) e in
    let (head, kept) = both (proper v) (proper_fields rest) tail in
    (value_of-here k v rest, Found-field rest rest k v (absent-none _ new) (Found-self rest kept))

mutual
  unfolding json_eq items_eq within proper proper_items proper_fields Found

  pub json_eq_refl : (j : Json) → proper j ≡ true → json_eq j j ≡ true
  json_eq_refl null e = refl
  json_eq_refl (boolean true) e = refl
  json_eq_refl (boolean false) e = refl
  json_eq_refl (number n) e = eq_refl n
  json_eq_refl (text s) e = eq_refl s
  json_eq_refl (array xs) e = items_eq_refl xs e
  json_eq_refl (object fields) e =
      and_true _ _ (eqb_refl (size fields)) (within_refl fields fields e (Found-self fields e))

  items_eq_refl : (xs : Items) → proper_items xs ≡ true → items_eq xs xs ≡ true
  items_eq_refl nil e = refl
  items_eq_refl (cons x xs) e =
      let (head, tail) = both (proper x) (proper_items xs) e in
      and_true _ _ (json_eq_refl x head) (items_eq_refl xs tail)

  within_refl :
      (rest fields : Fields)
      → proper_fields rest ≡ true
      → Found rest fields
      → within rest fields ≡ true
  within_refl end fields e h = refl
  within_refl (field k v rest) fields e h =
      let (new, tail) = both (absent (value_of k rest)) (proper v && proper_fields rest) e in
      let (head, kept) = both (proper v) (proper_fields rest) tail in
      and_true _ _ (rw (h.0) (json_eq_refl v head)) (within_refl rest fields kept h.1)
