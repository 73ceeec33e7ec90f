-- ===== src/Catalog/Secrets/Restored.antt =====
-- A redacted document that is sent back to catalog_service/src/management.py.
use opencode_cloud.Prelude.{
  String, true, ◌&&◌, ◌==◌, Option, none, some, List, ◌∷◌, ◌≡◌, refl, ◌∙◌, ap, inl, inr, arith,
  eq_refl, Bool-cases,
}
use opencode_cloud.Json.{
  Json, null, boolean, number, text, array, object, Items, nil, cons, Fields, end, field, items,
  value_of, filled, json_eq, proper, proper_items, proper_fields, absent,
}
use opencode_cloud.Json.Equality.{both, Found, Found-self}
use opencode_cloud.Catalog.Secrets.{
  mask, is_secret, redact, redact_items, redact_fields, identity, identified, or_null,
  restored_item, preserve_secrets, preserve_fields, preserve_items,
}
use opencode_cloud.Catalog.Secrets.Shown.{
  is_absent, tells_apart, plain, shown, shown_entry, value_of-redact, previous-redact,
  preserve-hidden, restorable, restorable_items, restorable_fields,
}

-- The list of old items has each item under its identity.
FoundItems : Items → List Json → Type 0
FoundItems nil old = Unit
FoundItems (cons x xs) old =
    ((i : String) → identity x ≡ some (text i) → identified (text i) old ≡ some x)
    × FoundItems xs old

FoundItems-cons :
    (x : Json) (rest : Items) (old : List Json) → FoundItems rest old → FoundItems rest (x ∷ old)
unfolding identified FoundItems
FoundItems-cons x nil old h = tt
FoundItems-cons x (cons y rest) old h = ((λ i e. rw (h.0 i e) refl), FoundItems-cons x rest old h.1)

unseen-none : (o : Option Json) → is_absent o ≡ true → o ≡ none
unseen-none none e = refl
unseen-none (some v) e = absurd (ground arith)

found_first :
    (x : Json) (xs : Items) (i : String)
    → tells_apart (identity x) x (items xs) ≡ true
    → identity x ≡ some (text i)
    → identified (text i) (x ∷ items xs) ≡ some x
unfolding identified json_eq
found_first x xs i e named =
    let unseen : is_absent (identified (text i) (items xs)) ≡ true = rw named at e in
    let later : identified (text i) (items xs) ≡ none = unseen-none _ unseen in
    rw later (rw named (rw (eq_refl i) refl))

FoundItems-self : (xs : Items) → restorable_items xs ≡ true → FoundItems xs (items xs)
unfolding restorable_items FoundItems items
FoundItems-self nil e = tt
FoundItems-self (cons x xs) e =
    let (apart, rest) =
      both (tells_apart (identity x) x (items xs)) (restorable x && restorable_items xs) e in
    let (head, tail) = both (restorable x) (restorable_items xs) rest in
    (
      λ i named. found_first x xs i apart named,
      FoundItems-cons x xs (items xs) (FoundItems-self xs tail),
    )

-- The identity of an item is shown.
shown_identity :
    (fields : Fields) (i : String)
    → value_of "id" fields ≡ some (text i)
    → value_of "id" (redact_fields fields) ≡ some (text i)
unfolding redact
shown_identity fields i e = value_of-redact "id" fields ∙ ap (shown_entry "id") e

restored_found :
    (fields : Fields) (old : List Json) (i : String)
    → value_of "id" fields ≡ some (text i)
    → identified (text i) old ≡ some (object fields)
    → preserve_secrets (object (redact_fields fields)) (object fields) ≡ object fields
    → restored_item
        (value_of "id" (redact_fields fields))
        old
        (λ previous. preserve_secrets (object (redact_fields fields)) previous)
        (object (redact_fields fields))
      ≡ object fields
restored_found fields old i named there same = rw (shown_identity fields i named) (rw there same)

restored_by :
    (o : Option Json) (fields : Fields) (later old : List Json)
    → preserve_secrets (object (redact_fields fields)) (object fields) ≡ object fields
    → value_of "id" fields ≡ o
    → tells_apart o (object fields) later ≡ true
    → ((i : String)
        → value_of "id" fields ≡ some (text i)
        → identified (text i) old ≡ some (object fields))
    → restored_item
        (value_of "id" (redact_fields fields))
        old
        (λ previous. preserve_secrets (object (redact_fields fields)) previous)
        (object (redact_fields fields))
      ≡ object fields
restored_by none fields later old same named apart h = absurd (ground arith)
restored_by (some (text i)) fields later old same named apart h =
    restored_found fields old i named (h i named) same
restored_by (some null) fields later old same named apart h = absurd (ground arith)
restored_by (some (boolean b)) fields later old same named apart h = absurd (ground arith)
restored_by (some (number n)) fields later old same named apart h = absurd (ground arith)
restored_by (some (array xs)) fields later old same named apart h = absurd (ground arith)
restored_by (some (object fs)) fields later old same named apart h = absurd (ground arith)

restored_one :
    (x : Json) (later old : List Json)
    → preserve_secrets (redact x) x ≡ x
    → tells_apart (identity x) x later ≡ true
    → ((i : String) → identity x ≡ some (text i) → identified (text i) old ≡ some x)
    → restored_item
        (identity (redact x))
        old
        (λ previous. preserve_secrets (redact x) previous)
        (redact x)
      ≡ x
unfolding redact
restored_one null later old same apart h = refl
restored_one (boolean b) later old same apart h = refl
restored_one (number n) later old same apart h = refl
restored_one (text s) later old same apart h = refl
restored_one (array xs) later old same apart h = absurd (ground arith)
restored_one (object fields) later old same apart h =
    restored_by (value_of "id" fields) fields later old same refl apart h

restored_shown :
    (k : String) (v : Json)
    → proper v ≡ true
    → preserve_secrets (redact v) v ≡ v
    → plain k v ≡ true
    → preserve_secrets (shown k v) v ≡ v
restored_shown k v p same free = elim (Bool-cases (is_secret k && filled v)) [
  | inl t ↦ rw t (preserve-hidden k v (ground (arith, t)) p free)
  | inr f ↦ rw f same
]

mutual
  unfolding redact redact_items redact_fields preserve_secrets preserve_fields preserve_items
      restorable restorable_items restorable_fields proper proper_items proper_fields Found
      FoundItems

  restored : (m : Json) → proper m ≡ true → restorable m ≡ true → preserve_secrets (redact m) m ≡ m
  restored null p e = refl
  restored (boolean b) p e = refl
  restored (number n) p e = refl
  restored (text s) p e = elim (Bool-cases (s == mask)) [ inl t ↦ rw t refl | inr f ↦ rw f refl ]
  restored (array xs) p e = ap array (restored_items xs (items xs) p e (FoundItems-self xs e))
  restored (object fields) p e = ap object (
      ap (preserve_fields (redact_fields fields)) (previous-redact fields)
      ∙ restored_fields fields fields p e (Found-self fields p))

  restored_items :
      (xs : Items) (old : List Json)
      → proper_items xs ≡ true
      → restorable_items xs ≡ true
      → FoundItems xs old
      → preserve_items (redact_items xs) old ≡ xs
  restored_items nil old p e h = refl
  restored_items (cons x xs) old p e h =
      let (px, pxs) = both (proper x) (proper_items xs) p in
      let (apart, rest) =
        both (tells_apart (identity x) x (items xs)) (restorable x && restorable_items xs) e in
      let (ex, exs) = both (restorable x) (restorable_items xs) rest in
      let one = restored_one x (items xs) old (restored x px ex) apart (h.0) in
      rw (one, restored_items xs old pxs exs h.1) refl

  restored_fields :
      (fields all : Fields)
      → proper_fields fields ≡ true
      → restorable_fields fields ≡ true
      → Found fields all
      → preserve_fields (redact_fields fields) all ≡ fields
  restored_fields end all p e h = refl
  restored_fields (field k v rest) all p e h =
      let (new, p') = both (absent (value_of k rest)) (proper v && proper_fields rest) p in
      let (pv, prest) = both (proper v) (proper_fields rest) p' in
      let (free, e') = both (plain k v) (restorable v && restorable_fields rest) e in
      let (ev, erest) = both (restorable v) (restorable_fields rest) e' in
      let one : preserve_secrets (shown k v) (or_null (value_of k all)) ≡ v =
        rw (h.0) (restored_shown k v pv (restored v pv ev) free) in
      rw (one, restored_fields rest all prest erest h.1) refl

-- A document that is redacted, and sent back as it was shown, is saved as it was: each hidden
-- secret is taken from the old document. The conditions are that dictionaries have distinct keys,
-- that the items of each list are scalars or have distinct texts as their "id", and that no header
-- or variable is called "deployments".
pub preserve_secrets-redact :
    (m : Json) → proper m ≡ true → restorable m ≡ true → preserve_secrets (redact m) m ≡ m
preserve_secrets-redact m p e = restored m p e
