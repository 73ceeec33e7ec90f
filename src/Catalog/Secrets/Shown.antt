-- ===== src/Catalog/Secrets/Shown.antt =====
-- What a redacted document of catalog_service/src/management.py shows of each entry.
use opencode_cloud.Prelude.{
  String, Bool, true, false, not, ◌&&◌, ◌||◌, ◌==◌, Option, none, some, List, ◌≡◌, refl, sym, ◌∙◌,
  ap, inl, inr, arith, eq_iff, Bool-cases, if◌then◌else◌,
}
use opencode_cloud.Json.{
  Json, null, boolean, number, text, array, object, Items, nil, cons, Fields, end, field, items,
  value_of, entry, filled, proper, absent,
}
use opencode_cloud.Json.Equality.{absent-none, Found, Found-self}
use opencode_cloud.Catalog.Secrets.{
  is_secret, masked, hidden, redact, redact_items, redact_fields, fields_of, previous_entries,
  identity, identified, preserve_secrets, preserve_fields,
}

abbrev pub is_scalar : Json → Bool
is_scalar (array xs) = false
is_scalar (object fields) = false
is_scalar _ = true

abbrev pub is_absent : Option Json → Bool
is_absent none = true
is_absent (some v) = false

-- An item of a list is a scalar, or it has a text as its identity that no later item has.
abbrev pub tells_apart : Option Json → Json → List Json → Bool
tells_apart none x later = is_scalar x
tells_apart (some (text s)) x later = is_absent (identified (text s) later)
tells_apart (some _) x later = false

-- No header or variable is called "deployments".
abbrev pub plain : String → Json → Bool
plain k v = not (is_secret k) || absent (value_of "deployments" (fields_of v))

-- The items of lists can be told apart.
unfoldable mutual
  pub restorable : Json → Bool
  restorable (array xs) = restorable_items xs
  restorable (object fields) = restorable_fields fields
  restorable v = true

  pub restorable_items : Items → Bool
  restorable_items nil = true
  restorable_items (cons x xs) =
      tells_apart (identity x) x (items xs) && (restorable x && restorable_items xs)

  pub restorable_fields : Fields → Bool
  restorable_fields end = true
  restorable_fields (field k v rest) = plain k v && (restorable v && restorable_fields rest)

pub filled-redact : (v : Json) → filled (redact v) ≡ filled v
unfolding redact redact_items redact_fields
filled-redact null = refl
filled-redact (boolean b) = refl
filled-redact (number n) = refl
filled-redact (text s) = refl
filled-redact (array nil) = refl
filled-redact (array (cons x xs)) = refl
filled-redact (object end) = refl
filled-redact (object (field k v rest)) = refl

abbrev pub shown : String → Json → Json
shown k v = if is_secret k && filled v then hidden v else redact v

abbrev pub shown_entry : String → Option Json → Option Json
shown_entry k none = none
shown_entry k (some v) = some (shown k v)

pub value_of-redact :
    (k : String) (fields : Fields)
    → value_of k (redact_fields fields) ≡ shown_entry k (value_of k fields)
unfolding value_of redact_fields
value_of-redact k end = refl
value_of-redact k (field j v rest) = elim (Bool-cases (j == k)) [
  | inl t ↦ rw t (rw ((eq_iff j k).0 t) refl)
  | inr f ↦ rw f (value_of-redact k rest)
]

pub previous_plain :
    (new : Fields) (old : Json)
    → (filled (entry "deployments" (object new)) ≡ true → filled (entry "deployments" old) ≡ true)
    → previous_entries new old ≡ fields_of old
unfolding previous_entries
previous_plain new old h = elim (Bool-cases (filled (entry "deployments" (object new)))) [
  | inl t ↦ let there = h t in rw (t, there) refl
  | inr f ↦ rw f refl
]

abbrev pub or_nothing : Option Json → Json
or_nothing none = null
or_nothing (some v) = v

pub shown-filled :
    (o : Option Json) → filled (or_nothing (shown_entry "deployments" o)) ≡ filled (or_nothing o)
shown-filled none = refl
shown-filled (some v) = filled-redact v

-- The old entries are those that the redacted document meets.
pub previous-redact :
    (fields : Fields) → previous_entries (redact_fields fields) (object fields) ≡ fields
previous-redact fields = previous_plain (redact_fields fields) (object fields) (λ e.
    sym (shown-filled (value_of "deployments" fields))
    ∙ ap (λ (o : Option Json). filled (or_nothing o)) (sym (value_of-redact "deployments" fields))
    ∙ e)

pub value_of-masked :
    (k : String) (fields : Fields) → value_of k fields ≡ none → value_of k (masked fields) ≡ none
unfolding value_of masked
value_of-masked k end e = refl
value_of-masked k (field j v rest) e = elim (Bool-cases (j == k)) [
  | inl t ↦ absurd (ground arith)
  | inr f ↦ rw f (value_of-masked k rest (ground arith))
]

pub preserve-masked : (ms all : Fields) → Found ms all → preserve_fields (masked ms) all ≡ ms
unfolding preserve_fields preserve_secrets masked Found
preserve-masked end all h = refl
preserve-masked (field n v rest) all h = rw (h.0) (ap (field n v) (preserve-masked rest all h.1))

-- What was hidden comes back from the old value.
pub preserve-hidden :
    (k : String) (v : Json)
    → is_secret k ≡ true
    → proper v ≡ true
    → plain k v ≡ true
    → preserve_secrets (hidden v) v ≡ v
unfolding preserve_secrets proper
preserve-hidden k null s p e = refl
preserve-hidden k (boolean b) s p e = refl
preserve-hidden k (number n) s p e = refl
preserve-hidden k (text t) s p e = refl
preserve-hidden k (array xs) s p e = refl
preserve-hidden k (object fields) s p e =
    let free : value_of "deployments" fields ≡ none = absent-none _ (ground arith) in
    let same : previous_entries (masked fields) (object fields) ≡ fields =
      previous_plain (masked fields) (object fields)
        (λ f. absurd (ground (arith, value_of-masked "deployments" fields free, f))) in
    ap object (
      ap (preserve_fields (masked fields)) same
      ∙ preserve-masked fields fields (Found-self fields p))
