-- ===== src/Catalog/Secrets.antt =====
-- `redact` and `preserve_secrets` of catalog_service/src/management.py.
pub mod Shown
pub mod Restored
mod Samples
use Prim.Native.String.{◌++◌ as ◌<>◌}
use opencode_cloud.Prelude.{
  ℕ, zero, suc, String, Bool, true, false, not, ◌&&◌, ◌||◌, ◌==◌, ◌+◌, ◌/◌, ◌%◌, Option, none, some,
  List, [], ◌∷◌, length, ltb, any, if◌then◌else◌,
}
use opencode_cloud.Json.{
  Json, null, boolean, number, text, array, object, Items, nil, cons, Fields, end, field, items,
  value_of, entry, filled, json_eq,
}

abbrev pub mask : String
mask = "••••"

-- SECRET_FIELDS
abbrev pub is_secret : String → Bool
is_secret k =
    k == "api_key"
    || (k == "apiKey" || (k == "headers" || (k == "extra_headers" || k == "environment")))

-- {n: MASK for n in v}
unfoldable pub masked : Fields → Fields
masked end = end
masked (field n v rest) = field n (text mask) (masked rest)

abbrev pub hidden : Json → Json
hidden (object fields) = object (masked fields)
hidden _ = text mask

unfoldable mutual
  pub redact : Json → Json
  redact (object fields) = object (redact_fields fields)
  redact (array xs) = array (redact_items xs)
  redact v = v

  pub redact_items : Items → Items
  redact_items nil = nil
  redact_items (cons x xs) = cons (redact x) (redact_items xs)

  pub redact_fields : Fields → Fields
  redact_fields end = end
  redact_fields (field k v rest) =
      let shown = redact v in
      field k (if is_secret k && filled v then hidden v else shown) (redact_fields rest)

abbrev pub fields_of : Json → Fields
fields_of (object fields) = fields
fields_of _ = end

abbrev pub elements_of : Json → List Json
elements_of (array xs) = items xs
elements_of _ = []

abbrev digit : ℕ → String
digit n = pick n ("0" ∷ "1" ∷ "2" ∷ "3" ∷ "4" ∷ "5" ∷ "6" ∷ "7" ∷ "8" ∷ "9" ∷ [])
  where
    pick : ℕ → List String → String
    pick n [] = ""
    pick zero (d ∷ ds) = d
    pick (suc n) (d ∷ ds) = pick n ds

-- The decimal text; a number has fewer digits than itself and one.
decimal_from : ℕ → ℕ → String
decimal_from zero n = ""
decimal_from (suc fuel) n =
    let front = decimal_from fuel (n / 10) in if ltb n 10 then digit n else front <> digit (n % 10)

decimal : ℕ → String
unfolding decimal_from
decimal n = decimal_from (n + 1) n

abbrev credential : String → Json → Json
credential id key = object (field "id" (text id) (field "api_key" key end))

-- The endpoints from the number `i` on, as deployments with the one key of the model.
unfoldable pub extras : ℕ → List Json → Json → Items
unfolding decimal
extras i [] key = nil
extras i (url ∷ urls) key = cons (credential ("extra-" <> decimal i) key) (extras (suc i) urls key)

-- {**fields, key: value}
unfoldable pub with_entry : String → Json → Fields → Fields
with_entry key value end = field key value end
with_entry key value (field k v rest) =
    if k == key then field key value rest else field k v (with_entry key value rest)

-- The entries of the old document; the one key of a model counts for each of its deployments when
-- the new document is the first to list them. Additional endpoints are a list.
unfoldable pub previous_entries : Fields → Json → Fields
previous_entries new old =
    if filled (entry "deployments" (object new))
      && (not (filled (entry "deployments" old)) && filled (entry "api_key" old))
    then with_entry "deployments"
        (array (
          cons (credential "primary" (entry "api_key" old))
            (extras 1 (elements_of (entry "additional_base_urls" old)) (entry "api_key" old))))
        (fields_of old)
    else fields_of old

abbrev pub identity : Json → Option Json
identity (object fields) = value_of "id" fields
identity _ = none

abbrev pub has_identity : Json → Option Json → Bool
has_identity id none = false
has_identity id (some other) = json_eq other id

abbrev pub or_this : Option Json → Option Json → Option Json
or_this none o = o
or_this (some y) o = some y

-- previous.get(id) for the dictionary of the items by "id": the last item with an id counts.
unfoldable pub identified : Json → List Json → Option Json
identified id [] = none
identified id (x ∷ xs) =
    or_this (identified id xs) (if has_identity id (identity x) then some x else none)

abbrev pub or_null : Option Json → Json
or_null none = null
or_null (some v) = v

abbrev pub or_entries : Option Json → Json
or_entries none = object end
or_entries (some v) = v

-- An item that has an identity meets the old item with it.
abbrev pub restored_item : Option Json → List Json → (Json → Json) → Json → Json
restored_item none old restore x = x
restored_item (some id) old restore x = restore (or_entries (identified id old))

-- The identities of the old items are hashable.
unfoldable mutual
  pub preserve_secrets : Json → Json → Json
  preserve_secrets (text s) old = if s == mask then old else text s
  preserve_secrets (object fields) old =
      object (preserve_fields fields (previous_entries fields old))
  preserve_secrets (array xs) old = array (preserve_items xs (elements_of old))
  preserve_secrets v old = v

  pub preserve_fields : Fields → Fields → Fields
  preserve_fields end previous = end
  preserve_fields (field k v rest) previous =
      field k (preserve_secrets v (or_null (value_of k previous))) (preserve_fields rest previous)

  pub preserve_items : Items → List Json → Items
  preserve_items nil old = nil
  preserve_items (cons x xs) old =
      cons (restored_item (identity x) old (λ previous. preserve_secrets x previous) x)
        (preserve_items xs old)
