-- ===== src/Json.antt =====
-- JSON documents as the services read and compare them. A number is its canonical decimal text. The
-- entries of an object stand in insertion order.
pub mod Equality
use opencode_cloud.Prelude.{
  ℕ, suc, String, Bool, true, false, not, ◌&&◌, Option, none, some, List, [], ◌∷◌, ◌==◌, eqb,
  if◌then◌else◌,
}

mutual
  pub data Json : Type 0 where
    null : Json
    boolean : Bool → Json
    number : String → Json
    text : String → Json
    array : Items → Json
    object : Fields → Json

  pub data Items : Type 0 where
    nil : Items
    cons : Json → Items → Items

  pub data Fields : Type 0 where
    end : Fields
    field : String → Json → Fields → Fields

unfoldable pub items : Items → List Json
items nil = []
items (cons x xs) = x ∷ items xs

unfoldable pub value_of : String → Fields → Option Json
value_of key end = none
value_of key (field k v rest) = if k == key then some v else value_of key rest

unfoldable pub size : Fields → ℕ
size end = 0
size (field k v rest) = suc (size rest)

-- document.get(key, default); what is no object has no entries.
abbrev pub entry_or : Json → String → Json → Json
entry_or default key (object fields) = elim (value_of key fields) [ none ↦ default | some v ↦ v ]
entry_or default key _ = default

abbrev pub entry : String → Json → Json
entry = entry_or null

abbrev pub is_object : Json → Bool
is_object (object fields) = true
is_object _ = false

abbrev pub is_array : Json → Bool
is_array (array xs) = true
is_array _ = false

abbrev pub is_text : Json → Bool
is_text (text s) = true
is_text _ = false

-- bool(document)
abbrev pub filled : Json → Bool
filled null = false
filled (boolean b) = b
filled (number n) = not (n == "0")
filled (text s) = not (s == "")
filled (array nil) = false
filled (array (cons x xs)) = true
filled (object end) = false
filled (object (field k v rest)) = true

-- The number that a Boolean equals.
abbrev digit : Bool → String
digit true = "1"
digit false = "0"

abbrev matched : (Json → Bool) → Option Json → Bool
matched same none = false
matched same (some w) = same w

abbrev pub absent : Option Json → Bool
absent none = true
absent (some v) = false

-- `==` of Python: the order of an object's entries does not count, and True is 1.
unfoldable mutual
  pub json_eq : Json → Json → Bool
  json_eq null null = true
  json_eq (boolean true) (boolean b) = b
  json_eq (boolean false) (boolean b) = not b
  json_eq (boolean a) (number n) = digit a == n
  json_eq (number n) (boolean b) = n == digit b
  json_eq (number n) (number m) = n == m
  json_eq (text s) (text r) = s == r
  json_eq (array xs) (array ys) = items_eq xs ys
  json_eq (object a) (object b) = eqb (size a) (size b) && within a b
  json_eq _ _ = false

  pub items_eq : Items → Items → Bool
  items_eq nil nil = true
  items_eq (cons x xs) (cons y ys) = json_eq x y && items_eq xs ys
  items_eq _ _ = false

  pub within : Fields → Fields → Bool
  within end fields = true
  within (field k v rest) fields = matched (json_eq v) (value_of k fields) && within rest fields

-- No object has two entries with one key, as in every dictionary.
unfoldable mutual
  pub proper : Json → Bool
  proper (array xs) = proper_items xs
  proper (object fields) = proper_fields fields
  proper _ = true

  pub proper_items : Items → Bool
  proper_items nil = true
  proper_items (cons x xs) = proper x && proper_items xs

  pub proper_fields : Fields → Bool
  proper_fields end = true
  proper_fields (field k v rest) = absent (value_of k rest) && (proper v && proper_fields rest)
