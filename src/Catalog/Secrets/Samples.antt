-- ===== src/Catalog/Secrets/Samples.antt =====
-- Redaction and restoration of catalog_service/src/management.py at concrete models.
use opencode_cloud.Prelude.{true, ◌≡◌, refl}
use opencode_cloud.Json.{
  Json, text, array, object, cons, nil, end, field, json_eq, items, value_of, proper,
}
use opencode_cloud.Catalog.Secrets.{
  with_entry, identified, mask, redact, preserve_secrets, preserve_fields, preserve_items,
  previous_entries, extras,
}
use opencode_cloud.Catalog.Secrets.Shown.{restorable}
use opencode_cloud.Catalog.Secrets.Restored.{preserve_secrets-redact}

-- A model with a key, and two deployments with theirs.
abbrev secret_model : Json
secret_model = object (
    field "provider" (text "openai") (
      field "api_key" (text "key") (
        field "headers" (object (field "x" (text "1") end)) (
          field "deployments"
            (array (
              cons (object (field "id" (text "primary") (field "api_key" (text "one") end))) (
                cons (object (field "id" (text "extra-1") (field "api_key" (text "two") end)))
                  nil)))
            end))))

secret_model-proper : proper secret_model ≡ true
unfolding proper value_of
secret_model-proper = refl

secret_model-restorable : restorable secret_model ≡ true
unfolding restorable identified items value_of json_eq
secret_model-restorable = refl

preserve_secrets-redact_example : preserve_secrets (redact secret_model) secret_model ≡ secret_model
preserve_secrets-redact_example =
    preserve_secrets-redact secret_model secret_model-proper secret_model-restorable

-- The key of a model becomes that of its first deployments.
abbrev listed_model : Json
listed_model = object (
    field "deployments"
      (array (cons (object (field "id" (text "extra-1") (field "api_key" (text mask) end))) nil))
      end)

abbrev old_model : Json
old_model = object (
    field "api_key" (text "key")
      (field "additional_base_urls" (array (cons (text "https://a") nil)) end))

listed_model_keeps_key :
    preserve_secrets listed_model old_model
    ≡ object (
        field "deployments"
          (array
            (cons (object (field "id" (text "extra-1") (field "api_key" (text "key") end))) nil))
          end)
unfolding preserve_secrets preserve_fields preserve_items previous_entries with_entry identified
    items value_of json_eq extras
listed_model_keeps_key = refl
