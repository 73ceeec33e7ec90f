-- ===== src/Catalog/Models.antt =====
-- The models of the catalog: `save_model` and `model_references` of
-- catalog_service/src/management.py, and the import and the deletion of
-- catalog_service/src/admin_api.py. `validate_model` is an argument.
use opencode_cloud.Prelude.{
  String, Bool, true, false, not, Option, none, some, List, [], ◌∷◌, ◌&&◌, ◌||◌, any, lookup, put,
  erase, length, ltb, select, map, if◌then◌else◌,
}
use opencode_cloud.Json.{Json, text, object, end, entry, filled, json_eq}
use opencode_cloud.Catalog.Documents.{Config, Agent, Data, mem, agent_config}
use opencode_cloud.Catalog.Replies.{Reply, Done, done, ok, fail, ◌>>=◌}
use opencode_cloud.Catalog.Edits.{has}
use opencode_cloud.Catalog.Names.{identifier}
use opencode_cloud.Catalog.Secrets.{preserve_secrets, with_entry, fields_of}
use opencode_cloud.Catalog.Agents.{model_enabled}

abbrev pub uses : String → Bool → Config → Bool
uses mid enabled_only cfg = mem mid cfg.allowed_model_ids && (not enabled_only || cfg.enabled)

abbrev uses_active : String → Bool → Option Config → Bool
uses_active mid enabled_only none = false
uses_active mid enabled_only (some cfg) = uses mid enabled_only cfg

-- The draft or the active version of the agent uses the model.
abbrev pub refers_model : String → Bool → Agent → Bool
refers_model mid enabled_only a =
    uses mid enabled_only a.draft || uses_active mid enabled_only (agent_config a)

-- Whether `model_references` lists any agent.
abbrev pub model_referenced : Data → String → Bool → Bool
model_referenced d mid enabled_only = any (λ row. refers_model mid enabled_only row.1) d.agents

unfoldable pub model_references : Data → String → Bool → List String
model_references d mid enabled_only =
    map (λ row. row.0) (select (λ row. refers_model mid enabled_only row.1) d.agents)

abbrev pub old_model : Data → String → Json
old_model d mid = elim (lookup mid d.models) [ none ↦ object end | some m ↦ m ]

abbrev pub set_model : String → Json → Data → Data
set_model mid value d = record d { models = put mid value d.models }

-- The value with the secrets of the old model, and value["id"] = identifier(mid).
abbrev pub saved_value : String → Json → Data → String → Json
saved_value mid given d id =
    object (with_entry "id" (text id) (fields_of (preserve_secrets given (old_model d mid))))

abbrev pub is_legacy : Json → Bool
is_legacy value = json_eq (entry "provider" value) (text "legacy")

abbrev pub given_id : Json → String
given_id (text s) = s
given_id _ = ""

module _ (validate_model : Json → Reply Done) where
  -- The details of the refusals on references are given without the names of the agents.
  unfoldable pub save_model : String → Json → Data → Reply (Done × Data)
  save_model mid given d = identifier mid >>= λ id.
      let value : Json = saved_value mid given d id in
      validate_model value >>= λ _.
      if is_legacy value && not (filled (entry "legacy" (old_model d mid)))
      then fail 400 "Legacy models can only be migrated from the existing deployment"
      else if not (model_enabled value) && model_referenced d mid true
      then fail 409 "Model is referenced by: "
      else ok (done, set_model mid value d)

  -- One round of the import, on the identifiers and the document before it. Another identifier
  -- than a text is refused.
  unfoldable pub import_model : Bool → String → Json → List String → Data → Reply Data
  import_model replace given item ids d = identifier given >>= λ mid.
      if mem mid ids
      then fail 400 "Duplicate imported model ID"
      else if has mid d.models && not replace
      then fail 409 "Model already exists: "
      else (let value : Json = preserve_secrets item (old_model d mid) in
          validate_model value >>= λ _.
          if filled (entry "legacy" value) || is_legacy value
          then fail 400 "Imported models cannot claim legacy identity"
          else if not (model_enabled value) && model_referenced d mid true
          then fail 409 "Replace Agent references before disabling imported models"
          else ok (set_model mid value d))

  unfoldable pub import_each : Bool → List Json → List String → Data → Reply (Done × Data)
  import_each replace [] ids d = ok (done, d)
  import_each replace (item ∷ items) ids d =
      import_model replace (given_id (entry "id" item)) item ids d >>= λ d'.
      import_each replace items (given_id (entry "id" item) ∷ ids) d'

  unfoldable pub import_models : Bool → List Json → Data → Reply (Done × Data)
  import_models replace items d =
      if ltb (length items) 1 || ltb 100 (length items)
      then fail 400 "Import 1–100 models at a time"
      else import_each replace items [] d

unfoldable pub delete_model : String → Data → Reply (Done × Data)
delete_model mid d =
    if not (has mid d.models)
    then fail 404 "Model not found"
    else if model_referenced d mid false
    then fail 409 "Replace model references in these Agents first: "
    else ok (done, record d { models = erase mid d.models })
