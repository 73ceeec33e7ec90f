-- ===== src/ModelGateway/Releases.antt =====
-- The releases that model_gateway/src/state.py accepts, and the arguments of the router that it makes.
use opencode_cloud.Prelude.{
  String, ℕ, Bool, true, false, not, ◌&&◌, ◌||◌, Option, none, some, List, [], ◌∷◌, ◌==◌, ltb,
  length, any, if◌then◌else◌,
}
use opencode_cloud.Json.{
  Json, null, array, object, Fields, end, field, items, value_of, entry_or, entry, is_object,
  is_array, is_text, filled, json_eq,
}

-- `refused` is an HTTPException, and `crashed` another exception.
pub data Outcome {ℓ} (A : Type ℓ) : Type ℓ where
  done : A → Outcome A
  refused : ℕ → String → Outcome A
  crashed : Outcome A

abbrev pub and_then : {A B : Type 0} → Outcome A → (A → Outcome B) → Outcome B
and_then (done a) f = f a
and_then (refused status detail) f = refused status detail
and_then crashed f = crashed

-- document[key]
abbrev pub index : String → Json → Outcome Json
index key (object fields) = elim (value_of key fields) [ none ↦ crashed | some v ↦ done v ]
index key _ = crashed

abbrev pub no_entries : Json
no_entries = object end

abbrev pub is_null : Json → Bool
is_null null = true
is_null _ = false

abbrev pub elements : Json → List Json
elements (array xs) = items xs
elements _ = []

abbrev pub identifier : Json → Json
identifier deployment = entry "id" (entry_or no_entries "model_info" deployment)

abbrev pub well_shaped : Json → Bool
well_shaped deployment =
    is_object deployment
    && (is_object (entry "litellm_params" deployment)
        && is_object (entry_or no_entries "model_info" deployment))

abbrev pub has_model : Json → Bool
has_model deployment =
    filled (entry "model_name" deployment)
    && is_text (entry "model" (entry "litellm_params" deployment))

-- The detail of the first 422 of the loop, if it raises; `ids` are the identifiers seen before.
unfoldable pub complaint : List Json → List Json → Option String
complaint [] ids = none
complaint (deployment ∷ rest) ids =
    let later = complaint rest (identifier deployment ∷ ids) in
    if not (well_shaped deployment)
    then some "Invalid model deployment"
    else if not (has_model deployment)
    then some "Each deployment requires model_name and litellm_params.model"
    else if not (is_null (identifier deployment)) && not (is_text (identifier deployment))
    then some "Deployment id must be a string"
    else if filled (identifier deployment) && any (json_eq (identifier deployment)) ids
    then some "Duplicate deployment id"
    else later

abbrev pub is_named : Json → Bool
is_named payload =
    is_object payload
    && (is_text (entry "release_id" payload) && filled (entry "release_id" payload))

abbrev pub has_models : Json → Bool
has_models config = is_object config && is_array (entry "model_list" config)

abbrev pub conclude : Json → Option String → Outcome Json
conclude payload none = done payload
conclude payload (some detail) = refused 422 detail

-- The result is a deep copy, which as a value is the payload.
unfoldable pub validate_release : Json → Outcome Json
validate_release payload =
    let config = entry "configuration" payload in
    if not (is_named payload)
    then refused 422 "release_id is required"
    else if not (has_models config)
    then refused 422 "configuration.model_list is required"
    else if ltb 1000 (length (elements (entry "model_list" config)))
    then refused 422 "Too many model deployments"
    else if not (is_object (entry_or no_entries "router_settings" config))
    then refused 422 "router_settings must be an object"
    else conclude payload (complaint (elements (entry "model_list" config)) [])

abbrev pub is_setting : String → Bool
is_setting key =
    key == "routing_strategy"
    || (key == "num_retries"
        || (key == "timeout"
            || (key == "allowed_fails"
                || (key == "cooldown_time" || key == "enable_pre_call_checks"))))

unfoldable pub settings : Fields → List (String × Json)
settings end = []
settings (field k v rest) =
    let later = settings rest in if is_setting k then (k, v) ∷ later else later

-- `Router` of litellm, from the deployments and the settings that are passed on.
unfoldable pub make_router :
    {R : Type 0} → (Json → List (String × Json) → Outcome R) → Json → Outcome R
make_router router configuration = and_then (index "model_list" configuration) (λ models.
    elim (entry_or no_entries "router_settings" configuration) [
      | object fields ↦ router models (settings fields)
      | _ ↦ crashed
    ])
