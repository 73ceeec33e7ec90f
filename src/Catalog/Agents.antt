-- ===== src/Catalog/Agents.antt =====
-- The drafts of agents: `validate_agent` and `save_agent` of catalog_service/src/management.py, and
-- `restore` of catalog_service/src/agent_templates.py.
use Prim.Native.String.{count, ◌++◌ as ◌<>◌}
use opencode_cloud.Prelude.{
  ℕ, suc, String, Bool, true, false, not, Option, none, some, List, [], ◌∷◌, ◌==◌, ◌&&◌, ◌||◌, ltb,
  eqb, opt_eq, find, any, lookup, put, truthy, if◌then◌else◌,
}
use opencode_cloud.Json.{Json, boolean, text, entry_or, filled, json_eq}
use opencode_cloud.Catalog.Documents.{
  Binding, Config, ResourceVersion, Resource, Agent, available, Data, mem,
}
use opencode_cloud.Catalog.Replies.{Reply, Done, done, ok, fail, crash, ◌>>=◌}
use opencode_cloud.Catalog.Edits.{has, resource_version, is_ending}
use opencode_cloud.Catalog.Names.{identifier}

-- A limit is absent, or one of the choices.
abbrev pub chosen : List ℕ → Option ℕ → Bool
chosen choices none = true
chosen choices (some n) = any (eqb n) choices

-- len(texts) == len(set(texts))
unfoldable pub unique : List String → Bool
unique [] = true
unique (s ∷ ss) = not (mem s ss) && unique ss

abbrev pub is_empty {ℓ} : {A : Type ℓ} → List A → Bool
is_empty [] = true
is_empty (x ∷ xs) = false

-- model.get("enabled", True)
abbrev pub model_enabled : Json → Bool
model_enabled m = filled (entry_or (boolean true) "enabled" m)

abbrev pub is_unavailable : Bool → Option Json → Bool
is_unavailable enabled none = true
is_unavailable enabled (some m) = enabled && not (model_enabled m)

-- The test of one assigned model that raises.
abbrev pub unavailable : List (String × Json) → Bool → String → Bool
unavailable models enabled mid = is_unavailable enabled (lookup mid models)

abbrev pub Key : Type 0
Key = String × Json

abbrev pub key_eq : Key → Key → Bool
key_eq (kind, name) (kind', name') = kind == kind' && json_eq name name'

abbrev pub runtime_key : Resource → ResourceVersion → Key
runtime_key r v = (r.kind, entry_or (text r.name) "name" v.draft.content)

-- resource["owner"] in {None, aid}
abbrev pub may_bind : String → Option String → Bool
may_bind aid owner = opt_eq owner none || opt_eq owner (some aid)

-- The loop over the bindings, with the sets `names` and `ids`.
unfoldable pub validate_bindings :
    Data → String → List Binding → List Key → List String → Reply Done
validate_bindings d aid [] names ids = ok done
validate_bindings d aid (b ∷ bs) names ids = resource_version d b.id b.version >>= λ (r, v).
    let rest = validate_bindings d aid bs (runtime_key r v ∷ names) (r.id ∷ ids) in
    if not (may_bind aid r.owner)
    then fail 403 "Cannot bind another Agent’s private resource"
    else if any (key_eq (runtime_key r v)) names || mem r.id ids
    then fail 400 "Duplicate resource binding or runtime name"
    else rest

abbrev pub small_outside : Option String → List String → Bool
small_outside none allowed = false
small_outside (some mid) allowed = truthy (some mid) && not (mem mid allowed)

unfoldable pub validate_agent : Data → String → Config → Reply Done
validate_agent d aid cfg =
    if not (chosen (1 ∷ 2 ∷ 4 ∷ 8 ∷ []) cfg.cpu_limit)
    then fail 400 "cpu_limit must be one of (1, 2, 4, 8), or null for server default"
    else if not (chosen (1024 ∷ 2048 ∷ 4096 ∷ 8192 ∷ []) cfg.memory_mb)
    then fail 400 "memory_mb must be one of (1024, 2048, 4096, 8192), or null for server default"
    else if is_empty cfg.allowed_model_ids || not (unique cfg.allowed_model_ids)
    then fail 400 "Choose one or more unique models"
    else elim (find (unavailable d.models cfg.enabled) cfg.allowed_model_ids) [
      | some mid ↦ fail 400 ("Agent references an unavailable model: " <> mid)
      | none ↦
          if not (mem cfg.default_model_id cfg.allowed_model_ids)
            || small_outside cfg.small_model_id cfg.allowed_model_ids
          then fail 400 "Default and small models must be assigned to this Agent"
          else validate_bindings d aid cfg.bindings [] [] >>= λ _.
              if ltb 200000 (count cfg.instructions)
              then fail 400 "Agent instructions are too large"
              else ok done
    ]

-- `copy.deepcopy(r)` with `copied.update(id=new_id, owner=aid)`.
abbrev pub owned_copy : String → String → Resource → Resource
owned_copy new_id aid r = record r { id = new_id; owner = some aid }

-- One round of the loop of a copy over the bindings: the binding, and the resources.
abbrev pub copy_binding :
    String
    → String
    → String
    → Binding
    → Resource
    → List (String × Resource)
    → Binding × List (String × Resource)
copy_binding source aid new_id b r resources =
    if opt_eq r.owner (some source)
    then (record b { id = new_id }, put new_id (owned_copy new_id aid r) resources)
    else (b, resources)

abbrev pub with_binding :
    Binding → List Binding × List (String × Resource) → List Binding × List (String × Resource)
with_binding b rest = (b ∷ rest.0, rest.1)

-- `hex n` are the digits that uuid4 gives for the binding at the place `n`.
unfoldable pub copy_bindings :
    String
    → String
    → (ℕ → String)
    → ℕ
    → List Binding
    → List (String × Resource)
    → Reply (List Binding × List (String × Resource))
copy_bindings source aid hex n [] resources = ok ([], resources)
copy_bindings source aid hex n (b ∷ bs) resources = elim (lookup b.id resources) [
  | none ↦ crash
  | some r ↦
      let round = copy_binding source aid ("r-" <> hex n) b r resources in
      copy_bindings source aid hex (suc n) bs round.1 >>= λ rest. ok (with_binding round.0 rest)
]

abbrev pub copied_config : String → Agent → List Binding → Config
copied_config aid a bs = record a.draft { name = aid; bindings = bs }

abbrev pub with_resources : List (String × Resource) → Data → Data
with_resources resources d = record d { resources = resources }

-- The configuration to save, and the document with the copied resources.
unfoldable pub copied :
    String → Config → Option String → (ℕ → String) → Data → Reply (Config × Data)
copied aid value none hex d = ok (value, d)
copied aid value (some source) hex d = elim (lookup source d.agents) [
  | none ↦ fail 409 "Invalid copy source or destination"
  | some a ↦
      if has aid d.agents
      then fail 409 "Invalid copy source or destination"
      else copy_bindings source aid hex 0 a.draft.bindings d.resources >>= λ out.
          ok (copied_config aid a out.0, with_resources out.1 d)
]

abbrev pub new_agent : String → Config → Agent
new_agent aid cfg = record {
  id = aid;
  draft = cfg;
  versions = [];
  active = none;
  lifecycle = available;
}

-- An agent that is saved again keeps all but its draft.
abbrev pub redrafted : String → Config → Option Agent → Agent
redrafted aid cfg none = new_agent aid cfg
redrafted aid cfg (some old) = record old { draft = cfg }

abbrev pub set_draft : String → Config → Data → Data
set_draft aid cfg d = record d {
  agents = put aid (redrafted aid cfg (lookup aid d.agents)) d.agents;
}

abbrev source_ending : Data → Option String → Bool
source_ending d none = false
source_ending d (some source) = truthy (some source) && is_ending d source

-- The change that `save_agent` makes. The jobs that it looks at are empty: `edit` clears them. A
-- source is not the empty text.
unfoldable pub save_agent :
    String → Config → Option String → (ℕ → String) → Data → Reply (Done × Data)
save_agent aid value source hex d = identifier aid >>= λ _.
    if has aid d.agent_tombstones
    then fail 409 "This Agent ID was retired; choose a new ID"
    else if is_ending d aid || source_ending d source
    then fail 409 "Agent deletion is in progress"
    else copied aid value source hex d >>= λ (cfg, d').
        validate_agent d' aid cfg >>= λ _. ok (done, set_draft aid cfg d')
