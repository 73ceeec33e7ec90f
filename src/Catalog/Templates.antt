-- ===== src/Catalog/Templates.antt =====
-- `restore` of catalog_service/src/agent_templates.py. Whether pydantic accepts a configuration is an
-- argument.
use opencode_cloud.Prelude.{
  ℕ, String, Bool, not, Option, none, some, List, ◌||◌, map, lookup, put, truthy, if◌then◌else◌,
}
use opencode_cloud.Catalog.Documents.{Binding, Config, Template, Data}
use opencode_cloud.Catalog.Replies.{Reply, Done, done, ok, fail, crash, ◌>>=◌}
use opencode_cloud.Catalog.Edits.{has}
use opencode_cloud.Catalog.Names.{identifier}
use opencode_cloud.Catalog.Agents.{validate_agent, new_agent}

-- model_map.get(mid, mid)
abbrev mapped : List (String × String) → String → String
mapped names mid = elim (lookup mid names) [ none ↦ mid | some new ↦ new ]

abbrev small : List (String × String) → Option String → Option String
small names none = none
small names (some mid) = if truthy (some mid) then some (mapped names mid) else some mid

abbrev rebound : Bool → List (String × Binding) → Binding → Binding
rebound imported selected b = elim (lookup b.id selected) [
  | some s ↦ s
  | none ↦ if imported then record b { version = 1 } else b
]

unfoldable pub restored_config :
    Template → List (String × String) → List (String × Binding) → Config
restored_config t models resources = record t.config {
  allowed_model_ids = map (mapped models) t.config.allowed_model_ids;
  default_model_id = mapped models t.config.default_model_id;
  small_model_id = small models t.config.small_model_id;
  bindings = map (rebound t.imported resources) t.config.bindings;
}

abbrev pub restore_into : String → Template → String → Config → ℕ → Data → Data
restore_into tid t aid cfg now d = record d {
  agents = put aid (new_agent aid cfg) d.agents;
  agent_templates = put tid (record t { last_restored = some (aid, now) }) d.agent_templates;
}

module _ (model_validates : Config → Bool) where
  unfoldable pub restore :
      String
      → String
      → List (String × String)
      → List (String × Binding)
      → ℕ
      → Data
      → Reply (Done × Data)
  restore tid aid models resources now d = identifier aid >>= λ _.
      elim (lookup tid d.agent_templates) [
        | none ↦ fail 404 "Agent template not found"
        | some t ↦
            let cfg : Config = restored_config t models resources in
            if has aid d.agents || has aid d.agent_tombstones
            then fail 409 "Choose an unused Agent ID"
            else if not (model_validates cfg)
            then crash
            else validate_agent d aid cfg >>= λ _. ok (done, restore_into tid t aid cfg now d)
      ]
