-- ===== src/Catalog/Releases.antt =====
-- The releases of catalog_service/main.py: `prepare`, `release_status`, `commit` and
-- `active_bundle`. The configuration that the compiler makes of models, and the folder that it
-- writes for an agent with the contents of its files, are arguments.
use Prim.Native.String.{◌++◌ as ◌<>◌}
use opencode_cloud.Prelude.{
  ℕ, String, Bool, true, false, not, ◌||◌, Option, none, some, List, [], ◌∷◌, ◌++◌, ◌==◌, ◌&&◌, ◌+◌,
  eqb, find, any, select, length, lookup, put, if◌then◌else◌,
}
use opencode_cloud.Json.{Json, entry, filled}
use opencode_cloud.Catalog.Documents.{
  Config, AgentVersion, Agent, Subject, gateway, agent, Release, Data, Table, is_deleting,
  number_eq, version_of, gateway_version_of, agent_config,
}
use opencode_cloud.Catalog.Replies.{Reply, ok, fail, crash, ◌>>=◌}
use opencode_cloud.Catalog.Edits.{edit, moved}
use opencode_cloud.Catalog.Names.{identifier}
use opencode_cloud.Catalog.Agents.{model_enabled}

pub record Order : Type 0 where
  pub revision : Option ℕ
  pub kind : String
  pub target : String
  pub version : Option ℕ

-- The folder of compiled files, and what they hold.
pub record Compiled : Type 0 where
  pub path : String
  pub files : List (String × String)

-- A version that is not 0 or absent is asked for.
abbrev pub asked : Option ℕ → Option ℕ
asked none = none
asked (some n) = if eqb n 0 then none else some n

-- Whether the models have an enabled one with the identifier.
abbrev pub offers : List (String × Json) → String → Bool
offers models mid = elim (lookup mid models) [ none ↦ false | some m ↦ model_enabled m ]

abbrev pub lacks_model : List (String × Json) → Config → Bool
lacks_model models cfg = any (λ mid. not (offers models mid)) cfg.allowed_model_ids

-- An agent whose active version uses a model that is not offered.
abbrev pub deprived : List (String × Json) → Agent → Bool
deprived models a = elim (agent_config a) [
  | none ↦ false
  | some cfg ↦ cfg.enabled && lacks_model models cfg
]

abbrev pub models_to_apply : Data → Option ℕ → Reply (List (String × Json))
models_to_apply d none = ok d.models
models_to_apply d (some n) = elim (gateway_version_of n d.gateway_versions) [
  | none ↦ fail 404 "Unknown gateway version"
  | some v ↦ ok v.models
]

abbrev pub config_to_apply : Agent → Option ℕ → Reply Config
config_to_apply a none = ok a.draft
config_to_apply a (some n) = elim (version_of n a.versions) [
  | none ↦ fail 404 "Agent version not found"
  | some v ↦ ok v.config
]

abbrev active_models : Data → List (String × Json)
active_models d = elim d.gateway_active [
  | none ↦ []
  | some n ↦ elim (gateway_version_of n d.gateway_versions) [ none ↦ [] | some v ↦ v.models ]
]

-- The models with a filled entry "legacy".
abbrev legacy_models : List (String × Json) → List (String × Json)
legacy_models models = select (λ row. filled (entry "legacy" row.1)) models

-- active_models or {…}
abbrev pub available_models : Data → List (String × Json)
available_models d = elim (active_models d) [
  | [] ↦ legacy_models d.models
  | row ∷ rows ↦ row ∷ rows
]

abbrev pub release_of : String → String → ℕ → Subject → ℕ → Option ℕ → Release
release_of rid kind version subject revision old_active = record {
  release_id = rid;
  kind = kind;
  version = version;
  subject = subject;
  revision = revision;
  old_active = old_active;
  committed = false;
}

-- The active version that a release is to replace, by the target that the order names.
abbrev pub old_active_of : String → Data → Reply (Option ℕ)
old_active_of target d =
    if target == "*"
    then ok d.gateway_active
    else elim (lookup target d.agents) [ none ↦ crash | some a ↦ ok a.active ]

abbrev pub models_apply : String
models_apply = "models.apply"

-- The operations service orders releases of models for the target "*" only.
abbrev pub targeted : Order → Bool
targeted o = not (o.kind == models_apply) || o.target == "*"

abbrev pub store_release : String → Release → Data → Data
store_release rid value d = record d { releases = put rid value d.releases }

module _ (gateway_configuration : List (String × Json) → Reply Json)
    (compile_agent : Data → String → Config → ℕ → Reply Compiled) where
  unfoldable pub prepare_models : String → Order → ℕ → Data → Reply Release
  prepare_models rid o revision d = models_to_apply d (asked o.version) >>= λ models.
      elim (find (λ row. deprived models row.1) d.agents) [
        | some row ↦ fail 409 ("Model is used by " <> row.0)
        | none ↦ gateway_configuration models >>= λ configuration.
            old_active_of o.target d >>= λ old_active. ok (
              release_of rid o.kind (length d.gateway_versions + 1) (gateway models configuration)
                revision old_active)
      ]

  unfoldable pub prepare_agent : String → Order → ℕ → Data → Reply Release
  prepare_agent rid o revision d = identifier o.target >>= λ _. elim (lookup o.target d.agents) [
    | none ↦ fail 404 "Agent not found"
    | some a ↦
        if is_deleting a.lifecycle
        then fail 409 "Finish permanent deletion before applying configuration"
        else config_to_apply a (asked o.version) >>= λ cfg.
            if lacks_model (available_models d) cfg
            then fail 409 "Publish selected models to the gateway first"
            else (compile_agent d o.target cfg (length a.versions + 1) >>= λ compiled. ok (
                release_of rid o.kind (length a.versions + 1)
                  (agent o.target cfg compiled.path compiled.files) revision a.active))
  ]

  abbrev pub prepared : String → Order → ℕ → Data → Reply Release
  prepared rid o revision d =
      if o.kind == models_apply
      then prepare_models rid o revision d
      else prepare_agent rid o revision d

  -- The row that the handler reads is the row that it edits, or the edit refuses.
  unfoldable pub prepare : String → Order → Table → Reply (Release × Table)
  prepare rid o t =
      if moved o.revision t.revision
      then fail 409 "Configuration changed; reload"
      else prepared rid o t.revision t.document >>= λ value.
          edit (some t.revision) (λ d. ok (value, store_release rid value d)) t

unfoldable pub release_status : String → Data → Reply Release
release_status rid d = elim (lookup rid d.releases) [
  | none ↦ fail 404 "Release not found"
  | some value ↦ ok value
]

abbrev pub applied_gateway : Release → List (String × Json) → ℕ → Data → Data
applied_gateway value models now d = record d {
  gateway_versions =
      d.gateway_versions ++ record { version = value.version; models = models; created = now } ∷ [];
  gateway_active = some value.version;
}

abbrev pub applied_agent : Release → Config → String → ℕ → Agent → Agent
applied_agent value cfg path now a = record a {
  versions =
      a.versions
      ++ record { version = value.version; config = cfg; path = path; created = now } ∷ [];
  active = some value.version;
}

abbrev pub apply_release : Release → Subject → ℕ → Data → Reply Data
apply_release value (gateway models configuration) now d =
    if not (number_eq d.gateway_active value.old_active)
    then fail 409 "Applied version changed"
    else ok (applied_gateway value models now d)
apply_release value (agent target cfg path files) now d = elim (lookup target d.agents) [
  | none ↦ crash
  | some a ↦
      if not (number_eq a.active value.old_active)
      then fail 409 "Applied version changed"
      else ok (record d { agents = put target (applied_agent value cfg path now a) d.agents })
]

abbrev pub mark : String → Release → Data → Data
mark rid value d = record d { releases = put rid (record value { committed = true }) d.releases }

unfoldable pub commit : String → ℕ → Data → Reply (ℕ × Data)
commit rid now d = elim (lookup rid d.releases) [
  | none ↦ fail 404 "Release not found"
  | some value ↦
      if value.committed
      then ok (value.version, d)
      else apply_release value value.subject now d >>= λ d'. ok (value.version, mark rid value d')
]

-- The active version of an agent, whose folder is then read.
unfoldable pub active_bundle : String → Data → Reply AgentVersion
active_bundle aid d = elim (lookup aid d.agents) [
  | none ↦ fail 404 "Agent has no active configuration"
  | some a ↦ elim a.active [
    | none ↦ fail 404 "Agent has no active configuration"
    | some n ↦ elim (version_of n a.versions) [ none ↦ crash | some v ↦ ok v ]
  ]
]
