-- ===== src/Operations/LoadTests/Requests.antt =====
-- The requests of operations/src/load_test_store.py, their bounds, and the agents that they may select.
use Prim.Native.String.{◌++◌ as append}
use opencode_cloud.Prelude.{
  ℕ, ◌+◌, String, Bool, true, not, ◌&&◌, Option, none, some, List, [], ◌∷◌, ◌==◌, leb,
  if◌then◌else◌, find, any, lookup,
}
use opencode_cloud.Operations.LoadTables.{Snapshot}
use opencode_cloud.Operations.Database.{Result, ok, err, http}

pub record LoadAgent : Type 0 where
  pub agent_id : String
  pub users : ℕ
  pub cpu_limit : ℕ
  pub memory_mb : ℕ

pub record LoadRequest : Type 0 where
  pub request_id : String
  pub agents : List LoadAgent
  pub timeout_seconds : ℕ
  pub prepare_timeout_seconds : ℕ

abbrev pub total_users : List LoadAgent → ℕ
total_users [] = 0
total_users (a ∷ rest) = a.users + total_users rest

abbrev pub names_agent : String → LoadAgent → Bool
names_agent aid a = a.agent_id == aid

-- len({a.agent_id for a in agents}) == len(agents)
unfoldable pub distinct_agents : List LoadAgent → Bool
distinct_agents [] = true
distinct_agents (a ∷ rest) = not (any (names_agent a.agent_id) rest) && distinct_agents rest

-- LoadRequest.bounds
unfoldable pub valid_request : LoadRequest → Bool
valid_request request = leb (total_users request.agents) 100 && distinct_agents request.agents

-- One version of an agent in the catalog, with the default for a missing `enabled`.
pub record Version : Type 0 where
  pub version : String
  pub enabled : Bool
  pub default_model_id : String

pub record CatalogAgent : Type 0 where
  pub active : String
  pub versions : List Version
  pub lifecycle : Option String

abbrev pub is_active : Option String → Bool
is_active none = true
is_active (some lifecycle) = lifecycle == "active"

-- The snapshot of one agent, if it may be selected.
abbrev pub snapshot : Option CatalogAgent → Option Snapshot
snapshot none = none
snapshot (some agent) = elim (find (λ (v : Version). v.version == agent.active) agent.versions) [
  | none ↦ none
  | some v ↦
      if v.enabled && is_active agent.lifecycle
      then some (record { version = agent.active; model_id = v.default_model_id })
      else none
]

abbrev pub with_snapshot :
    String → Option Snapshot → Result (List (String × Snapshot)) → Result (List (String × Snapshot))
with_snapshot aid none later =
    err (http 409 (append "Select an existing, published and enabled Agent: " aid))
with_snapshot aid (some s) (ok rest) = ok ((aid, s) ∷ rest)
with_snapshot aid (some s) (err e) = err e

unfoldable pub validate_agents :
    List (String × CatalogAgent) → List LoadAgent → Result (List (String × Snapshot))
validate_agents catalog [] = ok []
validate_agents catalog (a ∷ rest) =
    with_snapshot a.agent_id (snapshot (lookup a.agent_id catalog)) (validate_agents catalog rest)
