-- ===== src/Catalog/Documents.antt =====
-- The document of the table `catalog` that catalog_service/src/management.py keeps. A field that a
-- request leaves out stands as the default that the code reads. A time is a number, and a
-- dictionary is its entries in insertion order.
use opencode_cloud.Prelude.{
  ℕ, suc, String, Bool, ◌∷◌, lookup, put, true, false, Option, none, some, List, [], ◌==◌, eqb,
  find, any,
}
use opencode_cloud.Json.{Json}

pub record Binding : Type 0 where
  pub id : String
  pub version : ℕ

pub record Config : Type 0 where
  pub name : String
  pub description : String
  pub enabled : Bool
  pub instructions : String
  pub allowed_model_ids : List String
  pub default_model_id : String
  pub small_model_id : Option String
  pub cpu_limit : Option ℕ
  pub memory_mb : Option ℕ
  pub bindings : List Binding

-- What a draft or a version of a resource holds; `files` maps paths to digests.
pub record Draft : Type 0 where
  pub content : Json
  pub files : List (String × String)

pub record ResourceVersion : Type 0 where
  pub version : ℕ
  pub created : ℕ
  pub draft : Draft

pub record Resource : Type 0 where
  pub id : String
  pub name : String
  pub kind : String
  pub owner : Option String
  pub archived : Bool
  pub draft : Draft
  pub versions : List ResourceVersion

pub record AgentVersion : Type 0 where
  pub version : ℕ
  pub config : Config
  pub path : String
  pub created : ℕ

-- An agent without the field "lifecycle" is `available`, as every test of the code takes it.
pub data Lifecycle : Type 0 where
  available archived deleting : Lifecycle

pub record Agent : Type 0 where
  pub id : String
  pub draft : Config
  pub versions : List AgentVersion
  pub active : Option ℕ
  pub lifecycle : Lifecycle

pub record GatewayVersion : Type 0 where
  pub version : ℕ
  pub models : List (String × Json)
  pub created : ℕ

-- What a release applies: models and the gateway's configuration, or an agent's configuration and
-- the folder of its compiled files with their contents.
pub data Subject : Type 0 where
  gateway : List (String × Json) → Json → Subject
  agent : String → Config → String → List (String × String) → Subject

pub record Release : Type 0 where
  pub release_id : String
  pub kind : String
  pub version : ℕ
  pub subject : Subject
  pub revision : ℕ
  pub old_active : Option ℕ
  pub committed : Bool

pub record Tombstone : Type 0 where
  pub deleted : ℕ
  pub request_id : Option String

pub record Template : Type 0 where
  pub id : String
  pub config : Config
  pub imported : Bool
  pub last_restored : Option (String × ℕ)

pub record Data : Type 0 where
  pub models : List (String × Json)
  pub resources : List (String × Resource)
  pub agents : List (String × Agent)
  pub gateway_versions : List GatewayVersion
  pub gateway_active : Option ℕ
  pub releases : List (String × Release)
  pub agent_tombstones : List (String × Tombstone)
  pub agent_templates : List (String × Template)

-- The row of the table: the document and the number of its changes.
pub record Table : Type 0 where
  pub revision : ℕ
  pub document : Data

-- The row that is inserted first.
abbrev pub empty : Table
empty = record {
  revision = 0;
  document = record {
    models = [];
    resources = [];
    agents = [];
    gateway_versions = [];
    gateway_active = none;
    releases = [];
    agent_tombstones = [];
    agent_templates = [];
  };
}

-- `migrate` counts one change; what it adds to the document is there from the start here.
abbrev pub migrated : Table → Table
migrated t = record t { revision = suc t.revision }

abbrev pub example : String → String → String → String → Template
example id name mid instructions = record {
  id = id;
  config = record {
    name = name;
    description = "可编辑的内置示例，恢复后需要发布。";
    enabled = true;
    instructions = instructions;
    allowed_model_ids = mid ∷ [];
    default_model_id = mid;
    small_model_id = none;
    cpu_limit = none;
    memory_mb = none;
    bindings = [];
  };
  imported = false;
  last_restored = none;
}

-- data["agent_templates"].setdefault(template["id"], template)
abbrev pub with_template : Template → List (String × Template) → List (String × Template)
with_template t rows = elim (lookup t.id rows) [ none ↦ put t.id t rows | some old ↦ rows ]

-- The examples of `bootstrap`, with the instructions of their folders.
abbrev pub bootstrapped : String → String → Table → Table
bootstrapped code data_text t = record t {
  revision = suc t.revision;
  document = record t.document {
    agent_templates =
        with_template (example "example-data" "Data" "minimax" data_text)
          (with_template (example "example-code" "Code" "glm" code) t.document.agent_templates);
  };
}

-- The row after `__init__` on a new file.
abbrev pub opened : String → String → Table
opened code data_text = bootstrapped code data_text (migrated empty)

abbrev pub is_deleting : Lifecycle → Bool
is_deleting deleting = true
is_deleting _ = false

-- lifecycle in {"archived", "deleting"}
abbrev pub is_retiring : Lifecycle → Bool
is_retiring available = false
is_retiring archived = true
is_retiring deleting = true

-- `a == b` on the number of an active version.
abbrev pub number_eq : Option ℕ → Option ℕ → Bool
number_eq none none = true
number_eq (some a) (some b) = eqb a b
number_eq _ _ = false

-- value in texts
abbrev pub mem : String → List String → Bool
mem s ss = any (λ t. t == s) ss

-- The first version with the number.
abbrev pub version_of : ℕ → List AgentVersion → Option AgentVersion
version_of n versions = find (λ v. eqb v.version n) versions

abbrev pub gateway_version_of : ℕ → List GatewayVersion → Option GatewayVersion
gateway_version_of n versions = find (λ v. eqb v.version n) versions

-- ManagementStore.agent_config
unfoldable pub agent_config : Agent → Option Config
agent_config a = elim a.active [
  | none ↦ none
  | some n ↦ elim (version_of n a.versions) [ none ↦ none | some v ↦ some v.config ]
]
