-- ===== src/Catalog/Lifecycles.antt =====
-- The end of an agent: `operation_check`, `impact` and `lifecycle` of catalog_service/main.py. The
-- digest of what a deletion removes, and what the file system says of a folder, are arguments.
use opencode_cloud.Prelude.{
  ℕ, String, Bool, true, false, not, Option, none, some, List, [], ◌∷◌, ◌==◌, ◌&&◌, ◌||◌, opt_eq,
  any, select, map, lookup, put, erase, truthy, if◌then◌else◌,
}
use opencode_cloud.Posix.{name_of}
use opencode_cloud.Catalog.Documents.{
  Resource, AgentVersion, Agent, Lifecycle, available, archived, deleting, Tombstone, Data, Table,
  is_deleting, is_retiring,
}
use opencode_cloud.Catalog.Replies.{Reply, Done, done, ok, fail, ◌>>=◌}
use opencode_cloud.Catalog.Edits.{moved}

pub record Action : Type 0 where
  pub action : String
  pub request_id : Option String
  pub expected_fingerprint : Option String

abbrev pub owned_by : String → Resource → Bool
owned_by aid r = opt_eq r.owner (some aid)

abbrev pub private_resources : String → Data → List (String × Resource)
private_resources aid d = select (λ row. owned_by aid row.1) d.resources

abbrev is_empty {ℓ} : {A : Type ℓ} → List A → Bool
is_empty [] = true
is_empty (x ∷ xs) = false

-- kind in {"sandbox.start", "sandbox.restart", "sandbox.recover"}
abbrev starts : String → Bool
starts kind = kind == "sandbox.start" || (kind == "sandbox.restart" || kind == "sandbox.recover")

-- The check of an operation against the state of the agent that was read.
abbrev checked_operation : String → Data → String → Agent → Reply Lifecycle
checked_operation aid d kind a =
    if is_deleting a.lifecycle && not (kind == "agent.delete")
    then fail 409 "Finish permanent deletion before using this Agent ID"
    else if starts kind && is_retiring a.lifecycle
    then fail 409 "Restore archived Agent first"
    else if kind == "agent.restore" && not (is_retiring a.lifecycle)
    then fail 409 "Agent is not archived"
    else if kind == "agent.archive" && is_retiring a.lifecycle
    then fail 409 "Agent is already archived"
    else if kind == "agent.delete-empty"
        && (not (is_empty a.versions) || any (λ row. owned_by aid row.1) d.resources)
    then fail 409 "Only an unpublished Agent without private resources can be deleted here"
    else ok a.lifecycle

unfoldable pub operation_check : String → String → Option ℕ → Table → Reply (Lifecycle × ℕ)
operation_check aid kind revision t = elim (lookup aid t.document.agents) [
  | none ↦ fail 404 "Agent not found"
  | some a ↦
      if moved revision t.revision
      then fail 409 "Configuration changed; reload before operating"
      else checked_operation aid t.document kind a >>= λ lifecycle. ok (lifecycle, t.revision)
]

abbrev pub request_of : Option Tombstone → Option String
request_of none = none
request_of (some tombstone) = tombstone.request_id

abbrev pub with_lifecycle : String → Agent → Lifecycle → Data → Data
with_lifecycle aid a lifecycle d = record d {
  agents = put aid (record a { lifecycle = lifecycle }) d.agents;
}

abbrev pub removed : String → Option String → ℕ → Data → Data
removed aid request_id now d = record d {
  agents = erase aid d.agents;
  resources = select (λ row. not (owned_by aid row.1)) d.resources;
  agent_tombstones = put aid (record { deleted = now; request_id = request_id }) d.agent_tombstones;
}

-- {"archive": "archived", "restore": "active", "deleting": "deleting"}[action]
abbrev pub target_of : String → Option Lifecycle
target_of action =
    if action == "archive"
    then some archived
    else if action == "restore"
    then some available
    else if action == "deleting"
    then some deleting
    else none

module _ (fingerprint : Agent → List (String × Resource) → String) (is_compiled : String → Bool)
    (is_changed : String → Bool) where
  -- What is fingerprinted of the agent does not depend on the lifecycle.
  abbrev pub impact_of : String → Agent → Data → String
  impact_of aid a d = fingerprint (record a { lifecycle = available }) (private_resources aid d)

  -- The identifiers stand in the document's order; the code sorts them.
  unfoldable pub impact : String → Table → Reply (ℕ × Lifecycle × List String × String)
  impact aid t = elim (lookup aid t.document.agents) [
    | none ↦ fail 404 "Agent not found"
    | some a ↦ ok (
      t.revision,
      a.lifecycle,
      map (λ row. row.0) (private_resources aid t.document),
      impact_of aid a t.document,
    )
  ]

  abbrev pub outdated : String → Agent → Option String → Data → Bool
  outdated aid a none d = false
  outdated aid a (some expected) d = truthy (some expected) && not (impact_of aid a d == expected)

  -- A compiled folder of the agent that was replaced, by a link or by another name.
  abbrev pub replaced : String → AgentVersion → Bool
  replaced aid v = is_compiled v.path && (is_changed v.path || not (name_of v.path == aid))

  abbrev pub end_agent : String → Action → ℕ → Agent → Data → Reply (Done × Data)
  end_agent aid p now a d =
      if not (is_retiring a.lifecycle)
      then fail 409 "Archive the Agent before permanent deletion"
      else if any (replaced aid) a.versions
      then fail 409 "Compiled configuration path changed"
      else ok (done, removed aid p.request_id now d)

  -- The change that the handler makes. The folders of the versions are removed beside it.
  unfoldable pub lifecycle : String → Action → ℕ → Data → Reply (Done × Data)
  lifecycle aid p now d = elim (lookup aid d.agents) [
    | none ↦
        if p.action == "delete" && opt_eq (request_of (lookup aid d.agent_tombstones)) p.request_id
        then ok (done, d)
        else fail 404 "Agent not found"
    | some a ↦
        if outdated aid a p.expected_fingerprint d
        then fail 409 "Catalog deletion impact changed"
        else if p.action == "delete"
        then end_agent aid p now a d
        else elim (target_of p.action) [
          | none ↦ fail 400 "Unknown lifecycle action"
          | some target ↦ ok (done, with_lifecycle aid a target d)
        ]
  ]
