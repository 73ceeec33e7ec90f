-- ===== src/Catalog/Samples.antt =====
-- The calls of catalog_service at a small catalog.
mod Witnesses
use Prim.Native.String.{◌++◌ as ◌<>◌}
use opencode_cloud.Prelude.{
  ℕ, String, true, false, none, some, [], ◌∷◌, ◌≡◌, refl, lookup, put, erase, any, find, select,
  All,
}
use opencode_cloud.Json.{
  Json, null, text, array, object, cons, nil, end, field, json_eq, items, value_of, proper,
}
use opencode_cloud.Catalog.Documents.{
  Config, Agent, AgentVersion, available, archived, gateway, agent, Release, Data, Table, opened,
  agent_config,
}
use opencode_cloud.Catalog.Replies.{Reply, done, ok, fail}
use opencode_cloud.Catalog.Names.{is_identifier, identifier}
use opencode_cloud.Catalog.Edits.{edit, has}
use opencode_cloud.Catalog.Secrets.{
  with_entry, identified, mask, redact, preserve_secrets, preserve_fields, preserve_items,
  previous_entries, extras,
}
use opencode_cloud.Catalog.Secrets.Shown.{restorable}
use opencode_cloud.Catalog.Secrets.Restored.{preserve_secrets-redact}
use opencode_cloud.Catalog.Models.{save_model}
use opencode_cloud.Catalog.Agents.{
  new_agent, unique, validate_bindings, validate_agent, copied, save_agent,
}
use opencode_cloud.Catalog.Releases.{
  Order, models_apply, release_of, prepare_models, prepare_agent, prepare, commit, active_bundle,
}
use opencode_cloud.Catalog.Lifecycles.{owned_by, lifecycle}
use opencode_cloud.Catalog.Deletion.{deletion, lifecycle_for_good}
use opencode_cloud.Catalog.Drafts.{ValidDrafts}
use opencode_cloud.Catalog.Drafts.Histories.{History-ValidDrafts}
use opencode_cloud.Catalog.Numbering.{Numbered}
use opencode_cloud.Catalog.Numbering.Histories.{History-Numbered, opened-Numbered}
use opencode_cloud.Catalog.Revisions.{edit_once}
use opencode_cloud.Posix.{split}
use opencode_cloud.Catalog.Calls.{
  Outside, Call, saves_model, saves_agent, commits, ends, change, calls, prepares, History, start,
  next,
}

abbrev pub outside : Outside
outside = record {
  model_validates = λ cfg. true;
  blob = λ s. s;
  validate_mcp = λ content. ok content;
  validate_model = λ value. ok done;
  gateway_configuration = λ models. ok null;
  compile_agent = λ d aid cfg n. ok (record { path = "/compiled/" <> aid; files = [] });
  fingerprint = λ a resources. a.id;
  is_compiled = λ path. true;
  is_changed = λ path. false;
}

abbrev pub cfg : Config
cfg = record {
  name = "Helper";
  description = "";
  enabled = true;
  instructions = "";
  allowed_model_ids = "m1" ∷ [];
  default_model_id = "m1";
  small_model_id = none;
  cpu_limit = none;
  memory_mb = some 2048;
  bindings = [];
}

abbrev pub model : Json
model = object (field "provider" (text "openai") (field "api_key" (text "key") end))

abbrev pub model_call : Call
model_call = saves_model "m1" model

abbrev pub agent_call : Call
agent_call = saves_agent "helper" cfg none (λ n. "0")

-- `prepare` of the outside world above.
abbrev pub prepare_here : String → Order → Table → Reply (Release × Table)
prepare_here = prepare (outside.gateway_configuration) (outside.compile_agent)

abbrev pub models_order : Order
models_order = record { revision = none; kind = models_apply; target = "*"; version = none }

abbrev pub agent_order : Order
agent_order = record { revision = none; kind = "agent.apply"; target = "helper"; version = none }

abbrev pub delete_call : Call
delete_call = ends "helper" (deletion (some "request") none) 7

abbrev pub archive_call : Call
archive_call =
    ends "helper" (record { action = "archive"; request_id = none; expected_fingerprint = none }) 6

abbrev pub saved_model : Json
saved_model =
    object
      (field "provider" (text "openai") (field "api_key" (text "key") (field "id" (text "m1") end)))

-- The rows after each call: a model, an agent, two releases of the models, the commit of the one, a
-- release of the agent, its commit, the end of the agent, and the model again.
abbrev pub row : ℕ → Data → Table
row n d = record { revision = n; document = d }

-- The row at the start, with the examples.
abbrev pub first : Table
first = opened "Write code." "Read data."

abbrev pub t1 : Table
t1 = row 3 (record first.document { models = ("m1", saved_model) ∷ [] })

abbrev pub t2 : Table
t2 = row 4 (record t1.document { agents = ("helper", new_agent "helper" cfg) ∷ [] })

abbrev pub p1 : Release
p1 = release_of "p1" models_apply 1 (gateway t2.document.models null) 4 none

abbrev pub p2 : Release
p2 = release_of "p2" models_apply 1 (gateway t2.document.models null) 5 none

abbrev pub q1 : Release
q1 = release_of "q1" "agent.apply" 1 (agent "helper" cfg "/compiled/helper" []) 7 none

abbrev pub t3 : Table
t3 = row 5 (record t2.document { releases = ("p1", p1) ∷ [] })

abbrev pub t4 : Table
t4 = row 6 (record t3.document { releases = ("p1", p1) ∷ ("p2", p2) ∷ [] })

abbrev pub t5 : Table
t5 = row 7 (record t4.document {
  releases = ("p1", record p1 { committed = true }) ∷ ("p2", p2) ∷ [];
  gateway_versions = record { version = 1; models = t2.document.models; created = 5 } ∷ [];
  gateway_active = some 1;
})

abbrev pub t6 : Table
t6 = row 8 (record t5.document {
  releases = ("p1", record p1 { committed = true }) ∷ ("p2", p2) ∷ ("q1", q1) ∷ [];
})

abbrev pub helper : Agent
helper = record {
  id = "helper";
  draft = cfg;
  versions = record { version = 1; config = cfg; path = "/compiled/helper"; created = 6 } ∷ [];
  active = some 1;
  lifecycle = available;
}

abbrev pub archived_helper : Agent
archived_helper = record helper { lifecycle = archived }

abbrev pub t7 : Table
t7 = row 9 (record t6.document {
  agents = ("helper", helper) ∷ [];
  releases =
      ("p1", record p1 { committed = true })
      ∷ ("p2", p2)
      ∷ ("q1", record q1 { committed = true })
      ∷ [];
})

abbrev pub t8 : Table
t8 = row 10 (record t7.document { agents = ("helper", archived_helper) ∷ [] })

abbrev pub t9 : Table
t9 = row 11 (record t8.document {
  agents = [];
  agent_tombstones = ("helper", record { deleted = 7; request_id = some "request" }) ∷ [];
})

abbrev pub t10 : Table
t10 = row 12 t9.document

-- What the rows are and hold.
pub record Reached : Type 0 where
  pub t1_reached : edit none (change outside model_call) first ≡ ok (done, t1)
  pub t2_reached : edit none (change outside agent_call) t1 ≡ ok (done, t2)
  pub t5_reached : edit none (change outside (commits "p1" 5)) t4 ≡ ok (done, t5)
  pub t7_reached : edit none (change outside (commits "q1" 6)) t6 ≡ ok (done, t7)
  pub t8_reached : edit none (change outside archive_call) t7 ≡ ok (done, t8)
  pub t9_reached : edit none (change outside delete_call) t8 ≡ ok (done, t9)
  pub t3_reached : prepare_here "p1" models_order t2 ≡ ok (p1, t3)
  pub t4_reached : prepare_here "p2" models_order t3 ≡ ok (p2, t4)
  pub t6_reached : prepare_here "q1" agent_order t5 ≡ ok (q1, t6)
  pub p1_stored : lookup "p1" t4.document.releases ≡ some p1
  pub p2_stored : lookup "p2" t4.document.releases ≡ some p2
  pub p1_committed : commit "p1" 5 t4.document ≡ ok (1, t5.document)
  pub helper_stored : lookup "helper" t7.document.agents ≡ some helper
  pub archived_stored : lookup "helper" t8.document.agents ≡ some archived_helper
  pub t10_reached : edit none (change outside model_call) t9 ≡ ok (done, t10)
  pub t2_expected : edit (some 3) (change outside agent_call) t1 ≡ ok (done, t2)

pub reached : Reached
unfolding edit change save_model identifier is_identifier preserve_secrets preserve_fields
    previous_entries with_entry lookup put any value_of json_eq unique validate_bindings
    validate_agent copied save_agent find select erase prepare_models prepare_agent prepare commit
    lifecycle agent_config split
reached = record {
  t1_reached = refl;
  t2_reached = refl;
  t5_reached = refl;
  t7_reached = refl;
  t8_reached = refl;
  t9_reached = refl;
  t3_reached = refl;
  t4_reached = refl;
  t6_reached = refl;
  p1_stored = refl;
  p2_stored = refl;
  p1_committed = refl;
  helper_stored = refl;
  archived_stored = refl;
  t10_reached = refl;
  t2_expected = refl;
}
