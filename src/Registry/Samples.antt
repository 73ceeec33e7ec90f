-- ===== src/Registry/Samples.antt =====
-- Sample registries, tests of the calls, and the theorems of the registry at these samples.
use opencode_cloud.Prelude.{
  true, any, All, none, some, List, [], ◌∷◌, map, ◌≡◌, ◌≢◌, refl, arith, find, update_where, length,
  inl,
}
use opencode_cloud.Registry.Tables.{
  AgentRow, SandboxRecord, SessionRoute, Registry, ok, err, already_bound,
}
use opencode_cloud.Registry.Sandboxes.{
  write_agent, upsert_agent, SandboxValues, fresh_row, upsert_sandbox, touch_sandbox, observe,
  missing_ids, reconcile, get_sandbox,
}
use opencode_cloud.Registry.Sessions.{
  Entry, fresh_route, put_session, try_entry, record_entry, record_sessions_batch,
  get_session_route,
}
use opencode_cloud.Registry.Validity.{IsValid}
use opencode_cloud.Registry.Validity.Histories.{
  Call, upserts_agent, upserts_sandbox, sets_health, records, reconciles, deletes_agent,
  deletes_sandbox, run, empty, run-IsValid,
}
use opencode_cloud.Registry.Upserts.{upsert_agent-eq-write_agent, Upserted, upsert_sandbox-Upserted}
use opencode_cloud.Registry.Batches.{accepted, Recorded, record_sessions_batch-accepted}
use opencode_cloud.Registry.Bindings.{SameBinding, Spares, get_session_route-run}
use opencode_cloud.Registry.Reconcile.{swept, reconcile-swept}

abbrev values : SandboxValues
values = record {
  sandbox_id = "sbx_1";
  agent_id = "code";
  username = "ann";
  container_id = some "c1";
  host_port = some 40001;
  status = "ready";
  image_version = "v1";
}

abbrev entry : Entry
entry = record {
  session_id = "ses_1";
  sandbox_id = "sbx_1";
  agent_id = "code";
  username = "ann";
  workspace_relpath = "sessions/ses_1";
  now = 5;
  touched = 6;
}

-- Bound to another path than the first.
abbrev stolen : Entry
stolen = record entry { workspace_relpath = "shared" }

abbrev route : SessionRoute
route = fresh_route entry

abbrev calls : List Call
calls =
    upserts_agent "code" "/agents/code" "img" true 1
    ∷ upserts_sandbox values 2
    ∷ records (entry ∷ stolen ∷ [])
    ∷ sets_health "sbx_1" "unhealthy"
    ∷ deletes_agent "data"
    ∷ deletes_sandbox "sbx_2"
    ∷ reconciles [] 9
    ∷ []

abbrev agent : AgentRow
agent = record {
  agent_id = "code";
  config_path = "/agents/code";
  image = "img";
  enabled = true;
  updated_at = 1;
}

abbrev stored : Registry
stored = record { agents = agent ∷ []; sandboxes = fresh_row values 2 ∷ []; sessions = route ∷ [] }

-- The second entry is refused, and the sandbox keeps the time of the first.
batch_of_two : record_sessions_batch (entry ∷ stolen ∷ []) (record stored { sessions = [] }) ≡ (
  ok route ∷ err already_bound ∷ [],
  record stored { sandboxes = record (fresh_row values 2) { last_active_at = 6 } ∷ [] },
)
unfolding record_sessions_batch record_entry try_entry put_session touch_sandbox find update_where
batch_of_two = refl

run-IsValid_example : IsValid (run calls empty)
run-IsValid_example =
    run-IsValid calls empty
      (record { ids = tt; owners = tt; known = tt; ports = tt; session_ids = tt; bound = tt })

upsert_agent-eq-write_agent_example :
    upsert_agent "code" "/agents/code" "img" true 7 stored
    ≡ write_agent
        (record {
          agent_id = "code";
          config_path = "/agents/code";
          image = "img";
          enabled = true;
          updated_at = 7;
        })
        stored
upsert_agent-eq-write_agent_example =
    upsert_agent-eq-write_agent "code" "/agents/code" "img" true 7 stored

abbrev replacement : SandboxValues
replacement = record values { sandbox_id = "sbx_2"; container_id = some "c2" }

stored_found : get_sandbox "code" "ann" stored ≢ none
unfolding get_sandbox find
stored_found e = ground arith

upsert_sandbox-Upserted_example :
    (row : SandboxRecord) × (db' : Registry) × (upsert_sandbox replacement 8 stored ≡ ok (row, db'))
    × Upserted replacement 8 stored row db'
upsert_sandbox-Upserted_example =
    upsert_sandbox-Upserted replacement 8 stored refl (inl stored_found)

record_sessions_batch-accepted_example :
    let (results, db') = record_sessions_batch (entry ∷ stolen ∷ []) stored in
    (length results ≡ 2)
    × ((record_sessions_batch (accepted (entry ∷ stolen ∷ []) results) stored).1 ≡ db')
    × All (λ e. Recorded e db') (accepted (entry ∷ stolen ∷ []) results)
record_sessions_batch-accepted_example = record_sessions_batch-accepted (entry ∷ stolen ∷ []) stored

get_session_route-stored : get_session_route "ses_1" stored ≡ some route
unfolding get_session_route find
get_session_route-stored = refl

stored-IsValid : IsValid stored
unfolding any
stored-IsValid = record {
  ids = (tt, tt);
  owners = (tt, tt);
  known = (refl, tt);
  ports = (refl, tt);
  session_ids = (tt, tt);
  bound = (refl, tt);
}

spared : All (Spares route) calls
spared = (tt, (tt, (tt, (tt, (refl, (refl, (tt, tt)))))))

get_session_route-run_example :
    (s : SessionRoute) × (get_session_route "ses_1" (run calls stored) ≡ some s)
    × SameBinding route s
get_session_route-run_example =
    get_session_route-run "ses_1" calls stored route spared stored-IsValid get_session_route-stored

reconcile-swept_example : reconcile [] 9 stored ≡ (
  record stored { sandboxes = map (swept [] 9) stored.sandboxes },
  ok (missing_ids [] stored.sandboxes),
)
unfolding observe
reconcile-swept_example = reconcile-swept [] 9 stored
