-- ===== src/Operations/LoadTests/Samples.antt =====
-- A sample load test of two agents, and the theorems of the load-test store at it.
use opencode_cloud.Prelude.{
  String, true, false, none, List, [], ◌∷◌, ◌≡◌, refl, find, any, All, lookup,
}
use opencode_cloud.Operations.LoadTables.{active, cleanup_runs, Snapshot}
use opencode_cloud.Operations.Database.{ok, Database}
use opencode_cloud.Operations.LoadTests.{user_rows, new_run, create, decimal, decimal_digits}
use opencode_cloud.Operations.LoadTests.Requests.{
  LoadRequest, CatalogAgent, validate_agents, distinct_agents, valid_request,
}
use opencode_cloud.Operations.LoadTests.Submits.{IsApart}
use opencode_cloud.Operations.LoadTests.Apart.{test, Admits-IsApart}
use opencode_cloud.Operations.LoadTests.Restart.{recover}
use opencode_cloud.Operations.LoadTests.Recovers.{recover-returns}

abbrev digest : LoadRequest → String
digest request = request.request_id

abbrev no_rows : Database
no_rows = record {
  jobs = [];
  has_load_tests = true;
  load_tests = [];
  load_test_users = [];
  state = [];
}

abbrev catalog : List (String × CatalogAgent)
catalog =
    (
      "code",
      record {
        active = "1";
        versions = record { version = "1"; enabled = true; default_model_id = "m" } ∷ [];
        lifecycle = none;
      },
    )
    ∷ []

abbrev request : LoadRequest
request = record {
  request_id = "request-1";
  agents = record { agent_id = "code"; users = 2; cpu_limit = 100; memory_mb = 1024 } ∷ [];
  timeout_seconds = 180;
  prepare_timeout_seconds = 120;
}

abbrev snapshots : List (String × Snapshot)
snapshots = ("code", record { version = "1"; model_id = "m" }) ∷ []

abbrev one_run : Database
one_run = record no_rows {
  load_tests = new_run request "request-1" snapshots "ab" 5 ∷ [];
  load_test_users = user_rows "ab" request.agents 0;
}

request_accepted : valid_request request ≡ true
unfolding valid_request distinct_agents any
request_accepted = refl

counted : decimal 40 ≡ "40"
unfolding decimal decimal_digits
counted = refl

created : create digest catalog request "ab" 5 no_rows ≡ ok ("lt_ab", true, one_run)
unfolding create validate_agents find any lookup
created = refl

Admits-IsApart_example : IsApart one_run
Admits-IsApart_example =
    Admits-IsApart digest (record { apart = tt; owned = tt }) (test catalog request "ab" 5 created)

recover-returns_example :
    (db' : Database) × (recover 9 one_run ≡ ok db')
    × All (λ r. (active r.status ≡ false) × (cleanup_runs r.cleanup_status ≡ false)) db'.load_tests
    × (db'.jobs ≡ [])
recover-returns_example = recover-returns 9 one_run (tt, tt) (refl, (refl, tt))
