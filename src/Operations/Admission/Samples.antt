-- ===== src/Operations/Admission/Samples.antt =====
-- A deletion that is applied, and a load-test user that is cleaned: the theorems of admission at them.
use opencode_cloud.Prelude.{String, true, Option, none, some, [], ◌∷◌, ◌≡◌, ◌≢◌, refl, any, find}
use opencode_cloud.Operations.LoadTables.{
  LoadStatus, StorageState, CleanupStatus, Phase, LoadTest, LoadUser,
}
use opencode_cloud.Operations.Database.{ok, err, http, applying, Payload, Job, Database}
use opencode_cloud.Operations.Jobs.{new_job}
use opencode_cloud.Operations.Admission.{
  load_user, file_admission, cleanup_authorization, admission,
}
use opencode_cloud.Operations.Admission.Exclusion.{agent_cleanup-refused, user_cleanup-refused}

abbrev payload : Payload
payload = record { body = record { request_id = some "r1"; fields = "{}" }; input = none }

abbrev deletion_job : Job
deletion_job = record (new_job "agent.delete" "code" payload "code" "r1" "j1" 5) {
  status = applying;
}

abbrev run : LoadTest
run = record {
  id = "lt_a";
  request_id = "request-1";
  fingerprint = "f";
  status = LoadStatus.completed;
  created_at = 1;
  cleanup_status = CleanupStatus.cleaning;
  snapshots = [];
  error = none;
  cleanup_error = none;
  finished_at = some 2;
}

abbrev user : LoadUser
user = record {
  username = "loadtest-a-1";
  agent_id = "writer";
  run_id = "lt_a";
  state = StorageState.cleaning;
  cpu_limit = 100;
  memory_mb = 1024;
  phase = Phase.succeeded;
  error = none;
  latency_ms = none;
  finished_at = some 2;
}

abbrev db : Database
db = record {
  jobs = deletion_job ∷ [];
  has_load_tests = true;
  load_tests = run ∷ [];
  load_test_users = user ∷ [];
  state = [];
}

abbrev sandbox_id : String → String → String
sandbox_id aid username = "sbx_1"

authorized_agent : cleanup_authorization "code" "j1" none none db ≡ ok tt
unfolding cleanup_authorization any
authorized_agent = refl

agent_cleanup-refused_example :
    file_admission "code" "ann" db ≡ err (http 409 "Agent deletion pending")
agent_cleanup-refused_example =
    agent_cleanup-refused "code" "j1" "ann" db ((λ h. refl), tt) authorized_agent

authorized_user :
    cleanup_authorization "writer" "lt_a:loadtest-a-1" (some "loadtest-a-1") (some "lt_a") db
    ≡ ok tt
unfolding cleanup_authorization find load_user
authorized_user = refl

user_cleanup-refused_example :
    ((u : Option LoadUser) → file_admission "writer" "loadtest-a-1" db ≢ ok u)
    × ((u : Option LoadUser) → admission sandbox_id "writer" "loadtest-a-1" db ≢ ok u)
user_cleanup-refused_example =
    user_cleanup-refused "writer" "lt_a:loadtest-a-1" "loadtest-a-1" "lt_a" sandbox_id db refl refl
      authorized_user
