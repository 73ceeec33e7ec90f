-- ===== src/Operations/Reconcile/Samples.antt =====
-- A deletion that was interrupted and has come to its end: `reconcile` at it.
use opencode_cloud.Prelude.{false, none, some, [], ◌∷◌}
use opencode_cloud.Operations.Database.{
  ok, err, http, crash, needs_recovery, Payload, Job, Database,
}
use opencode_cloud.Operations.Jobs.{new_job, changed, put_job}
use opencode_cloud.Operations.Reconcile.{Services, reconciled}
use opencode_cloud.Operations.Reconcile.Evidence.{Evidence}

abbrev payload : Payload
payload = record { body = record { request_id = some "r1"; fields = "{}" }; input = none }

abbrev job : Job
job = record (new_job "agent.delete" "code" payload "code" "r1" "j1" 5) { status = needs_recovery }

abbrev one_job : Database
one_job = record {
  jobs = job ∷ [];
  has_load_tests = false;
  load_tests = [];
  load_test_users = [];
  state = [];
}

abbrev gone : Services
gone = record {
  release = err crash;
  gateway = err crash;
  application = err crash;
  commit = err crash;
  resume = ok tt;
  sandbox = err crash;
  catalog_impact = err (http 404 "Agent not found");
  sandboxes_left = ok false;
  files_left = ok false;
}

abbrev after : Database
after = put_job "j1" (changed (reconciled "{\"deleted\": true}") 9 job) one_job
