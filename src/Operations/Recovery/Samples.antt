-- ===== src/Operations/Recovery/Samples.antt =====
-- A sample pass of the recovery over one unhealthy sandbox, and the theorems at it.
use opencode_cloud.Prelude.{
  ◌≤◌, String, true, false, Option, some, [], ◌∷◌, ◌≡◌, refl, arith, select, any,
}
use opencode_cloud.Operations.Database.{Job, Database}
use opencode_cloud.Operations.Jobs.{new_job}
use opencode_cloud.Operations.RecoveryPolicy.{
  RecoveryPolicy, valid_policy, initial, Observation, backoff,
}
use opencode_cloud.Operations.Recovery.{Pass, count_active, recovery_payload, tick}
use opencode_cloud.Operations.Recovery.Bounds.{backoff-in_range}
use opencode_cloud.Operations.Recovery.Passes.{Sound, tick-Sound}

abbrev policy : RecoveryPolicy
policy = record {
  enabled = true;
  failure_threshold = 1;
  max_attempts = 3;
  window_seconds = 900;
  backoff_seconds = 30 ∷ 60 ∷ 120 ∷ [];
  stable_seconds = 300;
  agent_enabled = [];
  max_parallel_recoveries = 2;
}

abbrev lifecycle : String → Option String
lifecycle aid = some "active"

abbrev missing_sandbox : Observation
missing_sandbox = record {
  agent_id = "code";
  sandbox_id = "sb1";
  username = "ann";
  container_id = some "c1";
  status = "missing";
  detail_execution = some "idle";
  detail_generation = some 4;
  now = 1000;
  request_id = "recovery-1";
  fields = "{}";
  job_id = "j1";
  meanwhile = λ db. db;
}

abbrev no_jobs : Database
no_jobs = record {
  jobs = [];
  has_load_tests = false;
  load_tests = [];
  load_test_users = [];
  state = [];
}

abbrev first_pass : Pass
first_pass = record { db = no_jobs; states = []; active = 0; spawned = [] }

abbrev queued_job : Job
queued_job =
    new_job "sandbox.recover" "sb1" (recovery_payload missing_sandbox) "code" "recovery-1" "j1" 1000

abbrev after : Pass
after = record {
  db = record no_jobs { jobs = queued_job ∷ [] };
  states =
      (
        "sb1",
        record initial {
          failures = 1;
          attempts = 1000 ∷ [];
          next_attempt = 1030;
          reason = some "Recovery queued";
        },
      )
      ∷ [];
  active = 1;
  spawned = "j1" ∷ [];
}

policy_valid : valid_policy policy ≡ true
unfolding valid_policy any
policy_valid = refl

backoff-in_range_example : (1 ≤ backoff policy 7) × (backoff policy 7 ≤ 3600)
backoff-in_range_example = backoff-in_range policy 7 policy_valid

none_active : count_active no_jobs ≤ 2
unfolding count_active select
none_active = omega arith

tick-Sound_example :
    Sound policy
      (count_active no_jobs)
      (tick policy lifecycle (missing_sandbox ∷ missing_sandbox ∷ []) no_jobs [])
tick-Sound_example =
    tick-Sound policy lifecycle (missing_sandbox ∷ missing_sandbox ∷ []) no_jobs [] none_active tt
      (record { ids = tt; requests = tt; leases = tt }) (λ db h. h, (λ db h. h, tt))
