-- ===== src/Operations/Jobs/Samples.antt =====
-- Sample databases, tests of the job store, and its theorems at these samples.
use opencode_cloud.Prelude.{Bool, true, false, none, some, [], ◌∷◌, ◌≡◌, refl, find, any}
use opencode_cloud.Operations.Database.{
  ok, err, http, Status, queued, running, waiting, applying, succeeded, Payload, Job, Database,
}
use opencode_cloud.Operations.Jobs.{
  has_id, get, Changes, update, transition, load_pins, new_job, submit,
}
use opencode_cloud.Operations.Jobs.Exclusion.{IsExclusive}
use opencode_cloud.Operations.Jobs.Leases.{
  here, next, submits, Reach-IsExclusive, recover, update_late,
}
use opencode_cloud.Operations.Jobs.Requests.{submit_again, Transitioned, transition-Transitioned}

abbrev payload : Payload
payload = record { body = record { request_id = some "req_1"; fields = "{}" }; input = none }

abbrev no_jobs : Database
no_jobs = record {
  jobs = [];
  has_load_tests = false;
  load_tests = [];
  load_test_users = [];
  state = [];
}

abbrev job : Job
job = new_job "agent.apply" "code" payload "code" "req_1" "j1" 7

abbrev one_job : Database
one_job = record no_jobs { jobs = job ∷ [] }

submitted : submit "agent.apply" "code" payload none "x" "j1" 7 no_jobs ≡ ok (job, true, one_job)
unfolding submit load_pins find any
submitted = refl

-- Another operation on the target, and one on all targets, are refused.
second_refused :
    (submit "agent.archive" "code"
        (record payload { body = record (payload.body) { request_id = none } })
        none
        "x"
        "j2"
        8
        one_job
      ≡ err (http 409 "An operation already holds this target"))
    × (submit "models.apply" "*"
          (record payload { body = record (payload.body) { request_id = none } })
          none
          "x"
          "j2"
          8
          one_job
        ≡ err (http 409 "An operation already holds this target"))
unfolding submit load_pins find any
second_refused = (refl, refl)

no_jobs-IsExclusive : IsExclusive no_jobs
no_jobs-IsExclusive = record { ids = tt; requests = tt; leases = tt }

Reach-IsExclusive_example : IsExclusive one_job
Reach-IsExclusive_example =
    Reach-IsExclusive no_jobs-IsExclusive
      (next here (submits "agent.apply" "code" payload none "x" "j1" 7 submitted))

submit_again_example :
    submit "agent.apply" "code" payload (some "*") "y" "j9" 99 one_job ≡ ok (job, false, one_job)
submit_again_example =
    submit_again "agent.apply" "code" payload none "x" "j1" 7 no_jobs one_job job "req_1" refl refl
      submitted "agent.apply" "code" payload (some "*") "y" "j9" 99 refl

abbrev in_progress : Status → Bool
in_progress queued = true
in_progress running = true
in_progress waiting = true
in_progress applying = true
in_progress _ = false

abbrev to_apply : Changes
to_apply = record { status = some applying; checkpoint = some "apply"; error = none; notes = [] }

transition-Transitioned_example :
    Transitioned "j1" in_progress to_apply 9 one_job
      (transition "j1" in_progress to_apply 9 one_job)
      (get "j1" one_job)
transition-Transitioned_example = transition-Transitioned "j1" in_progress to_apply 9 one_job

-- The first job has succeeded, and the second has been submitted since.
abbrev finished : Job
finished = record job { status = succeeded }

abbrev newer : Job
newer = new_job "agent.archive" "code" payload "code" "req_2" "j2" 8

abbrev two_jobs : Database
two_jobs = record no_jobs { jobs = finished ∷ newer ∷ [] }

found_finished : find (has_id "j1") two_jobs.jobs ≡ some finished
unfolding find
found_finished = refl

found_newer : find (has_id "j2") two_jobs.jobs ≡ some newer
unfolding find
found_newer = refl

update_late_example :
    (later : Job) × (db' : Database) × (update "j1"
        (recover (some "Unable to release target admission block"))
        9
        two_jobs
      ≡ ok (later, db'))
    × ¬ IsExclusive db'
update_late_example =
    update_late "j1" finished newer (some "Unable to release target admission block") 9 two_jobs
      found_finished found_newer refl refl refl refl
