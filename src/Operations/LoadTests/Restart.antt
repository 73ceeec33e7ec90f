-- ===== src/Operations/LoadTests/Restart.antt =====
-- `recover` of operations/src/load_test_store.py, at the start of the service.
use opencode_cloud.Prelude.{
  ℕ, String, Bool, true, false, Option, not, ◌||◌, any, none, some, List, [], ◌∷◌, ◌==◌,
  if◌then◌else◌, find, select, map,
}
use opencode_cloud.Operations.LoadTables.{
  LoadStatus, active, CleanupStatus, cleanup_runs, Phase, unfinished, has_succeeded, LoadTest,
  LoadUser,
}
use opencode_cloud.Operations.Database.{Result, ok, err, http, crash, Database}
use opencode_cloud.Operations.LoadTests.{has_run}
use opencode_cloud.Operations.LoadTests.Updates.{RunChanges, update_run, UserChanges, update_user}

abbrev pub and_then : Result Database → (Database → Result Database) → Result Database
and_then (ok db) f = f db
and_then (err e) f = err e

abbrev pub interrupt_run : ℕ → RunChanges
interrupt_run now = record {
  status = some LoadStatus.interrupted;
  cleanup_status = none;
  error = some (some "Controller restarted; requests were not replayed");
  cleanup_error = none;
  finished_at = some (some now);
}

abbrev pub interrupt_user : ℕ → UserChanges
interrupt_user now = record {
  state = none;
  phase = some Phase.interrupted;
  error = some (some "CONTROLLER_RESTARTED");
  finished_at = some (some now);
}

abbrev pub fail_cleanup : RunChanges
fail_cleanup = record {
  status = none;
  cleanup_status = some CleanupStatus.failed;
  error = none;
  cleanup_error = some (some "Controller restarted; retry cleanup");
  finished_at = none;
}

unfoldable pub interrupt_users : ℕ → List LoadUser → Database → Result Database
interrupt_users now [] db = ok db
interrupt_users now (u ∷ users) db =
    and_then (if unfinished u.phase then update_user u.username (interrupt_user now) db else ok db)
      (interrupt_users now users)

abbrev pub measured : Option ℕ → Bool
measured none = false
measured (some n) = true

-- sorted(u["latency_ms"] for u in successful) of `summarize`: an entry that is missing is a KeyError.
abbrev pub summarizes : LoadUser → Bool
summarizes u = not (has_succeeded u.phase) || measured u.latency_ms

-- The body of the loop: `get` reads the run once, with its users, and summarizes them, before the
-- writes. Of the report the loop reads the statuses and the phases.
unfoldable pub recover_run : ℕ → String → Database → Result Database
recover_run now rid db = elim (find (has_run rid) db.load_tests) [
  | none ↦ err (http 404 "Load test not found")
  | some r ↦
      let users = select (λ (u : LoadUser). u.run_id == rid) db.load_test_users in
      if any (λ u. not (summarizes u)) users
      then err crash
      else and_then
          (if active r.status
            then and_then (update_run rid (interrupt_run now) db) (interrupt_users now users)
            else ok db)
          (λ db'. if cleanup_runs r.cleanup_status then update_run rid fail_cleanup db' else ok db')
]

unfoldable pub recover_runs : ℕ → List String → Database → Result Database
recover_runs now [] db = ok db
recover_runs now (rid ∷ rids) db = and_then (recover_run now rid db) (recover_runs now rids)

-- The clock is read once.
unfoldable pub recover : ℕ → Database → Result Database
recover now db = recover_runs now (map (λ (r : LoadTest). r.id) db.load_tests) db
