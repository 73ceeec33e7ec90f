-- ===== src/Operations/LoadTests/Updates.antt =====
-- `update` and `update_user` of operations/src/load_test_store.py.
use opencode_cloud.Prelude.{ℕ, String, Option, none, some, find, update_where}
use opencode_cloud.Operations.LoadTables.{
  LoadStatus, StorageState, CleanupStatus, Phase, LoadTest, LoadUser,
}
use opencode_cloud.Operations.Database.{Result, ok, err, http, Database}
use opencode_cloud.Operations.Jobs.{given}
use opencode_cloud.Operations.LoadTests.{has_run, has_name}

-- The values of an update of a run and of a user, where `none` is a name not given.
pub record RunChanges : Type 0 where
  pub status : Option LoadStatus
  pub cleanup_status : Option CleanupStatus
  pub error : Option (Option String)
  pub cleanup_error : Option (Option String)
  pub finished_at : Option (Option ℕ)

abbrev pub changed_run : RunChanges → LoadTest → LoadTest
changed_run c r = record r {
  status = given c.status r.status;
  cleanup_status = given c.cleanup_status r.cleanup_status;
  error = given c.error r.error;
  cleanup_error = given c.cleanup_error r.cleanup_error;
  finished_at = given c.finished_at r.finished_at;
}

unfoldable pub update_run : String → RunChanges → Database → Result Database
update_run rid c db = elim (find (has_run rid) db.load_tests) [
  | none ↦ err (http 404 "Load test not found")
  | some r ↦
      ok
        (record db { load_tests = update_where (has_run rid) (λ _. changed_run c r) db.load_tests })
]

pub record UserChanges : Type 0 where
  pub state : Option StorageState
  pub phase : Option Phase
  pub error : Option (Option String)
  pub finished_at : Option (Option ℕ)

abbrev pub changed_user : UserChanges → LoadUser → LoadUser
changed_user c u = record u {
  state = given c.state u.state;
  phase = given c.phase u.phase;
  error = given c.error u.error;
  finished_at = given c.finished_at u.finished_at;
}

unfoldable pub update_user : String → UserChanges → Database → Result Database
update_user username c db = elim (find (has_name username) db.load_test_users) [
  | none ↦ err (http 404 "Load test user not found")
  | some u ↦ ok (record db {
    load_test_users = update_where (has_name username) (λ _. changed_user c u) db.load_test_users;
  })
]
