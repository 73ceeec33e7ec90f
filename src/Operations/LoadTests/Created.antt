-- ===== src/Operations/LoadTests/Created.antt =====
-- What `create` of operations/src/load_test_store.py writes.
use Prim.Native.String.{◌++◌ as append}
use opencode_cloud.Prelude.{
  ℕ, suc, zero, ◌+◌, String, Bool, true, false, Option, none, some, List, [], ◌∷◌, ◌++◌, ◌≡◌, ◌==◌,
  refl, ap, arith, if◌then◌else◌, find, any, length, length-append,
}
use opencode_cloud.Operations.LoadTables.{active, LoadTest, Snapshot}
use opencode_cloud.Operations.Database.{Result, ok, err, http, Database}
use opencode_cloud.Operations.LoadTests.{
  holds_selected, agent_rows, user_rows, has_run, new_run, begin_run, asked, create,
}
use opencode_cloud.Operations.LoadTests.Requests.{
  LoadAgent, LoadRequest, CatalogAgent, validate_agents, total_users,
}

abbrev pub runs : LoadTest → Bool
runs r = active r.status

agent_rows-length :
    (hex : String) (a : LoadAgent) (n index : ℕ) → length (agent_rows hex a n index) ≡ n
agent_rows-length hex a zero index = refl
agent_rows-length hex a (suc n) index = ap suc (agent_rows-length hex a n (suc index))

user_rows-length :
    (hex : String) (agents : List LoadAgent) (index : ℕ)
    → length (user_rows hex agents index) ≡ total_users agents
user_rows-length hex [] index = refl
user_rows-length hex (a ∷ rest) index =
    rw (length-append (agent_rows hex a a.users index) (user_rows hex rest (index + a.users))) (
      rw (agent_rows-length hex a a.users index)
        (rw (user_rows-length hex rest (index + a.users)) refl))

-- What `create` has found when it has written a run, and what it has written.
pub record Begun (catalog : List (String × CatalogAgent)) (request : LoadRequest)
    (fingerprint hex : String) (now : ℕ) (db : Database) (rid : String) (db' : Database)
    : Type 0 where
  pub snapshots : List (String × Snapshot)
  pub idle : any runs db.load_tests ≡ false
  pub free : any (holds_selected request.agents) db.jobs ≡ false
  pub new : any (has_run (append "lt_" hex)) db.load_tests ≡ false
  pub chosen : validate_agents catalog request.agents ≡ ok snapshots
  pub seated : length db'.load_test_users ≡ length db.load_test_users + total_users request.agents
  pub named : rid ≡ append "lt_" hex
  pub written : db' ≡ record db {
    load_tests = db.load_tests ++ new_run request fingerprint snapshots hex now ∷ [];
    load_test_users = db.load_test_users ++ user_rows hex request.agents 0;
  }

module _ (digest : LoadRequest → String) where
  -- A `create` that writes a run has found no run that is not over, no job that works or awaits
  -- recovery and holds a selected agent, each agent published and enabled, and a new id; it appends
  -- the run, queued, and one row for each user of the request.
  pub create-Begun :
      (catalog : List (String × CatalogAgent)) (request : LoadRequest) (hex : String) (now : ℕ)
      (db : Database) {rid : String} {db' : Database}
      → create digest catalog request hex now db ≡ ok (rid, true, db')
      → Begun catalog request (digest request) hex now db rid db'
  unfolding create
  create-Begun catalog request hex now db {rid} {db'} h =
      by_cases (find (asked request.request_id) db.load_tests)
        (validate_agents catalog request.agents) refl h
    where
      seats :
          (snapshots : List (String × Snapshot))
          → db' ≡ record db {
            load_tests = db.load_tests ++ new_run request (digest request) snapshots hex now ∷ [];
            load_test_users = db.load_test_users ++ user_rows hex request.agents 0;
          }
          → length db'.load_test_users ≡ length db.load_test_users + total_users request.agents
      seats snapshots e = rw e (
          rw (length-append db.load_test_users (user_rows hex request.agents 0))
            (rw (user_rows-length hex request.agents 0) refl))

      by_cases :
          (old : Option LoadTest) (s : Result (List (String × Snapshot)))
          → validate_agents catalog request.agents ≡ s
          → (elim old [
            | some r ↦
                if r.fingerprint == digest request
                then ok (r.id, false, db)
                else err (http 409 "Request ID was already used with different test parameters")
            | none ↦
                if any runs db.load_tests
                then err (http 409 "A load test is already active")
                else if any (holds_selected request.agents) db.jobs
                then err (http 409 "An operation holds a selected Agent")
                else begin_run request (digest request) s hex now db
          ])
            ≡ ok (rid, true, db')
          → Begun catalog request (digest request) hex now db rid db'
      by_cases (some r) s c e = absurd (ground arith)
      by_cases none (err x) c e = absurd (ground arith)
      by_cases none (ok snapshots) c e = record {
        chosen = c;
        seated = seats snapshots (ground arith);
        snapshots = snapshots;
        idle = ground arith;
        free = ground arith;
        new = ground arith;
        named = ground arith;
        written = ground arith;
      }
