-- ===== src/Registry/Validity/Histories.antt =====
-- Any history of calls of the registry, and what each history keeps.
use opencode_cloud.Prelude.{ℕ, String, Bool, List, [], ◌∷◌, subst, inl, inr}
use opencode_cloud.Registry.Tables.{SandboxRecord, Registry, Result, ok, err}
use opencode_cloud.Registry.Sandboxes.{
  upsert_agent, SandboxValues, upsert_sandbox, mark_sandbox_status, touch_sandbox,
  set_health_status, observe, keep_id, sweep, reconcile,
}
use opencode_cloud.Registry.Sessions.{Entry, record_sessions_batch}
use opencode_cloud.Registry.Deletions.{delete_agent, delete_sandbox}
use opencode_cloud.Registry.Validity.Deletions.{delete_agent-IsValid, delete_sandbox-IsValid}
use opencode_cloud.Registry.Tables.{Result-cases, OnOk}
use opencode_cloud.Registry.Validity.{IsValid}
use opencode_cloud.Registry.Validity.Writes.{
  mark_sandbox_status-IsValid, touch_sandbox-IsValid, set_health_status-IsValid,
  mark_missing-IsValid, upsert_agent-IsValid, upsert_sandbox-IsValid,
}
use opencode_cloud.Registry.Validity.Sessions.{record_sessions_batch-IsValid}

-- The calls that write, and the deletions, with the readings of the clock that they make.
pub data Call : Type 0 where
  upserts_agent : String → String → String → Bool → ℕ → Call
  upserts_sandbox : SandboxValues → ℕ → Call
  marks : String → String → ℕ → Call
  touches : String → ℕ → Call
  sets_health : String → String → Call
  records : List Entry → Call
  reconciles : List (SandboxValues × ℕ) → ℕ → Call
  deletes_agent : String → Call
  deletes_sandbox : String → Call

-- A call that raises leaves what it had committed.
abbrev pub after : Registry → Result (SandboxRecord × Registry) → Registry
after db (ok (row, db')) = db'
after db (err e) = db

unfoldable pub step : Call → Registry → Registry
step (upserts_agent aid path image enabled now) db = upsert_agent aid path image enabled now db
step (upserts_sandbox v now) db = after db (upsert_sandbox v now db)
step (marks sid status now) db = (mark_sandbox_status sid status now db).1
step (touches sid now) db = touch_sandbox sid now db
step (sets_health sid status) db = set_health_status sid status db
step (records entries) db = (record_sessions_batch entries db).1
step (reconciles observed now) db = (reconcile observed now db).0
step (deletes_agent aid) db = delete_agent aid db
step (deletes_sandbox sid) db = delete_sandbox sid db

unfoldable pub run : List Call → Registry → Registry
run [] db = db
run (c ∷ cs) db = run cs (step c db)

abbrev pub empty : Registry
empty = record { agents = []; sandboxes = []; sessions = [] }

observe-IsValid :
    (observed : List (SandboxValues × ℕ)) (db : Registry)
    → IsValid db
    → IsValid (observe observed db).0
unfolding observe
observe-IsValid [] db v = v
observe-IsValid ((w, at) ∷ rest) db v = elim (Result-cases (upsert_sandbox w at db)) [
  | inr (x, h) ↦ rw (h, observe) v
  | inl ((row, db'), h) ↦
      rw (h, observe)
        (keep row.sandbox_id (observe rest db')
          (observe-IsValid rest db' (subst (OnOk IsValid) h (upsert_sandbox-IsValid w at db v))))
]
  where
    keep :
        (sid : String) (r : Registry × Result (List String))
        → IsValid r.0
        → IsValid (keep_id sid r).0
    keep sid (db', ok ids) h = h
    keep sid (db', err e) h = h

reconcile-IsValid :
    (observed : List (SandboxValues × ℕ)) (now : ℕ) (db : Registry)
    → IsValid db
    → IsValid (reconcile observed now db).0
unfolding reconcile
reconcile-IsValid observed now db v = swept (observe observed db) (observe-IsValid observed db v)
  where
    swept : (r : Registry × Result (List String)) → IsValid r.0 → IsValid (sweep now r).0
    swept (db', ok ids) h = mark_missing-IsValid _ now db' h
    swept (db', err e) h = h

pub step-IsValid : (c : Call) (db : Registry) → IsValid db → IsValid (step c db)
unfolding step
step-IsValid (upserts_agent aid path image enabled now) db v = upsert_agent-IsValid _ _ _ _ _ db v
step-IsValid (upserts_sandbox w now) db v =
    kept (upsert_sandbox w now db) (upsert_sandbox-IsValid w now db v)
  where
    kept : (r : Result (SandboxRecord × Registry)) → OnOk IsValid r → IsValid (after db r)
    kept (ok (row, db')) h = h
    kept (err e) h = v
step-IsValid (marks sid status now) db v = mark_sandbox_status-IsValid sid status now db v
step-IsValid (touches sid now) db v = touch_sandbox-IsValid sid now db v
step-IsValid (sets_health sid status) db v = set_health_status-IsValid sid status db v
step-IsValid (records entries) db v = record_sessions_batch-IsValid entries db v
step-IsValid (reconciles observed now) db v = reconcile-IsValid observed now db v
step-IsValid (deletes_agent aid) db v = delete_agent-IsValid aid db v
step-IsValid (deletes_sandbox sid) db v = delete_sandbox-IsValid sid db v

-- After any calls and deletions, raising or not, from a valid registry: the sandbox ids and the (agent, user)
-- pairs are distinct, each sandbox has a known agent and a port in range, session ids are distinct,
-- and each session's sandbox exists and has the session's agent and user.
pub run-IsValid : (calls : List Call) (db : Registry) → IsValid db → IsValid (run calls db)
unfolding run
run-IsValid [] db v = v
run-IsValid (c ∷ cs) db v = run-IsValid cs (step c db) (step-IsValid c db v)
