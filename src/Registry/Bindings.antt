-- ===== src/Registry/Bindings.antt =====
-- The bindings of the session routes of sandbox_manager/registry.py over its calls.
use opencode_cloud.Prelude.{
  ℕ, String, Bool, ◌&&◌, some, List, [], ◌∷◌, All, false, ◌≡◌, ◌==◌, refl, ◌∙◌, arith,
  if◌then◌else◌, find, find-update_where, find-append, Bool-cases, Option-cases, inl, inr,
}
use opencode_cloud.Registry.Tables.{SessionRoute, Registry, Result, ok, err}
use opencode_cloud.Registry.Sandboxes.{
  upsert_agent, has_id, SandboxValues, upsert_sandbox, mark_sandbox_status, touch_sandbox,
  set_health_status, observe, mark_missing, sweep, reconcile,
}
use opencode_cloud.Registry.Sessions.{
  Entry, names, put_session, bound_to, try_entry, after_savepoint, record_entry,
  record_sessions_batch, get_session_route,
}
use opencode_cloud.Registry.Validity.{IsValid}
use opencode_cloud.Registry.Spared.{delete_agent-spares, delete_sandbox-spares}
use opencode_cloud.Registry.Validity.Histories.{
  Call, upserts_agent, upserts_sandbox, marks, touches, sets_health, records, reconciles,
  deletes_agent, deletes_sandbox, step, step-IsValid, run, after,
}

-- What a route says besides the time of its last use.
abbrev pub SameBinding : SessionRoute → SessionRoute → Type 0
SameBinding r s =
    (s.sandbox_id ≡ r.sandbox_id)
    × (s.agent_id ≡ r.agent_id)
    × (s.username ≡ r.username)
    × (s.workspace_relpath ≡ r.workspace_relpath)
    × (s.created_at ≡ r.created_at)

-- A session that is found stays found, under the same binding.
abbrev Bound : String → SessionRoute → Registry → Type 0
Bound sid r db = (s : SessionRoute) × (get_session_route sid db ≡ some s) × SameBinding r s

put_session-Bound :
    (sid : String) (e : Entry) (db : Registry) (r : SessionRoute)
    → Bound sid r db
    → Bound sid r (record db { sessions = (put_session e db.sessions).1 })
unfolding put_session get_session_route
put_session-Bound sid e db r (s, found, same) =
    elim (Option-cases (find (names e.session_id) db.sessions)) [
      | inl new ↦ (s, rw (new, put_session) (rw find-append (rw found refl)), same)
      | inr (old, there) ↦ (
        if names e.session_id s then record s { last_active_at = e.now } else s,
        rw (there, put_session)
            (rw
              (find-update_where (names e.session_id) (names sid)
                (λ (r : SessionRoute). record r { last_active_at = e.now }) db.sessions (λ x. refl))
              (rw found refl)),
        elim (Bool-cases (names e.session_id s)) [ inl t ↦ rw t same | inr t ↦ rw t same ],
      )
    ]

-- A write that leaves the sessions alone.
same_sessions :
    (sid : String) (r : SessionRoute) (db db' : Registry)
    → db'.sessions ≡ db.sessions
    → Bound sid r db
    → Bound sid r db'
unfolding get_session_route
same_sessions sid r db db' e (s, found, same) = (s, rw e found, same)

try_entry-Bound :
    (sid : String) (e : Entry) (db : Registry) (r : SessionRoute)
    → Bound sid r db
    → Bound sid r (after_savepoint db (try_entry e db)).1
unfolding try_entry
try_entry-Bound sid e db r b = elim (Option-cases (find (has_id e.sandbox_id) db.sandboxes)) [
  | inl missing ↦ rw (missing, try_entry) b
  | inr (s, found) ↦ elim (Bool-cases (s.agent_id == e.agent_id && s.username == e.username)) [
    | inr other ↦ rw (found, try_entry) (rw other b)
    | inl own ↦
        rw (found, try_entry)
          (rw own (elim (Bool-cases (bound_to e (put_session e db.sessions).0)) [
            | inl same ↦ rw same (
                unfold touch_sandbox in
                same_sessions sid r (record db { sessions = (put_session e db.sessions).1 }) _ refl
                  (put_session-Bound sid e db r b))
            | inr differ ↦ rw differ b
          ]))
  ]
]

pub batch-Bound :
    (sid : String) (entries : List Entry) (db : Registry) (r : SessionRoute)
    → Bound sid r db
    → Bound sid r (record_sessions_batch entries db).1
unfolding record_sessions_batch
batch-Bound sid [] db r b = b
batch-Bound sid (e ∷ entries) db r b =
    batch-Bound sid entries (record_entry e db).1 r
      (unfold record_entry in try_entry-Bound sid e db r b)

sessions-upsert_agent :
    (aid path image : String) (enabled : Bool) (now : ℕ) (db : Registry)
    → (upsert_agent aid path image enabled now db).sessions ≡ db.sessions
unfolding upsert_agent
sessions-upsert_agent aid path image enabled now db = ground arith

sessions-upsert_sandbox :
    (v : SandboxValues) (now : ℕ) (db : Registry)
    → (after db (upsert_sandbox v now db)).sessions ≡ db.sessions
unfolding upsert_sandbox
sessions-upsert_sandbox v now db = ground arith

sessions-observe :
    (observed : List (SandboxValues × ℕ)) (db : Registry)
    → (observe observed db).0.sessions ≡ db.sessions
unfolding observe
sessions-observe [] db = refl
sessions-observe ((v, at) ∷ rest) db = ground (
  arith,
  sessions-upsert_sandbox v at db,
  sessions-observe rest (after db (upsert_sandbox v at db)),
)

sessions-mark_missing :
    (ids : List String) (now : ℕ) (db : Registry) → (mark_missing ids now db).sessions ≡ db.sessions
unfolding mark_missing
sessions-mark_missing [] now db = refl
sessions-mark_missing (sid ∷ ids) now db = sessions-mark_missing ids now _

sessions-reconcile :
    (observed : List (SandboxValues × ℕ)) (now : ℕ) (db : Registry)
    → (reconcile observed now db).0.sessions ≡ db.sessions
unfolding reconcile
sessions-reconcile observed now db = swept (observe observed db) ∙ sessions-observe observed db
  where
    swept : (r : Registry × Result (List String)) → (sweep now r).0.sessions ≡ r.0.sessions
    swept (db', ok ids) = sessions-mark_missing _ now db'
    swept (db', err e) = refl

-- The call is no deletion of the agent or of the sandbox of the session.
abbrev pub Spares : SessionRoute → Call → Type 0
Spares r (deletes_agent aid) = (r.agent_id == aid) ≡ false
Spares r (deletes_sandbox sid) = (r.sandbox_id == sid) ≡ false
Spares r _ = Unit

step-Bound :
    (sid : String) (c : Call) (db : Registry) (r : SessionRoute)
    → Spares r c
    → IsValid db
    → Bound sid r db
    → Bound sid r (step c db)
unfolding step
step-Bound sid (upserts_agent aid path image enabled now) db r spares valid b =
    same_sessions sid r db _ (sessions-upsert_agent aid path image enabled now db) b
step-Bound sid (upserts_sandbox v now) db r spares valid b =
    same_sessions sid r db _ (sessions-upsert_sandbox v now db) b
step-Bound sid (marks x status now) db r spares valid b =
    unfold mark_sandbox_status in same_sessions sid r db _ refl b
step-Bound sid (touches x now) db r spares valid b =
    unfold touch_sandbox in same_sessions sid r db _ refl b
step-Bound sid (sets_health x status) db r spares valid b =
    unfold set_health_status in same_sessions sid r db _ refl b
step-Bound sid (records entries) db r spares valid b = batch-Bound sid entries db r b
step-Bound sid (reconciles observed now) db r spares valid b =
    same_sessions sid r db _ (sessions-reconcile observed now db) b
step-Bound sid (deletes_agent aid) db r spares valid (s, found, same) =
    (s, delete_agent-spares sid aid db s valid found (rw (same.1) spares), same)
step-Bound sid (deletes_sandbox x) db r spares valid (s, found, same) =
    (s, delete_sandbox-spares sid x db s found (rw (same.0) spares), same)

run-Bound :
    (sid : String) (calls : List Call) (db : Registry) (r : SessionRoute)
    → All (Spares r) calls
    → IsValid db
    → Bound sid r db
    → Bound sid r (run calls db)
unfolding run
run-Bound sid [] db r spares v b = b
run-Bound sid (c ∷ cs) db r spares v b =
    run-Bound sid cs (step c db) r spares.1 (step-IsValid c db v)
      (step-Bound sid c db r spares.0 v b)

-- A session that was found in a valid registry is found after any calls and deletions, none of them a
-- deletion of its agent or of its sandbox, with the sandbox, the agent, the user, the workspace path
-- and the creation time that it had.
pub get_session_route-run :
    (sid : String) (calls : List Call) (db : Registry) (r : SessionRoute)
    → All (Spares r) calls
    → IsValid db
    → get_session_route sid db ≡ some r
    → (s : SessionRoute) × (get_session_route sid (run calls db) ≡ some s) × SameBinding r s
get_session_route-run sid calls db r spares v found =
    run-Bound sid calls db r spares v (r, found, (refl, refl, refl, refl, refl))
