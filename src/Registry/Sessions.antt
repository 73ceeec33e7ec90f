-- ===== src/Registry/Sessions.antt =====
-- Session routes of sandbox_manager/registry.py: `record_session` and `record_sessions_batch`.
use opencode_cloud.Prelude.{
  ℕ, String, Bool, ◌&&◌, Option, none, some, List, [], ◌∷◌, ◌++◌, ◌==◌, leb, if◌then◌else◌, find,
  select, update_where,
}
use opencode_cloud.Registry.Tables.{
  SessionRoute, Registry, unknown_sandbox, owner_mismatch, already_bound, Result, ok, err,
}
use opencode_cloud.Registry.Sandboxes.{has_id, touch_sandbox}

-- One entry of a batch, with the two readings of the clock that it makes.
pub record Entry : Type 0 where
  pub session_id : String
  pub sandbox_id : String
  pub agent_id : String
  pub username : String
  pub workspace_relpath : String
  pub now : ℕ
  pub touched : ℕ

abbrev pub names : String → SessionRoute → Bool
names session_id r = r.session_id == session_id

abbrev pub fresh_route : Entry → SessionRoute
fresh_route e = record {
  session_id = e.session_id;
  sandbox_id = e.sandbox_id;
  agent_id = e.agent_id;
  username = e.username;
  workspace_relpath = e.workspace_relpath;
  created_at = e.now;
  last_active_at = e.now;
}

-- INSERT … ON CONFLICT(session_id) DO UPDATE SET last_active_at … RETURNING *
unfoldable pub put_session : Entry → List SessionRoute → SessionRoute × List SessionRoute
put_session e rows = elim (find (names e.session_id) rows) [
  | none ↦ (fresh_route e, rows ++ fresh_route e ∷ [])
  | some r ↦ (
    record r { last_active_at = e.now },
    update_where (names e.session_id) (λ r. record r { last_active_at = e.now }) rows,
  )
]

abbrev pub bound_to : Entry → SessionRoute → Bool
bound_to e r =
    r.sandbox_id == e.sandbox_id
    && (r.agent_id == e.agent_id
        && (r.username == e.username && r.workspace_relpath == e.workspace_relpath))

-- The check after RETURNING, and the write to the sandbox.
abbrev pub bind_route :
    Entry → Registry → SessionRoute × List SessionRoute → Result SessionRoute × Registry
bind_route e db (route, rows) =
    let written : Registry = record db { sessions = rows } in
    if bound_to e route
    then (ok route, touch_sandbox e.sandbox_id e.touched written)
    else (err already_bound, written)

-- The `try` block after the savepoint. What was written before a raise is in the registry still.
unfoldable pub try_entry : Entry → Registry → Result SessionRoute × Registry
try_entry e db = elim (find (has_id e.sandbox_id) db.sandboxes) [
  | none ↦ (err unknown_sandbox, db)
  | some owner ↦
      if owner.agent_id == e.agent_id && owner.username == e.username
      then bind_route e db (put_session e db.sessions)
      else (err owner_mismatch, db)
]

-- ROLLBACK TO the savepoint after an error, and RELEASE of it.
abbrev pub after_savepoint :
    Registry → Result SessionRoute × Registry → Result SessionRoute × Registry
after_savepoint savepoint (ok route, db) = (ok route, db)
after_savepoint savepoint (err x, db) = (err x, savepoint)

-- The body of the loop.
unfoldable pub record_entry : Entry → Registry → Result SessionRoute × Registry
record_entry e db = after_savepoint db (try_entry e db)

abbrev pub keep_result :
    Result SessionRoute
    → List (Result SessionRoute) × Registry
    → List (Result SessionRoute) × Registry
keep_result r (rs, db) = (r ∷ rs, db)

unfoldable pub record_sessions_batch : List Entry → Registry → List (Result SessionRoute) × Registry
record_sessions_batch [] db = ([], db)
record_sessions_batch (e ∷ entries) db =
    let out = record_entry e db in keep_result out.0 (record_sessions_batch entries out.1)

-- The batch of one entry; an error that it holds is raised.
abbrev pub first_result : List (Result SessionRoute) × Registry → Result SessionRoute × Registry
first_result ([], db) = (err unknown_sandbox, db)
first_result (r ∷ rs, db) = (r, db)

unfoldable pub record_session : Entry → Registry → Result SessionRoute × Registry
unfolding record_sessions_batch
record_session e db = first_result (record_sessions_batch (e ∷ []) db)

unfoldable pub get_session_route : String → Registry → Option SessionRoute
get_session_route session_id db = find (names session_id) db.sessions

-- ORDER BY created_at
unfoldable pub insert_by_age : SessionRoute → List SessionRoute → List SessionRoute
insert_by_age r [] = r ∷ []
insert_by_age r (s ∷ rows) =
    if leb r.created_at s.created_at then r ∷ s ∷ rows else s ∷ insert_by_age r rows

unfoldable pub by_age : List SessionRoute → List SessionRoute
unfolding insert_by_age
by_age [] = []
by_age (r ∷ rows) = insert_by_age r (by_age rows)

unfoldable pub list_sessions_for_sandbox : String → Registry → List SessionRoute
unfolding by_age
list_sessions_for_sandbox sandbox_id db =
    by_age (select (λ (r : SessionRoute). r.sandbox_id == sandbox_id) db.sessions)
