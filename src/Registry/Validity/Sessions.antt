-- ===== src/Registry/Validity/Sessions.antt =====
-- The session writes of sandbox_manager/registry.py and the validity of the registry.
use opencode_cloud.Prelude.{
  true, ◌&&◌, List, [], ◌∷◌, ◌≡◌, ◌==◌, refl, arith, find, any, All-append, All-update_where,
  find_sound, find-none, any-find, Distinct-update_where, Distinct-append, Bool-cases, Option-cases,
  inl, inr,
}
use opencode_cloud.Registry.Tables.{SandboxRecord, Registry}
use opencode_cloud.Registry.Sandboxes.{has_id}
use opencode_cloud.Registry.Sessions.{
  Entry, names, fresh_route, put_session, bound_to, try_entry, after_savepoint, record_entry,
  record_sessions_batch,
}
use opencode_cloud.Registry.Validity.{same_session, owns, IsValid}
use opencode_cloud.Registry.Validity.Writes.{touch_sandbox-IsValid}

-- A route that is inserted, or refreshed, is owned by the owner of its sandbox.
put_session-IsValid :
    (e : Entry) (db : Registry)
    → any (owns (fresh_route e)) db.sandboxes ≡ true
    → IsValid db
    → IsValid (record db { sessions = (put_session e db.sessions).1 })
unfolding put_session
put_session-IsValid e db owned v = elim (Option-cases (find (names e.session_id) db.sessions)) [
  | inl new ↦
      rw (new, put_session)
        (record {
          ids = v.ids;
          owners = v.owners;
          known = v.known;
          ports = v.ports;
          session_ids =
              Distinct-append same_session db.sessions (fresh_route e) v.session_ids
                (find-none _ db.sessions new);
          bound =
              All-append (λ r. any (owns r) db.sandboxes ≡ true) db.sessions (fresh_route e ∷ [])
                v.bound (owned, tt);
        })
  | inr (r, old) ↦
      rw (old, put_session)
        (record {
          ids = v.ids;
          owners = v.owners;
          known = v.known;
          ports = v.ports;
          session_ids =
              Distinct-update_where same_session _ _ db.sessions (λ x y. refl) (λ x y. refl)
                v.session_ids;
          bound =
              All-update_where (λ r. any (owns r) db.sandboxes ≡ true) _ _ db.sessions (λ r h. h)
                v.bound;
        })
]

owns-fresh_route :
    (e : Entry) (s : SandboxRecord)
    → has_id e.sandbox_id s ≡ true
    → (s.agent_id == e.agent_id && s.username == e.username) ≡ true
    → owns (fresh_route e) s ≡ true
owns-fresh_route e s h k = ground arith

try_entry-IsValid :
    (e : Entry) (db : Registry) → IsValid db → IsValid (after_savepoint db (try_entry e db)).1
unfolding try_entry
try_entry-IsValid e db v = elim (Option-cases (find (has_id e.sandbox_id) db.sandboxes)) [
  | inl none_found ↦ rw (none_found, try_entry) v
  | inr (s, found) ↦ elim (Bool-cases (s.agent_id == e.agent_id && s.username == e.username)) [
    | inr other ↦ rw (found, try_entry) (rw other v)
    | inl own ↦
        let owned : any (owns (fresh_route e)) db.sandboxes ≡ true =
          any-find _ _ db.sandboxes s found
            (owns-fresh_route e s (find_sound _ db.sandboxes s found) own) in
        rw (found, try_entry)
          (rw own (elim (Bool-cases (bound_to e (put_session e db.sessions).0)) [
            | inl same ↦ rw same (touch_sandbox-IsValid _ _ _ (put_session-IsValid e db owned v))
            | inr differ ↦ rw differ v
          ]))
  ]
]

pub record_sessions_batch-IsValid :
    (entries : List Entry) (db : Registry)
    → IsValid db
    → IsValid (record_sessions_batch entries db).1
unfolding record_sessions_batch
record_sessions_batch-IsValid [] db v = v
record_sessions_batch-IsValid (e ∷ entries) db v =
    record_sessions_batch-IsValid entries (record_entry e db).1
      (unfold record_entry in try_entry-IsValid e db v)
