-- ===== src/Registry/Batches.antt =====
-- The entries of `record_sessions_batch` of sandbox_manager/registry.py that succeed and that fail.
use opencode_cloud.Prelude.{
  Bool, true, false, List, [], ◌∷◌, suc, ◌≡◌, refl, ap, subst, if◌then◌else◌, length, inl, inr,
  arith, some, All, find, find_sound, find-append, find-update_where, eq_refl, Option-cases,
  Bool-cases, ◌&&◌, ◌==◌,
}
use opencode_cloud.Registry.Tables.{SessionRoute, Registry, Result, ok, err}
use opencode_cloud.Registry.Sandboxes.{has_id, touch_sandbox}
use opencode_cloud.Registry.Bindings.{batch-Bound}
use opencode_cloud.Registry.Sessions.{
  names, fresh_route, put_session, bound_to, get_session_route, Entry, try_entry, after_savepoint,
  record_entry, record_sessions_batch,
}

abbrev pub succeeded : Result SessionRoute → Bool
succeeded (ok r) = true
succeeded (err e) = false

-- The entries whose results are no errors.
abbrev pub accepted : List Entry → List (Result SessionRoute) → List Entry
accepted [] rs = []
accepted (e ∷ es) [] = []
accepted (e ∷ es) (r ∷ rs) = if succeeded r then e ∷ accepted es rs else accepted es rs

-- An entry that fails has left the registry as it was.
record_entry-kept :
    (e : Entry) (db : Registry)
    → succeeded (record_entry e db).0 ≡ false
    → (record_entry e db).1 ≡ db
unfolding record_entry
record_entry-kept e db h = by_cases (try_entry e db) h
  where
    by_cases :
        (r : Result SessionRoute × Registry)
        → succeeded (after_savepoint db r).0 ≡ false
        → (after_savepoint db r).1 ≡ db
    by_cases (ok route, db') h = absurd (ground arith)
    by_cases (err x, db') h = refl

-- The session of the entry is found, bound as the entry says.
abbrev pub Recorded : Entry → Registry → Type 0
Recorded e db =
    (r : SessionRoute) × (get_session_route e.session_id db ≡ some r) × (bound_to e r ≡ true)

put_session-found :
    (e : Entry) (rows : List SessionRoute)
    → find (names e.session_id) (put_session e rows).1 ≡ some (put_session e rows).0
unfolding put_session
put_session-found e rows = elim (Option-cases (find (names e.session_id) rows)) [
  | inl new ↦
      rw (new, put_session)
        (rw (find-append (names e.session_id) rows (fresh_route e ∷ []))
          (rw new (unfold find in rw (eq_refl e.session_id) refl)))
  | inr (r, old) ↦
      rw (old, put_session)
        (rw
          (find-update_where (names e.session_id) (names e.session_id)
            (λ (r : SessionRoute). record r { last_active_at = e.now }) rows (λ x. refl))
          (rw old (rw (find_sound (names e.session_id) rows r old) refl)))
]

record_entry-Recorded :
    (e : Entry) (db : Registry)
    → succeeded (record_entry e db).0 ≡ true
    → Recorded e (record_entry e db).1
unfolding record_entry try_entry
record_entry-Recorded e db h = elim (Option-cases (find (has_id e.sandbox_id) db.sandboxes)) [
  | inl missing ↦ absurd (ground (arith, rw (missing, record_entry, try_entry) at h))
  | inr (s, found) ↦ elim (Bool-cases (s.agent_id == e.agent_id && s.username == e.username)) [
    | inr other ↦ absurd (ground (arith, rw (found, record_entry, try_entry, other) at h))
    | inl own ↦ elim (Bool-cases (bound_to e (put_session e db.sessions).0)) [
      | inr differ ↦ absurd (ground (arith, rw (found, record_entry, try_entry, own, differ) at h))
      | inl same ↦
          rw (found, record_entry, try_entry)
            (rw own (
              rw same (
                (put_session e db.sessions).0,
                unfold get_session_route touch_sandbox in put_session-found e db.sessions,
                same,
              )))
    ]
  ]
]

Recorded-kept :
    (e : Entry) (entries : List Entry) (db : Registry)
    → Recorded e db
    → Recorded e (record_sessions_batch entries db).1
Recorded-kept e entries db (r, found, bound) =
    let (s, later, same) =
      batch-Bound e.session_id entries db r (r, found, (refl, refl, refl, refl, refl)) in
    (s, later, rw (same.0, same.1, same.2, same.3) bound)

-- The registry after a batch is the one that its successful entries alone would leave, each entry has
-- one result, and the session of each successful entry is found, bound to the sandbox, the agent, the
-- user and the path of the entry.
pub record_sessions_batch-accepted :
    (entries : List Entry) (db : Registry)
    → let (results, db') = record_sessions_batch entries db in
      (length results ≡ length entries)
      × ((record_sessions_batch (accepted entries results) db).1 ≡ db')
      × All (λ e. Recorded e db') (accepted entries results)
unfolding record_sessions_batch
record_sessions_batch-accepted [] db = (refl, refl, tt)
record_sessions_batch-accepted (e ∷ entries) db =
    let db1 = (record_entry e db).1 in
    let ih = record_sessions_batch-accepted entries db1 in
    let alone = accepted entries (record_sessions_batch entries db1).0 in
    elim (Bool-cases (succeeded (record_entry e db).0))
      as (λ x.
        let kept = if succeeded (record_entry e db).0 then e ∷ alone else alone in
        let after = (record_sessions_batch entries db1).1 in
        (suc (length (record_sessions_batch entries db1).0) ≡ suc (length entries))
        × ((record_sessions_batch kept db).1 ≡ after)
        × All (λ e. Recorded e after) kept) [
          | inl t ↦ rw t (
            ap suc ih.0,
            ih.1,
            (Recorded-kept e entries db1 (record_entry-Recorded e db t), ih.2),
          )
          | inr f ↦ rw f (
            ap suc ih.0,
            subst
                (λ (x : Registry).
                  (record_sessions_batch alone x).1 ≡ (record_sessions_batch entries db1).1)
                (record_entry-kept e db f) ih.1,
            ih.2,
          )
        ]
