-- ===== src/Registry/Upserts.antt =====
-- The upserts of sandbox_manager/registry.py: what they return, what they keep, and what the early
-- return of `upsert_agent` saves.
use opencode_cloud.Prelude.{
  ℕ, String, Bool, true, false, Option, none, some, List, [], ◌∷◌, ◌++◌, ◌≡◌, ◌≢◌, ◌⊎◌, ◌==◌, refl,
  ap, sym, arith, eq_iff, eq_refl, find, update_where, any, find_sound, find-update_where,
  find-append, Bool-cases, Option-cases, inl, inr,
}
use opencode_cloud.Registry.Tables.{AgentRow, SandboxRecord, Registry, ok}
use opencode_cloud.Registry.Sandboxes.{
  unchanged, where_differs, put_agent, write_agent, upsert_agent, owned_by, has_id, valid_port,
  SandboxValues, fresh_row, refreshed, upsert_sandbox, get_sandbox,
}

-- A row that the early test takes for unchanged is one that the WHERE leaves.
where_differs-unchanged :
    (new row : AgentRow)
    → unchanged new.config_path new.image new.enabled row ≡ true
    → where_differs row new ≡ false
unfolding where_differs unchanged
where_differs-unchanged new row u = ground arith

put_agent-unchanged :
    (new : AgentRow) (rows : List AgentRow) (current : AgentRow)
    → find (λ (row : AgentRow). row.agent_id == new.agent_id) rows ≡ some current
    → unchanged new.config_path new.image new.enabled current ≡ true
    → put_agent new rows ≡ rows
unfolding find put_agent
put_agent-unchanged new [] current e u = absurd (ground arith)
put_agent-unchanged new (row ∷ rows) current e u =
    elim (Bool-cases (row.agent_id == new.agent_id)) [
      | inl t ↦
          let same : row ≡ current = ground arith in
          rw t (rw same (rw (where_differs-unchanged new current u) refl))
      | inr t ↦ rw t (ap (◌∷◌ row) (put_agent-unchanged new rows current (ground arith) u))
    ]

-- The read before the write of `upsert_agent` changes nothing but the locking: the registry is the
-- one that the INSERT … ON CONFLICT alone would leave, for every agent, known or not.
pub upsert_agent-eq-write_agent :
    (aid path image : String) (enabled : Bool) (now : ℕ) (db : Registry)
    → upsert_agent aid path image enabled now db
      ≡ write_agent
          (record {
            agent_id = aid;
            config_path = path;
            image = image;
            enabled = enabled;
            updated_at = now;
          })
          db
unfolding upsert_agent
upsert_agent-eq-write_agent aid path image enabled now db =
    elim (Option-cases (find (λ (row : AgentRow). row.agent_id == aid) db.agents)) [
      | inl e ↦ rw (e, upsert_agent)
      | inr (current, e) ↦ elim (Bool-cases (unchanged path image enabled current)) [
        | inr t ↦ rw (e, upsert_agent) (rw t refl)
        | inl t ↦
            rw (e, upsert_agent)
              (rw t (
                ap (λ (rows : List AgentRow). record db { agents = rows })
                  (sym (put_agent-unchanged _ db.agents current e t))))
      ]
    ]

-- An upsert stores the values that it was given, under the id and the age of the row that the user
-- has already, and under its own for a new row.
abbrev pub Identity : SandboxValues → ℕ → Option SandboxRecord → SandboxRecord → Type 0
Identity v now none row = (row.sandbox_id ≡ v.sandbox_id) × (row.created_at ≡ now)
Identity v now (some old) row =
    (row.sandbox_id ≡ old.sandbox_id) × (row.created_at ≡ old.created_at)

pub record Upserted (v : SandboxValues) (now : ℕ) (db : Registry) (row : SandboxRecord)
    (db' : Registry) : Type 0 where
  pub found : get_sandbox v.agent_id v.username db' ≡ some row
  pub owner : (row.agent_id ≡ v.agent_id) × (row.username ≡ v.username)
  pub container : (row.container_id ≡ v.container_id) × (row.host_port ≡ v.host_port)
  pub values : (row.status ≡ v.status) × (row.image_version ≡ v.image_version)
  pub clock : row.last_active_at ≡ now
  pub identity : Identity v now (get_sandbox v.agent_id v.username db) row
  pub rest : (db'.agents ≡ db.agents) × (db'.sessions ≡ db.sessions)

module _ (v : SandboxValues) (now : ℕ) (db : Registry) (good : valid_port v.host_port ≡ true) where
  upsert_old :
      (old : SandboxRecord)
      → get_sandbox v.agent_id v.username db ≡ some old
      → let db' = record db {
        sandboxes = update_where (owned_by v.agent_id v.username) (refreshed v now) db.sandboxes;
      } in
        (upsert_sandbox v now db ≡ ok (refreshed v now old, db'))
        × Upserted v now db (refreshed v now old) db'
  unfolding get_sandbox upsert_sandbox
  upsert_old old e =
      let mine = find_sound (owned_by v.agent_id v.username) db.sandboxes old e in
      (
        rw (good, e, upsert_sandbox) refl,
        record {
          found =
              rw
                (find-update_where (owned_by v.agent_id v.username) (owned_by v.agent_id v.username)
                  (refreshed v now) db.sandboxes (λ x. refl))
                (rw e (rw mine refl));
          owner = ground (arith, eq_iff old.agent_id v.agent_id, eq_iff old.username v.username);
          container = (refl, refl);
          values = (refl, refl);
          clock = refl;
          identity = rw (e, get_sandbox) (refl, refl);
          rest = (refl, refl);
        },
      )

  upsert_new :
      get_sandbox v.agent_id v.username db ≡ none
      → any (has_id v.sandbox_id) db.sandboxes ≡ false
      → any (λ (a : AgentRow). a.agent_id == v.agent_id) db.agents ≡ true
      → let db' = record db { sandboxes = db.sandboxes ++ fresh_row v now ∷ [] } in
        (upsert_sandbox v now db ≡ ok (fresh_row v now, db'))
        × Upserted v now db (fresh_row v now) db'
  unfolding get_sandbox upsert_sandbox
  upsert_new e free agent = (
    rw (good, e, upsert_sandbox) (rw free (rw agent refl)),
    record {
      found =
          rw (find-append (owned_by v.agent_id v.username) db.sandboxes (fresh_row v now ∷ []))
            (rw e (unfold find in rw (eq_refl v.agent_id, eq_refl v.username) refl));
      owner = (refl, refl);
      container = (refl, refl);
      values = (refl, refl);
      clock = refl;
      identity = rw (e, get_sandbox) (refl, refl);
      rest = (refl, refl);
    },
  )

-- With a port in range, an upsert of a user's sandbox succeeds if the user has a sandbox already, or
-- if the id is new and the agent is known; the user is then found with the values given, under the
-- old id and age where there was a sandbox, and agents and sessions are as they were.
pub upsert_sandbox-Upserted :
    (v : SandboxValues) (now : ℕ) (db : Registry)
    → valid_port v.host_port ≡ true
    → (get_sandbox v.agent_id v.username db ≢ none)
      ⊎ ((any (has_id v.sandbox_id) db.sandboxes ≡ false)
          × (any (λ (a : AgentRow). a.agent_id == v.agent_id) db.agents ≡ true))
    → (row : SandboxRecord) × (db' : Registry) × (upsert_sandbox v now db ≡ ok (row, db'))
      × Upserted v now db row db'
upsert_sandbox-Upserted v now db good can =
    elim (Option-cases (get_sandbox v.agent_id v.username db)) [
      | inr (old, e) ↦ let (eq, up) = upsert_old v now db good old e in (_, _, eq, up)
      | inl e ↦ elim can [
        | inl h ↦ absurd (h e)
        | inr (free, agent) ↦ let (eq, up) = upsert_new v now db good e free agent in (_, _, eq, up)
      ]
    ]
