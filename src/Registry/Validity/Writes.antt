-- ===== src/Registry/Validity/Writes.antt =====
-- The agent and sandbox writes of sandbox_manager/registry.py and the validity of the registry.
use opencode_cloud.Prelude.{
  ℕ, String, Bool, true, false, none, List, [], ◌∷◌, ◌++◌, ◌≡◌, refl, arith, eq_iff, find, any,
  All-append, All-map, find-none, any-false, any-append, Distinct-append, Bool-cases, Option-cases,
  inl, inr,
}
use opencode_cloud.Registry.Tables.{AgentRow, SandboxRecord, Registry}
use opencode_cloud.Registry.Sandboxes.{
  unchanged, put_agent, write_agent, upsert_agent, owned_by, has_id, valid_port, SandboxValues,
  fresh_row, refreshed, upsert_sandbox, mark_sandbox_status, touch_sandbox, set_health_status,
  mark_missing,
}
use opencode_cloud.Registry.Tables.{OnOk}
use opencode_cloud.Registry.Validity.{same_id, same_owner, owns, is_agent, IsValid, update-IsValid}

pub mark_sandbox_status-IsValid :
    (sid status : String) (now : ℕ) (db : Registry)
    → IsValid db
    → IsValid (mark_sandbox_status sid status now db).1
unfolding mark_sandbox_status
mark_sandbox_status-IsValid sid status now db v =
    update-IsValid _ _ db (λ s. refl) (λ s. refl) (λ s. refl) (λ s h. h) v

pub touch_sandbox-IsValid :
    (sid : String) (now : ℕ) (db : Registry) → IsValid db → IsValid (touch_sandbox sid now db)
unfolding touch_sandbox
touch_sandbox-IsValid sid now db v =
    update-IsValid _ _ db (λ s. refl) (λ s. refl) (λ s. refl) (λ s h. h) v

pub set_health_status-IsValid :
    (sid status : String) (db : Registry) → IsValid db → IsValid (set_health_status sid status db)
unfolding set_health_status
set_health_status-IsValid sid status db v =
    update-IsValid _ _ db (λ s. refl) (λ s. refl) (λ s. refl) (λ s h. h) v

pub mark_missing-IsValid :
    (ids : List String) (now : ℕ) (db : Registry) → IsValid db → IsValid (mark_missing ids now db)
unfolding mark_missing
mark_missing-IsValid [] now db v = v
mark_missing-IsValid (sid ∷ ids) now db v =
    mark_missing-IsValid ids now _
      (update-IsValid _ _ db (λ s. refl) (λ s. refl) (λ s. refl) (λ s h. h) v)

any-put_agent :
    (aid : String) (new : AgentRow) (rows : List AgentRow)
    → any (is_agent aid) rows ≡ true
    → any (is_agent aid) (put_agent new rows) ≡ true
unfolding any put_agent
any-put_agent aid new [] h = ground arith
any-put_agent aid new (row ∷ rows) h = ground (
  arith,
  any-put_agent aid new rows,
  eq_iff row.agent_id new.agent_id,
  eq_iff row.agent_id aid,
  eq_iff new.agent_id aid,
)

write_agent-IsValid : (row : AgentRow) (db : Registry) → IsValid db → IsValid (write_agent row db)
write_agent-IsValid row db v = record {
  ids = v.ids;
  owners = v.owners;
  known =
      All-map (λ s. any (is_agent s.agent_id) db.agents ≡ true)
        (λ s. any (is_agent s.agent_id) (put_agent row db.agents) ≡ true) db.sandboxes
        (λ s h. any-put_agent s.agent_id row db.agents h) v.known;
  ports = v.ports;
  session_ids = v.session_ids;
  bound = v.bound;
}

pub upsert_agent-IsValid :
    (aid path image : String) (enabled : Bool) (now : ℕ) (db : Registry)
    → IsValid db
    → IsValid (upsert_agent aid path image enabled now db)
unfolding upsert_agent
upsert_agent-IsValid aid path image enabled now db v =
    elim (Option-cases (find (is_agent aid) db.agents)) [
      | inl e ↦ rw (e, upsert_agent) (write_agent-IsValid _ db v)
      | inr (current, e) ↦ elim (Bool-cases (unchanged path image enabled current)) [
        | inl t ↦ rw (e, upsert_agent) (rw t v)
        | inr t ↦ rw (e, upsert_agent) (rw t (write_agent-IsValid _ db v))
      ]
    ]

-- The row that an upsert inserts: its id and its owner are new, and its agent is known.
insert-IsValid :
    (s : SandboxRecord) (db : Registry)
    → find (owned_by s.agent_id s.username) db.sandboxes ≡ none
    → any (has_id s.sandbox_id) db.sandboxes ≡ false
    → any (is_agent s.agent_id) db.agents ≡ true
    → valid_port s.host_port ≡ true
    → IsValid db
    → IsValid (record db { sandboxes = db.sandboxes ++ s ∷ [] })
insert-IsValid s db owner id agent port v = record {
  ids = Distinct-append same_id db.sandboxes s v.ids (any-false _ db.sandboxes id);
  owners = Distinct-append same_owner db.sandboxes s v.owners (find-none _ db.sandboxes owner);
  known =
      All-append (λ s. any (is_agent s.agent_id) db.agents ≡ true) db.sandboxes (s ∷ []) v.known
        (agent, tt);
  ports = All-append (λ s. valid_port s.host_port ≡ true) db.sandboxes (s ∷ []) v.ports (port, tt);
  session_ids = v.session_ids;
  bound =
      All-map (λ r. any (owns r) db.sandboxes ≡ true)
        (λ r. any (owns r) (db.sandboxes ++ s ∷ []) ≡ true) db.sessions
        (λ r h. any-append (owns r) db.sandboxes (s ∷ []) h) v.bound;
}

pub upsert_sandbox-IsValid :
    (w : SandboxValues) (now : ℕ) (db : Registry)
    → IsValid db
    → OnOk IsValid (upsert_sandbox w now db)
unfolding upsert_sandbox
upsert_sandbox-IsValid w now db v = elim (Bool-cases (valid_port w.host_port)) [
  | inr bad ↦ rw (bad, upsert_sandbox) tt
  | inl good ↦ elim (Option-cases (find (owned_by w.agent_id w.username) db.sandboxes)) [
    | inr (row, e) ↦
        rw (good, e, upsert_sandbox)
          (update-IsValid _ (refreshed w now) db (λ s. refl) (λ s. refl) (λ s. refl) (λ s _. good)
            v)
    | inl e ↦ elim (Bool-cases (any (has_id w.sandbox_id) db.sandboxes)) [
      | inl taken ↦ rw (good, e, upsert_sandbox) (rw taken tt)
      | inr free ↦ elim (Bool-cases (any (is_agent w.agent_id) db.agents)) [
        | inr stranger ↦ rw (good, e, upsert_sandbox) (rw free (rw stranger tt))
        | inl agent ↦
            rw (good, e, upsert_sandbox)
              (rw free (rw agent (insert-IsValid (fresh_row w now) db e free agent good v)))
      ]
    ]
  ]
]
