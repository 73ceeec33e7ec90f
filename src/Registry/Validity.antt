-- ===== src/Registry/Validity.antt =====
-- What the registry of sandbox_manager/registry.py keeps: keys, foreign keys, ports, and that each
-- session is owned by the owner of its sandbox.
pub mod Writes
pub mod Sessions
pub mod Deletions
pub mod Histories
use opencode_cloud.Prelude.{
  ℕ, String, Bool, true, false, ◌&&◌, Option, none, some, List, [], ◌∷◌, ◌++◌, ◌≡◌, ◌==◌, refl,
  subst, arith, eq_iff, if◌then◌else◌, find, update_where, any, All, Distinct, All-append,
  All-update_where, All-map, All-find, find_sound, find-none, any-false, any-find, any-append,
  any-update_where, Distinct-update_where, Distinct-append, Bool-cases, Option-cases, inl, inr,
}
use opencode_cloud.Registry.Tables.{
  AgentRow, SandboxRecord, SessionRoute, Registry, Result, ok, err,
}
use opencode_cloud.Registry.Sandboxes.{
  unchanged, put_agent, write_agent, upsert_agent, owned_by, has_id, valid_port, SandboxValues,
  fresh_row, refreshed, upsert_sandbox, update_sandbox, mark_sandbox_status, touch_sandbox,
  set_health_status, observe, keep_id, mark_missing, missing_ids, sweep, reconcile,
}
use opencode_cloud.Registry.Sessions.{
  Entry, names, fresh_route, put_session, bound_to, bind_route, record_entry, keep_result,
  record_sessions_batch,
}

abbrev pub same_id : SandboxRecord → SandboxRecord → Bool
same_id a b = a.sandbox_id == b.sandbox_id

abbrev pub same_owner : SandboxRecord → SandboxRecord → Bool
same_owner a b = a.agent_id == b.agent_id && a.username == b.username

abbrev pub same_session : SessionRoute → SessionRoute → Bool
same_session a b = a.session_id == b.session_id

abbrev pub owns : SessionRoute → SandboxRecord → Bool
owns r s = s.sandbox_id == r.sandbox_id && (s.agent_id == r.agent_id && s.username == r.username)

abbrev pub is_agent : String → AgentRow → Bool
is_agent aid a = a.agent_id == aid

pub record IsValid (db : Registry) : Type 0 where
  pub ids : Distinct same_id db.sandboxes
  pub owners : Distinct same_owner db.sandboxes
  pub known : All (λ s. any (is_agent s.agent_id) db.agents ≡ true) db.sandboxes
  pub ports : All (λ s. valid_port s.host_port ≡ true) db.sandboxes
  pub session_ids : Distinct same_session db.sessions
  pub bound : All (λ r. any (owns r) db.sandboxes ≡ true) db.sessions

-- A write to sandboxes that leaves ids and owners alone and stores a valid port.
pub update-IsValid :
    (p : SandboxRecord → Bool) (f : SandboxRecord → SandboxRecord) (db : Registry)
    → ((s : SandboxRecord) → (f s).sandbox_id ≡ s.sandbox_id)
    → ((s : SandboxRecord) → (f s).agent_id ≡ s.agent_id)
    → ((s : SandboxRecord) → (f s).username ≡ s.username)
    → ((s : SandboxRecord) → valid_port s.host_port ≡ true → valid_port (f s).host_port ≡ true)
    → IsValid db
    → IsValid (record db { sandboxes = update_where p f db.sandboxes })
update-IsValid p f db id agent user port v = record {
  ids = Distinct-update_where same_id p f db.sandboxes (λ x y. rw (id y)) (λ x y. rw (id x)) v.ids;
  owners =
      Distinct-update_where same_owner p f db.sandboxes (λ x y. rw (agent y, user y))
        (λ x y. rw (agent x, user x)) v.owners;
  known =
      All-update_where (λ s. any (is_agent s.agent_id) db.agents ≡ true) p f db.sandboxes
        (λ s h. rw (agent s) h) v.known;
  ports = All-update_where (λ s. valid_port s.host_port ≡ true) p f db.sandboxes port v.ports;
  session_ids = v.session_ids;
  bound =
      All-map (λ r. any (owns r) db.sandboxes ≡ true)
        (λ r. any (owns r) (update_where p f db.sandboxes) ≡ true) db.sessions
        (λ r h. rw (any-update_where p (owns r) f db.sandboxes (λ s. rw (id s, agent s, user s))) h)
        v.bound;
}
