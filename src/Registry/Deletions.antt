-- ===== src/Registry/Deletions.antt =====
-- The rows that sandbox_manager/main.py deletes over the registry's connection: those of an agent that
-- is deleted, and those of a sandbox of a load test that is cleaned up. Each is one transaction.
use opencode_cloud.Prelude.{String, Bool, not, ◌&&◌, ◌==◌, select, any}
use opencode_cloud.Registry.Tables.{AgentRow, SandboxRecord, SessionRoute, Registry}
use opencode_cloud.Registry.Sandboxes.{has_id}

abbrev pub of_agent : String → SandboxRecord → Bool
of_agent aid s = s.agent_id == aid

-- DELETE FROM sessions WHERE …
abbrev pub drop_sessions : (SessionRoute → Bool) → Registry → Registry
drop_sessions q db = record db { sessions = select (λ r. not (q r)) db.sessions }

-- A row of `sandboxes` that is deleted and that the session refers to.
abbrev pub refers_to : (SandboxRecord → Bool) → SessionRoute → SandboxRecord → Bool
refers_to p r s = p s && s.sandbox_id == r.sandbox_id

-- DELETE FROM sandboxes WHERE …, with ON DELETE CASCADE of the sessions.
abbrev pub drop_sandboxes : (SandboxRecord → Bool) → Registry → Registry
drop_sandboxes p db = record db {
  sandboxes = select (λ s. not (p s)) db.sandboxes;
  sessions = select (λ r. not (any (refers_to p r) db.sandboxes)) db.sessions;
}

-- DELETE FROM agents WHERE agent_id=?, once no sandbox refers to the agent.
abbrev pub drop_agent : String → Registry → Registry
drop_agent aid db = record db {
  agents = select (λ (a : AgentRow). not (a.agent_id == aid)) db.agents;
}

unfoldable pub delete_agent : String → Registry → Registry
delete_agent aid db =
    drop_agent aid
      (drop_sandboxes (of_agent aid) (drop_sessions (λ (r : SessionRoute). r.agent_id == aid) db))

unfoldable pub delete_sandbox : String → Registry → Registry
delete_sandbox sid db =
    drop_sandboxes (has_id sid) (drop_sessions (λ (r : SessionRoute). r.sandbox_id == sid) db)
