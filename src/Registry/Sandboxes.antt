-- ===== src/Registry/Sandboxes.antt =====
-- Agents and sandboxes of sandbox_manager/registry.py: the upserts, the status writes and
-- `reconcile`. A write that raises leaves its transaction rolled back.
use opencode_cloud.Prelude.{
  ℕ, String, Bool, true, false, not, ◌&&◌, ◌||◌, Option, none, some, List, [], ◌∷◌, ◌++◌, ◌==◌, leb,
  eqb, if◌then◌else◌, length, find, select, update_where, any,
}
use opencode_cloud.Registry.Tables.{AgentRow, SandboxRecord, Registry, integrity, Result, ok, err}

abbrev bool_eq : Bool → Bool → Bool
bool_eq true b = b
bool_eq false b = not b

-- tuple(current) == (config_path, image, int(enabled))
unfoldable pub unchanged : String → String → Bool → AgentRow → Bool
unchanged config_path image enabled row =
    row.config_path == config_path && row.image == image && bool_eq row.enabled enabled

-- a IS NOT b, on two columns that are not null
abbrev pub is_not : String → String → Bool
is_not a b = not (a == b)

-- The WHERE of the update: agents.config_path IS NOT excluded.config_path OR …
unfoldable pub where_differs : AgentRow → AgentRow → Bool
where_differs row excluded =
    is_not row.config_path excluded.config_path
    || is_not row.image excluded.image
    || not (bool_eq row.enabled excluded.enabled)

-- INSERT … ON CONFLICT(agent_id) DO UPDATE … WHERE a column differs.
unfoldable pub put_agent : AgentRow → List AgentRow → List AgentRow
unfolding where_differs
put_agent new [] = new ∷ []
put_agent new (row ∷ rows) =
    if row.agent_id == new.agent_id
    then (if where_differs row new then new else row) ∷ rows
    else row ∷ put_agent new rows

abbrev pub write_agent : AgentRow → Registry → Registry
write_agent row db = record db { agents = put_agent row db.agents }

unfoldable pub upsert_agent : String → String → String → Bool → ℕ → Registry → Registry
upsert_agent agent_id config_path image enabled now db =
    let write =
      write_agent
        (record {
          agent_id = agent_id;
          config_path = config_path;
          image = image;
          enabled = enabled;
          updated_at = now;
        })
        db in
    elim (find (λ (row : AgentRow). row.agent_id == agent_id) db.agents) [
      | none ↦ write
      | some current ↦ if unchanged config_path image enabled current then db else write
    ]

abbrev pub owned_by : String → String → SandboxRecord → Bool
owned_by agent_id username row = row.agent_id == agent_id && row.username == username

abbrev pub has_id : String → SandboxRecord → Bool
has_id sandbox_id row = row.sandbox_id == sandbox_id

unfoldable pub get_sandbox : String → String → Registry → Option SandboxRecord
get_sandbox agent_id username db = find (owned_by agent_id username) db.sandboxes

-- host_port IS NULL OR host_port BETWEEN 1 AND 65535
abbrev pub valid_port : Option ℕ → Bool
valid_port none = true
valid_port (some p) = leb 1 p && leb p 65535

pub record SandboxValues : Type 0 where
  pub sandbox_id : String
  pub agent_id : String
  pub username : String
  pub container_id : Option String
  pub host_port : Option ℕ
  pub status : String
  pub image_version : String

-- The row that INSERT would add.
abbrev pub fresh_row : SandboxValues → ℕ → SandboxRecord
fresh_row v now = record {
  sandbox_id = v.sandbox_id;
  agent_id = v.agent_id;
  username = v.username;
  container_id = v.container_id;
  host_port = v.host_port;
  status = v.status;
  image_version = v.image_version;
  last_active_at = now;
  created_at = now;
}

-- ON CONFLICT(agent_id, username) DO UPDATE SET …
abbrev pub refreshed : SandboxValues → ℕ → SandboxRecord → SandboxRecord
refreshed v now row = record row {
  container_id = v.container_id;
  host_port = v.host_port;
  status = v.status;
  image_version = v.image_version;
  last_active_at = now;
}

-- `now` is `last_active_at or utc_now()`. The conflict on (agent_id, username) is looked for before
-- the primary key, as the engine does for the target of an upsert.
unfoldable pub upsert_sandbox : SandboxValues → ℕ → Registry → Result (SandboxRecord × Registry)
upsert_sandbox v now db =
    if not (valid_port v.host_port)
    then err integrity
    else elim (find (owned_by v.agent_id v.username) db.sandboxes) [
      | some row ↦ ok (
        refreshed v now row,
        record db {
          sandboxes = update_where (owned_by v.agent_id v.username) (refreshed v now) db.sandboxes;
        },
      )
      | none ↦
          if any (has_id v.sandbox_id) db.sandboxes
          then err integrity
          else if any (λ (a : AgentRow). a.agent_id == v.agent_id) db.agents
          then ok (fresh_row v now, record db { sandboxes = db.sandboxes ++ fresh_row v now ∷ [] })
          else err integrity
    ]

-- UPDATE sandboxes SET … WHERE sandbox_id=?
abbrev pub update_sandbox : String → (SandboxRecord → SandboxRecord) → Registry → Registry
update_sandbox sandbox_id f db = record db {
  sandboxes = update_where (has_id sandbox_id) f db.sandboxes;
}

unfoldable pub mark_sandbox_status : String → String → ℕ → Registry → Bool × Registry
mark_sandbox_status sandbox_id status now db = (
  eqb (length (select (has_id sandbox_id) db.sandboxes)) 1,
  update_sandbox sandbox_id (λ row. record row { status = status; last_active_at = now }) db,
)

unfoldable pub touch_sandbox : String → ℕ → Registry → Registry
touch_sandbox sandbox_id now db =
    update_sandbox sandbox_id (λ row. record row { last_active_at = now }) db

unfoldable pub set_health_status : String → String → Registry → Registry
set_health_status sandbox_id status db =
    update_sandbox sandbox_id (λ row. record row { status = status }) db

abbrev pub keep_id : String → Registry × Result (List String) → Registry × Result (List String)
keep_id sid (db, ok ids) = (db, ok (sid ∷ ids))
keep_id sid (db, err e) = (db, err e)

-- The first loop of `reconcile`. Each upsert is a transaction of its own: what went before a raise
-- stays written.
unfoldable pub observe : List (SandboxValues × ℕ) → Registry → Registry × Result (List String)
observe [] db = (db, ok [])
observe ((v, at) ∷ rest) db = elim (upsert_sandbox v at db) [
  | err e ↦ (db, err e)
  | ok (row, db') ↦ keep_id row.sandbox_id (observe rest db')
]

abbrev pub member : String → List String → Bool
member s = any (λ t. t == s)

-- The ids of the rows that were not observed.
unfoldable pub missing_ids : List String → List SandboxRecord → List String
missing_ids observed [] = []
missing_ids observed (row ∷ rows) =
    let rest = missing_ids observed rows in
    if member row.sandbox_id observed then rest else row.sandbox_id ∷ rest

-- executemany("UPDATE sandboxes SET status='missing', last_active_at=? WHERE sandbox_id=?")
unfoldable pub mark_missing : List String → ℕ → Registry → Registry
mark_missing [] now db = db
mark_missing (sid ∷ ids) now db =
    mark_missing ids now
      (update_sandbox sid (λ row. record row { status = "missing"; last_active_at = now }) db)

-- The second transaction of `reconcile`, over the ids that were observed.
abbrev pub sweep : ℕ → Registry × Result (List String) → Registry × Result (List String)
sweep now (db, err e) = (db, err e)
sweep now (db, ok ids) =
    let missing = missing_ids ids db.sandboxes in (mark_missing missing now db, ok missing)

unfoldable pub reconcile : List (SandboxValues × ℕ) → ℕ → Registry → Registry × Result (List String)
reconcile observed now db = sweep now (observe observed db)
