-- ===== src/Registry/Tables.antt =====
-- The rows and tables of sandbox_manager/registry.py and its migration. A timestamp is a number:
-- `utc_now` prints UTC times whose text order is the order of the times.
use opencode_cloud.Prelude.{ℕ, String, Bool, Option, List, ◌≡◌, refl, ◌⊎◌, inl, inr}

pub record AgentRow : Type 0 where
  pub agent_id : String
  pub config_path : String
  pub image : String
  pub enabled : Bool
  pub updated_at : ℕ

pub record SandboxRecord : Type 0 where
  pub sandbox_id : String
  pub agent_id : String
  pub username : String
  pub container_id : Option String
  pub host_port : Option ℕ
  pub status : String
  pub image_version : String
  pub last_active_at : ℕ
  pub created_at : ℕ

pub record SessionRoute : Type 0 where
  pub session_id : String
  pub sandbox_id : String
  pub agent_id : String
  pub username : String
  pub workspace_relpath : String
  pub created_at : ℕ
  pub last_active_at : ℕ

pub record Registry : Type 0 where
  pub agents : List AgentRow
  pub sandboxes : List SandboxRecord
  pub sessions : List SessionRoute

-- What a write can raise: `KeyError`, `ValueError`, or the engine's `IntegrityError`.
pub data Error : Type 0 where
  unknown_sandbox owner_mismatch already_bound integrity : Error

pub data Result {ℓ} (A : Type ℓ) : Type ℓ where
  ok : A → Result A
  err : Error → Result A

pub Result-cases {ℓ} :
    {A : Type ℓ} (r : Result A) → ((a : A) × (r ≡ ok a)) ⊎ ((x : Error) × (r ≡ err x))
Result-cases (ok a) = inl (a, refl)
Result-cases (err x) = inr (x, refl)

-- A property of the registry that a result carries, if it carries one.
abbrev pub OnOk {ℓ} : {A : Type ℓ} → (Registry → Type 0) → Result (A × Registry) → Type 0
OnOk P (ok (a, db)) = P db
OnOk P (err e) = Unit
