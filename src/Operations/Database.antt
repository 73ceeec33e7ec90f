-- ===== src/Operations/Database.antt =====
-- operations.db: the rows of the tables that operations/src/store.py and
-- operations/src/load_test_store.py keep, and the errors of their methods. A time is a number.
use opencode_cloud.Prelude.{
  ℕ, String, Bool, true, false, ◌&&◌, Option, none, some, List, ◌≡◌, ◌↔◌, ◌⊎◌, refl, inl, inr, ◌==◌,
  opt_eq, opt_eq_iff, eq_iff, arith,
}
use opencode_cloud.Operations.LoadTables.{LoadTest, LoadUser}

-- An `HTTPException` with its status and detail, or an exception of the engine or of the language.
pub data Error : Type 0 where
  http : ℕ → String → Error
  integrity : Error
  crash : Error

pub data Result {ℓ} (A : Type ℓ) : Type ℓ where
  ok : A → Result A
  err : Error → Result A

pub Result-cases {ℓ} :
    {A : Type ℓ} (r : Result A) → ((a : A) × (r ≡ ok a)) ⊎ ((x : Error) × (r ≡ err x))
Result-cases (ok a) = inl (a, refl)
Result-cases (err x) = inr (x, refl)

pub data Status : Type 0 where
  queued running waiting applying needs_recovery interrupted succeeded failed cancelled : Status

-- {"queued", "running", "waiting", "applying", "needs_recovery", "interrupted"}
abbrev pub holding : Status → Bool
holding queued = true
holding running = true
holding waiting = true
holding applying = true
holding needs_recovery = true
holding interrupted = true
holding succeeded = false
holding failed = false
holding cancelled = false

-- The fields of a request. All but `request_id` are one text, their canonical JSON, since the
-- store only compares them.
pub record Body : Type 0 where
  pub request_id : Option String
  pub fields : String

-- `input` is the entry `_input` that the service adds: the request as it came.
pub record Payload : Type 0 where
  pub body : Body
  pub input : Option Body

abbrev pub body_eq : Body → Body → Bool
body_eq a b = opt_eq a.request_id b.request_id && a.fields == b.fields

abbrev pub input_eq : Option Body → Option Body → Bool
input_eq none none = true
input_eq (some a) (some b) = body_eq a b
input_eq _ _ = false

abbrev pub payload_eq : Payload → Payload → Bool
payload_eq a b = body_eq a.body b.body && input_eq a.input b.input

-- payload.get("_input", payload)
abbrev pub original : Payload → Payload
original p = elim p.input [ none ↦ p | some b ↦ record { body = b; input = none } ]

-- One entry of `attempts`.
pub record Attempt : Type 0 where
  pub status : Status
  pub checkpoint : String
  pub error : Option String
  pub execution_id : Option String
  pub updated : ℕ

-- A row of `jobs` with its document. `notes` are the entries that the store never reads, such as
-- `result`, `release_id` and `before`, under their names.
pub record Job : Type 0 where
  pub id : String
  pub kind : String
  pub target : String
  pub scope : Option String
  pub payload : Payload
  pub original_input : Payload
  pub request_id : String
  pub status : Status
  pub checkpoint : String
  pub created : ℕ
  pub updated : ℕ
  pub error : Option String
  pub retry_request_id : Option String
  pub execution_id : Option String
  pub attempts : List Attempt
  pub notes : List (String × String)

-- job.get("scope", job["target"])
abbrev pub scope_of : Job → String
scope_of j = elim j.scope [ none ↦ j.target | some s ↦ s ]

-- `has_load_tests` is whether the table of load tests has been created.
pub record Database : Type 0 where
  pub jobs : List Job
  pub has_load_tests : Bool
  pub load_tests : List LoadTest
  pub load_test_users : List LoadUser
  pub state : List (String × String)

pub body_eq_iff : (a b : Body) → (body_eq a b ≡ true) ↔ (a ≡ b)
body_eq_iff a b = ground (arith, opt_eq_iff a.request_id b.request_id, eq_iff a.fields b.fields)

pub input_eq_iff : (a b : Option Body) → (input_eq a b ≡ true) ↔ (a ≡ b)
input_eq_iff none none = (λ _. refl, λ _. refl)
input_eq_iff none (some b) = (λ h. cc, λ h. cc)
input_eq_iff (some a) none = (λ h. cc, λ h. cc)
input_eq_iff (some a) (some b) =
    (λ h. cc ((body_eq_iff a b).0 h), λ h. (body_eq_iff a b).1 (ground arith))

pub payload_eq_iff : (a b : Payload) → (payload_eq a b ≡ true) ↔ (a ≡ b)
payload_eq_iff a b = ground (arith, body_eq_iff a.body b.body, input_eq_iff a.input b.input)
