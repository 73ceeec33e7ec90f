-- ===== src/Operations/RecoveryPolicy.antt =====
-- operations/src/recovery.py: the policy, the recovery state of a sandbox, what a pass observes of it,
-- and the decisions that depend on these alone.
use opencode_cloud.Prelude.{
  ℕ, zero, suc, ◌-◌, String, Bool, true, false, not, ◌&&◌, ◌||◌, Option, none, some, List, [], ◌∷◌,
  opt_eq, leb, ltb, eqb, truthy, if◌then◌else◌, length, select, any, lookup,
}
use opencode_cloud.Operations.Database.{Database}

pub record RecoveryPolicy : Type 0 where
  pub enabled : Bool
  pub failure_threshold : ℕ
  pub max_attempts : ℕ
  pub window_seconds : ℕ
  pub backoff_seconds : List ℕ
  pub stable_seconds : ℕ
  pub agent_enabled : List (String × Bool)
  pub max_parallel_recoveries : ℕ

abbrev pub between : ℕ → ℕ → ℕ → Bool
between lo hi n = leb lo n && leb n hi

-- The bounds of the fields, and of each backoff.
unfoldable pub valid_policy : RecoveryPolicy → Bool
valid_policy p =
    between 1 20 p.failure_threshold
    && (between 1 10 p.max_attempts
        && (between 60 86400 p.window_seconds
            && (between 1 10 (length p.backoff_seconds)
                && (not (any (λ v. not (between 1 3600 v)) p.backoff_seconds)
                    && (between 30 3600 p.stable_seconds
                        && between 1 2 p.max_parallel_recoveries)))))

-- The document `recovery:<sandbox>`. An entry that is missing reads as its default.
pub record RecoveryState : Type 0 where
  pub failures : ℕ
  pub healthy_since : Option ℕ
  pub reason : Option String
  pub execution : Option String
  pub container_id : Option String
  pub activity_generation : Option ℕ
  pub attempts : List ℕ
  pub next_attempt : ℕ

abbrev pub initial : RecoveryState
initial = record {
  failures = 0;
  healthy_since = none;
  reason = none;
  execution = none;
  container_id = none;
  activity_generation = none;
  attempts = [];
  next_attempt = 0;
}

-- One sandbox as it is listed, with the detail that is asked for it, the readings of the clock, and
-- what names the job that may be submitted. `meanwhile` is what the other work of the service does to
-- the database while the detail is awaited; the state of the sandbox is written by `tick` alone.
pub record Observation : Type 0 where
  pub agent_id : String
  pub sandbox_id : String
  pub username : String
  pub container_id : Option String
  pub status : String
  pub detail_execution : Option String
  pub detail_generation : Option ℕ
  pub now : ℕ
  pub request_id : String
  pub fields : String
  pub job_id : String
  pub meanwhile : Database → Database

abbrev pub has_container : Observation → Bool
has_container o = truthy o.container_id

abbrev pub agent_allowed : RecoveryPolicy → String → Bool
agent_allowed policy aid = elim (lookup aid policy.agent_enabled) [ none ↦ true | some b ↦ b ]

-- state.get("healthy_since") or now
abbrev pub since : RecoveryState → ℕ → ℕ
since s now = elim s.healthy_since [ none ↦ now | some t ↦ if eqb t 0 then now else t ]

-- The changes of a sandbox that is ready.
unfoldable pub healthy : RecoveryPolicy → Observation → RecoveryState → RecoveryState
healthy policy o s =
    let stable = leb policy.stable_seconds (o.now - since s o.now) in
    record s {
      failures = 0;
      healthy_since = some (since s o.now);
      reason = none;
      execution = elim o.detail_execution [ none ↦ some "unknown" | some x ↦ some x ];
      container_id = o.container_id;
      activity_generation = o.detail_generation;
      attempts = if stable then [] else s.attempts;
      next_attempt = if stable then 0 else s.next_attempt;
    }

-- [t for t in state["attempts"] if now - t < window]
unfoldable pub recent : RecoveryPolicy → ℕ → List ℕ → List ℕ
recent policy now = select (λ t. ltb (now - t) policy.window_seconds)

abbrev pub opt_nat_eq : Option ℕ → Option ℕ → Bool
opt_nat_eq none none = true
opt_nat_eq (some a) (some b) = eqb a b
opt_nat_eq _ _ = false

abbrev pub known : Option ℕ → Bool
known none = false
known (some g) = true

-- The sandbox is idle, or was when its container had the same activity.
unfoldable pub is_idle : Observation → RecoveryState → Bool
is_idle o s =
    opt_eq o.detail_execution (some "idle")
    || (opt_eq s.execution (some "idle")
        && (opt_eq s.container_id o.container_id
            && (known s.activity_generation
                && opt_nat_eq s.activity_generation o.detail_generation)))

-- xs[i], for an index in range.
abbrev pub get_or : List ℕ → ℕ → ℕ → ℕ
get_or [] i d = d
get_or (x ∷ xs) zero d = x
get_or (x ∷ xs) (suc i) d = get_or xs i d

-- policy.backoff_seconds[min(n, len(policy.backoff_seconds) - 1)]
unfoldable pub backoff : RecoveryPolicy → ℕ → ℕ
backoff policy n =
    let last = length policy.backoff_seconds - 1 in
    get_or policy.backoff_seconds (if ltb last n then last else n) 0

abbrev pub failing : RecoveryState → RecoveryState
failing s = record s { failures = suc s.failures; healthy_since = none }
