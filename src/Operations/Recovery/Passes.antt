-- ===== src/Operations/Recovery/Passes.antt =====
-- What every pass of operations/src/recovery.py keeps: the number of recoveries that it spawns, the
-- number of attempts on record, and the exclusive leases.
use opencode_cloud.Prelude.{
  ℕ, ◌+◌, ◌-◌, All, ◌≤◌, ◌<◌, String, Bool, true, false, ◌||◌, Option, none, some, List, [], ◌∷◌,
  ◌==◌, ◌≡◌, inl, inr, refl, arith, leb, ltb, if◌then◌else◌, length, lookup, Values, Values-put,
  Values-lookup, Bool-cases, length-append,
}
use opencode_cloud.Operations.Database.{Result, ok, err, Job, Database}
use opencode_cloud.Operations.Jobs.{submit}
use opencode_cloud.Operations.Jobs.Exclusion.{IsExclusive, OnAdmit, submit-IsExclusive}
use opencode_cloud.Operations.RecoveryPolicy.{
  RecoveryPolicy, RecoveryState, initial, Observation, healthy, since, recent, is_idle, failing,
}
use opencode_cloud.Operations.Recovery.{
  Pass, awaited, state_of, store, count_active, skipped, recovery_payload, queue_recovery, Flow,
  go_on, stop, attempt, examine, sweep, tick,
}

-- Of a pass that began with `n` recoveries in progress.
pub record Sound (policy : RecoveryPolicy) (n : ℕ) (p : Pass) : Type 0 where
  pub counted : p.active ≡ n + length p.spawned
  pub limited : p.active ≤ policy.max_parallel_recoveries
  pub few : Values (λ s. length s.attempts ≤ policy.max_attempts) p.states
  pub exclusive : IsExclusive p.db

abbrev outcome : Flow → Pass
outcome (go_on q) = q
outcome (stop q) = q

store-Sound :
    (policy : RecoveryPolicy) (n : ℕ) (sid : String) (s : RecoveryState) (p : Pass)
    → length s.attempts ≤ policy.max_attempts
    → Sound policy n p
    → Sound policy n (store sid s p)
store-Sound policy n sid s p few v = record {
  counted = v.counted;
  limited = v.limited;
  few = Values-put _ sid s p.states few v.few;
  exclusive = v.exclusive;
}

few_attempts :
    (policy : RecoveryPolicy) (n : ℕ) (sid : String) (p : Pass)
    → Sound policy n p
    → length (state_of sid p).attempts ≤ policy.max_attempts
few_attempts policy n sid p v = by_cases (lookup sid p.states) refl
  where
    by_cases :
        (found : Option RecoveryState)
        → lookup sid p.states ≡ found
        → length (elim found as (λ x. RecoveryState) [ none ↦ initial | some s ↦ s ]).attempts
          ≤ policy.max_attempts
    by_cases none e = omega arith
    by_cases (some s) e =
        Values-lookup (λ s. length s.attempts ≤ policy.max_attempts) sid s p.states v.few e

queue_recovery-Sound :
    (policy : RecoveryPolicy) (n : ℕ) (o : Observation) (s : RecoveryState) (attempts : List ℕ)
    (p : Pass)
    → length attempts < policy.max_attempts
    → p.active < policy.max_parallel_recoveries
    → Sound policy n p
    → Sound policy n (
        queue_recovery policy o s attempts p (
          submit "sandbox.recover" o.sandbox_id
            (recovery_payload o)
            (some o.agent_id)
            ""
            o.job_id
            o.now
            p.db))
queue_recovery-Sound policy n o s attempts p few free v =
    by_cases
      (submit "sandbox.recover" o.sandbox_id (recovery_payload o) (some o.agent_id) "" o.job_id
        o.now p.db)
      refl
      (submit-IsExclusive "sandbox.recover" o.sandbox_id (recovery_payload o) (some o.agent_id) ""
        o.job_id o.now p.db v.exclusive)
  where
    by_cases :
        (r : Result (Job × Bool × Database))
        → submit "sandbox.recover" o.sandbox_id
            (recovery_payload o)
            (some o.agent_id)
            ""
            o.job_id
            o.now
            p.db
          ≡ r
        → OnAdmit IsExclusive r
        → Sound policy n (queue_recovery policy o s attempts p r)
    by_cases (err x) e exclusive = v
    by_cases (ok (j, false, db)) e exclusive = record {
      counted = v.counted;
      limited = v.limited;
      few = v.few;
      exclusive = exclusive;
    }
    by_cases (ok (j, true, db)) e exclusive = record {
      counted = omega (arith, v.counted);
      limited = omega (arith, free);
      few =
          Values-put _ o.sandbox_id _ p.states
            (rw (length-append attempts (o.now ∷ [])) (omega (arith, few))) v.few;
      exclusive = exclusive;
    }

attempt-Sound :
    (policy : RecoveryPolicy) (n : ℕ) (o : Observation) (s : RecoveryState) (p : Pass)
    → length s.attempts ≤ policy.max_attempts
    → Sound policy n p
    → Sound policy n (outcome (attempt policy o s p))
unfolding attempt
attempt-Sound policy n o s p few v =
    elim (Bool-cases (ltb s.failures policy.failure_threshold || ltb o.now s.next_attempt)) [
      | inl t ↦ rw t v
      | inr f ↦
          rw f
            (elim (Bool-cases (leb policy.max_attempts (length (recent policy o.now s.attempts)))) [
              | inl t ↦ rw t (store-Sound policy n o.sandbox_id _ p few v)
              | inr below ↦ rw below (elim (Bool-cases (is_idle o s)) [
                | inr f ↦ rw f (store-Sound policy n o.sandbox_id _ p few v)
                | inl t ↦ rw t (elim (Bool-cases (leb policy.max_parallel_recoveries p.active)) [
                  | inl t ↦ rw t v
                  | inr free ↦ rw free (
                      queue_recovery-Sound policy n o s (recent policy o.now s.attempts) p
                        (ground (arith, below)) (ground (arith, free)) v)
                ])
              ])
            ])
    ]

healthy-few :
    (policy : RecoveryPolicy) (o : Observation) (s : RecoveryState)
    → length s.attempts ≤ policy.max_attempts
    → length (healthy policy o s).attempts ≤ policy.max_attempts
unfolding healthy
healthy-few policy o s few = elim (Bool-cases (leb policy.stable_seconds (o.now - since s o.now))) [
  | inl t ↦ rw t (omega arith)
  | inr f ↦ rw f few
]

-- The work that goes on during the wait for a detail keeps the leases exclusive.
abbrev pub KeepsExclusive : Observation → Type 0
KeepsExclusive o = (db : Database) → IsExclusive db → IsExclusive (o.meanwhile db)

examine-Sound :
    (policy : RecoveryPolicy) (n : ℕ) (lifecycle : String → Option String) (o : Observation)
    (p : Pass)
    → KeepsExclusive o
    → Sound policy n p
    → Sound policy n (outcome (examine policy lifecycle o p))
unfolding examine
examine-Sound policy n lifecycle o p kept v =
    let w : Sound policy n (awaited o p) = record {
      counted = v.counted;
      limited = v.limited;
      few = v.few;
      exclusive = kept p.db v.exclusive;
    } in
    let few = few_attempts policy n o.sandbox_id p v in
    elim (Bool-cases (skipped policy lifecycle o p.db)) [
      | inl t ↦ rw t v
      | inr f ↦ rw f (elim (Bool-cases (o.status == "ready")) [
        | inl t ↦
            rw t (store-Sound policy n o.sandbox_id _ (awaited o p) (healthy-few policy o _ few) w)
        | inr f ↦ rw f (elim (Bool-cases (o.status == "unhealthy" || o.status == "missing")) [
          | inr f ↦ rw f w
          | inl t ↦ rw t (
              attempt-Sound policy n o (failing (state_of o.sandbox_id p)) _ few (
                store-Sound policy n o.sandbox_id (failing (state_of o.sandbox_id p)) (awaited o p)
                  few w))
        ])
      ])
    ]

sweep-Sound :
    (policy : RecoveryPolicy) (n : ℕ) (lifecycle : String → Option String)
    (records : List Observation) (p : Pass)
    → All KeepsExclusive records
    → Sound policy n p
    → Sound policy n (sweep policy lifecycle records p)
unfolding sweep
sweep-Sound policy n lifecycle [] p kept v = v
sweep-Sound policy n lifecycle (o ∷ rest) p kept v =
    by_cases (examine policy lifecycle o p) (λ q w. sweep-Sound policy n lifecycle rest q kept.1 w)
      (examine-Sound policy n lifecycle o p kept.0 v)
  where
    by_cases :
        (f : Flow)
        → ((q : Pass) → Sound policy n q → Sound policy n (sweep policy lifecycle rest q))
        → Sound policy n (outcome f)
        → Sound policy n (elim f [ go_on q ↦ sweep policy lifecycle rest q | stop q ↦ q ])
    by_cases (go_on q) later w = later q w
    by_cases (stop q) later w = w

-- A pass that starts with at most the allowed number of recoveries in progress, at most the allowed
-- number of attempts on record for each sandbox, and exclusive leases, while the other work of the
-- service keeps the leases exclusive: it ends so, and what it takes for the number of recoveries in
-- progress is their number at its start and the number of those that it has spawned, at most the
-- allowed number.
pub tick-Sound :
    (policy : RecoveryPolicy) (lifecycle : String → Option String) (records : List Observation)
    (db : Database) (states : List (String × RecoveryState))
    → count_active db ≤ policy.max_parallel_recoveries
    → Values (λ s. length s.attempts ≤ policy.max_attempts) states
    → IsExclusive db
    → All KeepsExclusive records
    → Sound policy (count_active db) (tick policy lifecycle records db states)
unfolding tick
tick-Sound policy lifecycle records db states limited few exclusive kept =
    let n = count_active db in
    let p : Pass = record { db = db; states = states; active = n; spawned = [] } in
    let v : Sound policy n p = record {
      counted = omega arith;
      limited = limited;
      few = few;
      exclusive = exclusive;
    } in
    elim policy.enabled
      as (λ b. Sound policy n (if b then sweep policy lifecycle records p else p)) [
        | true ↦ sweep-Sound policy n lifecycle records p kept v
        | false ↦ v
      ]
