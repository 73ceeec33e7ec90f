-- ===== src/Operations/Workflow/Leaves.antt =====
-- How `run` of operations/main.py leaves its job and its target, whatever the services answer and
-- whenever a cancel request or a stop of the worker comes.
use opencode_cloud.Prelude.{
  Bool, true, false, not, ◌&&◌, List, ◌∷◌, ◌≡◌, ◌≢◌, ◌⊎◌, refl, arith, Bool-cases, inl, inr,
}
use opencode_cloud.Operations.Database.{
  Status, queued, running, waiting, applying, needs_recovery, interrupted, succeeded, failed,
  cancelled,
}
use opencode_cloud.Operations.Workflow.World.{
  Call, resume, Reply, Exn, refused, broken, stopped, Res, returned, raised, World, cancel_job,
  call, is_cancelled,
}
use opencode_cloud.Operations.Workflow.Body.{body}
use opencode_cloud.Operations.Workflow.Run.{
  on_stopped, compensable, then_record, on_failure, handle, awaits_recovery, blocked, outer,
  release_target, run,
}
use opencode_cloud.Operations.Workflow.Keeps.{Early, Live}
use opencode_cloud.Operations.Workflow.Outcomes.{body-Live}

-- The run is over.
abbrev pub ended : Status → Bool
ended succeeded = true
ended failed = true
ended needs_recovery = true
ended interrupted = true
ended cancelled = true
ended queued = false
ended running = false
ended waiting = false
ended applying = false

-- The job has ended; if its application had started, it succeeded, or its outcome is held for
-- inspection, or it failed and was compensated.
pub record Settled (w : World) : Type 0 where
  pub over : ended w.status ≡ true
  pub certain :
      w.apply_started ≡ true
      → (w.status ≡ succeeded)
        ⊎ (w.status ≡ needs_recovery)
        ⊎ ((w.status ≡ failed) × (w.compensated ≡ true))

abbrev pub OnReturn : (World → Type 0) → Res (Unit {0}) × World → Type 0
OnReturn Q (returned u, w) = Q w
OnReturn Q (raised e, w) = Unit

record_failure-Settled : (r : Res (Unit {0})) (w : World) → OnReturn Settled (then_record (r, w))
record_failure-Settled (returned u) w = record { over = ground arith; certain = λ h. ground arith }
record_failure-Settled (raised e) w = tt

on_failure-Settled : (w : World) → OnReturn Settled (on_failure w)
unfolding on_failure
on_failure-Settled w = elim (Bool-cases (compensable w)) [
  | inl t ↦ rw t (record_failure-Settled _ _)
  | inr f ↦ rw f (record_failure-Settled (returned tt) w)
]

on_stopped-Settled : (w : World) → Live w → Settled (on_stopped w)
unfolding on_stopped
on_stopped-Settled w l = elim (Bool-cases (is_cancelled w.status)) [
  | inl t ↦ rw t (record { over = ground arith; certain = λ h. ground (arith, l.started h) })
  | inr f ↦ rw f (elim (Bool-cases w.apply_started) [
    | inl started ↦ record { over = ground arith; certain = λ h. ground arith }
    | inr fresh ↦ record { over = ground arith; certain = λ h. ground arith }
  ])
]

handle-Settled : (r : Res (Unit {0})) (w : World) → Live w → OnReturn Settled (handle (r, w))
unfolding handle
handle-Settled (returned u) w l = record { over = refl; certain = λ h. inl refl }
handle-Settled (raised stopped) w l = unfold on_stopped in on_stopped-Settled w l
handle-Settled (raised (refused s)) w l = on_failure-Settled w
handle-Settled (raised broken) w l = on_failure-Settled w

-- What `finally` has done about a target that was quiesced: its last call was the one that lifts the
-- block, made when the job had the status that it ends with, and the sandbox manager answered it; or the
-- job awaits recovery and the block may stay.
abbrev pub Unblocked : World → Type 0
Unblocked w =
    (w.status ≡ needs_recovery)
    ⊎ ((answer : Reply) × (rest : List (Call × Status × Res Reply)) × (w.log
          ≡ (resume, w.status, returned answer) ∷ rest))

pub record Left (w : World) : Type 0 where
  pub settled : Settled w
  pub target : w.quiesce_started ≡ true → Unblocked w

ended_keeps : (w : World) → ended w.status ≡ true → (cancel_job w).status ≡ w.status
unfolding cancel_job
ended_keeps w h = ground arith

-- A call when the job has ended leaves it as it is, whatever is asked meanwhile.
call-ended :
    (c : Call) (w : World)
    → ended w.status ≡ true
    → let w' = (call c w).1 in
      (w'.status ≡ w.status)
      × (w'.apply_started ≡ w.apply_started)
      × (w'.compensated ≡ w.compensated)
      × (w'.log ≡ (c, w.status, (call c w).0) ∷ w.log)
unfolding call
call-ended c w h = (ground arith, ground arith, ground arith, ground arith)

module _ (w w' : World) (status : w'.status ≡ w.status)
    (started : w'.apply_started ≡ w.apply_started) (compensated : w'.compensated ≡ w.compensated)
    (s : Settled w) where
  blocked-Left :
      (a : Res Reply)
      → w'.log ≡ (resume, w.status, a) ∷ w.log
      → (outer (returned tt) (blocked (a, w'))).0 ≡ returned tt
      → Left (outer (returned tt) (blocked (a, w'))).1
  blocked-Left (returned r) log h = record {
    settled = record {
      over = rw status (s.over);
      certain = λ k. rw (status, compensated) (s.certain (rw started at k));
    };
    target = λ q. inr (r, w.log, rw status log);
  }
  blocked-Left (raised stopped) log h = absurd (ground arith)
  blocked-Left (raised (refused x)) log h = record {
    settled = record { over = refl; certain = λ k. inr (inl refl) };
    target = λ q. inl refl;
  }
  blocked-Left (raised broken) log h = record {
    settled = record { over = refl; certain = λ k. inr (inl refl) };
    target = λ q. inl refl;
  }

outer_raised :
    (e : Exn) (x : Res (Unit {0})) (w : World) → (outer (raised e) (x, w)).0 ≢ returned tt
outer_raised e (returned u) w h = ground arith
outer_raised e (raised e') w h = ground arith

awaits : (s : Status) → (true && not (awaits_recovery s)) ≡ false → s ≡ needs_recovery
awaits s h = ground arith

release_target-Left :
    (r : Res (Unit {0})) (w : World)
    → OnReturn Settled (r, w)
    → (release_target (r, w)).0 ≡ returned tt
    → Left (release_target (r, w)).1
unfolding release_target
release_target-Left (raised e) w s h =
    absurd (elim (Bool-cases (w.quiesce_started && not (awaits_recovery w.status))) [
      | inl t ↦ outer_raised e _ _ (rw (t, release_target) at h)
      | inr f ↦ let no : raised e ≡ returned tt = rw (f, release_target) at h in ground arith
    ])
release_target-Left (returned u) w s h =
    elim (Bool-cases (w.quiesce_started && not (awaits_recovery w.status))) [
      | inl t ↦
          let c = call-ended resume w s.over in
          rw t (
            blocked-Left w (call resume w).1 c.0 c.1 c.2 s (call resume w).0 c.3
              (rw (t, release_target) at h))
      | inr f ↦ rw f (record { settled = s; target = λ q. inl (awaits w.status (rw q at f)) })
    ]

-- From a job that is in progress with nothing applied, whatever the services answer, and whenever a
-- cancel request lands: if `run` returns, the job has ended; if its application had started, it
-- succeeded, or awaits recovery and so keeps its lease, or failed after a compensation; and a target
-- that was quiesced has had its block lifted: the last call was its resume, made under the status that
-- the job ends with, and was answered, unless the job awaits recovery.
pub run-Left : (w : World) → Early w → (run w).0 ≡ returned tt → Left (run w).1
unfolding run
run-Left w e h = go (body w).0 (body w).1 (body-Live w e) h
  where
    go :
        (r : Res (Unit {0})) (w' : World)
        → Live w'
        → (release_target (handle (r, w'))).0 ≡ returned tt
        → Left (release_target (handle (r, w'))).1
    go r w' l k = release_target-Left _ _ (handle-Settled r w' l) k
