-- ===== src/Operations/Workflow/Run.antt =====
-- The rest of `Workflows.run` in operations/main.py: the write of the success, the handlers, the
-- compensation and the `finally` block.
use opencode_cloud.Prelude.{
  String, Bool, true, false, not, ◌&&◌, ◌||◌, Option, none, some, if◌then◌else◌,
}
use opencode_cloud.Operations.Database.{
  Status, queued, running, waiting, applying, needs_recovery, interrupted, succeeded, failed,
  cancelled,
}
use opencode_cloud.Operations.Workflow.World.{
  start, stop, restart, destroy, Kind, models_apply, sandbox, rollback, compensate,
  compensate_verify, resume, Reply, refused, broken, stopped, Res, returned, raised, World, M, ◌>>◌,
  assign, call, is_cancelled,
}
use opencode_cloud.Operations.Workflow.Body.{body}

-- The desired state that a sandbox operation of an operator leaves; a recovery leaves none.
abbrev pub desired_after : Kind → Option String → Option String
desired_after (sandbox destroy) old = some "on_demand"
desired_after (sandbox stop) old = some "stopped"
desired_after (sandbox start) old = some "running"
desired_after (sandbox restart) old = some "running"
desired_after _ old = old

abbrev pub finish : World → World
finish w = record w {
  desired = desired_after w.kind w.desired;
  status = succeeded;
  checkpoint = "complete";
}

-- except asyncio.CancelledError
unfoldable pub on_stopped : World → World
on_stopped w =
    if is_cancelled w.status
    then w
    else record w { status = if w.apply_started then needs_recovery else interrupted }

abbrev pub is_some : Option Reply → Bool
is_some none = false
is_some (some r) = true

-- applied and release and (not commit_started or commit_state_known)
abbrev pub compensable : World → Bool
compensable w = w.applied && (is_some w.release && (not w.commit_started || w.commit_state_known))

abbrev pub mark_compensated : M (Unit {0})
mark_compensated = assign (λ w. record w { compensated = true })

unfoldable pub compensation : Kind → Bool → M (Unit {0})
compensation models_apply previous = do call rollback; mark_compensated
compensation _ true = do call compensate; call compensate_verify; mark_compensated
compensation _ false = assign (λ w. w)

-- try: …  except Exception: pass. A CancelledError is none of those that `except Exception` catches.
abbrev pub swallow : Res (Unit {0}) × World → Res (Unit {0}) × World
swallow (raised stopped, w) = (raised stopped, w)
swallow (raised (refused s), w) = (returned tt, w)
swallow (raised broken, w) = (returned tt, w)
swallow (returned u, w) = (returned tt, w)

abbrev pub record_failure : World → World
record_failure w = record w {
  status = if w.apply_started && not w.compensated then needs_recovery else failed;
}

-- A raise that leaves the handlers goes on through `finally`.
abbrev pub then_record : Res (Unit {0}) × World → Res (Unit {0}) × World
then_record (returned u, w) = (returned u, record_failure w)
then_record (raised e, w) = (raised e, w)

-- except Exception as exc
unfoldable pub on_failure : World → Res (Unit {0}) × World
unfolding compensation
on_failure w =
    then_record
      (if compensable w then swallow (compensation w.kind w.previous w) else (returned tt, w))

unfoldable pub handle : Res (Unit {0}) × World → Res (Unit {0}) × World
unfolding on_stopped
handle (returned u, w) = (returned u, finish w)
handle (raised stopped, w) = (returned tt, on_stopped w)
handle (raised (refused s), w) = on_failure w
handle (raised broken, w) = on_failure w

abbrev pub awaits_recovery : Status → Bool
awaits_recovery needs_recovery = true
awaits_recovery queued = false
awaits_recovery running = false
awaits_recovery waiting = false
awaits_recovery applying = false
awaits_recovery interrupted = false
awaits_recovery succeeded = false
awaits_recovery failed = false
awaits_recovery cancelled = false

-- The handler of `finally`: the target stays blocked, and the job says so.
abbrev pub blocked : Res Reply × World → Res (Unit {0}) × World
blocked (returned r, w) = (returned tt, w)
blocked (raised stopped, w) = (raised stopped, w)
blocked (raised (refused s), w) = (returned tt, record w { status = needs_recovery })
blocked (raised broken, w) = (returned tt, record w { status = needs_recovery })

-- What leaves `run` is what the handlers left, unless `finally` raises itself.
abbrev pub outer : Res (Unit {0}) → Res (Unit {0}) × World → Res (Unit {0}) × World
outer r (raised e, w) = (raised e, w)
outer r (returned u, w) = (r, w)

unfoldable pub release_target : Res (Unit {0}) × World → Res (Unit {0}) × World
release_target (r, w) =
    if w.quiesce_started && not (awaits_recovery w.status)
    then outer r (blocked (call resume w))
    else (r, w)

unfoldable pub run : M (Unit {0})
run w = release_target (handle (body w))
