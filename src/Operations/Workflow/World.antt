-- ===== src/Operations/Workflow/World.antt =====
-- The state of one job of operations/main.py while `run` works on it, and the actions that `run` is
-- made of: calls of services, checkpoints and assignments. What happened before a raise stays.
use opencode_cloud.Prelude.{
  ℕ, suc, String, Bool, true, false, not, ◌&&◌, Option, none, some, List, ◌∷◌, if◌then◌else◌,
}
use opencode_cloud.Operations.Database.{
  Status, queued, running, waiting, applying, needs_recovery, interrupted, succeeded, failed,
  cancelled,
}

pub data SandboxAction : Type 0 where
  start stop restart destroy recover : SandboxAction

pub data AgentAction : Type 0 where
  archive restore delete delete_empty : AgentAction

-- job["kind"]: "agent.apply", "models.apply", "sandbox." and "agent." with an action.
pub data Kind : Type 0 where
  agent_apply models_apply : Kind
  sandbox : SandboxAction → Kind
  agent : AgentAction → Kind

abbrev pub deletes : Kind → Bool
deletes (agent delete) = true
deletes _ = false

-- The calls of `run`, by their service and path; the actions are those of the sandbox manager.
pub data Call : Type 0 where
  bundle get_release prepare_release probe validate_config activate config_status : Call
  commit rollback : Call
  quiesce apply verify resume : Call
  compensate compensate_verify : Call
  sandbox_action : SandboxAction → Call
  lifecycle_deleting delete_sandboxes cleanup_files archive_sandboxes : Call
  lifecycle : AgentAction → Call

-- What `run` reads of an answer.
pub record Reply : Type 0 where
  pub release_id : String
  pub ready : Bool
  pub committed : Bool

-- `refused` is an HTTPException with its status, `broken` another exception, and `stopped` an
-- asyncio.CancelledError.
pub data Exn : Type 0 where
  refused : ℕ → Exn
  broken : Exn
  stopped : Exn

pub data Res {ℓ} (A : Type ℓ) : Type ℓ where
  returned : A → Res A
  raised : Exn → Res A

-- What comes of one awaited call, and whether a cancel request is handled meanwhile.
pub record Await : Type 0 where
  pub cancel : Bool
  pub outcome : Res Reply

-- `status` and `checkpoint` are those of the stored job; `has_release` is whether the job has a
-- `release_id` from before. The flags are the local variables of `run`. `log` has the calls made,
-- newest first, each with the status that the job had then and with what came of it.
pub record World : Type 0 where
  pub kind : Kind
  pub has_release : Bool
  pub env : ℕ → Await
  pub turn : ℕ
  pub status : Status
  pub checkpoint : String
  pub applied : Bool
  pub apply_started : Bool
  pub quiesce_started : Bool
  pub compensated : Bool
  pub commit_started : Bool
  pub commit_state_known : Bool
  pub release : Option Reply
  pub previous : Bool
  pub desired : Option String
  pub log : List (Call × Status × Res Reply)

abbrev pub M : Type 0 → Type 0
M A = World → Res A × World

abbrev pub continue : {A B : Type 0} → (A → M B) → Res A × World → Res B × World
continue f (returned a, w) = f a w
continue f (raised e, w) = (raised e, w)

infixl 5 ◌>>=◌ ◌>>◌
unfoldable pub ◌>>=◌ : {A B : Type 0} → M A → (A → M B) → M B
◌>>=◌ m f w = continue f (m w)

abbrev pub ◌>>◌ : {A B : Type 0} → M A → M B → M B
m >> n = m >>= λ _. n

unfoldable pub pure : {A : Type 0} → A → M A
pure a w = (returned a, w)

unfoldable pub raise : {A : Type 0} → Exn → M A
raise e w = (raised e, w)

abbrev pub handled : {A : Type 0} → (ℕ → M A) → Res A × World → Res A × World
handled f (raised (refused s), w) = f s w
handled f r = r

-- try: m  except HTTPException as exc: f(exc.status_code)
unfoldable pub except : {A : Type 0} → M A → (ℕ → M A) → M A
except m f w = handled f (m w)

-- Assignments to the local variables.
unfoldable pub assign : (World → World) → M (Unit {0})
assign f w = (returned tt, f w)

-- {"queued", "running", "waiting", "cancelled"}, the statuses that the cancel handler allows.
abbrev pub cancellable : Status → Bool
cancellable queued = true
cancellable running = true
cancellable waiting = true
cancellable cancelled = true
cancellable applying = false
cancellable needs_recovery = false
cancellable interrupted = false
cancellable succeeded = false
cancellable failed = false

-- The handler POST …/cancel.
unfoldable pub cancel_job : World → World
cancel_job w =
    if cancellable w.status && not (deletes w.kind) then record w { status = cancelled } else w

-- `await self.call(…)`
unfoldable pub call : Call → M Reply
unfolding cancel_job
call c w =
    let a = w.env w.turn in
    let w' = record w { turn = suc w.turn; log = (c, w.status, a.outcome) ∷ w.log } in
    (a.outcome, if a.cancel then cancel_job w' else w')

-- {"queued", "running", "waiting", "applying"}
abbrev pub in_progress : Status → Bool
in_progress queued = true
in_progress running = true
in_progress waiting = true
in_progress applying = true
in_progress cancelled = false
in_progress needs_recovery = false
in_progress interrupted = false
in_progress succeeded = false
in_progress failed = false

abbrev pub is_cancelled : Status → Bool
is_cancelled cancelled = true
is_cancelled queued = false
is_cancelled running = false
is_cancelled waiting = false
is_cancelled applying = false
is_cancelled needs_recovery = false
is_cancelled interrupted = false
is_cancelled succeeded = false
is_cancelled failed = false

abbrev pub moved : String → Option Status → World → World
moved name none w = record w { checkpoint = name }
moved name (some s) w = record w { checkpoint = name; status = s }

-- `checkpoint(jid, name, status=…)`: a cancelled job stops the worker, and a job that is not in
-- progress is a 409 from the transition.
unfoldable pub checkpoint : String → Option Status → M (Unit {0})
checkpoint name status w =
    if is_cancelled w.status
    then (raised stopped, w)
    else if in_progress w.status
    then (returned tt, moved name status w)
    else (raised (refused 409), w)
