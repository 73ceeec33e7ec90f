-- ===== src/Operations/Workflow/Keeps.antt =====
-- Rules for what the actions of a job keep, and the two phases of `run` in operations/main.py: before
-- the change is applied, and from then on.
use opencode_cloud.Prelude.{ℕ, String, Bool, true, false, none, some, if◌then◌else◌, ◌≡◌, arith}
use opencode_cloud.Operations.Database.{
  Status, queued, running, waiting, applying, needs_recovery, interrupted, succeeded, failed,
  cancelled,
}
use opencode_cloud.Operations.Workflow.World.{
  Call, Reply, Exn, refused, broken, stopped, Res, returned, raised, World, M, continue, ◌>>=◌,
  pure, raise, handled, except, assign, call, checkpoint,
}

-- The job is in progress, or was cancelled.
abbrev pub alive : Status → Bool
alive queued = true
alive running = true
alive waiting = true
alive applying = true
alive cancelled = true
alive needs_recovery = false
alive interrupted = false
alive succeeded = false
alive failed = false

-- Nothing has been applied yet.
pub record Early (w : World) : Type 0 where
  pub alive : alive w.status ≡ true
  pub not_started : w.apply_started ≡ false

-- Once the application has started, the job is `applying`: it cannot be cancelled.
pub record Live (w : World) : Type 0 where
  pub alive : alive w.status ≡ true
  pub started : w.apply_started ≡ true → w.status ≡ applying

pub Early-Live : {w : World} → Early w → Live w
Early-Live e = record {
  alive = e.alive;
  started = λ h. absurd (let no = e.not_started in ground arith);
}

-- `m` keeps `P`, whether it returns or raises.
pub record Keeps {A : Type 0} (P : World → Type 0) (m : M A) : Type 0 where
  pub at : (w : World) → P w → P (m w).1

module _ {P : World → Type 0} where
  pub Keeps-pure : {A : Type 0} (a : A) → Keeps P (pure a)
  unfolding pure
  Keeps-pure a = record { at = λ w h. h }

  pub Keeps-raise : {A : Type 0} (e : Exn) → Keeps {A = A} P (raise e)
  unfolding raise
  Keeps-raise e = record { at = λ w h. h }

  pub Keeps-if :
      {A : Type 0} (b : Bool) (m n : M A) → Keeps P m → Keeps P n → Keeps P (if b then m else n)
  Keeps-if true m n km kn = km
  Keeps-if false m n km kn = kn

  Keeps-continue :
      {A B : Type 0} (f : A → M B) (r : Res A) (w : World)
      → ((a : A) → Keeps P (f a))
      → P w
      → P (continue f (r, w)).1
  Keeps-continue f (returned a) w k h = (k a).at w h
  Keeps-continue f (raised e) w k h = h

  pub Keeps-bind :
      {A B : Type 0} (m : M A) (f : A → M B)
      → Keeps P m
      → ((a : A) → Keeps P (f a))
      → Keeps P (m >>= f)
  unfolding ◌>>=◌
  Keeps-bind m f km kf = record { at = λ w h. Keeps-continue f (m w).0 (m w).1 kf (km.at w h) }

  Keeps-handled :
      {A : Type 0} (f : ℕ → M A) (r : Res A) (w : World)
      → ((s : ℕ) → Keeps P (f s))
      → P w
      → P (handled f (r, w)).1
  Keeps-handled f (returned a) w k h = h
  Keeps-handled f (raised (refused s)) w k h = (k s).at w h
  Keeps-handled f (raised broken) w k h = h
  Keeps-handled f (raised stopped) w k h = h

  pub Keeps-except :
      {A : Type 0} (m : M A) (f : ℕ → M A)
      → Keeps P m
      → ((s : ℕ) → Keeps P (f s))
      → Keeps P (except m f)
  unfolding except
  Keeps-except m f km kf = record { at = λ w h. Keeps-handled f (m w).0 (m w).1 kf (km.at w h) }

pub Keeps-call-Early : (c : Call) → Keeps Early (call c)
unfolding call
Keeps-call-Early c = record { at = λ w h. ground arith }

pub Keeps-call-Live : (c : Call) → Keeps Live (call c)
unfolding call
Keeps-call-Live c = record { at = λ w h. ground arith }

pub Keeps-checkpoint_Early : (name : String) → Keeps Early (checkpoint name none)
unfolding checkpoint
Keeps-checkpoint_Early name = record { at = λ w h. ground arith }

pub Keeps-checkpoint_Live : (name : String) → Keeps Live (checkpoint name none)
unfolding checkpoint
Keeps-checkpoint_Live name = record { at = λ w h. ground arith }

pub Keeps-checkpoint_running : (name : String) → Keeps Early (checkpoint name (some running))
unfolding checkpoint
Keeps-checkpoint_running name = record { at = λ w h. ground arith }

pub Keeps-checkpoint_waiting : (name : String) → Keeps Early (checkpoint name (some waiting))
unfolding checkpoint
Keeps-checkpoint_waiting name = record { at = λ w h. ground arith }

-- The assignments of `run`.
pub Early-quiesce_started : Keeps Early (assign (λ w. record w { quiesce_started = true }))
unfolding assign
Early-quiesce_started = record { at = λ w h. ground arith }

pub Early-previous : Keeps Early (assign (λ w. record w { previous = true }))
unfolding assign
Early-previous = record { at = λ w h. ground arith }

pub Early-release : (r : Reply) → Keeps Early (assign (λ w. record w { release = some r }))
unfolding assign
Early-release r = record { at = λ w h. ground arith }

pub Live-applied : Keeps Live (assign (λ w. record w { applied = true }))
unfolding assign
Live-applied = record { at = λ w h. ground arith }

pub Live-commit_started : Keeps Live (assign (λ w. record w { commit_started = true }))
unfolding assign
Live-commit_started = record { at = λ w h. ground arith }

pub Live-commit_state_known : Keeps Live (assign (λ w. record w { commit_state_known = true }))
unfolding assign
Live-commit_state_known = record { at = λ w h. ground arith }

pub Live-checkpoint : (name : String) → Keeps Live (assign (λ w. record w { checkpoint = name }))
unfolding assign
Live-checkpoint name = record { at = λ w h. ground arith }

-- From a state with `P`, `m` returns in one with `Q` or raises in a live one.
abbrev pub Ends : {A : Type 0} → (World → Type 0) → Res A × World → Type 0
Ends Q (returned a, w) = Q w
Ends Q (raised e, w) = Live w

pub record Runs {A : Type 0} (P : World → Type 0) (m : M A) (Q : World → Type 0) : Type 0 where
  pub at : (w : World) → P w → Ends Q (m w)

pub Early-Ends : {A : Type 0} (r : Res A) (w : World) → Early w → Ends Early (r, w)
Early-Ends (returned a) w h = h
Early-Ends (raised e) w h = Early-Live h

pub Live-Ends : {A : Type 0} (r : Res A) (w : World) → Live w → Ends Live (r, w)
Live-Ends (returned a) w h = h
Live-Ends (raised e) w h = h

pub Runs-Early : {A : Type 0} (m : M A) → Keeps Early m → Runs Early m Early
Runs-Early m k = record { at = λ w h. Early-Ends (m w).0 (m w).1 (k.at w h) }

pub Runs-late : {A : Type 0} (m : M A) → Keeps Live m → Runs Live m Live
Runs-late m k = record { at = λ w h. Live-Ends (m w).0 (m w).1 (k.at w h) }

module _ {A B : Type 0} {Q R : World → Type 0} where
  Ends-continue :
      (f : A → M B) (r : Res A) (w : World)
      → ((a : A) → Runs Q (f a) R)
      → Ends Q (r, w)
      → Ends R (continue f (r, w))
  Ends-continue f (returned a) w k h = (k a).at w h
  Ends-continue f (raised e) w k h = h

  pub Runs-bind :
      {P : World → Type 0} (m : M A) (f : A → M B)
      → Runs P m Q
      → ((a : A) → Runs Q (f a) R)
      → Runs P (m >>= f) R
  unfolding ◌>>=◌
  Runs-bind m f km kf = record { at = λ w h. Ends-continue f (m w).0 (m w).1 kf (km.at w h) }

module _ {A B : Type 0} where
  -- A step before the application, and then the rest.
  pub Early-then :
      (m : M A) (f : A → M B)
      → Keeps Early m
      → ((a : A) → Runs Early (f a) Live)
      → Runs Early (m >>= f) Live
  Early-then m f km kf = Runs-bind m f (Runs-Early m km) kf

pub ruleset keeps_rules = (Keeps-pure, Keeps-raise, Keeps-if, Keeps-bind, Keeps-except)

pub ruleset early_rules = (
  keeps_rules, Keeps-call-Early, Keeps-checkpoint_Early, Keeps-checkpoint_running,
  Keeps-checkpoint_waiting, Early-quiesce_started, Early-previous, Early-release,
)

pub ruleset late_rules = (
  keeps_rules, Keeps-call-Live, Keeps-checkpoint_Live, Live-applied, Live-commit_started,
  Live-commit_state_known, Live-checkpoint,
)
