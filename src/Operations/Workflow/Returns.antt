-- ===== src/Operations/Workflow/Returns.antt =====
-- The end of `run` of operations/main.py.
use opencode_cloud.Prelude.{
  ℕ, Bool, true, false, not, ◌&&◌, ◌≡◌, ◌≢◌, refl, arith, Bool-cases, inl, inr,
}
use opencode_cloud.Operations.Workflow.World.{
  Kind, models_apply, agent_apply, agent, sandbox, Call, resume, rollback, compensate,
  compensate_verify, Reply, refused, broken, stopped, Res, returned, raised, World, M, assign,
  ◌>>=◌, ◌>>◌, call, continue,
}
use opencode_cloud.Operations.Workflow.Body.{body}
use opencode_cloud.Operations.Workflow.Run.{
  on_stopped, compensable, mark_compensated, compensation, swallow, then_record, on_failure, handle,
  awaits_recovery, blocked, outer, release_target, run,
}
use opencode_cloud.Operations.Workflow.Calm.{Calm, Calm-call, body-Calm}

-- What does not stop, and leaves no stop ahead.
record NoStop (r : Res (Unit {0}) × World) : Type 0 where
  ahead : Calm r.1
  now : r.0 ≢ raised stopped

outcome-call : (c : Call) (w : World) → Calm w → (call c w).0 ≢ raised stopped
unfolding call
outcome-call c w h = h.at w.turn

NoStop-bind :
    (r : Res Reply) (w : World) (f : Reply → M (Unit {0}))
    → r ≢ raised stopped
    → Calm w
    → ((a : Reply) → NoStop (f a w))
    → NoStop (continue f (r, w))
NoStop-bind (returned a) w f n h k = k a
NoStop-bind (raised (refused s)) w f n h k = record { ahead = h; now = λ e. ground arith }
NoStop-bind (raised broken) w f n h k = record { ahead = h; now = λ e. ground arith }
NoStop-bind (raised stopped) w f n h k = absurd (n refl)

NoStop-call :
    (c : Call) (f : Reply → M (Unit {0})) (w : World)
    → Calm w
    → ((a : Reply) (w' : World) → Calm w' → NoStop (f a w'))
    → NoStop ((call c >>= f) w)
unfolding ◌>>=◌
NoStop-call c f w h k =
    NoStop-bind (call c w).0 (call c w).1 f (outcome-call c w h) ((Calm-call c).at w h)
      (λ a. k a (call c w).1 ((Calm-call c).at w h))

NoStop-assign :
    (f : World → World) (w : World)
    → ((w : World) → (f w).env ≡ w.env)
    → Calm w
    → NoStop (assign f w)
unfolding assign
NoStop-assign f w e h = record {
  ahead = record { at = λ i. rw (e w) (h.at i) };
  now = λ e. ground arith;
}

restored-NoStop :
    (w : World) → Calm w → NoStop ((do call compensate; call compensate_verify; mark_compensated) w)
restored-NoStop w h = NoStop-call compensate _ w h (λ a w' h'.
    NoStop-call compensate_verify _ w' h' (λ a w'' h''. NoStop-assign _ w'' (λ x. refl) h''))

compensation-NoStop : (k : Kind) (p : Bool) (w : World) → Calm w → NoStop (compensation k p w)
unfolding compensation
compensation-NoStop models_apply p w h =
    NoStop-call rollback _ w h (λ a w' h'. NoStop-assign _ w' (λ x. refl) h')
compensation-NoStop agent_apply true w h = restored-NoStop w h
compensation-NoStop (sandbox a) true w h = restored-NoStop w h
compensation-NoStop (agent a) true w h = restored-NoStop w h
compensation-NoStop _ false w h = NoStop-assign _ w (λ x. refl) h

-- A block that ends by returning, with no stop ahead.
record Returns (r : Res (Unit {0}) × World) : Type 0 where
  ahead : Calm r.1
  now : r.0 ≡ returned tt

swallow-Returns : (r : Res (Unit {0})) (w : World) → NoStop (r, w) → Returns (swallow (r, w))
swallow-Returns (returned u) w n = record { ahead = n.ahead; now = refl }
swallow-Returns (raised (refused s)) w n = record { ahead = n.ahead; now = refl }
swallow-Returns (raised broken) w n = record { ahead = n.ahead; now = refl }
swallow-Returns (raised stopped) w n = absurd (n.now refl)

then_record-Returns :
    (r : Res (Unit {0})) (w : World) → Returns (r, w) → Returns (then_record (r, w))
then_record-Returns (returned u) w n = record { ahead = record { at = n.ahead.at }; now = refl }
then_record-Returns (raised e) w n = absurd (let no = n.now in ground arith)

on_failure-Returns : (w : World) → Calm w → Returns (on_failure w)
unfolding on_failure
on_failure-Returns w h = elim (Bool-cases (compensable w)) [
  | inl t ↦
      rw t
        (then_record-Returns _ _ (swallow-Returns _ _ (compensation-NoStop w.kind w.previous w h)))
  | inr f ↦ rw f (record { ahead = record { at = h.at }; now = refl })
]

env-on_stopped : (w : World) → (on_stopped w).env ≡ w.env
unfolding on_stopped
env-on_stopped w = ground arith

handle-Returns : (r : Res (Unit {0})) (w : World) → Calm w → Returns (handle (r, w))
unfolding handle
handle-Returns (returned u) w h = record { ahead = record { at = h.at }; now = refl }
handle-Returns (raised stopped) w h = record {
  ahead = record { at = λ i. rw (env-on_stopped w) (h.at i) };
  now = refl;
}
handle-Returns (raised (refused s)) w h = on_failure-Returns w h
handle-Returns (raised broken) w h = on_failure-Returns w h

blocked_returns :
    (a : Res Reply) (w : World)
    → a ≢ raised stopped
    → (outer (returned tt) (blocked (a, w))).0 ≡ returned tt
blocked_returns (returned r) w n = refl
blocked_returns (raised (refused s)) w n = refl
blocked_returns (raised broken) w n = refl
blocked_returns (raised stopped) w n = absurd (n refl)

release_target-Returns :
    (r : Res (Unit {0})) (w : World) → Returns (r, w) → (release_target (r, w)).0 ≡ returned tt
unfolding release_target
release_target-Returns (raised e) w n = absurd (let no = n.now in ground arith)
release_target-Returns (returned u) w n =
    elim (Bool-cases (w.quiesce_started && not (awaits_recovery w.status))) [
      | inl t ↦
          rw t (blocked_returns (call resume w).0 (call resume w).1 (outcome-call resume w n.ahead))
      | inr f ↦ rw f refl
    ]

-- If no call ends in a stop of the worker, `run` returns: every refusal and every other exception of
-- a service is handled.
pub run-returned :
    (w : World) → ((i : ℕ) → (w.env i).outcome ≢ raised stopped) → (run w).0 ≡ returned tt
unfolding run
run-returned w h =
    let b = body-Calm w (record { at = h }) in
    release_target-Returns _ _ (handle-Returns (body w).0 (body w).1 b)
