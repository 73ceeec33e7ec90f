-- ===== src/ModelGateway/Restart.antt =====
-- What model_gateway/src/state.py finds when it starts again.
use opencode_cloud.Prelude.{
  true, false, not, ◌&&◌, ◌||◌, none, some, List, [], ◌∷◌, ◌≡◌, ◌⊎◌, inl, inr, refl, ap, sym, ◌∙◌,
  subst, arith, All, Bool-cases,
}
use opencode_cloud.Json.{Json, null, value_of, entry, filled, json_eq}
use opencode_cloud.ModelGateway.Releases.{
  Outcome, done, refused, crashed, and_then, validate_release,
}
use opencode_cloud.ModelGateway.Accepted.{validate_release-Accepted}
use opencode_cloud.ModelGateway.State.{
  Disk, document, persist_steps, Gateway, router_of, empty, load, start, install, activate, restore,
  rollback, Call, activates, rolls_back, settle, run,
}

pub validated :
    (payload release : Json)
    → validate_release payload ≡ done release
    → validate_release release ≡ done release
validated payload release e =
    subst (λ p. validate_release p ≡ done release)
      (sym ((validate_release-Accepted payload release).0 e).0) e

module _ {R : Type 0} (factory : Json → Outcome R) where
  -- The file has the releases in use, the active one has passed the validation, and the router is
  -- the one that is made from it.
  pub record Held (g : Gateway R) : Type 0 where
    pub stored : g.disk.stored ≡ some (document g.active g.previous)
    pub accepted : validate_release g.active ≡ done g.active
    pub made : (r : R) × (router_of factory g.active ≡ done r) × (g.router ≡ some r)
    pub back : (g.previous ≡ null) ⊎ (validate_release g.previous ≡ done g.previous)

  unfoldable pub IsSynced : Gateway R → Type 0
  IsSynced g = ((g ≡ empty factory g.disk) × (g.disk.stored ≡ none)) ⊎ Held g

  pub start-IsSynced : (g : Gateway R) → IsSynced g → start factory g.disk ≡ done g
  unfolding start IsSynced value_of
  start-IsSynced g (inl (e, none_stored)) =
      subst (λ o. load factory g.disk o ≡ done g) (sym none_stored) (ap done (sym e))
  start-IsSynced g (inr h) =
      let (r, made, router) = h.made in
      subst (λ o. load factory g.disk o ≡ done g) (sym h.stored) (loaded r made router)
    where
      loaded :
          (r : R)
          → router_of factory g.active ≡ done r
          → g.router ≡ some r
          → load factory g.disk (some (document g.active g.previous)) ≡ done g
      loaded r made router =
          rw (h.accepted) (rw made (ap (λ x. done (record g { router = x })) (sym router)))

  settle_then :
      {A : Type 0} (P : Gateway R → Type 0) (g : Gateway R) (o : Outcome A) (f : A → Outcome _)
      → ((a : A) → o ≡ done a → P (settle factory g (f a)))
      → P g
      → P (settle factory g (and_then o f))
  settle_then P g (done a) f h p = h a refl
  settle_then P g (refused _ _) f h p = p
  settle_then P g crashed f h p = p

  installed :
      (g : Gateway R) (release : Json) (router : R)
      → IsSynced g
      → validate_release release ≡ done release
      → router_of factory release ≡ done router
      → Held (install factory release g router).1
  unfolding IsSynced
  installed g release router v accepted made = record {
    stored = refl;
    accepted = accepted;
    made = (router, made, refl);
    back = back v;
  }
    where
      back : IsSynced g → (g.active ≡ null) ⊎ (validate_release g.active ≡ done g.active)
      back (inl (e, none_stored)) = inl (ap (λ (g : Gateway R). g.active) e)
      back (inr h) = inr h.accepted

  activate-IsSynced :
      (payload : Json) (g : Gateway R)
      → IsSynced g
      → IsSynced (settle factory g (activate factory payload g))
  unfolding activate IsSynced
  activate-IsSynced payload g v =
      settle_then IsSynced g (validate_release payload) _
        (λ release e.
          elim (Bool-cases (
            filled g.active
            && json_eq (entry "release_id" g.active) (entry "release_id" release))) [
              | inl t ↦
                  rw t (elim (Bool-cases (json_eq g.active release)) [
                    | inl t ↦ rw t v
                    | inr f ↦ rw f v
                  ])
              | inr f ↦ rw f (
                  settle_then IsSynced g (router_of factory release) _
                    (λ router made.
                      inr (installed g release router v (validated payload release e) made))
                    v)
            ])
        v

  restored :
      (g : Gateway R) (router : R)
      → Held g
      → filled g.previous ≡ true
      → router_of factory g.previous ≡ done router
      → Held (restore factory g router).1
  restored g router h some_previous made = record {
    stored = refl;
    accepted = accepted h.back;
    made = (router, made, refl);
    back = inl refl;
  }
    where
      accepted :
          (g.previous ≡ null) ⊎ (validate_release g.previous ≡ done g.previous)
          → validate_release g.previous ≡ done g.previous
      accepted (inl e) = absurd (ground (arith, ap filled e, some_previous))
      accepted (inr e) = e

  rollback-IsSynced :
      (release_id : Json) (g : Gateway R)
      → IsSynced g
      → IsSynced (settle factory g (rollback factory release_id g))
  unfolding rollback IsSynced
  rollback-IsSynced release_id g v =
      elim (Bool-cases
        (not (filled g.active) || not (json_eq (entry "release_id" g.active) release_id))) [
          | inl t ↦ rw t v
          | inr f ↦ rw f (elim (Bool-cases (filled g.previous)) [
            | inr f ↦ rw f v
            | inl t ↦ rw t (
                settle_then IsSynced g (router_of factory g.previous) _
                  (λ router made. inr (restored g router (held v f) t made)) v)
          ])
        ]
    where
      held :
          IsSynced g
          → (not (filled g.active) || not (json_eq (entry "release_id" g.active) release_id))
            ≡ false
          → Held g
      held (inl (e, none_stored)) f =
          absurd (ground (arith, ap (λ (g : Gateway R). filled g.active) e, f))
      held (inr h) f = h

  run-IsSynced : (calls : List Call) (g : Gateway R) → IsSynced g → IsSynced (run factory calls g)
  run-IsSynced [] g v = v
  run-IsSynced (activates payload ∷ calls) g v =
      run-IsSynced calls _ (activate-IsSynced payload g v)
  run-IsSynced (rolls_back release_id ∷ calls) g v =
      run-IsSynced calls _ (rollback-IsSynced release_id g v)

  -- From a directory without active.json, after any activations and rollbacks, refused or not, a new
  -- start finds in the file the state that the service had: the same active and previous releases and
  -- the same router.
  pub start-run :
      (calls : List Call) (d : Disk)
      → d.stored ≡ none
      → start factory (run factory calls (empty factory d)).disk
        ≡ done (run factory calls (empty factory d))
  unfolding IsSynced
  start-run calls d none_stored =
      start-IsSynced (run factory calls (empty factory d))
        (run-IsSynced calls (empty factory d) (inl (refl, none_stored)))

  on_disk :
      (g : Gateway R) (d : Disk)
      → d.stored ≡ g.disk.stored
      → IsSynced g
      → IsSynced (record g { disk = d })
  unfolding IsSynced
  on_disk g d same (inl (e, none_stored)) =
      inl (ap (λ (g : Gateway R). record g { disk = d }) e, same ∙ none_stored)
  on_disk g d same (inr h) =
      inr (record { stored = same ∙ h.stored; accepted = h.accepted; made = h.made; back = h.back })

  -- Whenever the service stops while it writes an accepted release, the next start finds the state
  -- from before the activation or the state from after it.
  pub persist-recovers :
      (g : Gateway R) (release : Json) (router : R)
      → IsSynced g
      → validate_release release ≡ done release
      → router_of factory release ≡ done router
      → All
          (λ d.
            (start factory d ≡ done (record g { disk = d }))
            ⊎ (start factory d ≡ done (record (install factory release g router).1 { disk = d })))
          (persist_steps release g.active g.disk)
  unfolding IsSynced
  persist-recovers g release router v accepted made = (
    inl (start-IsSynced _ (on_disk g _ refl v)),
    (
      inl (start-IsSynced _ (on_disk g _ refl v)),
      (inr (start-IsSynced _ (inr (installed g release router v accepted made))), tt),
    ),
  )
