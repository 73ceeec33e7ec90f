-- ===== src/ModelGateway/Repeats.antt =====
-- Activations repeated and undone in model_gateway/src/state.py.
use opencode_cloud.Prelude.{
  Bool, true, false, ◌&&◌, ◌≡◌, ◌⊎◌, inl, inr, refl, ap, sym, ◌∙◌, subst, arith, eq_refl,
  if◌then◌else◌,
}
use opencode_cloud.Json.{
  Json, null, boolean, number, text, array, object, end, field, value_of, entry, filled, is_text,
  json_eq, proper,
}
use opencode_cloud.Json.Equality.{json_eq_refl}
use opencode_cloud.ModelGateway.Releases.{
  Outcome, done, refused, crashed, and_then, is_named, validate_release,
}
use opencode_cloud.ModelGateway.Accepted.{validate_release-Accepted}
use opencode_cloud.ModelGateway.State.{
  Status, persist, Gateway, status, router_of, install, activate_valid, activate, rollback,
}
use opencode_cloud.ModelGateway.Restart.{Held}

filled-named : (p : Json) → is_named p ≡ true → filled p ≡ true
unfolding value_of
filled-named (object (field k v rest)) e = refl
filled-named (object end) e = absurd (ground arith)
filled-named null e = absurd (ground arith)
filled-named (boolean b) e = absurd (ground arith)
filled-named (number n) e = absurd (ground arith)
filled-named (text s) e = absurd (ground arith)
filled-named (array xs) e = absurd (ground arith)

text_same : (j : Json) → is_text j ≡ true → json_eq j j ≡ true
unfolding json_eq
text_same (text s) e = eq_refl s
text_same null e = absurd (ground arith)
text_same (boolean b) e = absurd (ground arith)
text_same (number n) e = absurd (ground arith)
text_same (array xs) e = absurd (ground arith)
text_same (object fs) e = absurd (ground arith)

named_text : (p : Json) → is_named p ≡ true → is_text (entry "release_id" p) ≡ true
named_text p e = ground arith

module _ {R : Type 0} (factory : Json → Outcome R) where
  abbrev same_release : Gateway R → Json → Bool
  same_release g release =
      filled g.active && json_eq (entry "release_id" g.active) (entry "release_id" release)

  activated :
      (payload : Json) (g : Gateway R) {r : Status × Gateway R}
      → activate factory payload g ≡ done r
      → (validate_release payload ≡ done payload) × (activate_valid factory payload g ≡ done r)
  unfolding activate
  activated payload g {r} e = by_cases (validate_release payload) refl e
    where
      by_cases :
          (o : Outcome Json)
          → validate_release payload ≡ o
          → and_then o (λ release. activate_valid factory release g) ≡ done r
          → (validate_release payload ≡ done payload) × (activate_valid factory payload g ≡ done r)
      by_cases (done release) v e =
          let same : release ≡ payload = ((validate_release-Accepted payload release).0 v).0 in
          (v ∙ ap done same, subst (λ p. activate_valid factory p g ≡ done r) same e)
      by_cases (refused x y) v e = absurd (ground arith)
      by_cases crashed v e = absurd (ground arith)

  made_new :
      (release : Json) (g : Gateway R) {s : Status} {g' : Gateway R} (o : Outcome R)
      → router_of factory release ≡ o
      → and_then o (λ router. done (install factory release g router)) ≡ done (s, g')
      → (router : R) × (router_of factory release ≡ done router)
        × (g' ≡ (install factory release g router).1)
  made_new release g (done router) v e = (router, v, ground (arith, e))
  made_new release g (refused x y) v e = absurd (ground arith)
  made_new release g crashed v e = absurd (ground arith)

  -- An activation either repeats the active release, or installs the new one.
  installs :
      (release : Json) (g : Gateway R) {s : Status} {g' : Gateway R}
      → activate_valid factory release g ≡ done (s, g')
      → ((g' ≡ g) × (activate_valid factory release g ≡ done (status g, g)))
        ⊎ ((router : R) × (router_of factory release ≡ done router)
            × (g' ≡ (install factory release g router).1))
  installs release g {s} {g'} e =
      by_cases (same_release g release) (json_eq g.active release) refl refl e
    where
      by_cases :
          (same equal : Bool)
          → same_release g release ≡ same
          → json_eq g.active release ≡ equal
          → (if same
              then if equal
                then done (status g, g)
                else refused 409 "release_id already identifies different configuration"
              else and_then
                  (router_of factory release)
                  (λ router. done (install factory release g router)))
            ≡ done (s, g')
          → ((g' ≡ g) × (activate_valid factory release g ≡ done (status g, g)))
            ⊎ ((router : R) × (router_of factory release ≡ done router)
                × (g' ≡ (install factory release g router).1))
      by_cases true true a b e = inl (ground (arith, e), rw a (rw b refl))
      by_cases true false a b e = absurd (ground arith)
      by_cases false equal a b e = inr (made_new release g (router_of factory release) refl e)

  activates_valid :
      (payload : Json) (g : Gateway R) {r : Status × Gateway R}
      → validate_release payload ≡ done payload
      → activate_valid factory payload g ≡ done r
      → activate factory payload g ≡ done r
  unfolding activate
  activates_valid payload g v e = rw v e

  -- To activate a release again that has just been activated succeeds, reports the status and changes
  -- nothing.
  pub activate_again :
      (payload : Json) (g : Gateway R) {s : Status} {g' : Gateway R}
      → proper payload ≡ true
      → activate factory payload g ≡ done (s, g')
      → activate factory payload g' ≡ done (status g', g')
  activate_again payload g {s} {g'} distinct e =
      let (v, valid) = activated payload g e in by_cases v (installs payload g valid)
    where
      by_cases :
          validate_release payload ≡ done payload
          → ((g' ≡ g) × (activate_valid factory payload g ≡ done (status g, g)))
            ⊎ ((router : R) × (router_of factory payload ≡ done router)
                × (g' ≡ (install factory payload g router).1))
          → activate factory payload g' ≡ done (status g', g')
      by_cases v (inl (same, again)) =
          subst (λ g. activate factory payload g ≡ done (status g, g)) (sym same)
            (activates_valid payload g v again)
      by_cases v (inr (router, made, same)) =
          let a = ((validate_release-Accepted payload payload).0 v).1 in
          let installed = (install factory payload g router).1 in
          let repeated : activate_valid factory payload installed
              ≡ done (status installed, installed) =
            rw (filled-named payload a.named) (
              rw (text_same _ (named_text payload a.named))
                (rw (json_eq_refl payload distinct) refl)) in
          subst (λ g. activate factory payload g ≡ done (status g, g)) (sym same)
            (activates_valid payload installed v repeated)

  -- A rollback of a release that has just replaced another brings back the active release and the
  -- router that were there before; what was previous then is lost.
  pub rollback-activate :
      (payload : Json) (g : Gateway R) {s : Status} {g' : Gateway R}
      → Held factory g
      → json_eq (entry "release_id" g.active) (entry "release_id" payload) ≡ false
      → activate factory payload g ≡ done (s, g')
      → rollback factory (entry "release_id" payload) g' ≡ (
          let back : Gateway R = record {
            active = g.active;
            previous = null;
            router = g.router;
            disk = persist g.active null g'.disk;
          } in
          done (status back, back))
  unfolding rollback
  rollback-activate payload g {s} {g'} h other e =
      let (v, valid) = activated payload g e in
      let (router, made, same) = made_new payload g (router_of factory payload) refl (
        subst
          (λ b.
            (if b
              then if json_eq g.active payload
                then done (status g, g)
                else refused 409 "release_id already identifies different configuration"
              else and_then (router_of factory payload)
                  (λ router. done (install factory payload g router)))
            ≡ done (s, g'))
          (differs _ _ other) valid) in
      let a = ((validate_release-Accepted payload payload).0 v).1 in
      let b = ((validate_release-Accepted g.active g.active).0 h.accepted).1 in
      let (old, remade, kept) = h.made in
      subst
        (λ (x : Gateway R).
          rollback factory (entry "release_id" payload) x ≡ done (status (back x), back x))
        (sym same)
        (rw (filled-named payload a.named) (
          rw (text_same _ (named_text payload a.named))
            (rw (filled-named g.active b.named) (rw remade (rw kept refl)))))
    where
      back : Gateway R → Gateway R
      back x = record {
        active = g.active;
        previous = null;
        router = g.router;
        disk = persist g.active null x.disk;
      }

      differs : (a b : Bool) → b ≡ false → (a && b) ≡ false
      differs a b e = ground arith
