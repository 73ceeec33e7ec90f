-- ===== src/ModelGateway/Samples.antt =====
-- Two sample releases, tests of the gateway, and its theorems at these samples.
use opencode_cloud.Prelude.{
  String, true, false, none, [], ◌∷◌, ◌≡◌, ◌⊎◌, ◌↔◌, inl, refl, All, any, ◌==◌,
}
use opencode_cloud.Json.{
  Json, null, text, array, object, nil, cons, end, field, items, value_of, json_eq, proper,
}
use opencode_cloud.ModelGateway.Releases.{
  Outcome, done, refused, complaint, validate_release, settings, make_router,
}
use opencode_cloud.ModelGateway.Accepted.{Accepted, validate_release-Accepted}
use opencode_cloud.ModelGateway.State.{
  Disk, persist, persist_steps, Gateway, status, router_of, empty, start, install, activate,
  rollback, activates, rolls_back, run,
}
use opencode_cloud.ModelGateway.Restart.{Held, IsSynced, start-run, persist-recovers}
use opencode_cloud.ModelGateway.Repeats.{activate_again, rollback-activate}

abbrev deployment : Json
deployment = object (
    field "model_name" (text "m") (
      field "litellm_params" (object (field "model" (text "openai/m") end))
        (field "model_info" (object (field "id" (text "m1") end)) end)))

abbrev release : String → Json
release name = object (
    field "release_id" (text name)
      (field "configuration" (object (field "model_list" (array (cons deployment nil)) end)) end))

-- A router that is the list of its deployments.
abbrev factory : Json → Outcome Json
factory = make_router (λ models settings. done models)

abbrev new_disk : Disk
new_disk = record { stored = none; temporary = none }

abbrev fresh : Gateway Json
fresh = empty factory new_disk

abbrev first : Gateway Json
first = (install factory (release "r1") fresh (array (cons deployment nil))).1

accepted :
    (name : String) → (name == "") ≡ false → validate_release (release name) ≡ done (release name)
unfolding validate_release complaint items value_of any
accepted name e = rw e refl

duplicate_refused :
    validate_release (
      object (
        field "release_id" (text "r1") (
          field "configuration"
            (object (field "model_list" (array (cons deployment (cons deployment nil))) end))
            end)))
    ≡ refused 422 "Duplicate deployment id"
unfolding validate_release complaint items value_of any json_eq
duplicate_refused = refl

routed : (name : String) → router_of factory (release name) ≡ done (array (cons deployment nil))
unfolding make_router settings value_of
routed name = refl

activated_first : activate factory (release "r1") fresh ≡ done (status first, first)
unfolding activate validate_release complaint items value_of any make_router settings
activated_first = refl

abbrev second : Gateway Json
second = (install factory (release "r2") first (array (cons deployment nil))).1

activated_second : activate factory (release "r2") first ≡ done (status second, second)
unfolding activate validate_release complaint items value_of any make_router settings json_eq
activated_second = refl

fresh-IsSynced : IsSynced factory fresh
unfolding IsSynced
fresh-IsSynced = inl (refl, refl)

first-Held : Held factory first
first-Held = record {
  stored = refl;
  accepted = accepted "r1" refl;
  made = (array (cons deployment nil), routed "r1", refl);
  back = inl refl;
}

validate_release-Accepted_example :
    (validate_release (release "r1") ≡ done (release "r1"))
    ↔ ((release "r1" ≡ release "r1") × Accepted (release "r1"))
validate_release-Accepted_example = validate_release-Accepted (release "r1") (release "r1")

start-run_example :
    start factory
      (run factory
        (activates (release "r1") ∷ activates (release "r2") ∷ rolls_back (text "r2") ∷ [])
        fresh).disk
    ≡ done (
        run factory
          (activates (release "r1") ∷ activates (release "r2") ∷ rolls_back (text "r2") ∷ [])
          fresh)
start-run_example =
    start-run factory
      (activates (release "r1") ∷ activates (release "r2") ∷ rolls_back (text "r2") ∷ []) new_disk
      refl

persist-recovers_example :
    All
      (λ d.
        (start factory d ≡ done (record fresh { disk = d }))
        ⊎ (start factory d ≡ done (record first { disk = d })))
      (persist_steps (release "r1") null new_disk)
persist-recovers_example =
    persist-recovers factory fresh (release "r1") (array (cons deployment nil)) fresh-IsSynced
      (accepted "r1" refl) (routed "r1")

release_proper : proper (release "r1") ≡ true
unfolding proper value_of
release_proper = refl

activate_again_example : activate factory (release "r1") first ≡ done (status first, first)
activate_again_example = activate_again factory (release "r1") fresh release_proper activated_first

other_ids : json_eq (text "r1") (text "r2") ≡ false
unfolding json_eq
other_ids = refl

rollback-activate_example : rollback factory (text "r2") second ≡ (
    let back : Gateway Json = record first {
      previous = null;
      disk = persist (release "r1") null second.disk;
    } in
    done (status back, back))
unfolding value_of
rollback-activate_example =
    rollback-activate factory (release "r2") first first-Held other_ids activated_second
