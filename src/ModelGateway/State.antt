-- ===== src/ModelGateway/State.antt =====
-- `GatewayState` of model_gateway/src/state.py, over the file `active.json`. `None` is the document
-- `null`, as it is written. The router is made by a factory, which is an argument.
use opencode_cloud.Prelude.{
  Bool, true, false, not, ◌&&◌, ◌||◌, Option, none, some, List, [], ◌∷◌, if◌then◌else◌,
}
use opencode_cloud.Json.{Json, null, object, end, field, entry, filled, json_eq}
use opencode_cloud.ModelGateway.Releases.{
  Outcome, done, refused, crashed, and_then, index, validate_release,
}

-- `stored` is active.json; `temporary` is active.json.tmp, with no document while it is not complete.
pub record Disk : Type 0 where
  pub stored : Option Json
  pub temporary : Option (Option Json)

pub record Status : Type 0 where
  pub ok : Bool
  pub ready : Bool
  pub release_id : Json
  pub version : Json

abbrev pub document : Json → Json → Json
document active previous = object (field "active" active (field "previous" previous end))

-- The disk after each step of `persist`: the file is opened, written and synced, and renamed.
abbrev pub persist_steps : Json → Json → Disk → List Disk
persist_steps active previous d =
    record d { temporary = some none }
    ∷ record d { temporary = some (some (document active previous)) }
    ∷ record { stored = some (document active previous); temporary = none }
    ∷ []

abbrev last_of : Disk → List Disk → Disk
last_of d [] = d
last_of d (x ∷ xs) = last_of x xs

abbrev pub persist : Json → Json → Disk → Disk
persist active previous d = last_of d (persist_steps active previous d)

pub record Gateway (R : Type 0) : Type 0 where
  pub active : Json
  pub previous : Json
  pub router : Option R
  pub disk : Disk

pub data Call : Type 0 where
  activates rolls_back : Json → Call

module _ {R : Type 0} where
  abbrev pub is_ready : Option R → Bool
  is_ready none = false
  is_ready (some r) = true

  abbrev pub status : Gateway R → Status
  status g = record {
    ok = is_ready g.router;
    ready = is_ready g.router;
    release_id = if filled g.active then entry "release_id" g.active else null;
    version = if filled g.active then entry "version" g.active else null;
  }

  module _ (factory : Json → Outcome R) where
    abbrev pub router_of : Json → Outcome R
    router_of release = and_then (index "configuration" release) factory

    abbrev pub empty : Disk → Gateway R
    empty d = record { active = null; previous = null; router = none; disk = d }

    abbrev pub load : Disk → Option Json → Outcome (Gateway R)
    load d none = done (empty d)
    load d (some stored) = and_then (and_then (index "active" stored) validate_release) (λ active.
        and_then (router_of active) (λ router. done (record {
          active = active;
          previous = entry "previous" stored;
          router = some router;
          disk = d;
        })))

    -- __init__
    unfoldable pub start : Disk → Outcome (Gateway R)
    start d = load d d.stored

    unfoldable pub validate : Json → Outcome Json
    validate payload =
        and_then (validate_release payload)
          (λ release. and_then (router_of release) (λ router. done (entry "release_id" release)))

    -- The end of `activate`, with the router made.
    abbrev pub install : Json → Gateway R → R → Status × Gateway R
    install release g router =
        let g' : Gateway R = record {
          active = release;
          previous = g.active;
          router = some router;
          disk = persist release g.active g.disk;
        } in
        (status g', g')

    -- `activate` once the release has passed the validation.
    abbrev pub activate_valid : Json → Gateway R → Outcome (Status × Gateway R)
    activate_valid release g =
        if filled g.active && json_eq (entry "release_id" g.active) (entry "release_id" release)
        then if json_eq g.active release
          then done (status g, g)
          else refused 409 "release_id already identifies different configuration"
        else and_then (router_of release) (λ router. done (install release g router))

    unfoldable pub activate : Json → Gateway R → Outcome (Status × Gateway R)
    activate payload g = and_then (validate_release payload) (λ release. activate_valid release g)

    -- The end of `rollback`, with the router made.
    abbrev pub restore : Gateway R → R → Status × Gateway R
    restore g router =
        let g' : Gateway R = record {
          active = g.previous;
          previous = null;
          router = some router;
          disk = persist g.previous null g.disk;
        } in
        (status g', g')

    unfoldable pub rollback : Json → Gateway R → Outcome (Status × Gateway R)
    rollback release_id g =
        if not (filled g.active) || not (json_eq (entry "release_id" g.active) release_id)
        then refused 409 "Active release changed"
        else if not (filled g.previous)
        then refused 409 "No previous release"
        else and_then (router_of g.previous) (λ router. done (restore g router))

    abbrev pub answer : Call → Gateway R → Outcome (Status × Gateway R)
    answer (activates payload) g = activate payload g
    answer (rolls_back release_id) g = rollback release_id g

    -- A call that raises leaves the state.
    abbrev pub settle : Gateway R → Outcome (Status × Gateway R) → Gateway R
    settle g (done (s, g')) = g'
    settle g (refused _ _) = g
    settle g crashed = g

    abbrev pub run : List Call → Gateway R → Gateway R
    run [] g = g
    run (c ∷ calls) g = run calls (settle g (answer c g))
