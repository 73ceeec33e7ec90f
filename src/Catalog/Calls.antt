-- ===== src/Catalog/Calls.antt =====
-- The calls that change the row of catalog_service, each in one transaction of `edit`.
use Prim.Native.String.{◌++◌ as ◌<>◌}
use opencode_cloud.Prelude.{
  ℕ, String, true, Bool, false, Option, none, some, List, ◌≡◌, ◌<◌, ◌==◌, lookup,
}
use opencode_cloud.Json.{Json}
use opencode_cloud.Catalog.Documents.{Binding, Config, Draft, Resource, Agent, Release, Data, Table}
use opencode_cloud.Catalog.Replies.{Reply, Done, done, ok, ◌>>=◌}
use opencode_cloud.Catalog.Edits.{edit}
use opencode_cloud.Catalog.Agents.{save_agent}
use opencode_cloud.Catalog.Templates.{restore}
use opencode_cloud.Catalog.Models.{save_model, import_models, delete_model}
use opencode_cloud.Catalog.Resources.{
  Request, save_resource, resource_lifecycle, upload_skill, copy_resource, publish,
  publish_resource,
}
use opencode_cloud.Catalog.Releases.{Order, Compiled, targeted, prepare, commit}
use opencode_cloud.Catalog.Lifecycles.{Action, lifecycle}

-- What the calls take from elsewhere: the checks of field contents, the digests, the compiler, and
-- the file system's answers.
pub record Outside : Type 0 where
  pub model_validates : Config → Bool
  pub blob : String → String
  pub validate_mcp : Json → Reply Json
  pub validate_model : Json → Reply Done
  pub gateway_configuration : List (String × Json) → Reply Json
  pub compile_agent : Data → String → Config → ℕ → Reply Compiled
  pub fingerprint : Agent → List (String × Resource) → String
  pub is_compiled : String → Bool
  pub is_changed : String → Bool

pub data Call : Type 0 where
  saves_model : String → Json → Call
  imports_models : Bool → List Json → Call
  deletes_model : String → Call
  saves_agent : String → Config → Option String → (ℕ → String) → Call
  restores_template : String → String → List (String × String) → List (String × Binding) → ℕ → Call
  saves_resource : String → Request → Call
  moves_resource : String → String → Call
  uploads_skill : String → Option String → String → Draft → Call
  copies_resource : String → String → Option String → Call
  publishes : String → Draft → Draft → ℕ → Call
  publishes_resource : String → Draft → ℕ → Call
  commits : String → ℕ → Call
  ends : String → Action → ℕ → Call

-- The digits of new identifiers are new to the document and differ.
abbrev pub Fresh : (ℕ → String) → List (String × Resource) → Type 0
Fresh hex resources =
    ((n : ℕ) → lookup ("r-" <> hex n) resources ≡ none)
    × ((n m : ℕ) → n < m → ("r-" <> hex n == "r-" <> hex m) ≡ false)

-- uuid4 is asked for by the copy of an agent only.
abbrev pub Allowed : Call → Data → Type 0
Allowed (saves_agent aid value (some source) hex) d = Fresh hex d.resources
Allowed _ d = Unit

abbrev pub without {ℓ} : {A : Type ℓ} → Reply (A × Data) → Reply (Done × Data)
without r = r >>= λ (a, d). ok (done, d)

module _ (o : Outside) where
  -- The change that a call makes in its transaction.
  unfoldable pub change : Call → Data → Reply (Done × Data)
  change (saves_model mid value) d = save_model o.validate_model mid value d
  change (imports_models replace items) d = import_models o.validate_model replace items d
  change (deletes_model mid) d = delete_model mid d
  change (saves_agent aid value source hex) d = save_agent aid value source hex d
  change (restores_template tid aid models resources now) d =
      restore o.model_validates tid aid models resources now d
  change (saves_resource rid v) d = save_resource o.blob o.validate_mcp rid v d
  change (moves_resource rid action) d = resource_lifecycle rid action d
  change (uploads_skill rid owner name draft) d = upload_skill rid owner name draft d
  change (copies_resource source rid owner) d = copy_resource source rid owner d
  change (publishes rid original checked now) d = without (publish rid original checked now d)
  change (publishes_resource rid checked now) d = without (publish_resource rid checked now d)
  change (commits rid now) d = without (commit rid now d)
  change (ends aid p now) d = lifecycle o.fingerprint o.is_compiled o.is_changed aid p now d

  -- A call that raises no exception, with the revision that it expects.
  pub data Step : Table → Table → Type 0 where
    calls :
        (expected : Option ℕ) (c : Call) (t t' : Table)
        → Allowed c t.document
        → edit expected (change c) t ≡ ok (done, t')
        → Step t t'
    prepares :
        (rid : String) (order : Order) (value : Release) (t t' : Table)
        → targeted order ≡ true
        → prepare o.gateway_configuration o.compile_agent rid order t ≡ ok (value, t')
        → Step t t'

  -- A history of such calls.
  pub data History : Table → Table → Type 0 where
    start : (t : Table) → History t t
    next : (t t' t'' : Table) → History t t' → Step t' t'' → History t t''
