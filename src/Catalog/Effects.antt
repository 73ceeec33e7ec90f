-- ===== src/Catalog/Effects.antt =====
-- What the calls of catalog_service have done when they raise no exception.
pub mod Editing
pub mod Storing
pub mod Applying
use opencode_cloud.Prelude.{
  ℕ, suc, String, Bool, true, false, Option, none, some, List, [], ◌≡◌, ◌∙◌, ap, sym, arith, lookup,
  erase, if◌then◌else◌,
}
use opencode_cloud.Catalog.Documents.{
  Config, Draft, Resource, Agent, Lifecycle, Template, Release, Data, Table,
}
use opencode_cloud.Catalog.Replies.{Reply, Done, done, ok, fail, ◌>>=◌, bind-ok, ok_inj}
use opencode_cloud.Catalog.Edits.{edit, moved, has, Edited, edit-Edited}
use opencode_cloud.Catalog.Releases.{Order, prepared, store_release, prepare, apply_release, mark}
use opencode_cloud.Json.{Json}
use opencode_cloud.Catalog.Agents.{set_draft}
use opencode_cloud.Catalog.Templates.{restore_into}
use opencode_cloud.Catalog.Resources.{set_resource, next_version}
use opencode_cloud.Catalog.Lifecycles.{with_lifecycle, removed}
use opencode_cloud.Catalog.Calls.{Outside, without}

-- The document of a reply.
pub changed_document :
    (d d' : Data) → ◌≡◌ {A = Reply (Done × Data)} (ok (done, d)) (ok (done, d')) → d ≡ d'
changed_document d d' e = ap (λ (p : Done × Data). p.1) (ok_inj e)

-- The reply without its number.
pub without-ok :
    (r : Reply (ℕ × Data)) (d : Data) → without r ≡ ok (done, d) → (n : ℕ) × (r ≡ ok (n, d))
without-ok r d e =
    let (out, known, last) = bind-ok r _ _ e in
    (out.0, known ∙ ap (λ (x : Data). ok (out.0, x)) (changed_document out.1 d last))

-- A preparation that went through.
pub record Prepared (o : Outside) (rid : String) (order : Order) (value : Release) (t t' : Table)
    : Type 0 where
  pub valued :
      prepared o.gateway_configuration o.compile_agent rid order t.revision t.document ≡ ok value
  pub stored : t'.document ≡ store_release rid value t.document
  pub counted : t'.revision ≡ suc t.revision

pub prepare-Prepared :
    (o : Outside) (rid : String) (order : Order) (value : Release) (t t' : Table)
    → prepare o.gateway_configuration o.compile_agent rid order t ≡ ok (value, t')
    → Prepared o rid order value t t'
unfolding prepare
prepare-Prepared o rid order value t t' e =
    let change : Release → Data → Reply (Release × Data) = λ v d. ok (v, store_release rid v d) in
    let first = prepared o.gateway_configuration o.compile_agent rid order t.revision t.document in
    let later : (first >>= λ v. edit (some t.revision) (change v) t) ≡ ok (value, t') =
      ground arith in
    let (v, known, done_so) = bind-ok first _ _ later in
    let edited = edit-Edited (some t.revision) (change v) t t' value done_so in
    let both : ◌≡◌ {A = Release × Data} (v, store_release rid v t.document) (value, t'.document) =
      ok_inj (edited.changed) in
    let same : v ≡ value = ap (λ (p : Release × Data). p.0) both in
    record {
      valued = known ∙ ap ok same;
      stored =
          sym (ap (λ (p : Release × Data). p.1) both)
          ∙ ap (λ (x : Release). store_release rid x t.document) same;
      counted = edited.counted;
    }

-- The old resource, if there is one, has the versions of the new.
abbrev pub SameVersions : Option Resource → Resource → Type 0
SameVersions none r = r.versions ≡ []
SameVersions (some old) r = r.versions ≡ old.versions

abbrev pub copy_of : String → Option String → Bool → Resource → Resource
copy_of rid owner archived r = record r { id = rid; owner = owner; archived = archived }

-- What a call may have done to the document.
pub data Effect : Data → Data → Type 0 where
  stays : (d : Data) → Effect d d
  follows : (d d1 d2 : Data) → Effect d d1 → Effect d1 d2 → Effect d d2
  sets_models : (d : Data) (models : List (String × Json)) → Effect d (record d { models = models })
  sets_draft :
      (d : Data) (aid : String) (cfg : Config)
      → has aid d.agent_tombstones ≡ false
      → Effect d (set_draft aid cfg d)
  fills :
      (d : Data) (tid aid : String) (t : Template) (cfg : Config) (now : ℕ)
      → has aid d.agent_tombstones ≡ false
      → Effect d (restore_into tid t aid cfg now d)
  copies :
      (d : Data) (source rid : String) (owner : Option String) (archived : Bool) (r : Resource)
      → lookup source d.resources ≡ some r
      → Effect d (set_resource rid (copy_of rid owner archived r) d)
  sets_resource :
      (d : Data) (rid : String) (r : Resource)
      → SameVersions (lookup rid d.resources) r
      → Effect d (set_resource rid r d)
  adds_version :
      (d : Data) (rid : String) (now : ℕ) (checked : Draft) (r : Resource)
      → lookup rid d.resources ≡ some r
      → Effect d (set_resource rid (next_version now checked r) d)
  drops_resource :
      (d : Data) (rid : String) → Effect d (record d { resources = erase rid d.resources })
  applies :
      (d d' : Data) (rid : String) (value : Release) (now : ℕ)
      → lookup rid d.releases ≡ some value
      → apply_release value value.subject now d ≡ ok d'
      → Effect d (mark rid value d')
  moves :
      (d : Data) (aid : String) (a : Agent) (l : Lifecycle)
      → lookup aid d.agents ≡ some a
      → Effect d (with_lifecycle aid a l d)
  removes :
      (d : Data) (aid : String) (request_id : Option String) (now : ℕ)
      → Effect d (removed aid request_id now d)
