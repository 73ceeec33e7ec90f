-- ===== src/Catalog/Drafts/Resources.antt =====
-- The drafts of agents under the calls on resources.
use opencode_cloud.Prelude.{
  ℕ, String, true, false, ◌||◌, ◌==◌, ◌+◌, Option, none, some, ◌≡◌, refl, subst, inl, inr, arith,
  any-false, length, lookup, erase, All, All-map, All-both, Bool-cases, Option-cases,
}
use opencode_cloud.Json.{Json}
use opencode_cloud.Catalog.Documents.{Config, Draft, Resource, Data}
use opencode_cloud.Catalog.Replies.{Reply, done, ok, ◌>>=◌, bind-ok, ok_inj}
use opencode_cloud.Catalog.Names.{identifier}
use opencode_cloud.Catalog.Resources.{
  Request, set_resource, updated, uploaded, next_version, binds, refers, referenced, draft_of,
  save_resource, resource_lifecycle, upload_skill, copy_resource, publish, publish_resource,
}
use opencode_cloud.Catalog.Bindings.{bindable, bindable-put, bindable-erase, Extends, find_longer}
use opencode_cloud.Catalog.Validation.{Valid}
use opencode_cloud.Catalog.Drafts.{ValidDraft, ValidDrafts}
use opencode_cloud.Catalog.Effects.{changed_document}
use opencode_cloud.Catalog.Drafts.Agents.{Grows-ValidDrafts}

set_resource-ValidDrafts :
    (rid : String) (r : Resource) (d : Data)
    → Extends (lookup rid d.resources) r
    → ValidDrafts d
    → ValidDrafts (set_resource rid r d)
set_resource-ValidDrafts rid r d x v =
    Grows-ValidDrafts d _ (λ aid b h. bindable-put rid r d.resources x aid b h) v

updated-Extends :
    (rid : String) (v : Request) (draft : Draft) (old : Option Resource)
    → Extends old (updated rid v draft old)
updated-Extends rid v draft none = tt
updated-Extends rid v draft (some r) = (refl, λ n h. h)

uploaded-Extends :
    (rid : String) (owner : Option String) (name : String) (draft : Draft) (old : Option Resource)
    → Extends old (uploaded rid owner name draft old)
uploaded-Extends rid owner name draft none = tt
uploaded-Extends rid owner name draft (some r) = (refl, λ n h. h)

next_version-Extends :
    (now : ℕ) (checked : Draft) (r : Resource) → Extends (some r) (next_version now checked r)
next_version-Extends now checked r = (refl, λ n h. find_longer n r.versions _ h)

pub save_resource-ValidDrafts :
    (blob : String → String) (validate_mcp : Json → Reply Json) (rid : String) (v : Request)
    (d d' : Data)
    → save_resource blob validate_mcp rid v d ≡ ok (done, d')
    → ValidDrafts d
    → ValidDrafts d'
unfolding save_resource
save_resource-ValidDrafts blob validate_mcp rid v d d' e h =
    let old = lookup rid d.resources in
    let (id, named, e1) = bind-ok (identifier rid) _ _ e in
    let later : (identifier v.name >>= λ _. draft_of blob validate_mcp v old >>= λ draft.
    ok (done, set_resource rid (updated rid v draft old) d))
        ≡ ok (done, d') =
      ground arith in
    let (name, e2, e3) = bind-ok (identifier v.name) _ _ later in
    let (draft, e4, last) = bind-ok (draft_of blob validate_mcp v old) _ _ e3 in
    subst ValidDrafts (changed_document (set_resource rid (updated rid v draft old) d) d' last)
      (set_resource-ValidDrafts rid (updated rid v draft old) d (updated-Extends rid v draft old) h)

-- A resource that nothing refers to is bound by no draft.
unbound_drafts :
    (rid : String) (d : Data)
    → referenced rid d ≡ false
    → All (λ row. binds rid row.1.draft ≡ false) d.agents
unbound_drafts rid d e =
    All-map _ _ d.agents (λ row k. ground (arith, k))
      (any-false (λ row. refers rid row.1) d.agents (ground (arith, e)))

erased-ValidDrafts :
    (rid : String) (d : Data)
    → referenced rid d ≡ false
    → ValidDrafts d
    → ValidDrafts (record d { resources = erase rid d.resources })
erased-ValidDrafts rid d e v =
    All-map _ _ d.agents (λ row (unbound, h). erased row.0 row.1.draft unbound h)
      (All-both (λ row. binds rid row.1.draft ≡ false) (ValidDraft d.models d.resources) d.agents
        (unbound_drafts rid d e) v)
  where
    erased :
        (aid : String) (cfg : Config)
        → binds rid cfg ≡ false
        → Valid d.models d.resources aid cfg
        → Valid d.models (erase rid d.resources) aid cfg
    erased aid cfg unbound h = record {
      offered = h.offered;
      assigned = h.assigned;
      bound =
          All-map _ _ cfg.bindings (λ b (other, k). bindable-erase rid aid b d.resources other k)
            (All-both (λ b. (b.id == rid) ≡ false) (λ b. bindable d.resources aid b ≡ true)
              cfg.bindings (any-false (λ b. b.id == rid) cfg.bindings unbound) h.bound);
    }

pub resource_lifecycle-ValidDrafts :
    (rid action : String) (d d' : Data)
    → resource_lifecycle rid action d ≡ ok (done, d')
    → ValidDrafts d
    → ValidDrafts d'
unfolding resource_lifecycle
resource_lifecycle-ValidDrafts rid action d d' e v = elim (Option-cases (lookup rid d.resources)) [
  | inl absent ↦ absurd (ground arith)
  | inr (r, present) ↦ elim (Bool-cases (action == "archive" || action == "restore")) [
    | inl t ↦
        let after : Resource = record r { archived = action == "archive" } in
        subst ValidDrafts (changed_document (set_resource rid after d) d' (ground arith))
          (set_resource-ValidDrafts rid after d (rw present (refl, λ n h. h)) v)
    | inr f ↦
        let unused : referenced rid d ≡ false = ground arith in
        let after : Data = record d { resources = erase rid d.resources } in
        subst ValidDrafts (changed_document after d' (ground arith))
          (erased-ValidDrafts rid d unused v)
  ]
]

pub upload_skill-ValidDrafts :
    (rid : String) (owner : Option String) (name : String) (draft : Draft) (d d' : Data)
    → upload_skill rid owner name draft d ≡ ok (done, d')
    → ValidDrafts d
    → ValidDrafts d'
unfolding upload_skill
upload_skill-ValidDrafts rid owner name draft d d' e v =
    let old = lookup rid d.resources in
    let (id, named, e1) = bind-ok (identifier rid) _ _ e in
    subst ValidDrafts
      (changed_document (set_resource rid (uploaded rid owner name draft old) d) d' (ground arith))
      (set_resource-ValidDrafts rid (uploaded rid owner name draft old) d
        (uploaded-Extends rid owner name draft old) v)

pub copy_resource-ValidDrafts :
    (source rid : String) (owner : Option String) (d d' : Data)
    → copy_resource source rid owner d ≡ ok (done, d')
    → ValidDrafts d
    → ValidDrafts d'
unfolding copy_resource
copy_resource-ValidDrafts source rid owner d d' e v =
    let (id, named, e1) = bind-ok (identifier rid) _ _ e in
    elim (Option-cases (lookup source d.resources)) [
      | inl absent ↦ absurd (ground arith)
      | inr (r, present) ↦ elim (Option-cases (lookup rid d.resources)) [
        | inr (old, taken) ↦ absurd (ground arith)
        | inl free ↦
            let copy : Resource = record r { id = rid; owner = owner; archived = false } in
            subst ValidDrafts (changed_document (set_resource rid copy d) d' (ground arith))
              (set_resource-ValidDrafts rid copy d (rw free tt) v)
      ]
    ]

published-ValidDrafts :
    (rid : String) (now : ℕ) (checked : Draft) (r : Resource) (d : Data)
    → lookup rid d.resources ≡ some r
    → ValidDrafts d
    → ValidDrafts (set_resource rid (next_version now checked r) d)
published-ValidDrafts rid now checked r d present v =
    set_resource-ValidDrafts rid (next_version now checked r) d
      (rw present (next_version-Extends now checked r)) v

pub publish-ValidDrafts :
    (rid : String) (original checked : Draft) (now : ℕ) (d : Data) (out : ℕ × Data)
    → publish rid original checked now d ≡ ok out
    → ValidDrafts d
    → ValidDrafts out.1
unfolding publish
publish-ValidDrafts rid original checked now d out e v =
    elim (Option-cases (lookup rid d.resources)) [
      | inl absent ↦ absurd (ground arith)
      | inr (r, present) ↦
          let after : ℕ × Data =
            (length r.versions + 1, set_resource rid (next_version now checked r) d) in
          let same : after ≡ out = ok_inj (ground arith) in
          subst (λ (p : ℕ × Data). ValidDrafts p.1) same
            (published-ValidDrafts rid now checked r d present v)
    ]

pub publish_resource-ValidDrafts :
    (rid : String) (checked : Draft) (now : ℕ) (d : Data) (out : ℕ × Data)
    → publish_resource rid checked now d ≡ ok out
    → ValidDrafts d
    → ValidDrafts out.1
unfolding publish_resource
publish_resource-ValidDrafts rid checked now d out e v =
    elim (Option-cases (lookup rid d.resources)) [
      | inl absent ↦ absurd (ground arith)
      | inr (r, present) ↦
          let after : ℕ × Data =
            (length r.versions + 1, set_resource rid (next_version now checked r) d) in
          let same : after ≡ out = ok_inj (ground arith) in
          subst (λ (p : ℕ × Data). ValidDrafts p.1) same
            (published-ValidDrafts rid now checked r d present v)
    ]
