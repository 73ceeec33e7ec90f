-- ===== src/Catalog/Effects/Storing.antt =====
-- The effects of the calls of catalog_service on resources.
use opencode_cloud.Prelude.{
  ℕ, String, false, ◌||◌, ◌==◌, ◌+◌, Option, none, some, ◌≡◌, refl, subst, inl, inr, arith, length,
  lookup, erase, Bool-cases, Option-cases,
}
use opencode_cloud.Json.{Json}
use opencode_cloud.Catalog.Documents.{Draft, Resource, Data}
use opencode_cloud.Catalog.Replies.{Reply, done, ok, ◌>>=◌, bind-ok, ok_inj}
use opencode_cloud.Catalog.Names.{identifier}
use opencode_cloud.Catalog.Resources.{
  Request, set_resource, updated, uploaded, next_version, draft_of, save_resource,
  resource_lifecycle, upload_skill, copy_resource, publish, publish_resource,
}
use opencode_cloud.Catalog.Effects.{
  changed_document, copy_of, SameVersions, Effect, copies, sets_resource, adds_version,
  drops_resource,
}

updated-SameVersions :
    (rid : String) (v : Request) (draft : Draft) (old : Option Resource)
    → SameVersions old (updated rid v draft old)
updated-SameVersions rid v draft none = refl
updated-SameVersions rid v draft (some r) = refl

uploaded-SameVersions :
    (rid : String) (owner : Option String) (name : String) (draft : Draft) (old : Option Resource)
    → SameVersions old (uploaded rid owner name draft old)
uploaded-SameVersions rid owner name draft none = refl
uploaded-SameVersions rid owner name draft (some r) = refl

pub save_resource-Effect :
    (blob : String → String) (validate_mcp : Json → Reply Json) (rid : String) (v : Request)
    (d d' : Data)
    → save_resource blob validate_mcp rid v d ≡ ok (done, d')
    → Effect d d'
unfolding save_resource
save_resource-Effect blob validate_mcp rid v d d' e =
    let old = lookup rid d.resources in
    let (id, named, e1) = bind-ok (identifier rid) _ _ e in
    let later : (identifier v.name >>= λ _. draft_of blob validate_mcp v old >>= λ draft.
    ok (done, set_resource rid (updated rid v draft old) d))
        ≡ ok (done, d') =
      ground arith in
    let (name, e2, e3) = bind-ok (identifier v.name) _ _ later in
    let (draft, e4, last) = bind-ok (draft_of blob validate_mcp v old) _ _ e3 in
    subst (Effect d) (changed_document (set_resource rid (updated rid v draft old) d) d' last)
      (sets_resource d rid (updated rid v draft old) (updated-SameVersions rid v draft old))

pub resource_lifecycle-Effect :
    (rid action : String) (d d' : Data)
    → resource_lifecycle rid action d ≡ ok (done, d')
    → Effect d d'
unfolding resource_lifecycle
resource_lifecycle-Effect rid action d d' e = elim (Option-cases (lookup rid d.resources)) [
  | inl absent ↦ absurd (ground arith)
  | inr (r, present) ↦ elim (Bool-cases (action == "archive" || action == "restore")) [
    | inl t ↦
        let after : Resource = record r { archived = action == "archive" } in
        subst (Effect d) (changed_document (set_resource rid after d) d' (ground arith))
          (sets_resource d rid after (rw present refl))
    | inr f ↦
        let after : Data = record d { resources = erase rid d.resources } in
        subst (Effect d) (changed_document after d' (ground arith)) (drops_resource d rid)
  ]
]

pub upload_skill-Effect :
    (rid : String) (owner : Option String) (name : String) (draft : Draft) (d d' : Data)
    → upload_skill rid owner name draft d ≡ ok (done, d')
    → Effect d d'
unfolding upload_skill
upload_skill-Effect rid owner name draft d d' e =
    let old = lookup rid d.resources in
    let (id, named, e1) = bind-ok (identifier rid) _ _ e in
    subst (Effect d)
      (changed_document (set_resource rid (uploaded rid owner name draft old) d) d' (ground arith))
      (sets_resource d rid (uploaded rid owner name draft old)
        (uploaded-SameVersions rid owner name draft old))

pub copy_resource-Effect :
    (source rid : String) (owner : Option String) (d d' : Data)
    → copy_resource source rid owner d ≡ ok (done, d')
    → Effect d d'
unfolding copy_resource
copy_resource-Effect source rid owner d d' e =
    let (id, named, e1) = bind-ok (identifier rid) _ _ e in
    elim (Option-cases (lookup source d.resources)) [
      | inl absent ↦ absurd (ground arith)
      | inr (r, present) ↦
          subst (Effect d)
            (changed_document (set_resource rid (copy_of rid owner false r) d) d' (ground arith))
            (copies d source rid owner false r present)
    ]

pub publish-Effect :
    (rid : String) (original checked : Draft) (now : ℕ) (d : Data) (out : ℕ × Data)
    → publish rid original checked now d ≡ ok out
    → Effect d out.1
unfolding publish
publish-Effect rid original checked now d out e = elim (Option-cases (lookup rid d.resources)) [
  | inl absent ↦ absurd (ground arith)
  | inr (r, present) ↦
      let after : ℕ × Data =
        (length r.versions + 1, set_resource rid (next_version now checked r) d) in
      let same : after ≡ out = ok_inj (ground arith) in
      subst (λ (p : ℕ × Data). Effect d p.1) same (adds_version d rid now checked r present)
]

pub publish_resource-Effect :
    (rid : String) (checked : Draft) (now : ℕ) (d : Data) (out : ℕ × Data)
    → publish_resource rid checked now d ≡ ok out
    → Effect d out.1
unfolding publish_resource
publish_resource-Effect rid checked now d out e = elim (Option-cases (lookup rid d.resources)) [
  | inl absent ↦ absurd (ground arith)
  | inr (r, present) ↦
      let after : ℕ × Data =
        (length r.versions + 1, set_resource rid (next_version now checked r) d) in
      let same : after ≡ out = ok_inj (ground arith) in
      subst (λ (p : ℕ × Data). Effect d p.1) same (adds_version d rid now checked r present)
]
