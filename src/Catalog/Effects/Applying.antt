-- ===== src/Catalog/Effects/Applying.antt =====
-- The effects of `commit` and `lifecycle` of catalog_service/main.py, and of every call.
use opencode_cloud.Prelude.{
  ℕ, String, Bool, ◌==◌, List, ◌≡◌, subst, inl, inr, arith, lookup, Bool-cases, Option-cases,
}
use opencode_cloud.Catalog.Documents.{Resource, Agent, Data}
use opencode_cloud.Catalog.Replies.{done, ok, ◌>>=◌, bind-ok, ok_inj}
use opencode_cloud.Catalog.Releases.{apply_release, mark, commit}
use opencode_cloud.Catalog.Resources.{publish, publish_resource}
use opencode_cloud.Catalog.Lifecycles.{Action, with_lifecycle, removed, target_of, lifecycle}
use opencode_cloud.Catalog.Calls.{
  Outside, Call, saves_model, imports_models, deletes_model, saves_agent, restores_template,
  saves_resource, moves_resource, uploads_skill, copies_resource, publishes, publishes_resource,
  commits, ends, change,
}
use opencode_cloud.Catalog.Effects.{
  changed_document, without-ok, Effect, stays, applies, moves, removes,
}
use opencode_cloud.Catalog.Effects.Editing.{
  save_model-Effect, import_models-Effect, delete_model-Effect, save_agent-Effect, restore-Effect,
}
use opencode_cloud.Catalog.Effects.Storing.{
  save_resource-Effect, resource_lifecycle-Effect, upload_skill-Effect, copy_resource-Effect,
  publish-Effect, publish_resource-Effect,
}

commit-Effect :
    (rid : String) (now : ℕ) (d : Data) (out : ℕ × Data)
    → commit rid now d ≡ ok out
    → Effect d out.1
unfolding commit
commit-Effect rid now d out e = elim (Option-cases (lookup rid d.releases)) [
  | inl absent ↦ absurd (ground arith)
  | inr (value, present) ↦ elim (Bool-cases value.committed) [
    | inl t ↦
        let same : ◌≡◌ {A = ℕ × Data} (value.version, d) out = ok_inj (ground arith) in
        subst (λ (p : ℕ × Data). Effect d p.1) same (stays d)
    | inr f ↦
        let later : (apply_release value value.subject now d >>= λ d1.
        ok (value.version, mark rid value d1))
            ≡ ok out =
          ground arith in
        let (d1, applied, last) = bind-ok (apply_release value value.subject now d) _ _ later in
        subst (λ (p : ℕ × Data). Effect d p.1) (ok_inj last)
          (applies d d1 rid value now present applied)
  ]
]

lifecycle-Effect :
    (fingerprint : Agent → List (String × Resource) → String)
    (is_compiled is_changed : String → Bool) (aid : String) (p : Action) (now : ℕ) (d d' : Data)
    → lifecycle fingerprint is_compiled is_changed aid p now d ≡ ok (done, d')
    → Effect d d'
unfolding lifecycle
lifecycle-Effect fingerprint is_compiled is_changed aid p now d d' e =
    elim (Option-cases (lookup aid d.agents)) [
      | inl absent ↦ subst (Effect d) (changed_document d d' (ground arith)) (stays d)
      | inr (a, present) ↦ elim (Bool-cases (p.action == "delete")) [
        | inl t ↦
            subst (Effect d) (changed_document (removed aid p.request_id now d) d' (ground arith))
              (removes d aid p.request_id now)
        | inr f ↦ elim (Option-cases (target_of p.action)) [
          | inl unknown ↦ absurd (ground arith)
          | inr (l, known) ↦
              subst (Effect d) (changed_document (with_lifecycle aid a l d) d' (ground arith))
                (moves d aid a l present)
        ]
      ]
    ]

module _ (o : Outside) where
  -- Every call that goes through has one of the effects.
  pub change-Effect : (c : Call) (d d' : Data) → change o c d ≡ ok (done, d') → Effect d d'
  unfolding change
  change-Effect (saves_model mid value) d d' e = save_model-Effect o.validate_model mid value d d' e
  change-Effect (imports_models replace items) d d' e =
      import_models-Effect o.validate_model replace items d d' e
  change-Effect (deletes_model mid) d d' e = delete_model-Effect mid d d' e
  change-Effect (saves_agent aid value source hex) d d' e =
      save_agent-Effect aid value source hex d d' e
  change-Effect (restores_template tid aid models resources now) d d' e =
      restore-Effect o.model_validates tid aid models resources now d d' e
  change-Effect (saves_resource rid r) d d' e =
      save_resource-Effect o.blob o.validate_mcp rid r d d' e
  change-Effect (moves_resource rid action) d d' e = resource_lifecycle-Effect rid action d d' e
  change-Effect (uploads_skill rid owner name draft) d d' e =
      upload_skill-Effect rid owner name draft d d' e
  change-Effect (copies_resource source rid owner) d d' e =
      copy_resource-Effect source rid owner d d' e
  change-Effect (publishes rid original checked now) d d' e =
      let (n, known) = without-ok (publish rid original checked now d) d' e in
      publish-Effect rid original checked now d (n, d') known
  change-Effect (publishes_resource rid checked now) d d' e =
      let (n, known) = without-ok (publish_resource rid checked now d) d' e in
      publish_resource-Effect rid checked now d (n, d') known
  change-Effect (commits rid now) d d' e =
      let (n, known) = without-ok (commit rid now d) d' e in commit-Effect rid now d (n, d') known
  change-Effect (ends aid p now) d d' e =
      lifecycle-Effect o.fingerprint o.is_compiled o.is_changed aid p now d d' e
