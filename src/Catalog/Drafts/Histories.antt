-- ===== src/Catalog/Drafts/Histories.antt =====
-- The drafts of agents over the histories of the calls of catalog_service.
use opencode_cloud.Prelude.{◌≡◌, sym, subst}
use opencode_cloud.Catalog.Documents.{Data, Table}
use opencode_cloud.Catalog.Replies.{done, ok}
use opencode_cloud.Catalog.Edits.{edit-Edited}
use opencode_cloud.Catalog.Releases.{commit}
use opencode_cloud.Catalog.Resources.{publish, publish_resource}
use opencode_cloud.Catalog.Calls.{
  Outside, Call, saves_model, imports_models, deletes_model, saves_agent, restores_template,
  saves_resource, moves_resource, uploads_skill, copies_resource, publishes, publishes_resource,
  commits, ends, Allowed, change, Step, calls, prepares, History, start, next,
}
use opencode_cloud.Catalog.Effects.{without-ok, prepare-Prepared}
use opencode_cloud.Catalog.Drafts.{ValidDrafts}
use opencode_cloud.Catalog.Drafts.Models.{
  save_model-ValidDrafts, import_models-ValidDrafts, delete_model-ValidDrafts,
}
use opencode_cloud.Catalog.Drafts.Agents.{save_agent-ValidDrafts}
use opencode_cloud.Catalog.Drafts.Ends.{
  restore-ValidDrafts, commit-ValidDrafts, lifecycle-ValidDrafts,
}
use opencode_cloud.Catalog.Drafts.Resources.{
  save_resource-ValidDrafts, resource_lifecycle-ValidDrafts, upload_skill-ValidDrafts,
  copy_resource-ValidDrafts, publish-ValidDrafts, publish_resource-ValidDrafts,
}

module _ (o : Outside) where
  change-ValidDrafts :
      (c : Call) (d d' : Data)
      → Allowed c d
      → change o c d ≡ ok (done, d')
      → ValidDrafts d
      → ValidDrafts d'
  unfolding change
  change-ValidDrafts (saves_model mid value) d d' a e v =
      save_model-ValidDrafts o.validate_model mid value d d' e v
  change-ValidDrafts (imports_models replace items) d d' a e v =
      import_models-ValidDrafts o.validate_model replace items d d' e v
  change-ValidDrafts (deletes_model mid) d d' a e v = delete_model-ValidDrafts mid d d' e v
  change-ValidDrafts (saves_agent aid value source hex) d d' a e v =
      save_agent-ValidDrafts aid value source hex d d' e a v
  change-ValidDrafts (restores_template tid aid models resources now) d d' a e v =
      restore-ValidDrafts o.model_validates tid aid models resources now d d' e v
  change-ValidDrafts (saves_resource rid r) d d' a e v =
      save_resource-ValidDrafts o.blob o.validate_mcp rid r d d' e v
  change-ValidDrafts (moves_resource rid action) d d' a e v =
      resource_lifecycle-ValidDrafts rid action d d' e v
  change-ValidDrafts (uploads_skill rid owner name draft) d d' a e v =
      upload_skill-ValidDrafts rid owner name draft d d' e v
  change-ValidDrafts (copies_resource source rid owner) d d' a e v =
      copy_resource-ValidDrafts source rid owner d d' e v
  change-ValidDrafts (publishes rid original checked now) d d' a e v =
      let (n, known) = without-ok (publish rid original checked now d) d' e in
      publish-ValidDrafts rid original checked now d (n, d') known v
  change-ValidDrafts (publishes_resource rid checked now) d d' a e v =
      let (n, known) = without-ok (publish_resource rid checked now d) d' e in
      publish_resource-ValidDrafts rid checked now d (n, d') known v
  change-ValidDrafts (commits rid now) d d' a e v =
      let (n, known) = without-ok (commit rid now d) d' e in
      commit-ValidDrafts rid now d (n, d') known v
  change-ValidDrafts (ends aid p now) d d' a e v =
      lifecycle-ValidDrafts o.fingerprint o.is_compiled o.is_changed aid p now d d' e v

  Step-ValidDrafts : (t t' : Table) → Step o t t' → ValidDrafts t.document → ValidDrafts t'.document
  Step-ValidDrafts _ _ (calls expected c t t' a e) v =
      change-ValidDrafts c t.document t'.document a
        ((edit-Edited expected (change o c) t t' done e).changed) v
  Step-ValidDrafts _ _ (prepares rid order value t t' to e) v =
      subst ValidDrafts (sym ((prepare-Prepared o rid order value t t' e).stored)) v

  -- Through every history of calls, the draft of each agent stays one that its validation accepts
  -- again: each assigned model exists, and is enabled where the draft is; the default model is
  -- assigned; and each binding names a published version of a resource that is global or the
  -- agent's own. So a model or a resource that a draft needs is never deleted, and an enabled
  -- draft's model never disabled. A history has new identifiers from uuid4, and orders of releases
  -- of models for the target "*".
  pub History-ValidDrafts :
      (t t' : Table) → History o t t' → ValidDrafts t.document → ValidDrafts t'.document
  History-ValidDrafts _ _ (start t) v = v
  History-ValidDrafts _ _ (next t t' t'' h s) v =
      Step-ValidDrafts t' t'' s (History-ValidDrafts t t' h v)
