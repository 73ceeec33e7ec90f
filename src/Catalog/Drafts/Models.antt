-- ===== src/Catalog/Drafts/Models.antt =====
-- The drafts of agents under `save_model`, the import and `delete_model`.
use opencode_cloud.Prelude.{
  String, Bool, true, false, not, ◌&&◌, ◌||◌, List, [], ◌∷◌, ◌≡◌, subst, inl, inr, arith, erase,
  if◌then◌else◌, All, All-map, All-both, Bool-cases,
}
use opencode_cloud.Json.{Json, entry, filled}
use opencode_cloud.Catalog.Documents.{Agent, Data}
use opencode_cloud.Catalog.Replies.{Reply, Done, done, ok, fail, ◌>>=◌, bind-ok, ok_inj}
use opencode_cloud.Catalog.Names.{identifier}
use opencode_cloud.Catalog.Secrets.{preserve_secrets}
use opencode_cloud.Catalog.Agents.{model_enabled}
use opencode_cloud.Catalog.Models.{
  uses, model_referenced, old_model, saved_value, is_legacy, given_id, set_model, save_model,
  import_model, import_each, import_models, delete_model,
}
use opencode_cloud.Catalog.Effects.{changed_document}
use opencode_cloud.Catalog.Drafts.{
  ValidDraft, ValidDrafts, Replaces, Valid-put_model, Valid-erase_model, unused_drafts,
}

pub set_model-ValidDrafts :
    (mid : String) (value : Json) (d : Data)
    → (not (model_enabled value) && model_referenced d mid true) ≡ false
    → ValidDrafts d
    → ValidDrafts (set_model mid value d)
set_model-ValidDrafts mid value d e v =
    All-map _ _ d.agents
      (λ row (r, h). Valid-put_model mid value d.models d.resources row.0 row.1.draft r h)
      (All-both (λ row. Replaces mid value row.1.draft) (ValidDraft d.models d.resources) d.agents
        replaces v)
  where
    replaces : All (λ row. Replaces mid value row.1.draft) d.agents
    replaces = elim (Bool-cases (model_enabled value)) [
      | inl enabled ↦ all_rows d.agents enabled
      | inr off ↦
          All-map _ _ d.agents (λ row k. inr k) (unused_drafts d mid true (ground (arith, off)))
    ]
      where
        all_rows :
            (rows : List (String × Agent))
            → model_enabled value ≡ true
            → All (λ row. Replaces mid value row.1.draft) rows
        all_rows [] k = tt
        all_rows (row ∷ rows) k = (inl k, all_rows rows k)

module _ (validate_model : Json → Reply Done) where
  pub save_model-ValidDrafts :
      (mid : String) (given : Json) (d d' : Data)
      → save_model validate_model mid given d ≡ ok (done, d')
      → ValidDrafts d
      → ValidDrafts d'
  unfolding save_model
  save_model-ValidDrafts mid given d d' e v =
      let (id, named, e1) = bind-ok (identifier mid) _ _ e in
      let (checked, valid, e2) = bind-ok (validate_model (saved_value mid given d id)) _ _ e1 in
      let value = saved_value mid given d id in
      let unused : (not (model_enabled value) && model_referenced d mid true) ≡ false =
        ground arith in
      subst ValidDrafts (changed_document (set_model mid value d) d' (ground arith))
        (set_model-ValidDrafts mid value d unused v)

  import_model-ValidDrafts :
      (replace : Bool) (given : String) (item : Json) (ids : List String) (d d' : Data)
      → import_model validate_model replace given item ids d ≡ ok d'
      → ValidDrafts d
      → ValidDrafts d'
  unfolding import_model
  import_model-ValidDrafts replace given item ids d d' e v =
      let (mid, named, e1) = bind-ok (identifier given) _ _ e in
      let value = preserve_secrets item (old_model d mid) in
      let later : (validate_model value >>= λ _.
      if filled (entry "legacy" value) || is_legacy value
      then fail 400 "Imported models cannot claim legacy identity"
      else if not (model_enabled value) && model_referenced d mid true
      then fail 409 "Replace Agent references before disabling imported models"
      else ok (set_model mid value d))
          ≡ ok d' =
        ground arith in
      let (checked, valid, e2) = bind-ok (validate_model value) _ _ later in
      let unused : (not (model_enabled value) && model_referenced d mid true) ≡ false =
        ground arith in
      let same : set_model mid value d ≡ d' = ok_inj (ground arith) in
      subst ValidDrafts same (set_model-ValidDrafts mid value d unused v)

  import_each-ValidDrafts :
      (replace : Bool) (items : List Json) (ids : List String) (d d' : Data)
      → import_each validate_model replace items ids d ≡ ok (done, d')
      → ValidDrafts d
      → ValidDrafts d'
  unfolding import_each
  import_each-ValidDrafts replace [] ids d d' e v = subst ValidDrafts (changed_document d d' e) v
  import_each-ValidDrafts replace (item ∷ items) ids d d' e v =
      let given = given_id (entry "id" item) in
      let (d1, first, rest) =
        bind-ok (import_model validate_model replace given item ids d) _ _ e in
      import_each-ValidDrafts replace items (given ∷ ids) d1 d' rest
        (import_model-ValidDrafts replace given item ids d d1 first v)

  pub import_models-ValidDrafts :
      (replace : Bool) (items : List Json) (d d' : Data)
      → import_models validate_model replace items d ≡ ok (done, d')
      → ValidDrafts d
      → ValidDrafts d'
  unfolding import_models
  import_models-ValidDrafts replace items d d' e v =
      import_each-ValidDrafts replace items [] d d' (ground arith) v

pub delete_model-ValidDrafts :
    (mid : String) (d d' : Data)
    → delete_model mid d ≡ ok (done, d')
    → ValidDrafts d
    → ValidDrafts d'
unfolding delete_model
delete_model-ValidDrafts mid d d' e v =
    let unused : model_referenced d mid false ≡ false = ground arith in
    let after : Data = record d { models = erase mid d.models } in
    subst ValidDrafts (changed_document after d' (ground arith)) (
      All-map _ _ d.agents
        (λ row (k, h). Valid-erase_model mid d.models d.resources row.0 row.1.draft k h)
        (All-both (λ row. uses mid false row.1.draft ≡ false) (ValidDraft d.models d.resources)
          d.agents (unused_drafts d mid false unused) v))
