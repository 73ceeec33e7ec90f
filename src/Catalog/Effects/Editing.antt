-- ===== src/Catalog/Effects/Editing.antt =====
-- The effects of the calls of catalog_service on models and on the drafts of agents.
use Prim.Native.String.{◌++◌ as ◌<>◌}
use Prim.Native.Nat.{suc}
use opencode_cloud.Prelude.{
  ℕ, String, Bool, true, false, not, ◌&&◌, ◌||◌, Option, none, some, List, [], ◌∷◌, ◌≡◌, refl,
  subst, arith, lookup, put, erase, inl, inr, opt_eq, Bool-cases, Option-cases, if◌then◌else◌,
}
use opencode_cloud.Json.{Json, entry, filled}
use opencode_cloud.Catalog.Documents.{Binding, Config, Resource, Data}
use opencode_cloud.Catalog.Replies.{Reply, Done, done, ok, fail, ◌>>=◌, bind-ok, ok_inj}
use opencode_cloud.Catalog.Names.{identifier}
use opencode_cloud.Catalog.Edits.{has}
use opencode_cloud.Catalog.Secrets.{preserve_secrets}
use opencode_cloud.Catalog.Models.{
  model_referenced, old_model, saved_value, is_legacy, given_id, set_model, save_model,
  import_model, import_each, import_models, delete_model,
}
use opencode_cloud.Catalog.Agents.{
  model_enabled, copy_binding, copy_bindings, with_binding, copied_config, with_resources, copied,
  set_draft, validate_agent, save_agent,
}
use opencode_cloud.Catalog.Templates.{restored_config, restore_into, restore}
use opencode_cloud.Catalog.Effects.{
  changed_document, Effect, stays, follows, sets_models, sets_draft, fills, copies,
}

module _ (validate_model : Json → Reply Done) where
  pub save_model-Effect :
      (mid : String) (given : Json) (d d' : Data)
      → save_model validate_model mid given d ≡ ok (done, d')
      → Effect d d'
  unfolding save_model
  save_model-Effect mid given d d' e =
      let (id, named, e1) = bind-ok (identifier mid) _ _ e in
      let (checked, valid, e2) = bind-ok (validate_model (saved_value mid given d id)) _ _ e1 in
      subst (Effect d)
        (changed_document (set_model mid (saved_value mid given d id) d) d' (ground arith))
        (sets_models d (put mid (saved_value mid given d id) d.models))

  import_model-Effect :
      (replace : Bool) (given : String) (item : Json) (ids : List String) (d d' : Data)
      → import_model validate_model replace given item ids d ≡ ok d'
      → Effect d d'
  unfolding import_model
  import_model-Effect replace given item ids d d' e =
      let (mid, named, e1) = bind-ok (identifier given) _ _ e in
      let value = preserve_secrets item (old_model d mid) in
      let later : (validate_model value >>= λ _.
      if filled (entry "legacy" value) || is_legacy value
      then fail 400 "Imported models cannot claim legacy identity"
      else if not (model_enabled value) && model_referenced d mid true
      then fail 409 "Replace Agent references before disabling imported models"
      else ok (set_model mid value d))
          ≡ ok d' =
        ground arith in
      let (checked, valid, e2) = bind-ok (validate_model value) _ _ later in
      let same : set_model mid value d ≡ d' = ok_inj (ground arith) in
      subst (Effect d) same (sets_models d (put mid value d.models))

  import_each-Effect :
      (replace : Bool) (items : List Json) (ids : List String) (d d' : Data)
      → import_each validate_model replace items ids d ≡ ok (done, d')
      → Effect d d'
  unfolding import_each
  import_each-Effect replace [] ids d d' e = subst (Effect d) (changed_document d d' e) (stays d)
  import_each-Effect replace (item ∷ items) ids d d' e =
      let given = given_id (entry "id" item) in
      let (d1, first, rest) =
        bind-ok (import_model validate_model replace given item ids d) _ _ e in
      follows d d1 d' (import_model-Effect replace given item ids d d1 first)
        (import_each-Effect replace items (given ∷ ids) d1 d' rest)

  pub import_models-Effect :
      (replace : Bool) (items : List Json) (d d' : Data)
      → import_models validate_model replace items d ≡ ok (done, d')
      → Effect d d'
  unfolding import_models
  import_models-Effect replace items d d' e =
      import_each-Effect replace items [] d d' (ground arith)

pub delete_model-Effect :
    (mid : String) (d d' : Data) → delete_model mid d ≡ ok (done, d') → Effect d d'
unfolding delete_model
delete_model-Effect mid d d' e =
    let after : Data = record d { models = erase mid d.models } in
    subst (Effect d) (changed_document after d' (ground arith)) (sets_models d (erase mid d.models))

copy_binding-Effect :
    (source aid new_id : String) (b : Binding) (r : Resource) (d : Data)
    → lookup b.id d.resources ≡ some r
    → Effect d (with_resources (copy_binding source aid new_id b r d.resources).1 d)
copy_binding-Effect source aid new_id b r d present =
    elim (Bool-cases (opt_eq r.owner (some source))) [
      | inl t ↦ rw t (copies d b.id new_id (some aid) r.archived r present)
      | inr f ↦ rw f (stays d)
    ]

copy_bindings-Effect :
    (source aid : String) (hex : ℕ → String) (n : ℕ) (bs : List Binding) (d : Data)
    (out : List Binding × List (String × Resource))
    → copy_bindings source aid hex n bs d.resources ≡ ok out
    → Effect d (with_resources out.1 d)
unfolding copy_bindings
copy_bindings-Effect source aid hex n [] d out e =
    subst (λ (p : List Binding × List (String × Resource)). Effect d (with_resources p.1 d))
      (ok_inj e) (stays d)
copy_bindings-Effect source aid hex n (b ∷ bs) d out e =
    elim (Option-cases (lookup b.id d.resources)) [
      | inl absent ↦ absurd (ground arith)
      | inr (r, present) ↦
          let round = copy_binding source aid ("r-" <> hex n) b r d.resources in
          let later : (copy_bindings source aid hex (suc n) bs round.1 >>= λ rest.
          ok (with_binding round.0 rest))
              ≡ ok out =
            ground arith in
          let (rest, e', last) =
            bind-ok (copy_bindings source aid hex (suc n) bs round.1) _ _ later in
          let d1 = with_resources round.1 d in
          subst (λ (p : List Binding × List (String × Resource)). Effect d (with_resources p.1 d))
            (ok_inj last)
            (follows d d1 (with_resources rest.1 d)
              (copy_binding-Effect source aid ("r-" <> hex n) b r d present)
              (copy_bindings-Effect source aid hex (suc n) bs d1 rest e'))
    ]

-- A copy changes the resources only.
copied-Effect :
    (aid : String) (value : Config) (source : Option String) (hex : ℕ → String) (d : Data)
    (out : Config × Data)
    → copied aid value source hex d ≡ ok out
    → Effect d out.1 × (out.1.agent_tombstones ≡ d.agent_tombstones)
unfolding copied
copied-Effect aid value none hex d out e =
    subst (λ (p : Config × Data). Effect d p.1 × (p.1.agent_tombstones ≡ d.agent_tombstones))
      (ok_inj e) (stays d, refl)
copied-Effect aid value (some source) hex d out e = elim (Option-cases (lookup source d.agents)) [
  | inl absent ↦ absurd (ground arith)
  | inr (a, present) ↦
      let later : (copy_bindings source aid hex 0 a.draft.bindings d.resources >>= λ found.
      ok (copied_config aid a found.0, with_resources found.1 d))
          ≡ ok out =
        ground arith in
      let (rest, e', last) =
        bind-ok (copy_bindings source aid hex 0 a.draft.bindings d.resources) _ _ later in
      subst (λ (p : Config × Data). Effect d p.1 × (p.1.agent_tombstones ≡ d.agent_tombstones))
        (ok_inj last) (copy_bindings-Effect source aid hex 0 a.draft.bindings d rest e', refl)
]

pub save_agent-Effect :
    (aid : String) (value : Config) (source : Option String) (hex : ℕ → String) (d d' : Data)
    → save_agent aid value source hex d ≡ ok (done, d')
    → Effect d d'
unfolding save_agent
save_agent-Effect aid value source hex d d' e =
    let (id, named, e1) = bind-ok (identifier aid) _ _ e in
    let free : has aid d.agent_tombstones ≡ false = ground arith in
    let later : (copied aid value source hex d >>= λ out.
    validate_agent out.1 aid out.0 >>= λ _. ok (done, set_draft aid out.0 out.1))
        ≡ ok (done, d') =
      ground arith in
    let (out, e2, e3) = bind-ok (copied aid value source hex d) _ _ later in
    let (x, valid, last) = bind-ok (validate_agent out.1 aid out.0) _ _ e3 in
    let (copying, kept) = copied-Effect aid value source hex d out e2 in
    subst (Effect d) (changed_document (set_draft aid out.0 out.1) d' last) (
      follows d out.1 (set_draft aid out.0 out.1) copying
        (sets_draft out.1 aid out.0 (rw kept free)))

pub restore-Effect :
    (model_validates : Config → Bool) (tid aid : String) (models : List (String × String))
    (resources : List (String × Binding)) (now : ℕ) (d d' : Data)
    → restore model_validates tid aid models resources now d ≡ ok (done, d')
    → Effect d d'
unfolding restore
restore-Effect model_validates tid aid models resources now d d' e =
    let (id, named, e1) = bind-ok (identifier aid) _ _ e in
    elim (Option-cases (lookup tid d.agent_templates)) [
      | inl absent ↦ absurd (ground arith)
      | inr (t, present) ↦
          let cfg = restored_config t models resources in
          let free : has aid d.agent_tombstones ≡ false = ground arith in
          let later : (validate_agent d aid cfg >>= λ _.
          ok (done, restore_into tid t aid cfg now d))
              ≡ ok (done, d') =
            ground arith in
          let (x, valid, last) = bind-ok (validate_agent d aid cfg) _ _ later in
          subst (Effect d) (changed_document (restore_into tid t aid cfg now d) d' last)
            (fills d tid aid t cfg now free)
    ]
