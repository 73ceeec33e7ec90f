-- ===== src/Catalog/Numbering/Prepared.antt =====
-- The numbers of the releases that catalog_service/main.py prepares.
use opencode_cloud.Prelude.{
  ℕ, suc, String, true, ◌==◌, ◌+◌, ◌≡◌, refl, sym, ◌∙◌, ap, subst, inl, inr, arith, length, lookup,
  find, All-lookup, Option-cases, Bool-cases, if◌then◌else◌,
}
use opencode_cloud.Catalog.Documents.{gateway, agent, Release, Data}
use opencode_cloud.Catalog.Replies.{ok, fail, ◌>>=◌, bind-ok, ok_inj}
use opencode_cloud.Catalog.Names.{identifier}
use opencode_cloud.Catalog.Releases.{
  Order, models_apply, old_active_of, targeted, asked, models_to_apply, config_to_apply, deprived,
  lacks_model, available_models, release_of, prepare_models, prepare_agent, prepared,
}
use opencode_cloud.Catalog.Calls.{Outside}
use opencode_cloud.Catalog.Numbering.{count_of, NumberedAgent, Numbered, count-latest}

module _ (o : Outside) where
  prepare_models_next :
      (rid : String) (order : Order) (revision : ℕ) (d : Data) (value : Release)
      → Numbered d
      → (order.target == "*") ≡ true
      → prepare_models o.gateway_configuration o.compile_agent rid order revision d ≡ ok value
      → value.version ≡ suc (count_of value.old_active)
  unfolding prepare_models
  prepare_models_next rid order revision d value v all k =
      let (models, e1, e2) = bind-ok (models_to_apply d (asked order.version)) _ _ k in
      elim (Option-cases (find (λ row. deprived models row.1) d.agents)) [
        | inr (row, used) ↦ absurd (ground arith)
        | inl unused ↦
            let later : (o.gateway_configuration models >>= λ configuration.
            old_active_of order.target d >>= λ old_active. ok (
              release_of rid order.kind (length d.gateway_versions + 1)
                (gateway models configuration) revision old_active))
                ≡ ok value =
              ground arith in
            let (configuration, e3, last) = bind-ok (o.gateway_configuration models) _ _ later in
            let (old, e4, stored) = bind-ok (old_active_of order.target d) _ _ last in
            let same : old ≡ d.gateway_active = ok_inj (sym e4 ∙ rw all refl) in
            subst (λ (x : Release). x.version ≡ suc (count_of x.old_active)) (ok_inj stored)
              (omega (
                arith,
                ap count_of same ∙ ap count_of v.active ∙ count-latest (length d.gateway_versions),
              ))
      ]

  prepare_agent_next :
      (rid : String) (order : Order) (revision : ℕ) (d : Data) (value : Release)
      → Numbered d
      → prepare_agent o.gateway_configuration o.compile_agent rid order revision d ≡ ok value
      → value.version ≡ suc (count_of value.old_active)
  unfolding prepare_agent
  prepare_agent_next rid order revision d value v k =
      let (target, e1, e2) = bind-ok (identifier order.target) _ _ k in
      elim (Option-cases (lookup order.target d.agents)) [
        | inl absent ↦ absurd (ground arith)
        | inr (a, present) ↦
            let later : (config_to_apply a (asked order.version) >>= λ cfg.
            if lacks_model (available_models d) cfg
            then fail 409 "Publish selected models to the gateway first"
            else (o.compile_agent d order.target cfg (length a.versions + 1) >>= λ compiled. ok (
                release_of rid order.kind (length a.versions + 1)
                  (agent order.target cfg compiled.path compiled.files) revision a.active)))
                ≡ ok value =
              ground arith in
            let (cfg, e3, e4) = bind-ok (config_to_apply a (asked order.version)) _ _ later in
            let final : (o.compile_agent d order.target cfg (length a.versions + 1) >>= λ compiled.
            ok (
              release_of rid order.kind (length a.versions + 1)
                (agent order.target cfg compiled.path compiled.files) revision a.active))
                ≡ ok value =
              ground arith in
            let (compiled, e5, last) =
              bind-ok (o.compile_agent d order.target cfg (length a.versions + 1)) _ _ final in
            let (counted, active) =
              All-lookup NumberedAgent order.target a d.agents v.agents present in
            subst (λ (x : Release). x.version ≡ suc (count_of x.old_active)) (ok_inj last)
              (omega (arith, ap count_of active ∙ count-latest (length a.versions)))
      ]

  pub prepared_next :
      (rid : String) (order : Order) (revision : ℕ) (d : Data) (value : Release)
      → Numbered d
      → targeted order ≡ true
      → prepared o.gateway_configuration o.compile_agent rid order revision d ≡ ok value
      → value.version ≡ suc (count_of value.old_active)
  prepared_next rid order revision d value v to e = elim (Bool-cases (order.kind == models_apply)) [
    | inl t ↦
        prepare_models_next rid order revision d value v (ground (arith, to, t)) (ground arith)
    | inr f ↦ prepare_agent_next rid order revision d value v (ground arith)
  ]
