-- ===== src/Catalog/Drafts.antt =====
-- The drafts of all agents of the catalog, under the changes of models and resources.
pub mod Models
pub mod Agents
pub mod Ends
pub mod Resources
pub mod Histories
use opencode_cloud.Prelude.{
  ℕ, suc, String, Bool, true, false, not, Option, none, some, List, [], ◌∷◌, ◌==◌, ◌&&◌, ◌||◌, ◌≡◌,
  ◌≤◌, ◌<◌, ◌⊎◌, refl, sym, ◌∙◌, inl, inr, arith, eq_iff, eq_refl, any, any-false, lookup, put,
  erase, lookup-put, lookup-erase, All, All-map, All-both, All-put, Bool-cases, if◌then◌else◌,
}
use opencode_cloud.Json.{Json}
use opencode_cloud.Catalog.Documents.{Binding, Config, Resource, Agent, Data, mem}
use opencode_cloud.Catalog.Agents.{unavailable, model_enabled}
use opencode_cloud.Catalog.Models.{uses, refers_model, model_referenced}
use opencode_cloud.Catalog.Bindings.{bindable}
use opencode_cloud.Catalog.Validation.{Valid}

-- Each agent has a draft that `validate_agent` could accept again.
abbrev pub ValidDraft : List (String × Json) → List (String × Resource) → String × Agent → Type 0
ValidDraft models resources row = Valid models resources row.0 row.1.draft

abbrev pub ValidDrafts : Data → Type 0
ValidDrafts d = All (ValidDraft d.models d.resources) d.agents

All-members {ℓ κ} :
    (P : String → Type ℓ) (Q : String → Type κ) (xs : List String)
    → ((x : String) → mem x xs ≡ true → P x → Q x)
    → All P xs
    → All Q xs
unfolding any
All-members P Q [] f h = tt
All-members P Q (x ∷ xs) f h =
    (f x (rw (eq_refl x) refl) (h.0), All-members P Q xs (λ y k p. f y (ground (arith, k)) p) h.1)

pub Valid-resources :
    (models : List (String × Json)) (resources resources' : List (String × Resource)) (aid : String)
    (cfg : Config)
    → ((b : Binding) → bindable resources aid b ≡ true → bindable resources' aid b ≡ true)
    → Valid models resources aid cfg
    → Valid models resources' aid cfg
Valid-resources models resources resources' aid cfg keep v = record {
  offered = v.offered;
  assigned = v.assigned;
  bound = All-map _ _ cfg.bindings keep v.bound;
}

-- The new model is enabled, or no enabled configuration uses it.
abbrev pub Replaces : String → Json → Config → Type 0
Replaces mid value cfg = (model_enabled value ≡ true) ⊎ (uses mid true cfg ≡ false)

unavailable-put :
    (mid x : String) (value : Json) (models : List (String × Json)) (cfg : Config)
    → Replaces mid value cfg
    → mem x cfg.allowed_model_ids ≡ true
    → unavailable models cfg.enabled x ≡ false
    → unavailable (put mid value models) cfg.enabled x ≡ false
unavailable-put mid x value models cfg r member h = elim (Bool-cases (mid == x)) [
  | inr f ↦ rw (lookup-put mid x value models) (rw f h)
  | inl t ↦
      let name : mid ≡ x = (eq_iff mid x).0 t in
      rw (lookup-put mid x value models) (
        rw t (elim r [
          | inl enabled ↦ ground (arith, enabled)
          | inr unused ↦
              let used : mem mid cfg.allowed_model_ids ≡ true = rw name member in
              ground (arith, unused, used)
        ]))
]

pub Valid-put_model :
    (mid : String) (value : Json) (models : List (String × Json))
    (resources : List (String × Resource)) (aid : String) (cfg : Config)
    → Replaces mid value cfg
    → Valid models resources aid cfg
    → Valid (put mid value models) resources aid cfg
Valid-put_model mid value models resources aid cfg r v = record {
  offered =
      All-members _ _ cfg.allowed_model_ids
        (λ x member h. unavailable-put mid x value models cfg r member h) v.offered;
  assigned = v.assigned;
  bound = v.bound;
}

unavailable-erase :
    (mid x : String) (models : List (String × Json)) (cfg : Config)
    → uses mid false cfg ≡ false
    → mem x cfg.allowed_model_ids ≡ true
    → unavailable models cfg.enabled x ≡ false
    → unavailable (erase mid models) cfg.enabled x ≡ false
unavailable-erase mid x models cfg unused member h = elim (Bool-cases (mid == x)) [
  | inr f ↦ rw (lookup-erase mid x models) (rw f h)
  | inl t ↦
      let name : mid ≡ x = (eq_iff mid x).0 t in
      let used : mem mid cfg.allowed_model_ids ≡ true = rw name member in
      absurd (ground (arith, unused, used))
]

pub Valid-erase_model :
    (mid : String) (models : List (String × Json)) (resources : List (String × Resource))
    (aid : String) (cfg : Config)
    → uses mid false cfg ≡ false
    → Valid models resources aid cfg
    → Valid (erase mid models) resources aid cfg
Valid-erase_model mid models resources aid cfg unused v = record {
  offered =
      All-members _ _ cfg.allowed_model_ids
        (λ x member h. unavailable-erase mid x models cfg unused member h) v.offered;
  assigned = v.assigned;
  bound = v.bound;
}

-- The drafts of the agents that a call of the model's handlers has found not to use the model.
pub unused_drafts :
    (d : Data) (mid : String) (enabled_only : Bool)
    → model_referenced d mid enabled_only ≡ false
    → All (λ row. uses mid enabled_only row.1.draft ≡ false) d.agents
unused_drafts d mid enabled_only e =
    All-map _ _ d.agents (λ row k. ground (arith, k))
      (any-false (λ row. refers_model mid enabled_only row.1) d.agents e)
