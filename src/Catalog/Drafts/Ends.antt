-- ===== src/Catalog/Drafts/Ends.antt =====
-- The drafts of agents under the restoration of a template, `commit` and `lifecycle`.
use opencode_cloud.Prelude.{
  ℕ, String, Bool, false, ◌==◌, Option, some, List, [], ◌∷◌, ◌≡◌, ◌∙◌, subst, inl, inr, ap, arith,
  eq_iff, lookup, put, erase, All, All-map, All-both, All-put, All-erase, All-lookup, Bool-cases,
  Option-cases,
}
use opencode_cloud.Catalog.Documents.{
  Binding, Config, Resource, Agent, Lifecycle, Subject, gateway, agent, Release, Data,
}
use opencode_cloud.Catalog.Replies.{done, ok, ◌>>=◌, bind-ok, ok_inj, only_done}
use opencode_cloud.Catalog.Names.{identifier}
use opencode_cloud.Catalog.Agents.{validate_agent, new_agent}
use opencode_cloud.Catalog.Templates.{restored_config, restore_into, restore}
use opencode_cloud.Catalog.Releases.{applied_gateway, applied_agent, apply_release, mark, commit}
use opencode_cloud.Catalog.Lifecycles.{Action, with_lifecycle, removed, target_of, lifecycle}
use opencode_cloud.Catalog.Bindings.{bindable-removed}
use opencode_cloud.Catalog.Validation.{validate_agent-Valid}
use opencode_cloud.Catalog.Drafts.{ValidDraft, ValidDrafts, Valid-resources}
use opencode_cloud.Catalog.Effects.{changed_document}

pub restore-ValidDrafts :
    (model_validates : Config → Bool) (tid aid : String) (models : List (String × String))
    (resources : List (String × Binding)) (now : ℕ) (d d' : Data)
    → restore model_validates tid aid models resources now d ≡ ok (done, d')
    → ValidDrafts d
    → ValidDrafts d'
unfolding restore
restore-ValidDrafts model_validates tid aid models resources now d d' e v =
    let (id, named, e1) = bind-ok (identifier aid) _ _ e in
    elim (Option-cases (lookup tid d.agent_templates)) [
      | inl absent ↦ absurd (ground arith)
      | inr (t, present) ↦
          let cfg = restored_config t models resources in
          let later : (validate_agent d aid cfg >>= λ _.
          ok (done, restore_into tid t aid cfg now d))
              ≡ ok (done, d') =
            ground arith in
          let (x, valid, last) = bind-ok (validate_agent d aid cfg) _ _ later in
          subst ValidDrafts (changed_document (restore_into tid t aid cfg now d) d' last) (
            All-put (ValidDraft d.models d.resources) aid (new_agent aid cfg) d.agents
              (validate_agent-Valid d aid cfg (valid ∙ ap ok (only_done x))) v)
    ]

apply_release-ValidDrafts :
    (value : Release) (s : Subject) (now : ℕ) (d d' : Data)
    → apply_release value s now d ≡ ok d'
    → ValidDrafts d
    → ValidDrafts d'
apply_release-ValidDrafts value (gateway models configuration) now d d' e v =
    let same : applied_gateway value models now d ≡ d' = ok_inj (ground arith) in
    subst ValidDrafts same v
apply_release-ValidDrafts value (agent target cfg path files) now d d' e v =
    elim (Option-cases (lookup target d.agents)) [
      | inl absent ↦ absurd (ground arith)
      | inr (a, present) ↦
          let after : Data = record d {
            agents = put target (applied_agent value cfg path now a) d.agents;
          } in
          let same : after ≡ d' = ok_inj (ground arith) in
          subst ValidDrafts same (
            All-put (ValidDraft d.models d.resources) target (applied_agent value cfg path now a)
              d.agents (All-lookup (ValidDraft d.models d.resources) target a d.agents v present) v)
    ]

pub commit-ValidDrafts :
    (rid : String) (now : ℕ) (d : Data) (out : ℕ × Data)
    → commit rid now d ≡ ok out
    → ValidDrafts d
    → ValidDrafts out.1
unfolding commit
commit-ValidDrafts rid now d out e v = elim (Option-cases (lookup rid d.releases)) [
  | inl absent ↦ absurd (ground arith)
  | inr (value, present) ↦ elim (Bool-cases value.committed) [
    | inl t ↦
        let same : ◌≡◌ {A = ℕ × Data} (value.version, d) out = ok_inj (ground arith) in
        subst (λ (p : ℕ × Data). ValidDrafts p.1) same v
    | inr f ↦
        let later : (apply_release value value.subject now d >>= λ d1.
        ok (value.version, mark rid value d1))
            ≡ ok out =
          ground arith in
        let (d1, applied, last) = bind-ok (apply_release value value.subject now d) _ _ later in
        subst (λ (p : ℕ × Data). ValidDrafts p.1) (ok_inj last)
          (apply_release-ValidDrafts value value.subject now d d1 applied v)
  ]
]

erase_keys {ℓ} :
    {V : Type ℓ} (key : String) (rows : List (String × V))
    → All (λ row. (key == row.0) ≡ false) (erase key rows)
unfolding erase
erase_keys key [] = tt
erase_keys key ((k, v) ∷ rows) = elim (Bool-cases (k == key)) [
  | inl t ↦ rw t (erase_keys key rows)
  | inr f ↦ rw f (ground (arith, eq_iff k key, eq_iff key k), erase_keys key rows)
]

pub removed-ValidDrafts :
    (aid : String) (request_id : Option String) (now : ℕ) (d : Data)
    → ValidDrafts d
    → ValidDrafts (removed aid request_id now d)
removed-ValidDrafts aid request_id now d v =
    All-map _ _ (erase aid d.agents)
      (λ row (other, h).
        Valid-resources d.models d.resources _ row.0 row.1.draft
          (λ b k. bindable-removed aid row.0 b d.resources other k) h)
      (All-both (λ row. (aid == row.0) ≡ false) (ValidDraft d.models d.resources)
        (erase aid d.agents) (erase_keys aid d.agents)
        (All-erase (ValidDraft d.models d.resources) aid d.agents v))

with_lifecycle-ValidDrafts :
    (aid : String) (a : Agent) (l : Lifecycle) (d : Data)
    → lookup aid d.agents ≡ some a
    → ValidDrafts d
    → ValidDrafts (with_lifecycle aid a l d)
with_lifecycle-ValidDrafts aid a l d present v =
    All-put (ValidDraft d.models d.resources) aid (record a { lifecycle = l }) d.agents
      (All-lookup (ValidDraft d.models d.resources) aid a d.agents v present) v

pub lifecycle-ValidDrafts :
    (fingerprint : Agent → List (String × Resource) → String)
    (is_compiled is_changed : String → Bool) (aid : String) (p : Action) (now : ℕ) (d d' : Data)
    → lifecycle fingerprint is_compiled is_changed aid p now d ≡ ok (done, d')
    → ValidDrafts d
    → ValidDrafts d'
unfolding lifecycle
lifecycle-ValidDrafts fingerprint is_compiled is_changed aid p now d d' e v =
    elim (Option-cases (lookup aid d.agents)) [
      | inl absent ↦ subst ValidDrafts (changed_document d d' (ground arith)) v
      | inr (a, present) ↦ elim (Bool-cases (p.action == "delete")) [
        | inl t ↦
            subst ValidDrafts (changed_document (removed aid p.request_id now d) d' (ground arith))
              (removed-ValidDrafts aid p.request_id now d v)
        | inr f ↦ elim (Option-cases (target_of p.action)) [
          | inl unknown ↦ absurd (ground arith)
          | inr (l, known) ↦
              subst ValidDrafts (changed_document (with_lifecycle aid a l d) d' (ground arith))
                (with_lifecycle-ValidDrafts aid a l d present v)
        ]
      ]
    ]
