-- ===== src/Catalog/Validation.antt =====
-- What `validate_agent` of catalog_service/src/management.py has checked of a configuration.
use Prim.Native.String.{count}
use opencode_cloud.Prelude.{
  ℕ, String, true, false, List, [], ◌∷◌, ◌≡◌, refl, inl, inr, arith, find, find-none, lookup, ltb,
  All, Option-cases, if◌then◌else◌,
}
use opencode_cloud.Json.{Json}
use opencode_cloud.Catalog.Documents.{Binding, Config, Resource, ResourceVersion, Data, mem}
use opencode_cloud.Catalog.Replies.{Reply, Done, done, ok, fail, crash, ◌>>=◌, bind-ok}
use opencode_cloud.Catalog.Edits.{resource_row, resource_version}
use opencode_cloud.Catalog.Agents.{
  unavailable, Key, runtime_key, may_bind, validate_bindings, validate_agent,
}
use opencode_cloud.Catalog.Bindings.{published, bindable}

-- A configuration that an agent with the identifier may have.
pub record Valid (models : List (String × Json)) (resources : List (String × Resource))
    (aid : String) (cfg : Config) : Type 0 where
  pub offered : All (λ mid. unavailable models cfg.enabled mid ≡ false) cfg.allowed_model_ids
  pub assigned : mem cfg.default_model_id cfg.allowed_model_ids ≡ true
  pub bound : All (λ b. bindable resources aid b ≡ true) cfg.bindings

found-published :
    (d : Data) (aid rid : String) (n : ℕ) (r : Resource) (v : ResourceVersion)
    → resource_version d rid n ≡ ok (r, v)
    → may_bind aid r.owner ≡ true
    → published aid n (lookup rid d.resources) ≡ true
unfolding resource_version
found-published d aid rid n r v e may = elim (Option-cases (lookup rid d.resources)) [
  | inl absent ↦ absurd (ground arith)
  | inr (s, present) ↦ elim (Option-cases (resource_row n s.versions)) [
    | inl none_of ↦ absurd (ground arith)
    | inr (w, there) ↦
        let same : s ≡ r = ground arith in
        let owner : may_bind aid s.owner ≡ true = rw same may in
        rw present (rw there (rw owner refl))
  ]
]

pub validate_bindings-ok :
    (d : Data) (aid : String) (bs : List Binding) (names : List Key) (ids : List String)
    → validate_bindings d aid bs names ids ≡ ok done
    → All (λ b. bindable d.resources aid b ≡ true) bs
unfolding validate_bindings
validate_bindings-ok d aid [] names ids e = tt
validate_bindings-ok d aid (b ∷ bs) names ids e =
    let ((r, v), found, e') = bind-ok (resource_version d b.id b.version) _ done e in
    let may : may_bind aid r.owner ≡ true = ground arith in
    let rest : validate_bindings d aid bs (runtime_key r v ∷ names) (r.id ∷ ids) ≡ ok done =
      ground arith in
    (found-published d aid b.id b.version r v found may, validate_bindings-ok d aid bs _ _ rest)

pub validate_agent-Valid :
    (d : Data) (aid : String) (cfg : Config)
    → validate_agent d aid cfg ≡ ok done
    → Valid d.models d.resources aid cfg
unfolding validate_agent
validate_agent-Valid d aid cfg e =
    elim (Option-cases (find (unavailable d.models cfg.enabled) cfg.allowed_model_ids)) [
      | inr (mid, k) ↦ absurd (ground arith)
      | inl k ↦
          let default : mem cfg.default_model_id cfg.allowed_model_ids ≡ true = ground arith in
          record {
            offered = find-none (unavailable d.models cfg.enabled) cfg.allowed_model_ids k;
            assigned = default;
            bound =
                validate_bindings-ok d aid cfg.bindings [] []
                  (checked (validate_bindings d aid cfg.bindings [] []) (ground arith));
          }
    ]
  where
    checked :
        (r : Reply Done)
        → (r >>= λ _.
            if ltb 200_000 (count cfg.instructions)
            then fail 400 "Agent instructions are too large"
            else ok done)
          ≡ ok done
        → r ≡ ok done
    checked (ok done) k = refl
    checked (fail status detail) k = absurd (ground arith)
    checked crash k = absurd (ground arith)
