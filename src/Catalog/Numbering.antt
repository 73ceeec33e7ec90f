-- ===== src/Catalog/Numbering.antt =====
-- The numbers that catalog_service gives to versions of agents, resources and gateway models.
pub mod Prepared
pub mod Histories
use opencode_cloud.Prelude.{
  ℕ, zero, suc, String, Bool, true, false, Option, none, some, List, [], ◌∷◌, ◌++◌, ◌≡◌, ◌+◌, ◌≤◌,
  refl, sym, ◌∙◌, ap, subst, inl, inr, arith, length, lookup, put, erase, select, find, eqb, All,
  All-put, All-erase, All-lookup, All-map, All-select, Option-cases, Bool-cases,
}
use opencode_cloud.Json.{Json}
use opencode_cloud.Catalog.Documents.{
  Config, Draft, AgentVersion, Agent, ResourceVersion, Resource, GatewayVersion, Lifecycle, Subject,
  gateway, agent, Release, Data, Table, number_eq, version_of,
}
use opencode_cloud.Catalog.Replies.{Reply, ok, ok_inj, crash}
use opencode_cloud.Catalog.Agents.{redrafted, new_agent}
use opencode_cloud.Catalog.Resources.{next_version}
use opencode_cloud.Catalog.Releases.{apply_release, applied_gateway, applied_agent, store_release}
use opencode_cloud.Catalog.Effects.{
  SameVersions, Effect, stays, follows, sets_models, sets_draft, fills, copies, sets_resource,
  adds_version, drops_resource, applies, moves, removes,
}

-- The numbers of the rows are `k`, `k + 1` and so on.
abbrev pub Counted {ℓ} : {A : Type ℓ} → (A → ℕ) → ℕ → List A → Type 0
Counted number k [] = Unit
Counted number k (x ∷ xs) = (number x ≡ k) × Counted number (suc k) xs

-- The last of the numbers from 1 on.
abbrev pub latest : ℕ → Option ℕ
latest zero = none
latest (suc n) = some (suc n)

abbrev pub count_of : Option ℕ → ℕ
count_of none = 0
count_of (some n) = n

abbrev pub NumberedAgent : String × Agent → Type 0
NumberedAgent row =
    Counted (λ v. v.version) 1 row.1.versions × (row.1.active ≡ latest (length row.1.versions))

abbrev pub NumberedResource : String × Resource → Type 0
NumberedResource row = Counted (λ v. v.version) 1 row.1.versions

-- A release was prepared with the number after the version that was active.
abbrev pub NumberedRelease : String × Release → Type 0
NumberedRelease row = row.1.version ≡ suc (count_of row.1.old_active)

pub record Numbered (d : Data) : Type 0 where
  pub agents : All NumberedAgent d.agents
  pub resources : All NumberedResource d.resources
  pub releases : All NumberedRelease d.releases
  pub gateway : Counted (λ v. v.version) 1 d.gateway_versions
  pub active : d.gateway_active ≡ latest (length d.gateway_versions)

pub Counted-append {ℓ} :
    {A : Type ℓ} (number : A → ℕ) (k : ℕ) (xs : List A) (x : A)
    → Counted number k xs
    → number x ≡ k + length xs
    → Counted number k (xs ++ x ∷ [])
Counted-append number k [] x h e = (omega (arith, e), tt)
Counted-append number k (y ∷ ys) x h e =
    (h.0, Counted-append number (suc k) ys x h.1 (omega (arith, e)))

length_one_more {ℓ} : {A : Type ℓ} (xs : List A) (x : A) → length (xs ++ x ∷ []) ≡ suc (length xs)
length_one_more [] x = refl
length_one_more (y ∷ ys) x = ap suc (length_one_more ys x)

pub count-latest : (n : ℕ) → count_of (latest n) ≡ n
count-latest zero = refl
count-latest (suc n) = refl

pub number_eq-≡ : (a b : Option ℕ) → number_eq a b ≡ true → a ≡ b
number_eq-≡ none none e = refl
number_eq-≡ (some a) (some b) e = ap some (ground arith)
number_eq-≡ none (some b) e = absurd (ground arith)
number_eq-≡ (some a) none e = absurd (ground arith)

-- The numbers after one more version, which is the active one.
extended {ℓ} :
    {A : Type ℓ} (number : A → ℕ) (xs : List A) (x : A) (active old : Option ℕ)
    → Counted number 1 xs
    → active ≡ latest (length xs)
    → number_eq active old ≡ true
    → number x ≡ suc (count_of old)
    → Counted number 1 (xs ++ x ∷ []) × (some (number x) ≡ latest (length (xs ++ x ∷ [])))
extended number xs x active old h last same e =
    let counted : count_of old ≡ length xs =
      ap count_of (sym (number_eq-≡ active old same) ∙ last) ∙ count-latest (length xs) in
    let next : number x ≡ suc (length xs) = e ∙ ap suc counted in
    (Counted-append number 1 xs x h (omega (arith, next)), rw (length_one_more xs x) (ap some next))

pub redrafted-NumberedAgent :
    (aid : String) (cfg : Config) (agents : List (String × Agent))
    → All NumberedAgent agents
    → NumberedAgent (aid, redrafted aid cfg (lookup aid agents))
redrafted-NumberedAgent aid cfg agents h = elim (Option-cases (lookup aid agents)) [
  | inl absent ↦ rw absent (tt, refl)
  | inr (a, present) ↦ rw present (All-lookup NumberedAgent aid a agents h present)
]

pub kept-NumberedResource :
    (rid : String) (r : Resource) (resources : List (String × Resource))
    → SameVersions (lookup rid resources) r
    → All NumberedResource resources
    → NumberedResource (rid, r)
kept-NumberedResource rid r resources same h = elim (Option-cases (lookup rid resources)) [
  | inl absent ↦ let empty : r.versions ≡ [] = rw absent at same in rw empty tt
  | inr (old, present) ↦
      let equal : r.versions ≡ old.versions = rw present at same in
      rw equal (All-lookup NumberedResource rid old resources h present)
]

module _ (d : Data) (v : Numbered d) where
  pub apply_release-Numbered :
      (value : Release) (s : Subject) (now : ℕ) (d' : Data)
      → value.version ≡ suc (count_of value.old_active)
      → apply_release value s now d ≡ ok d'
      → Numbered d'
  apply_release-Numbered value (gateway models configuration) now d' numbered e =
      let same : number_eq d.gateway_active value.old_active ≡ true = ground arith in
      let after : applied_gateway value models now d ≡ d' = ok_inj (ground arith) in
      let row : GatewayVersion = record {
        version = value.version;
        models = models;
        created = now;
      } in
      let (counted, last) =
        extended (λ (w : GatewayVersion). w.version) d.gateway_versions row d.gateway_active
          value.old_active v.gateway v.active same numbered in
      subst Numbered after (record {
        agents = v.agents;
        resources = v.resources;
        releases = v.releases;
        gateway = counted;
        active = last;
      })
  apply_release-Numbered value (agent target cfg path files) now d' numbered e =
      elim (Option-cases (lookup target d.agents)) [
        | inl absent ↦ absurd (ground arith)
        | inr (a, present) ↦
            let same : number_eq a.active value.old_active ≡ true = ground arith in
            let after : Data = record d {
              agents = put target (applied_agent value cfg path now a) d.agents;
            } in
            let equal : after ≡ d' = ok_inj (ground arith) in
            let row : AgentVersion = record {
              version = value.version;
              config = cfg;
              path = path;
              created = now;
            } in
            let (counted, last) = All-lookup NumberedAgent target a d.agents v.agents present in
            subst Numbered equal (record {
              agents =
                  All-put NumberedAgent target (applied_agent value cfg path now a) d.agents
                    (extended (λ (w : AgentVersion). w.version) a.versions row a.active
                      value.old_active counted last same numbered)
                    v.agents;
              resources = v.resources;
              releases = v.releases;
              gateway = v.gateway;
              active = v.active;
            })
      ]

  pub with_agent :
      (aid : String) (a : Agent)
      → NumberedAgent (aid, a)
      → Numbered (record d { agents = put aid a d.agents })
  with_agent aid a h = record {
    agents = All-put NumberedAgent aid a d.agents h v.agents;
    resources = v.resources;
    releases = v.releases;
    gateway = v.gateway;
    active = v.active;
  }

  pub with_resource :
      (rid : String) (r : Resource)
      → NumberedResource (rid, r)
      → Numbered (record d { resources = put rid r d.resources })
  with_resource rid r h = record {
    agents = v.agents;
    resources = All-put NumberedResource rid r d.resources h v.resources;
    releases = v.releases;
    gateway = v.gateway;
    active = v.active;
  }

  pub with_release :
      (rid : String) (value : Release)
      → NumberedRelease (rid, value)
      → Numbered (store_release rid value d)
  with_release rid value h = record {
    agents = v.agents;
    resources = v.resources;
    releases = All-put NumberedRelease rid value d.releases h v.releases;
    gateway = v.gateway;
    active = v.active;
  }
