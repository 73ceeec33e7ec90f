-- ===== src/Catalog/Drafts/Agents.antt =====
-- The drafts of agents under `save_agent`, the restoration of a template, `commit` and `lifecycle`.
use Prim.Native.String.{◌++◌ as ◌<>◌}
use Prim.Native.Nat.{suc}
use opencode_cloud.Prelude.{
  ℕ, String, true, false, ◌==◌, Option, none, some, List, [], ◌∷◌, ◌≡◌, ◌≤◌, ◌<◌, ◌∙◌, subst, inl,
  inr, ap, arith, opt_eq, lookup, put, lookup-put, All-map, All-put, Bool-cases, Option-cases,
}
use opencode_cloud.Catalog.Documents.{Binding, Config, Resource, Agent, Data}
use opencode_cloud.Catalog.Replies.{done, ok, ◌>>=◌, bind-ok, ok_inj, only_done}
use opencode_cloud.Catalog.Names.{identifier}
use opencode_cloud.Catalog.Agents.{
  copy_binding, copy_bindings, with_binding, copied_config, with_resources, copied, owned_copy,
  redrafted, set_draft, validate_agent, save_agent,
}
use opencode_cloud.Catalog.Bindings.{bindable, bindable-put}
use opencode_cloud.Catalog.Validation.{Valid, validate_agent-Valid}
use opencode_cloud.Catalog.Calls.{Allowed, saves_agent}
use opencode_cloud.Catalog.Drafts.{ValidDraft, ValidDrafts, Valid-resources}
use opencode_cloud.Catalog.Effects.{changed_document}

-- What another list of resources allows to bind beside its own.
abbrev pub Grows : List (String × Resource) → List (String × Resource) → Type 0
Grows resources resources' =
    (aid : String) (b : Binding)
    → bindable resources aid b ≡ true
    → bindable resources' aid b ≡ true

pub Grows-ValidDrafts :
    (d : Data) (resources : List (String × Resource))
    → Grows d.resources resources
    → ValidDrafts d
    → ValidDrafts (record d { resources = resources })
Grows-ValidDrafts d resources g v =
    All-map _ _ d.agents
      (λ row h. Valid-resources d.models d.resources resources row.0 row.1.draft (g row.0) h) v

-- From the place `n` on, the digits are new and differ.
abbrev FreshFrom : (ℕ → String) → ℕ → List (String × Resource) → Type 0
FreshFrom hex n resources = (m : ℕ) → n ≤ m → lookup ("r-" <> hex m) resources ≡ none

put-Grows :
    (rid : String) (r : Resource) (resources : List (String × Resource))
    → lookup rid resources ≡ none
    → Grows resources (put rid r resources)
put-Grows rid r resources new aid b e = bindable-put rid r resources (rw new tt) aid b e

copy_binding-Grows :
    (source aid : String) (new_id : String) (b : Binding) (r : Resource)
    (resources : List (String × Resource))
    → lookup new_id resources ≡ none
    → Grows resources (copy_binding source aid new_id b r resources).1
copy_binding-Grows source aid new_id b r resources new =
    elim (Bool-cases (opt_eq r.owner (some source))) [
      | inl t ↦ rw t (put-Grows new_id (owned_copy new_id aid r) resources new)
      | inr f ↦ rw f (λ x c h. h)
    ]

copy_binding-FreshFrom :
    (source aid : String) (hex : ℕ → String) (n : ℕ) (b : Binding) (r : Resource)
    (resources : List (String × Resource))
    → FreshFrom hex n resources
    → ((i j : ℕ) → i < j → ("r-" <> hex i == "r-" <> hex j) ≡ false)
    → FreshFrom hex (suc n) (copy_binding source aid ("r-" <> hex n) b r resources).1
copy_binding-FreshFrom source aid hex n b r resources fresh apart m le =
    elim (Bool-cases (opt_eq r.owner (some source))) [
      | inl t ↦ rw t (
          rw
            (lookup-put ("r-" <> hex n) ("r-" <> hex m) (owned_copy ("r-" <> hex n) aid r)
              resources)
            (rw (apart n m (omega arith)) (fresh m (omega arith))))
      | inr f ↦ rw f (fresh m (omega arith))
    ]

copy_bindings-Grows :
    (source aid : String) (hex : ℕ → String) (n : ℕ) (bs : List Binding)
    (resources : List (String × Resource)) (out : List Binding × List (String × Resource))
    → copy_bindings source aid hex n bs resources ≡ ok out
    → FreshFrom hex n resources
    → ((i j : ℕ) → i < j → ("r-" <> hex i == "r-" <> hex j) ≡ false)
    → Grows resources out.1
unfolding copy_bindings
copy_bindings-Grows source aid hex n [] resources out e fresh apart x b h =
    subst (λ (p : List Binding × List (String × Resource)). bindable p.1 x b ≡ true) (ok_inj e) h
copy_bindings-Grows source aid hex n (b ∷ bs) resources out e fresh apart x c h =
    elim (Option-cases (lookup b.id resources)) [
      | inl absent ↦ absurd (ground arith)
      | inr (r, present) ↦
          let round = copy_binding source aid ("r-" <> hex n) b r resources in
          let later : (copy_bindings source aid hex (suc n) bs round.1 >>= λ rest.
          ok (with_binding round.0 rest))
              ≡ ok out =
            ground arith in
          let (rest, e', last) =
            bind-ok (copy_bindings source aid hex (suc n) bs round.1) _ _ later in
          let grown : bindable rest.1 x c ≡ true =
            copy_bindings-Grows source aid hex (suc n) bs round.1 rest e'
              (copy_binding-FreshFrom source aid hex n b r resources fresh apart) apart x c
              (copy_binding-Grows source aid ("r-" <> hex n) b r resources (fresh n (omega arith)) x
                c h) in
          subst (λ (p : List Binding × List (String × Resource)). bindable p.1 x c ≡ true)
            (ok_inj last) grown
    ]

-- A draft that was validated takes the place of that of its agent.
set_draft-ValidDrafts :
    (aid : String) (cfg : Config) (d : Data)
    → Valid d.models d.resources aid cfg
    → ValidDrafts d
    → ValidDrafts (set_draft aid cfg d)
set_draft-ValidDrafts aid cfg d new v =
    All-put (ValidDraft d.models d.resources) aid (redrafted aid cfg (lookup aid d.agents)) d.agents
      (same_draft (lookup aid d.agents)) v
  where
    same_draft : (old : Option Agent) → Valid d.models d.resources aid (redrafted aid cfg old).draft
    same_draft none = new
    same_draft (some a) = new

copied-ValidDrafts :
    (aid : String) (value : Config) (source : Option String) (hex : ℕ → String) (d : Data)
    (out : Config × Data)
    → copied aid value source hex d ≡ ok out
    → Allowed (saves_agent aid value source hex) d
    → ValidDrafts d
    → ValidDrafts out.1
unfolding copied
copied-ValidDrafts aid value none hex d out e fresh v =
    subst (λ (p : Config × Data). ValidDrafts p.1) (ok_inj e) v
copied-ValidDrafts aid value (some source) hex d out e (fresh, apart) v =
    elim (Option-cases (lookup source d.agents)) [
      | inl absent ↦ absurd (ground arith)
      | inr (a, present) ↦
          let later : (copy_bindings source aid hex 0 a.draft.bindings d.resources >>= λ found.
          ok (copied_config aid a found.0, with_resources found.1 d))
              ≡ ok out =
            ground arith in
          let (rest, e', last) =
            bind-ok (copy_bindings source aid hex 0 a.draft.bindings d.resources) _ _ later in
          subst (λ (p : Config × Data). ValidDrafts p.1) (ok_inj last)
            (Grows-ValidDrafts d rest.1
              (copy_bindings-Grows source aid hex 0 a.draft.bindings d.resources rest e'
                (λ m _. fresh m) apart)
              v)
    ]

pub save_agent-ValidDrafts :
    (aid : String) (value : Config) (source : Option String) (hex : ℕ → String) (d d' : Data)
    → save_agent aid value source hex d ≡ ok (done, d')
    → Allowed (saves_agent aid value source hex) d
    → ValidDrafts d
    → ValidDrafts d'
unfolding save_agent
save_agent-ValidDrafts aid value source hex d d' e fresh v =
    let (id, named, e1) = bind-ok (identifier aid) _ _ e in
    let later : (copied aid value source hex d >>= λ out.
    validate_agent out.1 aid out.0 >>= λ _. ok (done, set_draft aid out.0 out.1))
        ≡ ok (done, d') =
      ground arith in
    let (out, e2, e3) = bind-ok (copied aid value source hex d) _ _ later in
    let (x, valid, last) = bind-ok (validate_agent out.1 aid out.0) _ _ e3 in
    subst ValidDrafts (changed_document (set_draft aid out.0 out.1) d' last) (
      set_draft-ValidDrafts aid out.0 out.1
        (validate_agent-Valid out.1 aid out.0 (valid ∙ ap ok (only_done x)))
        (copied-ValidDrafts aid value source hex d out e2 fresh v))
