-- ===== src/Catalog/Bindings.antt =====
-- The bindings that the resources of the catalog allow, under the changes of the resources.
use opencode_cloud.Prelude.{
  ℕ, String, Bool, true, false, not, Option, none, some, List, [], ◌∷◌, ◌++◌, ◌==◌, ◌&&◌, ◌≡◌, refl,
  ap, inl, inr, arith, eq_iff, opt_eq_iff, eqb, find-append, select, lookup, put, erase, lookup-put,
  lookup-erase, Bool-cases,
}
use opencode_cloud.Catalog.Documents.{Binding, Resource, ResourceVersion}
use opencode_cloud.Catalog.Edits.{is_some, resource_row}
use opencode_cloud.Catalog.Agents.{may_bind}
use opencode_cloud.Catalog.Lifecycles.{owned_by}

abbrev pub published : String → ℕ → Option Resource → Bool
published aid n none = false
published aid n (some r) = may_bind aid r.owner && is_some (resource_row n r.versions)

-- The binding names a published version of a resource that is global or the agent's own.
abbrev pub bindable : List (String × Resource) → String → Binding → Bool
bindable resources aid b = published aid b.version (lookup b.id resources)

-- The resource takes the place of the old one for all that bind it.
abbrev pub Extends : Option Resource → Resource → Type 0
Extends none r = Unit
Extends (some old) r =
    (r.owner ≡ old.owner)
    × ((n : ℕ)
        → is_some (resource_row n old.versions) ≡ true
        → is_some (resource_row n r.versions) ≡ true)

published-Extends :
    (aid : String) (n : ℕ) (old : Option Resource) (r : Resource)
    → Extends old r
    → published aid n old ≡ true
    → published aid n (some r) ≡ true
published-Extends aid n none r h e = absurd (ground arith)
published-Extends aid n (some old) r (same, versions) e = rw same (ground (arith, versions n))

pub bindable-put :
    (rid : String) (r : Resource) (resources : List (String × Resource))
    → Extends (lookup rid resources) r
    → (aid : String) (b : Binding) → bindable resources aid b ≡ true
    → bindable (put rid r resources) aid b ≡ true
bindable-put rid r resources h aid b e = elim (Bool-cases (rid == b.id)) [
  | inl t ↦
      let name : rid ≡ b.id = (eq_iff rid b.id).0 t in
      rw (lookup-put rid b.id r resources)
        (rw t (published-Extends aid b.version (lookup rid resources) r h (rw name e)))
  | inr f ↦ rw (lookup-put rid b.id r resources) (rw f e)
]

pub bindable-erase :
    (rid aid : String) (b : Binding) (resources : List (String × Resource))
    → (b.id == rid) ≡ false
    → bindable resources aid b ≡ true
    → bindable (erase rid resources) aid b ≡ true
bindable-erase rid aid b resources other e =
    let f : (rid == b.id) ≡ false = ground (arith, eq_iff rid b.id, eq_iff b.id rid) in
    rw (lookup-erase rid b.id resources) (rw f e)

lookup-select :
    (p : String × Resource → Bool) (key : String) (r : Resource) (rows : List (String × Resource))
    → lookup key rows ≡ some r
    → ((k : String) → p (k, r) ≡ true)
    → lookup key (select p rows) ≡ some r
unfolding lookup select
lookup-select p key r [] e h = absurd (ground arith)
lookup-select p key r ((k, v) ∷ rows) e h = elim (Bool-cases (k == key)) [
  | inl t ↦
      let same : v ≡ r = ground arith in
      let kept : p (k, v) ≡ true = rw same (h k) in rw kept (rw t (ap some same))
  | inr f ↦
      let rest : lookup key (select p rows) ≡ some r =
        lookup-select p key r rows (ground arith) h in
      elim (Bool-cases (p (k, v))) [ inl t ↦ rw t (rw f rest) | inr g ↦ rw g rest ]
]

-- The removal of an agent's own resources leaves what another agent may bind.
pub bindable-removed :
    (gone aid : String) (b : Binding) (resources : List (String × Resource))
    → (gone == aid) ≡ false
    → bindable resources aid b ≡ true
    → bindable (select (λ row. not (owned_by gone row.1)) resources) aid b ≡ true
bindable-removed gone aid b resources other e = by_cases (lookup b.id resources) refl e
  where
    by_cases :
        (found : Option Resource)
        → lookup b.id resources ≡ found
        → published aid b.version found ≡ true
        → bindable (select (λ row. not (owned_by gone row.1)) resources) aid b ≡ true
    by_cases none l k = absurd (ground arith)
    by_cases (some r) l k =
        let kept : owned_by gone r ≡ false = ground (
          arith,
          eq_iff gone aid,
          opt_eq_iff r.owner (some gone),
          opt_eq_iff r.owner none,
          opt_eq_iff r.owner (some aid),
        ) in
        rw (lookup-select (λ row. not (owned_by gone row.1)) b.id r resources l (λ _. rw kept refl))
          k

pub find_longer :
    (n : ℕ) (versions more : List ResourceVersion)
    → is_some (resource_row n versions) ≡ true
    → is_some (resource_row n (versions ++ more)) ≡ true
find_longer n versions more e =
    rw (find-append (λ v. eqb v.version n) versions more) (by_cases (resource_row n versions) e)
  where
    by_cases :
        (found : Option ResourceVersion)
        → is_some found ≡ true
        → is_some (elim found [ none ↦ resource_row n more | some v ↦ some v ]) ≡ true
    by_cases none k = absurd (ground arith)
    by_cases (some v) k = refl
