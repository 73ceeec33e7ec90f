-- ===== src/Catalog/Edits.antt =====
-- One transaction of catalog_service/src/management.py over the document, and its lookups.
use opencode_cloud.Prelude.{
  ℕ, suc, String, Bool, true, false, not, Option, none, some, List, eqb, find, ◌≡◌, refl, sym, ap,
  ◌∙◌, arith, lookup, if◌then◌else◌,
}
use opencode_cloud.Catalog.Documents.{Data, Table, Resource, ResourceVersion, is_deleting}
use opencode_cloud.Catalog.Replies.{Reply, ok, fail, crash, ◌>>=◌, ok_inj}

abbrev pub moved : Option ℕ → ℕ → Bool
moved none revision = false
moved (some expected) revision = not (eqb expected revision)

-- `edit`: the change sees the document of the row, and an exception in it leaves the row.
unfoldable pub edit {ℓ} :
    {A : Type ℓ} → Option ℕ → (Data → Reply (A × Data)) → Table → Reply (A × Table)
edit expected change t =
    if moved expected t.revision
    then fail 409 "Configuration changed; reload before saving"
    else change t.document >>= λ (a, d). ok (a, record { revision = suc t.revision; document = d })

abbrev pub is_some {ℓ} : {A : Type ℓ} → Option A → Bool
is_some none = false
is_some (some a) = true

-- key in dictionary
abbrev pub has {ℓ} : {V : Type ℓ} → String → List (String × V) → Bool
has key rows = is_some (lookup key rows)

abbrev pub resource_row : ℕ → List ResourceVersion → Option ResourceVersion
resource_row n versions = find (λ v. eqb v.version n) versions

-- ManagementStore.resource_version
unfoldable pub resource_version : Data → String → ℕ → Reply (Resource × ResourceVersion)
resource_version d rid n = elim (lookup rid d.resources) [
  | none ↦ fail 404 "Resource not found"
  | some r ↦ elim (resource_row n r.versions) [
    | none ↦ fail 404 "Published resource version not found"
    | some v ↦ ok (r, v)
  ]
]

-- data["agents"].get(aid, {}).get("lifecycle") == "deleting"
abbrev pub is_ending : Data → String → Bool
is_ending d aid = elim (lookup aid d.agents) [ none ↦ false | some a ↦ is_deleting a.lifecycle ]

-- What a transaction that went through has done.
pub record Edited {ℓ} {A : Type ℓ} (expected : Option ℕ) (change : Data → Reply (A × Data))
    (t : Table) (a : A) (t' : Table) : Type ℓ where
  pub current : moved expected t.revision ≡ false
  pub changed : change t.document ≡ ok (a, t'.document)
  pub counted : t'.revision ≡ suc t.revision

pub edit-Edited {ℓ} :
    {A : Type ℓ} (expected : Option ℕ) (change : Data → Reply (A × Data)) (t t' : Table) (a : A)
    → edit expected change t ≡ ok (a, t')
    → Edited expected change t a t'
unfolding edit
edit-Edited {A = A} expected change t t' a e =
    by_cases (moved expected t.revision) (change t.document) refl refl e
  where
    by_cases :
        (stale : Bool) (r : Reply (A × Data))
        → moved expected t.revision ≡ stale
        → change t.document ≡ r
        → ◌≡◌ {A = Reply (A × Table)}
            (if stale
              then fail 409 "Configuration changed; reload before saving"
              else r >>= λ (x, d). ok (x, record { revision = suc t.revision; document = d }))
            (ok (a, t'))
        → Edited expected change t a t'
    by_cases true r k l m = absurd (ground arith)
    by_cases false (fail status detail) k l m = absurd (ground arith)
    by_cases false crash k l m = absurd (ground arith)
    by_cases false (ok (x, d)) k l m =
        let row : Table = record { revision = suc t.revision; document = d } in
        let both : ◌≡◌ {A = A × Table} (x, row) (a, t') = ok_inj m in
        record {
          current = k;
          changed = l ∙ ap (λ (p : A × Table). ok (p.0, p.1.document)) both;
          counted = sym (ap (λ (p : A × Table). p.1.revision) both);
        }
