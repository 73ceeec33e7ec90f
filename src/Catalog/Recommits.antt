-- ===== src/Catalog/Recommits.antt =====
-- A commit of catalog_service/main.py that is asked for again after other calls.
use opencode_cloud.Prelude.{
  ℕ, String, true, false, ◌==◌, some, ◌≡◌, refl, sym, ◌∙◌, ap, subst, inl, inr, arith, eq_iff,
  eq_refl, lookup, lookup-put, Bool-cases, Option-cases,
}
use opencode_cloud.Catalog.Documents.{Release, Data, Table}
use opencode_cloud.Catalog.Replies.{done, ok, ok_inj}
use opencode_cloud.Catalog.Edits.{edit-Edited}
use opencode_cloud.Catalog.Releases.{apply_release, mark, commit}
use opencode_cloud.Catalog.Calls.{Outside, change, calls, prepares, History, start, next}
use opencode_cloud.Catalog.Effects.{
  prepare-Prepared, Effect, stays, follows, sets_models, sets_draft, fills, copies, sets_resource,
  adds_version, drops_resource, applies, moves, removes,
}
use opencode_cloud.Catalog.Effects.Applying.{change-Effect}
use opencode_cloud.Catalog.Commits.{committed_now, commit_committed, applied-releases}

module _ (rid : String) (n : ℕ) where
  -- The release is committed, under the version.
  abbrev pub Committed : Data → Type 0
  Committed d =
      (value : Release) × (lookup rid d.releases ≡ some value)
      × (value.committed ≡ true)
      × (value.version ≡ n)

  applies-Committed :
      (d d' : Data) (other : String) (value : Release) (now : ℕ)
      → lookup other d.releases ≡ some value
      → apply_release value value.subject now d ≡ ok d'
      → Committed d
      → Committed (mark other value d')
  applies-Committed d d' other value now present e (v, found, old, number) =
      elim (Bool-cases (other == rid)) [
        | inl t ↦
            let here : lookup rid d.releases ≡ some value =
              subst (λ (k : String). lookup k d.releases ≡ some value) ((eq_iff other rid).0 t)
                present in
            let same : v ≡ value = ground (arith, found, here) in
            (
              record value { committed = true },
              rw (lookup-put other rid _ d'.releases) (rw t refl),
              refl,
              subst (λ (x : Release). x.version ≡ n) same number,
            )
        | inr f ↦ (
          v,
          rw (lookup-put other rid _ d'.releases)
              (rw f (rw (applied-releases value value.subject now d d' e) found)),
          old,
          number,
        )
      ]

  Effect-Committed : (d d' : Data) → Effect d d' → Committed d → Committed d'
  Effect-Committed _ _ (stays d) v = v
  Effect-Committed _ _ (follows d d1 d2 x y) v =
      Effect-Committed d1 d2 y (Effect-Committed d d1 x v)
  Effect-Committed _ _ (sets_models d models) v = v
  Effect-Committed _ _ (sets_draft d aid cfg free) v = v
  Effect-Committed _ _ (fills d tid aid t cfg now free) v = v
  Effect-Committed _ _ (copies d source other owner archived r present) v = v
  Effect-Committed _ _ (sets_resource d other r same) v = v
  Effect-Committed _ _ (adds_version d other now checked r present) v = v
  Effect-Committed _ _ (drops_resource d other) v = v
  Effect-Committed _ _ (applies d d' other value now present e) v =
      applies-Committed d d' other value now present e v
  Effect-Committed _ _ (moves d aid a l present) v = v
  Effect-Committed _ _ (removes d aid request_id now) v = v

  module _ (o : Outside) where
    -- No release is prepared under the identifier: uuid4 gives another one to each.
    abbrev pub Spares : (t t' : Table) → History o t t' → Type 0
    Spares _ _ (start t) = Unit
    Spares _ _ (next t t' t'' h (calls expected c _ _ a e)) = Spares t t' h × Unit {0}
    Spares _ _ (next t t' t'' h (prepares other order value _ _ to e)) =
        Spares t t' h × ((other == rid) ≡ false)

    pub History-Committed :
        (t t' : Table) (h : History o t t')
        → Spares t t' h
        → Committed t.document
        → Committed t'.document
    History-Committed _ _ (start t) s v = v
    History-Committed _ _ (next t t' t'' h (calls expected c _ _ a e)) s v =
        Effect-Committed t'.document t''.document
          (change-Effect o c t'.document t''.document
            ((edit-Edited expected (change o c) t' t'' done e).changed))
          (History-Committed t t' h s.0 v)
    History-Committed _ _ (next t t' t'' h (prepares other order value _ _ to e)) s v =
        let (w, found, old, number) = History-Committed t t' h s.0 v in
        subst Committed (sym ((prepare-Prepared o other order value t' t'' e).stored))
          (w, rw (lookup-put other rid value t'.document.releases) (rw s.1 found), old, number)

-- What a commit that goes through leaves.
commit-Committed :
    (rid : String) (now n : ℕ) (d d' : Data) → commit rid now d ≡ ok (n, d') → Committed rid n d'
unfolding commit
commit-Committed rid now n d d' e = elim (Option-cases (lookup rid d.releases)) [
  | inl absent ↦ absurd (ground arith)
  | inr (value, present) ↦ elim (Bool-cases value.committed) [
    | inl t ↦
        let both : ◌≡◌ {A = ℕ × Data} (value.version, d) (n, d') = ok_inj (ground arith) in
        subst (λ (p : ℕ × Data). Committed rid p.0 p.1) both (value, present, t, refl)
    | inr f ↦
        let (d1, applied, marked, number) = committed_now rid now d d' value n present f e in
        subst (Committed rid n) marked (
          record value { committed = true },
          rw (lookup-put rid rid _ d1.releases) (rw (eq_refl rid) refl),
          refl,
          number,
        )
  ]
]

-- A commit that went through and is asked for again, after any calls that prepare no release under
-- its identifier, replies the same version and changes nothing in the document.
pub commit_again :
    (o : Outside) (rid : String) (now now' n : ℕ) (d : Data) (t t' : Table)
    → commit rid now d ≡ ok (n, t.document)
    → (h : History o t t') → Spares rid n o t t' h
    → commit rid now' t'.document ≡ ok (n, t'.document)
commit_again o rid now now' n d t t' e h s =
    let (value, found, old, number) =
      History-Committed rid n o t t' h s (commit-Committed rid now n d t.document e) in
    commit_committed rid now' t'.document value found old
    ∙ ap (λ (k : ℕ). ok (k, t'.document)) number
