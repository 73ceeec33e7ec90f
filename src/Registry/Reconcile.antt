-- ===== src/Registry/Reconcile.antt =====
-- The second transaction of `reconcile` of sandbox_manager/registry.py.
use opencode_cloud.Prelude.{
  ℕ, String, true, false, not, List, [], ◌∷◌, map, ◌≡◌, ◌==◌, refl, ap, ◌∙◌, arith, eq_iff, eq_refl,
  if◌then◌else◌, update_where, any, All, All-map, Bool-cases, inl, inr,
}
use opencode_cloud.Registry.Tables.{SandboxRecord, Registry, Result, ok, err}
use opencode_cloud.Registry.Sandboxes.{
  has_id, SandboxValues, observe, mark_missing, missing_ids, sweep, reconcile, member,
}

abbrev pub missed : ℕ → SandboxRecord → SandboxRecord
missed now row = record row { status = "missing"; last_active_at = now }

-- What the updates do to one row.
abbrev pub marked : List String → ℕ → SandboxRecord → SandboxRecord
marked ids now row = if member row.sandbox_id ids then missed now row else row

update-map :
    (sid : String) (ids : List String) (now : ℕ) (rows : List SandboxRecord)
    → map (marked ids now) (update_where (has_id sid) (missed now) rows)
      ≡ map (marked (sid ∷ ids) now) rows
unfolding update_where any
update-map sid ids now [] = refl
update-map sid ids now (row ∷ rows) =
    ground
      (arith, update-map sid ids now rows, eq_iff row.sandbox_id sid, eq_iff sid row.sandbox_id)

map-marked_nil : (now : ℕ) (rows : List SandboxRecord) → rows ≡ map (marked [] now) rows
unfolding any
map-marked_nil now [] = refl
map-marked_nil now (row ∷ rows) = ap (◌∷◌ row) (map-marked_nil now rows)

mark_missing-map :
    (ids : List String) (now : ℕ) (db : Registry)
    → mark_missing ids now db ≡ record db { sandboxes = map (marked ids now) db.sandboxes }
unfolding mark_missing any
mark_missing-map [] now db =
    ap (λ (rows : List SandboxRecord). record db { sandboxes = rows })
      (map-marked_nil now db.sandboxes)
mark_missing-map (sid ∷ ids) now db =
    mark_missing-map ids now _
    ∙ ap (λ (rows : List SandboxRecord). record db { sandboxes = rows })
        (update-map sid ids now db.sandboxes)

missing_ids_sound :
    (x : String) (observed : List String) (rows : List SandboxRecord)
    → member x (missing_ids observed rows) ≡ true
    → member x observed ≡ false
unfolding missing_ids
missing_ids_sound x observed [] h = unfold any in cc h
missing_ids_sound x observed (row ∷ rows) h = elim (Bool-cases (row.sandbox_id == x)) [
  | inl t ↦ elim (Bool-cases (member x observed)) [
    | inl seen ↦
        missing_ids_sound x observed rows
          (rw ((eq_iff row.sandbox_id x).0 t, seen, missing_ids) at h)
    | inr unseen ↦ unseen
  ]
  | inr f ↦ missing_ids_sound x observed rows (unfold any in ground arith)
]

missing_ids_complete :
    (x : String) (observed : List String) (rows : List SandboxRecord)
    → any (has_id x) rows ≡ true
    → member x observed ≡ false
    → member x (missing_ids observed rows) ≡ true
unfolding missing_ids any
missing_ids_complete x observed [] h k = cc h
missing_ids_complete x observed (row ∷ rows) h k =
    ground (arith, missing_ids_complete x observed rows, eq_iff row.sandbox_id x)

module _ (ids : List String) (rows : List SandboxRecord) where
  member-missing_ids :
      (x : String)
      → any (has_id x) rows ≡ true
      → member x (missing_ids ids rows) ≡ not (member x ids)
  member-missing_ids x there = elim (Bool-cases (member x ids)) [
    | inr unseen ↦ rw unseen (missing_ids_complete x ids rows there unseen)
    | inl seen ↦ elim (Bool-cases (member x (missing_ids ids rows))) [
      | inl listed ↦
          absurd (let no : member x ids ≡ false = missing_ids_sound x ids rows listed in cc)
      | inr free ↦ rw (seen, free) refl
    ]
  ]

any_self : (rows : List SandboxRecord) → All (λ row. any (has_id row.sandbox_id) rows ≡ true) rows
unfolding any
any_self [] = tt
any_self (row ∷ rows) = (
  rw (eq_refl row.sandbox_id) refl,
  All-map (λ r. any (has_id r.sandbox_id) rows ≡ true)
      (λ r. any (has_id r.sandbox_id) (row ∷ rows) ≡ true) rows (λ r h. ground arith)
      (any_self rows),
)

map-cong :
    (f g : SandboxRecord → SandboxRecord) (rows : List SandboxRecord)
    → All (λ row. f row ≡ g row) rows
    → map f rows ≡ map g rows
map-cong f g [] h = refl
map-cong f g (row ∷ rows) h = rw (h.0, map-cong f g rows h.1) refl

-- A row after a sweep: as it was if its sandbox was observed, and else missing since `now`.
abbrev pub swept : List String → ℕ → SandboxRecord → SandboxRecord
swept observed now row = if member row.sandbox_id observed then row else missed now row

-- Once every observation is stored, `reconcile` returns the ids of the sandboxes that were not
-- observed, marks those as missing, and leaves every other sandbox, the agents and the sessions as
-- the observations left them. An observation that cannot be stored ends it before any is marked.
pub reconcile-swept :
    (observed : List (SandboxValues × ℕ)) (now : ℕ) (db : Registry)
    → let (db', result) = observe observed db in
      reconcile observed now db ≡ elim result [
        | err e ↦ (db', err e)
        | ok ids ↦ (
          record db' { sandboxes = map (swept ids now) db'.sandboxes },
          ok (missing_ids ids db'.sandboxes),
        )
      ]
unfolding reconcile
reconcile-swept observed now db = by_result (observe observed db)
  where
    by_result :
        (r : Registry × Result (List String))
        → sweep now r ≡ elim r.1 [
          | err e ↦ (r.0, err e)
          | ok ids ↦ (
            record (r.0) { sandboxes = map (swept ids now) r.0.sandboxes },
            ok (missing_ids ids r.0.sandboxes),
          )
        ]
    by_result (db', err e) = refl
    by_result (db', ok ids) =
        let rows = db'.sandboxes in
        let agree : All (λ row. marked (missing_ids ids rows) now row ≡ swept ids now row) rows =
          All-map (λ r. any (has_id r.sandbox_id) rows ≡ true)
            (λ row. marked (missing_ids ids rows) now row ≡ swept ids now row) rows
            (λ r there. ground (arith, member-missing_ids ids rows r.sandbox_id there))
            (any_self rows) in
        rw (mark_missing-map (missing_ids ids rows) now db', map-cong _ _ rows agree) refl
