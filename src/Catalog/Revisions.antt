-- ===== src/Catalog/Revisions.antt =====
-- The revisions by which catalog_service finds that a document was changed.
use opencode_cloud.Prelude.{ℕ, suc, true, false, some, ◌≡◌, ◌≤◌, refl, arith}
use opencode_cloud.Catalog.Documents.{Data, Table}
use opencode_cloud.Catalog.Replies.{Reply, done, ok, fail}
use opencode_cloud.Catalog.Edits.{moved, edit, edit-Edited}
use opencode_cloud.Catalog.Calls.{Outside, change, Step, calls, prepares, History, start, next}
use opencode_cloud.Catalog.Effects.{prepare-Prepared}

module _ (o : Outside) where
  Step-suc : (t t' : Table) → Step o t t' → t'.revision ≡ suc t.revision
  Step-suc _ _ (calls expected c t t' a e) = (edit-Edited expected (change o c) t t' done e).counted
  Step-suc _ _ (prepares rid order value t t' to e) =
      (prepare-Prepared o rid order value t t' e).counted

  History-le : (t t' : Table) → History o t t' → t.revision ≤ t'.revision
  History-le _ _ (start t) = omega arith
  History-le _ _ (next t t' t'' h s) = omega (arith, History-le t t' h, Step-suc t' t'' s)

  -- Of the changes that were made on one revision of the document, only one goes through: after it,
  -- and after every further history of calls, each other one is refused with 409, so it overwrites
  -- nothing that its author has not seen.
  -- A history has new identifiers from uuid4, and orders of models for the target "*".
  pub edit_once {ℓ κ} :
      {A : Type ℓ} {B : Type κ} (n : ℕ) (first : Data → Reply (A × Data))
      (second : Data → Reply (B × Data)) (a : A) (t t1 t2 : Table)
      → edit (some n) first t ≡ ok (a, t1)
      → History o t1 t2
      → edit (some n) second t2 ≡ fail 409 "Configuration changed; reload before saving"
  unfolding edit
  edit_once n first second a t t1 t2 e h =
      let edited = edit-Edited (some n) first t t1 a e in
      let current : moved (some n) t.revision ≡ false = edited.current in
      let counted : t1.revision ≡ suc t.revision = edited.counted in
      let later : t1.revision ≤ t2.revision = History-le t1 t2 h in
      let stale : moved (some n) t2.revision ≡ true = ground (arith, current, counted, later) in
      rw stale refl
