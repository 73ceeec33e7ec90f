-- ===== src/Operations/Jobs/Leases.antt =====
-- Histories of the job store of operations/src/store.py, and the last write of `run` in
-- operations/main.py.
use opencode_cloud.Prelude.{
  ℕ, String, Bool, true, false, ◌&&◌, Option, none, some, [], ◌≡◌, ◌==◌, refl, arith, eq_iff,
  opt_eq, find, any, Distinct-find, All-map, All-find, find_sound, any-false, find-replace_self,
  find-replace_ne, Bool-cases, Option-cases, inl, inr, subst,
}
use opencode_cloud.Operations.Database.{
  ok, Status, needs_recovery, holding, Payload, payload_eq, Job, scope_of, Database,
}
use opencode_cloud.Operations.Jobs.{
  has_id, Changes, given, changed, put_job, update, transition, submit, retriable, retried, blocks,
  retry_found, retry_deletion,
}
use opencode_cloud.Operations.Jobs.Exclusion.{
  overlap, clash, IsExclusive, put_job-IsExclusive, OnOk, OnAdmit, transition-IsExclusive,
  update-IsExclusive, submit-IsExclusive, clash_swap,
}

blocks-clash :
    (jid rid xid : String) (payload : Payload) (now : ℕ) (job y : Job)
    → (scope_of job == "*") ≡ false
    → has_id jid y ≡ false
    → blocks jid job y ≡ false
    → clash (retried payload rid xid now job) y ≡ false
blocks-clash jid rid xid payload now job y h k b =
    ground (arith, eq_iff (scope_of y) (scope_of job), eq_iff (scope_of job) (scope_of y))

-- A retry of a deletion whose scope is one agent keeps the leases exclusive.
pub retry_deletion-IsExclusive :
    (jid : String) (payload : Payload) (execution_id : String) (now : ℕ) (db : Database)
    → ((j : Job) → find (has_id jid) db.jobs ≡ some j → (scope_of j == "*") ≡ false)
    → IsExclusive db
    → OnAdmit IsExclusive (retry_deletion jid payload execution_id now db)
unfolding retry_deletion
retry_deletion-IsExclusive jid payload xid now db narrow v =
    elim (Option-cases (find (has_id jid) db.jobs)) [
      | inl e ↦ rw (e, retry_deletion) tt
      | inr (job, e) ↦ elim (Option-cases payload.body.request_id) [
        | inl r ↦ rw (e, r, retry_deletion) tt
        | inr (rid, r) ↦ rw (e, r, retry_deletion) (found job e rid)
      ]
    ]
  where
    found :
        (job : Job)
        → find (has_id jid) db.jobs ≡ some job
        → (rid : String) → OnAdmit IsExclusive (retry_found jid payload rid xid now db job)
    found job e rid = elim (Bool-cases (opt_eq job.retry_request_id (some rid))) [
      | inl again ↦ elim (Bool-cases (payload_eq job.payload payload)) [
        | inl t ↦ rw again (rw t v)
        | inr f ↦ rw again (rw f tt)
      ]
      | inr first ↦ elim (Bool-cases (job.kind == "agent.delete" && retriable job.status)) [
        | inr f ↦ rw first (rw f tt)
        | inl t ↦ elim (Bool-cases (any (blocks jid job) db.jobs)) [
          | inl busy ↦ rw first (rw t (rw busy tt))
          | inr free ↦ rw first (
              rw t (
                rw free (
                  put_job-IsExclusive jid job (retried payload rid xid now job) db e refl refl
                    (All-map (λ y. blocks jid job y ≡ false)
                      (λ y.
                        has_id jid y ≡ false → clash (retried payload rid xid now job) y ≡ false)
                      db.jobs
                      (λ y b k. blocks-clash jid rid xid payload now job y (narrow job e) k b)
                      (any-false _ db.jobs free))
                    v)))
        ]
      ]
    ]

-- The calls of the service, each from the database that it finds.
pub data Step (db : Database) : Database → Type 0 where
  submits :
      (kind target : String) (payload : Payload) (scope : Option String) (fresh_request id : String)
      (now : ℕ) {j : Job} {b : Bool} {db' : Database}
      → submit kind target payload scope fresh_request id now db ≡ ok (j, b, db')
      → Step db db'
  retries :
      (jid : String) (payload : Payload) (execution_id : String) (now : ℕ) {j : Job} {b : Bool}
      {db' : Database}
      → ((j : Job) → find (has_id jid) db.jobs ≡ some j → (scope_of j == "*") ≡ false)
      → retry_deletion jid payload execution_id now db ≡ ok (j, b, db')
      → Step db db'
  moves :
      (jid : String) (allowed : Status → Bool) (c : Changes) (now : ℕ) {j : Job} {db' : Database}
      → ((s : Status) → allowed s ≡ true → holding (given c.status s) ≡ true → holding s ≡ true)
      → transition jid allowed c now db ≡ ok (j, db')
      → Step db db'
  writes :
      (jid : String) (c : Changes) (now : ℕ) {j : Job} {db' : Database}
      → ((j : Job)
          → find (has_id jid) db.jobs ≡ some j
          → holding (given c.status j.status) ≡ true
          → holding j.status ≡ true)
      → update jid c now db ≡ ok (j, db')
      → Step db db'

pub data Reach (db : Database) : Database → Type 0 where
  here : Reach db db
  next : {db' db'' : Database} → Reach db db' → Step db' db'' → Reach db db''

Step-IsExclusive : {db db' : Database} → Step db db' → IsExclusive db → IsExclusive db'
Step-IsExclusive {db} (submits k t p s r i now e) v =
    subst (OnAdmit IsExclusive) e (submit-IsExclusive k t p s r i now db v)
Step-IsExclusive {db} (retries jid p x now h e) v =
    subst (OnAdmit IsExclusive) e (retry_deletion-IsExclusive jid p x now db h v)
Step-IsExclusive {db} (moves jid allowed c now h e) v =
    subst (OnOk IsExclusive) e (transition-IsExclusive jid allowed c now db h v)
Step-IsExclusive {db} (writes jid c now h e) v =
    subst (OnOk IsExclusive) e (update-IsExclusive jid c now db h v)

-- After any calls from an exclusive database, job ids and request ids are distinct, and no two jobs
-- that hold their scopes (queued, running, waiting, applying, needs_recovery or interrupted) have the
-- same scope, nor has either the scope `*`. The calls are submissions, retries of deletions whose
-- scope is one agent, and transitions and updates that give a holding status only to a job that
-- holds one.
pub Reach-IsExclusive : {db db' : Database} → IsExclusive db → Reach db db' → IsExclusive db'
Reach-IsExclusive v here = v
Reach-IsExclusive v (next r s) = Step-IsExclusive s (Reach-IsExclusive v r)

abbrev pub recover : Option String → Changes
recover error = record {
  status = some needs_recovery;
  checkpoint = none;
  error = some error;
  notes = [];
}

-- An update that marks a job as `needs_recovery` after its lease was released, while another job
-- holds an overlapping scope, succeeds and leaves two jobs with overlapping leases.
pub update_late :
    (jid : String) (j other : Job) (error : Option String) (now : ℕ) (db : Database)
    → find (has_id jid) db.jobs ≡ some j
    → find (has_id other.id) db.jobs ≡ some other
    → (other.id == jid) ≡ false
    → holding j.status ≡ false
    → holding other.status ≡ true
    → overlap (scope_of other) (scope_of j) ≡ true
    → (next : Job) × (db' : Database) × (update jid (recover error) now db ≡ ok (next, db'))
      × ¬ IsExclusive db'
unfolding update
update_late jid j other error now db e f ne released held over = (
  changed (recover error) now j,
  put_job jid (changed (recover error) now j) db,
  rw (e, update) refl,
  clashes,
)
  where
    new : Job
    new = changed (recover error) now j

    mine : (j.id == jid) ≡ true
    mine = find_sound (has_id jid) db.jobs j e

    apart : (new.id == other.id) ≡ false
    apart = ground (arith, mine, ne, eq_iff j.id jid, eq_iff j.id other.id, eq_iff other.id jid)

    found_new : find (has_id jid) (put_job jid new db).jobs ≡ some new
    found_new = find-replace_self (has_id jid) new j db.jobs e mine

    found_other : find (has_id other.id) (put_job jid new db).jobs ≡ some other
    found_other =
        rw
          (find-replace_ne (has_id jid) (has_id other.id) new db.jobs
            (λ x t. ground (arith, ne, eq_iff x.id jid, eq_iff x.id other.id, eq_iff other.id jid))
            apart)
          f

    clashes : ¬ IsExclusive (put_job jid new db)
    clashes v =
        let no : clash other new ≡ false =
          All-find (λ y. has_id other.id y ≡ false → clash other y ≡ false) (has_id jid)
            (put_job jid new db).jobs new
            (Distinct-find clash (has_id other.id) (put_job jid new db).jobs other clash_swap
              v.leases found_other)
            found_new apart in
        ground arith
