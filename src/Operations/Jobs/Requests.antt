-- ===== src/Operations/Jobs/Requests.antt =====
-- Request ids in operations/src/store.py, and reads after the writes of `transition`.
use opencode_cloud.Prelude.{
  ℕ, String, Bool, true, false, ◌&&◌, Option, none, some, [], ◌∷◌, ◌++◌, ◌≡◌, ◌==◌, refl, arith,
  eq_iff, eq_refl, or_else, if◌then◌else◌, find, any, find_sound, find-append, find-replace_self,
  find-replace_ne, Bool-cases, Option-cases, inl, inr,
}
use opencode_cloud.Operations.Database.{
  Result, ok, err, http, Status, Payload, payload_eq, Job, Database,
}
use opencode_cloud.Operations.Jobs.{
  has_id, asked_by, get, Changes, changed, put_job, transition, load_pins, holds, new_job,
  insert_job, submit,
}

-- What a submission that created `j` has found and written, with `request_id` for its request id.
pub record Created (kind target : String) (payload : Payload) (held request_id id : String)
    (now : ℕ) (db : Database) (j : Job) (db' : Database) : Type 0 where
  pub job : j ≡ new_job kind target payload held request_id id now
  pub unused : find (asked_by request_id) db.jobs ≡ none
  pub new_id : any (has_id id) db.jobs ≡ false
  pub free : any (holds held) db.jobs ≡ false
  pub unpinned : (db.has_load_tests && load_pins held db) ≡ false
  pub written : db' ≡ record db { jobs = db.jobs ++ j ∷ [] }

-- A submission that creates a job has found its request id and its id unused, its scope held by no
-- job and pinned by no load test; the new job is queued, and appended to the others.
pub submit-Created :
    (kind target : String) (payload : Payload) (scope : Option String) (fresh_request id : String)
    (now : ℕ) (db : Database) {j : Job} {db' : Database}
    → submit kind target payload scope fresh_request id now db ≡ ok (j, true, db')
    → Created kind target payload
        (or_else scope target)
        (or_else payload.body.request_id fresh_request)
        id
        now
        db
        j
        db'
unfolding submit
submit-Created kind target payload scope fresh_request id now db {j} {db'} h =
    by_cases (or_else scope target) (or_else payload.body.request_id fresh_request)
      (find (asked_by (or_else payload.body.request_id fresh_request)) db.jobs) refl h
  where
    by_cases :
        (held request_id : String) (old : Option Job)
        → find (asked_by request_id) db.jobs ≡ old
        → (elim old [
          | some job ↦
              if job.kind == kind && (job.target == target && payload_eq job.payload payload)
              then ok (job, false, db)
              else err (http 409 "Request ID already used with different operation")
          | none ↦
              if db.has_load_tests && load_pins held db
              then err (http 409 "A load test pins this Agent version")
              else if any (holds held) db.jobs
              then err (http 409 "An operation already holds this target")
              else insert_job (new_job kind target payload held request_id id now) db
        ])
          ≡ ok (j, true, db')
        → Created kind target payload held request_id id now db j db'
    by_cases held request_id (some old) e h = absurd (ground arith)
    by_cases held request_id none e h = record {
      job = ground arith;
      unused = e;
      new_id = ground arith;
      free = ground arith;
      unpinned = ground arith;
      written = ground arith;
    }

module _ (kind target : String) (payload : Payload) (scope : Option String)
    (fresh_request id : String) (now : ℕ) (db db' : Database) (j : Job) (r : String)
    (named : payload.body.request_id ≡ some r) (filled : (r == "") ≡ false)
    (created : submit kind target payload scope fresh_request id now db ≡ ok (j, true, db')) where
  asked : (fresh : String) → or_else payload.body.request_id fresh ≡ r
  asked fresh = rw named (rw filled refl)

  found : find (asked_by r) db'.jobs ≡ some j
  found =
      let c = submit-Created kind target payload scope fresh_request id now db created in
      let same : or_else payload.body.request_id fresh_request ≡ r = asked fresh_request in
      let unused : find (asked_by r) db.jobs ≡ none = rw same at c.unused in
      let job : j.request_id ≡ r = ground (arith, c.job, same) in
      rw (c.written) (
        rw (find-append (asked_by r) db.jobs (j ∷ []))
          (rw unused (unfold find in rw (job, eq_refl r) refl)))

  -- Submitting a request again directly after it created a job, whatever the scope, the time and the fresh ids are then, returns the
  -- job that it created and changes nothing; a request with another kind, target or payload under the
  -- same request id is refused with 409.
  pub submit_again :
      (kind' target' : String) (payload' : Payload) (scope' : Option String) (fresh' id' : String)
      (now' : ℕ)
      → payload'.body.request_id ≡ some r
      → submit kind' target' payload' scope' fresh' id' now' db' ≡ (
          if kind == kind' && (target == target' && payload_eq payload payload')
          then ok (j, false, db')
          else err (http 409 "Request ID already used with different operation"))
  unfolding submit
  submit_again kind' target' payload' scope' fresh' id' now' named' =
      let c = submit-Created kind target payload scope fresh_request id now db created in
      let same : or_else payload'.body.request_id fresh' ≡ r = rw named' (rw filled refl) in
      rw (same, submit) (rw found (rw (c.job) refl))

-- Another row is read as before, and the written row as it was written.
pub get-put_job :
    (jid : String) (old new : Job) (db : Database)
    → find (has_id jid) db.jobs ≡ some old
    → new.id ≡ old.id
    → (get jid (put_job jid new db) ≡ ok new)
      × ((k : String) → (jid == k) ≡ false → get k (put_job jid new db) ≡ get k db)
unfolding get
get-put_job jid old new db e same =
    let mine : (old.id == jid) ≡ true = find_sound (has_id jid) db.jobs old e in
    (
      rw (find-replace_self (has_id jid) new old db.jobs e (rw same mine), get) refl,
      λ k ne.
          rw
            (
              find-replace_ne (has_id jid) (has_id k) new db.jobs
                  (λ x t. ground (arith, eq_iff x.id jid, eq_iff x.id k, eq_iff jid k))
                  (rw same
                    (ground (arith, mine, eq_iff old.id jid, eq_iff old.id k, eq_iff jid k))),
              get,
            )
            refl,
    )

-- What a transition returns for the job that was read, and what is read after it.
abbrev pub Transitioned :
    String
    → (Status → Bool)
    → Changes
    → ℕ
    → Database
    → Result (Job × Database)
    → Result Job
    → Type 0
Transitioned jid allowed c now db r (err x) = r ≡ err (http 404 "Job not found")
Transitioned jid allowed c now db r (ok j) =
    if allowed j.status
    then ((db' : Database) × (r ≡ ok (changed c now j, db'))
        × (get jid db' ≡ ok (changed c now j))
        × ((k : String) → (jid == k) ≡ false → get k db' ≡ get k db))
    else (r ≡ err (http 409 "Job state changed"))

-- A transition of a job that is there succeeds exactly when its status is allowed; the job is then
-- read with the changes, and every other job as before. If its status is not allowed the transition
-- is a 409, and for a job that is not there a 404.
pub transition-Transitioned :
    (jid : String) (allowed : Status → Bool) (c : Changes) (now : ℕ) (db : Database)
    → Transitioned jid allowed c now db (transition jid allowed c now db) (get jid db)
unfolding get transition
transition-Transitioned jid allowed c now db = elim (Option-cases (find (has_id jid) db.jobs)) [
  | inl e ↦ rw (e, get, transition) refl
  | inr (j, e) ↦ elim (Bool-cases (allowed j.status)) [
    | inr f ↦ rw (e, get, transition) (rw f refl)
    | inl t ↦
        let r = get-put_job jid j (changed c now j) db e refl in
        rw (e, get, transition) (rw t (put_job jid (changed c now j) db, refl, r.0, r.1))
  ]
]
