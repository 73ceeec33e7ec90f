-- ===== src/Operations/Jobs/Exclusion.antt =====
-- Leases on overlapping scopes in operations/src/store.py.
use opencode_cloud.Prelude.{
  ℕ, String, Bool, true, false, ◌&&◌, ◌||◌, Option, some, ◌≡◌, ◌==◌, refl, arith, eq_iff, or_else,
  find, any, All, Distinct, Distinct-append, Distinct-replace, Distinct-find, Distinct-map, All-map,
  find-none, any-false, Bool-cases, Option-cases, inl, inr,
}
use opencode_cloud.Operations.Database.{
  Result, ok, err, Status, holding, Payload, payload_eq, Job, scope_of, Database,
}
use opencode_cloud.Operations.Jobs.{
  has_id, asked_by, Changes, given, changed, put_job, update, transition, load_pins, holds, new_job,
  insert_job, submit,
}

abbrev pub overlap : String → String → Bool
overlap a b = a == b || (a == "*" || b == "*")

-- Both jobs hold their scopes, and the scopes overlap.
abbrev pub clash : Job → Job → Bool
clash a b = holding a.status && holding b.status && overlap (scope_of a) (scope_of b)

abbrev pub same_job : Job → Job → Bool
same_job a b = a.id == b.id

abbrev pub same_request : Job → Job → Bool
same_request a b = a.request_id == b.request_id

pub record IsExclusive (db : Database) : Type 0 where
  pub ids : Distinct same_job db.jobs
  pub requests : Distinct same_request db.jobs
  pub leases : Distinct clash db.jobs

same_swap : (a b : String) → (a == b) ≡ (b == a)
same_swap a b = ground (arith, eq_iff a b, eq_iff b a)

pub clash_swap : (a b : Job) → clash a b ≡ clash b a
clash_swap a b = ground (arith, same_swap (scope_of a) (scope_of b))

-- A row is replaced by one with its id and its request id that clashes with no other row.
pub put_job-IsExclusive :
    (jid : String) (old new : Job) (db : Database)
    → find (has_id jid) db.jobs ≡ some old
    → new.id ≡ old.id
    → new.request_id ≡ old.request_id
    → All (λ y. has_id jid y ≡ false → clash new y ≡ false) db.jobs
    → IsExclusive db
    → IsExclusive (put_job jid new db)
put_job-IsExclusive jid old new db e id request apart v =
    let one : Distinct (λ x y. has_id jid x && has_id jid y) db.jobs =
      Distinct-map same_job (λ x y. has_id jid x && has_id jid y) db.jobs
        (λ x y h. ground (arith, eq_iff x.id y.id, eq_iff x.id jid, eq_iff y.id jid)) v.ids in
    record {
      ids =
          Distinct-replace same_job (has_id jid) new db.jobs (λ x y. same_swap x.id y.id) one
            (rw id (
              Distinct-find same_job (has_id jid) db.jobs old (λ x y. same_swap x.id y.id) v.ids e))
            v.ids;
      requests =
          Distinct-replace same_request (has_id jid) new db.jobs
            (λ x y. same_swap x.request_id y.request_id) one
            (rw request (
              Distinct-find same_request (has_id jid) db.jobs old
                (λ x y. same_swap x.request_id y.request_id) v.requests e))
            v.requests;
      leases = Distinct-replace clash (has_id jid) new db.jobs clash_swap one apart v.leases;
    }

narrow : (n o k w : Bool) → (n ≡ true → o ≡ true) → (o && k && w) ≡ false → (n && k && w) ≡ false
narrow true o k w h e = ground (arith, h refl)
narrow false o k w h e = refl

-- Changes that leave a job without a lease, or that it had a lease before, clash with no other job.
changed-apart :
    (jid : String) (c : Changes) (now : ℕ) (old : Job) (db : Database)
    → find (has_id jid) db.jobs ≡ some old
    → (holding (given c.status old.status) ≡ true → holding old.status ≡ true)
    → IsExclusive db
    → All (λ y. has_id jid y ≡ false → clash (changed c now old) y ≡ false) db.jobs
changed-apart jid c now old db e keeps v =
    All-map (λ y. has_id jid y ≡ false → clash old y ≡ false)
      (λ y. has_id jid y ≡ false → clash (changed c now old) y ≡ false) db.jobs
      (λ y h other. step y (h other))
      (Distinct-find clash (has_id jid) db.jobs old clash_swap v.leases e)
  where
    step : (y : Job) → clash old y ≡ false → clash (changed c now old) y ≡ false
    step y h = narrow _ (holding old.status) (holding y.status) _ keeps h

-- A property of the database that a result carries, if it carries one.
abbrev pub OnOk {ℓ} : {A : Type ℓ} → (Database → Type 0) → Result (A × Database) → Type 0
OnOk P (ok (a, db)) = P db
OnOk P (err e) = Unit

-- A transition, or an update, that leads to a holding status only from a holding one keeps the
-- leases exclusive.
pub transition-IsExclusive :
    (jid : String) (allowed : Status → Bool) (c : Changes) (now : ℕ) (db : Database)
    → ((s : Status) → allowed s ≡ true → holding (given c.status s) ≡ true → holding s ≡ true)
    → IsExclusive db
    → OnOk IsExclusive (transition jid allowed c now db)
unfolding transition
transition-IsExclusive jid allowed c now db keeps v =
    elim (Option-cases (find (has_id jid) db.jobs)) [
      | inl e ↦ rw (e, transition) tt
      | inr (j, e) ↦ elim (Bool-cases (allowed j.status)) [
        | inr f ↦ rw (e, transition) (rw f tt)
        | inl t ↦
            rw (e, transition)
              (rw t (
                put_job-IsExclusive jid j (changed c now j) db e refl refl
                  (changed-apart jid c now j db e (keeps j.status t) v) v))
      ]
    ]

pub update-IsExclusive :
    (jid : String) (c : Changes) (now : ℕ) (db : Database)
    → ((j : Job)
        → find (has_id jid) db.jobs ≡ some j
        → holding (given c.status j.status) ≡ true
        → holding j.status ≡ true)
    → IsExclusive db
    → OnOk IsExclusive (update jid c now db)
unfolding update
update-IsExclusive jid c now db keeps v = elim (Option-cases (find (has_id jid) db.jobs)) [
  | inl e ↦ rw (e, update) tt
  | inr (j, e) ↦
      rw (e, update)
        (put_job-IsExclusive jid j (changed c now j) db e refl refl
          (changed-apart jid c now j db e (keeps j e) v) v)
]

-- A property of the database that an admission leaves, if it admits.
abbrev pub OnAdmit : (Database → Type 0) → Result (Job × Bool × Database) → Type 0
OnAdmit P (ok (j, created, db)) = P db
OnAdmit P (err e) = Unit

insert_job-IsExclusive :
    (j : Job) (db : Database)
    → All (λ x. same_request x j ≡ false) db.jobs
    → All (λ x. clash x j ≡ false) db.jobs
    → IsExclusive db
    → OnAdmit IsExclusive (insert_job j db)
insert_job-IsExclusive j db fresh free v = elim (Bool-cases (any (has_id j.id) db.jobs)) [
  | inl taken ↦ rw taken tt
  | inr new ↦ rw new (record {
    ids = Distinct-append same_job db.jobs j v.ids (any-false _ db.jobs new);
    requests = Distinct-append same_request db.jobs j v.requests fresh;
    leases = Distinct-append clash db.jobs j v.leases free;
  })
]

holds-clash :
    (held : String) (x j : Job) → scope_of j ≡ held → holds held x ≡ false → clash x j ≡ false
holds-clash held x j e h = rw e (ground arith)

pub submit-IsExclusive :
    (kind target : String) (payload : Payload) (scope : Option String) (fresh_request id : String)
    (now : ℕ) (db : Database)
    → IsExclusive db
    → OnAdmit IsExclusive (submit kind target payload scope fresh_request id now db)
unfolding submit
submit-IsExclusive kind target payload scope fresh_request id now db v =
    let held = or_else scope target in
    let request_id = or_else payload.body.request_id fresh_request in
    elim (Option-cases (find (asked_by request_id) db.jobs)) [
      | inr (job, e) ↦
          elim (Bool-cases
            (job.kind == kind && (job.target == target && payload_eq job.payload payload))) [
              | inl t ↦ rw (e, submit) (rw t v)
              | inr f ↦ rw (e, submit) (rw f tt)
            ]
      | inl e ↦ elim (Bool-cases (db.has_load_tests && load_pins held db)) [
        | inl pinned ↦ rw (e, submit) (rw pinned tt)
        | inr unpinned ↦ elim (Bool-cases (any (holds held) db.jobs)) [
          | inl busy ↦ rw (e, submit) (rw unpinned (rw busy tt))
          | inr free ↦
              let job = new_job kind target payload held request_id id now in
              rw (e, submit)
                (rw unpinned (
                  rw free (
                    insert_job-IsExclusive job db (find-none _ db.jobs e)
                      (All-map (λ x. holds held x ≡ false) (λ x. clash x job ≡ false) db.jobs
                        (λ x h. holds-clash held x job refl h) (any-false _ db.jobs free))
                      v)))
        ]
      ]
    ]
