-- ===== src/Operations/Admission/Exclusion.antt =====
-- File operations and executions beside the cleanups that operations/main.py authorizes.
use text.Mathlib.Text.{starts_with}
use opencode_cloud.Prelude.{
  String, Bool, true, false, not, ◌&&◌, ◌||◌, Option, none, some, List, [], ◌∷◌, ◌==◌, ◌≡◌, ◌≢◌,
  inl, inr, refl, sym, subst, arith, eq_iff, if◌then◌else◌, find, select, any, All, Bool-cases,
}
use opencode_cloud.Operations.LoadTables.{
  StorageState, is_cleaning, cleanup_runs, LoadTest, LoadUser,
}
use opencode_cloud.Operations.Database.{
  Error, Result, ok, err, http, Status, queued, running, waiting, applying, needs_recovery,
  interrupted, succeeded, failed, cancelled, holding, Job, scope_of, Database,
}
use opencode_cloud.Operations.LoadTests.{has_run}
use opencode_cloud.Operations.Recovery.{desires}
use opencode_cloud.Operations.Admission.{
  is_retained, load_user, usable, deleting, file_admission, is_applying, execution_of, intends,
  no_intent, cleans, user_intent, authorize_user, cleanup_authorization, awaits, holds_agent,
  ends_agent, starts_sandbox, admission, resources_for,
}

applying-holding : (s : Status) → is_applying s ≡ true → holding s ≡ true
applying-holding applying e = refl
applying-holding queued e = refl
applying-holding running e = refl
applying-holding waiting e = refl
applying-holding needs_recovery e = refl
applying-holding interrupted e = refl
applying-holding succeeded e = absurd (ground arith)
applying-holding failed e = absurd (ground arith)
applying-holding cancelled e = absurd (ground arith)

-- A deletion of an agent is a job with the agent as its scope.
abbrev pub ScopedDeletion : Job → Type 0
ScopedDeletion j = starts_with j.kind "agent.delete" ≡ true → scope_of j ≡ j.target

deletion :
    (kind : String)
    → (kind == "agent.delete" || kind == "agent.delete-empty") ≡ true
    → starts_with kind "agent.delete" ≡ true
deletion kind e = elim (Bool-cases (kind == "agent.delete")) [
  | inl t ↦
      let same : kind ≡ "agent.delete" = ground (arith, eq_iff kind "agent.delete") in rw same refl
  | inr f ↦
      let same : kind ≡ "agent.delete-empty" = ground (arith, eq_iff kind "agent.delete-empty") in
      rw same refl
]

intends-deleting :
    (aid request_id : String) (j : Job)
    → ScopedDeletion j
    → intends aid request_id j ≡ true
    → deleting aid j ≡ true
intends-deleting aid request_id j scoped e =
    let (target, kind, status) =
      parts (j.target == aid) (j.kind == "agent.delete" || j.kind == "agent.delete-empty")
        (execution_of j == request_id) (is_applying j.status) e in
    let prefix = deletion j.kind kind in
    joined (scope_of j == aid) (starts_with j.kind "agent.delete") (holding j.status)
      (subst (λ s. (s == aid) ≡ true) (sym (scoped prefix)) target) prefix
      (applying-holding j.status status)
  where
    parts : (a b c d : Bool) → (a && (b && (c && d))) ≡ true → (a ≡ true) × (b ≡ true) × (d ≡ true)
    parts a b c d e = (ground arith, ground arith, ground arith)

    joined : (a b c : Bool) → a ≡ true → b ≡ true → c ≡ true → (a && (b && c)) ≡ true
    joined a b c p q r = ground arith

any-All :
    (p q : Job → Bool) (P : Job → Type 0) (jobs : List Job)
    → ((j : Job) → P j → p j ≡ true → q j ≡ true)
    → All P jobs
    → any p jobs ≡ true
    → any q jobs ≡ true
unfolding any
any-All p q P [] h a e = absurd (ground arith)
any-All p q P (j ∷ jobs) h a e = elim (Bool-cases (p j)) [
  | inl t ↦ rw (h j a.0 t) refl
  | inr f ↦ ground (arith, any-All p q P jobs h a.1 (ground arith))
]

-- While a cleanup of all files of an agent is authorized, every file operation on the agent is
-- refused with 409, if each deletion of an agent has the agent as its scope.
pub agent_cleanup-refused :
    (aid request_id username : String) (db : Database)
    → All ScopedDeletion db.jobs
    → cleanup_authorization aid request_id none none db ≡ ok tt
    → file_admission aid username db ≡ err (http 409 "Agent deletion pending")
unfolding cleanup_authorization file_admission
agent_cleanup-refused aid request_id username db scoped e =
    elim (Bool-cases (any (intends aid request_id) db.jobs)) [
      | inr f ↦ absurd (ground (arith, subst (λ b. (if b then ok tt else no_intent) ≡ ok tt) f e))
      | inl t ↦
          rw
            (any-All (intends aid request_id) (deleting aid) ScopedDeletion db.jobs
              (λ j s h. intends-deleting aid request_id j s h) scoped t)
            refl
    ]

cleaning-not_retained : (s : StorageState) → is_cleaning s ≡ true → is_retained s ≡ false
cleaning-not_retained StorageState.cleaning e = refl
cleaning-not_retained StorageState.retained e = absurd (ground arith)
cleaning-not_retained StorageState.cleaned e = absurd (ground arith)

load_user-some :
    (aid username : String) (db : Database) (u : LoadUser)
    → load_user aid username db ≡ some u
    → starts_with username "loadtest-" ≡ true
unfolding load_user
load_user-some aid username db u e = elim (Bool-cases (starts_with username "loadtest-")) [
  | inl t ↦ t
  | inr f ↦ absurd (
      ground (
        arith,
        subst
            (λ b.
              (if b
                then find (λ (u : LoadUser). u.username == username && u.agent_id == aid)
                    db.load_test_users
                else none)
              ≡ some u)
            f e,
      ))
]

-- The user whose cleanup was authorized, and that it is being cleaned.
authorized_user :
    (aid request_id username run_id : String) (db : Database)
    → authorize_user aid request_id username run_id db ≡ ok tt
    → (u : LoadUser) × (load_user aid username db ≡ some u) × (is_cleaning u.state ≡ true)
authorized_user aid request_id username run_id db e = by_run (find (has_run run_id) db.load_tests) e
  where
    parts : (a b c d : Bool) → (a && (b && (c && d))) ≡ true → c ≡ true
    parts a b c d e = ground arith

    by_user :
        (r : LoadTest) (o : Option LoadUser)
        → load_user aid username db ≡ o
        → user_intent run_id username request_id r o ≡ ok tt
        → (u : LoadUser) × (load_user aid username db ≡ some u) × (is_cleaning u.state ≡ true)
    by_user r none a e = absurd (ground arith)
    by_user r (some u) a e = elim (Bool-cases (cleans run_id username request_id r u)) [
      | inl t ↦ (
        u,
        a,
        parts (cleanup_runs r.cleanup_status) (u.run_id == run_id) (is_cleaning u.state) _ t,
      )
      | inr f ↦ absurd (ground (arith, subst (λ b. (if b then ok tt else no_intent) ≡ ok tt) f e))
    ]

    by_run :
        (o : Option LoadTest)
        → (elim o [
          | none ↦ err (http 404 "Load test not found")
          | some r ↦ user_intent run_id username request_id r (load_user aid username db)
        ])
          ≡ ok tt
        → (u : LoadUser) × (load_user aid username db ≡ some u) × (is_cleaning u.state ≡ true)
    by_run none e = absurd (ground arith)
    by_run (some r) e = by_user r (load_user aid username db) refl e

-- While a cleanup of the files of a load-test user is authorized, every file operation of the user
-- and every execution for the user is refused.
pub user_cleanup-refused :
    (aid request_id username run_id : String) (sandbox_id : String → String → String)
    (db : Database)
    → (username == "") ≡ false
    → (run_id == "") ≡ false
    → cleanup_authorization aid request_id (some username) (some run_id) db ≡ ok tt
    → ((u : Option LoadUser) → file_admission aid username db ≢ ok u)
      × ((u : Option LoadUser) → admission sandbox_id aid username db ≢ ok u)
unfolding cleanup_authorization file_admission admission resources_for
user_cleanup-refused aid request_id username run_id sandbox_id db named run e =
    let (u, found, cleaning) =
      authorized_user aid request_id username run_id db (rw (named, run) at e) in
    let prefix = load_user-some aid username db u found in
    let kept = cleaning-not_retained u.state cleaning in
    (
      guarded (any (deleting aid) db.jobs) _ _
          (loaded u "Load-test storage unavailable or being cleaned up" prefix found kept),
      guarded (any (λ (j : Job). awaits j.status) (select (holds_agent aid) db.jobs)) _ _ (
          guarded (any ends_agent (select (holds_agent aid) db.jobs)) _ _ (
            guarded
              (desires (sandbox_id aid username) "{\"state\": \"stopped\"}" db
                && not (
                    any (starts_sandbox (sandbox_id aid username))
                      (select (holds_agent aid) db.jobs)))
              _ _
              (loaded u "Load-test user is unavailable or being cleaned up" prefix found kept))),
    )
  where
    guarded :
        (b : Bool) (x : Error) (r : Result (Option LoadUser))
        → ((u : Option LoadUser) → r ≢ ok u)
        → (u : Option LoadUser) → (if b then err x else r) ≢ ok u
    guarded true x r h u = λ e. absurd (ground arith)
    guarded false x r h u = h u

    loaded :
        (u : LoadUser) (detail : String)
        → starts_with username "loadtest-" ≡ true
        → load_user aid username db ≡ some u
        → is_retained u.state ≡ false
        → (v : Option LoadUser)
        → (if starts_with username "loadtest-"
            then usable detail (load_user aid username db)
            else ok none)
          ≢ ok v
    loaded u detail prefix found kept v =
        rw prefix (rw found (rw kept (λ e. absurd (ground arith))))
