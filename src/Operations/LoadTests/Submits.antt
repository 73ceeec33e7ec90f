-- ===== src/Operations/LoadTests/Submits.antt =====
-- `submit` of operations/src/store.py beside the load tests.
use opencode_cloud.Prelude.{
  ℕ, String, Bool, true, false, ◌&&◌, ◌||◌, Option, List, [], ◌∷◌, ◌≡◌, inl, inr, ◌==◌, refl, arith,
  or_else, if◌then◌else◌, any, All, All-append, Bool-cases,
}
use opencode_cloud.Operations.LoadTables.{active, is_cleaning, LoadTest, LoadUser}
use opencode_cloud.Operations.Database.{ok, Payload, Job, scope_of, Database}
use opencode_cloud.Operations.Jobs.{load_pins, submit}
use opencode_cloud.Operations.Jobs.Requests.{submit-Created}
use opencode_cloud.Operations.LoadTests.{working, has_run}
use opencode_cloud.Operations.LoadTests.Created.{runs}

-- A run that is not over has the scope: a user of its agent, or any run for all agents.
abbrev pub tested : String → List LoadTest → List LoadUser → Bool
tested scope tests users =
    if scope == "*"
    then any runs tests
    else any
        (λ (u : LoadUser).
          u.agent_id == scope && any (λ (r : LoadTest). r.id == u.run_id && active r.status) tests)
        users

-- No job that works, or awaits recovery, has a scope that a run has; and each user belongs to a run.
pub record IsApart (db : Database) : Type 0 where
  pub apart :
      All
        (λ (j : Job).
          (working j.status && tested (scope_of j) db.load_tests db.load_test_users) ≡ false)
        db.jobs
  pub owned : All (λ (u : LoadUser). any (has_run u.run_id) db.load_tests ≡ true) db.load_test_users

pub any_weaker {ℓ} :
    {A : Type ℓ} (p q : A → Bool) (xs : List A)
    → ((x : A) → q x ≡ false → p x ≡ false)
    → any q xs ≡ false
    → any p xs ≡ false
unfolding any
any_weaker p q [] h e = refl
any_weaker p q (x ∷ xs) h e = ground (arith, h x, any_weaker p q xs h)

-- The query of `submit` finds every run that is not over.
tested-load_pins :
    (scope : String) (db : Database)
    → load_pins scope db ≡ false
    → tested scope db.load_tests db.load_test_users ≡ false
unfolding load_pins
tested-load_pins scope db e = elim (Bool-cases (scope == "*")) [
  | inl t ↦ rw t (rw t at e)
  | inr f ↦ rw f (any_weaker _ _ db.load_test_users (λ u h. weaker_user u h) (rw f at e))
]
  where
    both : (a b c : Bool) → (a && (b || c)) ≡ false → (a && b) ≡ false
    both a b c e = ground arith

    outer : (a b c : Bool) → (c ≡ false → b ≡ false) → (a && c) ≡ false → (a && b) ≡ false
    outer a b c h e = ground (arith, h)

    weaker_user :
        (u : LoadUser)
        → (u.agent_id == scope
            && any
                (λ (r : LoadTest). r.id == u.run_id && (active r.status || is_cleaning u.state))
                db.load_tests)
          ≡ false
        → (u.agent_id == scope
            && any (λ (r : LoadTest). r.id == u.run_id && active r.status) db.load_tests)
          ≡ false
    weaker_user u h =
        outer (u.agent_id == scope) _ _
          (any_weaker _ _ db.load_tests
            (λ r h. both (r.id == u.run_id) (active r.status) (is_cleaning u.state) h))
          h

pub submit-IsApart :
    (kind target : String) (payload : Payload) (scope : Option String) (fresh_request id : String)
    (now : ℕ) (db : Database) {j : Job} {db' : Database}
    → (db.has_load_tests ≡ true)
    → submit kind target payload scope fresh_request id now db ≡ ok (j, true, db')
    → IsApart db
    → IsApart db'
unfolding load_pins
submit-IsApart kind target payload scope fresh_request id now db {j} {db'} has h v =
    let c = submit-Created kind target payload scope fresh_request id now db h in
    let unpinned : load_pins (or_else scope target) db ≡ false = rw has at c.unpinned in
    let new : (working j.status && tested (scope_of j) db.load_tests db.load_test_users) ≡ false =
      rw (c.job) (tested-load_pins (or_else scope target) db unpinned) in
    rw (c.written)
      (record { apart = All-append _ db.jobs (j ∷ []) v.apart (new, tt); owned = v.owned })
