-- ===== src/Operations/LoadTests/Apart.antt =====
-- `create` of operations/src/load_test_store.py beside `submit` of operations/src/store.py.
use opencode_cloud.Prelude.{
  ℕ, String, Bool, true, false, ◌&&◌, ◌||◌, Option, List, [], ◌∷◌, ◌++◌, ◌≡◌, inl, inr, ◌==◌, refl,
  sym, subst, arith, eq_iff, eq_refl, any, All, All-map, All-append, any-false, any-append,
  Bool-cases,
}
use opencode_cloud.Operations.LoadTables.{active, LoadTest, LoadUser}
use opencode_cloud.Operations.Database.{ok, Payload, Job, scope_of, Database}
use opencode_cloud.Operations.Jobs.{submit}
use opencode_cloud.Operations.LoadTests.{
  working, holds_selected, user_rows, has_run, new_run, create,
}
use opencode_cloud.Operations.LoadTests.Requests.{LoadRequest, names_agent, CatalogAgent}
use opencode_cloud.Operations.LoadTests.Created.{runs, create-Begun}
use opencode_cloud.Operations.LoadTests.Submits.{tested, IsApart, any_weaker, submit-IsApart}
use opencode_cloud.Operations.LoadTests.Rows.{user_rows-other, user_rows-run}

false-any :
    (p : LoadUser → Bool) (us : List LoadUser) → All (λ u. p u ≡ false) us → any p us ≡ false
unfolding any
false-any p [] h = refl
false-any p (u ∷ us) h = ground (arith, h.0, false-any p us h.1)

any-append_false {ℓ} :
    {A : Type ℓ} (p : A → Bool) (xs ys : List A)
    → any p xs ≡ false
    → any p ys ≡ false
    → any p (xs ++ ys) ≡ false
unfolding any
any-append_false p [] ys a b = b
any-append_false p (x ∷ xs) ys a b = ground (arith, any-append_false p xs ys (ground arith) b)

module _ (digest : LoadRequest → String) where
  not_owner :
      (run : LoadTest) (rid : String) (tests : List LoadTest)
      → any (has_run run.id) tests ≡ false
      → any (has_run rid) tests ≡ true
      → (run.id == rid) ≡ false
  not_owner run rid tests new known = elim (Bool-cases (run.id == rid)) [
    | inr f ↦ f
    | inl t ↦
        let same : run.id ≡ rid = ground (arith, eq_iff run.id rid, t) in
        absurd (ground (arith, subst (λ i. any (has_run i) tests ≡ false) same new, known))
  ]

  idle_user :
      (run : LoadTest) (s : String) (tests : List LoadTest) (u : LoadUser)
      → any runs tests ≡ false
      → any (has_run run.id) tests ≡ false
      → any (has_run u.run_id) tests ≡ true
      → (u.agent_id == s
          && any (λ (r : LoadTest). r.id == u.run_id && active r.status) (tests ++ run ∷ []))
        ≡ false
  unfolding any
  idle_user run s tests u idle new known =
      let none_runs =
        any-append_false (λ (r : LoadTest). r.id == u.run_id && active r.status) tests (run ∷ [])
          (any_weaker _ runs tests (λ r h. inactive (r.id == u.run_id) (active r.status) h) idle)
          (other (run.id == u.run_id) (active run.status)
            (not_owner run u.run_id tests new known)) in
      inactive (u.agent_id == s) _ none_runs
    where
      inactive : (a b : Bool) → b ≡ false → (a && b) ≡ false
      inactive a b e = ground arith

      other : (a b : Bool) → a ≡ false → ((a && b) || false) ≡ false
      other a b e = ground arith

  unselected :
      (request : LoadRequest) (run : LoadTest) (hex : String) (db : Database) (j : Job)
      → any runs db.load_tests ≡ false
      → any (has_run run.id) db.load_tests ≡ false
      → All (λ (u : LoadUser). any (has_run u.run_id) db.load_tests ≡ true) db.load_test_users
      → holds_selected request.agents j ≡ false
      → (working j.status
          && tested
              (scope_of j)
              (db.load_tests ++ run ∷ [])
              (db.load_test_users ++ user_rows hex request.agents 0))
        ≡ false
  unselected request run hex db j idle new owned free = elim (Bool-cases (working j.status)) [
    | inr f ↦ rw f refl
    | inl t ↦
        let (one_agent, other) =
          parts (scope_of j == "*") (any (names_agent (scope_of j)) request.agents)
            (rw t at free) in
        rw t (
          rw one_agent (
            any-append_false _ db.load_test_users (user_rows hex request.agents 0)
              (false-any _ db.load_test_users (
                All-map (λ (u : LoadUser). any (has_run u.run_id) db.load_tests ≡ true) _
                  db.load_test_users
                  (λ u known. idle_user run (scope_of j) db.load_tests u idle new known) owned))
              (false-any _ (user_rows hex request.agents 0) (
                All-map (λ (u : LoadUser). (u.agent_id == scope_of j) ≡ false) _
                  (user_rows hex request.agents 0) (λ u e. rw e refl)
                  (user_rows-other hex (scope_of j) request.agents 0 other)))))
  ]
    where
      parts : (a b : Bool) → (a || b) ≡ false → (a ≡ false) × (b ≡ false)
      parts a b e = (ground arith, ground arith)

  known_run :
      (rid : String) (tests : List LoadTest) (run : LoadTest)
      → run.id ≡ rid
      → any (has_run rid) (tests ++ run ∷ []) ≡ true
  unfolding any
  known_run rid [] run e = ground (arith, eq_refl rid)
  known_run rid (r ∷ rest) run e = ground (arith, known_run rid rest run e)

  create-IsApart :
      (catalog : List (String × CatalogAgent)) (request : LoadRequest) (hex : String) (now : ℕ)
      (db : Database) {rid : String} {db' : Database}
      → create digest catalog request hex now db ≡ ok (rid, true, db')
      → IsApart db
      → IsApart db'
  create-IsApart catalog request hex now db {rid} {db'} h v =
      let b = create-Begun digest catalog request hex now db h in
      let run = new_run request (digest request) b.snapshots hex now in
      rw (b.written) (record {
        apart =
            All-map (λ j. holds_selected request.agents j ≡ false) _ db.jobs
              (λ j free. unselected request run hex db j b.idle b.new v.owned free)
              (any-false (holds_selected request.agents) db.jobs b.free);
        owned =
            All-append _ db.load_test_users (user_rows hex request.agents 0)
              (All-map (λ (u : LoadUser). any (has_run u.run_id) db.load_tests ≡ true) _
                db.load_test_users
                (λ u known. any-append (has_run u.run_id) db.load_tests (run ∷ []) known) v.owned)
              (user_rows-run _ hex request.agents 0
                (λ u e. known_run u.run_id db.load_tests run (sym e)));
      })

  -- The admissions that write: of a load test, and of a job once the tables of load tests are there.
  pub data Admits (db db' : Database) : Type 0 where
    test :
        (catalog : List (String × CatalogAgent)) (request : LoadRequest) (hex : String) (now : ℕ)
        {rid : String}
        → create digest catalog request hex now db ≡ ok (rid, true, db')
        → Admits db db'
    job :
        (kind target : String) (payload : Payload) (scope : Option String)
        (fresh_request id : String) (now : ℕ) {j : Job}
        → db.has_load_tests ≡ true
        → submit kind target payload scope fresh_request id now db ≡ ok (j, true, db')
        → Admits db db'

  -- Neither the admission of a load test nor that of a job lets a job that works, or awaits recovery,
  -- have the scope of a load test that is not over: the agent of one of its users, or all agents.
  pub Admits-IsApart : {db db' : Database} → IsApart db → Admits db db' → IsApart db'
  Admits-IsApart {db} v (test catalog request hex now h) =
      create-IsApart catalog request hex now db h v
  Admits-IsApart {db} v (job kind target payload scope fresh_request id now has h) =
      submit-IsApart kind target payload scope fresh_request id now db has h v
