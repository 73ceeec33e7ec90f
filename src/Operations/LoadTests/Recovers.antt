-- ===== src/Operations/LoadTests/Recovers.antt =====
-- The loop of `recover` of operations/src/load_test_store.py.
use opencode_cloud.Prelude.{
  ℕ, String, Bool, true, false, not, ◌&&◌, ◌||◌, some, List, [], ◌∷◌, ◌≡◌, inl, inr, ◌==◌, refl, ap,
  sym, ◌∙◌, subst, arith, eq_iff, eq_refl, if◌then◌else◌, find, select, any, any-none, map, All,
  All-map, find_sound, Distinct, Bool-cases,
}
use opencode_cloud.Operations.LoadTables.{active, cleanup_runs, LoadTest, LoadUser}
use opencode_cloud.Operations.Database.{ok, Database}
use opencode_cloud.Operations.LoadTests.{has_run, has_name}
use opencode_cloud.Operations.LoadTests.Updates.{changed_run, update_run}
use opencode_cloud.Operations.LoadTests.Restart.{
  summarizes, interrupt_run, fail_cleanup, recover_run, recover_runs, recover,
}
use opencode_cloud.Operations.LoadTests.Settled.{
  same_run, quiet, named, Pending, Single, replaced, Single-Distinct, Working, Working-replaced,
  Working-done,
}
use opencode_cloud.Operations.LoadTests.Users.{
  Summarized, any_found, any-replaced, interrupt_users_returns, any_self, All-select,
}

-- The state between two runs of the loop, with the ids that are left.
record Going (ids : List String) (db : Database) : Type 0 where
  single : Single db.load_tests
  pending : All (Pending ids) db.load_tests
  known : All (λ i. any (has_run i) db.load_tests ≡ true) ids
  summarized : All Summarized db.load_test_users

kept_runs :
    (rid : String) (r z : LoadTest) (ids : List String) (tests : List LoadTest)
    → find (has_run rid) tests ≡ some r
    → z.id ≡ r.id
    → All (λ i. any (has_run i) tests ≡ true) ids
    → All (λ i. any (has_run i) (replaced rid z tests) ≡ true) ids
kept_runs rid r z ids tests found same known =
    All-map (λ i. any (has_run i) tests ≡ true) _ ids
      (λ i e.
        any-replaced (has_run rid) (has_run i) z tests
          (λ x m. same_run_id i x (find_sound (has_run rid) tests r found) m)
        ∙ e)
      known
  where
    same_run_id :
        (i : String) (x : LoadTest)
        → has_run rid r ≡ true
        → has_run rid x ≡ true
        → has_run i z ≡ has_run i x
    same_run_id i x p q =
        let here : z.id ≡ x.id = same ∙ ground (arith, eq_iff r.id rid, eq_iff x.id rid) in
        ap (λ s. s == i) here

-- The end of one run: the cleanup that was under way.
cleaned_up :
    (rid : String) (r : LoadTest) (ids : List String) (db : Database)
    → Working rid r ids db.load_tests
    → active r.status ≡ false
    → All (λ i. any (has_run i) db.load_tests ≡ true) ids
    → All Summarized db.load_test_users
    → (db' : Database) × ((if cleanup_runs r.cleanup_status
          then update_run rid fail_cleanup db
          else ok db)
        ≡ ok db')
      × Going ids db'
      × (db'.jobs ≡ db.jobs)
unfolding update_run
cleaned_up rid r ids db w over known m = elim (Bool-cases (cleanup_runs r.cleanup_status)) [
  | inr f ↦ (
    db,
    rw f refl,
    record {
      single = w.single;
      pending = Working-done rid r ids db.load_tests (calm _ _ over f) w;
      known = known;
      summarized = m;
    },
    refl,
  )
  | inl t ↦
      let z = changed_run fail_cleanup r in
      let w' = Working-replaced rid r z ids db.load_tests refl w in
      (
        record db { load_tests = replaced rid z db.load_tests },
        rw t (rw (w.found, update_run) refl),
        record {
          single = w'.single;
          pending = Working-done rid z ids (replaced rid z db.load_tests) (calm _ _ over refl) w';
          known = kept_runs rid r z ids db.load_tests w.found refl known;
          summarized = m;
        },
        refl,
      )
]
  where
    calm : (a c : Bool) → a ≡ false → c ≡ false → (not a && not c) ≡ true
    calm a c p q = ground arith

summarizes_all :
    (rid : String) (users : List LoadUser)
    → All Summarized users
    → any (λ u. not (summarizes u)) (select (λ (u : LoadUser). u.run_id == rid) users) ≡ false
summarizes_all rid users m =
    any-none (λ u. not (summarizes u)) (select (λ (u : LoadUser). u.run_id == rid) users)
      (All-map Summarized (λ u. not (summarizes u) ≡ false) _ (λ u h. ground (arith, h))
        (All-select Summarized (λ u. u.run_id == rid) users m))

recover_run_returns :
    (now : ℕ) (rid : String) (ids : List String) (db : Database)
    → Going (rid ∷ ids) db
    → (db' : Database) × (recover_run now rid db ≡ ok db') × Going ids db' × (db'.jobs ≡ db.jobs)
unfolding recover_run update_run
recover_run_returns now rid ids db g =
    let (r, found) = any_found (has_run rid) db.load_tests g.known.0 in
    let w : Working rid r ids db.load_tests = record {
      single = g.single;
      found = found;
      pending = g.pending;
    } in
    let reads = summarizes_all rid db.load_test_users g.summarized in
    elim (Bool-cases (active r.status)) [
      | inr f ↦
          let (db', e, going, jobs) = cleaned_up rid r ids db w f g.known.1 g.summarized in
          (db', rw (found, recover_run) (rw reads (rw f e)), going, jobs)
      | inl t ↦
          let z = changed_run (interrupt_run now) r in
          let users = select (λ (u : LoadUser). u.run_id == rid) db.load_test_users in
          let db1 : Database = record db { load_tests = replaced rid z db.load_tests } in
          let w1 = Working-replaced rid r z ids db.load_tests refl w in
          let (db2, e2, m2, tests2, jobs2) =
            interrupt_users_returns now users db1
              (All-select (λ u. any (has_name u.username) db.load_test_users ≡ true)
                (λ u. u.run_id == rid) db.load_test_users (any_self db.load_test_users))
              g.summarized in
          let (db', e, going, jobs) =
            cleaned_up rid z ids db2 (subst (Working rid z ids) (sym tests2) w1) refl
              (subst (λ tests. All (λ i. any (has_run i) tests ≡ true) ids) (sym tests2)
                (kept_runs rid r z ids db.load_tests found refl g.known.1))
              m2 in
          (
            db',
            rw (found, recover_run) (rw reads (rw t (rw (found, update_run) (rw e2 e)))),
            going,
            jobs ∙ jobs2,
          )
    ]

recover_runs_returns :
    (now : ℕ) (ids : List String) (db : Database)
    → Going ids db
    → (db' : Database) × (recover_runs now ids db ≡ ok db') × Going [] db' × (db'.jobs ≡ db.jobs)
unfolding recover_runs
recover_runs_returns now [] db g = (db, refl, g, refl)
recover_runs_returns now (rid ∷ ids) db g =
    let (db1, e1, g1, jobs1) = recover_run_returns now rid ids db g in
    let (db', e, g', jobs) = recover_runs_returns now ids db1 g1 in (db', rw e1 e, g', jobs ∙ jobs1)

ids_known :
    (tests : List LoadTest)
    → All (λ i. any (has_run i) tests ≡ true) (map (λ (r : LoadTest). r.id) tests)
unfolding any
ids_known [] = tt
ids_known (x ∷ rest) = (
  first (x.id == x.id) _ (eq_refl x.id),
  All-map (λ i. any (has_run i) rest ≡ true) _ (map (λ (r : LoadTest). r.id) rest)
      (λ i e. more (has_run i x) _ e) (ids_known rest),
)
  where
    first : (a b : Bool) → a ≡ true → (a || b) ≡ true
    first a b e = ground arith

    more : (a b : Bool) → b ≡ true → (a || b) ≡ true
    more a b e = ground arith

all_pending : (tests : List LoadTest) → All (Pending (map (λ (r : LoadTest). r.id) tests)) tests
unfolding any
all_pending [] = tt
all_pending (x ∷ rest) = (
  first (quiet x) (x.id == x.id) _ (eq_refl x.id),
  All-map (Pending (map (λ (r : LoadTest). r.id) rest)) _ rest
      (λ y e. more (quiet y) (named y x.id) (any (named y) (map (λ (r : LoadTest). r.id) rest)) e)
      (all_pending rest),
)
  where
    first : (a b c : Bool) → b ≡ true → (a || (b || c)) ≡ true
    first a b c e = ground arith

    more : (a b c : Bool) → (a || c) ≡ true → (a || (b || c)) ≡ true
    more a b c e = ground arith

-- The start of the service comes through `recover` if the ids of the runs are distinct and every user
-- who has succeeded has a latency: then every run is over and no cleanup is under way, and the jobs are
-- as they were.
pub recover-returns :
    (now : ℕ) (db : Database)
    → Distinct same_run db.load_tests
    → All Summarized db.load_test_users
    → (db' : Database) × (recover now db ≡ ok db')
      × All
          (λ r. (active r.status ≡ false) × (cleanup_runs r.cleanup_status ≡ false))
          db'.load_tests
      × (db'.jobs ≡ db.jobs)
unfolding recover any
recover-returns now db d m =
    let (db', e, g, jobs) =
      recover_runs_returns now (map (λ (r : LoadTest). r.id) db.load_tests) db (record {
        single = Single-Distinct db.load_tests d;
        pending = all_pending db.load_tests;
        known = ids_known db.load_tests;
        summarized = m;
      }) in
    (db', e, All-map (Pending []) _ db'.load_tests (λ r p. over _ _ p) g.pending, jobs)
  where
    over : (a c : Bool) → ((not a && not c) || false) ≡ true → (a ≡ false) × (c ≡ false)
    over a c p = (ground arith, ground arith)
