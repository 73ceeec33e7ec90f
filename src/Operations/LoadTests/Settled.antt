-- ===== src/Operations/LoadTests/Settled.antt =====
-- The runs during `recover` of operations/src/load_test_store.py.
use opencode_cloud.Prelude.{
  String, Bool, true, false, not, ◌&&◌, ◌||◌, some, List, [], ◌∷◌, ◌≡◌, inl, inr, ◌==◌, refl, sym,
  ◌∙◌, subst, arith, eq_iff, find, update_where, any, All, All-map, find_sound, find-replace_self,
  find-replace_ne, All-find, Distinct, Bool-cases,
}
use opencode_cloud.Operations.LoadTables.{active, cleanup_runs, LoadTest}
use opencode_cloud.Operations.LoadTests.{has_run}

abbrev pub same_run : LoadTest → LoadTest → Bool
same_run a b = a.id == b.id

-- The run is over, and no cleanup of it is under way.
abbrev pub quiet : LoadTest → Bool
quiet r = not (active r.status) && not (cleanup_runs r.cleanup_status)

abbrev pub named : LoadTest → String → Bool
named x i = i == x.id

abbrev pub Pending : List String → LoadTest → Type 0
Pending ids x = (quiet x || any (named x) ids) ≡ true

-- A search by an id finds the only row with that id.
abbrev pub Single : List LoadTest → Type 0
Single tests =
    (rid : String) (z : LoadTest)
    → find (has_run rid) tests ≡ some z
    → All (λ x. has_run rid x ≡ true → x ≡ z) tests

pub Single-Distinct : (tests : List LoadTest) → Distinct same_run tests → Single tests
unfolding find
Single-Distinct [] d rid z e = tt
Single-Distinct (x ∷ rest) d rid z e = elim (Bool-cases (has_run rid x)) [
  | inr f ↦ (λ t. absurd (ground arith), Single-Distinct rest d.1 rid z (ground arith))
  | inl t ↦
      let here : x ≡ z = ground arith in
      (
        λ _. here,
        All-map (λ y. same_run x y ≡ false) (λ y. has_run rid y ≡ true → y ≡ z) rest
            (λ y apart same.
              absurd (ground (arith, eq_iff x.id rid, eq_iff y.id rid, eq_iff x.id y.id)))
            d.0,
      )
]

abbrev pub replaced : String → LoadTest → List LoadTest → List LoadTest
replaced rid z tests = update_where (has_run rid) (λ _. z) tests

All-replaced :
    (P : LoadTest → Type 0) (rid : String) (z : LoadTest) (tests : List LoadTest)
    → P z
    → All (λ x. has_run rid x ≡ false → P x) tests
    → All P (replaced rid z tests)
unfolding update_where
All-replaced P rid z [] p h = tt
All-replaced P rid z (x ∷ rest) p h = elim (Bool-cases (has_run rid x)) [
  | inl t ↦ rw t (p, All-replaced P rid z rest p h.1)
  | inr f ↦ rw f (h.0 f, All-replaced P rid z rest p h.1)
]

Single-replaced :
    (rid : String) (z : LoadTest) (tests : List LoadTest)
    → (z.id == rid) ≡ true
    → Single tests
    → Single (replaced rid z tests)
Single-replaced rid z tests own single q y e = elim (Bool-cases (rid == q)) [
  | inl t ↦
      let same : q ≡ rid = ground (arith, eq_iff rid q) in
      let all_z : All (λ x. has_run rid x ≡ true → x ≡ z) (replaced rid z tests) =
        All-replaced (λ x. has_run rid x ≡ true → x ≡ z) rid z tests (λ _. refl) (any_row tests) in
      let found : find (has_run rid) (replaced rid z tests) ≡ some y =
        subst (λ i. find (has_run i) (replaced rid z tests) ≡ some y) same e in
      let at_y : y ≡ z =
        All-find (λ x. has_run rid x ≡ true → x ≡ z) (has_run rid) (replaced rid z tests) y all_z
          found (find_sound (has_run rid) (replaced rid z tests) y found) in
      All-map (λ x. has_run rid x ≡ true → x ≡ z) (λ x. has_run q x ≡ true → x ≡ y)
        (replaced rid z tests) (λ x h t. h (subst (λ i. has_run i x ≡ true) same t) ∙ sym at_y)
        all_z
  | inr f ↦
      let other : (z.id == q) ≡ false =
        ground (arith, own, eq_iff z.id rid, eq_iff z.id q, eq_iff rid q) in
      let found : find (has_run q) tests ≡ some y =
        sym (
          find-replace_ne (has_run rid) (has_run q) z tests
            (λ x t. ground (arith, eq_iff x.id rid, eq_iff x.id q, eq_iff rid q)) other)
        ∙ e in
      All-replaced (λ x. has_run q x ≡ true → x ≡ y) rid z tests (λ t. absurd (ground arith))
        (All-map (λ x. has_run q x ≡ true → x ≡ y) _ tests (λ x h _. h) (single q y found))
]
  where
    any_row :
        (xs : List LoadTest) → All (λ x. has_run rid x ≡ false → has_run rid x ≡ true → x ≡ z) xs
    any_row [] = tt
    any_row (x ∷ xs) = ((λ f t. absurd (ground arith)), any_row xs)

-- The tests while the run `rid`, which is now `r`, is worked on.
pub record Working (rid : String) (r : LoadTest) (ids : List String) (tests : List LoadTest)
    : Type 0 where
  pub single : Single tests
  pub found : find (has_run rid) tests ≡ some r
  pub pending : All (Pending (rid ∷ ids)) tests

pub Working-replaced :
    (rid : String) (r z : LoadTest) (ids : List String) (tests : List LoadTest)
    → z.id ≡ r.id
    → Working rid r ids tests
    → Working rid z ids (replaced rid z tests)
unfolding any
Working-replaced rid r z ids tests same w =
    let mine : (z.id == rid) ≡ true = rw same (find_sound (has_run rid) tests r w.found) in
    record {
      single = Single-replaced rid z tests mine w.single;
      found = find-replace_self (has_run rid) z r tests w.found mine;
      pending =
          All-replaced (Pending (rid ∷ ids)) rid z tests
            (ground (arith, eq_iff z.id rid, eq_iff rid z.id))
            (All-map (Pending (rid ∷ ids)) _ tests (λ x h _. h) w.pending);
    }

pub Working-done :
    (rid : String) (r : LoadTest) (ids : List String) (tests : List LoadTest)
    → quiet r ≡ true
    → Working rid r ids tests
    → All (Pending ids) tests
unfolding any
Working-done rid r ids tests calm w = all_done tests (w.single rid r w.found) w.pending
  where
    settled : (x : LoadTest) → quiet x ≡ true → Pending ids x
    settled x e = rw e refl

    later : (a b c : Bool) → b ≡ false → (a || (b || c)) ≡ true → (a || c) ≡ true
    later a b c e h = ground arith

    one : (x : LoadTest) → (has_run rid x ≡ true → x ≡ r) → Pending (rid ∷ ids) x → Pending ids x
    one x h p = elim (Bool-cases (has_run rid x)) [
      | inl t ↦ settled x (subst (λ y. quiet y ≡ true) (sym (h t)) calm)
      | inr f ↦
          later (quiet x) (rid == x.id) (any (named x) ids)
            (ground (arith, eq_iff x.id rid, eq_iff rid x.id)) p
    ]

    all_done :
        (xs : List LoadTest)
        → All (λ x. has_run rid x ≡ true → x ≡ r) xs
        → All (Pending (rid ∷ ids)) xs
        → All (Pending ids) xs
    all_done [] h p = tt
    all_done (x ∷ xs) h p = (one x h.0 p.0, all_done xs h.1 p.1)
