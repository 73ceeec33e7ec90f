-- ===== src/Operations/LoadTests/Users.antt =====
-- The users of a run that operations/src/load_test_store.py interrupts at the start of the service.
use opencode_cloud.Prelude.{
  ℕ, String, Bool, true, ◌||◌, some, List, [], ◌∷◌, ◌≡◌, inl, inr, ◌==◌, refl, ap, ◌∙◌, arith,
  eq_iff, eq_refl, find, select, update_where, any, All, All-map, All-update_where, find_sound,
  Bool-cases,
}
use opencode_cloud.Operations.LoadTables.{unfinished, LoadUser}
use opencode_cloud.Operations.Database.{ok, Database}
use opencode_cloud.Operations.LoadTests.{has_name}
use opencode_cloud.Operations.LoadTests.Updates.{changed_user, update_user}
use opencode_cloud.Operations.LoadTests.Restart.{summarizes, interrupt_user, interrupt_users}

pub any_found {ℓ} :
    {A : Type ℓ} (p : A → Bool) (xs : List A) → any p xs ≡ true → (x : A) × (find p xs ≡ some x)
unfolding any find
any_found p [] e = absurd (ground arith)
any_found p (x ∷ xs) e = elim (Bool-cases (p x)) [
  | inl t ↦ (x, rw t refl)
  | inr f ↦ let (y, found) = any_found p xs (ground arith) in (y, rw f found)
]

pub any-replaced {ℓ} :
    {A : Type ℓ} (p q : A → Bool) (z : A) (xs : List A)
    → ((x : A) → p x ≡ true → q z ≡ q x)
    → any q (update_where p (λ _. z) xs) ≡ any q xs
unfolding any update_where
any-replaced p q z [] same = refl
any-replaced p q z (x ∷ xs) same = elim (Bool-cases (p x)) [
  | inl t ↦ rw t (rw (same x t) (rw (any-replaced p q z xs same) refl))
  | inr f ↦ rw f (rw (any-replaced p q z xs same) refl)
]

-- `summarize` reads the user without an error.
abbrev pub Summarized : LoadUser → Type 0
Summarized u = summarizes u ≡ true

pub interrupt_users_returns :
    (now : ℕ) (users : List LoadUser) (db : Database)
    → All (λ u. any (has_name u.username) db.load_test_users ≡ true) users
    → All Summarized db.load_test_users
    → (db' : Database) × (interrupt_users now users db ≡ ok db')
      × All Summarized db'.load_test_users
      × (db'.load_tests ≡ db.load_tests)
      × (db'.jobs ≡ db.jobs)
unfolding interrupt_users update_user
interrupt_users_returns now [] db h m = (db, refl, m, refl, refl)
interrupt_users_returns now (u ∷ users) db h m = elim (Bool-cases (unfinished u.phase)) [
  | inr f ↦
      let (db', e, kept, same, jobs) = interrupt_users_returns now users db h.1 m in
      (db', rw f e, kept, same, jobs)
  | inl t ↦
      let (old, found) = any_found (has_name u.username) db.load_test_users h.0 in
      let z = changed_user (interrupt_user now) old in
      let db1 : Database = record db {
        load_test_users = update_where (has_name u.username) (λ _. z) db.load_test_users;
      } in
      let kept =
        All-map (λ (v : LoadUser). any (has_name v.username) db.load_test_users ≡ true)
          (λ (v : LoadUser). any (has_name v.username) db1.load_test_users ≡ true) users
          (λ v known.
            any-replaced (has_name u.username) (has_name v.username) z db.load_test_users (λ x m.
              same_name old x u.username v.username (find_sound _ db.load_test_users old found) m)
            ∙ known)
          h.1 in
      let (db', e, after, same, jobs) = interrupt_users_returns now users db1 kept (
        All-update_where Summarized (has_name u.username) (λ _. z) db.load_test_users (λ _ _. refl)
          m) in
      (db', rw t (rw (found, update_user) e), after, same, jobs)
]
  where
    same_name :
        (a b : LoadUser) (n m : String)
        → has_name n a ≡ true
        → has_name n b ≡ true
        → has_name m a ≡ has_name m b
    same_name a b n m p q =
        let same : a.username ≡ b.username =
          ground (arith, eq_iff a.username n, eq_iff b.username n) in
        ap (λ s. s == m) same

pub any_self : (users : List LoadUser) → All (λ u. any (has_name u.username) users ≡ true) users
unfolding any
any_self [] = tt
any_self (u ∷ users) = (
  ground (arith, eq_refl u.username),
  All-map (λ (v : LoadUser). any (has_name v.username) users ≡ true) _ users
      (λ v e. more u v users e) (any_self users),
)
  where
    more :
        (u v : LoadUser) (users : List LoadUser)
        → any (has_name v.username) users ≡ true
        → (has_name v.username u || any (has_name v.username) users) ≡ true
    more u v users e = ground arith

pub All-select :
    (P : LoadUser → Type 0) (p : LoadUser → Bool) (users : List LoadUser)
    → All P users
    → All P (select p users)
unfolding select
All-select P p [] h = tt
All-select P p (u ∷ users) h = elim (Bool-cases (p u)) [
  | inl t ↦ rw t (h.0, All-select P p users h.1)
  | inr f ↦ rw f (All-select P p users h.1)
]
