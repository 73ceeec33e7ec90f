-- ===== src/Registry/Validity/Deletions.antt =====
-- The deletions of sandbox_manager/main.py and the validity of the registry.
use opencode_cloud.Prelude.{
  String, Bool, true, false, not, List, [], ◌∷◌, ◌≡◌, ◌==◌, arith, eq_iff, select, any, All,
  All-map, All-select, Distinct, Bool-cases, inl, inr, any-false, All-both, refl,
}
use opencode_cloud.Registry.Tables.{AgentRow, SandboxRecord, SessionRoute, Registry}
use opencode_cloud.Registry.Sandboxes.{has_id}
use opencode_cloud.Registry.Deletions.{
  of_agent, drop_sessions, refers_to, drop_sandboxes, drop_agent, delete_agent, delete_sandbox,
}
use opencode_cloud.Registry.Validity.{same_id, same_owner, same_session, owns, is_agent, IsValid}

All-kept {ℓ κ} :
    {A : Type ℓ} (P : A → Type κ) (p : A → Bool) (xs : List A) → All P xs → All P (select p xs)
All-kept P p xs h = All-map _ P (select p xs) (λ x k. k.0) (All-select P p xs h)

Distinct-select {ℓ} :
    {A : Type ℓ} (same : A → A → Bool) (p : A → Bool) (xs : List A)
    → Distinct same xs
    → Distinct same (select p xs)
unfolding select
Distinct-select same p [] h = tt
Distinct-select same p (x ∷ xs) h = elim (Bool-cases (p x)) [
  | inl t ↦ rw t (All-kept (λ y. same x y ≡ false) p xs h.0, Distinct-select same p xs h.1)
  | inr f ↦ rw f (Distinct-select same p xs h.1)
]

-- A row that has one property and is not dropped is left.
any-select {ℓ} :
    {A : Type ℓ} (q p : A → Bool) (xs : List A)
    → All (λ x. q x ≡ true → p x ≡ false) xs
    → any q xs ≡ true
    → any q (select (λ x. not (p x)) xs) ≡ true
unfolding any select
any-select q p [] apart h = h
any-select q p (x ∷ xs) apart h = elim (Bool-cases (p x)) [
  | inl t ↦ elim (Bool-cases (q x)) [
    | inl here ↦ absurd (ground (arith, apart.0 here, t))
    | inr there ↦ rw t (any-select q p xs apart.1 (rw there at h))
  ]
  | inr f ↦ elim (Bool-cases (q x)) [
    | inl here ↦ rw f (rw here refl)
    | inr there ↦ rw f (rw there (any-select q p xs apart.1 (rw there at h)))
  ]
]

drop_sessions-IsValid :
    (q : SessionRoute → Bool) (db : Registry) → IsValid db → IsValid (drop_sessions q db)
drop_sessions-IsValid q db v = record {
  ids = v.ids;
  owners = v.owners;
  known = v.known;
  ports = v.ports;
  session_ids = Distinct-select same_session _ db.sessions v.session_ids;
  bound = All-kept _ _ db.sessions v.bound;
}

refers_to-owns :
    (p : SandboxRecord → Bool) (r : SessionRoute) (s : SandboxRecord)
    → refers_to p r s ≡ false
    → owns r s ≡ true
    → p s ≡ false
refers_to-owns p r s h k = ground arith

drop_sandboxes-IsValid :
    (p : SandboxRecord → Bool) (db : Registry) → IsValid db → IsValid (drop_sandboxes p db)
drop_sandboxes-IsValid p db v = record {
  ids = Distinct-select same_id _ db.sandboxes v.ids;
  owners = Distinct-select same_owner _ db.sandboxes v.owners;
  known = All-kept _ _ db.sandboxes v.known;
  ports = All-kept _ _ db.sandboxes v.ports;
  session_ids = Distinct-select same_session _ db.sessions v.session_ids;
  bound =
      All-map _ (λ r. any (owns r) (select (λ s. not (p s)) db.sandboxes) ≡ true) _
        (λ r h. kept r h.0 (ground (arith, h.1)))
        (All-select (λ r. any (owns r) db.sandboxes ≡ true)
          (λ r. not (any (refers_to p r) db.sandboxes)) db.sessions v.bound);
}
  where
    kept :
        (r : SessionRoute)
        → any (owns r) db.sandboxes ≡ true
        → any (refers_to p r) db.sandboxes ≡ false
        → any (owns r) (select (λ s. not (p s)) db.sandboxes) ≡ true
    kept r h none_gone =
        any-select (owns r) p db.sandboxes
          (All-map _ (λ s. owns r s ≡ true → p s ≡ false) db.sandboxes
            (λ s k. refers_to-owns p r s k) (any-false (refers_to p r) db.sandboxes none_gone))
          h

pub All-each {ℓ κ} : {A : Type ℓ} (P : A → Type κ) (xs : List A) → ((x : A) → P x) → All P xs
All-each P [] h = tt
All-each P (x ∷ xs) h = (h x, All-each P xs h)

drop_agent-IsValid :
    (aid : String) (db : Registry)
    → All (λ s. of_agent aid s ≡ false) db.sandboxes
    → IsValid db
    → IsValid (drop_agent aid db)
drop_agent-IsValid aid db none_left v = record {
  ids = v.ids;
  owners = v.owners;
  known =
      All-map _
        (λ s. any (is_agent s.agent_id) (select (λ a. not (is_agent aid a)) db.agents) ≡ true)
        db.sandboxes (λ s h. kept s h.0 h.1)
        (All-both (λ s. of_agent aid s ≡ false) _ db.sandboxes none_left v.known);
  ports = v.ports;
  session_ids = v.session_ids;
  bound = v.bound;
}
  where
    kept :
        (s : SandboxRecord)
        → of_agent aid s ≡ false
        → any (is_agent s.agent_id) db.agents ≡ true
        → any (is_agent s.agent_id) (select (λ a. not (is_agent aid a)) db.agents) ≡ true
    kept s other h =
        any-select (is_agent s.agent_id) (is_agent aid) db.agents
          (All-each (λ a. is_agent s.agent_id a ≡ true → is_agent aid a ≡ false) db.agents
            (λ a k. apart a k))
          h
      where
        apart : (a : AgentRow) → is_agent s.agent_id a ≡ true → is_agent aid a ≡ false
        apart a k = let same = (eq_iff a.agent_id s.agent_id).0 k in rw same other

pub delete_agent-IsValid :
    (aid : String) (db : Registry) → IsValid db → IsValid (delete_agent aid db)
unfolding delete_agent
delete_agent-IsValid aid db v =
    drop_agent-IsValid aid _
      (All-map _ (λ s. of_agent aid s ≡ false) _ (λ s h. ground (arith, h.1))
        (All-select (λ s. Unit {0}) (λ s. not (of_agent aid s)) db.sandboxes
          (All-each _ db.sandboxes (λ s. tt))))
      (drop_sandboxes-IsValid (of_agent aid) _
        (drop_sessions-IsValid (λ (r : SessionRoute). r.agent_id == aid) db v))

pub delete_sandbox-IsValid :
    (sid : String) (db : Registry) → IsValid db → IsValid (delete_sandbox sid db)
unfolding delete_sandbox
delete_sandbox-IsValid sid db v =
    drop_sandboxes-IsValid (has_id sid) _
      (drop_sessions-IsValid (λ (r : SessionRoute). r.sandbox_id == sid) db v)
