-- ===== src/Registry/Spared.antt =====
-- The session routes that the deletions of sandbox_manager/main.py leave.
use opencode_cloud.Prelude.{
  String, Bool, true, false, not, List, [], ◌∷◌, ◌≡◌, ◌==◌, arith, eq_iff, select, any, find, some,
  All, All-map, All-find, Distinct, Bool-cases, inl, inr, any-none, refl,
}
use opencode_cloud.Registry.Tables.{SandboxRecord, SessionRoute, Registry}
use opencode_cloud.Registry.Sandboxes.{has_id}
use opencode_cloud.Registry.Sessions.{names, get_session_route}
use opencode_cloud.Registry.Deletions.{of_agent, refers_to, delete_agent, delete_sandbox}
use opencode_cloud.Registry.Validity.{same_id, owns, IsValid}
use opencode_cloud.Registry.Validity.Deletions.{All-each}

find-select {ℓ} :
    {A : Type ℓ} (p q : A → Bool) (xs : List A) (x : A)
    → find p xs ≡ some x
    → q x ≡ true
    → find p (select q xs) ≡ some x
unfolding find select
find-select p q [] x e h = absurd (ground arith)
find-select p q (y ∷ ys) x e h = elim (Bool-cases (p y)) [
  | inl t ↦ let same : y ≡ x = ground arith in rw same (rw h (rw (rw same at t) refl))
  | inr f ↦ elim (Bool-cases (q y)) [
    | inl k ↦ rw k (rw f (find-select p q ys x (ground arith) h))
    | inr k ↦ rw k (find-select p q ys x (ground arith) h)
  ]
]

-- A sandbox that is not the owner's has another id.
other_id :
    (x : SandboxRecord) (r : SessionRoute) (xs : List SandboxRecord)
    → All (λ y. same_id x y ≡ false) xs
    → any (owns r) xs ≡ true
    → (x.sandbox_id == r.sandbox_id) ≡ false
unfolding any
other_id x r [] h e = absurd (ground arith)
other_id x r (y ∷ ys) h e = elim (Bool-cases (owns r y)) [
  | inl t ↦ let same = (eq_iff y.sandbox_id r.sandbox_id).0 (ground arith) in rw (← same) h.0
  | inr f ↦ other_id x r ys h.1 (ground arith)
]

-- No sandbox of another agent is that of the session.
foreign :
    (aid : String) (r : SessionRoute) (xs : List SandboxRecord)
    → Distinct same_id xs
    → any (owns r) xs ≡ true
    → (r.agent_id == aid) ≡ false
    → any (refers_to (of_agent aid) r) xs ≡ false
unfolding any
foreign aid r [] d e h = refl
foreign aid r (x ∷ xs) d e h = elim (Bool-cases (owns r x)) [
  | inl t ↦
      let id = (eq_iff x.sandbox_id r.sandbox_id).0 (ground arith) in
      let owner = (eq_iff x.agent_id r.agent_id).0 (ground arith) in
      let rest = any-none (refers_to (of_agent aid) r) xs (
        All-map (λ y. same_id x y ≡ false) (λ y. refers_to (of_agent aid) r y ≡ false) xs
          (λ y k. apart x y id k) d.0) in
      rw owner (rw h (rw rest refl))
  | inr f ↦
      rw (other_id x r xs d.0 (ground arith))
        (rw (foreign aid r xs d.1 (ground arith) h) (ground arith))
]
  where
    apart :
        (x y : SandboxRecord)
        → x.sandbox_id ≡ r.sandbox_id
        → same_id x y ≡ false
        → refers_to (of_agent aid) r y ≡ false
    apart x y id k =
        ground (arith, eq_iff x.sandbox_id y.sandbox_id, eq_iff y.sandbox_id r.sandbox_id)

pub delete_agent-spares :
    (session_id aid : String) (db : Registry) (r : SessionRoute)
    → IsValid db
    → get_session_route session_id db ≡ some r
    → (r.agent_id == aid) ≡ false
    → get_session_route session_id (delete_agent aid db) ≡ some r
unfolding delete_agent get_session_route
delete_agent-spares session_id aid db r v found other =
    let kept =
      foreign aid r db.sandboxes v.ids
        (All-find (λ r. any (owns r) db.sandboxes ≡ true) (names session_id) db.sessions r v.bound
          found)
        other in
    find-select (names session_id) (λ r. not (any (refers_to (of_agent aid) r) db.sandboxes)) _ r
      (find-select (names session_id) (λ (r : SessionRoute). not (r.agent_id == aid)) db.sessions r
        found (rw other refl))
      (rw kept refl)

pub delete_sandbox-spares :
    (session_id sid : String) (db : Registry) (r : SessionRoute)
    → get_session_route session_id db ≡ some r
    → (r.sandbox_id == sid) ≡ false
    → get_session_route session_id (delete_sandbox sid db) ≡ some r
unfolding delete_sandbox get_session_route
delete_sandbox-spares session_id sid db r found other =
    let kept =
      any-none (refers_to (has_id sid) r) db.sandboxes
        (All-each (λ s. refers_to (has_id sid) r s ≡ false) db.sandboxes (λ s. apart s)) in
    find-select (names session_id) (λ r. not (any (refers_to (has_id sid) r) db.sandboxes)) _ r
      (find-select (names session_id) (λ (r : SessionRoute). not (r.sandbox_id == sid)) db.sessions
        r found (rw other refl))
      (rw kept refl)
  where
    apart : (s : SandboxRecord) → refers_to (has_id sid) r s ≡ false
    apart s =
        ground (
          arith,
          eq_iff s.sandbox_id sid,
          eq_iff s.sandbox_id r.sandbox_id,
          eq_iff r.sandbox_id sid,
        )
