-- ===== src/Catalog/Deletion.antt =====
-- The permanent deletion of an agent by `lifecycle` of catalog_service/main.py.
use opencode_cloud.Prelude.{
  ℕ, String, Bool, true, false, not, ◌==◌, Option, none, some, List, [], ◌∷◌, ◌≡◌, refl, ap, arith,
  eq_refl, opt_eq, opt_eq_iff, lookup, lookup-put, lookup-erase, select, All, All-map, All-select,
}
use opencode_cloud.Catalog.Documents.{Agent, Resource, Data, Table}
use opencode_cloud.Catalog.Replies.{done, ok}
use opencode_cloud.Catalog.Edits.{has, is_some, edit, edit-Edited}
use opencode_cloud.Catalog.Lifecycles.{Action, owned_by, request_of, removed, lifecycle}
use opencode_cloud.Catalog.Calls.{Outside, ends, change, History}
use opencode_cloud.Catalog.Effects.{changed_document}
use opencode_cloud.Catalog.Retired.{History-Retired}

-- The payload of a permanent deletion.
abbrev pub deletion : Option String → Option String → Action
deletion request_id fingerprint = record {
  action = "delete";
  request_id = request_id;
  expected_fingerprint = fingerprint;
}

module _ (fingerprint : Agent → List (String × Resource) → String)
    (is_compiled is_changed : String → Bool) (aid : String) (p : Action) where
  deletes :
      (now : ℕ) (a : Agent) (d d' : Data)
      → lookup aid d.agents ≡ some a
      → (p.action == "delete") ≡ true
      → lifecycle fingerprint is_compiled is_changed aid p now d ≡ ok (done, d')
      → removed aid p.request_id now d ≡ d'
  unfolding lifecycle
  deletes now a d d' present delete e =
      changed_document (removed aid p.request_id now d) d' (ground arith)

  deletes_again :
      (now : ℕ) (d : Data)
      → lookup aid d.agents ≡ none
      → (p.action == "delete") ≡ true
      → opt_eq (request_of (lookup aid d.agent_tombstones)) p.request_id ≡ true
      → lifecycle fingerprint is_compiled is_changed aid p now d ≡ ok (done, d)
  unfolding lifecycle
  deletes_again now d gone delete same = ground arith

removed_gone :
    (aid : String) (request_id : Option String) (now : ℕ) (d : Data)
    → lookup aid (removed aid request_id now d).agents ≡ none
removed_gone aid request_id now d = rw (lookup-erase aid aid d.agents) (rw (eq_refl aid) refl)

removed_request :
    (aid : String) (request_id : Option String) (now : ℕ) (d : Data)
    → opt_eq (request_of (lookup aid (removed aid request_id now d).agent_tombstones)) request_id
      ≡ true
removed_request aid request_id now d =
    rw (lookup-put aid aid _ d.agent_tombstones)
      (rw (eq_refl aid) ((opt_eq_iff request_id request_id).1 refl))

removed_buried :
    (aid : String) (request_id : Option String) (now : ℕ) (d : Data)
    → has aid (removed aid request_id now d).agent_tombstones ≡ true
removed_buried aid request_id now d =
    rw (lookup-put aid aid _ d.agent_tombstones) (rw (eq_refl aid) refl)

removed_resources :
    (aid : String) (request_id : Option String) (now : ℕ) (d : Data)
    → All (λ row. owned_by aid row.1 ≡ false) (removed aid request_id now d).resources
removed_resources aid request_id now d =
    All-map _ _ (select (λ row. not (owned_by aid row.1)) d.resources)
      (λ row h. ground (arith, h.1))
      (All-select (λ row. row ≡ row) (λ row. not (owned_by aid row.1)) d.resources
        (themselves d.resources))
  where
    themselves : (rows : List (String × Resource)) → All (λ row. row ≡ row) rows
    themselves [] = tt
    themselves (row ∷ rows) = (refl, themselves rows)

-- Once an agent is deleted, no resource of its own is left; the same request again replies ok and
-- leaves the document; and after every further history of calls there is still no agent with the
-- identifier: it is never used again, by a new agent, a copy, a template or a release.
-- A history has new identifiers from uuid4, and orders of models for the target "*".
pub lifecycle_for_good :
    (o : Outside) (expected : Option ℕ) (aid : String) (a : Agent) (now later : ℕ)
    (request_id fingerprint : Option String) (t t1 t2 : Table)
    → lookup aid t.document.agents ≡ some a
    → edit expected (change o (ends aid (deletion request_id fingerprint) now)) t ≡ ok (done, t1)
    → History o t1 t2
    → All (λ row. owned_by aid row.1 ≡ false) t1.document.resources
      × (change o (ends aid (deletion request_id fingerprint) later) t1.document
          ≡ ok (done, t1.document))
      × (has aid t2.document.agents ≡ false)
unfolding change
lifecycle_for_good o expected aid a now later request_id fingerprint t t1 t2 present e h =
    let p = deletion request_id fingerprint in
    let edited = edit-Edited expected (change o (ends aid p now)) t t1 done e in
    let same : removed aid request_id now t.document ≡ t1.document =
      deletes o.fingerprint o.is_compiled o.is_changed aid p now a t.document t1.document present
        refl (edited.changed) in
    let gone : lookup aid t1.document.agents ≡ none =
      rw (← same) (removed_gone aid request_id now t.document) in
    let buried : has aid t1.document.agent_tombstones ≡ true =
      rw (← same) (removed_buried aid request_id now t.document) in
    let asked : opt_eq (request_of (lookup aid t1.document.agent_tombstones)) request_id ≡ true =
      rw (← same) (removed_request aid request_id now t.document) in
    let retired = History-Retired aid o t1 t2 h (record { buried = buried; gone = gone }) in
    (
      rw (← same) (removed_resources aid request_id now t.document),
      deletes_again o.fingerprint o.is_compiled o.is_changed aid p later t1.document gone refl
          asked,
      ap is_some (retired.gone),
    )
