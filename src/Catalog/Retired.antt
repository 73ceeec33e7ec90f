-- ===== src/Catalog/Retired.antt =====
-- The identifiers of agents that catalog_service/main.py has deleted for good.
use opencode_cloud.Prelude.{
  ℕ, String, true, false, ◌==◌, none, some, List, ◌≡◌, sym, subst, inl, inr, arith, eq_iff, lookup,
  put, lookup-put, lookup-erase, Bool-cases, Option-cases,
}
use opencode_cloud.Catalog.Documents.{Agent, Subject, gateway, agent, Release, Data, Table}
use opencode_cloud.Catalog.Replies.{done, ok, ok_inj}
use opencode_cloud.Catalog.Edits.{has, edit-Edited}
use opencode_cloud.Catalog.Releases.{apply_release, applied_gateway, applied_agent}
use opencode_cloud.Catalog.Lifecycles.{removed}
use opencode_cloud.Catalog.Calls.{Outside, change, Step, calls, prepares, History, start, next}
use opencode_cloud.Catalog.Effects.{
  prepare-Prepared, Effect, stays, follows, sets_models, sets_draft, fills, copies, sets_resource,
  adds_version, drops_resource, applies, moves, removes,
}
use opencode_cloud.Catalog.Effects.Applying.{change-Effect}

-- The identifier has a tombstone, and no agent.
pub record Retired (aid : String) (d : Data) : Type 0 where
  pub buried : has aid d.agent_tombstones ≡ true
  pub gone : lookup aid d.agents ≡ none

module _ (aid : String) where
  -- A write of another agent than the retired one.
  put-gone :
      (other : String) (a : Agent) (agents : List (String × Agent))
      → (other == aid) ≡ false
      → lookup aid agents ≡ none
      → lookup aid (put other a agents) ≡ none
  put-gone other a agents apart gone = rw (lookup-put other aid a agents) (rw apart gone)

  present-apart :
      (other : String) (a : Agent) (agents : List (String × Agent))
      → lookup aid agents ≡ none
      → lookup other agents ≡ some a
      → (other == aid) ≡ false
  present-apart other a agents gone present = elim (Bool-cases (other == aid)) [
    | inr f ↦ f
    | inl t ↦
        let name : other ≡ aid = (eq_iff other aid).0 t in
        let found : lookup aid agents ≡ some a = rw name at present in absurd (ground arith)
  ]

  unburied-apart :
      (other : String) (d : Data)
      → has aid d.agent_tombstones ≡ true
      → has other d.agent_tombstones ≡ false
      → (other == aid) ≡ false
  unburied-apart other d buried free = elim (Bool-cases (other == aid)) [
    | inr f ↦ f
    | inl t ↦
        let name : other ≡ aid = (eq_iff other aid).0 t in
        let found : has aid d.agent_tombstones ≡ false = rw name at free in absurd (ground arith)
  ]

  apply_release-Retired :
      (value : Release) (s : Subject) (now : ℕ) (d d' : Data)
      → apply_release value s now d ≡ ok d'
      → Retired aid d
      → Retired aid d'
  apply_release-Retired value (gateway models configuration) now d d' e v =
      let same : applied_gateway value models now d ≡ d' = ok_inj (ground arith) in
      subst (Retired aid) same (record { buried = v.buried; gone = v.gone })
  apply_release-Retired value (agent target cfg path files) now d d' e v =
      elim (Option-cases (lookup target d.agents)) [
        | inl absent ↦ absurd (ground arith)
        | inr (a, present) ↦
            let after : Data = record d {
              agents = put target (applied_agent value cfg path now a) d.agents;
            } in
            let same : after ≡ d' = ok_inj (ground arith) in
            subst (Retired aid) same (record {
              buried = v.buried;
              gone =
                  put-gone target _ d.agents (present-apart target a d.agents v.gone present)
                    v.gone;
            })
      ]

  Effect-Retired : (d d' : Data) → Effect d d' → Retired aid d → Retired aid d'
  Effect-Retired _ _ (stays d) v = v
  Effect-Retired _ _ (follows d d1 d2 x y) v = Effect-Retired d1 d2 y (Effect-Retired d d1 x v)
  Effect-Retired _ _ (sets_models d models) v = record { buried = v.buried; gone = v.gone }
  Effect-Retired _ _ (sets_draft d other cfg free) v = record {
    buried = v.buried;
    gone = put-gone other _ d.agents (unburied-apart other d v.buried free) v.gone;
  }
  Effect-Retired _ _ (fills d tid other t cfg now free) v = record {
    buried = v.buried;
    gone = put-gone other _ d.agents (unburied-apart other d v.buried free) v.gone;
  }
  Effect-Retired _ _ (copies d source rid owner archived r present) v = record {
    buried = v.buried;
    gone = v.gone;
  }
  Effect-Retired _ _ (sets_resource d rid r same) v = record { buried = v.buried; gone = v.gone }
  Effect-Retired _ _ (adds_version d rid now checked r present) v = record {
    buried = v.buried;
    gone = v.gone;
  }
  Effect-Retired _ _ (drops_resource d rid) v = record { buried = v.buried; gone = v.gone }
  Effect-Retired _ _ (applies d d' rid value now present e) v =
      let w = apply_release-Retired value value.subject now d d' e v in
      record { buried = w.buried; gone = w.gone }
  Effect-Retired _ _ (moves d other a l present) v = record {
    buried = v.buried;
    gone = put-gone other _ d.agents (present-apart other a d.agents v.gone present) v.gone;
  }
  Effect-Retired _ _ (removes d other request_id now) v = record {
    buried = buried_again;
    gone = rw (lookup-erase other aid d.agents) (ground (arith, v.gone));
  }
    where
      buried_again : has aid (removed other request_id now d).agent_tombstones ≡ true
      buried_again = rw (lookup-put other aid _ d.agent_tombstones) (ground (arith, v.buried))

  module _ (o : Outside) where
    Step-Retired : (t t' : Table) → Step o t t' → Retired aid t.document → Retired aid t'.document
    Step-Retired _ _ (calls expected c t t' a e) v =
        Effect-Retired t.document t'.document
          (change-Effect o c t.document t'.document
            ((edit-Edited expected (change o c) t t' done e).changed))
          v
    Step-Retired _ _ (prepares rid order value t t' to e) v =
        subst (Retired aid) (sym ((prepare-Prepared o rid order value t t' e).stored))
          (record { buried = v.buried; gone = v.gone })

    pub History-Retired :
        (t t' : Table) → History o t t' → Retired aid t.document → Retired aid t'.document
    History-Retired _ _ (start t) v = v
    History-Retired _ _ (next t t' t'' h s) v = Step-Retired t' t'' s (History-Retired t t' h v)
