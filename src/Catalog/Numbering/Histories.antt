-- ===== src/Catalog/Numbering/Histories.antt =====
-- The numbers of versions over the histories of the calls of catalog_service.
use opencode_cloud.Prelude.{
  ℕ, String, true, not, refl, sym, subst, arith, lookup, select, All-erase, All-lookup, All-map,
  All-select,
}
use opencode_cloud.Catalog.Documents.{Draft, Resource, ResourceVersion, Data, Table, opened}
use opencode_cloud.Catalog.Replies.{done}
use opencode_cloud.Catalog.Edits.{edit-Edited}
use opencode_cloud.Catalog.Agents.{redrafted, new_agent}
use opencode_cloud.Catalog.Resources.{next_version}
use opencode_cloud.Catalog.Lifecycles.{owned_by}
use opencode_cloud.Catalog.Calls.{Outside, change, Step, calls, prepares, History, start, next}
use opencode_cloud.Catalog.Effects.{
  prepare-Prepared, Effect, stays, follows, sets_models, sets_draft, fills, copies, sets_resource,
  adds_version, drops_resource, applies, moves, removes,
}
use opencode_cloud.Catalog.Effects.Applying.{change-Effect}
use opencode_cloud.Catalog.Numbering.{
  Counted, NumberedAgent, NumberedResource, NumberedRelease, Numbered, Counted-append,
  redrafted-NumberedAgent, kept-NumberedResource, apply_release-Numbered, with_agent, with_resource,
  with_release,
}
use opencode_cloud.Catalog.Numbering.Prepared.{prepared_next}

next_version-Counted :
    (now : ℕ) (checked : Draft) (r : Resource)
    → Counted (λ (v : ResourceVersion). v.version) 1 r.versions
    → Counted (λ (v : ResourceVersion). v.version) 1 (next_version now checked r).versions
next_version-Counted now checked r h =
    Counted-append (λ (v : ResourceVersion). v.version) 1 r.versions _ h (omega arith)

Effect-Numbered : (d d' : Data) → Effect d d' → Numbered d → Numbered d'
Effect-Numbered _ _ (stays d) v = v
Effect-Numbered _ _ (follows d d1 d2 x y) v = Effect-Numbered d1 d2 y (Effect-Numbered d d1 x v)
Effect-Numbered _ _ (sets_models d models) v = record {
  agents = v.agents;
  resources = v.resources;
  releases = v.releases;
  gateway = v.gateway;
  active = v.active;
}
Effect-Numbered _ _ (sets_draft d aid cfg free) v =
    with_agent d v aid (redrafted aid cfg (lookup aid d.agents))
      (redrafted-NumberedAgent aid cfg d.agents v.agents)
Effect-Numbered _ _ (fills d tid aid t cfg now free) v =
    let w = with_agent d v aid (new_agent aid cfg) (tt, refl) in
    record {
      agents = w.agents;
      resources = w.resources;
      releases = w.releases;
      gateway = w.gateway;
      active = w.active;
    }
Effect-Numbered _ _ (copies d source rid owner archived r present) v =
    with_resource d v rid _ (All-lookup NumberedResource source r d.resources v.resources present)
Effect-Numbered _ _ (sets_resource d rid r same) v =
    with_resource d v rid r (kept-NumberedResource rid r d.resources same v.resources)
Effect-Numbered _ _ (adds_version d rid now checked r present) v =
    with_resource d v rid (next_version now checked r) (
      next_version-Counted now checked r
        (All-lookup NumberedResource rid r d.resources v.resources present))
Effect-Numbered _ _ (drops_resource d rid) v = record {
  agents = v.agents;
  resources = All-erase NumberedResource rid d.resources v.resources;
  releases = v.releases;
  gateway = v.gateway;
  active = v.active;
}
Effect-Numbered _ _ (applies d d' rid value now present e) v =
    let numbered = All-lookup NumberedRelease rid value d.releases v.releases present in
    with_release d' (apply_release-Numbered d v value value.subject now d' numbered e) rid
      (record value { committed = true }) numbered
Effect-Numbered _ _ (moves d aid a l present) v =
    with_agent d v aid (record a { lifecycle = l })
      (All-lookup NumberedAgent aid a d.agents v.agents present)
Effect-Numbered _ _ (removes d aid request_id now) v = record {
  agents = All-erase NumberedAgent aid d.agents v.agents;
  resources =
      All-map _ _ (select (λ row. not (owned_by aid row.1)) d.resources) (λ row h. h.0)
        (All-select NumberedResource (λ row. not (owned_by aid row.1)) d.resources v.resources);
  releases = v.releases;
  gateway = v.gateway;
  active = v.active;
}

module _ (o : Outside) where
  Step-Numbered : (t t' : Table) → Step o t t' → Numbered t.document → Numbered t'.document
  Step-Numbered _ _ (calls expected c t t' a e) v =
      Effect-Numbered t.document t'.document
        (change-Effect o c t.document t'.document
          ((edit-Edited expected (change o c) t t' done e).changed))
        v
  Step-Numbered _ _ (prepares rid order value t t' to e) v =
      let p = prepare-Prepared o rid order value t t' e in
      subst Numbered (sym (p.stored)) (
        with_release t.document v rid value
          (prepared_next o rid order t.revision t.document value v to (p.valued)))

  -- Through every history of calls, the versions of each agent, of each resource and of the gateway
  -- are numbered 1, 2, 3, … without a gap or a repetition; the active version of an agent and of
  -- the gateway is the last one, and none before the first; and each release carries the number
  -- after the version that was active when it was prepared. A history has new identifiers from
  -- uuid4, and orders of releases of models for the target "*".
  pub History-Numbered :
      (t t' : Table) → History o t t' → Numbered t.document → Numbered t'.document
  History-Numbered _ _ (start t) v = v
  History-Numbered _ _ (next t t' t'' h s) v = Step-Numbered t' t'' s (History-Numbered t t' h v)

  pub opened-Numbered : (code data_text : String) → Numbered ((opened code data_text).document)
  opened-Numbered code data_text = record {
    agents = tt;
    resources = tt;
    releases = tt;
    gateway = tt;
    active = refl;
  }
