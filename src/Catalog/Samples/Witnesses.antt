-- ===== src/Catalog/Samples/Witnesses.antt =====
-- Histories of the small catalog of calls of catalog_service.
use opencode_cloud.Prelude.{false, none, some, ◌≡◌, refl, All}
use opencode_cloud.Catalog.Documents.{AgentVersion}
use opencode_cloud.Catalog.Replies.{done, ok, fail}
use opencode_cloud.Catalog.Edits.{edit, has}
use opencode_cloud.Catalog.Releases.{commit, active_bundle}
use opencode_cloud.Catalog.Lifecycles.{owned_by}
use opencode_cloud.Catalog.Deletion.{deletion, lifecycle_for_good}
use opencode_cloud.Catalog.Drafts.{ValidDrafts}
use opencode_cloud.Catalog.Drafts.Histories.{History-ValidDrafts}
use opencode_cloud.Catalog.Numbering.{Numbered}
use opencode_cloud.Catalog.Numbering.Histories.{History-Numbered, opened-Numbered}
use opencode_cloud.Catalog.Commits.{commit_outdated}
use opencode_cloud.Catalog.Recommits.{commit_again}
use opencode_cloud.Catalog.Serving.{active_bundle_served}
use opencode_cloud.Catalog.Revisions.{edit_once}
use opencode_cloud.Catalog.Calls.{commits, ends, change, calls, prepares, History, start, next}
use opencode_cloud.Catalog.Samples.{
  outside, first, model_call, agent_call, models_order, agent_order, t1, t2, p1, p2, q1, t3, t4, t5,
  t6, helper, archived_helper, t7, t8, t9, t10, reached,
}

to_t4 : History outside first t4
to_t4 =
    next first t3 t4
      (next first t2 t3
        (next first t1 t2
          (next first first t1 (start first) (calls none model_call first t1 tt reached.t1_reached))
          (calls none agent_call t1 t2 tt reached.t2_reached))
        (prepares "p1" models_order p1 t2 t3 refl reached.t3_reached))
      (prepares "p2" models_order p2 t3 t4 refl reached.t4_reached)

to_t7 : History outside first t7
to_t7 =
    next first t6 t7
      (next first t5 t6
        (next first t4 t5 to_t4 (calls none (commits "p1" 5) t4 t5 tt reached.t5_reached))
        (prepares "q1" agent_order q1 t5 t6 refl reached.t6_reached))
      (calls none (commits "q1" 6) t6 t7 tt reached.t7_reached)

History-ValidDrafts_example : ValidDrafts t7.document
History-ValidDrafts_example = History-ValidDrafts outside first t7 to_t7 tt

History-Numbered_example : Numbered t7.document
History-Numbered_example =
    History-Numbered outside first t7 to_t7 (opened-Numbered outside "Write code." "Read data.")

commit_outdated_example : commit "p2" 6 t5.document ≡ fail 409 "Applied version changed"
commit_outdated_example =
    commit_outdated outside "Write code." "Read data." t4 to_t4 "p1" "p2" p1 p2 5 6 1 t5.document
      reached.p1_stored reached.p2_stored refl refl refl refl refl reached.p1_committed

abbrev from_t5 : History outside t5 t7
from_t5 =
    next t5 t6 t7
      (next t5 t5 t6 (start t5) (prepares "q1" agent_order q1 t5 t6 refl reached.t6_reached))
      (calls none (commits "q1" 6) t6 t7 tt reached.t7_reached)

commit_again_example : commit "p1" 8 t7.document ≡ ok (1, t7.document)
commit_again_example =
    commit_again outside "p1" 5 8 1 t4.document t5 t7 reached.p1_committed from_t5 ((tt, refl), tt)

active_bundle_served_example :
    (v : AgentVersion) × (active_bundle "helper" t7.document ≡ ok v) × (v.version ≡ 1)
active_bundle_served_example =
    active_bundle_served outside "Write code." "Read data." t7 to_t7 "helper" helper 1
      reached.helper_stored refl

to_t10 : History outside t9 t10
to_t10 = next t9 t9 t10 (start t9) (calls none model_call t9 t10 tt reached.t10_reached)

lifecycle_for_good_example :
    All (λ row. owned_by "helper" row.1 ≡ false) t9.document.resources
    × (change outside (ends "helper" (deletion (some "request") none) 9) t9.document
        ≡ ok (done, t9.document))
    × (has "helper" t10.document.agents ≡ false)
lifecycle_for_good_example =
    lifecycle_for_good outside none "helper" archived_helper 7 9 (some "request") none t8 t9 t10
      reached.archived_stored reached.t9_reached to_t10

to_t3 : History outside t2 t3
to_t3 = next t2 t2 t3 (start t2) (prepares "p1" models_order p1 t2 t3 refl reached.t3_reached)

edit_once_example :
    edit (some 3) (change outside model_call) t3
    ≡ fail 409 "Configuration changed; reload before saving"
edit_once_example =
    edit_once outside 3 (change outside agent_call) (change outside model_call) done t1 t2 t3
      reached.t2_expected to_t3
