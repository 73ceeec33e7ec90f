-- ===== src/FileService/Samples.antt =====
-- A sample cleanup, tests of its handler, and the theorems at it.
use opencode_cloud.Prelude.{false, some, [], ◌∷◌, ◌≡◌, refl, find, update_where, any, select}
use opencode_cloud.FileService.Journal.{done, refused, crashed, replay, begin, finish}
use opencode_cloud.FileService.Cleanups.{
  Files, Impact, Request, start, complete, abandon, cleanup_agent, starts, completes, abandons, run,
}
use opencode_cloud.FileService.Once.{Journaled, run-Journaled}
use opencode_cloud.FileService.Replays.{cleanup_agent_again}

abbrev no_cleanups : Files
no_cleanups = record { journal = []; removals = []; running = [] }

abbrev request : Request
request = record {
  request_id = some "r1";
  payload = "{}";
  expected_fingerprint = some "f";
  empty_only = false;
}

abbrev impact : Impact
impact = record { files = 2; fingerprint = "f" }

abbrev cleaned : Files
cleaned = record {
  journal = record { request_id = "r1"; payload = "{}"; result = some "ok" } ∷ [];
  removals = "r1" ∷ [];
  running = [];
}

first_cleanup :
    cleanup_agent request (done tt) (done impact) (done "ok") no_cleanups ≡ (done "ok", cleaned)
unfolding cleanup_agent replay begin start complete finish find any update_where select
first_cleanup = refl

-- A removal that raised is not tried again.
interrupted_cleanup :
    cleanup_agent request
      (done tt)
      (done impact)
      (done "ok")
      (cleanup_agent request (done tt) (done impact) crashed no_cleanups).1
    ≡ (
      refused 409 "Cleanup was interrupted; reconcile its result before continuing",
      (cleanup_agent request (done tt) (done impact) crashed no_cleanups).1,
    )
unfolding cleanup_agent replay begin start abandon find any select
interrupted_cleanup = refl

no_cleanups-Journaled : Journaled no_cleanups
no_cleanups-Journaled = record { once = tt; logged = tt; unfinished = tt }

run-Journaled_example : Journaled (
    run
      (starts "r1" "{}"
        ∷ starts "r1" "{}"
        ∷ completes "r1" "ok"
        ∷ starts "r2" "{}"
        ∷ abandons "r2"
        ∷ [])
      no_cleanups)
run-Journaled_example =
    run-Journaled
      (starts "r1" "{}"
        ∷ starts "r1" "{}"
        ∷ completes "r1" "ok"
        ∷ starts "r2" "{}"
        ∷ abandons "r2"
        ∷ [])
      no_cleanups no_cleanups-Journaled

cleanup_agent_again_example :
    cleanup_agent request (refused 503 "down") crashed crashed (run (starts "r2" "{}" ∷ []) cleaned)
    ≡ (done "ok", run (starts "r2" "{}" ∷ []) cleaned)
cleanup_agent_again_example =
    cleanup_agent_again request (done tt) (done impact) (done "ok") no_cleanups
      no_cleanups-Journaled first_cleanup (starts "r2" "{}" ∷ []) (refused 503 "down") crashed
      crashed
