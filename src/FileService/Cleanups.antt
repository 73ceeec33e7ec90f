-- ===== src/FileService/Cleanups.antt =====
-- The cleanup handlers of file_service/main.py. What is awaited is an argument: the authorization,
-- the impact that is read, and what the removal of the directories comes to. Between two awaits
-- another handler may run, so the writes of a handler are also given as single steps.
use opencode_cloud.Prelude.{
  ℕ, String, Bool, not, ◌&&◌, ◌||◌, Option, none, some, List, [], ◌∷◌, ◌==◌, eqb, truthy, opt_eq,
  if◌then◌else◌, any, select,
}
use opencode_cloud.FileService.Journal.{
  Answer, done, refused, crashed, Cleanup, replay, begin, finish,
}

-- `removals` are the requests whose removal was started, newest first, and `running` those whose
-- removal is awaited.
pub record Files : Type 0 where
  pub journal : List Cleanup
  pub removals : List String
  pub running : List String

pub record Impact : Type 0 where
  pub files : ℕ
  pub fingerprint : String

pub record Request : Type 0 where
  pub request_id : Option String
  pub payload : String
  pub expected_fingerprint : Option String
  pub empty_only : Bool

abbrev pub is_id : String → String → Bool
is_id rid s = s == rid

abbrev pub without : String → List String → List String
without rid = select (λ s. not (s == rid))

-- `begin`, up to the start of the removal.
unfoldable pub start : String → String → Files → Answer Files
start rid payload s = elim (begin rid payload s.journal) [
  | done journal ↦
      done (record { journal = journal; removals = rid ∷ s.removals; running = rid ∷ s.running })
  | refused status detail ↦ refused status detail
  | crashed ↦ crashed
]

-- The removal has ended, and its result is written.
unfoldable pub complete : String → String → Files → Files
complete rid result s = record s {
  journal = finish rid result s.journal;
  running = without rid s.running;
}

-- The removal has raised, or the service has stopped during it.
unfoldable pub abandon : String → Files → Files
abandon rid s = record s { running = without rid s.running }

abbrev pub settle : String → Answer String → Files → Answer String × Files
settle rid (done result) s = (done result, complete rid result s)
settle rid (refused status detail) s = (refused status detail, abandon rid s)
settle rid crashed s = (crashed, abandon rid s)

abbrev pub removed : String → Answer String → Files → Answer Files → Answer String × Files
removed rid removal s (done s') = settle rid removal s'
removed rid removal s (refused status detail) = (refused status detail, s)
removed rid removal s crashed = (crashed, s)

abbrev pub remove : String → String → Answer String → Files → Answer String × Files
remove rid payload removal s = removed rid removal s (start rid payload s)

-- The tests of `cleanup_agent` after the authorization.
abbrev pub check_impact : Request → Impact → Answer (Unit {0})
check_impact request impact =
    if not (truthy request.expected_fingerprint)
      || not (opt_eq request.expected_fingerprint (some impact.fingerprint))
    then refused 409 "Fresh file deletion fingerprint required"
    else if request.empty_only && not (eqb impact.files 0)
    then refused 409 "Agent files are not empty"
    else done tt

abbrev pub and_then : {A B : Type 0} → Answer A → (A → Answer B) → Answer B
and_then (done a) f = f a
and_then (refused status detail) f = refused status detail
and_then crashed f = crashed

abbrev pub named : Option String → String
named none = ""
named (some rid) = rid

-- A handler after its tests, and after its replay.
abbrev pub admit :
    String → String → Answer (Unit {0}) → Answer String → Files → Answer String × Files
admit rid payload (done u) removal s = remove rid payload removal s
admit rid payload (refused status detail) removal s = (refused status detail, s)
admit rid payload crashed removal s = (crashed, s)

abbrev pub answer :
    String
    → String
    → Answer (Unit {0})
    → Answer String
    → Files
    → Answer (Option String)
    → Answer String × Files
answer rid payload admitted removal s (done (some result)) = (done result, s)
answer rid payload admitted removal s (done none) = admit rid payload admitted removal s
answer rid payload admitted removal s (refused status detail) = (refused status detail, s)
answer rid payload admitted removal s crashed = (crashed, s)

-- A handler: the replay, the tests, and the removal.
abbrev pub handle :
    Option String → String → Answer (Unit {0}) → Answer String → Files → Answer String × Files
handle request_id payload admitted removal s =
    answer (named request_id) payload admitted removal s (replay request_id payload s.journal)

unfoldable pub cleanup_user :
    Request → Answer (Unit {0}) → Answer String → Files → Answer String × Files
cleanup_user request authorized removal s =
    handle request.request_id request.payload authorized removal s

unfoldable pub cleanup_agent :
    Request → Answer (Unit {0}) → Answer Impact → Answer String → Files → Answer String × Files
cleanup_agent request authorized impact removal s =
    handle request.request_id request.payload
      (and_then authorized (λ _. and_then impact (check_impact request))) removal s

-- The writes of all handlers, in any order. Only a removal that is awaited can end.
pub data Event : Type 0 where
  starts : String → String → Event
  completes : String → String → Event
  abandons : String → Event

abbrev pub started : Files → Answer Files → Files
started s (done s') = s'
started s (refused _ _) = s
started s crashed = s

abbrev pub step : Event → Files → Files
step (starts rid payload) s = started s (start rid payload s)
step (completes rid result) s = if any (is_id rid) s.running then complete rid result s else s
step (abandons rid) s = if any (is_id rid) s.running then abandon rid s else s

abbrev pub run : List Event → Files → Files
run [] s = s
run (e ∷ events) s = run events (step e s)
