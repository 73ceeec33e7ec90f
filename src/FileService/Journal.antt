-- ===== src/FileService/Journal.antt =====
-- The table `cleanups` of file_service/coordination.py. A payload and a result are their canonical
-- JSON, as they are stored.
use Prim.Native.String.{count}
use opencode_cloud.Prelude.{
  ℕ, String, Bool, not, ◌||◌, Option, none, some, List, [], ◌∷◌, ◌++◌, ◌==◌, ltb, if◌then◌else◌,
  find, update_where, any,
}

pub data Answer {ℓ} (A : Type ℓ) : Type ℓ where
  done : A → Answer A
  refused : ℕ → String → Answer A
  crashed : Answer A

pub record Cleanup : Type 0 where
  pub request_id : String
  pub payload : String
  pub result : Option String

abbrev pub asks : String → Cleanup → Bool
asks rid c = c.request_id == rid

-- What a row that is found says of the request.
abbrev pub judge : String → Option Cleanup → Answer (Option String)
judge payload none = done none
judge payload (some c) =
    if not (c.payload == payload)
    then refused 409 "Cleanup request_id was reused with different parameters"
    else elim c.result [
      | none ↦ refused 409 "Cleanup was interrupted; reconcile its result before continuing"
      | some result ↦ done (some result)
    ]

-- `none` is a request_id that is not a string.
unfoldable pub replay : Option String → String → List Cleanup → Answer (Option String)
replay none payload journal = refused 422 "Cleanup requires a bounded request_id"
replay (some rid) payload journal =
    if rid == "" || ltb 256 (count rid)
    then refused 422 "Cleanup requires a bounded request_id"
    else judge payload (find (asks rid) journal)

unfoldable pub begin : String → String → List Cleanup → Answer (List Cleanup)
begin rid payload journal =
    if any (asks rid) journal
    then refused 409 "Cleanup already started"
    else done (journal ++ record { request_id = rid; payload = payload; result = none } ∷ [])

unfoldable pub finish : String → String → List Cleanup → List Cleanup
finish rid result = update_where (asks rid) (λ (c : Cleanup). record c { result = some result })
