-- ===== src/FileService/Replays.antt =====
-- Repeated cleanups of the file service.
use Prim.Native.String.{count}
use opencode_cloud.Prelude.{
  String, Bool, true, false, not, ◌||◌, Option, none, some, List, [], ◌∷◌, ◌++◌, ◌==◌, ◌≡◌, inl,
  inr, refl, ap, sym, ◌∙◌, subst, arith, eq_iff, eq_refl, ltb, if◌then◌else◌, find, any, All,
  find-append, Bool-cases,
}
use opencode_cloud.FileService.Journal.{
  Answer, done, refused, crashed, Cleanup, asks, judge, replay,
}
use opencode_cloud.FileService.Cleanups.{
  Files, Impact, Request, is_id, complete, abandon, settle, removed, remove, admit, answer,
  check_impact, and_then, named, handle, cleanup_agent, Event, starts, completes, abandons, step,
  run,
}
use opencode_cloud.FileService.Once.{
  Unfinished, Journaled, new_row, begun, find-finish, find-finish_self, start-cases, step-Journaled,
  begun-Journaled, complete-Journaled,
}

-- The request is bounded, and its row has the payload and the result.
record Recorded (rid payload result : String) (s : Files) : Type 0 where
  bounded : (rid == "" || ltb 256 (count rid)) ≡ false
  row : Cleanup
  found : find (asks rid) s.journal ≡ some row
  same_payload : (row.payload == payload) ≡ true
  has_result : row.result ≡ some result

awaited :
    (journal : List Cleanup) (q : String) (xs : List String)
    → any (is_id q) xs ≡ true
    → All (Unfinished journal) xs
    → Unfinished journal q
unfolding any
awaited journal q [] e a = absurd (ground arith)
awaited journal q (x ∷ xs) e a = elim (Bool-cases (x == q)) [
  | inl t ↦ let same : x ≡ q = ground (arith, eq_iff x q) in subst (Unfinished journal) same a.0
  | inr f ↦ awaited journal q xs (ground arith) a.1
]

-- A removal that is awaited is not that of a request with a result.
apart :
    (rid q result : String) (s : Files) (row : Cleanup)
    → any (is_id q) s.running ≡ true
    → All (Unfinished s.journal) s.running
    → find (asks rid) s.journal ≡ some row
    → row.result ≡ some result
    → (rid == q) ≡ false
apart rid q result s row t a found e = elim (Bool-cases (rid == q)) [
  | inr f ↦ f
  | inl same ↦
      let eq : rid ≡ q = ground (arith, eq_iff rid q) in
      absurd (
        ground (
          arith,
          e,
          awaited s.journal q s.running t a row
              (subst (λ i. find (asks i) s.journal ≡ some row) eq found),
        ))
]

step-Recorded :
    (rid payload result : String) (e : Event) (s : Files)
    → Journaled s
    → Recorded rid payload result s
    → Recorded rid payload result (step e s)
unfolding complete abandon
step-Recorded rid payload result (starts q p) s v h = elim (start-cases q p s) [
  | inr e ↦ rw e h
  | inl (new, e) ↦ rw e (record {
    bounded = h.bounded;
    row = h.row;
    found = rw (find-append (asks rid) s.journal (new_row q p ∷ [])) (rw (h.found) refl);
    same_payload = h.same_payload;
    has_result = h.has_result;
  })
]
step-Recorded rid payload result (completes q r) s v h =
    elim (Bool-cases (any (is_id q) s.running)) [
      | inr f ↦ rw f h
      | inl t ↦ rw t (record {
        bounded = h.bounded;
        row = h.row;
        found =
            find-finish q rid r s.journal
              (apart rid q result s h.row t v.unfinished h.found h.has_result)
            ∙ h.found;
        same_payload = h.same_payload;
        has_result = h.has_result;
      })
    ]
step-Recorded rid payload result (abandons q) s v h = elim (Bool-cases (any (is_id q) s.running)) [
  | inr f ↦ rw f h
  | inl t ↦ rw t (record {
    bounded = h.bounded;
    row = h.row;
    found = h.found;
    same_payload = h.same_payload;
    has_result = h.has_result;
  })
]

run-Recorded :
    (rid payload result : String) (events : List Event) (s : Files)
    → Journaled s
    → Recorded rid payload result s
    → Recorded rid payload result (run events s)
run-Recorded rid payload result [] s v h = h
run-Recorded rid payload result (e ∷ events) s v h =
    run-Recorded rid payload result events (step e s) (step-Journaled e s v)
      (step-Recorded rid payload result e s v h)

replay-Recorded :
    (rid payload result : String) (s : Files)
    → Recorded rid payload result s
    → replay (some rid) payload s.journal ≡ done (some result)
unfolding replay
replay-Recorded rid payload result s h =
    rw (h.bounded) (rw (h.found) (rw (h.same_payload) (rw (h.has_result) refl)))

absent :
    (p : Cleanup → Bool) (journal : List Cleanup) → any p journal ≡ false → find p journal ≡ none
unfolding any find
absent p [] e = refl
absent p (c ∷ journal) e = elim (Bool-cases (p c)) [
  | inl t ↦ absurd (ground arith)
  | inr f ↦ rw f (absent p journal (ground arith))
]

completed :
    (rid payload r : String) (s : Files)
    → (rid == "" || ltb 256 (count rid)) ≡ false
    → any (asks rid) s.journal ≡ false
    → Recorded rid payload r (complete rid r (begun rid payload s))
unfolding complete
completed rid payload r s bounded new = record {
  bounded = bounded;
  row = record { request_id = rid; payload = payload; result = some r };
  found = find-finish_self rid r (s.journal ++ new_row rid payload ∷ []) {c = new_row rid payload} (
      rw (find-append (asks rid) s.journal (new_row rid payload ∷ []))
        (rw (absent (asks rid) s.journal new) (unfold find in rw (eq_refl rid) refl)));
  same_payload = eq_refl payload;
  has_result = refl;
}

-- What a removal that is done has written.
remove-done :
    (rid payload : String) (removal : Answer String) (s : Files) {result : String} {s' : Files}
    → (rid == "" || ltb 256 (count rid)) ≡ false
    → Journaled s
    → remove rid payload removal s ≡ (done result, s')
    → Journaled s' × Recorded rid payload result s'
remove-done rid payload removal s {result} {s'} bounded v e = elim (start-cases rid payload s) [
  | inr again ↦
      absurd (ground (arith, subst (λ a. removed rid removal s a ≡ (done result, s')) again e))
  | inl (new, wrote) ↦
      ended removal new (subst (λ a. removed rid removal s a ≡ (done result, s')) wrote e)
]
  where
    ended :
        (removal : Answer String)
        → any (asks rid) s.journal ≡ false
        → settle rid removal (begun rid payload s) ≡ (done result, s')
        → Journaled s' × Recorded rid payload result s'
    ended (done r) new e =
        let same : complete rid r (begun rid payload s) ≡ s' =
          ap (λ (x : Answer String × Files). x.1) e in
        let result_same : r ≡ result = ground (arith, e) in
        subst (λ s'. Journaled s' × Recorded rid payload result s') same
          (
            complete-Journaled rid r (begun rid payload s) (begun-Journaled rid payload s new v),
            subst (λ r'. Recorded rid payload r' (complete rid r (begun rid payload s))) result_same
                (completed rid payload r s bounded new),
          )
    ended (refused _ _) new e = absurd (ground arith)
    ended crashed new e = absurd (ground arith)

answer-done :
    (rid payload : String) (admitted : Answer (Unit {0})) (removal : Answer String) (s : Files)
    {result : String} {s' : Files}
    → (rid == "" || ltb 256 (count rid)) ≡ false
    → Journaled s
    → answer rid payload admitted removal s (judge payload (find (asks rid) s.journal))
      ≡ (done result, s')
    → Journaled s' × Recorded rid payload result s'
answer-done rid payload admitted removal s {result} {s'} bounded v e =
    by_row (find (asks rid) s.journal) refl e
  where
    admit_done :
        (admitted : Answer (Unit {0}))
        → admit rid payload admitted removal s ≡ (done result, s')
        → Journaled s' × Recorded rid payload result s'
    admit_done (done u) e = remove-done rid payload removal s bounded v e
    admit_done (refused _ _) e = absurd (ground arith)
    admit_done crashed e = absurd (ground arith)

    by_result :
        (c : Cleanup) (same : Bool) (r : Option String)
        → find (asks rid) s.journal ≡ some c
        → (c.payload == payload) ≡ same
        → c.result ≡ r
        → answer rid payload admitted removal s (
            if not same
            then refused 409 "Cleanup request_id was reused with different parameters"
            else elim r [
              | none ↦ refused 409 "Cleanup was interrupted; reconcile its result before continuing"
              | some result ↦ done (some result)
            ])
          ≡ (done result, s')
        → Journaled s' × Recorded rid payload result s'
    by_result c false r f a b e = absurd (ground arith)
    by_result c true none f a b e = absurd (ground arith)
    by_result c true (some r) f a b e =
        let same : s ≡ s' = ap (λ (x : Answer String × Files). x.1) e in
        let result_same : r ≡ result = ground (arith, e) in
        subst (λ s'. Journaled s' × Recorded rid payload result s') same
          (
            v,
            record {
              bounded = bounded;
              row = c;
              found = f;
              same_payload = a;
              has_result = b ∙ ap some result_same;
            },
          )

    by_row :
        (o : Option Cleanup)
        → find (asks rid) s.journal ≡ o
        → answer rid payload admitted removal s (judge payload o) ≡ (done result, s')
        → Journaled s' × Recorded rid payload result s'
    by_row none f e = admit_done admitted e
    by_row (some c) f e = by_result c (c.payload == payload) c.result f refl refl e

handle-done :
    (request_id : Option String) (payload : String) (admitted : Answer (Unit {0}))
    (removal : Answer String) (s : Files) {result : String} {s' : Files}
    → Journaled s
    → handle request_id payload admitted removal s ≡ (done result, s')
    → (rid : String) × (request_id ≡ some rid) × Journaled s' × Recorded rid payload result s'
unfolding replay
handle-done none payload admitted removal s v e = absurd (ground arith)
handle-done (some rid) payload admitted removal s {result} {s'} v e =
    by_bound (rid == "" || ltb 256 (count rid)) refl e
  where
    by_bound :
        (long : Bool)
        → (rid == "" || ltb 256 (count rid)) ≡ long
        → answer rid payload admitted removal s (
            if long
            then refused 422 "Cleanup requires a bounded request_id"
            else judge payload (find (asks rid) s.journal))
          ≡ (done result, s')
        → (x : String) × (some rid ≡ some x) × Journaled s' × Recorded x payload result s'
    by_bound true a e = absurd (ground arith)
    by_bound false a e =
        let (v', h) = answer-done rid payload admitted removal s a v e in (rid, refl, v', h)

-- Once `cleanup_agent` has returned a result for a request, then after any writes of other handlers
-- the same request is answered with that result, whatever the authorization, the impact and a removal
-- would come to then, and nothing is changed or removed.
pub cleanup_agent_again :
    (request : Request) (authorized : Answer (Unit {0})) (impact : Answer Impact)
    (removal : Answer String) (s : Files) {result : String} {s' : Files}
    → Journaled s
    → cleanup_agent request authorized impact removal s ≡ (done result, s')
    → (events : List Event) (authorized' : Answer (Unit {0})) (impact' : Answer Impact)
      (removal' : Answer String)
    → cleanup_agent request authorized' impact' removal' (run events s')
      ≡ (done result, run events s')
unfolding cleanup_agent
cleanup_agent_again request authorized impact removal s {result} {s'} v e events authorized' impact'
      removal' =
    let (rid, asked, v', h) =
      handle-done request.request_id request.payload
        (and_then authorized (λ _. and_then impact (check_impact request))) removal s v e in
    let replayed : replay request.request_id request.payload (run events s').journal
        ≡ done (some result) =
      subst (λ i. replay i request.payload (run events s').journal ≡ done (some result)) (sym asked)
        (replay-Recorded rid request.payload result (run events s')
          (run-Recorded rid request.payload result events s' v' h)) in
    ap
      (λ a.
        answer (named request.request_id) request.payload
          (and_then authorized' (λ _. and_then impact' (check_impact request))) removal'
          (run events s') a)
      replayed
