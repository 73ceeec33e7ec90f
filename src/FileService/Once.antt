-- ===== src/FileService/Once.antt =====
-- How often the file service starts the removal of a cleanup.
use opencode_cloud.Prelude.{
  String, Bool, true, false, Option, none, some, List, [], ◌∷◌, ◌++◌, ◌==◌, ◌≡◌, ◌⊎◌, inl, inr,
  refl, ap, sym, ◌∙◌, subst, arith, eq_iff, eq_refl, if◌then◌else◌, find, update_where, any, select,
  All, All-map, any-append, any-update_where, find-append, Distinct, Bool-cases,
}
use opencode_cloud.FileService.Journal.{done, refused, Cleanup, asks, begin, finish}
use opencode_cloud.FileService.Cleanups.{
  Files, is_id, without, start, complete, abandon, Event, starts, completes, abandons, step, run,
}

abbrev pub same_id : String → String → Bool
same_id a b = a == b

-- A removal that is awaited has no result yet.
abbrev pub Unfinished : List Cleanup → String → Type 0
Unfinished journal rid = (c : Cleanup) → find (asks rid) journal ≡ some c → c.result ≡ none

pub record Journaled (s : Files) : Type 0 where
  pub once : Distinct same_id s.removals
  pub logged : All (λ rid. any (asks rid) s.journal ≡ true) s.removals
  pub unfinished : All (Unfinished s.journal) s.running

abbrev pub new_row : String → String → Cleanup
new_row rid payload = record { request_id = rid; payload = payload; result = none }

abbrev pub begun : String → String → Files → Files
begun rid payload s = record {
  journal = s.journal ++ new_row rid payload ∷ [];
  removals = rid ∷ s.removals;
  running = rid ∷ s.running;
}

any_here :
    (rid : String) (journal : List Cleanup) (row : Cleanup)
    → asks rid row ≡ true
    → any (asks rid) (journal ++ row ∷ []) ≡ true
unfolding any
any_here rid [] row e = ground (arith, e)
any_here rid (c ∷ journal) row e = ground (arith, any_here rid journal row e)

find_new :
    (p : Cleanup → Bool) (journal : List Cleanup) (row c : Cleanup)
    → find p (journal ++ row ∷ []) ≡ some c
    → (find p journal ≡ some c) ⊎ ((find p journal ≡ none) × (c ≡ row))
unfolding find
find_new p journal row c e =
    by_cases (find p journal) refl (sym (find-append p journal (row ∷ [])) ∙ e)
  where
    by_cases :
        (o : Option Cleanup)
        → find p journal ≡ o
        → (elim o [ none ↦ (if p row then some row else none) | some x ↦ some x ]) ≡ some c
        → (find p journal ≡ some c) ⊎ ((find p journal ≡ none) × (c ≡ row))
    by_cases none a b = inr (a, ground arith)
    by_cases (some x) a b = inl (a ∙ b)

found-any :
    (p : Cleanup → Bool) (journal : List Cleanup) (c : Cleanup)
    → find p journal ≡ some c
    → any p journal ≡ true
unfolding find any
found-any p [] c e = absurd (ground arith)
found-any p (x ∷ journal) c e = elim (Bool-cases (p x)) [
  | inl t ↦ rw t refl
  | inr f ↦ rw f (found-any p journal c (ground arith))
]

pub begun-Journaled :
    (rid payload : String) (s : Files)
    → any (asks rid) s.journal ≡ false
    → Journaled s
    → Journaled (begun rid payload s)
begun-Journaled rid payload s new v = record {
  once = (
    All-map (λ x. any (asks x) s.journal ≡ true) (λ x. same_id rid x ≡ false) s.removals
        (λ x known. other x known) v.logged,
    v.once,
  );
  logged = (
    any_here rid s.journal (new_row rid payload) (eq_refl rid),
    All-map (λ x. any (asks x) s.journal ≡ true) _ s.removals
        (λ x known. any-append (asks x) s.journal (new_row rid payload ∷ []) known) v.logged,
  );
  unfinished = (
    (λ c e. elim (find_new (asks rid) s.journal (new_row rid payload) c e) [
      | inl old ↦ absurd (ground (arith, found-any (asks rid) s.journal c old, new))
      | inr (a, same) ↦ rw same refl
    ]),
    All-map (Unfinished s.journal) (Unfinished (s.journal ++ new_row rid payload ∷ [])) s.running
        (λ x h c e. elim (find_new (asks x) s.journal (new_row rid payload) c e) [
          | inl old ↦ h c old
          | inr (a, same) ↦ rw same refl
        ])
        v.unfinished,
  );
}
  where
    other : (x : String) → any (asks x) s.journal ≡ true → same_id rid x ≡ false
    other x known = elim (Bool-cases (same_id rid x)) [
      | inr f ↦ f
      | inl t ↦
          let same : rid ≡ x = ground (arith, eq_iff rid x) in
          absurd (ground (arith, subst (λ i. any (asks i) s.journal ≡ false) same new, known))
    ]

-- A result that is written changes no other row.
pub find-finish :
    (rid x result : String) (journal : List Cleanup)
    → (x == rid) ≡ false
    → find (asks x) (finish rid result journal) ≡ find (asks x) journal
unfolding find finish update_where
find-finish rid x result [] ne = refl
find-finish rid x result (c ∷ journal) ne = elim (Bool-cases (asks rid c)) [
  | inr f ↦ rw f (
      ap (λ (r : Option Cleanup). if asks x c then some c else r)
        (find-finish rid x result journal ne))
  | inl t ↦
      let skip : (c.request_id == x) ≡ false =
        ground (arith, eq_iff c.request_id rid, eq_iff c.request_id x, eq_iff x rid) in
      rw t (rw skip (find-finish rid x result journal ne))
]

pub find-finish_self :
    (rid result : String) (journal : List Cleanup) {c : Cleanup}
    → find (asks rid) journal ≡ some c
    → find (asks rid) (finish rid result journal) ≡ some (record c { result = some result })
unfolding find finish update_where
find-finish_self rid result [] {c} e = absurd (ground arith)
find-finish_self rid result (x ∷ journal) {c} e = elim (Bool-cases (asks rid x)) [
  | inl t ↦
      let same : x ≡ c = ground arith in
      rw t (rw t (ap (λ (c : Cleanup). some (record c { result = some result })) same))
  | inr f ↦ rw f (rw f (find-finish_self rid result journal {c = c} (ground arith)))
]

All-without :
    (P Q : String → Type 0) (rid : String) (xs : List String)
    → ((x : String) → (x == rid) ≡ false → P x → Q x)
    → All P xs
    → All Q (without rid xs)
unfolding select
All-without P Q rid [] h a = tt
All-without P Q rid (x ∷ xs) h a = elim (Bool-cases (x == rid)) [
  | inl t ↦ rw t (All-without P Q rid xs h a.1)
  | inr f ↦ rw f (h x f a.0, All-without P Q rid xs h a.1)
]

pub complete-Journaled :
    (rid result : String) (s : Files) → Journaled s → Journaled (complete rid result s)
unfolding complete finish
complete-Journaled rid result s v = record {
  once = v.once;
  logged =
      All-map (λ x. any (asks x) s.journal ≡ true) _ s.removals
        (λ x known. any-update_where (asks rid) (asks x) _ s.journal (λ c. refl) ∙ known) v.logged;
  unfinished =
      All-without (Unfinished s.journal) (Unfinished (finish rid result s.journal)) rid s.running
        (λ x ne h c e. h c (sym (find-finish rid x result s.journal ne) ∙ e)) v.unfinished;
}

abandon-Journaled : (rid : String) (s : Files) → Journaled s → Journaled (abandon rid s)
unfolding abandon
abandon-Journaled rid s v = record {
  once = v.once;
  logged = v.logged;
  unfinished = All-without (Unfinished s.journal) _ rid s.running (λ x ne h. h) v.unfinished;
}

-- `start` either writes a new row or leaves all as it is.
pub start-cases :
    (rid payload : String) (s : Files)
    → ((any (asks rid) s.journal ≡ false) × (start rid payload s ≡ done (begun rid payload s)))
      ⊎ (start rid payload s ≡ refused 409 "Cleanup already started")
unfolding start begin
start-cases rid payload s = elim (Bool-cases (any (asks rid) s.journal)) [
  | inl t ↦ inr (rw (t, start) refl)
  | inr f ↦ inl (f, rw (f, start) refl)
]

pub step-Journaled : (e : Event) (s : Files) → Journaled s → Journaled (step e s)
step-Journaled (starts rid payload) s v = elim (start-cases rid payload s) [
  | inl (new, e) ↦ rw e (begun-Journaled rid payload s new v)
  | inr e ↦ rw e v
]
step-Journaled (completes rid result) s v = elim (Bool-cases (any (is_id rid) s.running)) [
  | inl t ↦ rw t (complete-Journaled rid result s v)
  | inr f ↦ rw f v
]
step-Journaled (abandons rid) s v = elim (Bool-cases (any (is_id rid) s.running)) [
  | inl t ↦ rw t (abandon-Journaled rid s v)
  | inr f ↦ rw f v
]

-- In any interleaving of the cleanups, whatever their payloads, and whether their removals end, raise
-- or are stopped: no request has its removal started twice, each start is in the journal, and a
-- removal that is awaited has no result there.
pub run-Journaled : (events : List Event) (s : Files) → Journaled s → Journaled (run events s)
run-Journaled [] s v = v
run-Journaled (e ∷ events) s v = run-Journaled events (step e s) (step-Journaled e s v)
