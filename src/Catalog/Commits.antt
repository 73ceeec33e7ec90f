-- ===== src/Catalog/Commits.antt =====
-- The releases of catalog_service/main.py: which commits go through, and what they leave.
use opencode_cloud.Prelude.{
  ℕ, suc, String, Bool, true, false, ◌==◌, Option, none, some, List, ◌≡◌, refl, sym, ap, inl, inr,
  arith, lookup, put, lookup-put, All-lookup, Option-cases,
}
use opencode_cloud.Catalog.Documents.{
  Config, Agent, Subject, gateway, agent, Release, Data, Table, opened, number_eq,
}
use opencode_cloud.Catalog.Replies.{ok, fail, ◌>>=◌, bind-ok, ok_inj}
use opencode_cloud.Catalog.Releases.{apply_release, applied_gateway, applied_agent, mark, commit}
use opencode_cloud.Catalog.Calls.{Outside, History}
use opencode_cloud.Catalog.Numbering.{count_of, NumberedRelease}
use opencode_cloud.Catalog.Numbering.Histories.{History-Numbered, opened-Numbered}

-- Two releases of the gateway, or of one agent.
abbrev pub same_target : Subject → Subject → Bool
same_target (gateway m c) (gateway m' c') = true
same_target (agent t c p f) (agent t' c' p' f') = t == t'
same_target _ _ = false

-- What a commit of a release that is not committed does.
pub committed_now :
    (rid : String) (now : ℕ) (d d' : Data) (value : Release) (n : ℕ)
    → lookup rid d.releases ≡ some value
    → value.committed ≡ false
    → commit rid now d ≡ ok (n, d')
    → (d1 : Data) × (apply_release value value.subject now d ≡ ok d1)
      × (mark rid value d1 ≡ d')
      × (value.version ≡ n)
unfolding commit
committed_now rid now d d' value n present open_yet e =
    let later : (apply_release value value.subject now d >>= λ d1.
    ok (value.version, mark rid value d1))
        ≡ ok (n, d') =
      ground arith in
    let (d1, applied, last) = bind-ok (apply_release value value.subject now d) _ _ later in
    let both : ◌≡◌ {A = ℕ × Data} (value.version, mark rid value d1) (n, d') = ok_inj last in
    (d1, applied, ap (λ (p : ℕ × Data). p.1) both, ap (λ (p : ℕ × Data). p.0) both)

pub commit_committed :
    (rid : String) (now : ℕ) (d : Data) (value : Release)
    → lookup rid d.releases ≡ some value
    → value.committed ≡ true
    → commit rid now d ≡ ok (value.version, d)
unfolding commit
commit_committed rid now d value present e = ground arith

commit_refused :
    (rid : String) (now : ℕ) (d : Data) (value : Release) (status : ℕ) (detail : String)
    → lookup rid d.releases ≡ some value
    → value.committed ≡ false
    → apply_release value value.subject now d ≡ fail status detail
    → commit rid now d ≡ fail status detail
unfolding commit
commit_refused rid now d value status detail present e refused = ground arith

-- A version that is one later than the old one is another.
later_version :
    (n : ℕ) (old other : Option ℕ)
    → n ≡ suc (count_of old)
    → number_eq old other ≡ true
    → number_eq (some n) other ≡ false
later_version n none none e h = refl
later_version n (some a) (some b) e h = ground arith
later_version n none (some b) e h = absurd (ground arith)
later_version n (some a) none e h = absurd (ground arith)

-- The releases are those before.
pub applied-releases :
    (value : Release) (s : Subject) (now : ℕ) (d d1 : Data)
    → apply_release value s now d ≡ ok d1
    → d1.releases ≡ d.releases
applied-releases value (gateway models configuration) now d d1 e =
    let same : applied_gateway value models now d ≡ d1 = ok_inj (ground arith) in
    sym (ap (λ (x : Data). x.releases) same)
applied-releases value (agent target cfg path files) now d d1 e =
    elim (Option-cases (lookup target d.agents)) [
      | inl absent ↦ absurd (ground arith)
      | inr (a, present) ↦
          let after : Data = record d {
            agents = put target (applied_agent value cfg path now a) d.agents;
          } in
          let same : after ≡ d1 = ok_inj (ground arith) in sym (ap (λ (x : Data). x.releases) same)
    ]

outdated_agent :
    (other : Release) (t : String) (c : Config) (p : String) (f : List (String × String)) (now : ℕ)
    (d : Data) (a : Agent)
    → lookup t d.agents ≡ some a
    → number_eq a.active other.old_active ≡ false
    → apply_release other (agent t c p f) now d ≡ fail 409 "Applied version changed"
outdated_agent other t c p f now d a present e = ground arith

-- A release that was prepared on the same active version is then refused.
outdated_release :
    (value other : Release) (s s' : Subject) (now now' : ℕ) (d d1 : Data) (rid : String)
    → apply_release value s now d ≡ ok d1
    → same_target s s' ≡ true
    → number_eq (some value.version) other.old_active ≡ false
    → apply_release other s' now' (mark rid value d1) ≡ fail 409 "Applied version changed"
outdated_release value other (gateway m c) (gateway m' c') now now' d d1 rid e same later =
    let equal : applied_gateway value m now d ≡ d1 = ok_inj (ground arith) in
    rw (← equal) (rw later refl)
outdated_release value other (agent t c p f) (agent t' c' p' f') now now' d d1 rid e same later =
    elim (Option-cases (lookup t d.agents)) [
      | inl absent ↦ absurd (ground arith)
      | inr (a, present) ↦
          let after : Data = record d { agents = put t (applied_agent value c p now a) d.agents } in
          let equal : after ≡ d1 = ok_inj (ground arith) in
          let found : lookup t' (put t (applied_agent value c p now a) d.agents)
              ≡ some (applied_agent value c p now a) =
            rw (lookup-put t t' _ d.agents) (rw same refl) in
          rw (← equal) (outdated_agent other t' c' p' f' now' (mark rid value after) _ found later)
    ]
outdated_release value other (gateway m c) (agent t' c' p' f') now now' d d1 rid e same later =
    absurd (ground arith)
outdated_release value other (agent t c p f) (gateway m' c') now now' d d1 rid e same later =
    absurd (ground arith)

-- Two releases for one target that were prepared on the same active version, at any point of a
-- history that begins with a new catalog and its example templates: when the one is committed, the
-- commit of the other that follows at once is refused with 409, whatever was committed before.
-- A history has new identifiers from uuid4, and orders of models for the target "*".
pub commit_outdated :
    (o : Outside) (code data_text : String) (t : Table)
    → History o (opened code data_text) t
    → (rid rid' : String) (value other : Release) (now now' n : ℕ) (d' : Data)
    → lookup rid t.document.releases ≡ some value
    → lookup rid' t.document.releases ≡ some other
    → (rid == rid') ≡ false
    → value.committed ≡ false
    → other.committed ≡ false
    → same_target value.subject other.subject ≡ true
    → number_eq value.old_active other.old_active ≡ true
    → commit rid now t.document ≡ ok (n, d')
    → commit rid' now' d' ≡ fail 409 "Applied version changed"
commit_outdated o code data_text t h rid rid' value other now now' n d' here there apart fresh
      fresh' same old e =
    let v = History-Numbered o (opened code data_text) t h (opened-Numbered o code data_text) in
    let (d1, applied, marked, number) = committed_now rid now t.document d' value n here fresh e in
    let numbered = All-lookup NumberedRelease rid value t.document.releases v.releases here in
    let kept : lookup rid' (mark rid value d1).releases ≡ some other =
      rw (lookup-put rid rid' _ d1.releases)
        (rw apart (rw (applied-releases value value.subject now t.document d1 applied) there)) in
    let refused =
      outdated_release value other value.subject other.subject now now' t.document d1 rid applied
        same (later_version value.version value.old_active other.old_active numbered old) in
    rw (← marked) (
      commit_refused rid' now' (mark rid value d1) other 409 "Applied version changed" kept fresh'
        refused)
