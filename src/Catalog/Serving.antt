-- ===== src/Catalog/Serving.antt =====
-- The active version that catalog_service/main.py hands out.
use opencode_cloud.Prelude.{
  ℕ, zero, suc, String, some, List, [], ◌∷◌, ◌≡◌, ◌≤◌, ◌<◌, ◌+◌, refl, sym, ◌∙◌, inl, inr, arith,
  eqb, find, length, lookup, All-lookup, Bool-cases,
}
use opencode_cloud.Catalog.Documents.{Agent, AgentVersion, Table, opened, version_of}
use opencode_cloud.Catalog.Replies.{ok}
use opencode_cloud.Catalog.Releases.{active_bundle}
use opencode_cloud.Catalog.Calls.{Outside, History}
use opencode_cloud.Catalog.Numbering.{Counted, latest, NumberedAgent}
use opencode_cloud.Catalog.Numbering.Histories.{History-Numbered, opened-Numbered}

-- Every number from `k` on, as many as there are rows, is found.
version_found :
    (k n : ℕ) (versions : List AgentVersion)
    → Counted (λ (v : AgentVersion). v.version) k versions
    → k ≤ n
    → n < k + length versions
    → (v : AgentVersion) × (version_of n versions ≡ some v) × (v.version ≡ n)
unfolding find
version_found k n [] h low high = absurd (omega arith)
version_found k n (v ∷ versions) h low high = elim (Bool-cases (eqb v.version n)) [
  | inl t ↦ (v, rw t refl, ground arith)
  | inr f ↦
      let later : suc k ≤ n = ground (arith, h.0) in
      let (w, found, same) = version_found (suc k) n versions h.1 later (omega arith) in
      (w, rw f found, same)
]

latest-some : (n m : ℕ) → latest n ≡ some m → (n ≡ m) × (1 ≤ m)
latest-some zero m e = absurd (ground arith)
latest-some (suc n) m e = (ground arith, ground arith)

served :
    (aid : String) (t : Table) (a : Agent) (n : ℕ) (v : AgentVersion)
    → lookup aid t.document.agents ≡ some a
    → a.active ≡ some n
    → version_of n a.versions ≡ some v
    → active_bundle aid t.document ≡ ok v
unfolding active_bundle
served aid t a n v present active found = ground arith

-- In every history that begins with a new catalog and its example templates, an agent that has an
-- active version is served that version: the search for it never comes back empty.
-- A history has new identifiers from uuid4, and orders of models for the target "*".
pub active_bundle_served :
    (o : Outside) (code data_text : String) (t : Table)
    → History o (opened code data_text) t
    → (aid : String) (a : Agent) (n : ℕ) → lookup aid t.document.agents ≡ some a
    → a.active ≡ some n
    → (v : AgentVersion) × (active_bundle aid t.document ≡ ok v) × (v.version ≡ n)
active_bundle_served o code data_text t h aid a n present active =
    let v = History-Numbered o (opened code data_text) t h (opened-Numbered o code data_text) in
    let (counted, last) = All-lookup NumberedAgent aid a t.document.agents v.agents present in
    let (count, positive) = latest-some (length a.versions) n (sym last ∙ active) in
    let (w, found, same) = version_found 1 n a.versions counted positive (omega (arith, count)) in
    (w, served aid t a n w present active found, same)
