-- ===== src/Operations/LoadTests/Rows.antt =====
-- The agents and the runs of the rows that operations/src/load_test_store.py writes for the users.
use Prim.Native.String.{◌++◌ as append}
use opencode_cloud.Prelude.{
  ℕ, suc, zero, ◌+◌, String, false, List, [], ◌∷◌, ◌≡◌, ◌==◌, refl, arith, any, All, All-append,
}
use opencode_cloud.Operations.LoadTables.{LoadUser}
use opencode_cloud.Operations.LoadTests.{agent_rows, user_rows}
use opencode_cloud.Operations.LoadTests.Requests.{LoadAgent, names_agent}

pub agent_rows-other :
    (hex s : String) (a : LoadAgent) (n index : ℕ)
    → (a.agent_id == s) ≡ false
    → All (λ (u : LoadUser). (u.agent_id == s) ≡ false) (agent_rows hex a n index)
agent_rows-other hex s a zero index e = tt
agent_rows-other hex s a (suc n) index e = (e, agent_rows-other hex s a n (suc index) e)

pub user_rows-other :
    (hex s : String) (agents : List LoadAgent) (index : ℕ)
    → any (names_agent s) agents ≡ false
    → All (λ (u : LoadUser). (u.agent_id == s) ≡ false) (user_rows hex agents index)
unfolding any
user_rows-other hex s [] index e = tt
user_rows-other hex s (a ∷ rest) index e =
    All-append _ (agent_rows hex a a.users index) _
      (agent_rows-other hex s a a.users index (ground arith))
      (user_rows-other hex s rest (index + a.users) (ground arith))

pub agent_rows-run :
    (P : LoadUser → Type 0) (hex : String) (a : LoadAgent) (n index : ℕ)
    → ((u : LoadUser) → u.run_id ≡ append "lt_" hex → P u)
    → All P (agent_rows hex a n index)
agent_rows-run P hex a zero index h = tt
agent_rows-run P hex a (suc n) index h = (h _ refl, agent_rows-run P hex a n (suc index) h)

pub user_rows-run :
    (P : LoadUser → Type 0) (hex : String) (agents : List LoadAgent) (index : ℕ)
    → ((u : LoadUser) → u.run_id ≡ append "lt_" hex → P u)
    → All P (user_rows hex agents index)
user_rows-run P hex [] index h = tt
user_rows-run P hex (a ∷ rest) index h =
    All-append P (agent_rows hex a a.users index) _ (agent_rows-run P hex a a.users index h)
      (user_rows-run P hex rest (index + a.users) h)
