-- ===== src/Catalog/Replies.antt =====
-- The replies of catalog_service: a value, an HTTPException raised by `fail`, or another exception.
use opencode_cloud.Prelude.{ℕ, String, Bool, true, false, ◌≡◌, refl, ap, arith, if◌then◌else◌}

pub data Reply {ℓ} (A : Type ℓ) : Type ℓ where
  ok : A → Reply A
  fail : ℕ → String → Reply A
  crash : Reply A

-- What a call replies that has nothing to say.
pub data Done : Type 0 where
  done : Done

infixl 5 ◌>>=◌
abbrev pub ◌>>=◌ {ℓ κ} : {A : Type ℓ} {B : Type κ} → Reply A → (A → Reply B) → Reply B
ok a >>= k = k a
fail status detail >>= k = fail status detail
crash >>= k = crash

-- The value of a reply that is not an exception.
abbrev pub Ok {ℓ} : {A : Type ℓ} → Reply A → Type ℓ
Ok {A = A} r = (a : A) × (r ≡ ok a)

pub bind-ok {ℓ κ} :
    {A : Type ℓ} {B : Type κ} (r : Reply A) (k : A → Reply B) (b : B)
    → (r >>= k) ≡ ok b
    → (a : A) × (r ≡ ok a) × (k a ≡ ok b)
bind-ok (ok a) k b e = (a, refl, e)
bind-ok (fail status detail) k b e = absurd (ground arith)
bind-ok crash k b e = absurd (ground arith)

-- A guard that lets the call go on.
pub guard-ok {ℓ} :
    {A : Type ℓ} (test : Bool) (status : ℕ) (detail : String) (r : Reply A) (a : A)
    → (if test then fail status detail else r) ≡ ok a
    → (test ≡ false) × (r ≡ ok a)
guard-ok true status detail r a e = absurd (ground arith)
guard-ok false status detail r a e = (refl, e)

pub ok_inj {ℓ} : {A : Type ℓ} {a b : A} → ok a ≡ ok b → a ≡ b
ok_inj {A = A} {a = a} e = ap value e
  where
    value : Reply A → A
    value (ok x) = x
    value _ = a

pub only_done : (x : Done) → x ≡ done
only_done done = refl
