-- ===== src/Db.antt =====
-- Service functions as actions on a tenant's database: state, and an exception that leaves the
-- state as the writes before it made it. `tenant_atomic` (apps/tenants/db.py) is the transaction
-- that takes those writes back.
pub mod Rules
use schapp.Base.{Bool, true, false, Option, none, some, ◌≡◌, arith}

pub data Result {ℓ κ} (E : Type ℓ) (A : Type κ) : Type (ℓ ⊔ κ) where
  ok : A → Result E A
  err : E → Result E A

abbrev pub Action : Type 0 → Type 0 → Type 0 → Type 0
Action S E A = S → Result E A × S

abbrev pub option_result : {E A : Type 0} → Option A → E → Result E A
option_result none e = err e
option_result (some a) e = ok a

module _ {S E A : Type 0} where
  abbrev pub pure : A → Action S E A
  pure a s = (ok a, s)

  abbrev pub raise : E → Action S E A
  raise e s = (err e, s)

  abbrev pub gets : (S → A) → Action S E A
  gets f s = (ok (f s), s)

  abbrev pub lift : Result E A → Action S E A
  lift r s = (r, s)

  abbrev pub or_raise : Option A → E → Action S E A
  or_raise o e s = (option_result o e, s)

  -- What a transaction leaves behind, by how its body ended.
  abbrev pub commit_or_rollback : S → Result E A → S → Result E A × S
  commit_or_rollback before (ok a) after = (ok a, after)
  commit_or_rollback before (err e) after = (err e, before)

  abbrev pub tenant_atomic : Action S E A → Action S E A
  tenant_atomic m s = commit_or_rollback s (m s).0 (m s).1

infixl 5 ◌>>=◌ ◌>>◌
abbrev pub continue : {S E A B : Type 0} → Result E A → S → (A → Result E B × S) → Result E B × S
continue (ok a) s k = k a
continue (err e) s k = (err e, s)

abbrev pub ◌>>=◌ : {S E A B : Type 0} → Action S E A → (A → Action S E B) → Action S E B
◌>>=◌ m f s = continue (m s).0 (m s).1 (λ a. f a (m s).1)

abbrev pub ◌>>◌ : {S E B : Type 0} → Action S E (Unit {0}) → Action S E B → Action S E B
m >> k = m >>= λ _. k

abbrev pub modify : {S E : Type 0} → (S → S) → Action S E (Unit {0})
modify f s = (ok tt, f s)

abbrev pub raise_if_outcome : {E : Type 0} → Bool → E → Result E (Unit {0})
raise_if_outcome true e = err e
raise_if_outcome false e = ok tt

abbrev pub raise_if : {S E : Type 0} → Bool → E → Action S E (Unit {0})
raise_if b e s = (raise_if_outcome b e, s)

-- A transaction that raises leaves the database as it was.
pub tenant_atomic_rollback :
    {S E A : Type 0} (m : Action S E A) (s : S) {e : E}
    → (tenant_atomic m s).0 ≡ err e
    → (tenant_atomic m s).1 ≡ s
tenant_atomic_rollback m s h = ground arith
