-- ===== src/Db/Rules.antt =====
-- Splits on how an action ended.
use schapp.Base.{◌≡◌, ◌⊎◌, inl, inr, refl}
use schapp.Db.{Result, ok, err}

pub Result-cases :
    {E A : Type 0} (r : Result E A) → ((e : E) × (r ≡ err e)) ⊎ ((a : A) × (r ≡ ok a))
Result-cases (err e) = inl (e, refl)
Result-cases (ok a) = inr (a, refl)
