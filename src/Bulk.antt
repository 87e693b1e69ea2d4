-- ===== src/Bulk.antt =====
-- apps/api/bulk.py: a batch of rows in one transaction, each row with its own outcome.
--
-- A handler adds to the outcome as it goes; here it takes the outcome and returns it. Row errors
-- carry a code of the component; their messages are not modelled.
use schapp.Base.{ℕ, ◌+◌, Bool, true, false, List, [], ◌∷◌, ◌++◌}
use schapp.Db.{Action, Result, ok, err}

pub record RowError (C : Type 0) : Type 0 where
  pub index : ℕ
  pub identifier : ℕ
  pub code : C

pub record BulkOutcome (C : Type 0) : Type 0 where
  pub created : ℕ
  pub updated : ℕ
  pub deleted : ℕ
  pub errors : List (RowError C)

module _ {C : Type 0} where
  abbrev pub start : BulkOutcome C
  start = record { created = 0; updated = 0; deleted = 0; errors = [] }

  -- `outcome.errors.append(RowError(…))`
  abbrev pub add_error : ℕ → ℕ → C → BulkOutcome C → BulkOutcome C
  add_error i who code o = record o {
    errors = o.errors ++ record { index = i; identifier = who; code = code } ∷ [];
  }

  abbrev pub count_created : BulkOutcome C → BulkOutcome C
  count_created o = record o { created = o.created + 1 }

  abbrev pub count_updated : BulkOutcome C → BulkOutcome C
  count_updated o = record o { updated = o.updated + 1 }

  abbrev pub count_deleted : BulkOutcome C → BulkOutcome C
  count_deleted o = record o { deleted = o.deleted + 1 }

  abbrev pub is_empty : List (RowError C) → Bool
  is_empty [] = true
  is_empty (_ ∷ _) = false

  -- `outcome.ok`
  abbrev pub is_ok : BulkOutcome C → Bool
  is_ok o = is_empty o.errors

  -- The status of `as_response`.
  unfoldable pub status_code : BulkOutcome C → ℕ
  status_code o = elim (o.errors) [ [] ↦ 200 | _ ∷ _ ↦ 422 ]

  -- The end of the transaction: `_Rollback` where a row failed, and the counters set back.
  abbrev pub close_batch :
      {S E : Type 0} → S → Result E (BulkOutcome C) → S → Result E (BulkOutcome C) × S
  close_batch before (err e) after = (err e, before)
  close_batch before (ok o) after = elim (o.errors) [
    | [] ↦ (ok o, after)
    | _ ∷ _ ↦ (ok (record o { created = 0; updated = 0; deleted = 0 }), before)
  ]

  unfoldable pub atomic_bulk :
      {S E : Type 0} → (BulkOutcome C → Action S E (BulkOutcome C)) → Action S E (BulkOutcome C)
  atomic_bulk handler s = close_batch s (handler start s).0 (handler start s).1
