-- ===== src/Finance/Books.antt =====
-- The finance tables of one school's database, and the reads and writes of its services.
--
-- A write with `update_fields` replaces those columns of the row with the object's key, so an
-- object that went stale writes nothing else. `audit` is the trail of apps/audit/services.py.
use schapp.Base.{
  ℕ, ◌+◌, Bool, false, ◌&&◌, not, Option, none, some, List, ◌∷◌, any, find, map_if, Text, text_eq,
  ◌==◌,
}
use schapp.Db.{Action, pure, gets, or_raise, modify, raise_if, ◌>>=◌, ◌>>◌}
use schapp.Finance.Models.{Invoice, InvoiceLine, Payment, recompute_paid}

pub data FinanceError : Type 0 where
  invoice_not_payable payment_amount_invalid nothing_to_bill invoice_not_adjustable : FinanceError
  adjustment_below_paid invoice_has_payments gateway_unavailable : FinanceError
  gateway_not_configured not_reversible does_not_exist integrity_error number_format : FinanceError

pub data AuditAction : Type 0 where
  fee_changed invoice_issued invoice_adjusted invoice_waived invoice_cancelled : AuditAction
  payment_recorded payment_confirmed payment_reversed : AuditAction

pub record Books : Type 0 where
  pub invoices : List Invoice
  pub lines : List InvoiceLine
  pub payments : List Payment
  pub audit : List (AuditAction × ℕ)
  pub next_pk : ℕ

abbrev pub Finance : Type 0 → Type 0
Finance A = Action Books FinanceError A

unfoldable pub find_invoice : ℕ → List Invoice → Option Invoice
find_invoice pk = find (λ i. i.pk == pk)

unfoldable pub find_payment : ℕ → List Payment → Option Payment
find_payment pk = find (λ p. p.pk == pk)

unfoldable pub find_reference : Text → List Payment → Option Payment
find_reference ref = find (λ p. text_eq p.reference ref)

-- `Invoice.objects.select_for_update().get(pk=pk)`
unfoldable pub get_invoice : ℕ → Finance Invoice
get_invoice pk s = or_raise (find_invoice pk s.invoices) does_not_exist s

-- `invoice.save(update_fields=…)`; `write` copies the fields.
unfoldable pub save_invoice : ℕ → (Invoice → Invoice) → Finance Unit
save_invoice pk write =
    modify λ s. record s { invoices = map_if (λ i. i.pk == pk) write s.invoices }

-- `payment.save(update_fields=…)` of columns that no constraint names
unfoldable pub save_payment : ℕ → (Payment → Payment) → Finance Unit
save_payment pk write =
    modify λ s. record s { payments = map_if (λ p. p.pk == pk) write s.payments }

unfoldable pub record_audit : AuditAction → ℕ → Finance Unit
record_audit action object = modify λ s. record s { audit = (action, object) ∷ s.audit }

-- `unique=True` on `reference`
unfoldable pub reference_taken : Text → List Payment → Bool
reference_taken ref = any (λ p. text_eq p.reference ref)

abbrev pub same_gateway_reference : Text → Option Text → Payment → Bool
same_gateway_reference gateway none p = false
same_gateway_reference gateway (some ref) p = elim (p.gateway_reference) [
  | none ↦ false
  | some other ↦ text_eq p.gateway gateway && text_eq other ref
]

-- `one_payment_per_gateway_reference`, among the other rows
unfoldable pub gateway_reference_taken : ℕ → Text → Option Text → List Payment → Bool
gateway_reference_taken pk gateway ref =
    any (λ p. not (p.pk == pk) && same_gateway_reference gateway ref p)

-- `Payment.objects.create(…)`: a new row, refused by the constraint on `reference`. No caller
-- creates a row with a gateway reference.
unfoldable pub create_payment : (ℕ → Payment) → Finance Payment
create_payment build = do
  p ← gets (λ s. build s.next_pk)
  taken ← gets (λ s. reference_taken p.reference s.payments)
  raise_if taken integrity_error
  modify (λ s. record s { payments = p ∷ s.payments; next_pk = s.next_pk + 1 })
  pure p

-- `invoice.recompute_paid(); invoice.save(update_fields=["amount_paid", "status", …])`
unfoldable pub settle : Invoice → Finance (Unit {0})
unfolding save_invoice
settle invoice = do
  payments ← gets (λ s. s.payments)
  let fresh = recompute_paid payments invoice
  save_invoice invoice.pk
      (λ row. record row { amount_paid = fresh.amount_paid; status = fresh.status })
