-- ===== src/Finance/Steps.antt =====
-- The services of apps/finance/services.py as the steps of one school's books. Billing a class and
-- editing a price list are not among them.
use schapp.Base.{ℕ, ◌≡◌, Option, some, List, Text}
use schapp.Int.{ℤ}
use schapp.Finance.Models.{Invoice, InvoiceLine, Payment}
use schapp.Finance.Books.{Books, find_invoice, find_payment}
use schapp.Finance.Gateway.{GetGateway, Verification}
use schapp.Finance.Invariant.{IsValid}
use schapp.Finance.Invoicing.{
  issue_invoice, waive_invoice, cancel_invoice, adjust_invoice, update_discount,
}
use schapp.Finance.Invoicing.Valid.{
  issue_invoice-IsValid, waive_invoice-IsValid, cancel_invoice-IsValid, adjust_invoice-IsValid,
  update_discount-IsValid,
}
use schapp.Finance.Payments.{
  Receipt, record_payment, start_online_payment, confirm_payment, verify_payment, reverse_payment,
  sweep_pending,
}
use schapp.Finance.Payments.Counter.{record_payment-IsValid}
use schapp.Finance.Payments.Online.{confirm_payment-IsValid, reverse_payment-IsValid}
use schapp.Finance.Payments.Sweep.{
  start_online_payment-IsValid, verify_payment-IsValid, sweep_pending-IsValid,
}

-- One call of a service; a bill or a payment that a caller hands over has been read from the books.
pub data Step (gateways : GetGateway) (s : Books) : Books → Type 0 where
  issues :
      (now today : ℕ) (inv : Invoice)
      → find_invoice inv.pk s.invoices ≡ some inv
      → Step gateways s (issue_invoice now today inv s).1
  waives :
      (reason : Text) (inv : Invoice)
      → find_invoice inv.pk s.invoices ≡ some inv
      → Step gateways s (waive_invoice reason inv s).1
  cancels :
      (reason : Text) (inv : Invoice)
      → find_invoice inv.pk s.invoices ≡ some inv
      → Step gateways s (cancel_invoice reason inv s).1
  adjusts :
      (pk : ℕ) (lines : List InvoiceLine) (discount : Option ℤ)
      → Step gateways s (adjust_invoice pk lines discount s).1
  discounts :
      (discount : ℤ) (inv : Invoice)
      → find_invoice inv.pk s.invoices ≡ some inv
      → Step gateways s (update_discount discount inv s).1
  records :
      (now year pk : ℕ) (amount : ℤ) (receipt : Receipt)
      → Step gateways s (record_payment now year pk amount receipt s).1
  checks_out :
      (now year : ℕ) (invoice : Invoice) (name : Text) (amount : Option ℤ) (phone : Text)
      → Step gateways s (start_online_payment gateways now year invoice name amount phone s).1
  hears :
      (now : ℕ) (v : Verification) (name : Text) → Step gateways s (confirm_payment now v name s).1
  verifies : (now : ℕ) (p : Payment) → Step gateways s (verify_payment gateways now p s).1
  reverses :
      (reason : Text) (p : Payment)
      → find_payment p.pk s.payments ≡ some p
      → Step gateways s (reverse_payment reason p s).1
  sweeps : (now minutes days : ℕ) → Step gateways s (sweep_pending gateways now minutes days s).1

-- Any number of calls, one after the other.
pub data Run (gateways : GetGateway) : Books → Books → Type 0 where
  stop : (s : Books) → Run gateways s s
  step : (s t u : Books) → Step gateways s t → Run gateways t u → Run gateways s u

Step-IsValid : (gateways : GetGateway) (s t : Books) → Step gateways s t → IsValid s → IsValid t
Step-IsValid g s _ (issues now today inv h) v = issue_invoice-IsValid now today inv s v h
Step-IsValid g s _ (waives reason inv h) v = waive_invoice-IsValid reason inv s v h
Step-IsValid g s _ (cancels reason inv h) v = cancel_invoice-IsValid reason inv s v h
Step-IsValid g s _ (adjusts pk lines discount) v = adjust_invoice-IsValid pk lines discount s v
Step-IsValid g s _ (discounts discount inv h) v = update_discount-IsValid discount inv s v h
Step-IsValid g s _ (records now year pk amount receipt) v =
    record_payment-IsValid now year pk amount receipt s v
Step-IsValid g s _ (checks_out now year invoice name amount phone) v =
    start_online_payment-IsValid g now year invoice name amount phone s v
Step-IsValid g s _ (hears now verdict name) v = confirm_payment-IsValid now verdict name s v
Step-IsValid g s _ (verifies now p) v = verify_payment-IsValid g now p s v
Step-IsValid g s _ (reverses reason p h) v = reverse_payment-IsValid reason p s v h
Step-IsValid g s _ (sweeps now minutes days) v = sweep_pending-IsValid g now minutes days s v

-- However the services of `Step` are called one after the other, whatever the gateways answer and
-- whatever a webhook reports, books that start sound stay sound: each bill's paid amount is the sum
-- of its successful payments, its subtotal that of its lines, its total the subtotal less the
-- discount and never below 0, and a bill that is neither waived nor cancelled has the status that
-- these figures give.
pub Run-IsValid : (gateways : GetGateway) (s t : Books) → Run gateways s t → IsValid s → IsValid t
Run-IsValid g s _ (stop _) v = v
Run-IsValid g s u (step _ t _ one rest) v = Run-IsValid g t u rest (Step-IsValid g s t one v)
