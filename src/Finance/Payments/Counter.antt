-- ===== src/Finance/Payments/Counter.antt =====
-- Money taken at the counter.
use schapp.Base.{
  ℕ, ◌+◌, ◌≡◌, map, Text, ◌≢◌, refl, ◌∙◌, some, List, ◌∷◌, inl, inr, Bool-cases, Option-cases,
  arith,
}
use schapp.Int.{ℤ}
use schapp.Numbering.{next_number}
use schapp.Finance.Invoicing.{in_year, raise_format}
use schapp.Finance.Payments.{receipt_number_format}
use schapp.Db.{Result}
use schapp.Numbering.{next_number}
use schapp.Finance.Invoicing.{in_year, raise_format}
use schapp.Finance.Payments.{receipt_number_format}
use schapp.Db.Rules.{Result-cases}
use schapp.Finance.Models.{Invoice, Payment, sum_successful}
use schapp.Finance.Books.{
  Books, FinanceError, AuditAction, find_invoice, find_payment, reference_taken, settle,
  record_audit,
}
use schapp.Finance.Sums.{find_invoice_self}
use schapp.Finance.Invariant.{IsValid, KeepsKeys}
use schapp.Finance.Invariant.Settle.{settle-IsValid, record_audit-IsValid}
use schapp.Finance.Payments.{Receipt, assert_payable, counter_payment, record_payment}

abbrev pub with_payment : Payment → Books → Books
with_payment p s = record s { payments = p ∷ s.payments; next_pk = s.next_pk + 1 }

pub with_payment-KeepsKeys :
    (p : Payment) (s : Books) → IsValid s → p.pk ≡ s.next_pk → KeepsKeys s (with_payment p s)
unfolding find_payment
with_payment-KeepsKeys p s v e = record {
  grows = omega arith;
  keys = (rw e ((v.unborn s.next_pk (omega arith)).no_payment), v.distinct);
  free = λ k h. ground (arith, (v.unborn k (omega arith)).no_payment);
}

abbrev pub next_receipt : ℕ → Books → Result FinanceError Text
next_receipt year s = raise_format (
    next_number (map (λ (p : Payment). p.reference) s.payments) receipt_number_format
      (in_year year))

-- A payment for one bill leaves the sums of the others alone.
pub sum-other :
    (b : ℕ) (p : Payment) (ps : List Payment)
    → b ≢ p.invoice
    → sum_successful b (p ∷ ps) ≡ sum_successful b ps
unfolding sum_successful
sum-other b p ps ne = ground arith

-- The writes of `record_payment`, once everything has been checked.
taken_payment-IsValid :
    (p : Payment) (inv : Invoice) (s : Books)
    → IsValid s
    → find_invoice inv.pk s.invoices ≡ some inv
    → p.pk ≡ s.next_pk
    → p.invoice ≡ inv.pk
    → IsValid (record_audit AuditAction.payment_recorded p.pk (settle inv (with_payment p s)).1).1
taken_payment-IsValid p inv s v there key bill =
    record_audit-IsValid AuditAction.payment_recorded p.pk (settle inv (with_payment p s)).1 (
      settle-IsValid s (with_payment p s) inv v there refl refl (with_payment-KeepsKeys p s v key)
        (λ b ne. sum-other b p s.payments (λ e. ne (e ∙ bill))))

-- Whatever it is asked, taking money at the counter keeps every bill in agreement with its lines
-- and payments.
pub record_payment-IsValid :
    (now year pk : ℕ) (amount : ℤ) (receipt : Receipt) (s : Books)
    → IsValid s
    → IsValid (record_payment now year pk amount receipt s).1
unfolding record_payment
record_payment-IsValid now year pk amount receipt s v =
    elim (Option-cases (find_invoice pk s.invoices)) [
      | inl e ↦ rw e v
      | inr (inv, found) ↦ rw found (elim (Result-cases (assert_payable inv amount)) [
        | inl (x, e) ↦ rw e v
        | inr (u, e) ↦ rw e (elim (Result-cases (next_receipt year s)) [
          | inl (x, e) ↦ rw e v
          | inr (ref, e) ↦ rw e (elim (Bool-cases (reference_taken ref s.payments)) [
            | inl e ↦ rw e v
            | inr e ↦ rw e (
                taken_payment-IsValid (counter_payment now inv.pk ref amount receipt s.next_pk) inv
                  s v (find_invoice_self pk inv s.invoices found) refl refl)
          ])
        ])
      ])
    ]
