-- ===== src/Finance/Payments/Outcome.antt =====
-- What taking, confirming and reversing money does to the bill and to the payment.
use mathlib.Core.Path.{subst}
use schapp.Base.{
  ℕ, ◌≡◌, refl, ap, ◌∙◌, true, false, some, ◌∷◌, ◌==◌, map_if, if◌then◌else◌, arith, Text,
}
use schapp.Int.{ℤ, pos, ◌+ℤ◌, ◌≤ℤ◌, ◌<ℤ◌, eqb_ℤ, int_laws}
use schapp.Db.{ok}
use schapp.Finance.Models.{
  Invoice, Payment, InvoiceStatus, PaymentStatus, is_payable, balance, status_for, recompute_paid,
  sum_successful, is_closed,
}
use schapp.Finance.Books.{Books, find_invoice, reference_taken}
use schapp.Finance.Sums.{find_invoice_self, find_invoice-pk}
use schapp.Finance.Invariant.{IsValid, IsSound}
use schapp.Finance.Invariant.Settle.{found_after, paid_row}
use schapp.Finance.Payments.{Receipt, record_payment, assert_payable, counter_payment}
use schapp.Finance.Payments.Counter.{next_receipt}

-- The row that the bill `inv` becomes when `p` is the new successful payment.
abbrev pub paid_by : ℤ → Invoice → Invoice
paid_by amount inv = record inv {
  amount_paid = inv.amount_paid +ℤ amount;
  status = if eqb_ℤ amount (balance inv) then InvoiceStatus.paid else InvoiceStatus.part_paid;
}

assert_payable-ok :
    (inv : Invoice) (amount : ℤ)
    → is_payable inv ≡ true
    → pos 0 <ℤ amount
    → amount ≤ℤ balance inv
    → assert_payable inv amount ≡ ok tt
unfolding assert_payable
assert_payable-ok inv amount payable lo hi = ground arith

status_after :
    (inv : Invoice) (amount : ℤ)
    → is_payable inv ≡ true
    → pos 0 ≤ℤ inv.amount_paid
    → pos 0 <ℤ amount
    → amount ≤ℤ balance inv
    → status_for (inv.amount_paid +ℤ amount) inv.total inv.issued_at ≡ (paid_by amount inv).status
unfolding status_for balance
status_after inv amount payable nonneg lo hi = grind int_laws

+ℤ_comm : (a b : ℤ) → a +ℤ b ≡ b +ℤ a
+ℤ_comm a b = omega int_laws

not_closed : (inv : Invoice) → is_payable inv ≡ true → is_closed inv.status ≡ false
unfolding is_payable
not_closed inv h = ground arith

sum_with :
    (p : Payment) (inv : Invoice) (s : Books)
    → IsSound s inv
    → p.invoice ≡ inv.pk
    → p.status ≡ PaymentStatus.success
    → sum_successful inv.pk (p ∷ s.payments) ≡ inv.amount_paid +ℤ p.amount
unfolding sum_successful
sum_with p inv s sound bill done = ground (arith, +ℤ_comm p.amount inv.amount_paid, sound.paid)

recompute_paid-eq-paid_by :
    (p : Payment) (inv : Invoice) (s : Books)
    → IsSound s inv
    → p.invoice ≡ inv.pk
    → p.status ≡ PaymentStatus.success
    → is_payable inv ≡ true
    → pos 0 ≤ℤ inv.amount_paid
    → pos 0 <ℤ p.amount
    → p.amount ≤ℤ balance inv
    → recompute_paid (p ∷ s.payments) inv ≡ paid_by p.amount inv
unfolding recompute_paid
recompute_paid-eq-paid_by p inv s sound bill done payable nonneg lo hi =
    rw (sum_with p inv s sound bill done)
      (rw (not_closed inv payable) (rw (status_after inv p.amount payable nonneg lo hi)))

fits : (inv : Invoice) (amount : ℤ) → amount ≤ℤ balance inv → inv.amount_paid +ℤ amount ≤ℤ inv.total
unfolding balance
fits inv amount hi = omega int_laws

settled_row :
    (pk : ℕ) (q : Payment) (inv : Invoice) (s : Books)
    → IsValid s
    → find_invoice pk s.invoices ≡ some inv
    → q.invoice ≡ inv.pk
    → q.status ≡ PaymentStatus.success
    → is_payable inv ≡ true
    → pos 0 ≤ℤ inv.amount_paid
    → pos 0 <ℤ q.amount
    → q.amount ≤ℤ balance inv
    → find_invoice pk (map_if (λ i. i.pk == inv.pk) (paid_row (q ∷ s.payments) inv) s.invoices)
      ≡ some (paid_by q.amount inv)
settled_row pk q inv s v found bill done payable nonneg lo hi =
    subst
      (λ k.
        find_invoice k (map_if (λ i. i.pk == inv.pk) (paid_row (q ∷ s.payments) inv) s.invoices)
        ≡ some (paid_by q.amount inv))
      (find_invoice-pk pk {i = inv} s.invoices found)
      (found_after inv.pk (paid_row (q ∷ s.payments) inv) {inv = inv} s.invoices (λ _. refl)
          (find_invoice_self pk inv s.invoices found)
        ∙ ap (λ (x : Invoice). some (record inv { amount_paid = x.amount_paid; status = x.status }))
            (recompute_paid-eq-paid_by q inv s (v.sound pk inv found) bill done payable nonneg lo
              hi))

-- In valid books, where a bill is payable and its paid amount is not negative, the sum is positive
-- and at most the balance, and the next receipt number can be made and is free, the sum is taken: a
-- successful payment with that number is added, the bill's paid amount grows by the sum, the bill
-- is PAID if the sum is the balance and PART_PAID if not, and it is not overpaid.
pub record_payment-pays :
    (now year pk : ℕ) (amount : ℤ) (receipt : Receipt) (s : Books) {inv : Invoice} {ref : Text}
    → IsValid s
    → find_invoice pk s.invoices ≡ some inv
    → is_payable inv ≡ true
    → pos 0 ≤ℤ inv.amount_paid
    → pos 0 <ℤ amount
    → amount ≤ℤ balance inv
    → next_receipt year s ≡ ok ref
    → reference_taken ref s.payments ≡ false
    → let p = counter_payment now pk ref amount receipt s.next_pk in
      let r = record_payment now year pk amount receipt s in
      (r.0 ≡ ok p)
      × (r.1.payments ≡ p ∷ s.payments)
      × (find_invoice pk r.1.invoices ≡ some (paid_by amount inv))
      × (inv.amount_paid +ℤ amount ≤ℤ inv.total)
unfolding record_payment
record_payment-pays now year pk amount receipt s {inv} {ref} v found payable nonneg lo hi next
      free =
    let key : inv.pk ≡ pk = find_invoice-pk pk {i = inv} s.invoices found in
    rw (found, assert_payable-ok inv amount payable lo hi, next, free)
      (
        ap (λ k. ok (counter_payment now k ref amount receipt s.next_pk)) key,
        ap (λ k. counter_payment now k ref amount receipt s.next_pk ∷ s.payments) key,
        settled_row pk (counter_payment now inv.pk ref amount receipt s.next_pk) inv s v found refl
            refl payable nonneg lo hi,
        fits inv amount hi,
      )
