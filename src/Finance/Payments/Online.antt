-- ===== src/Finance/Payments/Online.antt =====
-- A gateway's verdict and a bursar's reversal keep the invariant.
use schapp.Db.{tenant_atomic}
use schapp.Base.{
  ℕ, ◌≡◌, ◌≢◌, refl, sym, ◌∙◌, Bool, false, ◌||◌, some, ◌==◌, map_if, inl, inr, Bool-cases,
  Option-cases, arith, Text, take,
}
use schapp.Int.{ltb_ℤ}
use schapp.Finance.Models.{Invoice, Payment, PaymentStatus, Note, is_success, is_reversed}
use schapp.Finance.Books.{
  Books, AuditAction, find_invoice, find_payment, find_reference, gateway_reference_taken, settle,
  record_audit,
}
use schapp.Finance.Sums.{
  contribution, find_invoice_self, find_reference-find_payment, sum_successful-same,
  find_invoice-pk,
}
use schapp.Finance.Invariant.{IsValid}
use schapp.Finance.Invariant.Settle.{
  settle-IsValid, record_audit-IsValid, payments-KeepsKeys, uncounted-IsValid,
}
use schapp.Finance.Gateway.{Verification}
use schapp.Finance.Payments.{
  stamped, credited, text_or, apply_verdict, confirm_payment, reverse_payment, text_or_none,
}

abbrev pub with_row : ℕ → (Payment → Payment) → Books → Books
with_row k w s = record s { payments = map_if (λ q. q.pk == k) w s.payments }

-- What settling a payment's own bill needs: the write keeps the key, and counts for no other bill.
pub settled_row-IsValid :
    (k : ℕ) (w : Payment → Payment) (p : Payment) (inv : Invoice) (a : AuditAction) (s : Books)
    → IsValid s
    → find_payment k s.payments ≡ some p
    → find_invoice p.invoice s.invoices ≡ some inv
    → ((q : Payment) → q.pk ≡ k → (w q).pk ≡ k)
    → ((b : ℕ) → b ≢ p.invoice → contribution b (w p) ≡ contribution b p)
    → IsValid (record_audit a k (settle inv (with_row k w s)).1).1
settled_row-IsValid k w p inv a s v found there keep other =
    record_audit-IsValid a k (settle inv (with_row k w s)).1 (
      settle-IsValid s (with_row k w s) inv v (find_invoice_self p.invoice inv s.invoices there)
        refl refl (payments-KeepsKeys k w s v keep)
        (λ b ne.
          sum_successful-same b k w p s.payments v.distinct found
            (other b (λ e. ne (e ∙ sym (find_invoice-pk p.invoice {i = inv} s.invoices there))))))

-- The object that each branch of `apply_verdict` saves.
abbrev pub failed_of : Verification → Text → Payment → Payment
failed_of v name p = record (stamped v name p) {
  status = PaymentStatus.failed;
  note = Note.text (take 255 (text_or v.error v.status));
}

abbrev pub held_of : Verification → Text → Payment → Payment
held_of v name p = record (stamped v name p) { note = Note.reported p.amount v.amount }

abbrev pub done_of : ℕ → Verification → Text → Payment → Payment
done_of now v name p = record (credited v (stamped v name p)) {
  status = PaymentStatus.success;
  paid_at = some now;
}

uncounted :
    (b : ℕ) (p q : Payment)
    → is_success p.status ≡ false
    → is_success q.status ≡ false
    → contribution b q ≡ contribution b p
uncounted b p q hp hq = ground arith

uncounted_other :
    (b : ℕ) (p q : Payment)
    → is_success p.status ≡ false
    → q.invoice ≡ p.invoice
    → b ≢ p.invoice
    → contribution b q ≡ contribution b p
uncounted_other b p q hp e ne = ground arith

-- A saved object whose bill is not moved by it.
plain_row-IsValid :
    (p q : Payment) (s : Books)
    → IsValid s
    → find_payment p.pk s.payments ≡ some p
    → q.pk ≡ p.pk
    → is_success p.status ≡ false
    → is_success q.status ≡ false
    → IsValid (with_row p.pk (λ _. q) s)
plain_row-IsValid p q s v found key hp hq =
    uncounted-IsValid p.pk (λ _. q) p s v found (λ _ _. key) (λ b. uncounted b p q hp hq)

credited_row-IsValid :
    (p q : Payment) (inv : Invoice) (s : Books)
    → IsValid s
    → find_payment p.pk s.payments ≡ some p
    → find_invoice p.invoice s.invoices ≡ some inv
    → q.pk ≡ p.pk
    → q.invoice ≡ p.invoice
    → is_success p.status ≡ false
    → IsValid
        (record_audit AuditAction.payment_confirmed p.pk
          (settle inv (with_row p.pk (λ _. q) s)).1).1
credited_row-IsValid p q inv s v found there key bill hp =
    settled_row-IsValid p.pk (λ _. q) p inv AuditAction.payment_confirmed s v found there
      (λ _ _. key) (λ b ne. uncounted_other b p q hp bill ne)

abbrev pub taken : Verification → Text → Payment → Books → Bool
taken v name p s =
    gateway_reference_taken p.pk (text_or p.gateway name) (text_or_none v.gateway_reference)
      s.payments

apply_verdict-IsValid :
    (now : ℕ) (v : Verification) (name : Text) (p : Payment) (s : Books)
    → IsValid s
    → find_payment p.pk s.payments ≡ some p
    → is_success p.status ≡ false
    → IsValid (tenant_atomic (apply_verdict now v name p) s).1
unfolding apply_verdict
apply_verdict-IsValid now v name p s valid found hp = elim (Bool-cases v.is_ok) [
  | inr e ↦ rw e (elim (Bool-cases (taken v name p s)) [
    | inl e ↦ rw e valid
    | inr e ↦ rw e (plain_row-IsValid p (failed_of v name p) s valid found refl hp refl)
  ])
  | inl e ↦ rw e (elim (Bool-cases (ltb_ℤ p.amount v.amount)) [
    | inl e ↦ rw e (elim (Bool-cases (taken v name p s)) [
      | inl e ↦ rw e valid
      | inr e ↦ rw e (plain_row-IsValid p (held_of v name p) s valid found refl hp hp)
    ])
    | inr e ↦ rw e (elim (Bool-cases (taken v name p s)) [
      | inl e ↦ rw e valid
      | inr e ↦ rw e (elim (Option-cases (find_invoice p.invoice s.invoices)) [
        | inl e ↦ rw e valid
        | inr (inv, there) ↦
            rw there
              (credited_row-IsValid p (done_of now v name p) inv s valid found there refl refl hp)
      ])
    ])
  ])
]

-- The verdict on a payment keeps the invariant, or ends in an error and a rollback.
pub confirm_payment-IsValid :
    (now : ℕ) (v : Verification) (name : Text) (s : Books)
    → IsValid s
    → IsValid (confirm_payment now v name s).1
unfolding confirm_payment
confirm_payment-IsValid now v name s valid =
    elim (Option-cases (find_reference v.reference s.payments)) [
      | inl e ↦ rw e valid
      | inr (p, found) ↦ rw found (elim (Bool-cases (is_success p.status || is_reversed p.status)) [
        | inl e ↦ rw e valid
        | inr e ↦ rw e (
            apply_verdict-IsValid now v name p s valid
              (find_reference-find_payment v.reference {p = p} s.payments valid.distinct found).0
              (ground arith))
      ])
    ]

-- A reversal keeps the invariant: the bill is settled again without the payment.
pub reverse_payment-IsValid :
    (reason : Text) (p : Payment) (s : Books)
    → IsValid s
    → find_payment p.pk s.payments ≡ some p
    → IsValid (reverse_payment reason p s).1
unfolding reverse_payment
reverse_payment-IsValid reason p s v found = elim (Bool-cases (is_success p.status)) [
  | inr e ↦ rw e v
  | inl e ↦ rw e (elim (Option-cases (find_invoice p.invoice s.invoices)) [
    | inl e ↦ rw e v
    | inr (inv, there) ↦ rw there (
        settled_row-IsValid p.pk
          (λ row. record row { status = PaymentStatus.reversed; reversal_reason = reason }) p inv
          AuditAction.payment_reversed s v found there (λ _ h. h) (λ b ne. ground arith))
  ])
]
