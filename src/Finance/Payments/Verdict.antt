-- ===== src/Finance/Payments/Verdict.antt =====
-- What a gateway's verdict and a reversal do to the payment and to its bill.
use mathlib.Core.Path.{subst}
use schapp.Base.{
  ℕ, ◌≡◌, refl, sym, ap, ◌∙◌, Bool, true, false, ◌||◌, Option, some, List, [], ◌∷◌, ◌==◌, map_if,
  if◌then◌else◌, arith, Text, text_eq, ==_refl, text_eq_refl,
}
use schapp.Int.{ℤ, pos, ◌+ℤ◌, ◌-ℤ◌, ◌≤ℤ◌, ◌<ℤ◌, ltb_ℤ, int_laws, pos_part, neg_part}
use schapp.Db.{ok}
use schapp.Finance.Models.{
  Invoice, Payment, PaymentStatus, is_success, is_reversed, is_payable, is_closed, status_for,
  recompute_paid, sum_successful, is_open,
}
use schapp.Finance.Books.{
  Books, find_invoice, find_payment, find_reference, gateway_reference_taken, settle,
}
use schapp.Finance.Sums.{
  Distinct, contribution, find_invoice_self, find_invoice-pk, find_reference-find_payment,
  sum_successful-map_if,
}
use schapp.Finance.Invariant.{IsValid}
use schapp.Finance.Invariant.Settle.{found_after, paid_row}
use schapp.Finance.Gateway.{Verification}
use schapp.Finance.Payments.{text_or, text_or_none, is_other_sum, confirm_payment, reverse_payment}
use schapp.Finance.Payments.Online.{with_row, done_of}

-- A write by key, seen by a read through the reference of that very row.
find_reference-map_if :
    (r : Text) (w : Payment → Payment) (p : Payment) (ps : List Payment)
    → Distinct ps
    → text_eq (w p).reference r ≡ true
    → find_reference r ps ≡ some p
    → find_reference r (map_if (λ q. q.pk == p.pk) w ps) ≡ some (w p)
unfolding find_reference
find_reference-map_if r w p [] d keep h = cc
find_reference-map_if r w p (q ∷ qs) d keep h = ground (
  arith,
  find_reference-find_payment r {p = p} qs d.1,
  find_reference-map_if r w p qs d.1 keep,
  ==_refl p.pk,
  d.0,
)

-- A payment that is settled either way is not touched again: every later verdict on its reference
-- answers with it and writes nothing.
pub confirm_payment-final :
    (now : ℕ) (v : Verification) (name : Text) (s : Books) {p : Payment}
    → find_reference v.reference s.payments ≡ some p
    → (is_success p.status || is_reversed p.status) ≡ true
    → confirm_payment now v name s ≡ (ok (some p), s)
unfolding confirm_payment
confirm_payment-final now v name s {p} found final = rw (found, final)

-- A reversal stands: in valid books, once a successful payment whose bill is there has been
-- reversed, a verdict on its reference is answered with the reversed payment and nothing is
-- written.
pub reverse_payment-stands :
    (reason : Text) (now : ℕ) (v : Verification) (name : Text) (s : Books) {p : Payment}
    {inv : Invoice}
    → IsValid s
    → find_reference v.reference s.payments ≡ some p
    → find_invoice p.invoice s.invoices ≡ some inv
    → p.status ≡ PaymentStatus.success
    → let after = (reverse_payment reason p s).1 in
      confirm_payment now v name after
      ≡ (ok (some (record p { status = PaymentStatus.reversed; reversal_reason = reason })), after)
unfolding reverse_payment
reverse_payment-stands reason now v name s {p} {inv} valid found there done =
    let w : Payment → Payment =
      λ row. record row { status = PaymentStatus.reversed; reversal_reason = reason } in
    rw (done, there)
      (confirm_payment-final now v name _ {p = w p}
        (find_reference-map_if v.reference w p s.payments valid.distinct
          (rw (find_reference-find_payment v.reference {p = p} s.payments valid.distinct found).1
            (text_eq_refl v.reference))
          found)
        refl)

-- The bill after `settle`, read by the payment's key of it.
bill_after :
    (k : ℕ) (w : Payment → Payment) (p : Payment) (inv : Invoice) (s : Books)
    → IsValid s
    → find_payment k s.payments ≡ some p
    → find_invoice p.invoice s.invoices ≡ some inv
    → find_invoice p.invoice (settle inv (with_row k w s)).1.invoices
      ≡ some (paid_row (with_row k w s).payments inv inv)
unfolding settle
bill_after k w p inv s v found there =
    subst
      (λ b.
        find_invoice b (settle inv (with_row k w s)).1.invoices
        ≡ some (paid_row (with_row k w s).payments inv inv))
      (find_invoice-pk p.invoice {i = inv} s.invoices there)
      (found_after inv.pk (paid_row (with_row k w s).payments inv) {inv = inv} s.invoices
        (λ _. refl) (find_invoice_self p.invoice inv s.invoices there))

-- A write moves the sum of the payment's bill from what the payment brought to what it brings.
paid_after :
    (k : ℕ) (w : Payment → Payment) (p : Payment) (inv : Invoice) (s : Books)
    → IsValid s
    → find_payment k s.payments ≡ some p
    → find_invoice p.invoice s.invoices ≡ some inv
    → (recompute_paid (with_row k w s).payments inv).amount_paid +ℤ contribution p.invoice p
      ≡ inv.amount_paid +ℤ contribution p.invoice (w p)
unfolding recompute_paid
paid_after k w p inv s v found there =
    let key : inv.pk ≡ p.invoice = find_invoice-pk p.invoice {i = inv} s.invoices there in
    let paid : inv.amount_paid ≡ sum_successful inv.pk s.payments =
      (v.sound p.invoice inv there).paid in
    ap (λ b. sum_successful b (with_row k w s).payments +ℤ contribution p.invoice p) key
    ∙ sum_successful-map_if p.invoice k w {p = p} s.payments v.distinct found
    ∙ ap (λ x. x +ℤ contribution p.invoice (w p))
        (ap (λ b. sum_successful b s.payments) (sym key) ∙ sym paid)

contribution-none : (b : ℕ) (p : Payment) → is_success p.status ≡ false → contribution b p ≡ pos 0
contribution-none b p h = ground arith

contribution-full : (p : Payment) → is_success p.status ≡ true → contribution p.invoice p ≡ p.amount
contribution-full p h = ground arith

+ℤ-zero : (x : ℤ) → x +ℤ pos 0 ≡ x
+ℤ-zero x = omega int_laws

-- The bill of a payment that becomes successful grows by its amount.
gains :
    (w : Payment → Payment) (p : Payment) (inv : Invoice) (s : Books)
    → IsValid s
    → find_payment p.pk s.payments ≡ some p
    → find_invoice p.invoice s.invoices ≡ some inv
    → is_success p.status ≡ false
    → is_success (w p).status ≡ true
    → (w p).invoice ≡ p.invoice
    → (recompute_paid (with_row p.pk w s).payments inv).amount_paid
      ≡ inv.amount_paid +ℤ (w p).amount
gains w p inv s v found there before after bill =
    sym (+ℤ-zero _)
    ∙ ap (λ c. (recompute_paid (with_row p.pk w s).payments inv).amount_paid +ℤ c)
        (sym (contribution-none p.invoice p before))
    ∙ paid_after p.pk w p inv s v found there
    ∙ ap (λ c. inv.amount_paid +ℤ c)
        (subst (λ b. contribution b (w p) ≡ (w p).amount) bill (contribution-full (w p) after))

-- The bill of a successful payment that is taken back shrinks by its amount.
loses :
    (w : Payment → Payment) (p : Payment) (inv : Invoice) (s : Books)
    → IsValid s
    → find_payment p.pk s.payments ≡ some p
    → find_invoice p.invoice s.invoices ≡ some inv
    → is_success p.status ≡ true
    → is_success (w p).status ≡ false
    → (recompute_paid (with_row p.pk w s).payments inv).amount_paid +ℤ p.amount ≡ inv.amount_paid
loses w p inv s v found there before after =
    ap (λ c. (recompute_paid (with_row p.pk w s).payments inv).amount_paid +ℤ c)
      (sym (contribution-full p before))
    ∙ paid_after p.pk w p inv s v found there
    ∙ ap (λ c. inv.amount_paid +ℤ c) (contribution-none p.invoice (w p) after)
    ∙ +ℤ-zero inv.amount_paid

-- What a successful verdict credits: what the gateway says arrived, or, where it names no positive
-- sum, what was asked.
abbrev pub credit : Verification → Payment → ℤ
credit v p = if ltb_ℤ (pos 0) v.amount then v.amount else p.amount

credit_lem :
    (v : Verification) (p : Payment)
    → (if is_other_sum v p then v.amount else p.amount) ≡ credit v p
credit_lem v p = grind int_laws

-- The verdict's gateway reference is on another payment of that gateway.
abbrev pub is_claimed : Verification → Text → Payment → Books → Bool
is_claimed v name p s =
    gateway_reference_taken p.pk (text_or p.gateway name) (text_or_none v.gateway_reference)
      s.payments

-- In valid books, a successful verdict of at most the sum asked, on a payment that is neither
-- successful nor reversed and whose bill is there, with a gateway reference that no other payment
-- of the gateway has, is answered with the payment as a success for the sum that arrived (for the
-- sum asked, where the verdict names no positive one), which is at most what was asked, and the
-- bill's paid amount grows by exactly that sum.
pub confirm_payment-credits :
    (now : ℕ) (v : Verification) (name : Text) (s : Books) {p : Payment} {inv : Invoice}
    → IsValid s
    → find_reference v.reference s.payments ≡ some p
    → (is_success p.status || is_reversed p.status) ≡ false
    → v.is_ok ≡ true
    → v.amount ≤ℤ p.amount
    → is_claimed v name p s ≡ false
    → find_invoice p.invoice s.invoices ≡ some inv
    → let r = confirm_payment now v name s in
      (r.0 ≡ ok (some (done_of now v name p)))
      × ((done_of now v name p).amount ≡ credit v p)
      × (credit v p ≤ℤ p.amount)
      × ((after : Invoice) × (find_invoice p.invoice r.1.invoices ≡ some after)
          × (after.amount_paid ≡ inv.amount_paid +ℤ credit v p))
unfolding confirm_payment
confirm_payment-credits now v name s {p} {inv} valid found undecided is_ok small free there =
    let row : find_payment p.pk s.payments ≡ some p =
      (find_reference-find_payment v.reference {p = p} s.payments valid.distinct found).0 in
    let q : Payment = done_of now v name p in
    let within : ltb_ℤ p.amount v.amount ≡ false = ground arith in
    let worth : q.amount ≡ credit v p = credit_lem v p in
    rw (found, undecided, is_ok, within, free, there)
      (
        refl,
        worth,
        ground arith,
        (
          paid_row (with_row p.pk (λ _. q) s).payments inv inv,
          bill_after p.pk (λ _. q) p inv s valid row there,
          gains (λ _. q) p inv s valid row there (ground arith) refl refl
              ∙ ap (λ c. inv.amount_paid +ℤ c) worth,
        ),
      )

open_status :
    (paid total : ℤ) (issued : Option ℕ)
    → paid <ℤ total
    → is_open (status_for paid total issued) ≡ true
unfolding status_for
open_status paid total issued h = ground arith

short :
    (paid total amount old : ℤ)
    → paid +ℤ amount ≡ old
    → pos 0 <ℤ amount
    → old ≤ℤ total
    → paid <ℤ total
short paid total amount old e lo hi = omega (int_laws, ap pos_part e, ap neg_part e)

owing : (paid total : ℤ) → paid <ℤ total → ltb_ℤ (pos 0) (total -ℤ paid) ≡ true
owing paid total h = grind int_laws

payable_again :
    (ps : List Payment) (inv : Invoice) (amount : ℤ)
    → (recompute_paid ps inv).amount_paid +ℤ amount ≡ inv.amount_paid
    → is_closed inv.status ≡ false
    → pos 0 <ℤ amount
    → inv.amount_paid ≤ℤ inv.total
    → is_payable (paid_row ps inv inv) ≡ true
unfolding is_payable recompute_paid
payable_again ps inv amount e unclosed lo hi =
    let less = short (sum_successful inv.pk ps) inv.total amount inv.amount_paid e lo hi in
    rw (unclosed, open_status (sum_successful inv.pk ps) inv.total inv.issued_at less)
      (owing (sum_successful inv.pk ps) inv.total less)

-- In valid books, reversing a successful payment whose bill is there marks it as reversed and takes
-- its amount off the bill; where the bill was not closed nor overpaid and the amount is positive,
-- the bill is payable again.
pub reverse_payment-reopens :
    (reason : Text) (s : Books) {p : Payment} {inv : Invoice}
    → IsValid s
    → find_payment p.pk s.payments ≡ some p
    → find_invoice p.invoice s.invoices ≡ some inv
    → p.status ≡ PaymentStatus.success
    → let r = reverse_payment reason p s in
      (r.0 ≡ ok (record p { status = PaymentStatus.reversed; reversal_reason = reason }))
      × ((after : Invoice) × (find_invoice p.invoice r.1.invoices ≡ some after)
          × (after.amount_paid +ℤ p.amount ≡ inv.amount_paid)
          × (is_closed inv.status ≡ false
              → pos 0 <ℤ p.amount
              → inv.amount_paid ≤ℤ inv.total
              → is_payable after ≡ true))
unfolding reverse_payment
reverse_payment-reopens reason s {p} {inv} valid row there done =
    let w : Payment → Payment =
      λ row. record row { status = PaymentStatus.reversed; reversal_reason = reason } in
    let less = loses w p inv s valid row there (ground arith) refl in
    rw (done, there)
      (
        refl,
        (
          paid_row (with_row p.pk w s).payments inv inv,
          bill_after p.pk w p inv s valid row there,
          less,
          λ unclosed positive within.
              payable_again (with_row p.pk w s).payments inv p.amount less unclosed positive within,
        ),
      )
