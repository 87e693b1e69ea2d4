-- ===== src/Tests/Finance.antt =====
-- One bill of 100 with an online checkout of 60 pending against it.
use schapp.Finance.Payments.Abandoned.{IsSwept, sweep_pending-IsSwept}
use schapp.Numbering.Decimal.{show_padded}
use mathlib.Core.Path.{subst}
use schapp.Base.{
  ℕ, ◌≡◌, refl, sym, ◌∙◌, true, false, none, some, [], ◌∷◌, ◌==◌, codes, inl, inr, Bool-cases,
  arith, Text,
}
use schapp.Int.{ℤ, pos, ◌+ℤ◌, ◌≤ℤ◌, ◌<ℤ◌, ◌-ℤ◌}
use schapp.Db.{ok}
use schapp.Numbering.{next_number, value_of, fill}
use schapp.Finance.Models.{
  FeeCategory, InvoiceStatus, PaymentMethod, PaymentStatus, Note, Invoice, InvoiceLine, Payment,
  sum_lines, sum_successful, status_for, is_payable, balance, is_closed, recompute_paid,
}
use schapp.Finance.Books.{
  Books, find_invoice, find_payment, find_reference, reference_taken, gateway_reference_taken,
}
use schapp.Finance.Gateway.{Verification, GetGateway}
use schapp.Finance.Invariant.{IsValid, IsSound}
use schapp.Finance.Invariant.Settle.{some-inj}
use schapp.Finance.Steps.{Run, Step, Run-IsValid}
use schapp.Finance.Payments.{
  Receipt, record_payment, confirm_payment, reverse_payment, counter_payment, sweep_pending,
}
use schapp.Finance.Payments.Counter.{next_receipt}
use schapp.Finance.Payments.Outcome.{record_payment-pays, paid_by}
use schapp.Finance.Payments.Verdict.{
  confirm_payment-credits, reverse_payment-stands, reverse_payment-reopens, credit, is_claimed,
}
use schapp.Finance.Payments.Online.{done_of, confirm_payment-IsValid}

abbrev bill : Invoice
bill = record {
  pk = 1;
  number = codes "INV/26/0001";
  student = 7;
  session = 1;
  term = none;
  structure = none;
  status = InvoiceStatus.issued;
  subtotal = pos 100;
  discount = pos 0;
  total = pos 100;
  amount_paid = pos 0;
  issued_at = some 5;
  due_date = none;
  note = Note.text [];
  waiver_reason = [];
  deleted_at = none;
}

abbrev tuition : InvoiceLine
tuition = record {
  invoice = 1;
  description = codes "Tuition";
  category = FeeCategory.tuition;
  amount = pos 100;
  fee_item = none;
}

abbrev checkout : Payment
checkout = record {
  pk = 2;
  invoice = 1;
  reference = codes "R";
  amount = pos 60;
  method = PaymentMethod.online;
  status = PaymentStatus.pending;
  gateway = codes "paystack";
  gateway_reference = none;
  paid_at = none;
  recorded_by = none;
  payer_name = [];
  payer_phone = [];
  note = Note.text [];
  reversal_reason = [];
  raw = none;
  created_at = 6;
}

abbrev books : Books
books = record {
  invoices = bill ∷ [];
  lines = tuition ∷ [];
  payments = checkout ∷ [];
  audit = [];
  next_pk = 3;
}

books-IsSound : IsSound books bill
unfolding sum_lines sum_successful status_for ◌+ℤ◌ ◌-ℤ◌
books-IsSound = record { paid = refl; priced = refl; totalled = refl; followed = λ h. refl }

only_bill : (k : ℕ) (i : Invoice) → find_invoice k books.invoices ≡ some i → bill ≡ i
unfolding find_invoice
only_bill k i h = elim (Bool-cases (1 == k)) [
  | inl e ↦ some-inj (sym (rw e refl) ∙ h)
  | inr e ↦ let nothing : none ≡ some i = sym (rw e refl) ∙ h in cc
]

books-IsValid : IsValid books
unfolding find_invoice find_payment sum_lines sum_successful
books-IsValid = record {
  sound = λ k i h. subst (IsSound books) (only_bill k i h) books-IsSound;
  distinct = (refl, tt);
  unborn = λ k h. record {
    no_invoice = ground arith;
    no_payment = ground arith;
    no_money = ground arith;
    no_lines = ground arith;
  };
}

abbrev no_gateways : GetGateway
no_gateways name = none

abbrev cash : Receipt
cash = record {
  method = PaymentMethod.cash;
  payer_name = [];
  payer_phone = [];
  note = [];
  recorded_by = none;
}

abbrev verdict : ℤ → Verification
verdict amount = record {
  is_ok = true;
  reference = codes "R";
  gateway_reference = codes "G";
  amount = amount;
  status = codes "success";
  error = [];
  raw = [];
}

abbrev credited : Books
credited = (confirm_payment 9 (verdict (pos 50)) (codes "paystack") books).1

Run-IsValid_example : IsValid credited
Run-IsValid_example =
    Run-IsValid no_gateways books credited
      (Run.step books credited credited (Step.hears 9 (verdict (pos 50)) (codes "paystack"))
        (Run.stop credited))
      books-IsValid

found_bill : find_invoice 1 books.invoices ≡ some bill
unfolding find_invoice
found_bill = refl

bill_payable : is_payable bill ≡ true
unfolding is_payable balance ◌-ℤ◌
bill_payable = refl

enough : pos 60 ≤ℤ balance bill
unfolding balance ◌-ℤ◌
enough = omega arith

abbrev first_receipt : Text
first_receipt = codes "RCT/26/0001"

next_is_first : next_receipt 2026 books ≡ ok first_receipt
unfolding next_number value_of show_padded fill
next_is_first = refl

first_is_free : reference_taken first_receipt books.payments ≡ false
unfolding reference_taken
first_is_free = refl

record_payment-pays_example :
    let p = counter_payment 9 1 first_receipt (pos 60) cash 3 in
    let r = record_payment 9 2026 1 (pos 60) cash books in
    (r.0 ≡ ok p)
    × (r.1.payments ≡ p ∷ books.payments)
    × (find_invoice 1 r.1.invoices ≡ some (paid_by (pos 60) bill))
    × (pos 0 +ℤ pos 60 ≤ℤ pos 100)
record_payment-pays_example =
    record_payment-pays 9 2026 1 (pos 60) cash books {inv = bill} {ref = first_receipt}
      books-IsValid found_bill bill_payable (omega arith) (omega arith) enough next_is_first
      first_is_free

found_checkout : find_reference (codes "R") books.payments ≡ some checkout
unfolding find_reference
found_checkout = refl

unclaimed : (amount : ℤ) → is_claimed (verdict amount) (codes "paystack") checkout books ≡ false
unfolding gateway_reference_taken
unclaimed amount = refl

confirm_payment-credits_example :
    let v = verdict (pos 50) in
    let r = confirm_payment 9 v (codes "paystack") books in
    (r.0 ≡ ok (some (done_of 9 v (codes "paystack") checkout)))
    × ((done_of 9 v (codes "paystack") checkout).amount ≡ credit v checkout)
    × (credit v checkout ≤ℤ pos 60)
    × ((after : Invoice) × (find_invoice 1 r.1.invoices ≡ some after)
        × (after.amount_paid ≡ pos 0 +ℤ credit v checkout))
confirm_payment-credits_example =
    confirm_payment-credits 9 (verdict (pos 50)) (codes "paystack") books {p = checkout}
      {inv = bill} books-IsValid found_checkout refl refl (omega arith) (unclaimed (pos 50))
      found_bill

-- The checkout once 50 of it have arrived.
abbrev settled_checkout : Payment
settled_checkout = done_of 9 (verdict (pos 50)) (codes "paystack") checkout

credited-IsValid : IsValid credited
credited-IsValid =
    confirm_payment-IsValid 9 (verdict (pos 50)) (codes "paystack") books books-IsValid

credited_row : find_payment 2 credited.payments ≡ some settled_checkout
unfolding find_payment confirm_payment find_reference gateway_reference_taken find_invoice
credited_row = refl

abbrev part_paid_bill : Invoice
part_paid_bill = record bill { amount_paid = pos 50; status = InvoiceStatus.part_paid }

credited_bill : find_invoice 1 credited.invoices ≡ some part_paid_bill
unfolding confirm_payment find_reference gateway_reference_taken find_invoice sum_successful
    status_for ◌+ℤ◌ recompute_paid
credited_bill = refl

credited_reference : find_reference (codes "R") credited.payments ≡ some settled_checkout
unfolding confirm_payment find_reference gateway_reference_taken find_invoice
credited_reference = refl

reverse_payment-stands_example :
    let after = (reverse_payment (codes "bounced") settled_checkout credited).1 in
    confirm_payment 11 (verdict (pos 50)) (codes "paystack") after ≡ (
      ok (
          some (record settled_checkout {
            status = PaymentStatus.reversed;
            reversal_reason = codes "bounced";
          })),
      after,
    )
reverse_payment-stands_example =
    reverse_payment-stands (codes "bounced") 11 (verdict (pos 50)) (codes "paystack") credited
      {p = settled_checkout} {inv = part_paid_bill} credited-IsValid credited_reference
      credited_bill refl

reverse_payment-reopens_example :
    let r = reverse_payment (codes "bounced") settled_checkout credited in
    (r.0
      ≡ ok (record settled_checkout {
        status = PaymentStatus.reversed;
        reversal_reason = codes "bounced";
      }))
    × ((after : Invoice) × (find_invoice 1 r.1.invoices ≡ some after)
        × (after.amount_paid +ℤ pos 50 ≡ pos 50)
        × (is_closed part_paid_bill.status ≡ false
            → pos 0 <ℤ pos 50
            → pos 50 ≤ℤ pos 100
            → is_payable after ≡ true))
reverse_payment-reopens_example =
    reverse_payment-reopens (codes "bounced") credited {p = settled_checkout} {inv = part_paid_bill}
      credited-IsValid credited_row credited_bill refl

sweep_pending-IsSwept_example :
    IsSwept 200000 2 (sweep_pending no_gateways 200000 20 2 books).1.payments
sweep_pending-IsSwept_example = sweep_pending-IsSwept no_gateways 200000 20 2 books
