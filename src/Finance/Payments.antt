-- ===== src/Finance/Payments.antt =====
-- apps/finance/services.py, the half that takes money: the counter, online checkouts and their
-- confirmation, reversal, and the sweep over unconfirmed checkouts.
pub mod Counter
pub mod Verdict
pub mod Outcome
pub mod Sweep
pub mod Abandoned
pub mod Online
use schapp.Base.{
  ℕ, ◌+◌, ◌*◌, Bool, ◌&&◌, ◌||◌, not, Option, none, some, List, [], ◌∷◌, map, map_if, select,
  length, ltb, Text, codes, take, if◌then◌else◌,
}
use schapp.Int.{ℤ, pos, ltb_ℤ, leb_ℤ, eqb_ℤ}
use schapp.Db.{
  pure, raise, gets, lift, or_raise, raise_if, tenant_atomic, ◌>>=◌, ◌>>◌, Result, ok, err,
}
use schapp.Numbering.{Format, literal, placeholder, yy, serial, next_number}
use schapp.Finance.Models.{
  Invoice, Payment, PaymentMethod, PaymentStatus, Note, is_payable, balance, is_success,
  is_reversed, is_pending, is_online,
}
use schapp.Finance.Books.{
  Books, Finance, FinanceError, AuditAction, get_invoice, find_reference, save_payment,
  gateway_reference_taken, create_payment, record_audit, settle,
}
use schapp.Finance.Gateway.{Verification, Charge, GetGateway}
use schapp.Finance.Invoicing.{in_year, raise_format}

abbrev pub receipt_number_format : Format
receipt_number_format =
    literal (codes "RCT/") ∷ placeholder yy ∷ literal (codes "/") ∷ placeholder serial ∷ []

unfoldable pub receipt_number : ℕ → Finance Text
receipt_number year s = (
  raise_format (
      next_number (map (λ (p : Payment). p.reference) s.payments) receipt_number_format
        (in_year year)),
  s,
)

unfoldable pub assert_payable : Invoice → ℤ → Result FinanceError (Unit {0})
unfolding is_payable
assert_payable invoice amount =
    if not (is_payable invoice)
    then err FinanceError.invoice_not_payable
    else if leb_ℤ amount (pos 0) || ltb_ℤ (balance invoice) amount
    then err FinanceError.payment_amount_invalid
    else ok tt

pub record Receipt : Type 0 where
  pub method : PaymentMethod
  pub payer_name : Text
  pub payer_phone : Text
  pub note : Text
  pub recorded_by : Option ℕ

abbrev pub counter_payment : ℕ → ℕ → Text → ℤ → Receipt → ℕ → Payment
counter_payment now invoice reference amount r pk = record {
  pk = pk;
  invoice = invoice;
  reference = reference;
  amount = amount;
  method = r.method;
  status = PaymentStatus.success;
  gateway = [];
  gateway_reference = none;
  paid_at = some now;
  recorded_by = r.recorded_by;
  payer_name = r.payer_name;
  payer_phone = r.payer_phone;
  note = Note.text r.note;
  reversal_reason = [];
  raw = none;
  created_at = now;
}

unfoldable pub record_payment : ℕ → ℕ → ℕ → ℤ → Receipt → Finance Payment
unfolding get_invoice receipt_number create_payment settle record_audit
record_payment now year pk amount receipt = tenant_atomic do
  invoice ← get_invoice pk
  lift (assert_payable invoice amount)
  reference ← receipt_number year
  payment ← create_payment (counter_payment now invoice.pk reference amount receipt)
  settle invoice
  record_audit AuditAction.payment_recorded payment.pk
  pure payment

abbrev pub checkout_payment : ℕ → ℕ → Text → ℤ → Text → Text → ℕ → Payment
checkout_payment now invoice reference amount gateway phone pk = record {
  pk = pk;
  invoice = invoice;
  reference = reference;
  amount = amount;
  method = PaymentMethod.online;
  status = PaymentStatus.pending;
  gateway = gateway;
  gateway_reference = none;
  paid_at = none;
  recorded_by = none;
  payer_name = [];
  payer_phone = phone;
  note = Note.text [];
  reversal_reason = [];
  raw = none;
  created_at = now;
}

abbrev pub amount_or_balance : Option ℤ → Invoice → ℤ
amount_or_balance none invoice = balance invoice
amount_or_balance (some a) invoice = a

-- `invoice` is the caller's object: it is neither locked nor read again.
unfoldable pub start_online_payment :
    GetGateway → ℕ → ℕ → Invoice → Text → Option ℤ → Text → Finance (Payment × Charge)
unfolding receipt_number create_payment save_payment
start_online_payment get_gateway now year invoice gateway_name amount phone = tenant_atomic do
  let asked = amount_or_balance amount invoice
  lift (assert_payable invoice asked)
  gateway ← or_raise (get_gateway gateway_name) FinanceError.gateway_not_configured
  reference ← receipt_number year
  payment ← create_payment (checkout_payment now invoice.pk reference asked gateway.name phone)
  let charge = gateway.initialize reference asked
  if charge.is_ok then pure (payment, charge) else do
    save_payment payment.pk (λ row. record row {
      status = PaymentStatus.failed;
      note = Note.text (take 255 charge.error);
    })
    raise FinanceError.gateway_unavailable

-- `a or b` on a text column
abbrev pub text_or : Text → Text → Text
text_or [] b = b
text_or (c ∷ cs) b = c ∷ cs

-- `verification.gateway_reference or None`
abbrev pub text_or_none : Text → Option Text
text_or_none [] = none
text_or_none (c ∷ cs) = some (c ∷ cs)

-- The object once the verdict's gateway, reference and body are on it.
abbrev pub stamped : Verification → Text → Payment → Payment
stamped v gateway_name p = record p {
  gateway = text_or p.gateway gateway_name;
  gateway_reference = text_or_none v.gateway_reference;
  raw = some v.raw;
}

-- `payment.save(…)` where the gateway's reference is among the columns.
unfoldable pub save_verdict : Payment → Finance (Unit {0})
unfolding save_payment
save_verdict p = do
  taken ← gets (λ s. gateway_reference_taken p.pk p.gateway p.gateway_reference s.payments)
  raise_if taken FinanceError.integrity_error
  save_payment p.pk (λ _. p)

-- The amount and note of a confirmed payment: what arrived, where that is some other sum.
abbrev pub is_other_sum : Verification → Payment → Bool
is_other_sum v p = ltb_ℤ (pos 0) v.amount && not (eqb_ℤ v.amount p.amount)

abbrev pub credited : Verification → Payment → Payment
credited v p = record p {
  note = if is_other_sum v p then Note.settled p.amount v.amount else p.note;
  amount = if is_other_sum v p then v.amount else p.amount;
}

-- The rest of `confirm_payment`, for a payment that is neither successful nor reversed.
unfoldable pub apply_verdict : ℕ → Verification → Text → Payment → Finance (Option Payment)
unfolding save_verdict get_invoice settle record_audit
apply_verdict now v gateway_name found =
    let payment = stamped v gateway_name found in
    if not v.is_ok
    then (do
      let failed = record payment {
        status = PaymentStatus.failed;
        note = Note.text (take 255 (text_or v.error v.status));
      }
      save_verdict failed
      pure (some failed))
    else if ltb_ℤ payment.amount v.amount
    then (do
      let held = record payment { note = Note.reported payment.amount v.amount }
      save_verdict held
      pure (some held))
    else do
      let done = record (credited v payment) { status = PaymentStatus.success; paid_at = some now }
      save_verdict done
      invoice ← get_invoice done.invoice
      settle invoice
      record_audit AuditAction.payment_confirmed done.pk
      pure (some done)

unfoldable pub confirm_found : ℕ → Verification → Text → Option Payment → Finance (Option Payment)
unfolding apply_verdict
confirm_found now v gateway_name none = pure none
confirm_found now v gateway_name (some payment) =
    if is_success payment.status || is_reversed payment.status
    then pure (some payment)
    else apply_verdict now v gateway_name payment

unfoldable pub confirm_payment : ℕ → Verification → Text → Finance (Option Payment)
unfolding confirm_found
confirm_payment now v gateway_name = tenant_atomic do
  found ← gets (λ s. find_reference v.reference s.payments)
  confirm_found now v gateway_name found

abbrev pub or_payment : Option Payment → Payment → Payment
or_payment none p = p
or_payment (some q) p = q

-- Not a transaction of its own: `confirm_payment` is.
unfoldable pub verify_payment : GetGateway → ℕ → Payment → Finance Payment
unfolding confirm_payment
verify_payment get_gateway now payment = do
  gateway ←
      or_raise (get_gateway (text_or payment.gateway (codes "manual")))
        FinanceError.gateway_not_configured
  confirmed ← confirm_payment now (gateway.verify payment.reference) gateway.name
  pure (or_payment confirmed payment)

unfoldable pub reverse_payment : Text → Payment → Finance Payment
unfolding save_payment get_invoice settle record_audit
reverse_payment reason payment = tenant_atomic do
  raise_if (not (is_success payment.status)) FinanceError.not_reversible
  let fresh = record payment { status = PaymentStatus.reversed; reversal_reason = reason }
  save_payment payment.pk
      (λ row. record row { status = fresh.status; reversal_reason = fresh.reversal_reason })
  invoice ← get_invoice payment.invoice
  settle invoice
  record_audit AuditAction.payment_reversed payment.pk
  pure fresh

-- ---- The sweep ----

pub record SweepReport : Type 0 where
  pub checked : ℕ
  pub settled : ℕ
  pub abandoned : ℕ

abbrev pub abandon_after_days : ℕ
abandon_after_days = 2

-- `created_at < now - age`
abbrev pub is_older : ℕ → ℕ → Payment → Bool
is_older now age p = ltb (p.created_at + age) now

abbrev pub is_open_checkout : Payment → Bool
is_open_checkout p = is_pending p.status && is_online p.method

abbrev pub is_abandoned : ℕ → ℕ → Payment → Bool
is_abandoned now days p = is_open_checkout p && is_older now (days * 86400) p

abbrev pub is_due : ℕ → ℕ → ℕ → Payment → Bool
is_due now minutes days p =
    is_open_checkout p && is_older now (minutes * 60) p && not (is_older now (days * 86400) p)

abbrev pub abandon : ℕ → Payment → Payment
abandon days p = record p { status = PaymentStatus.failed; note = Note.abandoned days }

-- `except Exception`: what one payment raises ends only its own turn.
abbrev pub count_settled : Result FinanceError Payment → ℕ → ℕ
count_settled (err e) n = n
count_settled (ok p) n = if is_success p.status then n + 1 else n

unfoldable pub verify_each : GetGateway → ℕ → List Payment → ℕ → Books → ℕ × Books
verify_each get_gateway now [] settled s = (settled, s)
verify_each get_gateway now (p ∷ ps) settled s =
    verify_each get_gateway now ps (count_settled (verify_payment get_gateway now p s).0 settled)
      (verify_payment get_gateway now p s).1

unfoldable pub sweep_pending : GetGateway → ℕ → ℕ → ℕ → Books → SweepReport × Books
unfolding verify_each
sweep_pending get_gateway now minutes days s =
    let swept = record s { payments = map_if (is_abandoned now days) (abandon days) s.payments } in
    let due = select (is_due now minutes days) swept.payments in
    let r = verify_each get_gateway now due 0 swept in
    (
      record {
        checked = length due;
        settled = r.0;
        abandoned = length (select (is_abandoned now days) s.payments);
      },
      r.1,
    )
