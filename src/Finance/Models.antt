-- ===== src/Finance/Models.antt =====
-- apps/finance/models.py: the rows of the finance tables, and the methods of `Invoice`.
--
-- Amounts are whole kobo, the two decimal places of the columns. Times and dates are numbers.
-- A `Note` is one of the texts that the services write into a note column.
use schapp.Base.{
  ℕ, Bool, true, false, ◌&&◌, Option, List, [], ◌∷◌, Text, ◌==◌, if◌then◌else◌, is_some,
}
use schapp.Int.{ℤ, pos, ◌+ℤ◌, ◌-ℤ◌, ltb_ℤ, leb_ℤ, max_ℤ}

pub data FeeCategory : Type 0 where
  tuition development examination acceptance hostel transport uniform pta other : FeeCategory

pub data InvoiceStatus : Type 0 where
  draft issued part_paid paid waived cancelled : InvoiceStatus

pub data PaymentMethod : Type 0 where
  cash transfer pos_terminal cheque online : PaymentMethod

pub data PaymentStatus : Type 0 where
  pending success failed reversed : PaymentStatus

pub data Note : Type 0 where
  text : Text → Note
  -- "Requested a, settled b."
  settled : ℤ → ℤ → Note
  -- "Requested a, reported b; not credited."
  reported : ℤ → ℤ → Note
  -- "No confirmation within n days; treated as an abandoned checkout."
  abandoned : ℕ → Note

pub record FeeItem : Type 0 where
  pub pk : ℕ
  pub structure : ℕ
  pub name : Text
  pub category : FeeCategory
  pub amount : ℤ
  pub is_optional : Bool

pub record FeeStructure : Type 0 where
  pub pk : ℕ
  pub session : ℕ
  pub term : Option ℕ
  pub level : Option ℕ
  pub programme : Option ℕ
  pub due_in_days : ℕ

pub record Invoice : Type 0 where
  pub pk : ℕ
  pub number : Text
  pub student : ℕ
  pub session : ℕ
  pub term : Option ℕ
  pub structure : Option ℕ
  pub status : InvoiceStatus
  pub subtotal : ℤ
  pub discount : ℤ
  pub total : ℤ
  pub amount_paid : ℤ
  pub issued_at : Option ℕ
  pub due_date : Option ℕ
  pub note : Note
  pub waiver_reason : Text
  pub deleted_at : Option ℕ

pub record InvoiceLine : Type 0 where
  pub invoice : ℕ
  pub description : Text
  pub category : FeeCategory
  pub amount : ℤ
  pub fee_item : Option ℕ

pub record Payment : Type 0 where
  pub pk : ℕ
  pub invoice : ℕ
  pub reference : Text
  pub amount : ℤ
  pub method : PaymentMethod
  pub status : PaymentStatus
  pub gateway : Text
  pub gateway_reference : Option Text
  pub paid_at : Option ℕ
  pub recorded_by : Option ℕ
  pub payer_name : Text
  pub payer_phone : Text
  pub note : Note
  pub reversal_reason : Text
  pub raw : Option Text
  pub created_at : ℕ

abbrev pub is_draft : InvoiceStatus → Bool
is_draft draft = true
is_draft _ = false

abbrev pub is_success : PaymentStatus → Bool
is_success success = true
is_success _ = false

abbrev pub is_pending : PaymentStatus → Bool
is_pending pending = true
is_pending _ = false

abbrev pub is_reversed : PaymentStatus → Bool
is_reversed reversed = true
is_reversed _ = false

abbrev pub is_online : PaymentMethod → Bool
is_online online = true
is_online _ = false

-- `status in {CANCELLED, WAIVED}`
abbrev pub is_closed : InvoiceStatus → Bool
is_closed waived = true
is_closed cancelled = true
is_closed _ = false

-- `OPEN_INVOICE_STATUSES`
abbrev pub is_open : InvoiceStatus → Bool
is_open draft = true
is_open issued = true
is_open part_paid = true
is_open _ = false

unfoldable pub balance : Invoice → ℤ
balance invoice = invoice.total -ℤ invoice.amount_paid

abbrev pub is_settled : Invoice → Bool
is_settled invoice = elim (invoice.status) [ paid ↦ true | waived ↦ true | _ ↦ false ]

unfoldable pub is_payable : Invoice → Bool
unfolding balance
is_payable invoice = is_open invoice.status && ltb_ℤ (pos 0) (balance invoice)

-- `self.lines.aggregate(t=Sum("amount"))["t"] or ZERO`
unfoldable pub sum_lines : ℕ → List InvoiceLine → ℤ
sum_lines pk [] = pos 0
sum_lines pk (line ∷ lines) =
    let rest = sum_lines pk lines in if line.invoice == pk then line.amount +ℤ rest else rest

unfoldable pub recompute_totals : List InvoiceLine → Invoice → Invoice
recompute_totals lines self =
    let subtotal = sum_lines self.pk lines in
    record self { subtotal = subtotal; total = max_ℤ (subtotal -ℤ self.discount) (pos 0) }

-- `self.payments.filter(status=SUCCESS).aggregate(t=Sum("amount"))["t"] or ZERO`
unfoldable pub sum_successful : ℕ → List Payment → ℤ
sum_successful pk [] = pos 0
sum_successful pk (p ∷ ps) =
    let rest = sum_successful pk ps in
    if p.invoice == pk && is_success p.status then p.amount +ℤ rest else rest

-- The status that the figures give, for a bill that nobody has closed.
unfoldable pub status_for : ℤ → ℤ → Option ℕ → InvoiceStatus
status_for amount_paid total issued_at =
    if leb_ℤ total amount_paid && ltb_ℤ (pos 0) total
    then paid
    else if ltb_ℤ (pos 0) amount_paid
    then part_paid
    else if is_some issued_at
    then issued
    else draft

unfoldable pub recompute_paid : List Payment → Invoice → Invoice
recompute_paid payments self =
    let amount_paid = sum_successful self.pk payments in
    record self {
      amount_paid = amount_paid;
      status =
          if is_closed self.status
          then self.status
          else status_for amount_paid self.total self.issued_at;
    }
