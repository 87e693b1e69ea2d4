-- ===== src/Finance/Invoicing.antt =====
-- apps/finance/services.py, the half that raises, reprices, adjusts, issues and closes bills.
pub mod Valid
use schapp.Base.{
  ℕ, ◌+◌, Bool, true, false, ◌&&◌, not, Option, none, some, List, [], ◌∷◌, ◌++◌, any, map, map_if,
  select, is_some, or_else, opt_eq, Text, codes, text_eq, take, ◌==◌, if◌then◌else◌,
}
use schapp.Int.{ℤ, pos, ltb_ℤ}
use schapp.Db.{pure, gets, lift, modify, raise_if, tenant_atomic, ◌>>=◌, ◌>>◌, Result, ok, err}
use schapp.Bulk.{BulkOutcome, add_error, count_created, atomic_bulk}
use schapp.Numbering.{
  Format, literal, placeholder, yy, serial, NumberContext, NumberFormatError, next_number,
}
use schapp.Academics.Models.{Enrolment, Student, is_active_enrolment}
use schapp.Finance.Models.{
  FeeItem, FeeStructure, Invoice, InvoiceLine, InvoiceStatus, Note, is_draft, is_closed, is_success,
  recompute_totals, recompute_paid,
}
use schapp.Finance.Books.{
  Books, Finance, FinanceError, AuditAction, get_invoice, save_invoice, record_audit,
}

abbrev pub invoice_number_format : Format
invoice_number_format =
    literal (codes "INV/") ∷ placeholder yy ∷ literal (codes "/") ∷ placeholder serial ∷ []

abbrev pub in_year : ℕ → NumberContext
in_year year = record { year = year; dept_code = []; prog_code = []; level_code = [] }

abbrev pub raise_format : {A : Type 0} → Result NumberFormatError A → Result FinanceError A
raise_format (ok a) = ok a
raise_format (err e) = err FinanceError.number_format

-- `invoice.recompute_totals(); invoice.save(update_fields=["subtotal", "total", …])`
unfoldable pub retotal : Invoice → Finance Invoice
unfolding save_invoice
retotal invoice = do
  lines ← gets (λ s. s.lines)
  let fresh = recompute_totals lines invoice
  save_invoice invoice.pk (λ row. record row { subtotal = fresh.subtotal; total = fresh.total })
  pure fresh

-- ---- Editing the price list ----

-- A line that copies `item` onto a draft that is not deleted.
unfoldable pub follows_item : FeeItem → List Invoice → InvoiceLine → Bool
follows_item item invoices line =
    opt_eq line.fee_item (some item.pk)
    && any (λ i. i.pk == line.invoice && is_draft i.status && not (is_some i.deleted_at)) invoices

abbrev reprice : FeeItem → InvoiceLine → InvoiceLine
reprice item line = record line {
  description = item.name;
  category = item.category;
  amount = item.amount;
}

-- The drafts with such a line, each once.
unfoldable pub drafts_of : FeeItem → List Invoice → List InvoiceLine → List Invoice
unfolding follows_item
drafts_of item invoices lines =
    select (λ i. any (λ l. l.invoice == i.pk && follows_item item invoices l) lines) invoices

unfoldable pub retotal_all : List Invoice → Finance (Unit {0})
unfolding retotal
retotal_all [] = pure tt
retotal_all (i ∷ rest) = retotal i >>= λ _. retotal_all rest

abbrev pub count : {A : Type 0} → List A → ℕ
count [] = 0
count (_ ∷ xs) = count xs + 1

unfoldable pub resync_draft_lines : FeeItem → Finance ℕ
unfolding drafts_of follows_item retotal_all
resync_draft_lines item = do
  s ← gets (λ s. s)
  let drafts = drafts_of item s.invoices s.lines
  modify (λ s. record s { lines = map_if (follows_item item s.invoices) (reprice item) s.lines })
  retotal_all drafts
  pure (count drafts)

-- What was written: a fee item, whose drafts follow it, or a fee structure.
pub data PriceListRow : Type 0 where
  fee_item_row : FeeItem → PriceListRow
  fee_structure_row : FeeStructure → PriceListRow

unfoldable pub resync : PriceListRow → Finance ℕ
unfolding resync_draft_lines
resync (fee_item_row i) = resync_draft_lines i
resync (fee_structure_row _) = pure 0

abbrev row_pk : PriceListRow → ℕ
row_pk (fee_item_row i) = i.pk
row_pk (fee_structure_row f) = f.pk

unfoldable pub fee_changed : PriceListRow → Finance ℕ
unfolding resync record_audit
fee_changed obj =
    tenant_atomic
      do resynced ← resync obj; record_audit AuditAction.fee_changed (row_pk obj); pure resynced

-- ---- Adjusting one bill ----

abbrev with_discount : Option ℤ → Invoice → Invoice
with_discount none i = i
with_discount (some d) i = record i { discount = d }

-- `invoice.lines.all().delete()` and the `bulk_create` of the replacement set.
unfoldable pub replace_lines : ℕ → List InvoiceLine → Finance (Unit {0})
replace_lines pk lines = modify λ s. record s {
  lines =
      map (λ (l : InvoiceLine). record l { invoice = pk }) lines
      ++ select (λ l. not (l.invoice == pk)) s.lines;
}

unfoldable pub adjust_invoice : ℕ → List InvoiceLine → Option ℤ → Finance Invoice
unfolding get_invoice replace_lines save_invoice record_audit
adjust_invoice pk lines discount = tenant_atomic do
  invoice ← get_invoice pk
  raise_if (is_closed invoice.status) FinanceError.invoice_not_adjustable
  replace_lines invoice.pk lines
  all_lines ← gets (λ s. s.lines)
  let totalled = recompute_totals all_lines (with_discount discount invoice)
  raise_if (ltb_ℤ totalled.total totalled.amount_paid) FinanceError.adjustment_below_paid
  payments ← gets (λ s. s.payments)
  let fresh = recompute_paid payments totalled
  save_invoice invoice.pk (λ row. record row {
    discount = fresh.discount;
    subtotal = fresh.subtotal;
    total = fresh.total;
    amount_paid = fresh.amount_paid;
    status = fresh.status;
  })
  record_audit AuditAction.invoice_adjusted invoice.pk
  pure fresh

-- ---- Raising invoices ----

abbrev pub in_scope : Option ℕ → Option ℕ → Bool
in_scope none x = true
in_scope (some k) x = opt_eq (some k) x

-- Enrolments come joined with their students.
unfoldable pub cohort_for : FeeStructure → List (Enrolment × Student) → List (Enrolment × Student)
cohort_for structure = select λ (e : Enrolment × Student).
    e.0.session == structure.session
    && is_active_enrolment e.0.status
    && in_scope structure.level (some e.0.level)
    && in_scope structure.programme e.0.programme

abbrev pub contains : ℕ → List ℕ → Bool
contains k = any (λ j. j == k)

-- The students with a live invoice under this structure.
unfoldable pub already_billed : ℕ → List Invoice → List ℕ
already_billed structure [] = []
already_billed structure (i ∷ is) =
    let rest = already_billed structure is in
    if not (is_some i.deleted_at) && opt_eq i.structure (some structure)
    then i.student ∷ rest
    else rest

abbrev pub blank_invoice : ℕ → Text → FeeStructure → ℕ → ℕ → Invoice
blank_invoice pk number structure student due = record {
  pk = pk;
  number = number;
  student = student;
  session = structure.session;
  term = structure.term;
  structure = some structure.pk;
  status = InvoiceStatus.draft;
  subtotal = pos 0;
  discount = pos 0;
  total = pos 0;
  amount_paid = pos 0;
  issued_at = none;
  due_date = some due;
  note = Note.text [];
  waiver_reason = [];
  deleted_at = none;
}

-- `Invoice.objects.create(…)`, refused by `unique=True` on `number`.
unfoldable pub create_invoice : (ℕ → Invoice) → Finance Invoice
create_invoice build = do
  i ← gets (λ s. build s.next_pk)
  taken ← gets (λ s. any (λ j. text_eq j.number i.number) s.invoices)
  raise_if taken FinanceError.integrity_error
  modify (λ s. record s { invoices = i ∷ s.invoices; next_pk = s.next_pk + 1 })
  pure i

abbrev pub line_of : ℕ → FeeItem → InvoiceLine
line_of pk item = record {
  invoice = pk;
  description = item.name;
  category = item.category;
  amount = item.amount;
  fee_item = some item.pk;
}

unfoldable pub bill_student : ℕ → ℕ → FeeStructure → List FeeItem → ℕ → Finance Invoice
unfolding create_invoice retotal
bill_student year today structure items student = do
  numbers ← gets (λ s. map (λ (i : Invoice). i.number) s.invoices)
  number ← lift (raise_format (next_number numbers invoice_number_format (in_year year)))
  invoice ←
      create_invoice
        (λ pk. blank_invoice pk number structure student (today + structure.due_in_days))
  modify (λ s. record s { lines = map (line_of invoice.pk) items ++ s.lines })
  retotal invoice

pub data GenerateCode : Type 0 where
  student_deleted : GenerateCode

-- The loop of `generate_invoices`' handler, from row `index` on.
unfoldable pub bill_rows :
    ℕ
    → ℕ
    → FeeStructure
    → List FeeItem
    → List ℕ
    → ℕ
    → List (Enrolment × Student)
    → BulkOutcome GenerateCode
    → Finance (BulkOutcome GenerateCode)
bill_rows year today structure items already index [] outcome = pure outcome
bill_rows year today structure items already index ((enrolment, student) ∷ rest) outcome =
    let next = bill_rows year today structure items already (index + 1) rest in
    if contains enrolment.student already
    then next outcome
    else if is_some student.deleted_at
    then next (add_error index enrolment.student student_deleted outcome)
    else (bill_student year today structure items enrolment.student >>= λ _.
        next (count_created outcome))

-- `student_ids is None` or `str(e.student_id) in wanted`
abbrev pub wanted : Option (List ℕ) → Enrolment × Student → Bool
wanted none e = true
wanted (some ids) e = contains e.0.student ids

abbrev no_items : List FeeItem → Bool
no_items [] = true
no_items (_ ∷ _) = false

unfoldable pub generate_invoices :
    ℕ
    → ℕ
    → FeeStructure
    → List FeeItem
    → List (Enrolment × Student)
    → Option (List ℕ)
    → Finance (BulkOutcome GenerateCode)
unfolding cohort_for already_billed bill_rows
generate_invoices year today structure fee_items enrolments student_ids = do
  let items = select (λ i. i.structure == structure.pk && not i.is_optional) fee_items
  raise_if (no_items items) FinanceError.nothing_to_bill
  let cohort = select (wanted student_ids) (cohort_for structure enrolments)
  atomic_bulk (λ outcome. gets (λ s. already_billed structure.pk s.invoices) >>= λ already.
      bill_rows year today structure items already 0 cohort outcome)

-- ---- Issuing and closing ----

-- Draft → issued; any other bill is returned as it stands.
unfoldable pub issue_invoice : ℕ → ℕ → Invoice → Finance Invoice
unfolding save_invoice record_audit
issue_invoice now today invoice = tenant_atomic (
    if not (is_draft invoice.status) then pure invoice else do
      lines ← gets (λ s. s.lines)
      let totalled = recompute_totals lines invoice
      let fresh = record totalled {
        issued_at = some now;
        status = InvoiceStatus.issued;
        due_date = some (or_else invoice.due_date (today + 21));
      }
      save_invoice invoice.pk (λ row. record row {
        subtotal = fresh.subtotal;
        total = fresh.total;
        issued_at = fresh.issued_at;
        status = fresh.status;
        due_date = fresh.due_date;
      })
      record_audit AuditAction.invoice_issued invoice.pk
      pure fresh)

unfoldable pub waive_invoice : Text → Invoice → Finance Invoice
unfolding save_invoice record_audit
waive_invoice reason invoice = tenant_atomic do
  let fresh = record invoice { status = InvoiceStatus.waived; waiver_reason = reason }
  save_invoice invoice.pk (λ row. record row { status = fresh.status; waiver_reason = reason })
  record_audit AuditAction.invoice_waived invoice.pk
  pure fresh

-- `invoice.payments.filter(status=SUCCESS).exists()`
unfoldable pub has_successful_payment : Invoice → Books → Bool
has_successful_payment invoice s =
    any (λ p. p.invoice == invoice.pk && is_success p.status) s.payments

-- `(reason or invoice.note)[:255]`
abbrev note_or : Text → Note → Note
note_or [] note = note
note_or (c ∷ cs) note = Note.text (take 255 (c ∷ cs))

unfoldable pub cancel_invoice : Text → Invoice → Finance Invoice
unfolding save_invoice record_audit
cancel_invoice reason invoice = tenant_atomic do
  paid ← gets (has_successful_payment invoice)
  raise_if paid FinanceError.invoice_has_payments
  let fresh = record invoice {
    status = InvoiceStatus.cancelled;
    note = note_or reason invoice.note;
  }
  save_invoice invoice.pk (λ row. record row { status = fresh.status; note = fresh.note })
  record_audit AuditAction.invoice_cancelled invoice.pk
  pure fresh

-- `InvoiceSerializer.update` where the discount moves (apps/finance/serializers.py).
unfoldable pub update_discount : ℤ → Invoice → Finance Invoice
unfolding save_invoice
update_discount discount invoice = do
  save_invoice invoice.pk (λ row. record invoice { pk = row.pk; discount = discount })
  s ← gets (λ s. s)
  let fresh =
      recompute_paid s.payments (recompute_totals s.lines (record invoice { discount = discount }))
  save_invoice invoice.pk (λ row. record row {
    subtotal = fresh.subtotal;
    total = fresh.total;
    amount_paid = fresh.amount_paid;
    status = fresh.status;
  })
  pure fresh
