-- ===== src/Finance/Invoicing/Valid.antt =====
-- Issuing, adjusting, discounting and closing a bill keep the invariant.
use mathlib.Core.Path.{subst}
use schapp.Base.{
  ℕ, ◌≡◌, ◌≢◌, refl, sym, ap, ◌∙◌, true, not, Option, none, some, List, [], ◌∷◌, ◌++◌, ◌==◌, map,
  map_if, select, inl, inr, Bool-cases, Option-cases, arith, Text,
}
use schapp.Int.{ℤ, pos, ◌≤ℤ◌, ltb_ℤ}
use schapp.Finance.Models.{
  Invoice, InvoiceLine, InvoiceStatus, is_draft, is_closed, status_for, recompute_totals,
  recompute_paid, sum_lines, sum_successful,
}
use schapp.Finance.Books.{Books, AuditAction, find_invoice}
use schapp.Finance.Sums.{find_invoice_self}
use schapp.Finance.Invariant.{IsValid, IsSound, touch_bill, born}
use schapp.Finance.Invariant.Settle.{found_after, others_after, record_audit-IsValid, some-inj}
use schapp.Finance.Invoicing.{
  issue_invoice, waive_invoice, cancel_invoice, adjust_invoice, has_successful_payment,
  with_discount, update_discount,
}

abbrev pub rewritten : ℕ → (Invoice → Invoice) → List InvoiceLine → Books → Books
rewritten k w lines s = record s { invoices = map_if (λ i. i.pk == k) w s.invoices; lines = lines }

-- One bill and its own lines are written, and the bill comes out sound.
rewritten-IsValid :
    (w : Invoice → Invoice) (lines : List InvoiceLine) (inv : Invoice) (s : Books)
    → IsValid s
    → find_invoice inv.pk s.invoices ≡ some inv
    → ((i : Invoice) → (w i).pk ≡ i.pk)
    → ((b : ℕ) → b ≢ inv.pk → sum_lines b lines ≡ sum_lines b s.lines)
    → IsSound (rewritten inv.pk w lines s) (w inv)
    → IsValid (rewritten inv.pk w lines s)
rewritten-IsValid w lines inv s v found keep others sound =
    touch_bill inv.pk s (rewritten inv.pk w lines s) v
      (record { grows = omega arith; keys = v.distinct; free = λ k h. (v.unborn k h).no_payment })
      (born inv.pk s v found)
      (λ k ne. record {
        same_invoice = others_after k inv.pk w s.invoices keep ne;
        same_money = refl;
        same_lines = others k ne;
      })
      (λ i h.
        subst (IsSound (rewritten inv.pk w lines s))
          (some-inj (sym (found_after inv.pk w {inv = inv} s.invoices keep found) ∙ h)) sound)

-- A draft has received nothing.
draft_unpaid :
    (s : Books) (i : Invoice)
    → IsSound s i
    → i.status ≡ InvoiceStatus.draft
    → i.amount_paid ≤ℤ pos 0
unfolding status_for
draft_unpaid s i sound d = ground (arith, sound.followed)

issued_status :
    (paid total : ℤ) (now : ℕ)
    → paid ≤ℤ pos 0
    → InvoiceStatus.issued ≡ status_for paid total (some now)
unfolding status_for
issued_status paid total now h = ground arith

is_draft→eq : (x : InvoiceStatus) → is_draft x ≡ true → x ≡ InvoiceStatus.draft
is_draft→eq InvoiceStatus.draft h = refl
is_draft→eq _ h = cc

pub issue_invoice-IsValid :
    (now today : ℕ) (inv : Invoice) (s : Books)
    → IsValid s
    → find_invoice inv.pk s.invoices ≡ some inv
    → IsValid (issue_invoice now today inv s).1
unfolding issue_invoice recompute_totals
issue_invoice-IsValid now today inv s v found = elim (Bool-cases (is_draft inv.status)) [
  | inr e ↦ rw e v
  | inl e ↦ rw e (
      record_audit-IsValid AuditAction.invoice_issued inv.pk _ (
        rewritten-IsValid _ s.lines inv s v found (λ _. refl) (λ _ _. refl)
          (record {
            paid = (v.sound inv.pk inv found).paid;
            priced = refl;
            totalled = refl;
            followed = λ _.
                issued_status inv.amount_paid _ now
                  (draft_unpaid s inv (v.sound inv.pk inv found) (is_draft→eq inv.status e));
          })))
]

pub waive_invoice-IsValid :
    (reason : Text) (inv : Invoice) (s : Books)
    → IsValid s
    → find_invoice inv.pk s.invoices ≡ some inv
    → IsValid (waive_invoice reason inv s).1
unfolding waive_invoice
waive_invoice-IsValid reason inv s v found =
    let old = v.sound inv.pk inv found in
    record_audit-IsValid AuditAction.invoice_waived inv.pk _ (
      rewritten-IsValid _ s.lines inv s v found (λ _. refl) (λ _ _. refl)
        (record {
          paid = old.paid;
          priced = old.priced;
          totalled = old.totalled;
          followed = λ h. cc;
        }))

pub cancel_invoice-IsValid :
    (reason : Text) (inv : Invoice) (s : Books)
    → IsValid s
    → find_invoice inv.pk s.invoices ≡ some inv
    → IsValid (cancel_invoice reason inv s).1
unfolding cancel_invoice
cancel_invoice-IsValid reason inv s v found =
    let old = v.sound inv.pk inv found in
    elim (Bool-cases (has_successful_payment inv s)) [
      | inl e ↦ rw e v
      | inr e ↦ rw e (
          record_audit-IsValid AuditAction.invoice_cancelled inv.pk _ (
            rewritten-IsValid _ s.lines inv s v found (λ _. refl) (λ _ _. refl)
              (record {
                paid = old.paid;
                priced = old.priced;
                totalled = old.totalled;
                followed = λ h. cc;
              })))
    ]

-- What a bill counts of a list of lines with the bill's own replaced.
sum_lines-owned :
    (b k : ℕ) (lines : List InvoiceLine)
    → b ≢ k
    → sum_lines b (map (λ (l : InvoiceLine). record l { invoice = k }) lines) ≡ pos 0
unfolding sum_lines
sum_lines-owned b k [] ne = refl
sum_lines-owned b k (l ∷ ls) ne = ground (arith, sum_lines-owned b k ls ne)

sum_lines-replaced :
    (b k : ℕ) (lines rest : List InvoiceLine)
    → b ≢ k
    → sum_lines b (
        map (λ (l : InvoiceLine). record l { invoice = k }) lines
        ++ select (λ l. not (l.invoice == k)) rest)
      ≡ sum_lines b rest
unfolding sum_lines
sum_lines-replaced b k [] [] ne = refl
sum_lines-replaced b k [] (l ∷ ls) ne = ground (arith, sum_lines-replaced b k [] ls ne)
sum_lines-replaced b k (l ∷ ls) rest ne = ground (arith, sum_lines-replaced b k ls rest ne)

-- The columns that a repricing writes, from the bill as it was recomputed.
abbrev repriced : Invoice → Invoice → Invoice
repriced fresh row = record row {
  discount = fresh.discount;
  subtotal = fresh.subtotal;
  total = fresh.total;
  amount_paid = fresh.amount_paid;
  status = fresh.status;
}

repriced-IsSound :
    (discount : Option ℤ) (inv : Invoice) (lines : List InvoiceLine) (s t : Books)
    → t.lines ≡ lines
    → t.payments ≡ s.payments
    → IsSound t (
        repriced
          (recompute_paid s.payments (recompute_totals lines (with_discount discount inv)))
          inv)
unfolding recompute_totals recompute_paid
repriced-IsSound none inv lines s t el ep = record {
  paid = ap (sum_successful inv.pk) (sym ep);
  priced = ap (sum_lines inv.pk) (sym el);
  totalled = refl;
  followed = λ h. ground arith;
}
repriced-IsSound (some d) inv lines s t el ep = record {
  paid = ap (sum_successful inv.pk) (sym ep);
  priced = ap (sum_lines inv.pk) (sym el);
  totalled = refl;
  followed = λ h. ground arith;
}

abbrev replaced : ℕ → List InvoiceLine → Books → List InvoiceLine
replaced k lines s =
    map (λ (l : InvoiceLine). record l { invoice = k }) lines
    ++ select (λ l. not (l.invoice == k)) s.lines

pub adjust_invoice-IsValid :
    (pk : ℕ) (lines : List InvoiceLine) (discount : Option ℤ) (s : Books)
    → IsValid s
    → IsValid (adjust_invoice pk lines discount s).1
unfolding adjust_invoice
adjust_invoice-IsValid pk lines discount s v = elim (Option-cases (find_invoice pk s.invoices)) [
  | inl none_found ↦ rw none_found v
  | inr (inv, found) ↦
      let there = find_invoice_self pk inv s.invoices found in
      let all = replaced inv.pk lines s in
      let totalled = recompute_totals all (with_discount discount inv) in
      elim (Bool-cases (is_closed inv.status)) [
        | inl closed ↦ rw (found, closed) v
        | inr live ↦ elim (Bool-cases (ltb_ℤ totalled.total totalled.amount_paid)) [
          | inl below ↦ rw (found, live, below) v
          | inr enough ↦
              rw (found, live, enough)
                (record_audit-IsValid AuditAction.invoice_adjusted inv.pk _ (
                  rewritten-IsValid (repriced (recompute_paid s.payments totalled)) all inv s v
                    there (λ _. refl) (λ b ne. sum_lines-replaced b inv.pk lines s.lines ne)
                    (repriced-IsSound discount inv all s _ refl refl)))
        ]
      ]
]

-- Two writes to one row are one.
map_if-map_if :
    (k : ℕ) (w w' : Invoice → Invoice) (is : List Invoice)
    → ((i : Invoice) → (w i).pk ≡ i.pk)
    → map_if (λ i. i.pk == k) w' (map_if (λ i. i.pk == k) w is)
      ≡ map_if (λ i. i.pk == k) (λ i. w' (w i)) is
map_if-map_if k w w' [] keep = refl
map_if-map_if k w w' (i ∷ is) keep = elim (Bool-cases (i.pk == k)) [
  | inl e ↦ rw (e, keep i, e, map_if-map_if k w w' is keep) refl
  | inr e ↦ rw (e, e, map_if-map_if k w w' is keep) refl
]

pub update_discount-IsValid :
    (discount : ℤ) (inv : Invoice) (s : Books)
    → IsValid s
    → find_invoice inv.pk s.invoices ≡ some inv
    → IsValid (update_discount discount inv s).1
unfolding update_discount recompute_paid recompute_totals
update_discount-IsValid discount inv s v found =
    let fresh =
      recompute_paid s.payments (recompute_totals s.lines (with_discount (some discount) inv)) in
    let w : Invoice → Invoice = λ row. record inv { pk = row.pk; discount = discount } in
    let w' : Invoice → Invoice = λ row. record row {
      subtotal = fresh.subtotal;
      total = fresh.total;
      amount_paid = fresh.amount_paid;
      status = fresh.status;
    } in
    rw (map_if-map_if inv.pk w w' s.invoices (λ _. refl)) (
      rewritten-IsValid (λ row. w' (w row)) s.lines inv s v found (λ _. refl) (λ _ _. refl)
        (repriced-IsSound (some discount) inv s.lines s _ refl refl))
