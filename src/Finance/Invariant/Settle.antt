-- ===== src/Finance/Invariant/Settle.antt =====
-- `settle` restores the invariant of the one bill whose payments have moved.
use schapp.Base.{ℕ, ◌≡◌, ◌≢◌, refl, sym, ap, ◌∙◌, some, List, ◌==◌, map_if, arith}
use schapp.Finance.Models.{Invoice, Payment, recompute_paid, sum_lines, sum_successful}
use schapp.Finance.Books.{Books, AuditAction, find_invoice, record_audit, settle, find_payment}
use schapp.Finance.Sums.{
  Distinct-map_if, find_payment-map_if, contribution, sum_successful-same, find_invoice-map_if,
}
use schapp.Finance.Invariant.{IsSound, IsValid, KeepsKeys, touch_bill, touch_none, born}

-- The columns that `settle` writes into the row.
abbrev pub paid_row : List Payment → Invoice → Invoice → Invoice
paid_row ps inv row = record row {
  amount_paid = (recompute_paid ps inv).amount_paid;
  status = (recompute_paid ps inv).status;
}

pub found_after :
    (k : ℕ) (w : Invoice → Invoice) {inv : Invoice} (is : List Invoice)
    → ((i : Invoice) → (w i).pk ≡ i.pk)
    → find_invoice k is ≡ some inv
    → find_invoice k (map_if (λ i. i.pk == k) w is) ≡ some (w inv)
found_after k w {inv} is keep h = ground (arith, find_invoice-map_if k k w is keep)

pub others_after :
    (j k : ℕ) (w : Invoice → Invoice) (is : List Invoice)
    → ((i : Invoice) → (w i).pk ≡ i.pk)
    → j ≢ k
    → find_invoice j (map_if (λ i. i.pk == k) w is) ≡ find_invoice j is
others_after j k w is keep ne = ground (arith, find_invoice-map_if j k w is keep)

pub some-inj : {A : Type 0} {a b : A} → some a ≡ some b → a ≡ b
some-inj h = cc

paid_row-IsSound :
    (s t t' : Books) (inv : Invoice)
    → IsSound s inv
    → t.lines ≡ s.lines
    → t'.lines ≡ t.lines
    → t'.payments ≡ t.payments
    → IsSound t' (paid_row t.payments inv inv)
unfolding recompute_paid
paid_row-IsSound s t t' inv old el el' ep = record {
  paid = ap (sum_successful inv.pk) (sym ep);
  priced = old.priced ∙ ap (sum_lines inv.pk) (sym (el' ∙ el));
  totalled = old.totalled;
  followed = λ h. ground arith;
}

pub settle-IsValid :
    (s t : Books) (inv : Invoice)
    → IsValid s
    → find_invoice inv.pk s.invoices ≡ some inv
    → t.invoices ≡ s.invoices
    → t.lines ≡ s.lines
    → KeepsKeys s t
    → ((b : ℕ) → b ≢ inv.pk → sum_successful b t.payments ≡ sum_successful b s.payments)
    → IsValid (settle inv t).1
unfolding settle
settle-IsValid s t inv v found ei el keys sums =
    let w = paid_row t.payments inv in
    let there : find_invoice inv.pk t.invoices ≡ some inv = rw ei found in
    touch_bill inv.pk s (settle inv t).1 v
      (record { grows = keys.grows; keys = keys.keys; free = keys.free })
      (omega (arith, born inv.pk s v found, keys.grows))
      (λ k ne. record {
        same_invoice = others_after k inv.pk w t.invoices (λ i. refl) ne ∙ ap (find_invoice k) ei;
        same_money = sums k ne;
        same_lines = ap (sum_lines k) el;
      })
      (λ i h.
        let e : w inv ≡ i =
          some-inj (sym (found_after inv.pk w {inv = inv} t.invoices (λ i. refl) there) ∙ h) in
        rw (← e)
          (paid_row-IsSound s t (settle inv t).1 inv (v.sound inv.pk inv found) el refl refl))

pub record_audit-IsValid :
    (a : AuditAction) (k : ℕ) (s : Books) → IsValid s → IsValid (record_audit a k s).1
unfolding record_audit
record_audit-IsValid a k s v =
    touch_none s _ v
      (record { grows = omega arith; keys = v.distinct; free = λ j h. (v.unborn j h).no_payment })
      (λ j. record { same_invoice = refl; same_money = refl; same_lines = refl })

-- A write that keeps a payment's key keeps the keys.
pub payments-KeepsKeys :
    (k : ℕ) (w : Payment → Payment) (s : Books)
    → IsValid s
    → ((p : Payment) → p.pk ≡ k → (w p).pk ≡ k)
    → KeepsKeys s (record s { payments = map_if (λ p. p.pk == k) w s.payments })
payments-KeepsKeys k w s v keep = record {
  grows = omega arith;
  keys = Distinct-map_if k w s.payments keep v.distinct;
  free =
      λ j h. ground (arith, find_payment-map_if j k w s.payments keep, (v.unborn j h).no_payment);
}

-- A write to a payment that no bill counts, before or after.
pub uncounted-IsValid :
    (k : ℕ) (w : Payment → Payment) (p : Payment) (s : Books)
    → IsValid s
    → find_payment k s.payments ≡ some p
    → ((q : Payment) → q.pk ≡ k → (w q).pk ≡ k)
    → ((b : ℕ) → contribution b (w p) ≡ contribution b p)
    → IsValid (record s { payments = map_if (λ q. q.pk == k) w s.payments })
uncounted-IsValid k w p s v found keep same =
    touch_none s _ v (payments-KeepsKeys k w s v keep) (λ b. record {
      same_invoice = refl;
      same_money = sum_successful-same b k w p s.payments v.distinct found (same b);
      same_lines = refl;
    })
