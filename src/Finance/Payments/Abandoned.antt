-- ===== src/Finance/Payments/Abandoned.antt =====
-- What a sweep leaves open.
use schapp.Finance.Invariant.Settle.{some-inj}
use mathlib.Core.Path.{subst}
use schapp.Base.{
  ℕ, ◌≡◌, refl, sym, ◌∙◌, true, false, ◌||◌, some, List, [], ◌∷◌, any, select, map_if, ◌==◌, Text,
  text_eq, codes, Bool-cases, Option-cases, inl, inr,
}
use schapp.Int.{ltb_ℤ}
use schapp.Db.{tenant_atomic}
use schapp.Db.Rules.{Result-cases}
use schapp.Finance.Models.{Payment, is_success, is_reversed}
use schapp.Finance.Books.{Books, find_reference, find_invoice}
use schapp.Finance.Gateway.{Verification, GetGateway}
use schapp.Finance.Payments.{
  is_abandoned, is_due, abandon, apply_verdict, confirm_payment, verify_payment, verify_each,
  sweep_pending, text_or,
}
use schapp.Finance.Payments.Online.{failed_of, held_of, done_of, taken}

module _ (now days : ℕ) where
  -- No open checkout is past the limit.
  abbrev pub IsSwept : List Payment → Type 0
  IsSwept ps = any (is_abandoned now days) ps ≡ false

  abandon-IsSwept : (ps : List Payment) → IsSwept (map_if (is_abandoned now days) (abandon days) ps)
  abandon-IsSwept [] = refl
  abandon-IsSwept (p ∷ ps) = elim (Bool-cases (is_abandoned now days p)) [
    | inl e ↦ rw (e, abandon-IsSwept ps) refl
    | inr e ↦ rw (e, e, abandon-IsSwept ps) refl
  ]

  with_row-IsSwept :
      (k : ℕ) (x : Payment) (ps : List Payment)
      → is_abandoned now days x ≡ false
      → IsSwept ps
      → IsSwept (map_if (λ q. q.pk == k) (λ _. x) ps)
  with_row-IsSwept k x [] hx h = refl
  with_row-IsSwept k x (p ∷ ps) hx h = elim (Bool-cases (is_abandoned now days p)) [
    | inl e ↦ let bad : true ≡ false = sym (rw e refl) ∙ h in cc
    | inr e ↦
        let rest : IsSwept ps = sym (rw e refl) ∙ h in
        let go = with_row-IsSwept k x ps hx rest in
        elim (Bool-cases (p.pk == k)) [
          | inl same ↦ rw (same, hx, go) refl
          | inr other ↦ rw (other, e, go) refl
        ]
  ]

  found-IsSwept :
      (r : Text) (p : Payment) (ps : List Payment)
      → find_reference r ps ≡ some p
      → IsSwept ps
      → is_abandoned now days p ≡ false
  unfolding find_reference
  found-IsSwept r p [] e h = cc
  found-IsSwept r p (q ∷ ps) e h = elim (Bool-cases (is_abandoned now days q)) [
    | inl b ↦ let bad : true ≡ false = sym (rw b refl) ∙ h in cc
    | inr b ↦
        let rest : IsSwept ps = sym (rw b refl) ∙ h in
        elim (Bool-cases (text_eq q.reference r)) [
          | inl here ↦
              let same : some q ≡ some p = sym (rw here refl) ∙ e in
              subst (λ x. is_abandoned now days x ≡ false) (some-inj same) b
          | inr later ↦ found-IsSwept r p ps (sym (rw later refl) ∙ e) rest
        ]
  ]

  apply_verdict-IsSwept :
      (at : ℕ) (v : Verification) (name : Text) (p : Payment) (s : Books)
      → is_abandoned now days p ≡ false
      → IsSwept s.payments
      → IsSwept (tenant_atomic (apply_verdict at v name p) s).1.payments
  unfolding apply_verdict
  apply_verdict-IsSwept at v name p s hp h = elim (Bool-cases v.is_ok) [
    | inr e ↦ rw e (elim (Bool-cases (taken v name p s)) [
      | inl e ↦ rw e h
      | inr e ↦ rw e (with_row-IsSwept p.pk (failed_of v name p) s.payments refl h)
    ])
    | inl e ↦ rw e (elim (Bool-cases (ltb_ℤ p.amount v.amount)) [
      | inl e ↦ rw e (elim (Bool-cases (taken v name p s)) [
        | inl e ↦ rw e h
        | inr e ↦ rw e (with_row-IsSwept p.pk (held_of v name p) s.payments hp h)
      ])
      | inr e ↦ rw e (elim (Bool-cases (taken v name p s)) [
        | inl e ↦ rw e h
        | inr e ↦ rw e (elim (Option-cases (find_invoice p.invoice s.invoices)) [
          | inl e ↦ rw e h
          | inr (inv, e) ↦ rw e (with_row-IsSwept p.pk (done_of at v name p) s.payments refl h)
        ])
      ])
    ])
  ]

  confirm_payment-IsSwept :
      (at : ℕ) (v : Verification) (name : Text) (s : Books)
      → IsSwept s.payments
      → IsSwept (confirm_payment at v name s).1.payments
  unfolding confirm_payment
  confirm_payment-IsSwept at v name s h =
      elim (Option-cases (find_reference v.reference s.payments)) [
        | inl e ↦ rw e h
        | inr (p, found) ↦
            rw found (elim (Bool-cases (is_success p.status || is_reversed p.status)) [
              | inl e ↦ rw e h
              | inr e ↦ rw e (
                  apply_verdict-IsSwept at v name p s
                    (found-IsSwept v.reference p s.payments found h) h)
            ])
      ]

  verify_payment-IsSwept :
      (gateways : GetGateway) (at : ℕ) (p : Payment) (s : Books)
      → IsSwept s.payments
      → IsSwept (verify_payment gateways at p s).1.payments
  unfolding verify_payment
  verify_payment-IsSwept gateways at p s h =
      elim (Option-cases (gateways (text_or p.gateway (codes "manual")))) [
        | inl e ↦ rw e h
        | inr (g, e) ↦
            let go = confirm_payment-IsSwept at (g.verify p.reference) g.name s h in
            rw e (elim (Result-cases (confirm_payment at (g.verify p.reference) g.name s).0) [
              | inl (x, e) ↦ rw e go
              | inr (x, e) ↦ rw e go
            ])
      ]

  verify_each-IsSwept :
      (gateways : GetGateway) (at : ℕ) (ps : List Payment) (n : ℕ) (s : Books)
      → IsSwept s.payments
      → IsSwept (verify_each gateways at ps n s).1.payments
  unfolding verify_each
  verify_each-IsSwept gateways at [] n s h = h
  verify_each-IsSwept gateways at (p ∷ ps) n s h =
      verify_each-IsSwept gateways at ps _ (verify_payment gateways at p s).1
        (verify_payment-IsSwept gateways at p s h)

-- After a sweep, whatever the gateways answer, no pending online payment was created more than the
-- given number of days before.
pub sweep_pending-IsSwept :
    (gateways : GetGateway) (now minutes days : ℕ) (s : Books)
    → IsSwept now days (sweep_pending gateways now minutes days s).1.payments
unfolding sweep_pending
sweep_pending-IsSwept gateways now minutes days s =
    let swept = map_if (is_abandoned now days) (abandon days) s.payments in
    verify_each-IsSwept now days gateways now (select (is_due now minutes days) swept) 0
      (record s { payments = swept }) (abandon-IsSwept now days s.payments)
