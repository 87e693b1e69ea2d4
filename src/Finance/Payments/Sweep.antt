-- ===== src/Finance/Payments/Sweep.antt =====
-- Checkouts and the sweep over them keep the invariant, and the sweep gives up on old checkouts.
use schapp.Base.{
  ℕ, ◌≡◌, refl, false, Option, none, List, [], ◌∷◌, map_if, inl, inr, Bool-cases, Option-cases,
  arith, Text, codes, select,
}
use schapp.Int.{ℤ}
use schapp.Db.Rules.{Result-cases}
use schapp.Finance.Models.{Invoice, Payment, is_success, sum_successful}
use schapp.Finance.Books.{Books, find_payment, reference_taken}
use schapp.Finance.Sums.{Distinct}
use schapp.Finance.Invariant.{IsValid, touch_none}
use schapp.Finance.Gateway.{GetGateway}
use schapp.Finance.Payments.{
  text_or, abandon, is_abandoned, is_due, assert_payable, amount_or_balance, checkout_payment,
  start_online_payment, verify_payment, verify_each, sweep_pending, confirm_payment,
}
use schapp.Finance.Payments.Counter.{with_payment, with_payment-KeepsKeys, next_receipt}
use schapp.Finance.Payments.Online.{confirm_payment-IsValid}

sum-pending :
    (b : ℕ) (p : Payment) (ps : List Payment)
    → is_success p.status ≡ false
    → sum_successful b (p ∷ ps) ≡ sum_successful b ps
unfolding sum_successful
sum-pending b p ps h = ground arith

-- Opening a checkout keeps the invariant, whether or not the gateway opens it.
pub start_online_payment-IsValid :
    (get_gateway : GetGateway) (now year : ℕ) (invoice : Invoice) (name : Text) (amount : Option ℤ)
    (phone : Text) (s : Books)
    → IsValid s
    → IsValid (start_online_payment get_gateway now year invoice name amount phone s).1
unfolding start_online_payment
start_online_payment-IsValid get_gateway now year invoice name amount phone s v =
    elim (Result-cases (assert_payable invoice (amount_or_balance amount invoice))) [
      | inl (x, e) ↦ rw e v
      | inr (u, e) ↦ rw e (elim (Option-cases (get_gateway name)) [
        | inl e ↦ rw e v
        | inr (g, e) ↦ rw e (elim (Result-cases (next_receipt year s)) [
          | inl (x, e) ↦ rw e v
          | inr (ref, e) ↦ rw e (elim (Bool-cases (reference_taken ref s.payments)) [
            | inl e ↦ rw e v
            | inr e ↦
                rw e
                  (elim (Bool-cases (g.initialize ref (amount_or_balance amount invoice)).is_ok) [
                    | inr e ↦ rw e v
                    | inl e ↦ rw e (
                        let p : Payment =
                          checkout_payment now invoice.pk ref (amount_or_balance amount invoice)
                            g.name phone s.next_pk in
                        touch_none s (with_payment p s) v (with_payment-KeepsKeys p s v refl) (λ b.
                          record {
                            same_invoice = refl;
                            same_money = sum-pending b p s.payments refl;
                            same_lines = refl;
                          }))
                  ])
          ])
        ])
      ])
    ]

pub verify_payment-IsValid :
    (get_gateway : GetGateway) (now : ℕ) (p : Payment) (s : Books)
    → IsValid s
    → IsValid (verify_payment get_gateway now p s).1
unfolding verify_payment
verify_payment-IsValid get_gateway now p s v =
    elim (Option-cases (get_gateway (text_or p.gateway (codes "manual")))) [
      | inl e ↦ rw e v
      | inr (g, e) ↦
          rw e (elim (Result-cases (confirm_payment now (g.verify p.reference) g.name s).0) [
            | inl (x, e) ↦ rw e (confirm_payment-IsValid now (g.verify p.reference) g.name s v)
            | inr (x, e) ↦ rw e (confirm_payment-IsValid now (g.verify p.reference) g.name s v)
          ])
    ]

verify_each-IsValid :
    (get_gateway : GetGateway) (now : ℕ) (ps : List Payment) (n : ℕ) (s : Books)
    → IsValid s
    → IsValid (verify_each get_gateway now ps n s).1
unfolding verify_each
verify_each-IsValid get_gateway now [] n s v = v
verify_each-IsValid get_gateway now (p ∷ ps) n s v =
    verify_each-IsValid get_gateway now ps _ (verify_payment get_gateway now p s).1
      (verify_payment-IsValid get_gateway now p s v)

module _ (now days : ℕ) where
  abbrev swept : List Payment → List Payment
  swept = map_if (is_abandoned now days) (abandon days)

  sum-swept : (b : ℕ) (ps : List Payment) → sum_successful b (swept ps) ≡ sum_successful b ps
  unfolding sum_successful
  sum-swept b [] = refl
  sum-swept b (p ∷ ps) = ground (arith, sum-swept b ps)

  find-swept :
      (k : ℕ) (ps : List Payment) → find_payment k ps ≡ none → find_payment k (swept ps) ≡ none
  unfolding find_payment
  find-swept k [] h = refl
  find-swept k (p ∷ ps) h = ground (arith, find-swept k ps)

  Distinct-swept : (ps : List Payment) → Distinct ps → Distinct (swept ps)
  Distinct-swept [] d = tt
  Distinct-swept (p ∷ ps) d = ground (arith, find-swept p.pk ps d.0, Distinct-swept ps d.1)

  swept-IsValid : (s : Books) → IsValid s → IsValid (record s { payments = swept s.payments })
  swept-IsValid s v =
      touch_none s _ v
        (record {
          grows = omega arith;
          keys = Distinct-swept s.payments v.distinct;
          free = λ k h. find-swept k s.payments (v.unborn k h).no_payment;
        })
        (λ b. record {
          same_invoice = refl;
          same_money = sum-swept b s.payments;
          same_lines = refl;
        })

-- A sweep keeps the invariant, whatever the gateways answer.
pub sweep_pending-IsValid :
    (get_gateway : GetGateway) (now minutes days : ℕ) (s : Books)
    → IsValid s
    → IsValid (sweep_pending get_gateway now minutes days s).1
unfolding sweep_pending
sweep_pending-IsValid get_gateway now minutes days s v =
    verify_each-IsValid get_gateway now
      (select (is_due now minutes days) (swept now days s.payments)) 0 _
      (swept-IsValid now days s v)
