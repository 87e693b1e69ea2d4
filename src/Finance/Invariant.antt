-- ===== src/Finance/Invariant.antt =====
-- The invariant of a school's bills, and the two ways in which a service keeps it: by touching one
-- bill, and by touching payments that no bill counts.
pub mod Settle
use schapp.Base.{
  ℕ, ◌<◌, ◌≤◌, ◌≡◌, ◌≢◌, sym, ◌∙◌, inl, inr, false, none, some, ◌==◌, ==_iff, Bool-cases, arith,
}
use native.Mathlib.Decide.{dec_lt}
use schapp.Int.{pos, ◌-ℤ◌, max_ℤ}
use schapp.Finance.Models.{Invoice, is_closed, status_for, sum_lines, sum_successful}
use schapp.Finance.Books.{Books, find_invoice, find_payment}
use schapp.Finance.Sums.{Distinct, find_invoice-pk}

-- A bill agrees with its lines, its discount and its successful payments, and a bill that nobody
-- has closed has the status that the figures give.
pub record IsSound (s : Books) (i : Invoice) : Type 0 where
  pub paid : i.amount_paid ≡ sum_successful i.pk s.payments
  pub priced : i.subtotal ≡ sum_lines i.pk s.lines
  pub totalled : i.total ≡ max_ℤ (i.subtotal -ℤ i.discount) (pos 0)
  pub followed :
      is_closed i.status ≡ false → i.status ≡ status_for i.amount_paid i.total i.issued_at

-- A key that no row has yet, and that no row refers to with money.
pub record IsUnborn (s : Books) (k : ℕ) : Type 0 where
  pub no_invoice : find_invoice k s.invoices ≡ none
  pub no_payment : find_payment k s.payments ≡ none
  pub no_money : sum_successful k s.payments ≡ pos 0
  pub no_lines : sum_lines k s.lines ≡ pos 0

pub record IsValid (s : Books) : Type 0 where
  pub sound : (k : ℕ) (i : Invoice) → find_invoice k s.invoices ≡ some i → IsSound s i
  pub distinct : Distinct s.payments
  pub unborn : (k : ℕ) → s.next_pk ≤ k → IsUnborn s k

-- Two states that show the same of one bill.
pub record SameBill (s s' : Books) (k : ℕ) : Type 0 where
  pub same_invoice : find_invoice k s'.invoices ≡ find_invoice k s.invoices
  pub same_money : sum_successful k s'.payments ≡ sum_successful k s.payments
  pub same_lines : sum_lines k s'.lines ≡ sum_lines k s.lines

pub ==-ne : (a b : ℕ) → (a == b) ≡ false → a ≢ b
==-ne a b h e = ground arith

SameBill-IsSound :
    (s s' : Books) (k : ℕ) (i : Invoice)
    → IsValid s
    → SameBill s s' k
    → find_invoice k s'.invoices ≡ some i
    → IsSound s' i
SameBill-IsSound s s' k i v same h =
    let old : IsSound s i = v.sound k i (sym same.same_invoice ∙ h) in
    let key : i.pk ≡ k = find_invoice-pk k {i = i} s'.invoices h in
    record {
      paid = old.paid ∙ rw key (sym same.same_money);
      priced = old.priced ∙ rw key (sym same.same_lines);
      totalled = old.totalled;
      followed = old.followed;
    }

SameBill-IsUnborn :
    (s s' : Books) (k : ℕ)
    → SameBill s s' k
    → find_payment k s'.payments ≡ none
    → IsUnborn s k
    → IsUnborn s' k
SameBill-IsUnborn s s' k same free old = record {
  no_invoice = same.same_invoice ∙ old.no_invoice;
  no_payment = free;
  no_money = same.same_money ∙ old.no_money;
  no_lines = same.same_lines ∙ old.no_lines;
}

-- The keys of `s'`, where they are as good as those of a valid state.
pub record KeepsKeys (s s' : Books) : Type 0 where
  pub grows : s.next_pk ≤ s'.next_pk
  pub keys : Distinct s'.payments
  pub free : (k : ℕ) → s'.next_pk ≤ k → find_payment k s'.payments ≡ none

-- Everything but one bill stays, and that bill is sound: the state stays valid.
pub touch_bill :
    (bill : ℕ) (s s' : Books)
    → IsValid s
    → KeepsKeys s s'
    → bill < s'.next_pk
    → ((k : ℕ) → k ≢ bill → SameBill s s' k)
    → ((i : Invoice) → find_invoice bill s'.invoices ≡ some i → IsSound s' i)
    → IsValid s'
touch_bill bill s s' v keys born others self = record {
  sound = λ k i h. elim (Bool-cases (k == bill)) [
    | inl e ↦ self i (rw (← (==_iff k bill).0 e) h)
    | inr e ↦ SameBill-IsSound s s' k i v (others k (==-ne k bill e)) h
  ];
  distinct = keys.keys;
  unborn = λ k h.
      SameBill-IsUnborn s s' k (others k (omega arith)) (keys.free k h)
        (v.unborn k (omega (arith, keys.grows)));
}

-- Every bill stays as it is: the state stays valid.
pub touch_none :
    (s s' : Books) → IsValid s → KeepsKeys s s' → ((k : ℕ) → SameBill s s' k) → IsValid s'
touch_none s s' v keys same = record {
  sound = λ k i h. SameBill-IsSound s s' k i v (same k) h;
  distinct = keys.keys;
  unborn = λ k h.
      SameBill-IsUnborn s s' k (same k) (keys.free k h) (v.unborn k (omega (arith, keys.grows)));
}

-- A bill that is there has a key below the next one.
pub born :
    (bill : ℕ) (s : Books) {i : Invoice}
    → IsValid s
    → find_invoice bill s.invoices ≡ some i
    → bill < s.next_pk
born bill s v h = elim (dec_lt bill s.next_pk) [
  | yes p ↦ p
  | no p ↦ absurd (cc ((v.unborn bill (omega arith)).no_invoice))
]
