-- ===== src/Finance/Sums.antt =====
-- How the reads of the finance tables (find, sums, distinct keys) answer after a write.
use mathlib.Core.Path.{subst}
use schapp.Base.{
  map_opt, sym, ℕ, ◌≡◌, refl, ap, ◌&&◌, none, some, List, [], ◌∷◌, map_if, ◌==◌, if◌then◌else◌,
  arith, Bool-cases, inl, inr, Text, text_eq_iff, ◌∙◌,
}
use schapp.Int.{ℤ, pos, ◌+ℤ◌, pos_part, neg_part, eq_of_parts, int_laws}
use schapp.Finance.Models.{Invoice, Payment, is_success, sum_successful}
use schapp.Finance.Books.{find_invoice, find_payment, find_reference}

-- What one payment brings to the bill `k`.
abbrev pub contribution : ℕ → Payment → ℤ
contribution k p = if p.invoice == k && is_success p.status then p.amount else pos 0

-- No two payments have one key.
abbrev pub Distinct : List Payment → Type 0
Distinct [] = Unit
Distinct (p ∷ ps) = (find_payment p.pk ps ≡ none) × Distinct ps

-- A write that keeps the key, seen by a read through a key.
pub find_invoice-map_if :
    (j k : ℕ) (w : Invoice → Invoice) (is : List Invoice)
    → ((i : Invoice) → (w i).pk ≡ i.pk)
    → find_invoice j (map_if (λ i. i.pk == k) w is)
      ≡ (if j == k then map_opt w (find_invoice j is) else find_invoice j is)
unfolding find_invoice
find_invoice-map_if j k w [] keep = ground arith
find_invoice-map_if j k w (i ∷ is) keep = ground (arith, keep i, find_invoice-map_if j k w is keep)

pub find_payment-map_if :
    (j k : ℕ) (w : Payment → Payment) (ps : List Payment)
    → ((p : Payment) → p.pk ≡ k → (w p).pk ≡ k)
    → find_payment j (map_if (λ p. p.pk == k) w ps)
      ≡ (if j == k then map_opt w (find_payment j ps) else find_payment j ps)
unfolding find_payment
find_payment-map_if j k w [] keep = ground arith
find_payment-map_if j k w (p ∷ ps) keep = ground (arith, keep p, find_payment-map_if j k w ps keep)

pub Distinct-map_if :
    (k : ℕ) (w : Payment → Payment) (ps : List Payment)
    → ((p : Payment) → p.pk ≡ k → (w p).pk ≡ k)
    → Distinct ps
    → Distinct (map_if (λ p. p.pk == k) w ps)
Distinct-map_if k w [] keep d = tt
Distinct-map_if k w (p ∷ ps) keep d =
    ground (arith, keep p, find_payment-map_if p.pk k w ps keep, Distinct-map_if k w ps keep d.1)

-- A key that no row has: a write by that key changes nothing.
map_if-absent :
    (k : ℕ) (w : Payment → Payment) (ps : List Payment)
    → find_payment k ps ≡ none
    → map_if (λ p. p.pk == k) w ps ≡ ps
unfolding find_payment
map_if-absent k w [] h = refl
map_if-absent k w (p ∷ ps) h = ground (arith, map_if-absent k w ps)

+ℤ_swap : (a x y c d : ℤ) → x +ℤ c ≡ y +ℤ d → a +ℤ x +ℤ c ≡ a +ℤ y +ℤ d
+ℤ_swap a x y c d h = eq_of_parts _ _ (omega (int_laws, ap pos_part h, ap neg_part h))

pub sum_successful-cons :
    (b : ℕ) (p : Payment) (ps : List Payment)
    → sum_successful b (p ∷ ps) ≡ contribution b p +ℤ sum_successful b ps
unfolding sum_successful
sum_successful-cons b p ps = grind int_laws

-- Writing one payment moves every bill's sum by the difference that the payment makes to it.
pub sum_successful-map_if :
    (b k : ℕ) (w : Payment → Payment) {p : Payment} (ps : List Payment)
    → Distinct ps
    → find_payment k ps ≡ some p
    → sum_successful b (map_if (λ q. q.pk == k) w ps) +ℤ contribution b p
      ≡ sum_successful b ps +ℤ contribution b (w p)
unfolding find_payment
sum_successful-map_if b k w [] d h = cc
sum_successful-map_if b k w {p} (q ∷ qs) d h = elim (Bool-cases (q.pk == k)) [
  | inl e ↦
      let same : q ≡ p = ground arith in
      rw
        (
          e,
          map_if-absent k w qs (ground arith),
          sum_successful-cons b (w q) qs,
          sum_successful-cons b q qs,
          same,
        )
        (omega int_laws)
  | inr e ↦
      rw (e, sum_successful-cons b q (map_if (λ x. x.pk == k) w qs), sum_successful-cons b q qs)
        (+ℤ_swap (contribution b q) _ _ _ _
          (sum_successful-map_if b k w {p = p} qs d.1 (ground arith)))
]

pub find_payment-pk :
    (k : ℕ) {p : Payment} (ps : List Payment) → find_payment k ps ≡ some p → p.pk ≡ k
unfolding find_payment
find_payment-pk k [] h = cc
find_payment-pk k {p} (q ∷ qs) h = ground (arith, find_payment-pk k {p = p} qs)

pub find_invoice-pk :
    (k : ℕ) {i : Invoice} (is : List Invoice) → find_invoice k is ≡ some i → i.pk ≡ k
unfolding find_invoice
find_invoice-pk k [] h = cc
find_invoice-pk k {i} (q ∷ qs) h = ground (arith, find_invoice-pk k {i = i} qs)

-- A row is found again by the key that it carries.
pub find_invoice_self :
    (k : ℕ) (i : Invoice) (is : List Invoice)
    → find_invoice k is ≡ some i
    → find_invoice i.pk is ≡ some i
find_invoice_self k i is h =
    subst (λ j. find_invoice j is ≡ some i) (sym (find_invoice-pk k {i = i} is h)) h

-- A row found by its reference is the row of its key, and has that reference.
pub find_reference-find_payment :
    (r : Text) {p : Payment} (ps : List Payment)
    → Distinct ps
    → find_reference r ps ≡ some p
    → (find_payment p.pk ps ≡ some p) × (p.reference ≡ r)
unfolding find_reference find_payment
find_reference-find_payment r [] d h = cc
find_reference-find_payment r {p} (q ∷ qs) d h = ground (
  arith,
  text_eq_iff q.reference r,
  find_reference-find_payment r {p = p} qs d.1,
  find_payment-pk p.pk {p = p} qs,
)

+ℤ_cancel : (x y c : ℤ) → x +ℤ c ≡ y +ℤ c → x ≡ y
+ℤ_cancel x y c h = eq_of_parts x y (omega (int_laws, ap pos_part h, ap neg_part h))

-- A write that changes nothing for the bill `b` leaves its sum.
pub sum_successful-same :
    (b k : ℕ) (w : Payment → Payment) (p : Payment) (ps : List Payment)
    → Distinct ps
    → find_payment k ps ≡ some p
    → contribution b (w p) ≡ contribution b p
    → sum_successful b (map_if (λ q. q.pk == k) w ps) ≡ sum_successful b ps
sum_successful-same b k w p ps d h same =
    +ℤ_cancel _ _ (contribution b p)
      (sum_successful-map_if b k w {p = p} ps d h ∙ ap (λ c. sum_successful b ps +ℤ c) same)
