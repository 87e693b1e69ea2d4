-- ===== src/Grading.antt =====
-- apps/assessment/grading.py: percentages, bands, averages and positions. A `Decimal` that the
-- database stores has two places and is its hundredths here; `quantise` rounds half up to them.
pub mod Order
pub mod Rank
use schapp.Base.{
  ℕ, ◌+◌, Bool, true, false, ◌&&◌, not, Option, none, some, List, [], ◌∷◌, ◌++◌, map, ◌==◌, ltb,
  leb, if◌then◌else◌, Text, codes, length, ◌%◌, ◌*◌, ◌/◌,
}
use schapp.Numbering.Decimal.{show_decimal}

pub record Band : Type 0 where
  pub letter : Text
  pub minimum : ℕ
  pub maximum : ℕ
  pub point : ℕ
  pub remark : Text

abbrev pub contains : Band → ℕ → Bool
contains self percentage = leb self.minimum percentage && leb percentage self.maximum

-- A quotient, rounded half up to the nearest whole unit.
abbrev pub round_half_up : ℕ → ℕ → ℕ
round_half_up a b = (2 * a + b) / (2 * b)

-- `quantise(Decimal(total) * 100 / Decimal(max_total))`, in hundredths of a per cent
unfoldable pub percentage : ℕ → ℕ → ℕ
percentage total max_total = if max_total == 0 then 0 else round_half_up (total * 10000) max_total

-- `sorted(bands, key=lambda b: b.minimum, reverse=True)`: descending, and stable among equals.
unfoldable pub insert_band : Band → List Band → List Band
insert_band b [] = b ∷ []
insert_band b (c ∷ bs) =
    let rest = insert_band b bs in if leb c.minimum b.minimum then b ∷ c ∷ bs else c ∷ rest

unfoldable pub sort_bands : List Band → List Band
unfolding insert_band
sort_bands [] = []
sort_bands (b ∷ bs) = insert_band b (sort_bands bs)

unfoldable pub first_cleared : List Band → ℕ → Option Band
first_cleared [] value = none
first_cleared (b ∷ bs) value =
    let rest = first_cleared bs value in if leb b.minimum value then some b else rest

unfoldable pub band_for : List Band → ℕ → Option Band
unfolding sort_bands first_cleared
band_for bands value = first_cleared (sort_bands bands) value

abbrev pub sum : List ℕ → ℕ
sum [] = 0
sum (x ∷ xs) = x + sum xs

unfoldable pub average : List ℕ → ℕ
average [] = 0
average (v ∷ vs) = round_half_up (sum (v ∷ vs)) (length (v ∷ vs))

-- The two running totals of `grade_point_average`.
unfoldable pub weigh : List (ℕ × ℕ) → ℕ × ℕ
weigh [] = (0, 0)
weigh ((point, unit) ∷ entries) =
    let rest = weigh entries in if unit == 0 then rest else (point * unit + rest.0, unit + rest.1)

unfoldable pub grade_point_average : List (ℕ × ℕ) → Option ℕ
unfolding weigh
grade_point_average entries =
    let totals = weigh entries in
    if totals.1 == 0 then none else some (round_half_up totals.0 totals.1)

-- `sorted(range(len(values)), key=…, reverse=True)`, each place with its value.
unfoldable pub insert_place : ℕ × ℕ → List (ℕ × ℕ) → List (ℕ × ℕ)
insert_place p [] = p ∷ []
insert_place p (q ∷ qs) =
    let rest = insert_place p qs in if leb q.1 p.1 then p ∷ q ∷ qs else q ∷ rest

unfoldable pub ordered : ℕ → List ℕ → List (ℕ × ℕ)
unfolding insert_place
ordered index [] = []
ordered index (v ∷ vs) = insert_place (index, v) (ordered (index + 1) vs)

abbrev pub same_value : Option ℕ → ℕ → Bool
same_value none v = false
same_value (some u) v = v == u

-- The loop: each place in order, with its position.
unfoldable pub assign : ℕ → Option ℕ → ℕ → List (ℕ × ℕ) → List (ℕ × ℕ)
assign offset previous previous_position [] = []
assign offset previous previous_position ((index, v) ∷ places) =
    let tied = assign (offset + 1) previous previous_position places in
    let fresh = assign (offset + 1) (some v) offset places in
    if same_value previous v then (index, previous_position) ∷ tied else (index, offset) ∷ fresh

-- `positions[index]`, 0 where the loop has not written it
unfoldable pub position_of : ℕ → List (ℕ × ℕ) → ℕ
position_of index [] = 0
position_of index ((i, position) ∷ rest) =
    let later = position_of index rest in if i == index then position else later

unfoldable pub rank_from : ℕ → List ℕ → List (ℕ × ℕ) → List ℕ
rank_from index [] positions = []
rank_from index (v ∷ vs) positions =
    position_of index positions ∷ rank_from (index + 1) vs positions

unfoldable pub rank : List ℕ → List ℕ
unfolding ordered assign rank_from position_of
rank values = rank_from 0 values (assign 1 none 0 (ordered 0 values))

abbrev suffix : ℕ → Text
suffix digit =
    if digit == 1
    then codes "st"
    else if digit == 2
    then codes "nd"
    else if digit == 3
    then codes "rd"
    else codes "th"

unfoldable pub ordinal : ℕ → Text
ordinal position =
    if position == 0
    then []
    else if leb 11 (position % 100) && leb (position % 100) 13
    then show_decimal position ++ codes "th"
    else show_decimal position ++ suffix (position % 10)
