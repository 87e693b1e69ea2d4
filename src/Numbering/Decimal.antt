-- ===== src/Numbering/Decimal.antt =====
-- Decimal digits of a number: `str(n)`, `f"{n:04d}"`, `re.match(r"\d+", s)` and `int(s)`.
use schapp.Base.{
  ℕ, zero, suc, ◌+◌, ◌-◌, ◌*◌, ◌/◌, ◌%◌, Bool, ◌&&◌, [], ◌∷◌, ◌++◌, length, leb, ltb, Text,
  replicate, if◌then◌else◌,
}

-- Digits of `n` in front of `acc`; a number has fewer digits than `n + 1`.
unfoldable pub show_fuel : ℕ → ℕ → Text → Text
show_fuel zero n acc = acc
show_fuel (suc f) n acc =
    let rest = show_fuel f (n / 10) ((48 + n % 10) ∷ acc) in
    if ltb n 10 then (48 + n % 10) ∷ acc else rest

unfoldable pub show_decimal : ℕ → Text
unfolding show_fuel
show_decimal n = show_fuel (n + 1) n []

-- `f"{n:0{width}d}"`
unfoldable pub show_padded : ℕ → ℕ → Text
unfolding show_decimal
show_padded width n =
    let digits = show_decimal n in replicate (width - length digits) b'0' ++ digits

abbrev pub is_digit : ℕ → Bool
is_digit c = leb b'0' c && leb c b'9'

unfoldable pub leading_digits : Text → Text
leading_digits [] = []
leading_digits (c ∷ s) = let rest = leading_digits s in if is_digit c then c ∷ rest else []

unfoldable pub read_decimal : ℕ → Text → ℕ
read_decimal acc [] = acc
read_decimal acc (c ∷ s) = read_decimal (acc * 10 + (c - 48)) s
