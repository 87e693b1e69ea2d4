-- ===== src/Numbering.antt =====
-- apps/people/numbering.py: admission, matriculation, staff, invoice and receipt numbers.
--
-- A format string is given as the pieces into which its placeholders cut it; `unknown` is a
-- placeholder that the code has no value for. A table's column is the list of its values.
pub mod Decimal
use schapp.Base.{
  ℕ, suc, ◌+◌, ◌-◌, ◌%◌, Bool, true, false, not, ◌&&◌, ◌||◌, Option, none, some, List, [], ◌∷◌,
  ◌++◌, any, select, length, Text, codes, text_eq, text_leb, starts_with, take, drop, if◌then◌else◌,
}
use schapp.Db.{Result, ok, err}
use Decimal.{show_padded, leading_digits, read_decimal}

pub data Field : Type 0 where
  yy yyyy dept prog level serial : Field

pub data Piece : Type 0 where
  literal : Text → Piece
  placeholder : Field → Piece
  unknown : Text → Piece

abbrev pub Format : Type 0
Format = List Piece

pub data NumberFormatError : Type 0 where
  unknown_placeholder empty_placeholder : NumberFormatError

pub record NumberContext : Type 0 where
  pub year : ℕ
  pub dept_code : Text
  pub prog_code : Text
  pub level_code : Text

abbrev pub serial_width : ℕ
serial_width = 4

abbrev pub default_admission_format : Format
default_admission_format = placeholder yy ∷ literal (codes "/") ∷ placeholder serial ∷ []

abbrev pub default_matric_format : Format
default_matric_format =
    placeholder dept
    ∷ literal (codes "/")
    ∷ placeholder yy
    ∷ literal (codes "/")
    ∷ placeholder serial
    ∷ []

abbrev pub default_staff_format : Format
default_staff_format =
    literal (codes "STF/") ∷ placeholder yy ∷ literal (codes "/") ∷ placeholder serial ∷ []

-- The dictionary `values` of `render`.
unfoldable pub value_of : NumberContext → ℕ → Field → Text
value_of context n yy = show_padded 2 (context.year % 100)
value_of context n yyyy = show_padded 0 context.year
value_of context n dept = context.dept_code
value_of context n prog = context.prog_code
value_of context n level = context.level_code
value_of context n serial = show_padded serial_width n

abbrev pub is_unknown : Piece → Bool
is_unknown (unknown _) = true
is_unknown _ = false

abbrev is_blank : Text → Bool
is_blank [] = true
is_blank (_ ∷ _) = false

abbrev pub is_serial : Piece → Bool
is_serial (placeholder serial) = true
is_serial _ = false

-- A placeholder other than the serial that this record has nothing for.
pub is_empty_placeholder : NumberContext → ℕ → Piece → Bool
is_empty_placeholder context n (placeholder serial) = false
is_empty_placeholder context n (placeholder f) = is_blank (value_of context n f)
is_empty_placeholder context n _ = false

-- `fmt.format(**values)`
unfoldable pub fill : NumberContext → ℕ → Format → Text
fill context n [] = []
fill context n (literal t ∷ fmt) = t ++ fill context n fmt
fill context n (placeholder f ∷ fmt) = value_of context n f ++ fill context n fmt
fill context n (unknown t ∷ fmt) = fill context n fmt

unfoldable pub render : Format → NumberContext → ℕ → Result NumberFormatError Text
unfolding is_empty_placeholder
render fmt context n =
    if any is_unknown fmt
    then err unknown_placeholder
    else if any (is_empty_placeholder context n) fmt
    then err empty_placeholder
    else ok (fill context n fmt)

-- `fmt.split("{serial}")[0]`
unfoldable pub before_serial : Format → Format
before_serial [] = []
before_serial (p ∷ fmt) = let rest = before_serial fmt in if is_serial p then [] else p ∷ rest

abbrev strip_serial : Result NumberFormatError Text → Result NumberFormatError Text
strip_serial (ok t) = ok (take (length t - serial_width) t)
strip_serial (err e) = err e

unfoldable pub prefix_of : Format → NumberContext → Result NumberFormatError Text
unfolding render before_serial
prefix_of fmt context =
    strip_serial (render (before_serial fmt ++ placeholder serial ∷ []) context 0)

-- `.order_by("-field").first()`
unfoldable pub highest : List Text → Option Text
highest [] = none
highest (t ∷ ts) = elim (highest ts) [
  | none ↦ some t
  | some u ↦ some (if text_leb u t then t else u)
]

-- The serial that follows the highest existing number: one past its leading digits, or 1.
unfoldable pub serial_after : Text → Option Text → ℕ
serial_after pre none = 1
serial_after pre (some existing) = elim (leading_digits (drop (length pre) existing)) [
  | [] ↦ 1
  | d ∷ ds ↦ read_decimal 0 (d ∷ ds) + 1
]

unfoldable pub next_number : List Text → Format → NumberContext → Result NumberFormatError Text
unfolding prefix_of highest serial_after
next_number column fmt context = elim (prefix_of fmt context) [
  | err e ↦ err e
  | ok pre ↦ render fmt context (serial_after pre (highest (select (starts_with pre) column)))
]
