-- ===== src/Phone/Msisdn.antt =====
-- apps/numbering/msisdn.py: Nigerian phone numbers, reduced to E.164.
--
-- A text is its code points. What libphonenumber and Unicode's table of digits say is a parameter:
-- `PhoneLibrary`.
pub mod Canonical
pub mod Stored
use schapp.Base.{
  ℕ, Bool, true, false, ◌&&◌, ◌||◌, not, Option, none, some, List, [], ◌∷◌, ◌++◌, ◌==◌, leb, any,
  all, find, select, length, if◌then◌else◌, Text, text_eq, starts_with, take, drop,
}
use schapp.Db.{Result, ok, err}

pub data MsisdnError : Type 0 where
  empty non_numeric bad_length unparseable unallocated_prefix not_personal : MsisdnError

pub record PhoneLibrary : Type 0 where
  -- `str.isdigit` of one code point beyond ASCII.
  pub is_unicode_digit : ℕ → Bool
  -- `phonenumbers.parse(e164, "NG")` then `is_possible_number`; none where the parse raises.
  pub is_possible : Text → Option Bool

pub data AllocationStatus : Type 0 where
  assigned withdrawn reserved available : AllocationStatus

-- A row of `selectors.allocation_map`.
pub record Allocation : Type 0 where
  pub ndc : Text
  pub status : AllocationStatus
  pub allows_user_accounts : Bool
  pub nsn_length : ℕ

-- `\s`
abbrev pub is_space : ℕ → Bool
is_space c =
    leb 9 c && leb c 13
    || leb 28 c && leb c 32
    || c == 133
    || c == 160
    || c == 5760
    || leb 8192 c && leb c 8202
    || c == 8232
    || c == 8233
    || c == 8239
    || c == 8287
    || c == 12288

-- `_SEPARATORS`: white space, `-`, `(`, `)` and `.`.
abbrev pub is_separator : ℕ → Bool
is_separator c = is_space c || c == 45 || c == 40 || c == 41 || c == 46

abbrev pub is_digit : PhoneLibrary → ℕ → Bool
is_digit l c = leb 48 c && leb c 57 || leb 128 c && l.is_unicode_digit c

-- `text.isdigit()`
abbrev pub is_number : PhoneLibrary → Text → Bool
is_number l [] = false
is_number l (c ∷ t) = is_digit l c && all (is_digit l) t

abbrev pub strip_plus : Text → Text
strip_plus [] = []
strip_plus (c ∷ t) = if c == 43 then t else c ∷ t

-- `_strip_separators`, without the flag that its caller discards.
abbrev pub strip_separators : Text → Text
strip_separators raw = strip_plus (select (λ c. not (is_separator c)) raw)

abbrev pub country_code : Text
country_code = 50 ∷ 51 ∷ 52 ∷ []

abbrev pub strip_zero : Text → Text
strip_zero [] = []
strip_zero (c ∷ t) = if c == 48 then t else c ∷ t

-- The national part: without the country code, and without one trunk zero.
abbrev pub national : Text → Text
national text = if starts_with country_code text then strip_zero (drop 3 text) else strip_zero text

abbrev pub of_length : Text → Result MsisdnError Text
of_length rest = if length rest == 10 then ok rest else err bad_length

unfoldable pub to_nsn : PhoneLibrary → Option Text → Result MsisdnError Text
to_nsn l none = err empty
to_nsn l (some raw) =
    if all is_space raw
    then err empty
    else if not (is_number l (strip_separators raw))
    then err non_numeric
    else of_length (national (strip_separators raw))

abbrev pub e164_prefix : Text
e164_prefix = 43 ∷ country_code

abbrev pub find_ndc : Text → List Allocation → Option Allocation
find_ndc ndc = find (λ (a : Allocation). text_eq a.ndc ndc)

abbrev pub or_found : Option Allocation → Option Allocation → Option Allocation
or_found (some a) b = some a
or_found none b = b

-- `lookup_allocation`: four digits after the zero, else three.
abbrev pub lookup_allocation : List Allocation → Text → Option Allocation
lookup_allocation table nsn =
    or_found (find_ndc (48 ∷ take 4 nsn) table) (find_ndc (48 ∷ take 3 nsn) table)

abbrev is_assigned : AllocationStatus → Bool
is_assigned AllocationStatus.assigned = true
is_assigned _ = false

-- `_assert_allocated`
abbrev pub allocation_error : Option Allocation → Text → Option MsisdnError
allocation_error none nsn = some unallocated_prefix
allocation_error (some a) nsn =
    if not (is_assigned a.status)
    then some unallocated_prefix
    else if not a.allows_user_accounts
    then some not_personal
    else if not (length nsn == a.nsn_length)
    then some bad_length
    else none

abbrev pub possibility_error : Option Bool → Option MsisdnError
possibility_error none = some unparseable
possibility_error (some b) = if b then none else some bad_length

-- The checks of `normalize` after the national number is known.
abbrev pub checked : PhoneLibrary → List Allocation → Text → Result MsisdnError Text
checked l table nsn = elim (possibility_error (l.is_possible (e164_prefix ++ nsn))) [
  | some x ↦ err x
  | none ↦ elim (allocation_error (lookup_allocation table nsn) nsn) [
    | some x ↦ err x
    | none ↦ ok (e164_prefix ++ nsn)
  ]
]

-- `normalize`, for the region NG.
unfoldable pub normalize : PhoneLibrary → List Allocation → Option Text → Result MsisdnError Text
unfolding to_nsn
normalize l table raw = elim (to_nsn l raw) [ err x ↦ err x | ok nsn ↦ checked l table nsn ]
