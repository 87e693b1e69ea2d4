-- ===== src/Phone/Msisdn/Stored.antt =====
-- The stored form of a number is read back as itself.
use mathlib.Core.Path.{subst}
use schapp.Base.{
  ℕ, All, All-find, List, [], ◌∷◌, ◌++◌, Option, some, Option-cases, Text, text_eq, text_eq→eq,
  starts_with, ◌≡◌, refl, false, take, length, inl, inr,
}
use schapp.Db.{ok}
use schapp.Db.Rules.{Result-cases}
use schapp.Phone.Msisdn.{
  PhoneLibrary, Allocation, to_nsn, e164_prefix, checked, normalize, lookup_allocation, find_ndc,
  allocation_error, possibility_error,
}
use schapp.Phone.Msisdn.Canonical.{NoSpace, to_nsn_lem, to_nsn_digits, ok-inj, err≢ok}

-- No NDC of the table starts with two zeros.
abbrev pub OneZero : List Allocation → Type 0
OneZero table = All (λ (a : Allocation). starts_with (48 ∷ 48 ∷ []) a.ndc ≡ false) table

find_ndc-starts :
    (ndc : Text) (table : List Allocation) (a : Allocation)
    → OneZero table
    → find_ndc ndc table ≡ some a
    → starts_with (48 ∷ 48 ∷ []) ndc ≡ false
find_ndc-starts ndc table a one found =
    let here =
      All-find (λ (b : Allocation). starts_with (48 ∷ 48 ∷ []) b.ndc ≡ false)
        (λ (b : Allocation). text_eq b.ndc ndc) table a one found in
    subst (λ t. starts_with (48 ∷ 48 ∷ []) t ≡ false) (text_eq→eq a.ndc ndc here.1) here.0

-- A number that the table knows does not start with a zero.
lookup-starts :
    (table : List Allocation) (c : ℕ) (t : Text) (a : Allocation)
    → OneZero table
    → lookup_allocation table (c ∷ t) ≡ some a
    → starts_with (48 ∷ []) (c ∷ t) ≡ false
lookup-starts table c t a one found = elim (Option-cases (find_ndc (48 ∷ take 4 (c ∷ t)) table)) [
  | inr (b, long) ↦ find_ndc-starts (48 ∷ take 4 (c ∷ t)) table b one long
  | inl no_long ↦ find_ndc-starts (48 ∷ take 3 (c ∷ t)) table a one (rw no_long at found)
]

starts :
    (table : List Allocation) (nsn : Text) (a : Allocation)
    → OneZero table
    → length nsn ≡ 10
    → lookup_allocation table nsn ≡ some a
    → starts_with (48 ∷ []) nsn ≡ false
starts table [] a one h found = refl
starts table (c ∷ t) a one h found = lookup-starts table c t a one found

-- What a number that passes the checks is.
checked_ok :
    (l : PhoneLibrary) (table : List Allocation) (nsn e : Text)
    → checked l table nsn ≡ ok e
    → ((a : Allocation) × (lookup_allocation table nsn ≡ some a)) × (e164_prefix ++ nsn ≡ e)
checked_ok l table nsn e h =
    elim (Option-cases (possibility_error (l.is_possible (e164_prefix ++ nsn)))) [
      | inr (x, bad) ↦ absurd (err≢ok (rw (checked, bad) at h))
      | inl good ↦ elim (Option-cases (lookup_allocation table nsn)) [
        | inl unknown ↦ absurd (err≢ok (rw (checked, good, unknown) at h))
        | inr (a, known) ↦ elim (Option-cases (allocation_error (some a) nsn)) [
          | inr (x, bad) ↦ absurd (err≢ok (rw (checked, good, known, bad) at h))
          | inl fine ↦ ((a, known), ok-inj (rw (checked, good, known, fine) at h))
        ]
      ]
    ]

-- What `normalize` returns, from a table whose NDCs start with one zero, it returns again when it
-- is given it: a stored number is in the one form that every spelling of it is reduced to.
pub normalize-again :
    (l : PhoneLibrary) (table : List Allocation) (raw : Option Text) (e : Text)
    → NoSpace l
    → OneZero table
    → normalize l table raw ≡ ok e
    → normalize l table (some e) ≡ ok e
unfolding normalize
normalize-again l table raw e clean one h = elim (Result-cases (to_nsn l raw)) [
  | inl (x, bad) ↦ absurd (err≢ok (rw (normalize, bad) at h))
  | inr (nsn, good) ↦
      let kept = rw (normalize, good) at h in
      let made = checked_ok l table nsn e kept in
      let digits = to_nsn_digits l raw nsn good in
      let again =
        (to_nsn_lem l nsn clean
          (digits.0, digits.1, starts table nsn made.0.0 one digits.1 made.0.1)).0 in
      subst (λ t. normalize l table (some t) ≡ ok e) made.1 (rw (normalize, again) kept)
]
