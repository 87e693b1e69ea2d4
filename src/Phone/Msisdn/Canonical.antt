-- ===== src/Phone/Msisdn/Canonical.antt =====
-- One number, one text: the dialling forms of a number, and what is stored of it.
use schapp.Base.{
  ℕ, ◌≡◌, refl, Bool, true, false, ◌&&◌, not, Option, some, none, [], ◌∷◌, ◌++◌, all, select,
  length, leb, Text, starts_with, arith, ◌==◌, ◌||◌, Bool-cases, inl, inr, ◌≢◌, ap, sym, ◌∙◌,
  ==_iff, zero, suc, drop,
}
use schapp.Db.{Result, ok, err}
use schapp.Phone.Msisdn.{
  PhoneLibrary, MsisdnError, is_space, is_separator, is_digit, is_number, strip_separators,
  country_code, strip_zero, national, of_length, to_nsn, e164_prefix,
}

and_left : (a b : Bool) → (a && b) ≡ true → a ≡ true
and_left a b h = ground arith

and_right : (a b : Bool) → (a && b) ≡ true → b ≡ true
and_right a b h = ground arith

or_right : (a b : Bool) → a ≡ false → (a || b) ≡ true → b ≡ true
or_right a b h g = ground arith

first_not : (c : ℕ) → starts_with (48 ∷ []) (c ∷ []) ≡ false → (c == 48) ≡ false
first_not c h = ground arith

pub ok-inj : {x y : Text} → ◌≡◌ {A = Result MsisdnError Text} (ok x) (ok y) → x ≡ y
ok-inj h = cc

pub err≢ok : {x : MsisdnError} {y : Text} → ◌≢◌ {A = Result MsisdnError Text} (err x) (ok y)
err≢ok = λ h. cc

-- Unicode's digits are not white space.
abbrev pub NoSpace : PhoneLibrary → Type 0
NoSpace l = (c : ℕ) → l.is_unicode_digit c ≡ true → is_space c ≡ false

ascii_kept : (c : ℕ) → (leb 48 c && leb c 57) ≡ true → is_separator c ≡ false
ascii_kept c h = ground arith

unicode_kept : (c : ℕ) → leb 128 c ≡ true → is_space c ≡ false → is_separator c ≡ false
unicode_kept c h g = ground arith

digit_kept : (l : PhoneLibrary) (c : ℕ) → NoSpace l → is_digit l c ≡ true → is_separator c ≡ false
digit_kept l c clean h = elim (Bool-cases (leb 48 c && leb c 57)) [
  | inl ascii ↦ ascii_kept c ascii
  | inr beyond ↦
      let wide = or_right (leb 48 c && leb c 57) _ beyond h in
      unicode_kept c (and_left _ _ wide) (clean c (and_right (leb 128 c) _ wide))
]

select_digits :
    (l : PhoneLibrary) (t : Text)
    → NoSpace l
    → all (is_digit l) t ≡ true
    → select (λ c. not (is_separator c)) t ≡ t
select_digits l [] clean h = refl
select_digits l (c ∷ t) clean h =
    rw
      (
        digit_kept l c clean (and_left _ _ h),
        select_digits l t clean (and_right (is_digit l c) _ h),
      )
      refl

no_zero : (t : Text) → starts_with (48 ∷ []) t ≡ false → strip_zero t ≡ t
no_zero [] h = refl
no_zero (c ∷ t) h = rw (first_not c h) refl

-- Ten digits, the first not zero.
abbrev pub IsNational : PhoneLibrary → Text → Type 0
IsNational l t = (all (is_digit l) t ≡ true) × (length t ≡ 10) × (starts_with (48 ∷ []) t ≡ false)

-- A national number in its three dialling forms, with `+234`, with the trunk zero, and with both
-- the code and the zero, is reduced to itself.
pub to_nsn_lem :
    (l : PhoneLibrary) (nsn : Text)
    → NoSpace l
    → IsNational l nsn
    → (to_nsn l (some (e164_prefix ++ nsn)) ≡ ok nsn)
      × (to_nsn l (some (48 ∷ nsn)) ≡ ok nsn)
      × (to_nsn l (some (country_code ++ 48 ∷ nsn)) ≡ ok nsn)
unfolding to_nsn
to_nsn_lem l nsn clean v =
    let same = select_digits l nsn clean v.0 in
    (rw (same, v.0, no_zero nsn v.2, v.1) refl, rw (same, v.0, v.1) refl, rw (same, v.0, v.1) refl)

strip_zero_digits :
    (l : PhoneLibrary) (t : Text)
    → all (is_digit l) t ≡ true
    → all (is_digit l) (strip_zero t) ≡ true
strip_zero_digits l [] h = h
strip_zero_digits l (c ∷ t) h = elim (Bool-cases (c == 48)) [
  | inl e ↦ rw e (and_right (is_digit l c) _ h)
  | inr e ↦ rw e h
]

drop_digits :
    (l : PhoneLibrary) (n : ℕ) (t : Text)
    → all (is_digit l) t ≡ true
    → all (is_digit l) (drop n t) ≡ true
drop_digits l zero t h = h
drop_digits l (suc n) [] h = h
drop_digits l (suc n) (c ∷ t) h = drop_digits l n t (and_right (is_digit l c) _ h)

national_digits :
    (l : PhoneLibrary) (t : Text) → all (is_digit l) t ≡ true → all (is_digit l) (national t) ≡ true
national_digits l t h = elim (Bool-cases (starts_with country_code t)) [
  | inl e ↦ rw e (strip_zero_digits l (drop 3 t) (drop_digits l 3 t h))
  | inr e ↦ rw e (strip_zero_digits l t h)
]

number_digits : (l : PhoneLibrary) (t : Text) → is_number l t ≡ true → all (is_digit l) t ≡ true
number_digits l [] h = refl
number_digits l (c ∷ t) h = h

of_length_ok : (t nsn : Text) → of_length t ≡ ok nsn → (t ≡ nsn) × (length nsn ≡ 10)
of_length_ok t nsn h = elim (Bool-cases (length t == 10)) [
  | inl e ↦
      let same = ok-inj (rw e at h) in (same, ap length (sym same) ∙ (==_iff (length t) 10).0 e)
  | inr e ↦ absurd (err≢ok (rw e at h))
]

-- A number that is returned has ten digits.
pub to_nsn_digits :
    (l : PhoneLibrary) (raw : Option Text) (nsn : Text)
    → to_nsn l raw ≡ ok nsn
    → (all (is_digit l) nsn ≡ true) × (length nsn ≡ 10)
unfolding to_nsn
to_nsn_digits l none nsn h = absurd (err≢ok h)
to_nsn_digits l (some raw) nsn h = elim (Bool-cases (all is_space raw)) [
  | inl blank ↦ absurd (err≢ok (rw blank at h))
  | inr full ↦ elim (Bool-cases (is_number l (strip_separators raw))) [
    | inr bad ↦ absurd (err≢ok (rw (full, bad) at h))
    | inl good ↦
        let made = of_length_ok (national (strip_separators raw)) nsn (rw (full, good) at h) in
        (
          ap (all (is_digit l)) (sym made.0)
              ∙ national_digits l (strip_separators raw)
                  (number_digits l (strip_separators raw) good),
          made.1,
        )
  ]
]
