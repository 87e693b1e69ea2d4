-- ===== src/Grading/Order.antt =====
-- Which band a mark gets.
use mathlib.Core.Path.{subst}
use schapp.Base.{
  ℕ, ◌≤◌, ◌<◌, ◌≡◌, ◌⊎◌, inl, inr, refl, true, false, Option, none, some, List, [], ◌∷◌, leb, arith,
  All, Bool-cases,
}
use schapp.Grading.{Band, insert_band, sort_bands, first_cleared, band_for}

-- A band of a scale.
abbrev pub In : Band → List Band → Type 0
In b [] = ⊥
In b (c ∷ bs) = (b ≡ c) ⊎ In b bs

-- Bands by falling lower bound.
abbrev Falling : List Band → Type 0
Falling [] = Unit
Falling (b ∷ bs) = All (λ c. c.minimum ≤ b.minimum) bs × Falling bs

insert_band-before :
    (b c : Band) (bs : List Band)
    → leb c.minimum b.minimum ≡ true
    → insert_band b (c ∷ bs) ≡ b ∷ c ∷ bs
unfolding insert_band
insert_band-before b c bs e = rw e refl

insert_band-after :
    (b c : Band) (bs : List Band)
    → leb c.minimum b.minimum ≡ false
    → insert_band b (c ∷ bs) ≡ c ∷ insert_band b bs
unfolding insert_band
insert_band-after b c bs e = rw e refl

-- What holds of a new band and of a scale holds of the scale with the band in it.
All-insert_band :
    (P : Band → Type 0) (b : Band) (bs : List Band) → P b → All P bs → All P (insert_band b bs)
unfolding insert_band
All-insert_band P b [] h hs = (h, tt)
All-insert_band P b (c ∷ bs) h hs = elim (Bool-cases (leb c.minimum b.minimum)) [
  | inl e ↦ rw e (h, hs)
  | inr e ↦ rw e (hs.0, All-insert_band P b bs h hs.1)
]

All-insert_band-out :
    (P : Band → Type 0) (b : Band) (bs : List Band) → All P (insert_band b bs) → P b × All P bs
unfolding insert_band
All-insert_band-out P b [] hs = hs
All-insert_band-out P b (c ∷ bs) hs = elim (Bool-cases (leb c.minimum b.minimum)) [
  | inl e ↦ subst (All P) (insert_band-before b c bs e) hs
  | inr e ↦
      let h = subst (All P) (insert_band-after b c bs e) hs in
      let rest = All-insert_band-out P b bs h.1 in (rest.0, (h.0, rest.1))
]

All-sort_bands : (P : Band → Type 0) (bs : List Band) → All P (sort_bands bs) → All P bs
unfolding sort_bands
All-sort_bands P [] hs = tt
All-sort_bands P (b ∷ bs) hs =
    let rest = All-insert_band-out P b (sort_bands bs) hs in (rest.0, All-sort_bands P bs rest.1)

All-weaken : (P Q : Band → Type 0) (bs : List Band) → ((c : Band) → P c → Q c) → All P bs → All Q bs
All-weaken P Q [] f hs = tt
All-weaken P Q (c ∷ bs) f hs = (f c hs.0, All-weaken P Q bs f hs.1)

insert_band-Falling : (b : Band) (bs : List Band) → Falling bs → Falling (insert_band b bs)
unfolding insert_band
insert_band-Falling b [] f = (tt, tt)
insert_band-Falling b (c ∷ bs) f = elim (Bool-cases (leb c.minimum b.minimum)) [
  | inl e ↦
      let le : c.minimum ≤ b.minimum = ground arith in
      rw e (
        (
          le,
          All-weaken (λ d. d.minimum ≤ c.minimum) (λ d. d.minimum ≤ b.minimum) bs
              (λ d h. omega arith) f.0,
        ),
        f,
      )
  | inr e ↦
      let le : b.minimum ≤ c.minimum = ground arith in
      rw e (All-insert_band (λ d. d.minimum ≤ c.minimum) b bs le f.0, insert_band-Falling b bs f.1)
]

sort_bands-Falling : (bs : List Band) → Falling (sort_bands bs)
unfolding sort_bands
sort_bands-Falling [] = tt
sort_bands-Falling (b ∷ bs) = insert_band-Falling b (sort_bands bs) (sort_bands-Falling bs)

In-insert_band : (a b : Band) (bs : List Band) → In a (insert_band b bs) → In a (b ∷ bs)
unfolding insert_band
In-insert_band a b [] h = h
In-insert_band a b (c ∷ bs) h = elim (Bool-cases (leb c.minimum b.minimum)) [
  | inl e ↦ subst (In a) (insert_band-before b c bs e) h
  | inr e ↦ elim (subst (In a) (insert_band-after b c bs e) h) [
    | inl same ↦ inr (inl same)
    | inr later ↦ elim (In-insert_band a b bs later) [
      | inl same ↦ inl same
      | inr old ↦ inr (inr old)
    ]
  ]
]

In-sort_bands : (a : Band) (bs : List Band) → In a (sort_bands bs) → In a bs
unfolding sort_bands
In-sort_bands a [] h = h
In-sort_bands a (b ∷ bs) h = elim (In-insert_band a b (sort_bands bs) h) [
  | inl same ↦ inl same
  | inr later ↦ inr (In-sort_bands a bs later)
]

-- The best band that a value clears, or none where it clears none.
abbrev pub IsBest : List Band → ℕ → Option Band → Type 0
IsBest bands value none = All (λ c. value < c.minimum) bands
IsBest bands value (some b) =
    In b bands × (b.minimum ≤ value) × All (λ c. c.minimum ≤ value → c.minimum ≤ b.minimum) bands

-- A band below which the value lies changes neither the best band nor its absence.
IsBest-skip :
    (b : Band) (bs : List Band) (value : ℕ) (r : Option Band)
    → value < b.minimum
    → IsBest bs value r
    → IsBest (b ∷ bs) value r
IsBest-skip b bs value none lt h = (lt, h)
IsBest-skip b bs value (some c) lt h = (inr h.0, h.1, ((λ k. omega arith), h.2))

first_cleared-IsBest :
    (bs : List Band) (value : ℕ) → Falling bs → IsBest bs value (first_cleared bs value)
unfolding first_cleared
first_cleared-IsBest [] value f = tt
first_cleared-IsBest (b ∷ bs) value f = elim (Bool-cases (leb b.minimum value)) [
  | inl e ↦
      let le : b.minimum ≤ value = ground arith in
      rw e (
        inl refl,
        le,
        (
          (λ h. omega arith),
          All-weaken (λ c. c.minimum ≤ b.minimum) (λ c. c.minimum ≤ value → c.minimum ≤ b.minimum)
              bs (λ c h k. h) f.0,
        ),
      )
  | inr e ↦
      let lt : value < b.minimum = ground arith in
      rw e (IsBest-skip b bs value _ lt (first_cleared-IsBest bs value f.1))
]

IsBest-sorted :
    (bs : List Band) (value : ℕ) (r : Option Band)
    → IsBest (sort_bands bs) value r
    → IsBest bs value r
IsBest-sorted bs value none h = All-sort_bands (λ c. value < c.minimum) bs h
IsBest-sorted bs value (some b) h = (
  In-sort_bands b bs h.0,
  h.1,
  All-sort_bands (λ c. c.minimum ≤ value → c.minimum ≤ b.minimum) bs h.2,
)

-- For every scale, in whatever order its bands are listed, `band_for` answers with a band of the
-- scale that the value clears and whose lower bound is the highest of those it clears; and where it
-- answers none, the value lies below every band.
pub band_for-IsBest : (bands : List Band) (value : ℕ) → IsBest bands value (band_for bands value)
unfolding band_for
band_for-IsBest bands value =
    IsBest-sorted bands value _
      (first_cleared-IsBest (sort_bands bands) value (sort_bands-Falling bands))
