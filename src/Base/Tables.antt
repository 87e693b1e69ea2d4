-- ===== src/Base/Tables.antt =====
-- Rows under a key: a table has one row with an object's key, and it is the object.
use schapp.Base.Tests.{◌==◌, Bool-cases, ==_refl}
use schapp.Base.Lists.{length, select, map_if, All, All-map_if, All_weaken, All-append_one}
use Prim.Native.Nat.{ℕ, ◌+◌}
use mathlib.Core.Path.{◌≡◌, refl, ap}
use mathlib.Core.Logic.{◌⊎◌, inl, inr}
use mathlib.Core.Bool.{Bool, true, false}
use mathlib.Core.List.{List, [], ◌∷◌, ◌++◌}
use native.Mathlib.Omega.{arith}

abbrev pub bit : Bool → ℕ
bit true = 1
bit false = 0

module _ {A : Type 0} where
  abbrev pub Others : (A → ℕ) → A → List A → Type 0
  Others key x = All (λ y. (key y == key x) ≡ false)

  abbrev pub IsRow : (A → ℕ) → A → List A → Type 0
  IsRow key x [] = ⊥
  IsRow key x (y ∷ ys) = ((y ≡ x) × Others key x ys) ⊎ (((key y == key x) ≡ false) × IsRow key x ys)

  pub map_if-Others :
      (key : A → ℕ) (x : A) (w : A → A) (ys : List A)
      → Others key x ys
      → map_if (λ y. key y == key x) w ys ≡ ys
  map_if-Others key x w [] h = refl
  map_if-Others key x w (y ∷ ys) h = rw h.0 (ap (λ zs. y ∷ zs) (map_if-Others key x w ys h.1))

  pub count_cons :
      (p : A → Bool) (x : A) (xs : List A)
      → length (select p (x ∷ xs)) ≡ bit (p x) + length (select p xs)
  count_cons p x xs = elim (Bool-cases (p x)) [
    | inl e ↦ rw e (omega arith)
    | inr e ↦ rw e (omega arith)
  ]

  -- How a write of one row moves a count.
  pub count_write :
      (key : A → ℕ) (x : A) (w : A → A) (p : A → Bool) (xs : List A)
      → IsRow key x xs
      → length (select p (map_if (λ y. key y == key x) w xs)) + bit (p x)
        ≡ length (select p xs) + bit (p (w x))
  count_write key x w p [] h = absurd h
  count_write key x w p (y ∷ ys) (inl (same, others)) =
      rw (same, ==_refl (key x), map_if-Others key x w ys others)
        (omega (arith, count_cons p (w x) ys, count_cons p x ys))
  count_write key x w p (y ∷ ys) (inr (other, h)) = rw other (
      omega (
        arith,
        count_cons p y (map_if (λ u. key u == key x) w ys),
        count_cons p y ys,
        count_write key x w p ys h,
      ))

  Others-write :
      (key : A → ℕ) (x z : A) (w : A → A) (xs : List A)
      → ((y : A) → key (w y) ≡ key y)
      → Others key z xs
      → Others key z (map_if (λ y. key y == key x) w xs)
  Others-write key x z w xs same h =
      All-map_if (λ y. (key y == key z) ≡ false) (λ y. (key y == key z) ≡ false)
        (λ y. key y == key x) w xs (λ y g e. rw (same y) g) (λ y g e. g) h

  -- Another row stays what it was.
  pub IsRow-write :
      (key : A → ℕ) (x z : A) (w : A → A) (xs : List A)
      → ((y : A) → key (w y) ≡ key y)
      → (key z == key x) ≡ false
      → IsRow key z xs
      → IsRow key z (map_if (λ y. key y == key x) w xs)
  IsRow-write key x z w [] same apart h = h
  IsRow-write key x z w (y ∷ ys) same apart (inl (here, others)) =
      rw (here, apart) (inl (refl, Others-write key x z w ys same others))
  IsRow-write key x z w (y ∷ ys) same apart (inr (other, h)) = elim (Bool-cases (key y == key x)) [
    | inl e ↦ rw (e, same y, other) (inr (refl, IsRow-write key x z w ys same apart h))
    | inr e ↦ rw (e, other) (inr (refl, IsRow-write key x z w ys same apart h))
  ]

  -- The objects of a list stand in the table, each under a key of its own.
  abbrev pub Rows : (A → ℕ) → List A → List A → Type 0
  Rows key [] ys = Unit
  Rows key (x ∷ xs) ys = IsRow key x ys × (Others key x xs × Rows key xs ys)

  pub Rows-write :
      (key : A → ℕ) (x : A) (w : A → A) (zs ys : List A)
      → ((y : A) → key (w y) ≡ key y)
      → Others key x zs
      → Rows key zs ys
      → Rows key zs (map_if (λ y. key y == key x) w ys)
  Rows-write key x w [] ys same apart h = tt
  Rows-write key x w (z ∷ zs) ys same apart h = (
    IsRow-write key x z w ys same apart.0 h.0,
    (h.1.0, Rows-write key x w zs ys same apart.1 h.1.1),
  )

  -- Every row under the object's key is the object.
  pub IsRow-only :
      (key : A → ℕ) (x : A) (ys : List A)
      → IsRow key x ys
      → All (λ y. ((key y == key x) ≡ false) ⊎ (y ≡ x)) ys
  IsRow-only key x [] h = absurd h
  IsRow-only key x (y ∷ ys) (inl (here, others)) =
      (inr here, All_weaken _ _ ys (λ z g. inl g) others)
  IsRow-only key x (y ∷ ys) (inr (other, h)) = (inl other, IsRow-only key x ys h)

  -- A row under another key is added.
  IsRow-append :
      (key : A → ℕ) (x z : A) (ys : List A)
      → (key z == key x) ≡ false
      → IsRow key x ys
      → IsRow key x (ys ++ z ∷ [])
  IsRow-append key x z [] apart h = absurd h
  IsRow-append key x z (y ∷ ys) apart (inl (here, others)) =
      inl (here, All-append_one (λ u. (key u == key x) ≡ false) z ys others apart)
  IsRow-append key x z (y ∷ ys) apart (inr (other, h)) =
      inr (other, IsRow-append key x z ys apart h)

  pub Rows-append :
      (key : A → ℕ) (xs : List A) (z : A) (ys : List A)
      → All (λ x. (key z == key x) ≡ false) xs
      → Rows key xs ys
      → Rows key xs (ys ++ z ∷ [])
  Rows-append key [] z ys apart h = tt
  Rows-append key (x ∷ xs) z ys apart h =
      (IsRow-append key x z ys apart.0 h.0, (h.1.0, Rows-append key xs z ys apart.1 h.1.1))
