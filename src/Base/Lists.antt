-- ===== src/Base/Lists.antt =====
-- Lists under the library's names, over the native numbers, with Boolean tests that run.
use mathlib.Core.Logic.{◌⊎◌, inl, inr, ◌≢◌}
use Prim.Native.Nat.{ℕ, suc, ◌+◌}
use mathlib.Core.Path.{◌≡◌, refl, ap, sym, ◌∙◌, subst}
use mathlib.Core.Bool.{Bool, true, false, ◌&&◌, ◌||◌, not}
use mathlib.Core.List.{List, [], ◌∷◌, ◌++◌}
use mathlib.Core.Option.{Option, none, some}
use native.Mathlib.Omega.{arith}
use schapp.Base.Tests.{if◌then◌else◌, Bool-cases}

module _ {ℓ} {A : Type ℓ} where
  abbrev pub length : List A → ℕ
  length [] = 0
  length (x ∷ xs) = suc (length xs)

  abbrev pub any : (A → Bool) → List A → Bool
  any p [] = false
  any p (x ∷ xs) = p x || any p xs

  abbrev pub all : (A → Bool) → List A → Bool
  all p [] = true
  all p (x ∷ xs) = p x && all p xs

  -- The elements that pass a test, in order.
  abbrev pub select : (A → Bool) → List A → List A
  select p [] = []
  select p (x ∷ xs) = let rest = select p xs in if p x then x ∷ rest else rest

  -- The first element that passes a test.
  abbrev pub find : (A → Bool) → List A → Option A
  find p [] = none
  find p (x ∷ xs) = let rest = find p xs in if p x then some x else rest

  -- `for row in rows: if p(row): row = f(row)`
  abbrev pub map_if : (A → Bool) → (A → A) → List A → List A
  map_if p f [] = []
  map_if p f (x ∷ xs) = (if p x then f x else x) ∷ map_if p f xs

  pub length-append : (xs ys : List A) → length (xs ++ ys) ≡ length xs + length ys
  length-append [] ys = omega arith
  length-append (x ∷ xs) ys = omega (arith, length-append xs ys)

  pub length-map_if : (p : A → Bool) (f : A → A) (xs : List A) → length (map_if p f xs) ≡ length xs
  length-map_if p f [] = refl
  length-map_if p f (x ∷ xs) = ap suc (length-map_if p f xs)

abbrev pub All {ℓ κ} : {A : Type ℓ} → (A → Type κ) → List A → Type κ
All P [] = Unit
All P (x ∷ xs) = P x × All P xs

pub list_cases {ℓ} :
    {A : Type ℓ} (xs : List A) → (xs ≡ []) ⊎ ((y : A) × (ys : List A) × (xs ≡ y ∷ ys))
list_cases [] = inl refl
list_cases (x ∷ xs) = inr (x, xs, refl)

-- What a conditional write makes of every item.
pub All-map_if {ℓ κ κ'} :
    {A : Type ℓ} (P : A → Type κ) (Q : A → Type κ') (c : A → Bool) (w : A → A) (xs : List A)
    → ((x : A) → P x → c x ≡ true → Q (w x))
    → ((x : A) → P x → c x ≡ false → Q x)
    → All P xs
    → All Q (map_if c w xs)
All-map_if P Q c w [] hit miss h = tt
All-map_if P Q c w (x ∷ xs) hit miss h = elim (Bool-cases (c x)) [
  | inl e ↦ rw e (hit x h.0 e, All-map_if P Q c w xs hit miss h.1)
  | inr e ↦ rw e (miss x h.0 e, All-map_if P Q c w xs hit miss h.1)
]

pub All_weaken {ℓ κ κ'} :
    {A : Type ℓ} (P : A → Type κ) (Q : A → Type κ') (xs : List A)
    → ((x : A) → P x → Q x)
    → All P xs
    → All Q xs
All_weaken P Q [] f h = tt
All_weaken P Q (x ∷ xs) f h = (f x h.0, All_weaken P Q xs f h.1)

pub All_trivial {ℓ} : {A : Type ℓ} (xs : List A) → All (λ _. Unit {0}) xs
All_trivial [] = tt
All_trivial (x ∷ xs) = (tt, All_trivial xs)

pub All_and {ℓ κ κ'} :
    {A : Type ℓ} (P : A → Type κ) (Q : A → Type κ') (xs : List A)
    → All P xs
    → All Q xs
    → All (λ x. P x × Q x) xs
All_and P Q [] p q = tt
All_and P Q (x ∷ xs) p q = ((p.0, q.0), All_and P Q xs p.1 q.1)

-- What a conditional write that spares the selected items leaves of them.
pub select-map_if {ℓ} :
    {A : Type ℓ} (p c : A → Bool) (w : A → A) (xs : List A)
    → ((x : A) → c x ≡ true → p x ≡ false)
    → ((x : A) → p (w x) ≡ p x)
    → select p (map_if c w xs) ≡ select p xs
select-map_if p c w [] spare same = refl
select-map_if p c w (x ∷ xs) spare same = elim (Bool-cases (c x)) [
  | inl e ↦ rw (e, same x, spare x e) (select-map_if p c w xs spare same)
  | inr e ↦ rw (e, select-map_if p c w xs spare same) refl
]

-- What is selected passes the test, and everything that held of the list.
pub All-select {ℓ κ} :
    {A : Type ℓ} (P : A → Type κ) (p : A → Bool) (xs : List A)
    → All P xs
    → All (λ x. P x × (p x ≡ true)) (select p xs)
All-select P p [] h = tt
All-select P p (x ∷ xs) h = elim (Bool-cases (p x)) [
  | inl e ↦ rw e ((h.0, e), All-select P p xs h.1)
  | inr e ↦ rw e (All-select P p xs h.1)
]

cons≢nil {ℓ} : {A : Type ℓ} (x : A) (xs : List A) → (x ∷ xs) ≢ []
cons≢nil x xs = λ e. cc

-- No item passes the test when nothing is selected.
pub select_none {ℓ} :
    {A : Type ℓ} (p : A → Bool) (xs : List A) → select p xs ≡ [] → All (λ x. p x ≡ false) xs
select_none p [] h = tt
select_none p (x ∷ xs) h = elim (Bool-cases (p x)) [
  | inl e ↦ absurd (cons≢nil x (select p xs) (sym (rw e refl) ∙ h))
  | inr e ↦ (e, select_none p xs (sym (rw e refl) ∙ h))
]

-- A test on the selected items, as a test on all of them.
pub All-select_back {ℓ} :
    {A : Type ℓ} (p q : A → Bool) (xs : List A)
    → All (λ x. q x ≡ true) (select p xs)
    → All (λ x. (not (p x) || q x) ≡ true) xs
All-select_back p q [] h = tt
All-select_back p q (x ∷ xs) h = elim (Bool-cases (p x)) [
  | inl e ↦ let g = rw e at h in (rw (e, g.0) refl, All-select_back p q xs g.1)
  | inr e ↦ (rw e refl, All-select_back p q xs (rw e at h))
]

none≢some {ℓ} : {A : Type ℓ} (x : A) → ◌≢◌ {A = Option A} none (some x)
none≢some x = λ e. cc

some-inj {ℓ} : {A : Type ℓ} {x y : A} → some x ≡ some y → x ≡ y
some-inj h = cc

-- The item that a search finds passes its test, and has what every item has.
pub All-find {ℓ κ} :
    {A : Type ℓ} (P : A → Type κ) (p : A → Bool) (xs : List A) (x : A)
    → All P xs
    → find p xs ≡ some x
    → P x × (p x ≡ true)
All-find P p [] x h e = absurd (none≢some x e)
All-find P p (y ∷ ys) x h e = elim (Bool-cases (p y)) [
  | inl i ↦ let same = some-inj (rw i at e) in subst (λ z. P z × (p z ≡ true)) same (h.0, i)
  | inr i ↦ All-find P p ys x h.1 (rw i at e)
]

pub All-append_one {ℓ κ} :
    {A : Type ℓ} (P : A → Type κ) (x : A) (xs : List A) → All P xs → P x → All P (xs ++ x ∷ [])
All-append_one P x [] h p = (p, tt)
All-append_one P x (y ∷ ys) h p = (h.0, All-append_one P x ys h.1 p)
