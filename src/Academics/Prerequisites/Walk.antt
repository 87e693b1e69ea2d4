-- ===== src/Academics/Prerequisites/Walk.antt =====
-- The walk ends: every round but the first puts rows of the catalogue among those seen.
use mathlib.Core.Path.{subst}
use schapp.Base.{
  ℕ, suc, zero, ◌≡◌, refl, List, [], ◌∷◌, ◌++◌, ◌||◌, ◌&&◌, not, Bool, true, false, Bool-cases, inl,
  inr, ◌==◌, if◌then◌else◌, arith, ◌+◌, ◌≤◌, length, ◌≢◌, ◌<◌, ==_iff, any, is_some, ==_refl, sym,
  list_cases, Option, some, none,
}
use schapp.Academics.Registration.{Subject, member}
use schapp.Academics.Prerequisites.{required_by, next_frontier, walk, closes_cycle}

pub member-append : (k : ℕ) (xs ys : List ℕ) → member k (xs ++ ys) ≡ (member k xs || member k ys)
member-append k [] ys = refl
member-append k (x ∷ xs) ys = elim (Bool-cases (x == k)) [
  | inl e ↦ rw e refl
  | inr e ↦ rw (e, member-append k xs ys) refl
]

-- The rows not seen yet.
abbrev unseen : List ℕ → List Subject → ℕ
unseen seen [] = 0
unseen seen (s ∷ rows) = (if member s.pk seen then 0 else 1) + unseen seen rows

unseen_le : (seen : List ℕ) (rows : List Subject) → unseen seen rows ≤ length rows
unseen_le seen [] = omega arith
unseen_le seen (s ∷ rows) = elim (Bool-cases (member s.pk seen)) [
  | inl e ↦ rw e (omega (arith, unseen_le seen rows))
  | inr e ↦ rw e (omega (arith, unseen_le seen rows))
]

grow : (a b : Bool) (m n : ℕ) → m ≤ n → (if a || b then 0 else 1) + m ≤ (if b then 0 else 1) + n
grow true true m n h = omega arith
grow true false m n h = omega arith
grow false true m n h = omega arith
grow false false m n h = omega arith

-- Seeing more leaves no more unseen.
unseen-append :
    (new seen : List ℕ) (rows : List Subject) → unseen (new ++ seen) rows ≤ unseen seen rows
unseen-append new seen [] = omega arith
unseen-append new seen (s ∷ rows) =
    rw (member-append s.pk new seen)
      (grow (member s.pk new) (member s.pk seen) _ _ (unseen-append new seen rows))

grow_more :
    (a b : Bool) (m n : ℕ) → m < n → (if a || b then 0 else 1) + m < (if b then 0 else 1) + n
grow_more true true m n h = omega arith
grow_more true false m n h = omega arith
grow_more false true m n h = omega arith
grow_more false false m n h = omega arith

nil≢cons : (k : ℕ) (ks : List ℕ) → ◌≢◌ {A = List ℕ} [] (k ∷ ks)
nil≢cons k ks = λ h. cc

cons-head : {k j : ℕ} {ks js : List ℕ} → k ∷ ks ≡ j ∷ js → k ≡ j
cons-head h = cc

-- A key of the new frontier is a row's that was unseen.
fewer :
    (k : ℕ) (new seen : List ℕ) (rows : List Subject)
    → any (λ (s : Subject). s.pk == k) rows ≡ true
    → member k new ≡ true
    → member k seen ≡ false
    → unseen (new ++ seen) rows < unseen seen rows
fewer k new seen [] h i j = cc
fewer k new seen (s ∷ rows) h i j = elim (Bool-cases (s.pk == k)) [
  | inl e ↦
      let same = (==_iff s.pk k).0 e in
      rw (member-append s.pk new seen, same, i, j) (omega (arith, unseen-append new seen rows))
  | inr e ↦
      rw (member-append s.pk new seen)
        (grow_more (member s.pk new) (member s.pk seen) _ _ (fewer k new seen rows (rw e at h) i j))
]

and_not : (a b : Bool) → (a && not b) ≡ true → b ≡ false
and_not a b h = ground arith

or_right : (a b : Bool) → b ≡ true → (a || b) ≡ true
or_right a b h = ground arith

-- The first key of a new frontier.
next_frontier-first :
    (catalogue : List Subject) (seen frontier : List ℕ) (rows : List Subject) (k : ℕ) (ks : List ℕ)
    → next_frontier catalogue seen frontier rows ≡ k ∷ ks
    → (any (λ (s : Subject). s.pk == k) rows ≡ true) × (member k seen ≡ false)
next_frontier-first catalogue seen frontier [] k ks h = absurd (nil≢cons k ks h)
next_frontier-first catalogue seen frontier (s ∷ rows) k ks h =
    elim (Bool-cases (required_by catalogue frontier s.pk && not (member s.pk seen))) [
      | inl e ↦
          let same = cons-head (rw e at h) in
          (
            rw (same, ==_refl k) refl,
            rw (sym same) (and_not (required_by catalogue frontier s.pk) (member s.pk seen) e),
          )
      | inr e ↦
          let rest = next_frontier-first catalogue seen frontier rows k ks (rw e at h) in
          (or_right (s.pk == k) _ rest.0, rest.1)
    ]

below_zero : {n : ℕ} → n < 0 → ⊥
below_zero h = omega (arith, h)

fuel_lem : (n : ℕ) → suc (n + 1) ≡ n + 2
fuel_lem n = omega arith

member_first : (k : ℕ) (ks : List ℕ) → member k (k ∷ ks) ≡ true
member_first k ks = rw (==_refl k) refl

-- Enough fuel for the rows that the frontier leaves unseen.
ends :
    (n : ℕ) (catalogue : List Subject) (target : ℕ) (seen frontier : List ℕ)
    → unseen (frontier ++ seen) catalogue < n
    → is_some (walk (suc n) catalogue target seen frontier) ≡ true
unfolding walk
ends zero catalogue target seen frontier h = absurd (below_zero h)
ends (suc m) catalogue target seen [] h = refl
ends (suc m) catalogue target seen (f ∷ fs) h = elim (Bool-cases (member target (f ∷ fs))) [
  | inl e ↦ rw e refl
  | inr e ↦
      let seen' = (f ∷ fs) ++ seen in
      elim (list_cases (next_frontier catalogue seen' (f ∷ fs) catalogue)) [
        | inl nothing ↦ rw (e, nothing) refl
        | inr (k, ks, more) ↦
            let first = next_frontier-first catalogue seen' (f ∷ fs) catalogue k ks more in
            let less = fewer k (k ∷ ks) seen' catalogue first.0 (member_first k ks) first.1 in
            rw (e, more) (ends m catalogue target seen' (k ∷ ks) (omega (arith, h, less)))
      ]
]

-- The walk over any catalogue, with cycles or without, ends on the fuel it is given: the check
-- always answers.
pub closes_cycle-ends :
    (catalogue : List Subject) (pk : Option ℕ) (ids : List ℕ)
    → is_some (closes_cycle catalogue pk ids) ≡ true
unfolding closes_cycle
closes_cycle-ends catalogue none ids = refl
closes_cycle-ends catalogue (some pk) ids =
    subst (λ n. is_some (walk n catalogue pk [] ids) ≡ true) (fuel_lem (length catalogue))
      (ends (length catalogue + 1) catalogue pk [] ids
        (omega (arith, unseen_le (ids ++ []) catalogue)))
