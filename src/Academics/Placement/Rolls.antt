-- ===== src/Academics/Placement/Rolls.antt =====
-- Roll numbers: positions in one class list.
use schapp.Db.Rules.{Result-cases}
use schapp.Base.{
  ℕ, ◌<◌, ◌==◌, select, IsRow, IsRow-only, Rows, All, All_and, All_weaken, All-map_if, map_if,
  map_if-Others, ==_refl, not, opt_eq, arith, inl, inr, List, ◌∷◌, [], none, refl, ◌≡◌, ◌&&◌, ◌||◌,
  Bool, true, false, ltb, or_else, is_some, Bool-cases, ◌⊎◌, Option-cases, ◌≢◌, ◌∙◌, sym,
}
use schapp.Academics.Models.{Enrolment}
use schapp.Academics.Placement.{
  ClassArm, Classes, in_class, highest_roll, next_roll_number, seated_at, roll_for, assign_to_arm,
  assign_each, allocate_to_arm, exceeds, incoming,
}
use schapp.Academics.Placement.Capacity.{assign_to_arm_cases, seat-enrolments}
use schapp.Academics.Placement.Batch.{assign-Rows, ends_there}

true≢false : true ≢ false
true≢false = λ e. cc

-- Two rows hold one number in one class list.
abbrev pub same_roll : Enrolment → Enrolment → Bool
same_roll x y =
    is_some x.class_arm
    && opt_eq x.class_arm y.class_arm
    && (x.session == y.session)
    && is_some x.roll_number
    && opt_eq x.roll_number y.roll_number

abbrev pub DistinctRolls : List Enrolment → Type 0
DistinctRolls [] = Unit
DistinctRolls (x ∷ xs) = All (λ y. same_roll x y ≡ false) xs × DistinctRolls xs

abbrev pub below : ℕ → ℕ → ℕ → Enrolment → Bool
below arm session n y = not (in_class arm session y) || ltb (or_else y.roll_number 0) n

below_more :
    (arm session n : ℕ) (es : List Enrolment)
    → highest_roll (select (in_class arm session) es) < n
    → All (λ y. below arm session n y ≡ true) es
below_more arm session n [] h = tt
below_more arm session n (e ∷ es) h = elim (Bool-cases (in_class arm session e)) [
  | inl i ↦
      let h' = rw i at h in (rw i (ground arith), below_more arm session n es (omega (arith, h')))
  | inr i ↦ (rw i refl, below_more arm session n es (rw i at h))
]

-- The number given is above every number of the class list.
pub next_roll_number-below :
    (arm session : ℕ) (es : List Enrolment)
    → All (λ y. below arm session (next_roll_number arm session es) y ≡ true) es
next_roll_number-below arm session es = below_more arm session _ es (omega arith)

fresh_right :
    (arm n : ℕ) (e x : Enrolment)
    → below arm e.session n x ≡ true
    → same_roll x (seated_at arm n e) ≡ false
fresh_right arm n e x h = elim (Option-cases x.class_arm) [
  | inl a ↦ rw a (ground arith)
  | inr (b, a) ↦ elim (Option-cases x.roll_number) [
    | inl r ↦ rw (a, r) (ground arith)
    | inr (m, r) ↦ let h' = rw (a, r) at h in rw (a, r) (ground arith)
  ]
]

fresh_left :
    (arm n : ℕ) (e x : Enrolment)
    → below arm e.session n x ≡ true
    → same_roll (seated_at arm n e) x ≡ false
fresh_left arm n e x h = elim (Option-cases x.class_arm) [
  | inl a ↦ rw a (ground arith)
  | inr (b, a) ↦ elim (Option-cases x.roll_number) [
    | inl r ↦ rw (a, r) (ground arith)
    | inr (m, r) ↦ let h' = rw (a, r) at h in rw (a, r) (ground arith)
  ]
]

seat_rolls :
    (arm n : ℕ) (e : Enrolment) (xs : List Enrolment)
    → IsRow (λ (r : Enrolment). r.pk) e xs
    → All (λ y. below arm e.session n y ≡ true) xs
    → DistinctRolls xs
    → DistinctRolls (map_if (λ r. r.pk == e.pk) (seated_at arm n) xs)
seat_rolls arm n e [] row low h = absurd row
seat_rolls arm n e (y ∷ ys) (inl (here, others)) low h =
    rw (here, ==_refl e.pk, map_if-Others (λ (r : Enrolment). r.pk) e (seated_at arm n) ys others)
      (All_weaken _ _ ys (λ z g. fresh_left arm n e z g) low.1, h.1)
seat_rolls arm n e (y ∷ ys) (inr (other, row)) low h = rw other (
  All-map_if (λ (z : Enrolment). (same_roll y z ≡ false) × (((z.pk == e.pk) ≡ false) ⊎ (z ≡ e)))
      (λ z. same_roll y z ≡ false) (λ r. r.pk == e.pk) (seated_at arm n) ys
      (λ z g hit. elim g.1 [
        | inl miss ↦ absurd (true≢false (sym hit ∙ miss))
        | inr same ↦ rw same (fresh_right arm n e y low.0)
      ])
      (λ z g miss. g.0) (All_and _ _ ys h.0 (IsRow-only (λ (r : Enrolment). r.pk) e ys row)),
  seat_rolls arm n e ys row low.1 h.1,
)

assign_rolls :
    (e : Enrolment) (arm : ClassArm) (enforce : Bool) (c : Classes)
    → IsRow (λ (r : Enrolment). r.pk) e c.enrolments
    → DistinctRolls c.enrolments
    → DistinctRolls (assign_to_arm e arm none enforce c).1.enrolments
assign_rolls e arm enforce c row h = elim (assign_to_arm_cases e arm none enforce c) [
  | inl (x, g) ↦ rw g h
  | inr (inl (g, there)) ↦ rw g h
  | inr (inr (s, open_, g)) ↦
      rw (g, seat-enrolments e arm (roll_for none e arm c) s c)
        (seat_rolls arm.pk (roll_for none e arm c) e c.enrolments row
          (next_roll_number-below arm.pk e.session c.enrolments) h)
]

assign_each_rolls :
    (es : List Enrolment) (arm : ClassArm) (c : Classes)
    → Rows (λ (r : Enrolment). r.pk) es c.enrolments
    → DistinctRolls c.enrolments
    → DistinctRolls (assign_each es arm c).1.enrolments
unfolding assign_each
assign_each_rolls [] arm c rows h = h
assign_each_rolls (e ∷ es) arm c rows h =
    let after = (assign_to_arm e arm none false c).1 in
    let here = assign_rolls e arm false c rows.0 h in
    elim (Result-cases (assign_to_arm e arm none false c).0) [
      | inl (x, g) ↦ rw g here
      | inr (placed, g) ↦
          rw (g, ends_there (assign_each es arm after).0 placed (assign_each es arm after).1)
            (assign_each_rolls es arm after (assign-Rows e es arm c rows.1.0 rows.1.1) here)
    ]

-- A batch seated with `allocate_to_arm`, its enrolments as they stand in the table and each once,
-- leaves no number twice in a class list when none was there twice before.
pub allocate_to_arm-DistinctRolls :
    (es : List Enrolment) (arm : ClassArm) (enforce : Bool) (c : Classes)
    → Rows (λ (r : Enrolment). r.pk) es c.enrolments
    → DistinctRolls c.enrolments
    → DistinctRolls (allocate_to_arm es arm enforce c).1.enrolments
unfolding allocate_to_arm
allocate_to_arm-DistinctRolls es arm enforce c rows h =
    elim (Bool-cases (enforce && exceeds arm (incoming arm es) c)) [
      | inl e ↦ rw e h
      | inr e ↦ elim (Result-cases (assign_each es arm c).0) [
        | inl (x, g) ↦ rw (e, g) h
        | inr (placed, g) ↦ rw (e, g) (assign_each_rolls es arm c rows h)
      ]
    ]
