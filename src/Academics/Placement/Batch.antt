-- ===== src/Academics/Placement/Batch.antt =====
-- A batch is seated whole: its places are counted before any of it is written.
use schapp.Db.Rules.{Result-cases}
use schapp.Db.{ok, err, Result, continue}
use schapp.Base.{
  ℕ, ◌+◌, ◌≤◌, ◌==◌, length, select, bit, count_cons, IsRow, Rows, Rows-write, Others, All, max,
  not, opt_eq, arith, inl, inr, List, ◌∷◌, [], some, none, refl, ◌≡◌, if◌then◌else◌, ◌&&◌,
  Bool-cases, ◌⊎◌, Bool, true, ltb, ap, ◌∙◌, ==_iff, All_weaken, All-select,
}
use schapp.Academics.Models.{Enrolment}
use schapp.Academics.Placement.{
  ClassArm, Classes, PlacementError, arm_occupancy, seated_at, roll_for, assign_to_arm, assign_each,
  incoming, exceeds, allocate_to_arm, List, length, none, false, select, true,
}
use schapp.Academics.Placement.Capacity.{
  takes_place, limit, assign_to_arm_cases, seat_count, seat-enrolments,
}

abbrev taken_places : ℕ → ℕ → ClassArm → List Enrolment → ℕ
taken_places a session arm es = length (select (takes_place a session arm.pk) es)

-- One assignment of a batch.
assign_count :
    (e : Enrolment) (arm : ClassArm) (c : Classes) (a session : ℕ)
    → IsRow (λ (r : Enrolment). r.pk) e c.enrolments
    → arm_occupancy a session (assign_to_arm e arm none false c).1.enrolments
      ≤ arm_occupancy a session c.enrolments + bit (takes_place a session arm.pk e)
assign_count e arm c a session row = elim (assign_to_arm_cases e arm none false c) [
  | inl (x, h) ↦ rw h (omega arith)
  | inr (inl (h, there)) ↦ rw h (omega arith)
  | inr (inr (s, open_, h)) ↦ rw h (seat_count e arm (roll_for none e arm c) s c a session row)
]

pub assign-Rows :
    (e : Enrolment) (es : List Enrolment) (arm : ClassArm) (c : Classes)
    → Others (λ (r : Enrolment). r.pk) e es
    → Rows (λ (r : Enrolment). r.pk) es c.enrolments
    → Rows (λ (r : Enrolment). r.pk) es (assign_to_arm e arm none false c).1.enrolments
assign-Rows e es arm c apart rows = elim (assign_to_arm_cases e arm none false c) [
  | inl (x, h) ↦ rw h rows
  | inr (inl (h, there)) ↦ rw h rows
  | inr (inr (s, open_, h)) ↦
      rw (h, seat-enrolments e arm (roll_for none e arm c) s c)
        (Rows-write (λ (r : Enrolment). r.pk) e (seated_at arm.pk (roll_for none e arm c)) es
          c.enrolments (λ y. refl) apart rows)
]

-- The state is that of the last assignment tried.
pub ends_there :
    (r : Result PlacementError (List Enrolment)) (placed : Enrolment) (c : Classes)
    → (continue r c (λ (others : List Enrolment). (ok (placed ∷ others), c))).1 ≡ c
ends_there (ok x) placed c = refl
ends_there (err x) placed c = refl

assign_each_count :
    (es : List Enrolment) (arm : ClassArm) (c : Classes) (a session : ℕ)
    → Rows (λ (r : Enrolment). r.pk) es c.enrolments
    → arm_occupancy a session (assign_each es arm c).1.enrolments
      ≤ arm_occupancy a session c.enrolments + taken_places a session arm es
unfolding assign_each
assign_each_count [] arm c a session rows = omega arith
assign_each_count (e ∷ es) arm c a session rows =
    let after = (assign_to_arm e arm none false c).1 in
    let here = assign_count e arm c a session rows.0 in
    let whole = count_cons (takes_place a session arm.pk) e es in
    elim (Result-cases (assign_to_arm e arm none false c).0) [
      | inl (x, h) ↦ rw h (omega (arith, here, whole))
      | inr (placed, h) ↦
          rw (h, ends_there (assign_each es arm after).0 placed (assign_each es arm after).1)
            (omega (
              arith,
              here,
              whole,
              assign_each_count es arm after a session (assign-Rows e es arm c rows.1.0 rows.1.1),
            ))
    ]

bits :
    (x y b : Bool) (r n : ℕ)
    → r ≤ (if x && y then n else 0)
    → bit (x && y && b) + r ≤ (if x && y then bit b + n else 0)
bits true true b r n h = omega arith
bits true false b r n h = omega (arith, h)
bits false y b r n h = omega (arith, h)

-- A batch for one session takes at most the places of its newcomers, in that class and session.
taken_bound :
    (a session k : ℕ) (arm : ClassArm) (es : List Enrolment)
    → All (λ (e : Enrolment). e.session ≡ k) es
    → taken_places a session arm es
      ≤ (if (arm.pk == a) && (k == session) then length (incoming arm es) else 0)
taken_bound a session k arm [] h = omega arith
taken_bound a session k arm (e ∷ es) h =
    let rest = taken_bound a session k arm es h.1 in
    let whole = count_cons (takes_place a session arm.pk) e es in
    let new = count_cons (λ (e : Enrolment). not (opt_eq e.class_arm (some arm.pk))) e es in
    rw (whole, new, h.0)
      (bits (arm.pk == a) (k == session) (not (opt_eq e.class_arm (some arm.pk))) _ _ rest)

fit : {a b : ℕ} → ltb b a ≡ false → a ≤ b
fit h = ground arith

newcomers_fit :
    (es : List Enrolment) (arm : ClassArm) (c : Classes) (k : ℕ)
    → All (λ (e : Enrolment). e.session ≡ k) es
    → exceeds arm es c ≡ false
    → (length es ≡ 0) ⊎ (arm_occupancy arm.pk k c.enrolments + length es ≤ arm.capacity)
newcomers_fit [] arm c k same h = inl refl
newcomers_fit (e ∷ es) arm c k same h = inr (fit (rw same.0 at h))

choice_zero : (b : Bool) → ◌≡◌ {A = ℕ} (if b then 0 else 0) 0
choice_zero true = refl
choice_zero false = refl

fits :
    (occ : ℕ → ℕ → ℕ) (arm a k session places new taken : ℕ)
    → (new ≡ 0) ⊎ (occ arm k + new ≤ places)
    → taken ≤ (if (arm == a) && (k == session) then new else 0)
    → occ a session + taken ≤ max (occ a session) (if arm == a then places else 0)
fits occ arm a k session places new taken (inl none_) le =
    let le' : taken ≤ 0 = rw (none_, choice_zero ((arm == a) && (k == session))) at le in
    omega (arith, le')
fits occ arm a k session places new taken (inr fit_) le = elim (Bool-cases (arm == a)) [
  | inr e ↦ let le' = rw e at le in rw e (omega (arith, le'))
  | inl e ↦ elim (Bool-cases (k == session)) [
    | inr f ↦ let le' = rw (e, f) at le in rw e (omega (arith, le'))
    | inl f ↦
        let same =
          ap (λ x. occ x k) ((==_iff arm a).0 e) ∙ ap (λ y. occ a y) ((==_iff k session).0 f) in
        let le' = rw (e, f) at le in rw e (omega (arith, le', same, fit_))
  ]
]

-- `allocate_to_arm` with the capacity enforced, for enrolments of one session as they stand in the
-- table, each once: the number of active students of no class in no session grows, but for the
-- named class, which does not grow past its capacity.
pub allocate_to_arm-capacity :
    (es : List Enrolment) (arm : ClassArm) (c : Classes) (k a session : ℕ)
    → Rows (λ (r : Enrolment). r.pk) es c.enrolments
    → All (λ (e : Enrolment). e.session ≡ k) es
    → arm_occupancy a session (allocate_to_arm es arm true c).1.enrolments
      ≤ max (arm_occupancy a session c.enrolments) (limit arm a)
unfolding allocate_to_arm
allocate_to_arm-capacity es arm c k a session rows same =
    elim (Bool-cases (exceeds arm (incoming arm es) c)) [
      | inl e ↦ rw e (omega arith)
      | inr e ↦
          let new =
            All_weaken _ _ _ (λ f h. h.0)
              (All-select (λ (f : Enrolment). f.session ≡ k)
                (λ f. not (opt_eq f.class_arm (some arm.pk))) es same) in
          let small =
            fits (λ x y. arm_occupancy x y c.enrolments) arm.pk a k session arm.capacity _ _
              (newcomers_fit (incoming arm es) arm c k new e)
              (taken_bound a session k arm es same) in
          elim (Result-cases (assign_each es arm c).0) [
            | inl (x, h) ↦ rw (e, h) (omega arith)
            | inr (placed, h) ↦
                rw (e, h) (omega (arith, small, assign_each_count es arm c a session rows))
          ]
    ]
