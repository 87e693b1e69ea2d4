-- ===== src/Academics/Placement/Enrolling.antt =====
-- One enrolment for a student in a session.
use schapp.Base.{
  ℕ, ◌==◌, All, ==_refl, arith, inl, inr, List, ◌∷◌, [], ◌++◌, some, none, refl, ◌≡◌, ◌&&◌, Bool,
  false, Bool-cases, ◌⊎◌, Option-cases, ◌≢◌, ◌∙◌, sym, ap, All-append_one, ◌+◌,
}
use schapp.Db.{Result, ok, err}
use schapp.Academics.Models.{Enrolment}
use schapp.Academics.Placement.{
  Classes, Placing, PlacementError, enrol_student, enrolled, is_full, new_enrolment, arm_full,
  capacity_of, occupancy_of, Option,
}

-- Two rows enrol one student in one session.
abbrev pub same_place : Enrolment → Enrolment → Bool
same_place x y = y.student == x.student && (y.session == x.session)

abbrev pub OneEach : List Enrolment → Type 0
OneEach [] = Unit
OneEach (x ∷ xs) = All (λ y. same_place x y ≡ false) xs × OneEach xs

none≢some : (e : Enrolment) → ◌≢◌ {A = Option Enrolment} none (some e)
none≢some e = λ h. cc

ok-inj : {x y : Enrolment} → ◌≡◌ {A = Result PlacementError Enrolment} (ok x) (ok y) → x ≡ y
ok-inj h = cc

err≢ok :
    (x : PlacementError) (e : Enrolment) → ◌≢◌ {A = Result PlacementError Enrolment} (err x) (ok e)
err≢ok x e = λ h. cc

enrolled-none :
    (student session : ℕ) (es : List Enrolment)
    → enrolled student session es ≡ none
    → All (λ (y : Enrolment). (y.student == student && (y.session == session)) ≡ false) es
enrolled-none student session [] h = tt
enrolled-none student session (e ∷ es) h =
    elim (Bool-cases (e.student == student && (e.session == session))) [
      | inl i ↦ absurd (none≢some e (sym (rw i at h)))
      | inr i ↦ (i, enrolled-none student session es (rw i at h))
    ]

enrolled-append :
    (e : Enrolment) (es : List Enrolment)
    → All (λ (y : Enrolment). (y.student == e.student && (y.session == e.session)) ≡ false) es
    → enrolled e.student e.session (es ++ e ∷ []) ≡ some e
enrolled-append e [] h = rw (==_refl e.student, ==_refl e.session) refl
enrolled-append e (x ∷ es) h = rw h.0 (enrolled-append e es h.1)

OneEach-append :
    (e : Enrolment) (es : List Enrolment)
    → All (λ (y : Enrolment). (y.student == e.student && (y.session == e.session)) ≡ false) es
    → OneEach es
    → OneEach (es ++ e ∷ [])
OneEach-append e [] h o = (tt, tt)
OneEach-append e (x ∷ es) h o = (
  All-append_one (λ y. same_place x y ≡ false) e es o.0 (ground (arith, h.0)),
  OneEach-append e es h.1 o.1,
)

-- How an enrolment ends.
abbrev pub IsNew : Placing → Classes → Type 0
IsNew p c =
    (enrolled p.student p.session c.enrolments ≡ none)
    × ((enrol_student p c).0 ≡ ok (new_enrolment c.next_pk p))
    × ((enrol_student p c).1.enrolments ≡ c.enrolments ++ new_enrolment c.next_pk p ∷ [])
    × ((enrol_student p c).1.next_pk ≡ c.next_pk + 1)

pub enrol_student_cases :
    (p : Placing) (c : Classes)
    → ((e : Enrolment) × (enrolled p.student p.session c.enrolments ≡ some e)
        × (enrol_student p c ≡ (ok e, c)))
      ⊎ (((x : PlacementError) × (enrol_student p c ≡ (err x, c))) ⊎ IsNew p c)
unfolding enrol_student
enrol_student_cases p c = elim (Option-cases (enrolled p.student p.session c.enrolments)) [
  | inr (e, found) ↦ inl (e, found, rw (enrol_student, found) refl)
  | inl nothing ↦
      elim (Bool-cases (is_full p.enforce_capacity p.class_arm p.session c.enrolments)) [
        | inl full ↦ inr (
            inl (
              arm_full (capacity_of p.class_arm) (occupancy_of p.class_arm p.session c.enrolments)
                  1,
              rw (enrol_student, nothing, full) refl,
            ))
        | inr free ↦ inr (
            inr (
              nothing,
              rw (enrol_student, nothing, free) refl,
              rw (enrol_student, nothing, free) refl,
              rw (enrol_student, nothing, free) refl,
            ))
      ]
]

-- `enrol_student` keeps one enrolment for a student in a session.
pub enrol_student-OneEach :
    (p : Placing) (c : Classes) → OneEach c.enrolments → OneEach (enrol_student p c).1.enrolments
enrol_student-OneEach p c o = elim (enrol_student_cases p c) [
  | inl (e, found, h) ↦ rw h o
  | inr (inl (x, h)) ↦ rw h o
  | inr (inr (nothing, h, rows, fresh)) ↦ rw rows (
      OneEach-append (new_enrolment c.next_pk p) c.enrolments
        (enrolled-none p.student p.session c.enrolments nothing) o)
]

found_stays :
    (q : Placing) (c : Classes) (e : Enrolment)
    → enrolled q.student q.session c.enrolments ≡ some e
    → enrol_student q c ≡ (ok e, c)
unfolding enrol_student
found_stays q c e found = rw (enrol_student, found) refl

there_after :
    (p : Placing) (c : Classes) (e : Enrolment)
    → (enrol_student p c).0 ≡ ok e
    → enrolled p.student p.session (enrol_student p c).1.enrolments ≡ some e
there_after p c e done = elim (enrol_student_cases p c) [
  | inl (x, found, h) ↦
      let same = ok-inj (sym (ap (λ r. r.0) h) ∙ done) in rw h (found ∙ ap some same)
  | inr (inl (x, h)) ↦ absurd (err≢ok x e (sym (ap (λ r. r.0) h) ∙ done))
  | inr (inr (nothing, h, rows, fresh)) ↦ rw rows (
      enrolled-append (new_enrolment c.next_pk p) c.enrolments
        (enrolled-none p.student p.session c.enrolments nothing)
      ∙ ap some (ok-inj (sym h ∙ done)))
]

-- Once `enrol_student` has returned an enrolment, a further call for that student and session,
-- whatever else it asks for, returns the same enrolment and writes nothing.
pub enrol_student-again :
    (p q : Placing) (c : Classes) (e : Enrolment)
    → q.student ≡ p.student
    → q.session ≡ p.session
    → (enrol_student p c).0 ≡ ok e
    → enrol_student q (enrol_student p c).1 ≡ (ok e, (enrol_student p c).1)
enrol_student-again p q c e same_student same_session done =
    found_stays q (enrol_student p c).1 e (rw (same_student, same_session) (there_after p c e done))
