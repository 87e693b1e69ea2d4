-- ===== src/Tests/Classes.antt =====
-- A class of two places: one is taken, two pupils wait.
use schapp.Base.{ℕ, ◌≡◌, refl, Option, none, some, [], ◌∷◌, true, false, inl, inr, ◌≤◌, max}
use schapp.Db.{ok, err}
use schapp.Academics.Models.{Enrolment, EnrolmentStatus, Student, StudentStatus}
use schapp.Academics.Placement.{
  ClassArm, Classes, Placing, PlacementError, arm_occupancy, assign_to_arm, allocate_to_arm,
  enrol_student, new_enrolment,
}
use schapp.Academics.Placement.Capacity.{limit, assign_to_arm-capacity}
use schapp.Academics.Placement.Batch.{allocate_to_arm-capacity}
use schapp.Academics.Placement.Rolls.{DistinctRolls, allocate_to_arm-DistinctRolls}
use schapp.Academics.Placement.Enrolling.{enrol_student-again}

abbrev gold : ClassArm
gold = record { pk = 5; level = 1; stream = none; capacity = 2; is_active = true }

abbrev pub pupil : ℕ → Student
pupil pk = record {
  pk = pk;
  admission_number = [];
  matriculation_number = [];
  status = StudentStatus.active;
  stream = none;
  current_level = none;
  current_arm = none;
  programme = none;
  date_left = none;
  deleted_at = none;
}

abbrev pub place : ℕ → Option ℕ → Option ℕ → Enrolment
place pk arm roll = record {
  pk = pk;
  student = pk;
  session = 1;
  level = 1;
  class_arm = arm;
  programme = none;
  status = EnrolmentStatus.active;
  roll_number = roll;
  promotion_note = [];
}

abbrev classes : Classes
classes = record {
  sessions = [];
  students = pupil 1 ∷ pupil 2 ∷ pupil 3 ∷ [];
  enrolments = place 1 (some 5) (some 1) ∷ place 2 none none ∷ place 3 none none ∷ [];
  next_pk = 4;
  audit = [];
}

assign_to_arm-capacity_example :
    arm_occupancy 5 1 (assign_to_arm (place 2 none none) gold none true classes).1.enrolments
    ≤ max (arm_occupancy 5 1 classes.enrolments) (limit gold 5)
assign_to_arm-capacity_example =
    assign_to_arm-capacity (place 2 none none) gold none classes 5 1
      (inr (refl, inl (refl, (refl, tt))))

seated :
    (assign_to_arm (place 2 none none) gold none true classes).0 ≡ ok (place 2 (some 5) (some 2))
unfolding assign_to_arm
seated = refl

overfull :
    (allocate_to_arm (place 2 none none ∷ place 3 none none ∷ []) gold true classes).0
    ≡ err (PlacementError.arm_full 2 1 2)
unfolding allocate_to_arm
overfull = refl

allocate_to_arm-capacity_example :
    arm_occupancy 5 1 (allocate_to_arm (place 2 none none ∷ []) gold true classes).1.enrolments
    ≤ max (arm_occupancy 5 1 classes.enrolments) (limit gold 5)
allocate_to_arm-capacity_example =
    allocate_to_arm-capacity (place 2 none none ∷ []) gold classes 1 5 1
      (inr (refl, inl (refl, (refl, tt))), (tt, tt)) (refl, tt)

allocate_to_arm-DistinctRolls_example :
    DistinctRolls
      (allocate_to_arm (place 2 none none ∷ place 3 none none ∷ []) gold false classes).1.enrolments
allocate_to_arm-DistinctRolls_example =
    allocate_to_arm-DistinctRolls (place 2 none none ∷ place 3 none none ∷ []) gold false classes
      (
        inr (refl, inl (refl, (refl, tt))),
        ((refl, tt), (inr (refl, inr (refl, inl (refl, tt))), (tt, tt))),
      )
      ((refl, (refl, tt)), ((refl, tt), (tt, tt)))

abbrev joining : Placing
joining = record {
  student = 7;
  session = 1;
  level = 1;
  class_arm = some gold;
  programme = none;
  roll_number = none;
  enforce_capacity = true;
}

joined : (enrol_student joining classes).0 ≡ ok (new_enrolment 4 joining)
unfolding enrol_student
joined = refl

enrol_student-again_example :
    enrol_student (record joining { level = 2; class_arm = none }) (enrol_student joining classes).1
    ≡ (ok (new_enrolment 4 joining), (enrol_student joining classes).1)
enrol_student-again_example =
    enrol_student-again joining (record joining { level = 2; class_arm = none }) classes
      (new_enrolment 4 joining) refl refl joined
