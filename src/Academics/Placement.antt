-- ===== src/Academics/Placement.antt =====
-- apps/academics/services.py: enrolment of a student and placement in a class.
--
-- The argument of an operation is the object that was read; a save writes the named columns of the
-- row with its key. `students.find` is the row a foreign key names.
pub mod Rolls
pub mod Enrolling
pub mod Capacity
pub mod Batch
use schapp.Base.{
  ℕ, Bool, true, false, ◌&&◌, not, Option, none, some, List, [], ◌∷◌, ◌++◌, ◌==◌, leb, ltb, ◌+◌,
  any, find, map_if, select, length, if◌then◌else◌, opt_eq, or_else, is_some, max,
}
use schapp.Db.{Result, ok, err, Action, tenant_atomic, continue}
use schapp.Academics.Models.{Enrolment, EnrolmentStatus, Student, is_active_enrolment}
use schapp.Academics.Calendar.{AcademicSession, session_is_current}

pub record ClassArm : Type 0 where
  pub pk : ℕ
  pub level : ℕ
  pub stream : Option ℕ
  pub capacity : ℕ
  pub is_active : Bool

-- What `AuditAction.ARM_ASSIGNED` records: the enrolment, its class before and after, its number.
pub record ArmAssigned : Type 0 where
  pub enrolment : ℕ
  pub before : Option ℕ
  pub after : ℕ
  pub roll_number : ℕ

pub record Classes : Type 0 where
  pub sessions : List AcademicSession
  pub students : List Student
  pub enrolments : List Enrolment
  pub next_pk : ℕ
  pub audit : List ArmAssigned

pub data PlacementError : Type 0 where
  arm_full : (capacity enrolled requested : ℕ) → PlacementError
  enrolment_not_active : EnrolmentStatus → PlacementError
  arm_inactive : PlacementError
  arm_mismatch : PlacementError
  stream_mismatch : PlacementError
  student_does_not_exist : PlacementError

abbrev pub in_class : ℕ → ℕ → Enrolment → Bool
in_class arm session e = opt_eq e.class_arm (some arm) && (e.session == session)

abbrev pub is_seated : ℕ → ℕ → Enrolment → Bool
is_seated arm session e = in_class arm session e && is_active_enrolment e.status

abbrev pub arm_occupancy : ℕ → ℕ → List Enrolment → ℕ
arm_occupancy arm session es = length (select (is_seated arm session) es)

-- `Max("roll_number")`, with 0 for no number.
abbrev pub highest_roll : List Enrolment → ℕ
highest_roll [] = 0
highest_roll (e ∷ es) = max (or_else e.roll_number 0) (highest_roll es)

abbrev pub next_roll_number : ℕ → ℕ → List Enrolment → ℕ
next_roll_number arm session es = highest_roll (select (in_class arm session) es) + 1

-- `_sync_student_position`
abbrev pub sync_student_position : Enrolment → Student → Student
sync_student_position e s = record s {
  current_level = some e.level;
  current_arm = e.class_arm;
  programme = if is_some e.programme then e.programme else s.programme;
}

abbrev pub write_student : ℕ → (Student → Student) → Classes → Classes
write_student pk w c = record c { students = map_if (λ s. s.pk == pk) w c.students }

abbrev pub is_full : Bool → Option ClassArm → ℕ → List Enrolment → Bool
is_full enforce_capacity none session es = false
is_full enforce_capacity (some arm) session es =
    enforce_capacity && leb arm.capacity (arm_occupancy arm.pk session es)

abbrev arm_key : Option ClassArm → Option ℕ
arm_key none = none
arm_key (some arm) = some arm.pk

abbrev pub capacity_of : Option ClassArm → ℕ
capacity_of none = 0
capacity_of (some arm) = arm.capacity

abbrev pub occupancy_of : Option ClassArm → ℕ → List Enrolment → ℕ
occupancy_of none session es = 0
occupancy_of (some arm) session es = arm_occupancy arm.pk session es

pub record Placing : Type 0 where
  pub student : ℕ
  pub session : ℕ
  pub level : ℕ
  pub class_arm : Option ClassArm
  pub programme : Option ℕ
  pub roll_number : Option ℕ
  pub enforce_capacity : Bool

abbrev pub new_enrolment : ℕ → Placing → Enrolment
new_enrolment pk p = record {
  pk = pk;
  student = p.student;
  session = p.session;
  level = p.level;
  class_arm = arm_key p.class_arm;
  programme = p.programme;
  status = EnrolmentStatus.active;
  roll_number = p.roll_number;
  promotion_note = [];
}

abbrev pub enrolled : ℕ → ℕ → List Enrolment → Option Enrolment
enrolled student session = find (λ e. e.student == student && (e.session == session))

unfoldable pub enrol_student : Placing → Action Classes PlacementError Enrolment
enrol_student p c = elim (enrolled p.student p.session c.enrolments) [
  | some existing ↦ (ok existing, c)
  | none ↦
      if is_full p.enforce_capacity p.class_arm p.session c.enrolments
      then (
        err (
            arm_full (capacity_of p.class_arm) (occupancy_of p.class_arm p.session c.enrolments) 1),
        c,
      )
      else (let e = new_enrolment c.next_pk p in
          (
            ok e,
            write_student p.student (sync_student_position e)
                (record c { enrolments = c.enrolments ++ e ∷ []; next_pk = c.next_pk + 1 }),
          ))
]

-- The guards of `assign_to_arm` after the one that returns early.
unfoldable pub refusal : Enrolment → ClassArm → Bool → Student → Classes → Option PlacementError
refusal e arm enforce_capacity s c =
    if not arm.is_active
    then some arm_inactive
    else if not (arm.level == e.level)
    then some arm_mismatch
    else if is_some arm.stream && is_some s.stream && not (opt_eq arm.stream s.stream)
    then some stream_mismatch
    else if enforce_capacity
        && not (opt_eq e.class_arm (some arm.pk))
        && leb arm.capacity (arm_occupancy arm.pk e.session c.enrolments)
    then some (arm_full arm.capacity (arm_occupancy arm.pk e.session c.enrolments) 1)
    else none

abbrev pub seated_at : ℕ → ℕ → Enrolment → Enrolment
seated_at arm roll e = record e { class_arm = some arm; roll_number = some roll }

abbrev pub take_stream : ClassArm → Student → Classes → Classes
take_stream arm s c =
    if is_some arm.stream && not (is_some s.stream)
    then write_student s.pk (λ r. record r { stream = arm.stream }) c
    else c

abbrev pub follow : Enrolment → Student → Classes → Classes
follow e s c =
    if session_is_current e.session c.sessions
    then write_student s.pk (sync_student_position e) c
    else c

-- The writes of `assign_to_arm`.
unfoldable pub seat : Enrolment → ClassArm → ℕ → Student → Classes → Classes
seat e arm roll s c =
    let placed = seated_at arm.pk roll e in
    let saved = record c {
      enrolments = map_if (λ r. r.pk == e.pk) (seated_at arm.pk roll) c.enrolments;
    } in
    let moved = follow placed s (take_stream arm s saved) in
    record moved {
      audit =
          record { enrolment = e.pk; before = e.class_arm; after = arm.pk; roll_number = roll }
          ∷ moved.audit;
    }

abbrev pub roll_for : Option ℕ → Enrolment → ClassArm → Classes → ℕ
roll_for roll e arm c = or_else roll (next_roll_number arm.pk e.session c.enrolments)

unfoldable pub assign_to_arm :
    Enrolment → ClassArm → Option ℕ → Bool → Action Classes PlacementError Enrolment
unfolding refusal seat
assign_to_arm e arm roll enforce_capacity c =
    if not (is_active_enrolment e.status)
    then (err (enrolment_not_active e.status), c)
    else if opt_eq e.class_arm (some arm.pk) && is_some e.roll_number
    then (ok e, c)
    else elim (find (λ (s : Student). s.pk == e.student) c.students) [
      | none ↦ (err student_does_not_exist, c)
      | some s ↦ elim (refusal e arm enforce_capacity s c) [
        | some e' ↦ (err e', c)
        | none ↦ (
          ok (seated_at arm.pk (roll_for roll e arm c) e),
          seat e arm (roll_for roll e arm c) s c,
        )
      ]
    ]

abbrev pub incoming : ClassArm → List Enrolment → List Enrolment
incoming arm = select (λ e. not (opt_eq e.class_arm (some arm.pk)))

abbrev pub exceeds : ClassArm → List Enrolment → Classes → Bool
exceeds arm [] c = false
exceeds arm (e ∷ es) c =
    ltb arm.capacity (arm_occupancy arm.pk e.session c.enrolments + length (e ∷ es))

-- The list comprehension that seats one enrolment after another.
unfoldable pub assign_each :
    List Enrolment → ClassArm → Action Classes PlacementError (List Enrolment)
unfolding assign_to_arm
assign_each [] arm c = (ok [], c)
assign_each (e ∷ es) arm c =
    let r = assign_to_arm e arm none false c in
    continue r.0 r.1 (λ placed.
      let rest = assign_each es arm r.1 in
      continue rest.0 rest.1 (λ others. (ok (placed ∷ others), rest.1)))

abbrev full_error : ClassArm → List Enrolment → Classes → PlacementError
full_error arm [] c = arm_full arm.capacity 0 0
full_error arm (e ∷ es) c =
    arm_full arm.capacity (arm_occupancy arm.pk e.session c.enrolments) (length (e ∷ es))

unfoldable pub allocate_to_arm :
    List Enrolment → ClassArm → Bool → Action Classes PlacementError (List Enrolment)
unfolding assign_each
allocate_to_arm es arm enforce_capacity = tenant_atomic (λ c.
    if enforce_capacity && exceeds arm (incoming arm es) c
    then (err (full_error arm (incoming arm es) c), c)
    else assign_each es arm c)
