-- ===== src/Attendance/Gate.antt =====
-- apps/attendance/services.py, the biometric webhook: a punch is recorded once and turned into
-- attendance where the person is known. Times are seconds since the epoch in UTC. The webhook's
-- serializer puts a punch's time into TIME_ZONE (config/settings/base.py), Africa/Lagos, an hour
-- ahead of UTC all year.
use schapp.Base.{
  ℕ, ◌+◌, ◌/◌, Bool, true, false, ◌&&◌, not, Option, none, some, List, [], ◌∷◌, ◌++◌, ◌==◌, any,
  find, map_if, if◌then◌else◌, Text, codes, text_eq,
}
use schapp.Attendance.{
  AttendanceStatus, MarkingMethod, StudentAttendance, StaffAttendance, BiometricEvent, Direction,
  Register, in_slot, save_row,
}

-- A member of staff and a student, as far as the webhook's queries read them.
pub record StaffMember : Type 0 where
  pub pk : ℕ
  pub staff_number : Text
  pub deleted : Bool

pub record Pupil : Type 0 where
  pub pk : ℕ
  pub admission_number : Text
  pub matriculation_number : Text
  pub current_arm : Option ℕ
  pub deleted : Bool

pub record BiometricDevice : Type 0 where
  pub code : ℕ
  pub last_seen_at : Option ℕ

pub record School : Type 0 where
  pub register : Register
  pub staff_marks : List StaffAttendance
  pub events : List BiometricEvent
  pub devices : List BiometricDevice
  pub staff : List StaffMember
  pub students : List Pupil
  pub current_term : Option ℕ

-- `event.occurred_at.date()`, as days since the epoch.
abbrev pub day_of : ℕ → ℕ
day_of at = (at + 3600) / 86400

abbrev pub is_manual : MarkingMethod → Bool
is_manual MarkingMethod.manual = true
is_manual _ = false

abbrev pub punched : ℕ → StudentAttendance → StudentAttendance
punched at r = record r {
  status = AttendanceStatus.present;
  method = MarkingMethod.biometric;
  recorded_at = some at;
  version = r.version + 1;
}

abbrev pub punch_row : Pupil → ℕ → ℕ → ℕ → ℕ → StudentAttendance
punch_row student term day at pk = record {
  pk = pk;
  student = student.pk;
  term = term;
  date = day;
  subject = none;
  class_arm = student.current_arm;
  status = AttendanceStatus.present;
  method = MarkingMethod.biometric;
  marked_by = none;
  note = [];
  version = 1;
  recorded_at = some at;
}

-- A daily row is under no unique constraint, so the insert cannot fail.
unfoldable pub apply_student_punch : Pupil → ℕ → ℕ → ℕ → Register → Register
unfolding save_row
apply_student_punch student term day at s = elim (find (in_slot student.pk day none) s.rows) [
  | none ↦ record {
    rows = s.rows ++ punch_row student term day at s.next_pk ∷ [];
    next_pk = s.next_pk + 1;
  }
  | some r ↦ if is_manual r.method then s else save_row r.pk (punched at) s
]

abbrev pub is_staff_day : ℕ → ℕ → StaffAttendance → Bool
is_staff_day staff day r = r.staff == staff && r.date == day

abbrev pub clocked : Direction → ℕ → StaffAttendance → StaffAttendance
clocked Direction.in_ at r = record r { check_in = some at }
clocked Direction.out at r = record r { check_out = some at }

abbrev blank_day : ℕ → ℕ → StaffAttendance
blank_day staff day = record {
  staff = staff;
  date = day;
  check_in = none;
  check_out = none;
  status = AttendanceStatus.present;
  method = MarkingMethod.manual;
  note = [];
}

-- `mark_staff`: `update_or_create`, with the columns that `fields` writes.
unfoldable pub mark_staff :
    ℕ
    → ℕ
    → AttendanceStatus
    → MarkingMethod
    → (StaffAttendance → StaffAttendance)
    → List StaffAttendance
    → List StaffAttendance
mark_staff staff day status method fields rows =
    let write = λ (r : StaffAttendance). fields (record r { status = status; method = method }) in
    if any (is_staff_day staff day) rows
    then map_if (is_staff_day staff day) write rows
    else rows ++ write (blank_day staff day) ∷ []

abbrev set_by_hand : Option StaffAttendance → Bool
set_by_hand none = false
set_by_hand (some r) = is_manual r.method

unfoldable pub apply_staff_punch :
    ℕ → ℕ → Direction → ℕ → List StaffAttendance → List StaffAttendance
unfolding mark_staff
apply_staff_punch staff day direction at rows =
    if set_by_hand (find (is_staff_day staff day) rows)
    then map_if (is_staff_day staff day) (clocked direction at) rows
    else mark_staff staff day AttendanceStatus.present MarkingMethod.biometric
        (clocked direction at) rows

abbrev is_named : Text → Text → Bool → Bool
is_named external_id number deleted = not deleted && text_eq number external_id

abbrev pub find_staff : Text → List StaffMember → Option StaffMember
find_staff external_id = find (λ m. is_named external_id m.staff_number m.deleted)

abbrev or_find : Option Pupil → Option Pupil → Option Pupil
or_find (some p) other = some p
or_find none other = other

-- By admission number, then by matriculation number.
abbrev pub find_student : Text → List Pupil → Option Pupil
find_student external_id students =
    or_find (find (λ p. is_named external_id p.admission_number p.deleted) students)
      (find (λ p. is_named external_id p.matriculation_number p.deleted) students)

abbrev pub same_punch : ℕ → Text → ℕ → BiometricEvent → Bool
same_punch device external_id at e =
    e.device == device && text_eq e.external_id external_id && e.occurred_at == at

abbrev pub processed : ℕ → BiometricEvent → BiometricEvent
processed now e = record e { processed_at = some now }

abbrev pub unmatched : Text → BiometricEvent → BiometricEvent
unmatched why e = record e { match_error = why }

-- `event.save(update_fields=…)`
abbrev pub save_event : BiometricEvent → (BiometricEvent → BiometricEvent) → School → School
save_event e write s = record s {
  events = map_if (same_punch e.device e.external_id e.occurred_at) write s.events;
}

abbrev pub resolve_student : ℕ → BiometricEvent → Option Pupil → Option ℕ → School → School
resolve_student now e none term s = save_event e (unmatched (codes "no matching person")) s
resolve_student now e (some p) none s = save_event e (unmatched (codes "no current term")) s
resolve_student now e (some p) (some term) s = save_event e (processed now) (record s {
  register = apply_student_punch p term (day_of e.occurred_at) e.occurred_at s.register;
})

unfoldable pub resolve_event : ℕ → BiometricEvent → School → School
unfolding apply_student_punch apply_staff_punch
resolve_event now e s = elim (find_staff e.external_id s.staff) [
  | some m ↦ save_event e (processed now) (record s {
    staff_marks =
        apply_staff_punch m.pk (day_of e.occurred_at) e.direction e.occurred_at s.staff_marks;
  })
  | none ↦ resolve_student now e (find_student e.external_id s.students) s.current_term s
]

abbrev pub new_event : ℕ → Text → ℕ → Direction → BiometricEvent
new_event device external_id at direction = record {
  device = device;
  external_id = external_id;
  occurred_at = at;
  direction = direction;
  processed_at = none;
  match_error = [];
}

-- The school once a new event is stored and its device marked as seen.
abbrev pub received : ℕ → ℕ → Text → ℕ → Direction → School → School
received now device external_id at direction s = record s {
  events = new_event device external_id at direction ∷ s.events;
  devices = map_if (λ d. d.code == device) (λ d. record d { last_seen_at = some now }) s.devices;
}

-- `get_or_create` on (device, external_id, occurred_at), and what follows a creation.
unfoldable pub ingest_biometric_event : ℕ → ℕ → Text → ℕ → Direction → School → School
unfolding resolve_event
ingest_biometric_event now device external_id at direction s =
    if any (same_punch device external_id at) s.events
    then s
    else resolve_event now (new_event device external_id at direction)
        (received now device external_id at direction s)
