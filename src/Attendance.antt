-- ===== src/Attendance.antt =====
-- apps/attendance/models.py and services.py: the register, marked in bulk by a client that may have
-- been offline, and the gate's biometric punches.
--
-- Keys of students, staff, terms, subjects and arms are numbers. The rows of a term's register
-- stand in the order in which they were created.
pub mod Versions
pub mod Stale
pub mod Gate
pub mod Punches
use schapp.Base.{
  ℕ, ◌+◌, Bool, true, false, ◌&&◌, not, Option, none, some, List, [], ◌∷◌, ◌++◌, ◌==◌, any, find,
  map_if, is_some, or_else, opt_eq, if◌then◌else◌, Text, codes, text_eq,
}
use schapp.Db.{Action, Result, ok, err, pure, gets, modify, tenant_atomic, ◌>>=◌, ◌>>◌}
use schapp.Bulk.{BulkOutcome, add_error, count_created, count_updated, atomic_bulk}

pub data AttendanceStatus : Type 0 where
  present : AttendanceStatus
  absent : AttendanceStatus
  late : AttendanceStatus
  excused : AttendanceStatus

pub data MarkingMethod : Type 0 where
  manual : MarkingMethod
  qr : MarkingMethod
  biometric : MarkingMethod
  import_ : MarkingMethod

pub record StudentAttendance : Type 0 where
  pub pk : ℕ
  pub student : ℕ
  pub term : ℕ
  pub date : ℕ
  pub subject : Option ℕ
  pub class_arm : Option ℕ
  pub status : AttendanceStatus
  pub method : MarkingMethod
  pub marked_by : Option ℕ
  pub note : Text
  pub version : ℕ
  pub recorded_at : Option ℕ

pub record StaffAttendance : Type 0 where
  pub staff : ℕ
  pub date : ℕ
  pub check_in : Option ℕ
  pub check_out : Option ℕ
  pub status : AttendanceStatus
  pub method : MarkingMethod
  pub note : Text

pub data Direction : Type 0 where
  in_ : Direction
  out : Direction

pub record BiometricEvent : Type 0 where
  pub device : ℕ
  pub external_id : Text
  pub occurred_at : ℕ
  pub direction : Direction
  pub processed_at : Option ℕ
  pub match_error : Text

-- A row as the client sends it: its status is any text.
pub record AttendanceRow : Type 0 where
  pub student_id : ℕ
  pub status : Text
  pub note : Text
  pub version : Option ℕ
  pub recorded_at : Option ℕ

-- `row.status not in AttendanceStatus.values`
abbrev pub status_of : Text → Option AttendanceStatus
status_of t =
    if text_eq t (codes "PRESENT")
    then some present
    else if text_eq t (codes "ABSENT")
    then some absent
    else if text_eq t (codes "LATE")
    then some late
    else if text_eq t (codes "EXCUSED")
    then some excused
    else none

pub data MarkCode : Type 0 where
  not_in_class : MarkCode
  bad_status : MarkCode
  conflict : MarkCode

-- What the database refuses.
pub data AttendanceError : Type 0 where
  integrity_error : AttendanceError

-- The request that marks one register.
pub record Sheet : Type 0 where
  pub term : ℕ
  pub date : ℕ
  pub subject : Option ℕ
  pub class_arm : Option ℕ
  pub marked_by : Option ℕ
  pub method : MarkingMethod
  pub allowed_student_ids : Option (List ℕ)

-- The table of marks; a new row is the last one.
pub record Register : Type 0 where
  pub rows : List StudentAttendance
  pub next_pk : ℕ

abbrev pub Marking : Type 0 → Type 0
Marking = Action Register AttendanceError

unfoldable pub find_row : ℕ → List StudentAttendance → Option StudentAttendance
find_row pk = find (λ r. r.pk == pk)

abbrev pub in_slot : ℕ → ℕ → Option ℕ → StudentAttendance → Bool
in_slot student date subject r = r.student == student && r.date == date && opt_eq r.subject subject

-- `unique_student_attendance_per_period`: SQL counts no two nulls as equal, so it binds the rows of
-- one period and not those of the daily register.
unfoldable pub slot_taken : ℕ → ℕ → Option ℕ → List StudentAttendance → Bool
slot_taken student date subject rows = is_some subject && any (in_slot student date subject) rows

-- `StudentAttendance.objects.create(…)`
unfoldable pub create_row : (ℕ → StudentAttendance) → Marking (Unit {0})
unfolding slot_taken
create_row build s =
    let r = build s.next_pk in
    if slot_taken r.student r.date r.subject s.rows
    then (err integrity_error, s)
    else (ok tt, record { rows = s.rows ++ r ∷ []; next_pk = s.next_pk + 1 })

-- `record.save(update_fields=…)`
unfoldable pub save_row : ℕ → (StudentAttendance → StudentAttendance) → Register → Register
save_row pk write s = record s { rows = map_if (λ r. r.pk == pk) write s.rows }

-- ---- The register in bulk ----

-- `existing`: the keys of the register's rows by student; a later row replaces an earlier one. The
-- rows are locked, so that what an instance shows is what its row holds.
unfoldable pub existing_key : Sheet → ℕ → List StudentAttendance → Option ℕ
existing_key sheet student [] = none
existing_key sheet student (r ∷ rs) = elim (existing_key sheet student rs) [
  | some pk ↦ some pk
  | none ↦
      if r.student == student
        && r.term == sheet.term
        && r.date == sheet.date
        && opt_eq r.subject sheet.subject
      then some r.pk
      else none
]

abbrev row_of : Option ℕ → List StudentAttendance → Option StudentAttendance
row_of none rows = none
row_of (some pk) rows = find_row pk rows

-- `existing.get(str(row.student_id))`
unfoldable pub get_existing :
    Sheet → List StudentAttendance → ℕ → List StudentAttendance → Option StudentAttendance
unfolding existing_key
get_existing sheet fetched student rows = row_of (existing_key sheet student fetched) rows

abbrev pub is_outside : Option (List ℕ) → ℕ → Bool
is_outside none student = false
is_outside (some ids) student = not (any (λ j. j == student) ids)

-- `row.version is not None and row.version != record.version`
abbrev pub is_stale : Option ℕ → ℕ → Bool
is_stale none version = false
is_stale (some v) version = not (v == version)

abbrev pub new_row : ℕ → Sheet → AttendanceRow → AttendanceStatus → ℕ → StudentAttendance
new_row now sheet row status pk = record {
  pk = pk;
  student = row.student_id;
  term = sheet.term;
  date = sheet.date;
  subject = sheet.subject;
  class_arm = sheet.class_arm;
  status = status;
  method = sheet.method;
  marked_by = sheet.marked_by;
  note = row.note;
  version = 1;
  recorded_at = some (or_else row.recorded_at now);
}

abbrev or_kept : Option ℕ → Option ℕ → Option ℕ
or_kept none old = old
or_kept (some t) old = some t

abbrev pub marked : Sheet → AttendanceRow → AttendanceStatus → StudentAttendance → StudentAttendance
marked sheet row status r = record r {
  status = status;
  note = row.note;
  method = sheet.method;
  marked_by = sheet.marked_by;
  recorded_at = or_kept row.recorded_at r.recorded_at;
  version = r.version + 1;
}

-- One pass of the handler's loop: the outcome, and the table.
abbrev Marked : Type 0
Marked = Result AttendanceError (BulkOutcome MarkCode) × Register

abbrev after_create : Result AttendanceError (Unit {0}) × Register → BulkOutcome MarkCode → Marked
after_create (err e, s) outcome = (err e, s)
after_create (ok _, s) outcome = (ok (count_created outcome), s)

unfoldable pub mark_row :
    ℕ
    → Sheet
    → List StudentAttendance
    → ℕ
    → AttendanceRow
    → BulkOutcome MarkCode
    → Marking (BulkOutcome MarkCode)
unfolding get_existing create_row save_row
mark_row now sheet fetched index row outcome s =
    if is_outside sheet.allowed_student_ids row.student_id
    then (ok (add_error index row.student_id not_in_class outcome), s)
    else elim (status_of row.status) [
      | none ↦ (ok (add_error index row.student_id bad_status outcome), s)
      | some status ↦ elim (get_existing sheet fetched row.student_id s.rows) [
        | none ↦ after_create (create_row (new_row now sheet row status) s) outcome
        | some r ↦
            if is_stale row.version r.version
            then (ok (add_error index row.student_id conflict outcome), s)
            else (ok (count_updated outcome), save_row r.pk (marked sheet row status) s)
      ]
    ]

unfoldable pub mark_rows :
    ℕ
    → Sheet
    → List StudentAttendance
    → ℕ
    → List AttendanceRow
    → BulkOutcome MarkCode
    → Marking (BulkOutcome MarkCode)
mark_rows now sheet fetched index [] outcome = pure outcome
mark_rows now sheet fetched index (row ∷ rows) outcome =
    mark_row now sheet fetched index row outcome >>= mark_rows now sheet fetched (index + 1) rows

unfoldable pub mark_bulk : ℕ → Sheet → List AttendanceRow → Marking (BulkOutcome MarkCode)
unfolding mark_rows
mark_bulk now sheet rows = atomic_bulk (λ outcome s. mark_rows now sheet s.rows 0 rows outcome s)
