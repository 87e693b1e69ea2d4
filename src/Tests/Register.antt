-- ===== src/Tests/Register.antt =====
-- A register of one pupil, marked late by hand, and the gate.
use schapp.Base.{ℕ, ◌≡◌, refl, Option, none, some, [], ◌∷◌, codes, inl, inr, arith, false}
use schapp.Attendance.{
  AttendanceStatus, MarkingMethod, StudentAttendance, Direction, AttendanceRow, Register, Sheet,
  existing_key, find_row, mark_bulk,
}
use schapp.Attendance.Versions.{Bumped, mark_bulk-Bumped}
use schapp.Attendance.Stale.{HasErrors, IsBehind, mark_bulk-behind}
use schapp.Attendance.Gate.{School, ingest_biometric_event}
use schapp.Attendance.Punches.{ingest_biometric_event-again, ingest_biometric_event-manual}

abbrev late_mark : StudentAttendance
late_mark = record {
  pk = 1;
  student = 7;
  term = 1;
  date = 3;
  subject = none;
  class_arm = none;
  status = AttendanceStatus.late;
  method = MarkingMethod.manual;
  marked_by = some 4;
  note = [];
  version = 2;
  recorded_at = none;
}

abbrev roll : Register
roll = record { rows = late_mark ∷ []; next_pk = 2 }

abbrev sheet : Sheet
sheet = record {
  term = 1;
  date = 3;
  subject = none;
  class_arm = none;
  marked_by = some 4;
  method = MarkingMethod.manual;
  allowed_student_ids = none;
}

abbrev sent : ℕ → Option ℕ → AttendanceRow
sent student version = record {
  student_id = student;
  status = codes "PRESENT";
  note = [];
  version = version;
  recorded_at = none;
}

sent-IsBehind : IsBehind sheet roll.rows roll.rows (sent 7 (some 1))
unfolding existing_key find_row
sent-IsBehind = record {
  seen = 1;
  key = 1;
  now_there = late_mark;
  version_sent = refl;
  key_known = refl;
  row_there = refl;
  behind = omega arith;
}

mark_bulk-behind_example :
    let r = mark_bulk 100 sheet (sent 8 none ∷ sent 7 (some 1) ∷ []) roll in
    HasErrors r.0 × (r.1 ≡ roll)
mark_bulk-behind_example =
    mark_bulk-behind 100 sheet (sent 8 none ∷ sent 7 (some 1) ∷ []) roll (inr (inl sent-IsBehind))

mark_bulk-Bumped_example : Bumped roll.rows (mark_bulk 100 sheet (sent 7 (some 2) ∷ []) roll).1.rows
mark_bulk-Bumped_example = mark_bulk-Bumped 100 sheet (sent 7 (some 2) ∷ []) roll

-- Pupil 7 punches in on day 3.
abbrev school : School
school = record {
  register = roll;
  staff_marks = [];
  events = [];
  devices = record { code = 1; last_seen_at = none } ∷ [];
  staff = [];
  students =
      record {
        pk = 7;
        admission_number = codes "A7";
        matriculation_number = [];
        current_arm = none;
        deleted = false;
      }
      ∷ [];
  current_term = some 1;
}

ingest_biometric_event-again_example :
    let after = ingest_biometric_event 260000 1 (codes "A7") 259300 Direction.in_ school in
    ingest_biometric_event 260060 1 (codes "A7") 259300 Direction.out after ≡ after
ingest_biometric_event-again_example =
    ingest_biometric_event-again 260000 260060 1 (codes "A7") 259300 Direction.in_ Direction.out
      school

late_row : find_row 1 roll.rows ≡ some late_mark
unfolding find_row
late_row = refl

ingest_biometric_event-manual_example :
    find_row 1
      (ingest_biometric_event 260000 1 (codes "A7") 259300 Direction.in_ school).register.rows
    ≡ some late_mark
unfolding find_row
ingest_biometric_event-manual_example =
    ingest_biometric_event-manual 260000 1 (codes "A7") 259300 Direction.in_ school 1 late_mark
      (refl, tt) late_row refl
