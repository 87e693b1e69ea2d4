-- ===== src/Tests/Courses.antt =====
-- A catalogue of three courses, a student of a programme, and a timetable.
use schapp.Base.{
  ℕ, ◌≡◌, refl, none, some, [], ◌∷◌, true, false, ◌≤◌, max, ◌↔◌, codes, List, is_some, ◌+◌, arith,
}
use schapp.Db.{ok, err}
use schapp.Academics.Calendar.{Term}
use schapp.Academics.Registration.{
  RegistrationStatus, SubjectRegistration, Subject, Programme, Registry, RegistrationError,
  registered_credit_units, register_subjects, check_registration, register_each, register_one,
}
use schapp.Academics.Registration.Credits.{register_subjects-ceiling}
use schapp.Academics.Registration.Approval.{
  approve_registration, reject_registration, reopen_registration, sign, refused, reopened,
}
use schapp.Academics.Registration.Workflow.{is_sound, Step, Run, Run-sound}
use schapp.Academics.Prerequisites.{closes_cycle, walk}
use schapp.Academics.Prerequisites.Walk.{closes_cycle-ends}
use schapp.Academics.Prerequisites.Cycles.{Leads, closes_cycle_iff}
use schapp.Academics.Prerequisites.Acyclic.{
  IsAcyclic, Chain, set_prerequisites, set_prerequisites-IsAcyclic,
}
use schapp.Academics.Timetable.{
  TimetableEntry, Timetable, TimetableError, PeriodChange, create_timetable_entry,
  update_timetable_entry, validate_entry,
}
use schapp.Academics.Timetable.Clashes.{IsSound, Edit, edits, edits-IsSound}
use schapp.Tests.Classes.{place, pupil}
use schapp.Tests.Years.{term_of}

abbrev course : ℕ → List ℕ → Subject
course pk prerequisites = record {
  pk = pk;
  credit_units = 3;
  department = none;
  stream = none;
  semester_offered = none;
  prerequisites = prerequisites;
  is_active = true;
}

abbrev catalogue : List Subject
catalogue = course 1 [] ∷ course 2 (1 ∷ []) ∷ course 3 (2 ∷ []) ∷ []

abbrev science : Programme
science = record { pk = 1; department = 1; min_credit_units = 3; max_credit_units = 7 }

abbrev waiting : SubjectRegistration
waiting = record {
  pk = 0;
  enrolment = 2;
  subject = 1;
  term = 21;
  status = RegistrationStatus.submitted;
  is_carryover = false;
  adviser_approved_by = none;
  adviser_approved_at = none;
  hod_approved_by = none;
  hod_approved_at = none;
  dropped_at = none;
  rejection_reason = [];
}

abbrev registry : Registry
registry = record {
  subjects = course 1 [] ∷ course 4 [] ∷ course 5 [] ∷ [];
  enrolments = place 2 none none ∷ [];
  registrations = waiting ∷ [];
  results = [];
  next_pk = 1;
  audit = [];
}

abbrev this_term : Term
this_term = term_of 21 2 1 100

register_subjects-ceiling_example :
    registered_credit_units 2 21
      (register_subjects 110
        (place 2 none none)
        (pupil 2)
        (some science)
        this_term
        (course 4 [] ∷ [])
        true
        false
        registry).1
    ≤ max (registered_credit_units 2 21 registry) 7
register_subjects-ceiling_example =
    register_subjects-ceiling 110 (place 2 none none) (pupil 2) science this_term (course 4 [] ∷ [])
      true false registry (omega arith, tt) (refl, tt)

-- One course more is within the maximum, two are not.
admitted :
    (register_subjects 110
      (place 2 none none)
      (pupil 2)
      (some science)
      this_term
      (course 4 [] ∷ [])
      true
      false
      registry).0
    ≡ ok tt
unfolding register_subjects check_registration register_each register_one
admitted = refl

over_ceiling :
    (register_subjects 110
      (place 2 none none)
      (pupil 2)
      (some science)
      this_term
      (course 4 [] ∷ course 5 [] ∷ [])
      true
      false
      registry).0
    ≡ err (RegistrationError.credit_limit_exceeded 9 7)
unfolding register_subjects check_registration register_each register_one
over_ceiling = refl

advised :
    (approve_registration 120 (some 8) false false (some science) waiting registry).0
    ≡ ok (sign 120 (some 8) false waiting)
unfolding approve_registration
advised = refl

abbrev turned_down : SubjectRegistration
turned_down = refused 130 (some 9) (codes "no") (sign 120 (some 8) false waiting)

declined :
    (reject_registration 130 (some 9) (codes "no") (sign 120 (some 8) false waiting) registry).0
    ≡ ok turned_down
unfolding reject_registration
declined = refl

brought_back : (reopen_registration turned_down registry).0 ≡ ok (reopened turned_down)
unfolding reopen_registration
brought_back = refl

abbrev story : Run true waiting (reopened turned_down)
story =
    Run.next
      (Run.next
        (Run.next Run.done (Step.approve 120 (some 8) false false (some science) registry advised))
        (Step.reject 130 (some 9) (codes "no") registry declined))
      (Step.reopen registry brought_back)

Run-sound_example : is_sound true (reopened turned_down) ≡ true
Run-sound_example = Run-sound story refl

closes_cycle-ends_example : is_some (closes_cycle catalogue (some 1) (3 ∷ [])) ≡ true
closes_cycle-ends_example = closes_cycle-ends catalogue (some 1) (3 ∷ [])

closes_cycle_iff_example :
    (closes_cycle catalogue (some 1) (3 ∷ []) ≡ some true) ↔ Leads catalogue (3 ∷ []) 1
closes_cycle_iff_example = closes_cycle_iff catalogue 1 (3 ∷ [])

-- The first course cannot require the third, nor the third the first again.
loop_found : closes_cycle catalogue (some 1) (3 ∷ []) ≡ some true
unfolding closes_cycle walk
loop_found = refl

no_loop : closes_cycle (course 1 [] ∷ course 2 [] ∷ []) (some 2) (1 ∷ []) ≡ some false
unfolding closes_cycle walk
no_loop = refl

no-Chain : {k j : ℕ} → Chain (course 1 [] ∷ course 2 [] ∷ []) k j → ⊥
no-Chain {k} (Chain.one {j} r) = ground arith
no-Chain {k} (Chain.more {i} {j} c r) = no-Chain c

set_prerequisites-IsAcyclic_example :
    IsAcyclic (set_prerequisites 2 (1 ∷ []) (course 1 [] ∷ course 2 [] ∷ []))
set_prerequisites-IsAcyclic_example =
    set_prerequisites-IsAcyclic 2 (1 ∷ []) (course 1 [] ∷ course 2 [] ∷ []) (λ k c. no-Chain c)
      no_loop

abbrev period : ℕ → ℕ → TimetableEntry
period day start = record {
  pk = 0;
  term = 21;
  day = day;
  start_time = start;
  end_time = start + 40;
  subject = 1;
  staff = some 8;
  class_arm = some 5;
  level = none;
  room = none;
}

abbrev no_change : PeriodChange
no_change = record {
  term = none;
  day = none;
  start_time = none;
  end_time = none;
  subject = none;
  staff = none;
  class_arm = none;
  level = none;
  room = none;
}

abbrev rescheduled : ℕ → PeriodChange
rescheduled start = record no_change {
  term = some 21;
  day = some 1;
  start_time = some start;
  end_time = some (start + 40);
  subject = some 1;
}

abbrev rescheduled_whole : ℕ → PeriodChange
rescheduled_whole start = record (rescheduled start) {
  staff = some (some 8);
  class_arm = some (some 5);
  level = some none;
  room = some none;
}

abbrev stored : ℕ → ℕ → TimetableEntry
stored pk start = record (period 1 start) { pk = pk }

-- The second period overlaps the first and is refused; the third touches it and is not; it is then
-- rescheduled to a later hour.
abbrev requests : List Edit
requests =
    Edit.create (period 1 540)
    ∷ Edit.create (period 1 560)
    ∷ Edit.create (period 1 580)
    ∷ Edit.update (stored 2 580) (rescheduled_whole 600)
    ∷ []

edits-IsSound_example : IsSound (edits requests (record { entries = []; next_pk = 1 }))
edits-IsSound_example =
    edits-IsSound requests (record { entries = []; next_pk = 1 }) (refl, (refl, (refl, (refl, tt))))
      tt

two_periods :
    (edits requests (record { entries = []; next_pk = 1 })).entries
    ≡ stored 2 600 ∷ stored 1 540 ∷ []
unfolding create_timetable_entry update_timetable_entry validate_entry
two_periods = refl

abbrev two_rows : Timetable
two_rows = record { entries = stored 2 600 ∷ stored 1 540 ∷ []; next_pk = 3 }

-- A change that names the arm only keeps the teacher, and puts them in two periods at once.
abbrev other_arm : PeriodChange
other_arm = record (rescheduled 540) { class_arm = some (some 6) }

teacher_twice :
    (update_timetable_entry (stored 2 600) other_arm two_rows).1.entries
    ≡ record (stored 2 540) { class_arm = some 6 } ∷ stored 1 540 ∷ []
unfolding update_timetable_entry validate_entry
teacher_twice = refl

no_times :
    (update_timetable_entry (stored 2 600) no_change two_rows).0 ≡ err TimetableError.type_error
unfolding update_timetable_entry
no_times = refl
