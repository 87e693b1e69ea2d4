-- ===== src/Academics/Registration.antt =====
-- apps/academics/services.py: registration of subjects, its checks and its approval workflow.
--
-- The argument of an operation is the object that was read; a save writes it, or the columns it
-- names, over the row with its key. The table lists the newest row first.
pub mod Credits
pub mod Approval
pub mod Workflow
use schapp.Base.{
  ℕ, Bool, true, false, ◌&&◌, ◌||◌, not, Option, none, some, List, [], ◌∷◌, ◌==◌, leb, ltb, ◌+◌,
  any, find, map_if, select, map, if◌then◌else◌, opt_eq, or_else, is_some, Text, take, map_opt, suc,
}
use schapp.Db.{Result, ok, err, Action, tenant_atomic, continue}
use schapp.Academics.Models.{Enrolment, Student}
use schapp.Academics.Calendar.{Term, accepts_registration}

pub data RegistrationStatus : Type 0 where
  draft submitted adviser_approved approved rejected dropped : RegistrationStatus

-- `TERMINAL_REGISTRATION_STATUSES`
abbrev pub is_terminal : RegistrationStatus → Bool
is_terminal RegistrationStatus.dropped = true
is_terminal RegistrationStatus.rejected = true
is_terminal _ = false

pub record SubjectRegistration : Type 0 where
  pub pk : ℕ
  pub enrolment : ℕ
  pub subject : ℕ
  pub term : ℕ
  pub status : RegistrationStatus
  pub is_carryover : Bool
  pub adviser_approved_by : Option ℕ
  pub adviser_approved_at : Option ℕ
  pub hod_approved_by : Option ℕ
  pub hod_approved_at : Option ℕ
  pub dropped_at : Option ℕ
  pub rejection_reason : Text

pub record Subject : Type 0 where
  pub pk : ℕ
  pub credit_units : ℕ
  pub department : Option ℕ
  pub stream : Option ℕ
  pub semester_offered : Option ℕ
  pub prerequisites : List ℕ
  pub is_active : Bool

pub record Programme : Type 0 where
  pub pk : ℕ
  pub department : ℕ
  pub min_credit_units : ℕ
  pub max_credit_units : ℕ

-- A result's verdict on the registration it belongs to.
pub record Verdict : Type 0 where
  pub registration : ℕ
  pub is_pass : Bool

pub data RegistrationAction : Type 0 where
  registration_reopened registration_rejected subject_dropped : RegistrationAction

pub record Registry : Type 0 where
  pub subjects : List Subject
  pub enrolments : List Enrolment
  pub registrations : List SubjectRegistration
  pub results : List Verdict
  pub next_pk : ℕ
  pub audit : List (RegistrationAction × ℕ × RegistrationStatus)

pub data CheckCode : Type 0 where
  already_registered subject_inactive wrong_semester wrong_stream wrong_department : CheckCode
  prerequisite_not_met : List ℕ → CheckCode

pub data RegistrationError : Type 0 where
  registration_closed : RegistrationError
  registration_rejected_rows : List (ℕ × CheckCode) → RegistrationError
  credit_limit_exceeded : (proposed maximum : ℕ) → RegistrationError
  credit_minimum_not_met : (registered minimum : ℕ) → RegistrationError
  registration_not_pending : RegistrationStatus → RegistrationError
  integrity_error : RegistrationError

-- The rows of one enrolment in one term.
abbrev pub in_term : ℕ → ℕ → SubjectRegistration → Bool
in_term enrolment term r = (r.enrolment == enrolment) && (r.term == term)

abbrev pub units_of : List Subject → ℕ → ℕ
units_of [] pk = 0
units_of (s ∷ ss) pk = let rest = units_of ss pk in if s.pk == pk then s.credit_units else rest

abbrev pub counted : ℕ → ℕ → SubjectRegistration → Bool
counted enrolment term r = in_term enrolment term r && not (is_terminal r.status)

abbrev pub sum_units : List Subject → (SubjectRegistration → Bool) → List SubjectRegistration → ℕ
sum_units ss p [] = 0
sum_units ss p (r ∷ rs) = (if p r then units_of ss r.subject else 0) + sum_units ss p rs

-- `registered_credit_units`, of all the rows.
abbrev pub registered_credit_units : ℕ → ℕ → Registry → ℕ
registered_credit_units enrolment term g =
    sum_units g.subjects (counted enrolment term) g.registrations

abbrev pub member : ℕ → List ℕ → Bool
member k = any (λ j. j == k)

abbrev enrolment_student : ℕ → List Enrolment → Option ℕ
enrolment_student pk [] = none
enrolment_student pk (e ∷ es) =
    let rest = enrolment_student pk es in if e.pk == pk then some e.student else rest

abbrev is_approved : RegistrationStatus → Bool
is_approved RegistrationStatus.approved = true
is_approved RegistrationStatus.adviser_approved = true
is_approved _ = false

abbrev has_passed : Registry → SubjectRegistration → Bool
has_passed g r = any (λ (v : Verdict). v.registration == r.pk && v.is_pass) g.results

-- A row that meets a prerequisite of a student's in another term.
abbrev pub meets : ℕ → ℕ → ℕ → Registry → SubjectRegistration → Bool
meets student term required g r =
    opt_eq (enrolment_student r.enrolment g.enrolments) (some student)
    && (r.subject == required)
    && is_approved r.status
    && has_passed g r
    && not (r.term == term)

abbrev pub unmet_prerequisites : Enrolment → Subject → Term → Registry → List ℕ
unmet_prerequisites e s t g =
    select (λ required. not (any (meets e.student t.pk required g) g.registrations)) s.prerequisites

abbrev pub is_slot : ℕ → ℕ → ℕ → SubjectRegistration → Bool
is_slot enrolment term subject r = in_term enrolment term r && (r.subject == subject)

abbrev differs : Option ℕ → Option ℕ → Bool
differs none b = false
differs (some a) none = false
differs (some a) (some b) = not (a == b)

abbrev department_of : Option Programme → Option ℕ
department_of none = none
department_of (some p) = some p.department

abbrev other_index : Option ℕ → ℕ → Bool
other_index none index = false
other_index (some n) index = not (n == 0) && not (n == index)

abbrev prerequisite_code : List ℕ → Option CheckCode
prerequisite_code [] = none
prerequisite_code (m ∷ ms) = some (prerequisite_not_met (m ∷ ms))

-- `check_registration`: none when nothing refuses the course.
unfoldable pub check_registration :
    Enrolment → Student → Option Programme → Term → Subject → Registry → Option CheckCode
check_registration e student programme t s g =
    if any (λ r. is_slot e.pk t.pk s.pk r && not (is_terminal r.status)) g.registrations
    then some already_registered
    else if not s.is_active
    then some subject_inactive
    else if other_index s.semester_offered t.index
    then some wrong_semester
    else if is_some s.stream && not (opt_eq student.stream s.stream)
    then some wrong_stream
    else if differs s.department (department_of programme)
    then some wrong_department
    else prerequisite_code (unmet_prerequisites e s t g)

abbrev refused_row : ℕ → Option CheckCode → List (ℕ × CheckCode) → List (ℕ × CheckCode)
refused_row subject none rows = rows
refused_row subject (some code) rows = (subject, code) ∷ rows

abbrev pub failures :
    Enrolment → Student → Option Programme → Term → List Subject → Registry → List (ℕ × CheckCode)
failures e student programme t [] g = []
failures e student programme t (s ∷ ss) g =
    refused_row s.pk (check_registration e student programme t s g)
      (failures e student programme t ss g)

-- `_is_carryover`
abbrev pub is_carryover : Enrolment → Subject → Term → Registry → Bool
is_carryover e s t g =
    any
      (λ r.
        opt_eq (enrolment_student r.enrolment g.enrolments) (some e.student)
        && (r.subject == s.pk)
        && not (in_term e.pk t.pk r))
      g.registrations

-- The columns that a registration, new or revived, is saved with.
abbrev pub registered : RegistrationStatus → Bool → SubjectRegistration → SubjectRegistration
registered status carryover r = record r {
  status = status;
  is_carryover = carryover;
  adviser_approved_by = none;
  adviser_approved_at = none;
  hod_approved_by = none;
  hod_approved_at = none;
  dropped_at = none;
  rejection_reason = [];
}

abbrev pub new_registration :
    ℕ → Enrolment → Subject → Term → RegistrationStatus → Bool → SubjectRegistration
new_registration pk e s t status carryover = record {
  pk = pk;
  enrolment = e.pk;
  subject = s.pk;
  term = t.pk;
  status = status;
  is_carryover = carryover;
  adviser_approved_by = none;
  adviser_approved_at = none;
  hod_approved_by = none;
  hod_approved_at = none;
  dropped_at = none;
  rejection_reason = [];
}

-- One turn of the loop over the subjects; `existing` holds the rows read before it.
unfoldable pub register_one :
    Enrolment
    → Term
    → RegistrationStatus
    → List SubjectRegistration
    → Subject
    → Action Registry RegistrationError (Unit {0})
register_one e t status existing s g = elim (find (is_slot e.pk t.pk s.pk) existing) [
  | some r ↦ (
    ok tt,
    record g {
      registrations =
          map_if (λ row. row.pk == r.pk) (registered status (is_carryover e s t g)) g.registrations;
    },
  )
  | none ↦ if any (is_slot e.pk t.pk s.pk) g.registrations then (err integrity_error, g) else (
    ok tt,
    record g {
      registrations =
          new_registration g.next_pk e s t status (is_carryover e s t g) ∷ g.registrations;
      next_pk = g.next_pk + 1;
    },
  )
]

unfoldable pub register_each :
    Enrolment
    → Term
    → RegistrationStatus
    → List SubjectRegistration
    → List Subject
    → Action Registry RegistrationError (Unit {0})
unfolding register_one
register_each e t status existing [] g = (ok tt, g)
register_each e t status existing (s ∷ ss) g =
    let r = register_one e t status existing s g in
    continue r.0 r.1 (λ _. register_each e t status existing ss r.1)

abbrev pub sum_credits : List Subject → ℕ
sum_credits [] = 0
sum_credits (s ∷ ss) = s.credit_units + sum_credits ss

abbrev pub over_limit : ℕ → Option Programme → Option RegistrationError
over_limit proposed none = none
over_limit proposed (some p) =
    if ltb p.max_credit_units proposed
    then some (credit_limit_exceeded proposed p.max_credit_units)
    else none

abbrev pub status_for : Option Programme → Bool → RegistrationStatus
status_for none submit = RegistrationStatus.approved
status_for (some p) submit =
    if submit then RegistrationStatus.submitted else RegistrationStatus.draft

abbrev pub is_nonempty : List (ℕ × CheckCode) → Bool
is_nonempty [] = false
is_nonempty (_ ∷ _) = true

unfoldable pub register_subjects :
    ℕ
    → Enrolment
    → Student
    → Option Programme
    → Term
    → List Subject
    → Bool
    → Bool
    → Action Registry RegistrationError (Unit {0})
unfolding check_registration register_each
register_subjects now e student programme t subjects submit ignore_window = tenant_atomic (λ g.
    let refused = failures e student programme t subjects g in
    if not ignore_window && not (accepts_registration now t)
    then (err registration_closed, g)
    else if is_nonempty refused
    then (err (registration_rejected_rows refused), g)
    else elim (over_limit (registered_credit_units e.pk t.pk g + sum_credits subjects) programme) [
      | some x ↦ (err x, g)
      | none ↦ register_each e t (status_for programme submit) g.registrations subjects g
    ])

-- `assert_minimum_credits`
abbrev pub below_minimum : ℕ → Option Programme → Option RegistrationError
below_minimum registered_ none = none
below_minimum registered_ (some p) =
    if ltb registered_ p.min_credit_units
    then some (credit_minimum_not_met registered_ p.min_credit_units)
    else none
