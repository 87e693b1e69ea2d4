-- ===== src/Academics/Registration/Approval.antt =====
-- apps/academics/services.py: what an adviser, a head of department or the student does to a
-- registration.
use schapp.Base.{
  ℕ, Bool, true, false, ◌&&◌, not, Option, none, some, [], ◌∷◌, ◌==◌, map_if, if◌then◌else◌, Text,
  take,
}
use schapp.Db.{ok, err, Action}
use schapp.Academics.Registration.{
  RegistrationStatus, SubjectRegistration, Programme, Registry, RegistrationAction,
  RegistrationError, is_terminal, registered_credit_units, below_minimum, registration_not_pending,
  registration_closed, registration_reopened, registration_rejected, subject_dropped,
}

abbrev pub save_row :
    (SubjectRegistration → SubjectRegistration) → SubjectRegistration → Registry → Registry
save_row w r g = record g { registrations = map_if (λ row. row.pk == r.pk) w g.registrations }

abbrev pub record_action : RegistrationAction → SubjectRegistration → Registry → Registry
record_action a r g = record g { audit = (a, r.pk, r.status) ∷ g.audit }

abbrev pub is_status : RegistrationStatus → RegistrationStatus → Bool
is_status RegistrationStatus.draft RegistrationStatus.draft = true
is_status RegistrationStatus.submitted RegistrationStatus.submitted = true
is_status RegistrationStatus.adviser_approved RegistrationStatus.adviser_approved = true
is_status RegistrationStatus.approved RegistrationStatus.approved = true
is_status RegistrationStatus.rejected RegistrationStatus.rejected = true
is_status RegistrationStatus.dropped RegistrationStatus.dropped = true
is_status _ _ = false

abbrev pub required : Bool → RegistrationStatus
required true = RegistrationStatus.adviser_approved
required false = RegistrationStatus.submitted

-- `staff` is the signer's staff record, where they have one.
abbrev pub sign : ℕ → Option ℕ → Bool → SubjectRegistration → SubjectRegistration
sign now staff true r = record r {
  hod_approved_by = staff;
  hod_approved_at = some now;
  status = RegistrationStatus.approved;
}
sign now staff false r = record r {
  adviser_approved_by = staff;
  adviser_approved_at = some now;
  status = RegistrationStatus.adviser_approved;
}

abbrev pub short_of :
    Bool → Option Programme → SubjectRegistration → Registry → Option RegistrationError
short_of true programme r g = none
short_of false programme r g =
    below_minimum (registered_credit_units r.enrolment r.term g) programme

-- `programme` is that of the registration's enrolment; the save is of the whole object.
unfoldable pub approve_registration :
    ℕ
    → Option ℕ
    → Bool
    → Bool
    → Option Programme
    → SubjectRegistration
    → Action Registry RegistrationError SubjectRegistration
approve_registration now staff as_hod ignore_minimum programme r g =
    if is_status r.status RegistrationStatus.approved
    then (ok r, g)
    else if is_terminal r.status
    then (err (registration_not_pending r.status), g)
    else if not (is_status r.status (required as_hod))
    then (err (registration_not_pending r.status), g)
    else elim (short_of ignore_minimum programme r g) [
      | some x ↦ (err x, g)
      | none ↦ (ok (sign now staff as_hod r), save_row (λ _. sign now staff as_hod r) r g)
    ]

abbrev pub reopened : SubjectRegistration → SubjectRegistration
reopened r = record r {
  status = RegistrationStatus.submitted;
  rejection_reason = [];
  adviser_approved_by = none;
  adviser_approved_at = none;
  hod_approved_by = none;
  hod_approved_at = none;
}

unfoldable pub reopen_registration :
    SubjectRegistration → Action Registry RegistrationError SubjectRegistration
reopen_registration r g =
    if not (is_status r.status RegistrationStatus.rejected)
    then (err (registration_not_pending r.status), g)
    else (ok (reopened r), record_action registration_reopened r (save_row reopened r g))

abbrev pub refused : ℕ → Option ℕ → Text → SubjectRegistration → SubjectRegistration
refused now staff reason r = record r {
  status = RegistrationStatus.rejected;
  rejection_reason = take 200 reason;
  adviser_approved_by = staff;
  adviser_approved_at = some now;
}

unfoldable pub reject_registration :
    ℕ
    → Option ℕ
    → Text
    → SubjectRegistration
    → Action Registry RegistrationError SubjectRegistration
reject_registration now staff reason r g = if is_terminal r.status then (ok r, g) else (
  ok (refused now staff reason r),
  record_action registration_rejected r (save_row (refused now staff reason) r g),
)

abbrev pub withdrawn : ℕ → SubjectRegistration → SubjectRegistration
withdrawn now r = record r { status = RegistrationStatus.dropped; dropped_at = some now }

-- `accepts` is the term's `accepts_registration`.
unfoldable pub drop_subject :
    ℕ → Bool → Bool → SubjectRegistration → Action Registry RegistrationError SubjectRegistration
drop_subject now accepts ignore_window r g =
    if not ignore_window && not accepts
    then (err registration_closed, g)
    else (ok (withdrawn now r), record_action subject_dropped r (save_row (withdrawn now) r g))
