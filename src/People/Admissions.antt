-- ===== src/People/Admissions.antt =====
-- apps/people/models.py and services.py: an admission application and its transitions. The
-- conversion into a student record is not modelled.
pub mod History
use schapp.Base.{ℕ, Bool, true, false, Option, none, some, List, [], ◌∷◌, any, if◌then◌else◌, Text}
use schapp.Db.{Result, ok, err}

pub data ApplicationStatus : Type 0 where
  submitted screening offered accepted enrolled rejected withdrawn : ApplicationStatus

-- Names, contacts and what was applied for stay as they are in a transition, and are left out.
pub record Application : Type 0 where
  pub pk : ℕ
  pub status : ApplicationStatus
  pub screening_score : Option ℕ
  pub screening_notes : Text
  pub decided_by : Option ℕ
  pub decided_at : Option ℕ
  pub offered_at : Option ℕ
  pub accepted_at : Option ℕ
  pub student : Option ℕ

pub data AdmissionError : Type 0 where
  invalid_transition : ApplicationStatus → ApplicationStatus → AdmissionError

-- `ALLOWED_TRANSITIONS`
abbrev pub allowed_transitions : ApplicationStatus → List ApplicationStatus
allowed_transitions submitted = screening ∷ rejected ∷ withdrawn ∷ []
allowed_transitions screening = offered ∷ rejected ∷ withdrawn ∷ []
allowed_transitions offered = accepted ∷ rejected ∷ withdrawn ∷ []
allowed_transitions accepted = enrolled ∷ withdrawn ∷ []
allowed_transitions enrolled = []
allowed_transitions rejected = []
allowed_transitions withdrawn = []

abbrev pub same_status : ApplicationStatus → ApplicationStatus → Bool
same_status submitted submitted = true
same_status screening screening = true
same_status offered offered = true
same_status accepted accepted = true
same_status enrolled enrolled = true
same_status rejected rejected = true
same_status withdrawn withdrawn = true
same_status _ _ = false

abbrev or_kept : {A : Type 0} → Option A → Option A → Option A
or_kept none old = old
or_kept (some a) old = some a

abbrev or_text : Text → Text → Text
or_text [] old = old
or_text (c ∷ cs) old = c ∷ cs

-- What accompanies a transition.
pub record Decision : Type 0 where
  pub staff : Option ℕ
  pub notes : Text
  pub score : Option ℕ

unfoldable pub moved : ℕ → ApplicationStatus → Decision → Application → Application
moved now to_status d a = record a {
  status = to_status;
  decided_by = or_kept d.staff a.decided_by;
  decided_at = some now;
  screening_notes = or_text d.notes a.screening_notes;
  screening_score = or_kept d.score a.screening_score;
  offered_at = if same_status to_status offered then some now else a.offered_at;
  accepted_at = if same_status to_status accepted then some now else a.accepted_at;
}

unfoldable pub transition_application :
    ℕ → ApplicationStatus → Decision → Application → Result AdmissionError Application
unfolding moved
transition_application now to_status d a =
    if any (same_status to_status) (allowed_transitions a.status)
    then ok (moved now to_status d a)
    else err (invalid_transition a.status to_status)
