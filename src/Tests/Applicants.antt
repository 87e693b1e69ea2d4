-- ===== src/Tests/Applicants.antt =====
-- An applicant who is screened and gets an offer.
use schapp.Base.{◌≤◌, ◌≡◌, refl, none, some, []}
use schapp.Db.{ok}
use schapp.People.Admissions.{
  ApplicationStatus, Application, Decision, moved, transition_application,
}
use schapp.People.Admissions.History.{IsDated, Run, transitions, Run-IsDated, Run-bounded}

abbrev applicant : Application
applicant = record {
  pk = 1;
  status = ApplicationStatus.submitted;
  screening_score = none;
  screening_notes = [];
  decided_by = none;
  decided_at = none;
  offered_at = none;
  accepted_at = none;
  student = none;
}

abbrev no_comment : Decision
no_comment = record { staff = some 3; notes = []; score = none }

abbrev screened : Application
screened = moved 5 ApplicationStatus.screening no_comment applicant

abbrev with_offer : Application
with_offer = moved 6 ApplicationStatus.offered no_comment screened

to_screening :
    transition_application 5 ApplicationStatus.screening no_comment applicant ≡ ok screened
unfolding transition_application
to_screening = refl

to_offer : transition_application 6 ApplicationStatus.offered no_comment screened ≡ ok with_offer
unfolding transition_application moved
to_offer = refl

abbrev admission : Run applicant with_offer
admission =
    Run.step 5 ApplicationStatus.screening no_comment applicant screened with_offer to_screening (
      Run.step 6 ApplicationStatus.offered no_comment screened with_offer with_offer to_offer
        (Run.stop with_offer))

Run-IsDated_example : IsDated with_offer
Run-IsDated_example = Run-IsDated applicant with_offer admission tt

Run-bounded_example : transitions admission ≤ 4
Run-bounded_example = Run-bounded applicant with_offer admission
