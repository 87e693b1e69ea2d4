-- ===== src/Academics/Models.antt =====
-- apps/academics/models.py and apps/people/models.py: the rows that several components read.
-- Columns that nothing modelled reads or writes (names, addresses) are left out.
use schapp.Base.{ℕ, Bool, true, false, Option, Text}

pub data EnrolmentStatus : Type 0 where
  active promoted repeated graduated withdrawn transferred : EnrolmentStatus

pub record Enrolment : Type 0 where
  pub pk : ℕ
  pub student : ℕ
  pub session : ℕ
  pub level : ℕ
  pub class_arm : Option ℕ
  pub programme : Option ℕ
  pub status : EnrolmentStatus
  pub roll_number : Option ℕ
  pub promotion_note : Text

pub data StudentStatus : Type 0 where
  applicant admitted active graduated withdrawn suspended transferred : StudentStatus

pub record Student : Type 0 where
  pub pk : ℕ
  pub admission_number : Text
  pub matriculation_number : Text
  pub status : StudentStatus
  pub stream : Option ℕ
  pub current_level : Option ℕ
  pub current_arm : Option ℕ
  pub programme : Option ℕ
  pub date_left : Option ℕ
  pub deleted_at : Option ℕ

abbrev pub is_active_enrolment : EnrolmentStatus → Bool
is_active_enrolment EnrolmentStatus.active = true
is_active_enrolment _ = false
