-- ===== src/People.antt =====
-- apps/people: applicants, students and staff.
pub mod Admissions
