-- ===== src/Academics.antt =====
-- apps/academics: sessions and terms, enrolment and classes, registration of subjects, timetable.
pub mod Models
pub mod Calendar
pub mod Placement
pub mod Registration
pub mod Prerequisites
pub mod Timetable
