-- ===== src/Assessment.antt =====
-- apps/assessment/services.py: the end of a year.
pub mod Promotion
