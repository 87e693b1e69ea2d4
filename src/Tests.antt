-- ===== src/Tests.antt =====
-- The theorems at concrete inputs.
pub mod Finance
pub mod Register
pub mod Replays
pub mod Codes
pub mod Applicants
pub mod Years
pub mod Classes
pub mod Courses
pub mod Numbers
pub mod Devices
pub mod Promotions
