-- ===== src/Finance.antt =====
-- apps/finance: bills and the money that comes back against them.
pub mod Models
pub mod Books
pub mod Invoicing
pub mod Gateway
pub mod Payments
pub mod Sums
pub mod Invariant
pub mod Steps
