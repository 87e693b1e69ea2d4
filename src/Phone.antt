-- ===== src/Phone.antt =====
-- apps/auth_phone: sign-in by phone.
pub mod RateLimit
pub mod Otp
pub mod Msisdn
pub mod Tokens
pub mod Lockout
pub mod SingleUse
