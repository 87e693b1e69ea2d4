-- ===== src/Phone/Otp.antt =====
-- apps/auth_phone/models.py and services.py: one-time codes and their verification.
--
-- The keyed MAC, the test on the shape of a UUID, the limits and the development code (empty unless
-- DEBUG is set) are parameters. The submitted code comes stripped of blanks. The database is
-- rolled back where verification raises; the cache, which is not in it, is not.
use schapp.Base.{
  ℕ, ◌+◌, Bool, true, false, ◌&&◌, ◌||◌, not, Option, none, some, List, [], ◌∷◌, ◌++◌, leb, ◌==◌,
  find, map_if, is_some, if◌then◌else◌, Text, text_eq,
}
use schapp.Db.{Result, ok, err}
use schapp.Phone.RateLimit.{
  LimitName, Limits, Cache, LimitResult, hit, reset, is_locked_out, lock_out, clear_lockout,
  lockout_seconds,
}

pub record OtpRequest : Type 0 where
  pub pk : Text
  pub phone : Text
  pub user : Option ℕ
  pub code_hash : Text
  pub expires_at : ℕ
  pub consumed_at : Option ℕ
  pub invalidated_at : Option ℕ
  pub attempts : ℕ

pub record User : Type 0 where
  pub pk : ℕ
  pub phone_verified_at : Option ℕ

pub data AuditAction : Type 0 where
  otp_requested : AuditAction
  otp_locked : AuditAction

-- The tables that verification reads and writes.
pub record Tables : Type 0 where
  pub otps : List OtpRequest
  pub users : List User
  pub audit : List (AuditAction × Text)

pub record World : Type 0 where
  pub tables : Tables
  pub cache : Cache

pub data OtpError : Type 0 where
  otp_invalid : OtpError
  otp_locked_out : ℕ → OtpError
  otp_already_used : OtpError
  otp_expired : OtpError

pub record OtpVerified : Type 0 where
  pub user : ℕ
  pub otp : Text

abbrev pub Outcome : Type 0
Outcome = Result OtpError OtpVerified × World

unfoldable pub find_otp : Text → List OtpRequest → Option OtpRequest
find_otp request_id = find (λ o. text_eq o.pk request_id)

abbrev pub is_live : ℕ → OtpRequest → Bool
is_live now o =
    not (is_some o.consumed_at) && not (is_some o.invalidated_at) && not (leb o.expires_at now)

abbrev first_time : ℕ → Option ℕ → Option ℕ
first_time now none = some now
first_time now (some t) = some t

-- `_consume`
unfoldable pub consume : ℕ → OtpRequest → World → Outcome
consume now otp w = elim (otp.user) [
  | none ↦ (err otp_invalid, w)
  | some user ↦ (
    ok (record { user = user; otp = otp.pk }),
    record {
      tables = record w.tables {
        otps =
            map_if (λ o. text_eq o.pk otp.pk) (λ o. record o { consumed_at = some now })
              w.tables.otps;
        users =
            map_if (λ u. u.pk == user)
              (λ u. record u { phone_verified_at = first_time now u.phone_verified_at })
              w.tables.users;
      };
      cache = reset LimitName.otp_phone_burst otp.phone (clear_lockout otp.phone w.cache);
    },
  )
]

abbrev pub has_text : Text → Bool
has_text [] = false
has_text (_ ∷ _) = true

-- The attempts written, and on the last of the allowance the lockout with its audit row.
unfoldable pub reject : ℕ → OtpRequest → LimitResult → World → Outcome
reject now otp attempt w =
    let counted = record w.tables {
      otps =
          map_if (λ o. text_eq o.pk otp.pk) (λ o. record o { attempts = otp.attempts + 1 })
            w.tables.otps;
    } in
    if not attempt.allowed || attempt.remaining == 0
    then (
      err (otp_locked_out lockout_seconds),
      record {
        tables = record counted { audit = (otp_locked, otp.pk) ∷ counted.audit };
        cache = lock_out now otp.phone w.cache;
      },
    )
    else (err otp_invalid, record w { tables = counted })

-- `tenant_atomic`: the database's part of a failed body is rolled back.
abbrev pub atomic : Tables → Outcome → Outcome
atomic before (ok v, w) = (ok v, w)
atomic before (err e, w) = (err e, record w { tables = before })

module _ (mac : Text → Text) (looks_like_uuid : Text → Bool) (limits : Limits)
    (dev_code : Text) where
  -- `HMAC("{request_id}:{code}")`
  unfoldable pub hash_code : Text → Text → Text
  hash_code request_id code = mac (request_id ++ 58 ∷ code)

  -- What follows the guards: the development code, or one counted attempt.
  unfoldable pub try_code : ℕ → OtpRequest → Text → World → Outcome
  unfolding consume reject hash_code
  try_code now otp submitted w =
      if has_text dev_code && text_eq submitted dev_code
      then consume now otp w
      else let attempt = hit limits now LimitName.otp_verify_attempts otp.phone w.cache in
        let counted = record w { cache = attempt.1 } in
        if not (has_text otp.code_hash) || not (text_eq (hash_code otp.pk submitted) otp.code_hash)
        then reject now otp attempt.0 counted
        else consume now otp counted

  unfoldable pub check_otp : ℕ → OtpRequest → Text → World → Outcome
  unfolding try_code
  check_otp now otp submitted w =
      let locked = is_locked_out now otp.phone w.cache in
      if not (locked == 0)
      then (err (otp_locked_out locked), w)
      else if is_some otp.consumed_at
      then (err otp_already_used, w)
      else if is_some otp.invalidated_at
      then (err otp_invalid, w)
      else if leb otp.expires_at now
      then (err otp_expired, w)
      else try_code now otp submitted w

  abbrev pub known_otp : Text → List OtpRequest → Option OtpRequest
  known_otp request_id otps = if looks_like_uuid request_id then find_otp request_id otps else none

  -- `_verify_otp`
  unfoldable pub verify_otp : ℕ → Text → Text → World → Outcome
  unfolding check_otp
  verify_otp now request_id submitted w = elim (known_otp request_id w.tables.otps) [
    | none ↦ (err otp_invalid, w)
    | some otp ↦ atomic w.tables (check_otp now otp submitted w)
  ]
