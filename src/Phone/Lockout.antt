-- ===== src/Phone/Lockout.antt =====
-- Wrong codes and the lockout that follows them.
use schapp.Base.{
  ℕ, ◌+◌, ◌-◌, ◌*◌, ◌≤◌, ◌<◌, ◌≡◌, refl, ◌∙◌, Bool, true, false, ◌&&◌, ◌||◌, not, Option, none,
  some, ◌==◌, leb, ltb, arith, Bool-cases, Option-cases, is_some, Text, text_eq, text_eq_refl, inl,
  inr, ==_refl, ap,
}
use schapp.Db.{err}
use schapp.Phone.RateLimit.{
  LimitName, Limits, Cache, LimitResult, Entry, Key, get, set, hit, peek, write_value,
  is_locked_out, lock_out, lockout_seconds, verdict, ticks, seconds_of, seconds_until, name_number,
  live, raise_entry, or_zero,
}
use schapp.Phone.Otp.{
  OtpRequest, OtpError, World, find_otp, reject, hash_code, try_code, check_otp, verify_otp,
  has_text, otp_locked_out, atomic,
}

-- A code that the guards let through to the comparison.
pub record IsOpen (now : ℕ) (otp : OtpRequest) (w : World) : Type 0 where
  pub unlocked : is_locked_out now otp.phone w.cache ≡ 0
  pub unused : is_some otp.consumed_at ≡ false
  pub valid : is_some otp.invalidated_at ≡ false
  pub unexpired : leb otp.expires_at now ≡ false

lock_out-is_locked_out :
    (now later : ℕ) (phone : Text) (cache : Cache)
    → later < now + lockout_seconds * ticks
    → is_locked_out later phone (lock_out now phone cache)
      ≡ seconds_until (seconds_of now + lockout_seconds) later
unfolding is_locked_out lock_out set get
lock_out-is_locked_out now later phone cache h =
    let soon : ltb later (now + lockout_seconds * ticks) ≡ true = ground arith in
    rw (text_eq_refl phone, soon) refl

-- Cutting to whole seconds twice loses less than two of them.
nearly_whole :
    (now later : ℕ)
    → now + lockout_seconds * ticks
      < later + (seconds_until (seconds_of now + lockout_seconds) later + 2) * ticks
nearly_whole now later = omega arith

leb-false : (a b : ℕ) → leb a b ≡ false → b < a
leb-false a b h = ground arith

verdict-allowed :
    (limits : Limits) (now : ℕ) (name : LimitName) (id : Text) (count : ℕ) (cache : Cache)
    → ((verdict limits now name id count cache).0.allowed ≡ leb count (limits name).0)
      × ((verdict limits now name id count cache).0.remaining ≡ (limits name).0 - count)
      × ((verdict limits now name id count cache).1 ≡ cache)
verdict-allowed limits now name id count cache = elim (Bool-cases (leb count (limits name).0)) [
  | inl e ↦ rw e (refl, refl, refl)
  | inr e ↦ rw e (refl, omega (arith, leb-false count (limits name).0 e), refl)
]

-- One hit counts one more than a peek shows.
hit-allowed :
    (limits : Limits) (now : ℕ) (name : LimitName) (id : Text) (cache : Cache)
    → ((hit limits now name id cache).0.allowed ≡ leb (peek now name id cache + 1) (limits name).0)
      × ((hit limits now name id cache).0.remaining
          ≡ (limits name).0 - (peek now name id cache + 1))
unfolding hit peek
hit-allowed limits now name id cache = elim (Option-cases (get now (Key.hits name id) cache)) [
  | inl none_there ↦
      rw (hit, none_there) (let v = verdict-allowed limits now name id 1 _ in (v.0, v.1))
  | inr (v, there) ↦
      rw (hit, there) (let u = verdict-allowed limits now name id (v + 1) _ in (u.0, u.1))
]

set-fresh :
    (limits : Limits) (now : ℕ) (name : LimitName) (id : Text) (cache : Cache)
    → 0 < (limits name).1
    → peek now name id (
        set now
          (Key.reset_time name id)
          (seconds_of now + (limits name).1)
          (limits name).1
          (set now (Key.hits name id) 1 (limits name).1 cache))
      ≡ 1
unfolding set peek get
set-fresh limits now name id cache h =
    let soon : ltb now (now + (limits name).1 * ticks) ≡ true = ground arith in
    rw (==_refl (name_number name), text_eq_refl id, soon) refl

write_value-live :
    (now : ℕ) (name : LimitName) (id : Text) (v : ℕ) (e : Option Entry)
    → live now e ≡ some v
    → or_zero (live now (raise_entry (v + 1) e)) ≡ v + 1
write_value-live now name id v none h = cc
write_value-live now name id v (some e) h = ground arith

peek-get :
    (now : ℕ) (name : LimitName) (id : Text) (cache : Cache)
    → peek now name id cache ≡ or_zero (get now (Key.hits name id) cache)
unfolding peek
peek-get now name id cache = refl

write_value-peek :
    (now : ℕ) (name : LimitName) (id : Text) (v : ℕ) (cache : Cache)
    → get now (Key.hits name id) cache ≡ some v
    → peek now name id (write_value (Key.hits name id) (v + 1) cache) ≡ v + 1
unfolding write_value peek get
write_value-peek now name id v cache there =
    rw (==_refl (name_number name), text_eq_refl id)
      (write_value-live now name id v (cache (Key.hits name id)) there)

hit-peek :
    (limits : Limits) (now : ℕ) (name : LimitName) (id : Text) (cache : Cache)
    → 0 < (limits name).1
    → peek now name id (hit limits now name id cache).1 ≡ peek now name id cache + 1
unfolding hit
hit-peek limits now name id cache window = elim (Option-cases (get now (Key.hits name id) cache)) [
  | inl none_there ↦
      rw (hit, peek-get now name id cache, none_there)
        (ap (peek now name id) (verdict-allowed limits now name id 1 _).2
          ∙ set-fresh limits now name id cache window)
  | inr (v, there) ↦
      rw (hit, peek-get now name id cache, there)
        (ap (peek now name id) (verdict-allowed limits now name id (v + 1) _).2
          ∙ write_value-peek now name id v cache there)
]

module _ (mac : Text → Text) (looks_like_uuid : Text → Bool) (limits : Limits)
    (dev_code : Text) where
  -- A code for a known request whose phone is locked out is refused with the seconds that are left,
  -- whatever the code, and nothing changes.
  pub verify_otp-locked :
      (now : ℕ) (request_id submitted : Text) (otp : OtpRequest) (w : World)
      → looks_like_uuid request_id ≡ true
      → find_otp request_id w.tables.otps ≡ some otp
      → 0 < is_locked_out now otp.phone w.cache
      → verify_otp mac looks_like_uuid limits dev_code now request_id submitted w
        ≡ (err (otp_locked_out (is_locked_out now otp.phone w.cache)), w)
  unfolding verify_otp check_otp
  verify_otp-locked now request_id submitted otp w uuid found locked =
      let shut : (is_locked_out now otp.phone w.cache == 0) ≡ false = ground arith in
      rw (verify_otp, uuid, found, check_otp, shut) refl

  -- Neither the development code nor the code that was sent.
  pub record IsWrong (otp : OtpRequest) (submitted : Text) : Type 0 where
    pub not_dev : has_text dev_code && text_eq submitted dev_code ≡ false
    pub not_sent :
        not (has_text otp.code_hash)
          || not (
              text_eq
                (hash_code mac looks_like_uuid limits dev_code otp.pk submitted)
                otp.code_hash)
        ≡ true

  -- A wrong code gets the verdict of the limiter, and the database stays as it is.
  verify_otp-wrong :
      (now : ℕ) (request_id submitted : Text) (otp : OtpRequest) (w : World)
      → looks_like_uuid request_id ≡ true
      → find_otp request_id w.tables.otps ≡ some otp
      → IsOpen now otp w
      → IsWrong otp submitted
      → verify_otp mac looks_like_uuid limits dev_code now request_id submitted w ≡ (
          let attempt = hit limits now LimitName.otp_verify_attempts otp.phone w.cache in
          atomic w.tables (reject now otp attempt.0 (record w { cache = attempt.1 })))
  unfolding verify_otp check_otp try_code
  verify_otp-wrong now request_id submitted otp w uuid found live bad =
      let free : (is_locked_out now otp.phone w.cache == 0) ≡ true = rw live.unlocked refl in
      rw
        (
          verify_otp, uuid, found, check_otp, free, live.unused, live.valid, live.unexpired,
          try_code, bad.not_dev, bad.not_sent,
        )
        refl

  reject-locks :
      (now : ℕ) (otp : OtpRequest) (attempt : LimitResult) (before w : World)
      → not attempt.allowed || (attempt.remaining == 0) ≡ true
      → atomic before.tables (reject now otp attempt w) ≡ (
        err (otp_locked_out lockout_seconds),
        record { tables = before.tables; cache = lock_out now otp.phone w.cache },
      )
  unfolding reject
  reject-locks now otp attempt before w h = rw (reject, h) refl

  reject-counts :
      (now : ℕ) (otp : OtpRequest) (attempt : LimitResult) (before w : World)
      → not attempt.allowed || (attempt.remaining == 0) ≡ false
      → atomic before.tables (reject now otp attempt w)
        ≡ (err OtpError.otp_invalid, record { tables = before.tables; cache = w.cache })
  unfolding reject
  reject-counts now otp attempt before w h = rw (reject, h) refl

  exhausted :
      (now : ℕ) (phone : Text) (cache : Cache)
      → (limits LimitName.otp_verify_attempts).0
        ≤ peek now LimitName.otp_verify_attempts phone cache + 1
      → let attempt = (hit limits now LimitName.otp_verify_attempts phone cache).0 in
        not attempt.allowed || (attempt.remaining == 0) ≡ true
  exhausted now phone cache h =
      let a = hit-allowed limits now LimitName.otp_verify_attempts phone cache in
      rw (a.0, a.1) ground arith

  -- A wrong code for a known request that is open, where the attempts already counted and this one
  -- reach the limit, is refused with the whole lockout; it leaves the database as it was, so that
  -- neither the attempt nor the audit row of the lockout is in it; and until `lockout_seconds` have
  -- passed the phone shows as locked out for the whole seconds that are left of a lockout counted
  -- from the second in which it began, which is less than two seconds short of the full lockout.
  pub verify_otp-locks :
      (now : ℕ) (request_id submitted : Text) (otp : OtpRequest) (w : World)
      → looks_like_uuid request_id ≡ true
      → find_otp request_id w.tables.otps ≡ some otp
      → IsOpen now otp w
      → IsWrong otp submitted
      → (limits LimitName.otp_verify_attempts).0
        ≤ peek now LimitName.otp_verify_attempts otp.phone w.cache + 1
      → let r = verify_otp mac looks_like_uuid limits dev_code now request_id submitted w in
        (r.0 ≡ err (otp_locked_out lockout_seconds))
        × (r.1.tables ≡ w.tables)
        × ((later : ℕ)
            → later < now + lockout_seconds * ticks
            → (is_locked_out later otp.phone r.1.cache
                ≡ seconds_until (seconds_of now + lockout_seconds) later)
              × (now + lockout_seconds * ticks
                  < later + (is_locked_out later otp.phone r.1.cache + 2) * ticks))
  verify_otp-locks now request_id submitted otp w uuid found live bad last =
      let attempt = hit limits now LimitName.otp_verify_attempts otp.phone w.cache in
      rw
        (verify_otp-wrong now request_id submitted otp w uuid found live bad
          ∙ reject-locks now otp attempt.0 w (record w { cache = attempt.1 })
              (exhausted now otp.phone w.cache last))
        (
          refl,
          refl,
          λ later h.
              let left = lock_out-is_locked_out now later otp.phone attempt.1 h in
              (left, rw left (nearly_whole now later)),
        )

  left_over :
      (now : ℕ) (phone : Text) (cache : Cache)
      → peek now LimitName.otp_verify_attempts phone cache + 1
        < (limits LimitName.otp_verify_attempts).0
      → let attempt = (hit limits now LimitName.otp_verify_attempts phone cache).0 in
        not attempt.allowed || (attempt.remaining == 0) ≡ false
  left_over now phone cache h =
      let a = hit-allowed limits now LimitName.otp_verify_attempts phone cache in
      rw (a.0, a.1) ground arith

  -- A wrong code for a known request that is open, where the attempts already counted and this one
  -- stay below the limit and the limit's window is not empty, is refused as invalid, leaves the
  -- database as it was, and is counted: the cache shows one more attempt of the phone.
  pub verify_otp-counts :
      (now : ℕ) (request_id submitted : Text) (otp : OtpRequest) (w : World)
      → looks_like_uuid request_id ≡ true
      → find_otp request_id w.tables.otps ≡ some otp
      → IsOpen now otp w
      → IsWrong otp submitted
      → 0 < (limits LimitName.otp_verify_attempts).1
      → peek now LimitName.otp_verify_attempts otp.phone w.cache + 1
        < (limits LimitName.otp_verify_attempts).0
      → let r = verify_otp mac looks_like_uuid limits dev_code now request_id submitted w in
        (r.0 ≡ err OtpError.otp_invalid)
        × (r.1.tables ≡ w.tables)
        × (peek now LimitName.otp_verify_attempts otp.phone r.1.cache
            ≡ peek now LimitName.otp_verify_attempts otp.phone w.cache + 1)
  verify_otp-counts now request_id submitted otp w uuid found live bad window more =
      let attempt = hit limits now LimitName.otp_verify_attempts otp.phone w.cache in
      rw
        (verify_otp-wrong now request_id submitted otp w uuid found live bad
          ∙ reject-counts now otp attempt.0 w (record w { cache = attempt.1 })
              (left_over now otp.phone w.cache more))
        (refl, refl, hit-peek limits now LimitName.otp_verify_attempts otp.phone w.cache window)
