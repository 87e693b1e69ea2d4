-- ===== src/Phone/RateLimit.antt =====
-- apps/auth_phone/ratelimit.py: fixed windows and the wrong-code lockout, in a cache whose entries
-- expire. The clock shows whole microseconds, and one call reads it once, so that the entry cannot
-- expire between the `add` and the `incr` of one hit.
use schapp.Base.{
  ℕ, ◌+◌, ◌-◌, ◌*◌, ◌^◌, ◌/◌, Bool, true, false, ◌&&◌, Option, none, some, ltb, leb, ◌==◌, min, max,
  if◌then◌else◌, Text, text_eq,
}

pub data LimitName : Type 0 where
  otp_phone_burst : LimitName
  otp_phone_hour : LimitName
  otp_phone_day : LimitName
  otp_ip_hour : LimitName
  otp_tenant_hour : LimitName
  otp_verify_attempts : LimitName
  pin_attempts : LimitName

-- Most hits, and the window in seconds.
abbrev pub Limits : Type 0
Limits = LimitName → ℕ × ℕ

-- `DEFAULT_LIMITS`
abbrev pub default_limits : Limits
default_limits otp_phone_burst = (1, 60)
default_limits otp_phone_hour = (5, 3600)
default_limits otp_phone_day = (10, 86400)
default_limits otp_ip_hour = (20, 3600)
default_limits otp_tenant_hour = (50, 3600)
default_limits otp_verify_attempts = (5, 1800)
default_limits pin_attempts = (5, 900)

abbrev pub lockout_seconds : ℕ
lockout_seconds = 1800

-- A second in units of the clock.
abbrev pub ticks : ℕ
ticks = 1000000

-- `int(time.time())`
abbrev pub seconds_of : ℕ → ℕ
seconds_of now = now / ticks

-- `int(until - time.time())`, and 0 where that is negative.
abbrev pub seconds_until : ℕ → ℕ → ℕ
seconds_until until now = (until * ticks - now) / ticks

abbrev pub name_number : LimitName → ℕ
name_number otp_phone_burst = 0
name_number otp_phone_hour = 1
name_number otp_phone_day = 2
name_number otp_ip_hour = 3
name_number otp_tenant_hour = 4
name_number otp_verify_attempts = 5
name_number pin_attempts = 6

-- `rl:{name}:{identifier}`, the same with `:reset`, and `rl:lockout:{phone}`
pub data Key : Type 0 where
  hits : LimitName → Text → Key
  reset_time : LimitName → Text → Key
  lockout : Text → Key

abbrev pub key_eq : Key → Key → Bool
key_eq (hits n i) (hits m j) = name_number n == name_number m && text_eq i j
key_eq (reset_time n i) (reset_time m j) = name_number n == name_number m && text_eq i j
key_eq (lockout i) (lockout j) = text_eq i j
key_eq _ _ = false

pub record Entry : Type 0 where
  pub value : ℕ
  pub expires : ℕ

abbrev pub Cache : Type 0
Cache = Key → Option Entry

abbrev pub live : ℕ → Option Entry → Option ℕ
live now none = none
live now (some e) = if ltb now e.expires then some e.value else none

-- `cache.get(key)`
unfoldable pub get : ℕ → Key → Cache → Option ℕ
get now key cache = live now (cache key)

abbrev pub or_zero : Option ℕ → ℕ
or_zero none = 0
or_zero (some n) = n

-- `cache.set(key, value, seconds)`
unfoldable pub set : ℕ → Key → ℕ → ℕ → Cache → Cache
set now key value seconds cache j =
    if key_eq j key
    then some (record { value = value; expires = now + seconds * ticks })
    else cache j

-- `cache.delete(key)`
unfoldable pub delete : Key → Cache → Cache
delete key cache j = if key_eq j key then none else cache j

abbrev pub raise_entry : ℕ → Option Entry → Option Entry
raise_entry value none = none
raise_entry value (some e) = some (record e { value = value })

-- `cache.incr(key, …)`, which leaves the expiry alone
unfoldable pub write_value : Key → ℕ → Cache → Cache
write_value key value cache j = if key_eq j key then raise_entry value (cache j) else cache j

pub record LimitResult : Type 0 where
  pub allowed : Bool
  pub remaining : ℕ
  pub retry_after : ℕ

unfoldable pub retry_after : Limits → ℕ → LimitName → Text → Cache → ℕ
unfolding get
retry_after limits now name identifier cache =
    let reset_at = or_zero (get now (reset_time name identifier) cache) in
    if reset_at == 0 then (limits name).1 else max (seconds_until reset_at now) 1

abbrev pub verdict : Limits → ℕ → LimitName → Text → ℕ → Cache → LimitResult × Cache
verdict limits now name identifier count cache =
    if leb count (limits name).0
    then (record { allowed = true; remaining = (limits name).0 - count; retry_after = 0 }, cache)
    else (
      record {
        allowed = false;
        remaining = 0;
        retry_after = retry_after limits now name identifier cache;
      },
      cache,
    )

-- Count one use and say whether it was allowed.
unfoldable pub hit : Limits → ℕ → LimitName → Text → Cache → LimitResult × Cache
unfolding set get write_value retry_after
hit limits now name identifier cache = elim (get now (hits name identifier) cache) [
  | none ↦ verdict limits now name identifier 1 (
      set now (reset_time name identifier) (seconds_of now + (limits name).1) (limits name).1
        (set now (hits name identifier) 1 (limits name).1 cache))
  | some v ↦
      verdict limits now name identifier (v + 1) (write_value (hits name identifier) (v + 1) cache)
]

unfoldable pub peek : ℕ → LimitName → Text → Cache → ℕ
unfolding get
peek now name identifier cache = or_zero (get now (hits name identifier) cache)

unfoldable pub reset : LimitName → Text → Cache → Cache
unfolding delete
reset name identifier cache =
    delete (reset_time name identifier) (delete (hits name identifier) cache)

-- Exponential backoff on resends, capped at 15 minutes.
unfoldable pub resend_delay : ℕ → Text → Cache → ℕ
unfolding peek
resend_delay now phone cache = min (60 * 2 ^ max (peek now otp_phone_hour phone cache - 1) 0) 900

-- Seconds remaining on a wrong-code lockout, 0 if not locked.
unfoldable pub is_locked_out : ℕ → Text → Cache → ℕ
unfolding get
is_locked_out now phone cache = seconds_until (or_zero (get now (lockout phone) cache)) now

unfoldable pub lock_out : ℕ → Text → Cache → Cache
unfolding set
lock_out now phone = set now (lockout phone) (seconds_of now + lockout_seconds) lockout_seconds

unfoldable pub clear_lockout : Text → Cache → Cache
unfolding delete reset
clear_lockout phone cache = reset otp_verify_attempts phone (delete (lockout phone) cache)
