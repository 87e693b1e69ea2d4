-- ===== src/Tests/Codes.antt =====
-- One code for one phone, and a grading scale.
use schapp.Grading.Rank.{above, rank_lem}
use schapp.Base.{
  ℕ, ◌+◌, ◌<◌, ◌≤◌, ◌≡◌, refl, Bool, true, none, some, List, [], ◌∷◌, codes, Text, arith, map, ◌*◌,
}
use schapp.Db.{ok, err}
use schapp.Phone.RateLimit.{
  LimitName, Cache, default_limits, get, is_locked_out, peek, lockout_seconds, ticks, seconds_of,
  seconds_until, hits, set,
}
use schapp.Phone.Otp.{
  OtpRequest, OtpVerified, OtpError, World, Tables, find_otp, hash_code, verify_otp, otp_locked_out,
  check_otp, try_code, consume,
}
use schapp.Phone.Lockout.{IsOpen, IsWrong, verify_otp-locks, verify_otp-counts}
use schapp.Phone.SingleUse.{verify_otp-once}
use schapp.Grading.{Band, band_for, rank}
use schapp.Grading.Order.{IsBest, band_for-IsBest}

abbrev mac : Text → Text
mac text = text

abbrev any_uuid : Text → Bool
any_uuid text = true

abbrev challenge : OtpRequest
challenge = record {
  pk = codes "q";
  phone = codes "0803";
  user = some 1;
  code_hash = codes "q:123456";
  expires_at = 300;
  consumed_at = none;
  invalidated_at = none;
  attempts = 0;
}

abbrev tables : Tables
tables = record {
  otps = challenge ∷ [];
  users = record { pk = 1; phone_verified_at = none } ∷ [];
  audit = [];
}

abbrev empty : Cache
empty key = none

abbrev four_wrong : Cache
four_wrong = set 5 (hits LimitName.otp_verify_attempts (codes "0803")) 4 1800 empty

abbrev fresh : World
fresh = record { tables = tables; cache = empty }

abbrev almost_locked : World
almost_locked = record { tables = tables; cache = four_wrong }

fresh-IsOpen : IsOpen 10 challenge fresh
unfolding is_locked_out get
fresh-IsOpen = record { unlocked = refl; unused = refl; valid = refl; unexpired = refl }

almost_locked-IsOpen : IsOpen 10 challenge almost_locked
unfolding is_locked_out get set
almost_locked-IsOpen = record { unlocked = refl; unused = refl; valid = refl; unexpired = refl }

zeros-IsWrong : IsWrong mac any_uuid default_limits [] challenge (codes "000000")
unfolding hash_code
zeros-IsWrong = record { not_dev = refl; not_sent = refl }

found : find_otp (codes "q") tables.otps ≡ some challenge
unfolding find_otp
found = refl

last_one : 5 ≤ peek 10 LimitName.otp_verify_attempts (codes "0803") four_wrong + 1
unfolding peek get set
last_one = omega arith

first_one : peek 10 LimitName.otp_verify_attempts (codes "0803") empty + 1 < 5
unfolding peek get
first_one = omega arith

verify_otp-locks_example :
    let r =
      verify_otp mac any_uuid default_limits [] 10 (codes "q") (codes "000000") almost_locked in
    (r.0 ≡ err (otp_locked_out lockout_seconds))
    × (r.1.tables ≡ tables)
    × ((later : ℕ)
        → later < 10 + lockout_seconds * ticks
        → (is_locked_out later (codes "0803") r.1.cache
            ≡ seconds_until (seconds_of 10 + lockout_seconds) later)
          × (10 + lockout_seconds * ticks
              < later + (is_locked_out later (codes "0803") r.1.cache + 2) * ticks))
verify_otp-locks_example =
    verify_otp-locks mac any_uuid default_limits [] 10 (codes "q") (codes "000000") challenge
      almost_locked refl found almost_locked-IsOpen zeros-IsWrong last_one

verify_otp-counts_example :
    let r = verify_otp mac any_uuid default_limits [] 10 (codes "q") (codes "000000") fresh in
    (r.0 ≡ err OtpError.otp_invalid)
    × (r.1.tables ≡ tables)
    × (peek 10 LimitName.otp_verify_attempts (codes "0803") r.1.cache
        ≡ peek 10 LimitName.otp_verify_attempts (codes "0803") empty + 1)
verify_otp-counts_example =
    verify_otp-counts mac any_uuid default_limits [] 10 (codes "q") (codes "000000") challenge fresh
      refl found fresh-IsOpen zeros-IsWrong (omega arith) first_one

abbrev verified : OtpVerified
verified = record { user = 1; otp = codes "q" }

right_code :
    (verify_otp mac any_uuid default_limits [] 10 (codes "q") (codes "123456") fresh).0
    ≡ ok verified
unfolding verify_otp check_otp try_code consume find_otp is_locked_out get hash_code
right_code = refl

verify_otp-once_example :
    let after =
      (verify_otp mac any_uuid default_limits [] 10 (codes "q") (codes "123456") fresh).1 in
    verify_otp mac any_uuid default_limits [] 20 (codes "q") (codes "123456") after
    ≡ (err OtpError.otp_already_used, after)
verify_otp-once_example =
    verify_otp-once mac any_uuid default_limits [] 10 20 (codes "q") (codes "123456")
      (codes "123456") fresh verified right_code

-- 73.33 falls between two bands.
abbrev band : ℕ → ℕ → Band
band low high = record { letter = []; minimum = low; maximum = high; point = 0; remark = [] }

abbrev scale : List Band
scale = band 0 6900 ∷ band 7500 10000 ∷ band 7000 7400 ∷ []

band_for-IsBest_example : IsBest scale 7333 (band_for scale 7333)
band_for-IsBest_example = band_for-IsBest scale 7333

abbrev marks : List ℕ
marks = 7000 ∷ 8000 ∷ 8000 ∷ 6000 ∷ []

rank_lem_example : rank marks ≡ map (λ v. above v marks + 1) marks
rank_lem_example = rank_lem marks
