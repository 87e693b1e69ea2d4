-- ===== src/Phone/SingleUse.antt =====
-- A code is used once.
use mathlib.Core.Path.{subst}
use schapp.Base.{
  ℕ, ◌≡◌, refl, sym, ◌∙◌, Bool, true, ◌&&◌, ◌||◌, not, none, some, List, [], ◌∷◌, ◌==◌, leb, arith,
  Bool-cases, Option-cases, is_some, Text, text_eq, text_eq_refl, inl, inr, map_if, text_eq→eq,
}
use schapp.Db.{ok, err}
use schapp.Phone.RateLimit.{
  LimitName, Limits, Cache, hit, is_locked_out, clear_lockout, reset, delete, get, LimitResult,
}
use schapp.Phone.Otp.{
  OtpRequest, OtpError, OtpVerified, Outcome, World, find_otp, consume, reject, hash_code, try_code,
  check_otp, verify_otp, has_text, atomic, Tables, known_otp,
}

-- What a consumed code leaves behind.
pub record IsUsed (phone request_id : Text) (w : World) : Type 0 where
  pub row : OtpRequest
  pub there : find_otp request_id w.tables.otps ≡ some row
  pub used : is_some row.consumed_at ≡ true
  pub same_phone : row.phone ≡ phone
  pub unlocked : (now : ℕ) → is_locked_out now phone w.cache ≡ 0

-- The outcome is a failure, or the code is used up.
abbrev Ends : Text → Text → Outcome → Type 0
Ends phone request_id (err e, w) = Unit
Ends phone request_id (ok v, w) = IsUsed phone request_id w

cleared-is_locked_out :
    (now : ℕ) (phone : Text) (cache : Cache)
    → is_locked_out now phone (reset LimitName.otp_phone_burst phone (clear_lockout phone cache))
      ≡ 0
unfolding is_locked_out reset clear_lockout delete get
cleared-is_locked_out now phone cache = rw (text_eq_refl phone) omega arith

find_otp-map_if :
    (id : Text) (w : OtpRequest → OtpRequest) (o : OtpRequest) (otps : List OtpRequest)
    → ((q : OtpRequest) → (w q).pk ≡ q.pk)
    → find_otp id otps ≡ some o
    → find_otp id (map_if (λ q. text_eq q.pk id) w otps) ≡ some (w o)
unfolding find_otp
find_otp-map_if id w o [] keep h = cc
find_otp-map_if id w o (q ∷ otps) keep h = ground (arith, keep q, find_otp-map_if id w o otps keep)

consume-Ends :
    (now : ℕ) (otp : OtpRequest) (w : World)
    → find_otp otp.pk w.tables.otps ≡ some otp
    → Ends otp.phone otp.pk (consume now otp w)
unfolding consume
consume-Ends now otp w h = elim (Option-cases otp.user) [
  | inl nobody ↦ rw (consume, nobody) tt
  | inr (u, somebody) ↦
      rw (consume, somebody)
        (record {
          row = record otp { consumed_at = some now };
          there =
              find_otp-map_if otp.pk (λ o. record o { consumed_at = some now }) otp w.tables.otps
                (λ _. refl) h;
          used = refl;
          same_phone = refl;
          unlocked = λ later. cleared-is_locked_out later otp.phone w.cache;
        })
]

-- A failed transaction, or a code used up.
atomic-Ends :
    (phone request_id : Text) (before : Tables) (r : Outcome)
    → Ends phone request_id r
    → Ends phone request_id (atomic before r)
atomic-Ends phone request_id before (err e, w) h = tt
atomic-Ends phone request_id before (ok v, w) h = h

reject-Ends :
    (now : ℕ) (otp : OtpRequest) (attempt : LimitResult) (w : World)
    → Ends otp.phone otp.pk (reject now otp attempt w)
unfolding reject
reject-Ends now otp attempt w =
    elim (Bool-cases (not attempt.allowed || (attempt.remaining == 0))) [
      | inl e ↦ rw (reject, e) tt
      | inr e ↦ rw (reject, e) tt
    ]

find_otp-pk :
    (id : Text) (o : OtpRequest) (otps : List OtpRequest) → find_otp id otps ≡ some o → o.pk ≡ id
unfolding find_otp
find_otp-pk id o [] h = cc
find_otp-pk id o (q ∷ otps) h = elim (Bool-cases (text_eq q.pk id)) [
  | inl e ↦ ground (arith, text_eq→eq q.pk id e)
  | inr e ↦ find_otp-pk id o otps (sym (rw e refl) ∙ h)
]

module _ (mac : Text → Text) (looks_like_uuid : Text → Bool) (limits : Limits)
    (dev_code : Text) where
  try_code-Ends :
      (now : ℕ) (otp : OtpRequest) (submitted : Text) (w : World)
      → find_otp otp.pk w.tables.otps ≡ some otp
      → Ends otp.phone otp.pk (try_code mac looks_like_uuid limits dev_code now otp submitted w)
  unfolding try_code
  try_code-Ends now otp submitted w found =
      let attempt = hit limits now LimitName.otp_verify_attempts otp.phone w.cache in
      let counted = record w { cache = attempt.1 } in
      elim (Bool-cases (has_text dev_code && text_eq submitted dev_code)) [
        | inl dev ↦ rw (try_code, dev) (consume-Ends now otp w found)
        | inr no_dev ↦
            elim (Bool-cases (
              not (has_text otp.code_hash)
              || not (
                  text_eq (hash_code mac looks_like_uuid limits dev_code otp.pk submitted)
                    otp.code_hash))) [
                      | inl bad ↦ rw (try_code, no_dev, bad) (reject-Ends now otp attempt.0 counted)
                      | inr good ↦ rw (try_code, no_dev, good) (consume-Ends now otp counted found)
                    ]
      ]

  check_otp-Ends :
      (now : ℕ) (otp : OtpRequest) (submitted : Text) (w : World)
      → find_otp otp.pk w.tables.otps ≡ some otp
      → Ends otp.phone otp.pk (check_otp mac looks_like_uuid limits dev_code now otp submitted w)
  unfolding check_otp
  check_otp-Ends now otp submitted w found =
      elim (Bool-cases (is_locked_out now otp.phone w.cache == 0)) [
        | inr shut ↦ rw (check_otp, shut) tt
        | inl free ↦ elim (Bool-cases (is_some otp.consumed_at)) [
          | inl used ↦ rw (check_otp, free, used) tt
          | inr unused ↦ elim (Bool-cases (is_some otp.invalidated_at)) [
            | inl dead ↦ rw (check_otp, free, unused, dead) tt
            | inr valid ↦ elim (Bool-cases (leb otp.expires_at now)) [
              | inl late ↦ rw (check_otp, free, unused, valid, late) tt
              | inr early ↦
                  rw (check_otp, free, unused, valid, early)
                    (try_code-Ends now otp submitted w found)
            ]
          ]
        ]
      ]

  -- Where a request is known, its verification fails or uses it up.
  verify_otp-Ends :
      (now : ℕ) (request_id submitted : Text) (otp : OtpRequest) (w : World)
      → looks_like_uuid request_id ≡ true
      → find_otp request_id w.tables.otps ≡ some otp
      → Ends otp.phone request_id
          (verify_otp mac looks_like_uuid limits dev_code now request_id submitted w)
  unfolding verify_otp
  verify_otp-Ends now request_id submitted otp w uuid found =
      let key : otp.pk ≡ request_id = find_otp-pk request_id otp w.tables.otps found in
      rw (verify_otp, uuid, found)
        (atomic-Ends otp.phone request_id w.tables _ (
          subst
            (λ k.
              Ends otp.phone k (check_otp mac looks_like_uuid limits dev_code now otp submitted w))
            key
            (check_otp-Ends now otp submitted w
              (subst (λ k. find_otp k w.tables.otps ≡ some otp) (sym key) found))))

  verify_otp-used :
      (now : ℕ) (phone request_id submitted : Text) (w : World)
      → looks_like_uuid request_id ≡ true
      → IsUsed phone request_id w
      → verify_otp mac looks_like_uuid limits dev_code now request_id submitted w
        ≡ (err OtpError.otp_already_used, w)
  unfolding verify_otp check_otp
  verify_otp-used now phone request_id submitted w uuid h =
      rw (verify_otp, uuid, h.there, check_otp, h.same_phone, h.unlocked now, h.used) refl

  Ends-ok :
      (phone request_id : Text) (r : Outcome) (v : OtpVerified)
      → Ends phone request_id r
      → r.0 ≡ ok v
      → IsUsed phone request_id r.1
  Ends-ok phone request_id (err e, w) v h k = cc
  Ends-ok phone request_id (ok u, w) v h k = h

  unknown-fails :
      (now : ℕ) (request_id submitted : Text) (w : World) (v : OtpVerified)
      → known_otp mac looks_like_uuid limits dev_code request_id w.tables.otps ≡ none
      → (verify_otp mac looks_like_uuid limits dev_code now request_id submitted w).0 ≡ ok v
      → ⊥
  unfolding verify_otp
  unknown-fails now request_id submitted w v e h =
      let failed : err OtpError.otp_invalid ≡ ok v = sym (rw (verify_otp, e) refl) ∙ h in cc

  -- Once a verification has succeeded, with the code that was sent or with the development code,
  -- every later verification of the same request is told that the code has been used, whatever it
  -- sends, and changes nothing.
  pub verify_otp-once :
      (now later : ℕ) (request_id submitted again : Text) (w : World) (v : OtpVerified)
      → (verify_otp mac looks_like_uuid limits dev_code now request_id submitted w).0 ≡ ok v
      → let after = (verify_otp mac looks_like_uuid limits dev_code now request_id submitted w).1 in
        verify_otp mac looks_like_uuid limits dev_code later request_id again after
        ≡ (err OtpError.otp_already_used, after)
  verify_otp-once now later request_id submitted again w v h =
      elim (Bool-cases (looks_like_uuid request_id)) [
        | inr no_uuid ↦ absurd (unknown-fails now request_id submitted w v (rw no_uuid refl) h)
        | inl uuid ↦ elim (Option-cases (find_otp request_id w.tables.otps)) [
          | inl nothing ↦
              absurd (unknown-fails now request_id submitted w v (rw (uuid, nothing) refl) h)
          | inr (otp, found) ↦ verify_otp-used later otp.phone request_id again _ uuid (
              Ends-ok otp.phone request_id _ v
                (verify_otp-Ends now request_id submitted otp w uuid found) h)
        ]
      ]
