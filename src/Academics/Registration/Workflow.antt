-- ===== src/Academics/Registration/Workflow.antt =====
-- The workflow of one registration: what its status says of its signatures.
use mathlib.Core.Path.{subst}
use schapp.Base.{
  ℕ, ◌≡◌, Bool, true, false, not, ◌&&◌, ◌||◌, is_some, Text, Option, [], ◌∷◌, arith, inl, inr, refl,
  ◌≢◌, Bool-cases, Option-cases, if◌then◌else◌,
}
use schapp.Db.{Result, ok, err}
use schapp.Academics.Registration.{
  RegistrationStatus, SubjectRegistration, Programme, Registry, RegistrationError, registered,
  is_terminal,
}
use schapp.Academics.Registration.Approval.{
  approve_registration, reopen_registration, reject_registration, drop_subject, is_status, sign,
  reopened, required, short_of,
}

abbrev is_blank : Text → Bool
is_blank [] = true
is_blank (_ ∷ _) = false

abbrev unsigned : SubjectRegistration → Bool
unsigned r =
    not (is_some r.adviser_approved_by)
    && not (is_some r.adviser_approved_at)
    && not (is_some r.hod_approved_by)
    && not (is_some r.hod_approved_at)

abbrev both : SubjectRegistration → Bool
both r = is_some r.adviser_approved_at && is_some r.hod_approved_at

-- No signature of a head of department.
abbrev adviser_only : SubjectRegistration → Bool
adviser_only r =
    is_some r.adviser_approved_at
    && not (is_some r.hod_approved_by)
    && not (is_some r.hod_approved_at)

abbrev live : SubjectRegistration → Bool
live r = not (is_some r.dropped_at) && is_blank r.rejection_reason

-- A registration's columns are those its status calls for. A signature is its date: a signer with
-- no staff record leaves the column for the signer empty. A school without programmes approves at
-- registration and signs nothing.
abbrev pub sound_at : Bool → RegistrationStatus → SubjectRegistration → Bool
sound_at has_programme RegistrationStatus.draft r = unsigned r && live r
sound_at has_programme RegistrationStatus.submitted r = unsigned r && live r
sound_at has_programme RegistrationStatus.adviser_approved r = adviser_only r && live r
sound_at has_programme RegistrationStatus.approved r =
    (both r || not has_programme && unsigned r) && live r
sound_at has_programme RegistrationStatus.rejected r =
    is_some r.adviser_approved_at && not (is_some r.dropped_at)
sound_at has_programme RegistrationStatus.dropped r = is_some r.dropped_at

abbrev pub is_sound : Bool → SubjectRegistration → Bool
is_sound has_programme r = sound_at has_programme r.status r

-- The statuses `register_subjects` saves with.
abbrev pub is_entry : Bool → RegistrationStatus → Bool
is_entry true RegistrationStatus.submitted = true
is_entry true RegistrationStatus.draft = true
is_entry false RegistrationStatus.approved = true
is_entry _ _ = false

-- The operations on one registration.
pub data Step (has_programme : Bool) (r : SubjectRegistration) : SubjectRegistration → Type 0 where
  register :
      (status : RegistrationStatus) (b : Bool)
      → (is_entry has_programme status) ≡ true
      → Step has_programme r (registered status b r)
  approve :
      (now : ℕ) (staff : Option ℕ) (as_hod ignore_minimum : Bool) (programme : Option Programme)
      (g : Registry) {r' : SubjectRegistration}
      → (approve_registration now staff as_hod ignore_minimum programme r g).0 ≡ ok r'
      → Step has_programme r r'
  reopen :
      (g : Registry) {r' : SubjectRegistration}
      → (reopen_registration r g).0 ≡ ok r'
      → Step has_programme r r'
  reject :
      (now : ℕ) (staff : Option ℕ) (reason : Text) (g : Registry) {r' : SubjectRegistration}
      → (reject_registration now staff reason r g).0 ≡ ok r'
      → Step has_programme r r'
  drop :
      (now : ℕ) (accepts ignore_window : Bool) (g : Registry) {r' : SubjectRegistration}
      → (drop_subject now accepts ignore_window r g).0 ≡ ok r'
      → Step has_programme r r'

pub data Run (has_programme : Bool) (r : SubjectRegistration) : SubjectRegistration → Type 0 where
  done : Run has_programme r r
  next :
      {s t : SubjectRegistration}
      → Run has_programme r s
      → Step has_programme s t
      → Run has_programme r t

err≢ok :
    (x : RegistrationError) (e : SubjectRegistration)
    → ◌≢◌ {A = Result RegistrationError SubjectRegistration} (err x) (ok e)
err≢ok x e = λ h. cc

ok-inj :
    {x y : SubjectRegistration}
    → ◌≡◌ {A = Result RegistrationError SubjectRegistration} (ok x) (ok y)
    → x ≡ y
ok-inj h = cc

-- The step of a guarded operation that succeeds.
passed :
    (g g' : Registry) (c : Bool) (x : RegistrationError) (r r' : SubjectRegistration)
    → (if◌then◌else◌ {A = Result RegistrationError SubjectRegistration × Registry} c
        (err x, g)
        (ok r, g')).0
      ≡ ok r'
    → (c ≡ false) × (r ≡ r')
passed g g' true x r r' h = cc
passed g g' false x r r' h = (refl, cc)

not-not : {x : Bool} → not x ≡ false → x ≡ true
not-not h = ground arith

reopened_sound :
    (b : Bool) (status : RegistrationStatus) (r : SubjectRegistration)
    → is_status status RegistrationStatus.rejected ≡ true
    → sound_at b status r ≡ true
    → is_sound b (reopened r) ≡ true
reopened_sound b RegistrationStatus.draft r e h = ground arith
reopened_sound b RegistrationStatus.submitted r e h = ground arith
reopened_sound b RegistrationStatus.adviser_approved r e h = ground arith
reopened_sound b RegistrationStatus.approved r e h = ground arith
reopened_sound b RegistrationStatus.rejected r e h = ground arith
reopened_sound b RegistrationStatus.dropped r e h = ground arith

refused_sound :
    (b : Bool) (status : RegistrationStatus) (r : SubjectRegistration)
    → is_terminal status ≡ false
    → sound_at b status r ≡ true
    → not (is_some r.dropped_at) ≡ true
refused_sound b RegistrationStatus.draft r e h = ground arith
refused_sound b RegistrationStatus.submitted r e h = ground arith
refused_sound b RegistrationStatus.adviser_approved r e h = ground arith
refused_sound b RegistrationStatus.approved r e h = ground arith
refused_sound b RegistrationStatus.rejected r e h = ground arith
refused_sound b RegistrationStatus.dropped r e h = ground arith

signed_hod :
    (b : Bool) (c : Bool) (status : RegistrationStatus) (r : SubjectRegistration)
    → is_status status RegistrationStatus.adviser_approved ≡ true
    → sound_at b status r ≡ true
    → ((is_some r.adviser_approved_at && true || not b && c) && live r) ≡ true
signed_hod b c RegistrationStatus.draft r e h = ground arith
signed_hod b c RegistrationStatus.submitted r e h = ground arith
signed_hod b c RegistrationStatus.adviser_approved r e h = ground arith
signed_hod b c RegistrationStatus.approved r e h = ground arith
signed_hod b c RegistrationStatus.rejected r e h = ground arith
signed_hod b c RegistrationStatus.dropped r e h = ground arith

signed_adviser :
    (b : Bool) (status : RegistrationStatus) (r : SubjectRegistration)
    → is_status status RegistrationStatus.submitted ≡ true
    → sound_at b status r ≡ true
    → (not (is_some r.hod_approved_by) && not (is_some r.hod_approved_at) && live r) ≡ true
signed_adviser b RegistrationStatus.draft r e h = ground arith
signed_adviser b RegistrationStatus.submitted r e h = ground arith
signed_adviser b RegistrationStatus.adviser_approved r e h = ground arith
signed_adviser b RegistrationStatus.approved r e h = ground arith
signed_adviser b RegistrationStatus.rejected r e h = ground arith
signed_adviser b RegistrationStatus.dropped r e h = ground arith

reopen_sound :
    (b : Bool) (r : SubjectRegistration) (g : Registry) (r' : SubjectRegistration)
    → is_sound b r ≡ true
    → (reopen_registration r g).0 ≡ ok r'
    → is_sound b r' ≡ true
unfolding reopen_registration
reopen_sound b r g r' h e =
    let way = passed _ _ _ _ _ r' e in
    subst (λ x. is_sound b x ≡ true) way.1 (reopened_sound b r.status r (not-not way.0) h)

drop_sound :
    (b : Bool) (now : ℕ) (accepts ignore_window : Bool) (r : SubjectRegistration) (g : Registry)
    (r' : SubjectRegistration)
    → (drop_subject now accepts ignore_window r g).0 ≡ ok r'
    → is_sound b r' ≡ true
unfolding drop_subject
drop_sound b now accepts ignore_window r g r' e =
    subst (λ x. is_sound b x ≡ true) (passed _ _ _ _ _ r' e).1 refl

reject_sound :
    (b : Bool) (now : ℕ) (staff : Option ℕ) (reason : Text) (r : SubjectRegistration) (g : Registry)
    (r' : SubjectRegistration)
    → is_sound b r ≡ true
    → (reject_registration now staff reason r g).0 ≡ ok r'
    → is_sound b r' ≡ true
unfolding reject_registration
reject_sound b now staff reason r g r' h e = elim (Bool-cases (is_terminal r.status)) [
  | inl over ↦ subst (λ x. is_sound b x ≡ true) (ok-inj (rw over at e)) h
  | inr live_ ↦
      subst (λ x. is_sound b x ≡ true) (ok-inj (rw live_ at e)) (refused_sound b r.status r live_ h)
]

sign_sound :
    (b : Bool) (now : ℕ) (staff : Option ℕ) (as_hod : Bool) (r : SubjectRegistration)
    → is_status r.status (required as_hod) ≡ true
    → is_sound b r ≡ true
    → is_sound b (sign now staff as_hod r) ≡ true
sign_sound b now staff true r e h = signed_hod b _ r.status r e h
sign_sound b now staff false r e h = signed_adviser b r.status r e h

approve_sound :
    (b : Bool) (now : ℕ) (staff : Option ℕ) (as_hod ignore_minimum : Bool)
    (programme : Option Programme) (r : SubjectRegistration) (g : Registry)
    (r' : SubjectRegistration)
    → is_sound b r ≡ true
    → (approve_registration now staff as_hod ignore_minimum programme r g).0 ≡ ok r'
    → is_sound b r' ≡ true
unfolding approve_registration
approve_sound b now staff as_hod ignore_minimum programme r g r' h e =
    elim (Bool-cases (is_status r.status RegistrationStatus.approved)) [
      | inl final ↦ subst (λ x. is_sound b x ≡ true) (ok-inj (rw final at e)) h
      | inr f1 ↦ elim (Bool-cases (is_terminal r.status)) [
        | inl over ↦ absurd (err≢ok _ r' (rw (f1, over) at e))
        | inr f2 ↦ elim (Bool-cases (is_status r.status (required as_hod))) [
          | inr f3 ↦ absurd (err≢ok _ r' (rw (f1, f2, f3) at e))
          | inl due ↦ elim (Option-cases (short_of ignore_minimum programme r g)) [
            | inr (x, short) ↦ absurd (err≢ok x r' (rw (f1, f2, due, short) at e))
            | inl enough ↦
                subst (λ x. is_sound b x ≡ true) (ok-inj (rw (f1, f2, due, enough) at e))
                  (sign_sound b now staff as_hod r due h)
          ]
        ]
      ]
    ]

entry_sound :
    (b c : Bool) (status : RegistrationStatus) (r : SubjectRegistration)
    → is_entry b status ≡ true
    → is_sound b (registered status c r) ≡ true
entry_sound true c RegistrationStatus.draft r h = refl
entry_sound true c RegistrationStatus.submitted r h = refl
entry_sound true c RegistrationStatus.adviser_approved r h = cc
entry_sound true c RegistrationStatus.approved r h = cc
entry_sound true c RegistrationStatus.rejected r h = cc
entry_sound true c RegistrationStatus.dropped r h = cc
entry_sound false c RegistrationStatus.draft r h = cc
entry_sound false c RegistrationStatus.submitted r h = cc
entry_sound false c RegistrationStatus.adviser_approved r h = cc
entry_sound false c RegistrationStatus.approved r h = refl
entry_sound false c RegistrationStatus.rejected r h = cc
entry_sound false c RegistrationStatus.dropped r h = cc

Step-sound :
    {b : Bool} {r r' : SubjectRegistration}
    → Step b r r'
    → is_sound b r ≡ true
    → is_sound b r' ≡ true
Step-sound {b} {r} (register status c e) h = entry_sound b c status r e
Step-sound {b} {r} {r'} (approve now staff as_hod ignore_minimum programme g e) h =
    approve_sound b now staff as_hod ignore_minimum programme r g r' h e
Step-sound {b} {r} {r'} (reopen g e) h = reopen_sound b r g r' h e
Step-sound {b} {r} {r'} (reject now staff reason g e) h = reject_sound b now staff reason r g r' h e
Step-sound {b} {r} {r'} (drop now accepts ignore_window g e) h =
    drop_sound b now accepts ignore_window r g r' e

-- However a registration whose columns fit its status is registered again, approved, refused,
-- reopened and dropped, its columns fit its status afterwards: a draft or submitted one carries no
-- signature and no signer, one that the adviser approved carries the date of that signature and
-- none of a head of department, an approved one the dates of both (or, in a school without
-- programmes, no signature), and a refused one the date of the refusal; only a dropped one may
-- carry a drop date and must, and only a refused or dropped one may carry a reason.
pub Run-sound :
    {b : Bool} {r r' : SubjectRegistration}
    → Run b r r'
    → is_sound b r ≡ true
    → is_sound b r' ≡ true
Run-sound done h = h
Run-sound (next run step) h = Step-sound step (Run-sound run h)
