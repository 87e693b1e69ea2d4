-- ===== src/People/Admissions/History.antt =====
-- What a sequence of transitions says of an application.
use schapp.Base.{
  ℕ, ◌+◌, ◌≤◌, ◌≡◌, refl, sym, ◌∙◌, true, Option, any, arith, Bool-cases, is_some, inl, inr, ap,
}
use schapp.Db.{Result, ok, err}
use schapp.People.Admissions.{
  ApplicationStatus, Application, AdmissionError, Decision, allowed_transitions, same_status, moved,
  transition_application,
}

ok-inj :
    (a b : Application) (r r' : Result AdmissionError Application)
    → r ≡ ok a
    → r' ≡ ok b
    → r ≡ r'
    → b ≡ a
ok-inj a b r r' e f g = cc

-- Transitions that went through, one after the other.
pub data Run : Application → Application → Type 0 where
  stop : (a : Application) → Run a a
  step :
      (now : ℕ) (to_status : ApplicationStatus) (d : Decision) (a b c : Application)
      → transition_application now to_status d a ≡ ok b
      → Run b c
      → Run a c

pub transitions : {a b : Application} → Run a b → ℕ
transitions (stop a) = 0
transitions (step now to_status d a b c h rest) = transitions rest + 1

-- How many transitions a status still allows, at most.
abbrev left : ApplicationStatus → ℕ
left ApplicationStatus.submitted = 4
left ApplicationStatus.screening = 3
left ApplicationStatus.offered = 2
left ApplicationStatus.accepted = 1
left _ = 0

-- What the two dates of an application must be, by its status.
abbrev Dates : ApplicationStatus → Option ℕ → Option ℕ → Type 0
Dates ApplicationStatus.offered offered_at accepted_at = is_some offered_at ≡ true
Dates ApplicationStatus.accepted offered_at accepted_at =
    (is_some offered_at ≡ true) × (is_some accepted_at ≡ true)
Dates ApplicationStatus.enrolled offered_at accepted_at =
    (is_some offered_at ≡ true) × (is_some accepted_at ≡ true)
Dates _ offered_at accepted_at = Unit

-- An application with an offer out has the date of the offer, and one that was accepted both dates.
abbrev pub IsDated : Application → Type 0
IsDated a = Dates a.status a.offered_at a.accepted_at

accepted-Dates :
    (x : ApplicationStatus) (o c : Option ℕ)
    → any (same_status ApplicationStatus.accepted) (allowed_transitions x) ≡ true
    → Dates x o c
    → is_some o ≡ true
accepted-Dates ApplicationStatus.offered o c h d = d
accepted-Dates _ o c h d = cc

enrolled-Dates :
    (x : ApplicationStatus) (o c : Option ℕ)
    → any (same_status ApplicationStatus.enrolled) (allowed_transitions x) ≡ true
    → Dates x o c
    → Dates ApplicationStatus.enrolled o c
enrolled-Dates ApplicationStatus.accepted o c h d = d
enrolled-Dates _ o c h d = cc

moved-IsDated :
    (now : ℕ) (to_status : ApplicationStatus) (d : Decision) (a : Application)
    → any (same_status to_status) (allowed_transitions a.status) ≡ true
    → IsDated a
    → IsDated (moved now to_status d a)
unfolding moved
moved-IsDated now ApplicationStatus.offered d a h dated = refl
moved-IsDated now ApplicationStatus.accepted d a h dated =
    (accepted-Dates a.status a.offered_at a.accepted_at h dated, refl)
moved-IsDated now ApplicationStatus.enrolled d a h dated =
    enrolled-Dates a.status a.offered_at a.accepted_at h dated
moved-IsDated now _ d a h dated = tt

left-falls :
    (x y : ApplicationStatus)
    → any (same_status y) (allowed_transitions x) ≡ true
    → left y + 1 ≤ left x
left-falls ApplicationStatus.submitted y h = ground (arith, h)
left-falls ApplicationStatus.screening y h = ground (arith, h)
left-falls ApplicationStatus.offered y h = ground (arith, h)
left-falls ApplicationStatus.accepted y h = ground (arith, h)
left-falls _ y h = cc

-- A transition that went through was allowed.
transition_application-ok :
    (now : ℕ) (to_status : ApplicationStatus) (d : Decision) (a b : Application)
    → transition_application now to_status d a ≡ ok b
    → (any (same_status to_status) (allowed_transitions a.status) ≡ true)
      × (b ≡ moved now to_status d a)
unfolding transition_application
transition_application-ok now to_status d a b h =
    elim (Bool-cases (any (same_status to_status) (allowed_transitions a.status))) [
      | inl e ↦ (e, ok-inj (moved now to_status d a) b _ _ (rw e refl) h refl)
      | inr e ↦
          let failed : err (AdmissionError.invalid_transition a.status to_status) ≡ ok b =
            sym (rw e refl) ∙ h in
          cc
    ]

-- Whatever transitions go through, an application that has the dates of its status keeps having
-- them: one with an offer out has the date of the offer, and one that is accepted or enrolled those
-- of the offer and of the acceptance.
pub Run-IsDated : (a b : Application) → Run a b → IsDated a → IsDated b
Run-IsDated a _ (stop _) dated = dated
Run-IsDated a c (step now to_status d _ b _ h rest) dated =
    let went = transition_application-ok now to_status d a b h in
    Run-IsDated b c rest (rw went.1 (moved-IsDated now to_status d a went.0 dated))

moved-status :
    (now : ℕ) (to_status : ApplicationStatus) (d : Decision) (a : Application)
    → (moved now to_status d a).status ≡ to_status
unfolding moved
moved-status now to_status d a = refl

-- No application goes through more transitions than `left` says of its status: four from SUBMITTED,
-- none from ENROLLED, REJECTED or WITHDRAWN.
pub Run-bounded : (a b : Application) (run : Run a b) → transitions run ≤ left a.status
unfolding transitions
Run-bounded a _ (stop _) = omega arith
Run-bounded a c (step now to_status d _ b _ h rest) =
    let went = transition_application-ok now to_status d a b h in
    let fewer = left-falls a.status to_status went.0 in
    let more = Run-bounded b c rest in
    let there : b.status ≡ to_status = rw went.1 (moved-status now to_status d a) in
    omega (arith, fewer, more, ap left there)
