-- ===== src/Assessment/Promotion.antt =====
-- apps/assessment/services.py `apply_promotions`: the decisions on a year, moved into the
-- enrolments of the next.
--
-- The cohort is taken in the table's order: the source's, by last name, decides only which of the
-- new rows gets which key. A term result carries its term's index.
pub mod Pending
pub mod Again
use schapp.Base.{
  ℕ, Bool, true, false, ◌&&◌, not, Option, none, some, List, [], ◌∷◌, ◌==◌, leb, ◌+◌, map_if,
  select, if◌then◌else◌, or_else,
}
use schapp.Db.{Result, ok, err, Action, tenant_atomic, continue}
use schapp.Academics.Models.{
  Enrolment, EnrolmentStatus, Student, StudentStatus, is_active_enrolment,
}
use schapp.Academics.Placement.{Classes, Placing, PlacementError, enrol_student, write_student}

pub data PromotionDecision : Type 0 where
  pending promote repeat graduate : PromotionDecision

pub record TermResult : Type 0 where
  pub enrolment : ℕ
  pub term_index : ℕ
  pub promotion_status : PromotionDecision

pub record ClassLevel : Type 0 where
  pub pk : ℕ
  pub next_level : Option ℕ

pub record Counts : Type 0 where
  pub promoted : ℕ
  pub repeated : ℕ
  pub graduated : ℕ
  pub skipped : ℕ

-- `order_by("-term__index").first()`
abbrev pub last_result : List TermResult → Option TermResult
last_result [] = none
last_result (r ∷ rs) = elim (last_result rs) [
  | none ↦ some r
  | some t ↦ some (if leb t.term_index r.term_index then r else t)
]

abbrev status_of : Option TermResult → PromotionDecision
status_of none = PromotionDecision.pending
status_of (some r) = r.promotion_status

abbrev pub decision_on : List TermResult → ℕ → PromotionDecision
decision_on results enrolment =
    status_of (last_result (select (λ r. r.enrolment == enrolment) results))

abbrev pub next_of : List ClassLevel → ℕ → Option ℕ
next_of [] pk = none
next_of (l ∷ ls) pk = let rest = next_of ls pk in if l.pk == pk then l.next_level else rest

-- The branch of the loop's body, with the level to go to.
pub data Outcome : Type 0 where
  promotes : ℕ → Outcome
  repeats graduates skips : Outcome

abbrev promoted_to : Option ℕ → Outcome
promoted_to none = skips
promoted_to (some level) = promotes level

abbrev by_decision : PromotionDecision → Option ℕ → Outcome
by_decision PromotionDecision.promote next = promoted_to next
by_decision PromotionDecision.repeat next = repeats
by_decision PromotionDecision.graduate next = graduates
by_decision PromotionDecision.pending next = skips

abbrev pub outcome : List TermResult → List ClassLevel → Enrolment → Outcome
outcome results levels e = by_decision (decision_on results e.pk) (next_of levels e.level)

abbrev pub set_status : EnrolmentStatus → Enrolment → Enrolment
set_status status e = record e { status = status }

abbrev pub save_status : ℕ → EnrolmentStatus → Classes → Classes
save_status pk status c = record c {
  enrolments = map_if (λ r. r.pk == pk) (set_status status) c.enrolments;
}

abbrev pub placing_next : ℕ → ℕ → Enrolment → Placing
placing_next next_session level e = record {
  student = e.student;
  session = next_session;
  level = level;
  class_arm = none;
  programme = e.programme;
  roll_number = none;
  enforce_capacity = false;
}

abbrev leave : ℕ → Student → Student
leave today s = record s {
  status = StudentStatus.graduated;
  date_left = some (or_else s.date_left today);
}

-- The loop's body, up to the counting.
unfoldable pub apply_outcome :
    ℕ → ℕ → Outcome → Enrolment → Action Classes PlacementError (Unit {0})
apply_outcome next_session today (promotes level) e c =
    let r = enrol_student (placing_next next_session level e) c in
    continue r.0 r.1 (λ _. (ok tt, save_status e.pk EnrolmentStatus.promoted r.1))
apply_outcome next_session today repeats e c =
    let r = enrol_student (placing_next next_session e.level e) c in
    continue r.0 r.1 (λ _. (ok tt, save_status e.pk EnrolmentStatus.repeated r.1))
apply_outcome next_session today graduates e c =
    (ok tt, save_status e.pk EnrolmentStatus.graduated (write_student e.student (leave today) c))
apply_outcome next_session today skips e c = (ok tt, c)

abbrev pub count : Outcome → Counts → Counts
count (promotes _) k = record k { promoted = k.promoted + 1 }
count repeats k = record k { repeated = k.repeated + 1 }
count graduates k = record k { graduated = k.graduated + 1 }
count skips k = record k { skipped = k.skipped + 1 }

unfoldable pub apply_each :
    List TermResult
    → List ClassLevel
    → ℕ
    → ℕ
    → List Enrolment
    → Counts
    → Action Classes PlacementError Counts
unfolding apply_outcome
apply_each results levels next_session today [] k c = (ok k, c)
apply_each results levels next_session today (e ∷ es) k c =
    let r = apply_outcome next_session today (outcome results levels e) e c in
    continue r.0 r.1 (λ _.
      apply_each results levels next_session today es (count (outcome results levels e) k) r.1)

abbrev pub is_in_cohort : ℕ → Enrolment → Bool
is_in_cohort session e = (e.session == session) && is_active_enrolment e.status

abbrev pub no_counts : Counts
no_counts = record { promoted = 0; repeated = 0; graduated = 0; skipped = 0 }

-- The classes, and the audit entries of the runs: each the session and what was counted.
pub record Year : Type 0 where
  pub classes : Classes
  pub audit : List (ℕ × Counts)

abbrev pub record_applied : ℕ → Counts → Year → Year
record_applied session k y = record y { audit = (session, k) ∷ y.audit }

unfoldable pub apply_promotions :
    List TermResult → List ClassLevel → ℕ → ℕ → ℕ → Action Year PlacementError Counts
unfolding apply_each
apply_promotions results levels session next_session today = tenant_atomic (λ y.
    let cohort = select (is_in_cohort session) y.classes.enrolments in
    let r = apply_each results levels next_session today cohort no_counts y.classes in
    let moved = record y { classes = r.1 } in
    continue r.0 moved (λ k. (ok k, record_applied session k moved)))
