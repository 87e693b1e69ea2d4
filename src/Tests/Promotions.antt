-- ===== src/Tests/Promotions.antt =====
-- Two pupils at the end of a year: one goes up, nothing is decided on the other.
use schapp.Base.{◌≡◌, refl, none, some, [], ◌∷◌, inl, inr, arith, List, true}
use schapp.Db.{ok}
use schapp.Academics.Placement.{Classes, enrol_student}
use schapp.Assessment.Promotion.{
  TermResult, ClassLevel, Counts, PromotionDecision, apply_promotions, apply_each, apply_outcome,
  Year, record_applied,
}
use schapp.Assessment.Promotion.Pending.{moves_nobody}
use schapp.Assessment.Promotion.Again.{Keyed, apply_promotions-again}
use schapp.Tests.Classes.{place, pupil}

abbrev reports : List TermResult
reports =
    record { enrolment = 1; term_index = 1; promotion_status = PromotionDecision.repeat }
    ∷ record { enrolment = 1; term_index = 3; promotion_status = PromotionDecision.promote }
    ∷ []

abbrev ladder : List ClassLevel
ladder = record { pk = 1; next_level = some 2 } ∷ []

abbrev year_end : Classes
year_end = record {
  sessions = [];
  students = pupil 1 ∷ pupil 2 ∷ [];
  enrolments = place 1 none none ∷ place 2 none none ∷ [];
  next_pk = 3;
  audit = [];
}

abbrev year_end-Keyed : Keyed year_end
year_end-Keyed = record {
  own = (inl (refl, (refl, tt)), ((refl, tt), (inr (refl, inl (refl, tt)), (tt, tt))));
  below = (omega arith, (omega arith, tt));
}

abbrev before : Year
before = record { classes = year_end; audit = [] }

apply_promotions-again_example :
    let after = (apply_promotions reports ladder 1 2 50 before).1 in
    ((k : Counts) × ((apply_promotions reports ladder 1 2 50 before).0 ≡ ok k))
    × ((k : Counts) × (moves_nobody k ≡ true)
        × (apply_promotions reports ladder 1 2 60 after ≡ (ok k, record_applied 1 k after)))
apply_promotions-again_example =
    apply_promotions-again reports ladder 1 2 50 60 before year_end-Keyed refl

one_promoted :
    (apply_promotions reports ladder 1 2 50 before).0
    ≡ ok (record { promoted = 1; repeated = 0; graduated = 0; skipped = 1 })
unfolding apply_promotions apply_each apply_outcome enrol_student
one_promoted = refl
