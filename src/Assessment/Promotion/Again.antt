-- ===== src/Assessment/Promotion/Again.antt =====
-- A second run finds nothing left to move.
use mathlib.Core.Path.{subst}
use schapp.Base.{
  ℕ, ◌≡◌, refl, Bool, true, false, not, ◌||◌, inl, inr, ◌==◌, ==_refl, ◌<◌, List, [], ◌∷◌, All,
  All_weaken, All-select, arith, Rows, Bool-cases, select, sym,
}
use schapp.Db.{ok}
use schapp.Academics.Models.{Enrolment}
use schapp.Academics.Placement.{Classes}
use schapp.Assessment.Promotion.{
  TermResult, ClassLevel, Counts, outcome, apply_each, is_in_cohort, no_counts, apply_promotions,
  Year, record_applied,
}
use schapp.Assessment.Promotion.Pending.{
  is_skip, key, among, IsLeft, Pending, all_skipped, apply_each-Pending, moves_nobody,
}

-- Every row stands under a key of its own, given before the next one.
pub record Keyed (c : Classes) : Type 0 where
  pub own : Rows key c.enrolments c.enrolments
  pub below : All (λ (r : Enrolment). r.pk < c.next_pk) c.enrolments

wider : (a b c : Bool) → (a || c) ≡ true → (a || (b || c)) ≡ true
wider a b c h = ground arith

put_between : (a b c : Bool) → (a || c) ≡ true → (a || b || c) ≡ true
put_between a b c h = ground arith

only_skip : (a b : Bool) → (not a || b || false) ≡ true → a ≡ true → b ≡ true
only_skip a b h e = ground arith

Rows-select :
    (p : Enrolment → Bool) (xs ys : List Enrolment) → Rows key xs ys → Rows key (select p xs) ys
Rows-select p [] ys h = tt
Rows-select p (x ∷ xs) ys h = elim (Bool-cases (p x)) [
  | inl e ↦ rw e (
    h.0,
    (
      All_weaken _ _ _ (λ y g. g.0)
          (All-select (λ (y : Enrolment). (y.pk == x.pk) ≡ false) p xs h.1.0),
      Rows-select p xs ys h.1.1,
    ),
  )
  | inr e ↦ rw e (Rows-select p xs ys h.1.1)
]

select_taken :
    (p : Enrolment → Bool) (x : Enrolment) (xs : List Enrolment)
    → p x ≡ true
    → select p (x ∷ xs) ≡ x ∷ select p xs
select_taken p x xs e = rw e refl

select_left :
    (p : Enrolment → Bool) (x : Enrolment) (xs : List Enrolment)
    → p x ≡ false
    → select p (x ∷ xs) ≡ select p xs
select_left p x xs e = rw e refl

select-among :
    (p : Enrolment → Bool) (xs : List Enrolment)
    → All (λ (x : Enrolment). (not (p x) || among (select p xs) x.pk) ≡ true) xs
select-among p [] = tt
select-among p (x ∷ xs) = elim (Bool-cases (p x)) [
  | inl e ↦
      subst (λ l. All (λ (y : Enrolment). (not (p y) || among l y.pk) ≡ true) (x ∷ xs))
        (sym (select_taken p x xs e))
        (
          rw (e, ==_refl x.pk) refl,
          All_weaken _ _ xs (λ y h. wider (not (p y)) (x.pk == y.pk) (among (select p xs) y.pk) h)
              (select-among p xs),
        )
  | inr e ↦
      subst (λ l. All (λ (y : Enrolment). (not (p y) || among l y.pk) ≡ true) (x ∷ xs))
        (sym (select_left p x xs e)) (rw e refl, select-among p xs)
]

start :
    (results : List TermResult) (levels : List ClassLevel) (session next_session : ℕ) (c : Classes)
    → Keyed c
    → Pending results levels session next_session (select (is_in_cohort session) c.enrolments) c
start results levels session next_session c v = record {
  rows = Rows-select (is_in_cohort session) c.enrolments c.enrolments v.own;
  below = v.below;
  queue =
      All_weaken _ _ _ (λ e h. h.0)
        (All-select (λ (r : Enrolment). r.pk < c.next_pk) (is_in_cohort session) c.enrolments
          v.below);
  left =
      All_weaken _ _ c.enrolments
        (λ r h. put_between (not (is_in_cohort session r)) (is_skip (outcome results levels r)) _ h)
        (select-among (is_in_cohort session) c.enrolments);
}

-- The members of a settled cohort are skipped.
settled :
    (results : List TermResult) (levels : List ClassLevel) (session next_session : ℕ) (c : Classes)
    → Pending results levels session next_session [] c
    → All
        (λ (e : Enrolment). is_skip (outcome results levels e) ≡ true)
        (select (is_in_cohort session) c.enrolments)
settled results levels session next_session c v =
    All_weaken _ _ _
      (λ e h. only_skip (is_in_cohort session e) (is_skip (outcome results levels e)) h.0 h.1)
      (All-select (IsLeft results levels session next_session []) (is_in_cohort session)
        c.enrolments v.left)

run_lem :
    (results : List TermResult) (levels : List ClassLevel) (session next_session today : ℕ)
    (y : Year)
    → Keyed y.classes
    → (next_session == session) ≡ false
    → (k : Counts) × ((apply_promotions results levels session next_session today y).0 ≡ ok k)
      × Pending results levels session next_session []
          (apply_promotions results levels session next_session today y).1.classes
unfolding apply_promotions
run_lem results levels session next_session today y v other =
    let run =
      apply_each-Pending results levels session next_session today
        (select (is_in_cohort session) y.classes.enrolments) no_counts y.classes other
        (start results levels session next_session y.classes v) in
    (run.0.0, rw (apply_promotions, run.0.1) refl, rw (apply_promotions, run.0.1) run.1)

-- A run over a cohort whose members are all skipped adds its audit entry.
idle :
    (results : List TermResult) (levels : List ClassLevel) (session next_session today : ℕ)
    (y : Year) (k : Counts)
    → apply_each results levels next_session today
        (select (is_in_cohort session) y.classes.enrolments)
        no_counts
        y.classes
      ≡ (ok k, y.classes)
    → apply_promotions results levels session next_session today y
      ≡ (ok k, record_applied session k y)
unfolding apply_promotions
idle results levels session next_session today y k h = rw (apply_promotions, h) refl

-- `apply_promotions` into another session, on rows under keys of their own: it succeeds, and a
-- second run with the same decisions, on any day, succeeds too, promotes, repeats and graduates
-- nobody, and writes nothing but its audit entry.
pub apply_promotions-again :
    (results : List TermResult) (levels : List ClassLevel) (session next_session today later : ℕ)
    (y : Year)
    → Keyed y.classes
    → (next_session == session) ≡ false
    → let after = (apply_promotions results levels session next_session today y).1 in
      ((k : Counts) × ((apply_promotions results levels session next_session today y).0 ≡ ok k))
      × ((k : Counts) × (moves_nobody k ≡ true)
          × (apply_promotions results levels session next_session later after
              ≡ (ok k, record_applied session k after)))
apply_promotions-again results levels session next_session today later y v other =
    let run = run_lem results levels session next_session today y v other in
    let after = (apply_promotions results levels session next_session today y).1 in
    let second =
      all_skipped results levels session next_session later
        (select (is_in_cohort session) after.classes.enrolments) no_counts after.classes refl
        (settled results levels session next_session after.classes run.2) in
    (
      (run.0, run.1),
      (second.0, second.1, idle results levels session next_session later after second.0 second.2),
    )
