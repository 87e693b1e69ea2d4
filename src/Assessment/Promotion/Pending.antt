-- ===== src/Assessment/Promotion/Pending.antt =====
-- What a run keeps of the cohort while it goes through it.
use schapp.Base.{
  ℕ, All, Rows, any, ◌≡◌, ◌<◌, ◌||◌, refl, ◌∙◌, Bool, true, false, not, ◌&&◌, ◌⊎◌, inl, inr, ◌==◌,
  ◌+◌, List, [], ◌∷◌, All_and, All_weaken, All-map_if, All-append_one, arith, Rows-write,
  Rows-append, IsRow-only, Option-cases, none,
}
use schapp.Db.{ok}
use schapp.Academics.Models.{Enrolment, EnrolmentStatus, is_active_enrolment}
use schapp.Academics.Placement.{Classes, Placing, enrol_student, new_enrolment, enrolled}
use schapp.Academics.Placement.Enrolling.{enrol_student_cases}
use schapp.Assessment.Promotion.{
  TermResult, ClassLevel, Counts, Outcome, outcome, set_status, save_status, placing_next,
  apply_outcome, count, apply_each, is_in_cohort, skips, promotes, repeats, graduates, Bool, List,
  not, true, false, ◌∷◌,
}

abbrev pub is_skip : Outcome → Bool
is_skip skips = true
is_skip _ = false

-- The counts of a run that promoted, repeated and graduated nobody.
abbrev pub moves_nobody : Counts → Bool
moves_nobody k = k.promoted == 0 && k.repeated == 0 && k.graduated == 0

abbrev pub key : Enrolment → ℕ
key e = e.pk

-- The row's key is that of one of the enrolments.
abbrev pub among : List Enrolment → ℕ → Bool
among es pk = any (λ (e : Enrolment). e.pk == pk) es

skip_lem : (o : Outcome) → is_skip o ≡ true → o ≡ skips
skip_lem (promotes n) h = cc
skip_lem repeats h = cc
skip_lem graduates h = cc
skip_lem skips h = refl

above : {a b : ℕ} → a < b → (b == a) ≡ false
above le = ground arith

swapped : (a b : ℕ) → (a == b) ≡ false → (b == a) ≡ false
swapped a b h = ground arith

or_middle : (a b : Bool) → (a || true || b) ≡ true
or_middle a b = ground arith

moved_off : (a b c : Bool) {d : Bool} → d ≡ false → (not (a && d) || b || c) ≡ true
moved_off a b c h = ground arith

still_left :
    (a b c : Bool) {d : Bool} → (a || b || (d || c)) ≡ true → d ≡ false → (a || b || c) ≡ true
still_left a b c h i = ground arith

module _ (results : List TermResult) (levels : List ClassLevel) (session next_session : ℕ) where
  -- A row of the cohort is one still to be processed, or one that the decisions skip.
  abbrev pub IsLeft : List Enrolment → Enrolment → Type 0
  IsLeft es r =
      (not (is_in_cohort session r) || is_skip (outcome results levels r) || among es r.pk) ≡ true

  -- What the loop keeps, with the enrolments still to be processed.
  pub record Pending (es : List Enrolment) (c : Classes) : Type 0 where
    pub rows : Rows key es c.enrolments
    pub below : All (λ (r : Enrolment). r.pk < c.next_pk) c.enrolments
    pub queue : All (λ (e : Enrolment). e.pk < c.next_pk) es
    pub left : All (IsLeft es) c.enrolments

  keep_left :
      (e : Enrolment) (es : List Enrolment) (r : Enrolment)
      → IsLeft (e ∷ es) r
      → (e.pk == r.pk) ≡ false
      → IsLeft es r
  keep_left e es r g apart =
      still_left (not (is_in_cohort session r)) (is_skip (outcome results levels r)) (among es r.pk)
        g apart

  skipped_left :
      (e : Enrolment) (es : List Enrolment) (r : Enrolment)
      → outcome results levels e ≡ skips
      → IsLeft (e ∷ es) r
      → ((r.pk == e.pk) ≡ false) ⊎ (r ≡ e)
      → IsLeft es r
  skipped_left e es r h g (inl apart) = keep_left e es r g (swapped r.pk e.pk apart)
  skipped_left e es r h g (inr same) =
      rw (same, h) (or_middle (not (is_in_cohort session e)) (among es e.pk))

  step_skip :
      (today : ℕ) (e : Enrolment) (es : List Enrolment) (k : Counts) (c : Classes)
      → outcome results levels e ≡ skips
      → apply_each results levels next_session today (e ∷ es) k c
        ≡ apply_each results levels next_session today es (count skips k) c
  unfolding apply_each apply_outcome
  step_skip today e es k c h = rw (apply_each, apply_outcome, h) refl

  -- Nothing is left of a cohort whose members are all skipped.
  pub all_skipped :
      (today : ℕ) (es : List Enrolment) (k : Counts) (c : Classes)
      → moves_nobody k ≡ true
      → All (λ (e : Enrolment). is_skip (outcome results levels e) ≡ true) es
      → (x : Counts) × (moves_nobody x ≡ true)
        × (apply_each results levels next_session today es k c ≡ (ok x, c))
  unfolding apply_each
  all_skipped today [] k c n h = (k, n, refl)
  all_skipped today (e ∷ es) k c n h =
      let rest = all_skipped today es (count skips k) c n h.1 in
      (rest.0, rest.1, step_skip today e es k c (skip_lem (outcome results levels e) h.0) ∙ rest.2)

  -- A new enrolment keeps what is pending.
  enrol-Pending :
      (es : List Enrolment) (p : Placing) (c : Classes)
      → (p.session == session) ≡ false
      → Pending es c
      → Pending es (enrol_student p c).1
  enrol-Pending es p c other v = elim (enrol_student_cases p c) [
    | inl (x, found, h) ↦ rw h v
    | inr (inl (x, h)) ↦ rw h v
    | inr (inr (nothing, h, rows, fresh)) ↦
        let new = new_enrolment c.next_pk p in
        record {
          rows = rw rows (
              Rows-append key es new c.enrolments (All_weaken _ _ es (λ e le. above le) v.queue)
                v.rows);
          below =
              rw (rows, fresh)
                (All-append_one (λ (r : Enrolment). r.pk < c.next_pk + 1) new c.enrolments
                  (All_weaken _ _ c.enrolments (λ r le. omega (arith, le)) v.below) (omega arith));
          queue = rw fresh (All_weaken _ _ es (λ e le. omega (arith, le)) v.queue);
          left = rw rows (All-append_one (IsLeft es) new c.enrolments v.left (rw other refl));
        }
  ]

  -- The first is skipped.
  skip-Pending :
      (e : Enrolment) (es : List Enrolment) (c : Classes)
      → outcome results levels e ≡ skips
      → Pending (e ∷ es) c
      → Pending es c
  skip-Pending e es c h v = record {
    rows = v.rows.1.1;
    below = v.below;
    queue = v.queue.1;
    left =
        All_weaken _ _ c.enrolments (λ r g. skipped_left e es r h g.0 g.1)
          (All_and _ _ c.enrolments v.left (IsRow-only key e c.enrolments v.rows.0));
  }

  -- The status of the first takes it off the cohort.
  status-Pending :
      (e : Enrolment) (es : List Enrolment) (status : EnrolmentStatus) (c : Classes)
      → is_active_enrolment status ≡ false
      → Pending (e ∷ es) c
      → Pending es (save_status e.pk status c)
  status-Pending e es status c off v = record {
    rows = Rows-write key e (set_status status) es c.enrolments (λ y. refl) v.rows.1.0 v.rows.1.1;
    below =
        All-map_if (λ (r : Enrolment). r.pk < c.next_pk) (λ (r : Enrolment). r.pk < c.next_pk)
          (λ r. r.pk == e.pk) (set_status status) c.enrolments (λ r le i. le) (λ r le i. le)
          v.below;
    queue = v.queue.1;
    left =
        All-map_if (IsLeft (e ∷ es)) (IsLeft es) (λ r. r.pk == e.pk) (set_status status)
          c.enrolments
          (λ r g i.
            moved_off (r.session == session) (is_skip (outcome results levels r)) (among es r.pk)
              off)
          (λ r g i. keep_left e es r g (swapped r.pk e.pk i)) v.left;
  }

  -- A student without a class is always enrolled.
  enrol_ok :
      (p : Placing) (c : Classes)
      → p.class_arm ≡ none
      → (x : Enrolment) × ((enrol_student p c).0 ≡ ok x)
  unfolding enrol_student
  enrol_ok p c h = elim (Option-cases (enrolled p.student p.session c.enrolments)) [
    | inr (x, found) ↦ (x, rw (enrol_student, found) refl)
    | inl nothing ↦ (new_enrolment c.next_pk p, rw (enrol_student, nothing, h) refl)
  ]

  -- The loop's body succeeds, and settles its enrolment.
  apply_outcome-Pending :
      (today : ℕ) (o : Outcome) (e : Enrolment) (es : List Enrolment) (c : Classes)
      → (next_session == session) ≡ false
      → outcome results levels e ≡ o
      → Pending (e ∷ es) c
      → ((apply_outcome next_session today o e c).0 ≡ ok tt)
        × Pending es (apply_outcome next_session today o e c).1
  unfolding apply_outcome
  apply_outcome-Pending today (promotes level) e es c other h v =
      let p = placing_next next_session level e in
      let made = enrol_ok p c refl in
      rw (apply_outcome, made.1)
        (
          refl,
          status-Pending e es EnrolmentStatus.promoted (enrol_student p c).1 refl
              (enrol-Pending (e ∷ es) p c other v),
        )
  apply_outcome-Pending today repeats e es c other h v =
      let p = placing_next next_session e.level e in
      let made = enrol_ok p c refl in
      rw (apply_outcome, made.1)
        (
          refl,
          status-Pending e es EnrolmentStatus.repeated (enrol_student p c).1 refl
              (enrol-Pending (e ∷ es) p c other v),
        )
  apply_outcome-Pending today graduates e es c other h v = (
    refl,
    status-Pending e es EnrolmentStatus.graduated _ refl
        (record { rows = v.rows; below = v.below; queue = v.queue; left = v.left }),
  )
  apply_outcome-Pending today skips e es c other h v = (refl, skip-Pending e es c h v)

  pub apply_each-Pending :
      (today : ℕ) (es : List Enrolment) (k : Counts) (c : Classes)
      → (next_session == session) ≡ false
      → Pending es c
      → ((x : Counts) × ((apply_each results levels next_session today es k c).0 ≡ ok x))
        × Pending [] (apply_each results levels next_session today es k c).1
  unfolding apply_each
  apply_each-Pending today [] k c other v = ((k, refl), v)
  apply_each-Pending today (e ∷ es) k c other v =
      let o = outcome results levels e in
      let here = apply_outcome-Pending today o e es c other refl v in
      let rest =
        apply_each-Pending today es (count o k) (apply_outcome next_session today o e c).1 other
          here.1 in
      rw (apply_each, here.0) rest
