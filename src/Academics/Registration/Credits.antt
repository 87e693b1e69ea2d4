-- ===== src/Academics/Registration/Credits.antt =====
-- The credit ceiling: what a registration adds to the units of a term.
use mathlib.Core.Path.{subst}
use schapp.Base.{
  ℕ, ◌==◌, All, All_and, All_weaken, All-map_if, map_if, ==_refl, ==_iff, arith, inl, inr, List,
  ◌∷◌, [], some, none, refl, ◌≡◌, ◌&&◌, ◌||◌, not, Bool, true, false, Bool-cases, ◌⊎◌, Option-cases,
  ◌∙◌, ap, ◌<◌, ◌≤◌, ◌+◌, if◌then◌else◌, All-find, find, any, max, Option,
}
use schapp.Db.{Result, ok, err, tenant_atomic}
use schapp.Db.Rules.{Result-cases}
use schapp.Academics.Models.{Enrolment, Student}
use schapp.Academics.Calendar.{Term, accepts_registration}
use schapp.Academics.Registration.{
  SubjectRegistration, Subject, Programme, Registry, RegistrationStatus, RegistrationError,
  units_of, counted, sum_units, registered_credit_units, registered, new_registration, register_one,
  register_each, register_subjects, sum_credits, over_limit, status_for, is_slot, is_carryover,
  registration_closed, registration_rejected_rows, failures, is_nonempty,
}

-- The newest row first: keys fall, from below the next one.
abbrev pub Descending : ℕ → List SubjectRegistration → Type 0
Descending n [] = Unit
Descending n (r ∷ rs) = (r.pk < n) × Descending r.pk rs

-- A row's key tells its subject.
abbrev Agrees : List SubjectRegistration → SubjectRegistration → Type 0
Agrees rows r =
    All (λ (x : SubjectRegistration). (not (x.pk == r.pk) || (x.subject == r.subject)) ≡ true) rows

Descending-below :
    (n : ℕ) (rs : List SubjectRegistration)
    → Descending n rs
    → All (λ (r : SubjectRegistration). r.pk < n) rs
Descending-below n [] d = tt
Descending-below n (r ∷ rs) d =
    (d.0, All_weaken _ _ rs (λ x h. omega (arith, h, d.0)) (Descending-below r.pk rs d.1))

agree_self : (n : ℕ) (rs : List SubjectRegistration) → Descending n rs → All (Agrees rs) rs
agree_self n [] d = tt
agree_self n (r ∷ rs) d =
    let low = Descending-below r.pk rs d.1 in
    (
      (rw (==_refl r.pk, ==_refl r.subject) refl, All_weaken _ _ rs (λ x h. ground arith) low),
      All_weaken _ _ rs (λ x h. (ground arith, h.1)) (All_and _ _ rs low (agree_self r.pk rs d.1)),
    )

equal_le : {a b : ℕ} → (a == b) ≡ true → a ≤ b
equal_le e = ground arith

unequal : (a b : ℕ) → a < b → (a == b) ≡ false
unequal a b lt = ground arith

subject_of : (x y : Bool) → x ≡ true → (not x || y) ≡ true → y ≡ true
subject_of x y e h = ground arith

map_if_below :
    (k n : ℕ) (w : SubjectRegistration → SubjectRegistration) (rs : List SubjectRegistration)
    → n ≤ k
    → Descending n rs
    → map_if (λ x. x.pk == k) w rs ≡ rs
map_if_below k n w [] le d = refl
map_if_below k n w (r ∷ rs) le d =
    rw (unequal r.pk k (omega (arith, d.0, le)))
      (ap (λ ys. r ∷ ys) (map_if_below k r.pk w rs (omega (arith, d.0, le)) d.1))

chosen : (x y : Bool) (u v m : ℕ) → u ≡ v → (if x then u else 0) + m ≤ (if y then u else 0) + m + v
chosen true true u v m e = omega arith
chosen true false u v m e = omega arith
chosen false true u v m e = omega arith
chosen false false u v m e = omega arith

-- A write of the row with one key raises the units by no more than the row's own.
sum_write :
    (ss : List Subject) (p : SubjectRegistration → Bool) (k n : ℕ) (status : RegistrationStatus)
    (b : Bool) (subject : ℕ) (rs : List SubjectRegistration)
    → Descending n rs
    → All (λ (x : SubjectRegistration). (not (x.pk == k) || (x.subject == subject)) ≡ true) rs
    → sum_units ss p (map_if (λ x. x.pk == k) (registered status b) rs)
      ≤ sum_units ss p rs + units_of ss subject
sum_write ss p k n status b subject [] d h = omega arith
sum_write ss p k n status b subject (r ∷ rs) d h = elim (Bool-cases (r.pk == k)) [
  | inl e ↦
      let same =
        (==_iff r.subject subject).0 (subject_of (r.pk == k) (r.subject == subject) e h.0) in
      rw (e, map_if_below k r.pk (registered status b) rs (equal_le e) d.1)
        (chosen (p (registered status b r)) (p r) (units_of ss r.subject) (units_of ss subject)
          (sum_units ss p rs) (ap (units_of ss) same))
  | inr e ↦ rw e (omega (arith, sum_write ss p k r.pk status b subject rs d.1 h.1))
]

-- What the loop keeps: the rows it read before still tell their subjects.
pub record Ready (existing : List SubjectRegistration) (g : Registry) : Type 0 where
  pub falling : Descending g.next_pk g.registrations
  pub agree : All (Agrees g.registrations) existing
  pub old : All (λ (r : SubjectRegistration). r.pk < g.next_pk) existing

Descending-write :
    (k n : ℕ) (status : RegistrationStatus) (b : Bool) (rs : List SubjectRegistration)
    → Descending n rs
    → Descending n (map_if (λ x. x.pk == k) (registered status b) rs)
Descending-write k n status b [] d = tt
Descending-write k n status b (r ∷ rs) d = elim (Bool-cases (r.pk == k)) [
  | inl e ↦ rw e (d.0, Descending-write k r.pk status b rs d.1)
  | inr e ↦ rw e (d.0, Descending-write k r.pk status b rs d.1)
]

Agrees-write :
    (k : ℕ) (status : RegistrationStatus) (b : Bool) (rs : List SubjectRegistration)
    (r : SubjectRegistration)
    → Agrees rs r
    → Agrees (map_if (λ x. x.pk == k) (registered status b) rs) r
Agrees-write k status b rs r h =
    All-map_if
      (λ (x : SubjectRegistration). (not (x.pk == r.pk) || (x.subject == r.subject)) ≡ true)
      (λ (x : SubjectRegistration). (not (x.pk == r.pk) || (x.subject == r.subject)) ≡ true)
      (λ x. x.pk == k) (registered status b) rs (λ x g e. g) (λ x g e. g) h

fresh : (n k : ℕ) (b : Bool) → k < n → (not (n == k) || b) ≡ true
fresh n k b lt = ground arith

first_unit : (b : Bool) (u m : ℕ) → (if b then u else 0) + m ≤ m + u
first_unit true u m = omega arith
first_unit false u m = omega arith

slot_subject :
    (enrolment term subject : ℕ) (r : SubjectRegistration)
    → is_slot enrolment term subject r ≡ true
    → r.subject ≡ subject
slot_subject enrolment term subject r h = ground arith

-- What a turn of the loop does to the units of the rows that a test counts.
abbrev Adds :
    (SubjectRegistration → Bool) → List SubjectRegistration → ℕ → Registry → Registry → Type 0
Adds p existing units g g' =
    Ready existing g'
    × (g'.subjects ≡ g.subjects)
    × (sum_units g.subjects p g'.registrations ≤ sum_units g.subjects p g.registrations + units)

revive-Adds :
    (p : SubjectRegistration → Bool) (status : RegistrationStatus) (b : Bool)
    (existing : List SubjectRegistration) (r : SubjectRegistration) (subject : ℕ) (g : Registry)
    → Ready existing g
    → Agrees g.registrations r
    → r.subject ≡ subject
    → Adds p existing (units_of g.subjects subject) g (record g {
      registrations = map_if (λ row. row.pk == r.pk) (registered status b) g.registrations;
    })
revive-Adds p status b existing r subject g v agree same = (
  record {
    falling = Descending-write r.pk g.next_pk status b g.registrations v.falling;
    agree = All_weaken _ _ existing (λ x h. Agrees-write r.pk status b g.registrations x h) v.agree;
    old = v.old;
  },
  refl,
  subst
      (λ n.
        sum_units g.subjects p
          (map_if (λ row. row.pk == r.pk) (registered status b) g.registrations)
        ≤ sum_units g.subjects p g.registrations + units_of g.subjects n)
      same
      (sum_write g.subjects p r.pk g.next_pk status b r.subject g.registrations v.falling agree),
)

add-Adds :
    (p : SubjectRegistration → Bool) (existing : List SubjectRegistration) (r : SubjectRegistration)
    (g : Registry)
    → r.pk ≡ g.next_pk
    → Ready existing g
    → Adds p existing
        (units_of g.subjects r.subject)
        g
        (record g { registrations = r ∷ g.registrations; next_pk = g.next_pk + 1 })
add-Adds p existing r g new v = (
  record {
    falling = (omega (arith, new), rw new v.falling);
    agree =
        All_weaken _ _ existing (λ x h. (fresh r.pk x.pk _ (omega (arith, h.0, new)), h.1))
          (All_and _ _ existing v.old v.agree);
    old = All_weaken _ _ existing (λ x h. omega (arith, h)) v.old;
  },
  refl,
  first_unit (p r) (units_of g.subjects r.subject) _,
)

-- One turn of the loop.
pub register_one-Adds :
    (p : SubjectRegistration → Bool) (e : Enrolment) (t : Term) (status : RegistrationStatus)
    (existing : List SubjectRegistration) (s : Subject) (g : Registry)
    → Ready existing g
    → Adds p existing (units_of g.subjects s.pk) g (register_one e t status existing s g).1
unfolding register_one
register_one-Adds p e t status existing s g v =
    elim (Option-cases (find (is_slot e.pk t.pk s.pk) existing)) [
      | inr (r, found) ↦
          let here =
            All-find (Agrees g.registrations) (is_slot e.pk t.pk s.pk) existing r v.agree found in
          rw (register_one, found)
            (revive-Adds p status (is_carryover e s t g) existing r s.pk g v here.0
              (slot_subject e.pk t.pk s.pk r here.1))
      | inl nothing ↦ elim (Bool-cases (any (is_slot e.pk t.pk s.pk) g.registrations)) [
        | inl taken ↦ rw (register_one, nothing, taken) (v, refl, omega arith)
        | inr free ↦
            rw (register_one, nothing, free)
              (add-Adds p existing (new_registration g.next_pk e s t status (is_carryover e s t g))
                g refl v)
      ]
    ]

abbrev sum_of_units : List Subject → List Subject → ℕ
sum_of_units ss [] = 0
sum_of_units ss (x ∷ xs) = units_of ss x.pk + sum_of_units ss xs

register_each-Adds :
    (p : SubjectRegistration → Bool) (e : Enrolment) (t : Term) (status : RegistrationStatus)
    (existing : List SubjectRegistration) (subjects : List Subject) (g : Registry)
    → Ready existing g
    → Adds p existing
        (sum_of_units g.subjects subjects)
        g
        (register_each e t status existing subjects g).1
unfolding register_each
register_each-Adds p e t status existing [] g v = (v, refl, omega arith)
register_each-Adds p e t status existing (s ∷ ss) g v =
    let here = register_one-Adds p e t status existing s g v in
    elim (Result-cases (register_one e t status existing s g).0) [
      | inl (x, h) ↦ rw (register_each, h) (here.0, here.1, omega (arith, here.2))
      | inr (u, h) ↦
          let next = (register_one e t status existing s g).1 in
          let rest = register_each-Adds p e t status existing ss next here.0 in
          let more = rw here.1 at rest.2 in
          rw (register_each, h) (rest.0, rest.1 ∙ here.1, omega (arith, here.2, more))
    ]

sum_credits_same :
    (ss subjects : List Subject)
    → All (λ (s : Subject). units_of ss s.pk ≡ s.credit_units) subjects
    → sum_of_units ss subjects ≡ sum_credits subjects
sum_credits_same ss [] h = refl
sum_credits_same ss (s ∷ subjects) h = rw (h.0, sum_credits_same ss subjects h.1) refl

limit_kept :
    (units : ℕ) (p : Programme) → over_limit units (some p) ≡ none → units ≤ p.max_credit_units
limit_kept units p h = ground arith

-- How a registration ends: with the rows as they were, or as the loop left them.
ending :
    (a b : Bool) (x y : RegistrationError) (o : Option RegistrationError)
    (r : Result RegistrationError (Unit {0}) × Registry) (g : Registry)
    → ((tenant_atomic
          (λ h.
            if a
            then (err x, h)
            else if b
            then (err y, h)
            else elim o [ some z ↦ (err z, h) | none ↦ r ])
          g).1
        ≡ g)
      ⊎ (((tenant_atomic
              (λ h.
                if a
                then (err x, h)
                else if b
                then (err y, h)
                else elim o [ some z ↦ (err z, h) | none ↦ r ])
              g).1
            ≡ r.1)
          × (o ≡ none))
ending true b x y o r g = inl refl
ending false true x y o r g = inl refl
ending false false x y (some z) r g = inl refl
ending false false x y none (ok u, h) g = inr (refl, refl)
ending false false x y none (err z, h) g = inl refl

-- `register_subjects` for a student on a programme, on rows whose keys were given in order, for
-- subjects as the catalogue has them: whatever it answers, the units that the enrolment has in the
-- term, dropped and rejected rows aside, are then at most what they were or the programme's
-- maximum.
pub register_subjects-ceiling :
    (now : ℕ) (e : Enrolment) (student : Student) (p : Programme) (t : Term)
    (subjects : List Subject) (submit ignore_window : Bool) (g : Registry)
    → Descending g.next_pk g.registrations
    → All (λ (s : Subject). units_of g.subjects s.pk ≡ s.credit_units) subjects
    → registered_credit_units e.pk t.pk
        (register_subjects now e student (some p) t subjects submit ignore_window g).1
      ≤ max (registered_credit_units e.pk t.pk g) p.max_credit_units
unfolding register_subjects
register_subjects-ceiling now e student p t subjects submit ignore_window g falling catalogue =
    let v : Ready g.registrations g = record {
      falling = falling;
      agree = agree_self g.next_pk g.registrations falling;
      old = Descending-below g.next_pk g.registrations falling;
    } in
    let added =
      register_each-Adds (counted e.pk t.pk) e t (status_for (some p) submit) g.registrations
        subjects g v in
    let same = sum_credits_same g.subjects subjects catalogue in
    elim (ending (not ignore_window && not (accepts_registration now t))
      (is_nonempty (failures e student (some p) t subjects g)) registration_closed
      (registration_rejected_rows (failures e student (some p) t subjects g))
      (over_limit (registered_credit_units e.pk t.pk g + sum_credits subjects) (some p))
      (register_each e t (status_for (some p) submit) g.registrations subjects g) g) [
        | inl unchanged ↦ rw unchanged (omega arith)
        | inr (done, small) ↦
            rw (done, added.1) (omega (arith, added.2, same, limit_kept _ p small))
      ]
