-- ===== src/Attendance/Punches.antt =====
-- What the gate may not do to the register.
use schapp.Base.{
  ℕ, ◌≡◌, refl, ◌∙◌, Bool, true, false, Option, none, some, List, [], ◌∷◌, ◌==◌, arith, Bool-cases,
  Option-cases, any, map_if, inl, inr, text_eq_refl, Text, find, ==_refl, ◌⊎◌,
}
use schapp.Attendance.{
  BiometricEvent, Direction, StudentAttendance, Register, find_row, save_row, in_slot,
}
use schapp.Attendance.Gate.{
  School, Pupil, apply_student_punch, ingest_biometric_event, resolve_event, same_punch, is_manual,
  punched, day_of, find_staff, find_student, resolve_student, new_event, received,
}
use schapp.Attendance.Versions.{find_row-append, find_row-map_if}

-- Keys are unique.
abbrev pub Distinct : List StudentAttendance → Type 0
Distinct [] = Unit
Distinct (r ∷ rs) = (find_row r.pk rs ≡ none) × Distinct rs

find_row-find :
    (t : StudentAttendance → Bool) (r : StudentAttendance) (rows : List StudentAttendance)
    → Distinct rows
    → find t rows ≡ some r
    → find_row r.pk rows ≡ some r
unfolding find_row
find_row-find t r [] d h = cc
find_row-find t r (q ∷ rs) d h = ground (arith, find_row-find t r rs d.1)

clash :
    (k : ℕ) (q r : StudentAttendance) (rows : List StudentAttendance)
    → (k == q.pk) ≡ true
    → find_row q.pk rows ≡ some q
    → find_row k rows ≡ some r
    → is_manual r.method ≡ true
    → is_manual q.method ≡ false
    → ⊥
clash k q r rows e here h m by_machine = ground arith

-- A row that a person set by hand is not the gate's to change.
apply_student_punch-manual :
    (p : Pupil) (term day at : ℕ) (s : Register) (k : ℕ) (r : StudentAttendance)
    → Distinct s.rows
    → find_row k s.rows ≡ some r
    → is_manual r.method ≡ true
    → find_row k (apply_student_punch p term day at s).rows ≡ some r
unfolding apply_student_punch save_row
apply_student_punch-manual p term day at s k r d h m =
    elim (Option-cases (find (in_slot p.pk day none) s.rows)) [
      | inl absent ↦ rw (apply_student_punch, absent) (find_row-append k r _ s.rows h)
      | inr (q, found) ↦ elim (Bool-cases (is_manual q.method)) [
        | inl by_hand ↦ rw (apply_student_punch, found, by_hand) h
        | inr by_machine ↦
            rw (apply_student_punch, found, by_machine)
              (elim (Bool-cases (k == q.pk)) [
                | inl e ↦
                    let here = find_row-find (in_slot p.pk day none) q s.rows d found in
                    absurd (clash k q r s.rows e here h m by_machine)
                | inr e ↦ find_row-map_if k q.pk (punched at) s.rows (λ _. refl) ∙ rw e h
              ])
      ]
    ]

-- A write to punches that keeps what identifies one.
any-map_if :
    (t : BiometricEvent → Bool) (c : BiometricEvent → Bool) (w : BiometricEvent → BiometricEvent)
    (es : List BiometricEvent)
    → ((q : BiometricEvent) → t (w q) ≡ t q)
    → any t (map_if c w es) ≡ any t es
any-map_if t c w [] keep = refl
any-map_if t c w (q ∷ es) keep = elim (Bool-cases (c q)) [
  | inl e ↦ rw (e, keep q, any-map_if t c w es keep) refl
  | inr e ↦ rw (e, any-map_if t c w es keep) refl
]

resolve_student-known :
    (now : ℕ) (e : BiometricEvent) (p : Option Pupil) (term : Option ℕ) (s : School) (d : ℕ)
    (id : Text) (at : ℕ)
    → any (same_punch d id at) (resolve_student now e p term s).events
      ≡ any (same_punch d id at) s.events
resolve_student-known now e none term s d id at =
    any-map_if (same_punch d id at) _ _ s.events (λ _. refl)
resolve_student-known now e (some p) none s d id at =
    any-map_if (same_punch d id at) _ _ s.events (λ _. refl)
resolve_student-known now e (some p) (some term) s d id at =
    any-map_if (same_punch d id at) _ _ s.events (λ _. refl)

resolve_event-known :
    (now : ℕ) (e : BiometricEvent) (s : School) (d : ℕ) (id : Text) (at : ℕ)
    → any (same_punch d id at) (resolve_event now e s).events ≡ any (same_punch d id at) s.events
unfolding resolve_event
resolve_event-known now e s d id at = elim (Option-cases (find_staff e.external_id s.staff)) [
  | inl absent ↦
      rw (resolve_event, absent)
        (resolve_student-known now e (find_student e.external_id s.students) s.current_term s d id
          at)
  | inr (m, found) ↦
      rw (resolve_event, found) (any-map_if (same_punch d id at) _ _ s.events (λ _. refl))
]

new_event-known :
    (now device : ℕ) (external_id : Text) (at : ℕ) (direction : Direction) (s : School)
    → any (same_punch device external_id at) (received now device external_id at direction s).events
      ≡ true
new_event-known now device external_id at direction s =
    rw (==_refl device, text_eq_refl external_id, ==_refl at) refl

-- A terminal that sends a punch again, in whatever direction and at whatever time, changes nothing.
pub ingest_biometric_event-again :
    (now later device : ℕ) (external_id : Text) (at : ℕ) (direction again : Direction) (s : School)
    → let after = ingest_biometric_event now device external_id at direction s in
      ingest_biometric_event later device external_id at again after ≡ after
unfolding ingest_biometric_event
ingest_biometric_event-again now later device external_id at direction again s =
    elim (Bool-cases (any (same_punch device external_id at) s.events)) [
      | inl known ↦ rw (known, known) refl
      | inr fresh ↦
          let e = new_event device external_id at direction in
          let t = received now device external_id at direction s in
          let known =
            resolve_event-known now e t device external_id at
            ∙ new_event-known now device external_id at direction s in
          rw (fresh, known) refl
    ]

-- The register after a punch: as it was, or with the student's punch applied.
abbrev Touched : Register → ℕ → Register → Type 0
Touched s at t =
    (t ≡ s) ⊎ ((p : Pupil) × (term : ℕ) × (t ≡ apply_student_punch p term (day_of at) at s))

resolve_student-Touched :
    (now : ℕ) (e : BiometricEvent) (p : Option Pupil) (term : Option ℕ) (s : School)
    → Touched s.register e.occurred_at (resolve_student now e p term s).register
resolve_student-Touched now e none term s = inl refl
resolve_student-Touched now e (some p) none s = inl refl
resolve_student-Touched now e (some p) (some term) s = inr (p, term, refl)

resolve_event-Touched :
    (now : ℕ) (e : BiometricEvent) (s : School)
    → Touched s.register e.occurred_at (resolve_event now e s).register
unfolding resolve_event
resolve_event-Touched now e s = elim (Option-cases (find_staff e.external_id s.staff)) [
  | inl absent ↦
      rw (resolve_event, absent)
        (resolve_student-Touched now e (find_student e.external_id s.students) s.current_term s)
  | inr (m, found) ↦ rw (resolve_event, found) (inl refl)
]

ingest_biometric_event-Touched :
    (now device : ℕ) (external_id : Text) (at : ℕ) (direction : Direction) (s : School)
    → Touched s.register at (ingest_biometric_event now device external_id at direction s).register
unfolding ingest_biometric_event
ingest_biometric_event-Touched now device external_id at direction s =
    elim (Bool-cases (any (same_punch device external_id at) s.events)) [
      | inl known ↦ rw known (inl refl)
      | inr fresh ↦ rw fresh (
          resolve_event-Touched now (new_event device external_id at direction)
            (received now device external_id at direction s))
    ]

-- Where the keys of the students' register are unique, a row that was marked by hand is after a
-- punch, of a student or of a member of staff, as it was before.
pub ingest_biometric_event-manual :
    (now device : ℕ) (external_id : Text) (at : ℕ) (direction : Direction) (s : School) (k : ℕ)
    (r : StudentAttendance)
    → Distinct s.register.rows
    → find_row k s.register.rows ≡ some r
    → is_manual r.method ≡ true
    → find_row k (ingest_biometric_event now device external_id at direction s).register.rows
      ≡ some r
ingest_biometric_event-manual now device external_id at direction s k r d h m =
    elim (ingest_biometric_event-Touched now device external_id at direction s) [
      | inl e ↦ rw e h
      | inr (p, term, e) ↦
          rw e (apply_student_punch-manual p term (day_of at) at s.register k r d h m)
    ]
