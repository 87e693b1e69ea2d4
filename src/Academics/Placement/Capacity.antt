-- ===== src/Academics/Placement/Capacity.antt =====
-- Places in a class: what an operation adds to the number of active students in it.
use schapp.Academics.Calendar.{session_is_current}
use schapp.Base.{
  ℕ, ◌≡◌, refl, ap, ◌∙◌, ◌+◌, ◌≤◌, max, Bool, true, false, ◌&&◌, not, Option, none, some, ◌==◌, leb,
  inl, inr, Bool-cases, Option-cases, IsRow, count_write, bit, arith, opt_eq, is_some, find,
  if◌then◌else◌, ◌⊎◌, map_if, ==_iff,
}
use schapp.Db.{ok, err}
use schapp.Academics.Models.{Enrolment, Student, is_active_enrolment}
use schapp.Academics.Placement.{
  ClassArm, Classes, PlacementError, arm_occupancy, is_seated, refusal, seat, seated_at, roll_for,
  assign_to_arm, take_stream, follow, student_does_not_exist, enrolment_not_active, arm_inactive,
  arm_mismatch, stream_mismatch, arm_full,
}

-- The enrolment takes a place it did not have.
abbrev pub takes_place : ℕ → ℕ → ℕ → Enrolment → Bool
takes_place a session arm e =
    (arm == a) && (e.session == session) && not (opt_eq e.class_arm (some arm))

take_stream-enrolments :
    (arm : ClassArm) (s : Student) (c : Classes) → (take_stream arm s c).enrolments ≡ c.enrolments
take_stream-enrolments arm s c = elim (Bool-cases (is_some arm.stream && not (is_some s.stream))) [
  | inl e ↦ rw e refl
  | inr e ↦ rw e refl
]

follow-enrolments :
    (e : Enrolment) (s : Student) (c : Classes) → (follow e s c).enrolments ≡ c.enrolments
follow-enrolments e s c = elim (Bool-cases (session_is_current e.session c.sessions)) [
  | inl h ↦ rw h refl
  | inr h ↦ rw h refl
]

pub seat-enrolments :
    (e : Enrolment) (arm : ClassArm) (roll : ℕ) (s : Student) (c : Classes)
    → (seat e arm roll s c).enrolments
      ≡ map_if (λ r. r.pk == e.pk) (seated_at arm.pk roll) c.enrolments
unfolding seat
seat-enrolments e arm roll s c =
    follow-enrolments (seated_at arm.pk roll e) s _ ∙ take_stream-enrolments arm s _

seat_bit :
    (a session arm roll : ℕ) (e : Enrolment)
    → bit (is_seated a session (seated_at arm roll e))
      ≤ bit (is_seated a session e) + bit (takes_place a session arm e)
seat_bit a session arm roll e = elim (Bool-cases (is_active_enrolment e.status)) [
  | inl on ↦ elim (Option-cases e.class_arm) [
    | inl none_ ↦ rw (on, none_) (ground arith)
    | inr (b, some_) ↦ rw (on, some_) (ground arith)
  ]
  | inr off ↦ rw off (ground arith)
]

pub seat_count :
    (e : Enrolment) (arm : ClassArm) (roll : ℕ) (s : Student) (c : Classes) (a session : ℕ)
    → IsRow (λ (r : Enrolment). r.pk) e c.enrolments
    → arm_occupancy a session (seat e arm roll s c).enrolments
      ≤ arm_occupancy a session c.enrolments + bit (takes_place a session arm.pk e)
seat_count e arm roll s c a session row = rw (seat-enrolments e arm roll s c) (
    omega (
      arith,
      seat_bit a session arm.pk roll e,
      count_write (λ (r : Enrolment). r.pk) e (seated_at arm.pk roll) (is_seated a session)
          c.enrolments row,
    ))

-- How an `assign_to_arm` ends.
abbrev pub IsRefused : Enrolment → ClassArm → Option ℕ → Bool → Classes → Type 0
IsRefused e arm roll enforce c =
    (x : PlacementError) × (assign_to_arm e arm roll enforce c ≡ (err x, c))

abbrev pub IsThere : Enrolment → ClassArm → Option ℕ → Bool → Classes → Type 0
IsThere e arm roll enforce c =
    (assign_to_arm e arm roll enforce c ≡ (ok e, c)) × (opt_eq e.class_arm (some arm.pk) ≡ true)

abbrev pub IsPlaced : Enrolment → ClassArm → Option ℕ → Bool → Classes → Type 0
IsPlaced e arm roll enforce c =
    (s : Student) × (refusal e arm enforce s c ≡ none)
    × (assign_to_arm e arm roll enforce c
        ≡ (ok (seated_at arm.pk (roll_for roll e arm c) e), seat e arm (roll_for roll e arm c) s c))

pub assign_to_arm_cases :
    (e : Enrolment) (arm : ClassArm) (roll : Option ℕ) (enforce : Bool) (c : Classes)
    → IsRefused e arm roll enforce c
      ⊎ (IsThere e arm roll enforce c ⊎ IsPlaced e arm roll enforce c)
unfolding assign_to_arm
assign_to_arm_cases e arm roll enforce c = elim (Bool-cases (is_active_enrolment e.status)) [
  | inr off ↦ inl (enrolment_not_active e.status, rw off refl)
  | inl on ↦ elim (Bool-cases (opt_eq e.class_arm (some arm.pk) && is_some e.roll_number)) [
    | inl there ↦ inr (inl (rw (on, there) refl, ground arith))
    | inr free ↦ elim (Option-cases (find (λ (s : Student). s.pk == e.student) c.students)) [
      | inl missing ↦ inl (student_does_not_exist, rw (on, free, missing) refl)
      | inr (s, found) ↦ elim (Option-cases (refusal e arm enforce s c)) [
        | inr (x, shut) ↦ inl (x, rw (on, free, found, shut) refl)
        | inl open_ ↦ inr (inr (s, open_, rw (on, free, found, open_) refl))
      ]
    ]
  ]
]

-- The places a class may have once an operation on `arm` has ended.
abbrev pub limit : ClassArm → ℕ → ℕ
limit arm a = if arm.pk == a then arm.capacity else 0

last_guard :
    (a b c d : Bool) (x y z w : PlacementError)
    → ◌≡◌ {A = Option PlacementError}
        (if a
          then some x
          else if b
          then some y
          else if c
          then some z
          else if d
          then some w
          else none)
        none
    → d ≡ false
last_guard a b c d x y z w h = ground arith

refusal_room :
    (e : Enrolment) (arm : ClassArm) (s : Student) (c : Classes)
    → refusal e arm true s c ≡ none
    → (not (opt_eq e.class_arm (some arm.pk))
        && leb arm.capacity (arm_occupancy arm.pk e.session c.enrolments))
      ≡ false
unfolding refusal
refusal_room e arm s c h =
    last_guard (not arm.is_active) (not (arm.level == e.level))
      (is_some arm.stream && is_some s.stream && not (opt_eq arm.stream s.stream)) _ arm_inactive
      arm_mismatch stream_mismatch
      (arm_full arm.capacity (arm_occupancy arm.pk e.session c.enrolments) 1) h

room_here :
    (m n places : ℕ) (b : Bool) → m ≡ n → (b && leb places m) ≡ false → n + bit b ≤ max n places
room_here m n places true e h = ground arith
room_here m n places false e h = omega arith

pub room :
    (occ : ℕ → ℕ → ℕ) (a session arm here places : ℕ) (b : Bool)
    → (b && leb places (occ arm here)) ≡ false
    → occ a session + bit ((arm == a) && (here == session) && b)
      ≤ max (occ a session) (if arm == a then places else 0)
room occ a session arm here places b h = elim (Bool-cases (arm == a)) [
  | inr e ↦ rw e (omega arith)
  | inl e ↦ elim (Bool-cases (here == session)) [
    | inr f ↦ rw (e, f) (omega arith)
    | inl f ↦
        let same =
          ap (λ x. occ x here) ((==_iff arm a).0 e)
          ∙ ap (λ y. occ a y) ((==_iff here session).0 f) in
        rw (e, f) (room_here (occ arm here) (occ a session) places b same h)
  ]
]

within :
    (a session : ℕ) (e : Enrolment) (arm : ClassArm) (c : Classes)
    → (not (opt_eq e.class_arm (some arm.pk))
        && leb arm.capacity (arm_occupancy arm.pk e.session c.enrolments))
      ≡ false
    → arm_occupancy a session c.enrolments + bit (takes_place a session arm.pk e)
      ≤ max (arm_occupancy a session c.enrolments) (limit arm a)
within a session e arm c h =
    room (λ a s. arm_occupancy a s c.enrolments) a session arm.pk e.session arm.capacity _ h

-- `assign_to_arm` with the capacity enforced, for an enrolment as it stands in the table: the
-- number of active students of no class in no session grows, but for the named class, which does
-- not grow past its capacity.
pub assign_to_arm-capacity :
    (e : Enrolment) (arm : ClassArm) (roll : Option ℕ) (c : Classes) (a session : ℕ)
    → IsRow (λ (r : Enrolment). r.pk) e c.enrolments
    → arm_occupancy a session (assign_to_arm e arm roll true c).1.enrolments
      ≤ max (arm_occupancy a session c.enrolments) (limit arm a)
assign_to_arm-capacity e arm roll c a session row = elim (assign_to_arm_cases e arm roll true c) [
  | inl (x, h) ↦ rw h (omega arith)
  | inr (inl (h, there)) ↦ rw h (omega arith)
  | inr (inr (s, open_, h)) ↦ rw h (
      omega (
        arith,
        seat_count e arm (roll_for roll e arm c) s c a session row,
        within a session e arm c (refusal_room e arm s c open_),
      ))
]
