-- ===== src/Academics/Prerequisites/Acyclic.antt =====
-- apps/academics/serializers.py `SubjectSerializer.validate`: an update that the check lets through
-- puts no cycle into the catalogue.
use mathlib.Core.Path.{subst}
use schapp.Base.{
  ℕ, ◌≡◌, ◌⊎◌, inl, inr, refl, sym, ◌∙◌, Bool, true, false, ◌&&◌, Option, some, List, [], ◌∷◌, ◌==◌,
  ==_iff, any, map_if, Bool-cases, arith, ◌||◌, ◌≢◌,
}
use schapp.Academics.Registration.{Subject, member}
use schapp.Academics.Prerequisites.{closes_cycle}
use schapp.Academics.Prerequisites.Cycles.{requires, Leads, closes_cycle_iff, proposed, further}

abbrev pub with_prerequisites : List ℕ → Subject → Subject
with_prerequisites ids s = record s { prerequisites = ids }

-- The write of the column, which the serializer's update makes after `validate`.
abbrev pub set_prerequisites : ℕ → List ℕ → List Subject → List Subject
set_prerequisites pk ids = map_if (λ s. s.pk == pk) (with_prerequisites ids)

-- One or more steps from a subject to one it requires.
pub data Chain (catalogue : List Subject) (k : ℕ) : ℕ → Type 0 where
  one : {j : ℕ} → requires catalogue k j ≡ true → Chain catalogue k j
  more : {i j : ℕ} → Chain catalogue k i → requires catalogue i j ≡ true → Chain catalogue k j

abbrev pub IsAcyclic : List Subject → Type 0
IsAcyclic catalogue = (k : ℕ) → Chain catalogue k k → ⊥

and_left : (a b : Bool) → (a && b) ≡ true → a ≡ true
and_left a b h = ground arith

and_right : (a b : Bool) → (a && b) ≡ true → b ≡ true
and_right a b h = ground arith

both : {a b : Bool} → a ≡ true → b ≡ true → (a && b) ≡ true
both h i = ground arith

false≢true : ◌≢◌ {A = Option Bool} (some false) (some true)
false≢true = λ h. cc

swapped : (pk k : ℕ) → (k == pk) ≡ false → (pk == k) ≡ false
swapped pk k h = ground arith

set_here : (a b : Bool) → (a || b) ≡ true → (b ≡ true → a ≡ true) → a ≡ true
set_here true b h f = refl
set_here false b h f = f h

rows_kept :
    (pk j : ℕ) (ids : List ℕ) (rows : List Subject)
    → any (λ (s : Subject). s.pk == j) (set_prerequisites pk ids rows)
      ≡ any (λ (s : Subject). s.pk == j) rows
rows_kept pk j ids [] = refl
rows_kept pk j ids (s ∷ rows) = elim (Bool-cases (s.pk == pk)) [
  | inl e ↦ rw (e, rows_kept pk j ids rows) refl
  | inr e ↦ rw (e, rows_kept pk j ids rows) refl
]

-- Another subject's requirements stay.
edges_kept :
    (pk k j : ℕ) (ids : List ℕ) (rows : List Subject)
    → (k == pk) ≡ false
    → any (λ (f : Subject). (f.pk == k) && member j f.prerequisites) (set_prerequisites pk ids rows)
      ≡ any (λ (f : Subject). (f.pk == k) && member j f.prerequisites) rows
edges_kept pk k j ids [] apart = refl
edges_kept pk k j ids (s ∷ rows) apart = elim (Bool-cases (s.pk == pk)) [
  | inl e ↦ rw (e, edges_kept pk k j ids rows apart, (==_iff s.pk pk).0 e, swapped pk k apart) refl
  | inr e ↦ rw (e, edges_kept pk k j ids rows apart) refl
]

-- The subject requires what was set.
edges_set :
    (pk j : ℕ) (ids : List ℕ) (rows : List Subject)
    → any
        (λ (f : Subject). (f.pk == pk) && member j f.prerequisites)
        (set_prerequisites pk ids rows)
      ≡ true
    → member j ids ≡ true
edges_set pk j ids [] h = cc
edges_set pk j ids (s ∷ rows) h = elim (Bool-cases (s.pk == pk)) [
  | inl e ↦ set_here (member j ids) _ (rw (e, e) at h) (edges_set pk j ids rows)
  | inr e ↦ edges_set pk j ids rows (rw (e, e) at h)
]

edge_cases :
    (pk k j : ℕ) (ids : List ℕ) (catalogue : List Subject)
    → requires (set_prerequisites pk ids catalogue) k j ≡ true
    → ((k ≡ pk) × (member j ids ≡ true)) ⊎ (requires catalogue k j ≡ true)
edge_cases pk k j ids catalogue h = elim (Bool-cases (k == pk)) [
  | inl e ↦
      let same = (==_iff k pk).0 e in
      inl (
        same,
        edges_set pk j ids catalogue (
            subst
              (λ n.
                any (λ (f : Subject). (f.pk == n) && member j f.prerequisites)
                  (set_prerequisites pk ids catalogue)
                ≡ true)
              same (and_left _ _ h)),
      )
  | inr e ↦ inr (
      both (sym (edges_kept pk k j ids catalogue e) ∙ and_left _ _ h)
        (sym (rows_kept pk j ids catalogue) ∙ and_right _ _ h))
]

-- Setting the prerequisites leads nowhere new from them.
Leads-back :
    (pk : ℕ) (ids : List ℕ) (catalogue : List Subject) {k : ℕ}
    → Leads (set_prerequisites pk ids catalogue) ids k
    → Leads catalogue ids k
Leads-back pk ids catalogue (proposed h) = proposed h
Leads-back pk ids catalogue (further {k} {j} led r) = elim (edge_cases pk k j ids catalogue r) [
  | inl (here, h) ↦ proposed h
  | inr old ↦ further (Leads-back pk ids catalogue led) old
]

-- From `k` to the subject itself, in no step or more.
abbrev To : List Subject → ℕ → ℕ → Type 0
To catalogue k pk = (k ≡ pk) ⊎ Chain catalogue k pk

-- A chain in the new catalogue is one in the old, or passes the subject.
Chain-cases :
    (pk k : ℕ) (ids : List ℕ) (catalogue : List Subject) {j : ℕ}
    → Chain (set_prerequisites pk ids catalogue) k j
    → Chain catalogue k j
      ⊎ (To (set_prerequisites pk ids catalogue) k pk
          × Leads (set_prerequisites pk ids catalogue) ids j)
Chain-cases pk k ids catalogue (one {j} r) = elim (edge_cases pk k j ids catalogue r) [
  | inl (here, h) ↦ inr (inl here, proposed h)
  | inr old ↦ inl (one old)
]
Chain-cases pk k ids catalogue (more {i} {j} c r) = elim (Chain-cases pk k ids catalogue c) [
  | inr (to, led) ↦ inr (to, further led r)
  | inl before ↦ elim (edge_cases pk i j ids catalogue r) [
    | inl (here, h) ↦
        inr (inr (subst (λ n. Chain (set_prerequisites pk ids catalogue) k n) here c), proposed h)
    | inr old ↦ inl (more before old)
  ]
]

Leads-Chain :
    (catalogue : List Subject) (ids : List ℕ) {k j : ℕ}
    → Leads catalogue ids k
    → Chain catalogue k j
    → Leads catalogue ids j
Leads-Chain catalogue ids led (one r) = further led r
Leads-Chain catalogue ids led (more c r) = further (Leads-Chain catalogue ids led c) r

Leads-To :
    (catalogue : List Subject) (ids : List ℕ) (k pk : ℕ)
    → Leads catalogue ids k
    → To catalogue k pk
    → Leads catalogue ids pk
Leads-To catalogue ids k pk led (inl same) = subst (λ n. Leads catalogue ids n) same led
Leads-To catalogue ids k pk led (inr c) = Leads-Chain catalogue ids led c

-- In a catalogue in which no subject requires itself, through others or directly, none does after
-- an update of a subject's prerequisites that the check lets through.
pub set_prerequisites-IsAcyclic :
    (pk : ℕ) (ids : List ℕ) (catalogue : List Subject)
    → IsAcyclic catalogue
    → closes_cycle catalogue (some pk) ids ≡ some false
    → IsAcyclic (set_prerequisites pk ids catalogue)
set_prerequisites-IsAcyclic pk ids catalogue acyclic passed k c =
    elim (Chain-cases pk k ids catalogue c) [
      | inl old ↦ acyclic k old
      | inr (to, led) ↦
          let back =
            Leads-back pk ids catalogue
              (Leads-To (set_prerequisites pk ids catalogue) ids k pk led to) in
          false≢true (sym passed ∙ (closes_cycle_iff catalogue pk ids).1 back)
    ]
