-- ===== src/Academics/Prerequisites/Cycles.antt =====
-- The walk raises where the prerequisites lead back to the subject, and nowhere else.
use mathlib.Core.Path.{subst}
use schapp.Base.{
  ℕ, suc, zero, ==_refl, ==_iff, ◌==◌, sym, some, none, Option, ◌≡◌, refl, List, [], ◌∷◌, ◌++◌,
  ◌||◌, ◌&&◌, not, Bool, true, false, Bool-cases, inl, inr, any, All, All_weaken, arith, ap, ◌∙◌,
  ◌≢◌, ◌↔◌, Option-cases, is_some,
}
use schapp.Academics.Registration.{Subject, member}
use schapp.Academics.Prerequisites.{required_by, next_frontier, walk, walk_fuel, closes_cycle}
use schapp.Academics.Prerequisites.Walk.{member-append, closes_cycle-ends}

-- A row of the catalogue that a subject under the key `k` lists as its own prerequisite.
abbrev pub requires : List Subject → ℕ → ℕ → Bool
requires catalogue k j =
    any (λ (f : Subject). (f.pk == k) && member j f.prerequisites) catalogue
    && any (λ (s : Subject). s.pk == j) catalogue

-- What the proposed prerequisites lead to.
pub data Leads (catalogue : List Subject) (ids : List ℕ) : ℕ → Type 0 where
  proposed : {k : ℕ} → member k ids ≡ true → Leads catalogue ids k
  further :
      {k j : ℕ} → Leads catalogue ids k → requires catalogue k j ≡ true → Leads catalogue ids j

-- What the loop keeps: everything seen or on the frontier is led to.
abbrev AllLed : List Subject → List ℕ → List ℕ → Type 0
AllLed catalogue ids xs = All (λ k. Leads catalogue ids k) xs

and_left : (a b : Bool) → (a && b) ≡ true → a ≡ true
and_left a b h = ground arith

and_right : (a b : Bool) → (a && b) ≡ true → b ≡ true
and_right a b h = ground arith

or_right : (a b : Bool) → b ≡ true → (a || b) ≡ true
or_right a b h = ground arith

or_left : (a b : Bool) → a ≡ true → (a || b) ≡ true
or_left a b h = ground arith

both : {a b : Bool} → a ≡ true → b ≡ true → (a && b) ≡ true
both h i = ground arith

required_by-row :
    (catalogue : List Subject) (frontier : List ℕ) (j : ℕ) (rows : List Subject)
    → any (λ (f : Subject). member f.pk frontier && member j f.prerequisites) rows ≡ true
    → (k : ℕ) × (member k frontier ≡ true)
      × (any (λ (f : Subject). (f.pk == k) && member j f.prerequisites) rows ≡ true)
required_by-row catalogue frontier j [] h = cc
required_by-row catalogue frontier j (f ∷ rows) h =
    elim (Bool-cases (member f.pk frontier && member j f.prerequisites)) [
      | inl e ↦ (
        f.pk,
        and_left _ _ e,
        or_left _ _ (both (==_refl f.pk) (and_right (member f.pk frontier) _ e)),
      )
      | inr e ↦
          let rest = required_by-row catalogue frontier j rows (rw e at h) in
          (rest.0, rest.1, or_right _ _ rest.2)
    ]

All-member : (P : ℕ → Type 0) (k : ℕ) (xs : List ℕ) → All P xs → member k xs ≡ true → P k
All-member P k [] h e = cc
All-member P k (x ∷ xs) h e = elim (Bool-cases (x == k)) [
  | inl i ↦ subst P ((==_iff x k).0 i) h.0
  | inr i ↦ All-member P k xs h.1 (rw i at e)
]

next-AllLed :
    (catalogue : List Subject) (ids seen frontier : List ℕ) (rows : List Subject)
    → All (λ (s : Subject). any (λ (r : Subject). r.pk == s.pk) catalogue ≡ true) rows
    → AllLed catalogue ids frontier
    → AllLed catalogue ids (next_frontier catalogue seen frontier rows)
next-AllLed catalogue ids seen frontier [] rows led = tt
next-AllLed catalogue ids seen frontier (s ∷ rest) rows led =
    elim (Bool-cases (required_by catalogue frontier s.pk && not (member s.pk seen))) [
      | inr e ↦ rw e (next-AllLed catalogue ids seen frontier rest rows.1 led)
      | inl e ↦
          let from = required_by-row catalogue frontier s.pk catalogue (and_left _ _ e) in
          rw e (
            further (All-member (λ k. Leads catalogue ids k) from.0 frontier led from.1)
                (both from.2 rows.0),
            next-AllLed catalogue ids seen frontier rest rows.1 led,
          )
    ]

self_rows :
    (rows : List Subject)
    → All (λ (s : Subject). any (λ (r : Subject). r.pk == s.pk) rows ≡ true) rows
self_rows [] = tt
self_rows (s ∷ rows) =
    (rw (==_refl s.pk) refl, All_weaken _ _ rows (λ x h. or_right _ _ h) (self_rows rows))

-- The walk raises at what is led to.
walk_sound :
    (fuel : ℕ) (catalogue : List Subject) (target : ℕ) (ids seen frontier : List ℕ)
    → AllLed catalogue ids frontier
    → walk fuel catalogue target seen frontier ≡ some true
    → Leads catalogue ids target
unfolding walk
walk_sound zero catalogue target ids seen frontier led h = cc
walk_sound (suc fuel) catalogue target ids seen [] led h = cc
walk_sound (suc fuel) catalogue target ids seen (f ∷ fs) led h =
    elim (Bool-cases (member target (f ∷ fs))) [
      | inl e ↦ All-member (λ k. Leads catalogue ids k) target (f ∷ fs) led e
      | inr e ↦
          walk_sound fuel catalogue target ids ((f ∷ fs) ++ seen) _
            (next-AllLed catalogue ids ((f ∷ fs) ++ seen) (f ∷ fs) catalogue (self_rows catalogue)
              led)
            (rw e at h)
    ]

true≢false : true ≢ false
true≢false = λ e. cc

none≢some : {b : Bool} → ◌≢◌ {A = Option Bool} none (some b)
none≢some = λ e. cc

some-inj : {a b : Bool} → some a ≡ some b → a ≡ b
some-inj h = cc

or_false : {a b : Bool} → (a || b) ≡ true → a ≡ false → b ≡ true
or_false h i = ground arith

old :
    (k : ℕ) (frontier seen : List ℕ)
    → member k (frontier ++ seen) ≡ true
    → member k frontier ≡ false
    → member k seen ≡ true
old k frontier seen h back = or_false (sym (member-append k frontier seen) ∙ h) back

-- A subject of the frontier brings what it requires.
frontier-requires :
    (frontier : List ℕ) (k j : ℕ) (rows : List Subject)
    → member k frontier ≡ true
    → any (λ (f : Subject). (f.pk == k) && member j f.prerequisites) rows ≡ true
    → any (λ (f : Subject). member f.pk frontier && member j f.prerequisites) rows ≡ true
frontier-requires frontier k j [] i h = h
frontier-requires frontier k j (f ∷ rows) i h =
    elim (Bool-cases ((f.pk == k) && member j f.prerequisites)) [
      | inl e ↦ or_left _ _ (
          both (ap (λ n. member n frontier) ((==_iff f.pk k).0 (and_left _ _ e)) ∙ i)
            (and_right (f.pk == k) _ e))
      | inr e ↦ or_right _ _ (frontier-requires frontier k j rows i (rw e at h))
    ]

next_frontier-has :
    (catalogue : List Subject) (seen frontier : List ℕ) (j : ℕ) (rows : List Subject)
    → any (λ (s : Subject). s.pk == j) rows ≡ true
    → required_by catalogue frontier j ≡ true
    → member j seen ≡ false
    → member j (next_frontier catalogue seen frontier rows) ≡ true
next_frontier-has catalogue seen frontier j [] h r m = h
next_frontier-has catalogue seen frontier j (s ∷ rows) h r m = elim (Bool-cases (s.pk == j)) [
  | inl e ↦ let same = (==_iff s.pk j).0 e in rw (same, r, m, ==_refl j) refl
  | inr e ↦
      let rest = next_frontier-has catalogue seen frontier j rows (rw e at h) r m in
      elim (Bool-cases (required_by catalogue frontier s.pk && not (member s.pk seen))) [
        | inl i ↦ rw (i, e) rest
        | inr i ↦ rw i rest
      ]
]

-- What the loop keeps: the subject is not seen, the proposed are seen or on the frontier, and so is
-- all that a seen subject requires.
record Open (catalogue : List Subject) (target : ℕ) (ids seen frontier : List ℕ) : Type 0 where
  away : member target seen ≡ false
  start : All (λ k. member k (frontier ++ seen) ≡ true) ids
  closed :
      (k j : ℕ)
      → member k seen ≡ true
      → requires catalogue k j ≡ true
      → member j (frontier ++ seen) ≡ true

next-Open :
    (catalogue : List Subject) (target : ℕ) (ids seen frontier : List ℕ)
    → member target frontier ≡ false
    → Open catalogue target ids seen frontier
    → Open catalogue target ids
        (frontier ++ seen)
        (next_frontier catalogue (frontier ++ seen) frontier catalogue)
next-Open catalogue target ids seen frontier off v =
    let more = next_frontier catalogue (frontier ++ seen) frontier catalogue in
    record {
      away = rw (member-append target frontier seen, off) v.away;
      start =
          All_weaken _ _ ids (λ k h. rw (member-append k more (frontier ++ seen)) (or_right _ _ h))
            v.start;
      closed = λ k j i r. elim (Bool-cases (member j (frontier ++ seen))) [
        | inl there ↦ rw (member-append j more (frontier ++ seen)) (or_right _ _ there)
        | inr new ↦ elim (Bool-cases (member k frontier)) [
          | inl front ↦ rw (member-append j more (frontier ++ seen)) (
              or_left _ _ (
                next_frontier-has catalogue (frontier ++ seen) frontier j catalogue
                  (and_right _ _ r)
                  (frontier-requires frontier k j catalogue front (and_left _ _ r)) new))
          | inr back ↦ absurd (true≢false (sym (v.closed k j (old k frontier seen i back) r) ∙ new))
        ]
      ];
    }

seen-Leads :
    (catalogue : List Subject) (target : ℕ) (ids seen : List ℕ)
    → Open catalogue target ids seen []
    → {k : ℕ} → Leads catalogue ids k
    → member k seen ≡ true
seen-Leads catalogue target ids seen v (proposed {k} h) =
    All-member (λ k. member k seen ≡ true) k ids v.start h
seen-Leads catalogue target ids seen v (further {k} {j} led r) =
    v.closed k j (seen-Leads catalogue target ids seen v led) r

walk_complete :
    (fuel : ℕ) (catalogue : List Subject) (target : ℕ) (ids seen frontier : List ℕ)
    → Open catalogue target ids seen frontier
    → walk fuel catalogue target seen frontier ≡ some false
    → Leads catalogue ids target
    → ⊥
unfolding walk
walk_complete zero catalogue target ids seen frontier v h led = none≢some h
walk_complete (suc fuel) catalogue target ids seen [] v h led =
    true≢false (sym (seen-Leads catalogue target ids seen v led) ∙ v.away)
walk_complete (suc fuel) catalogue target ids seen (f ∷ fs) v h led =
    elim (Bool-cases (member target (f ∷ fs))) [
      | inl e ↦ true≢false (some-inj (rw e at h))
      | inr e ↦
          walk_complete fuel catalogue target ids ((f ∷ fs) ++ seen) _
            (next-Open catalogue target ids seen (f ∷ fs) e v) (rw e at h) led
    ]

self_members : (xs : List ℕ) → All (λ k. member k xs ≡ true) xs
self_members [] = tt
self_members (x ∷ xs) =
    (or_left _ _ (==_refl x), All_weaken _ _ xs (λ k h. or_right _ _ h) (self_members xs))

opened : (catalogue : List Subject) (pk : ℕ) (ids : List ℕ) → Open catalogue pk ids [] ids
opened catalogue pk ids = record {
  away = refl;
  start =
      All_weaken _ _ ids (λ k h. rw (member-append k ids []) (or_left _ _ h)) (self_members ids);
  closed = λ k j i r. absurd (true≢false (sym i));
}

unanswered : {o : Option Bool} → o ≡ none → is_some o ≡ true → ⊥
unanswered e h = true≢false (sym h ∙ ap is_some e)

-- The check of a saved subject raises exactly when the proposed prerequisites are, or lead through
-- the prerequisites in the catalogue to, the subject itself.
pub closes_cycle_iff :
    (catalogue : List Subject) (pk : ℕ) (ids : List ℕ)
    → (closes_cycle catalogue (some pk) ids ≡ some true) ↔ Leads catalogue ids pk
unfolding closes_cycle
closes_cycle_iff catalogue pk ids = (
  λ h.
      walk_sound (walk_fuel catalogue) catalogue pk ids [] ids
        (All_weaken _ _ ids (λ k m. proposed m) (self_members ids)) h,
  λ led. elim (Option-cases (closes_cycle catalogue (some pk) ids)) [
    | inl nothing ↦ absurd (unanswered nothing (closes_cycle-ends catalogue (some pk) ids))
    | inr (true, e) ↦ e
    | inr (false, e) ↦ absurd (
        walk_complete (walk_fuel catalogue) catalogue pk ids [] ids (opened catalogue pk ids) e led)
  ],
)
