-- ===== src/Academics/Timetable/Clashes.antt =====
-- No teacher, room or class is in two periods at once.
use mathlib.Core.Path.{subst}
use schapp.Base.{
  ℕ, ◌≡◌, refl, Bool, true, false, ◌&&◌, ◌||◌, not, Option, none, some, is_some, List, [], ◌∷◌,
  ◌==◌, All, arith, Bool-cases, Option-cases, inl, inr, list_cases, select_none, ◌≢◌, ltb, ◌∙◌, ◌<◌,
  ◌+◌, ==_iff, All_weaken, All_and, All-map_if, map_if, map_if-Others, or_else,
}
use schapp.Academics.Timetable.{
  TimetableEntry, Timetable, TimetableError, same_key, conflicts, overlaps, is_clash, is_valid,
  find_clashes, assert_no_clash, validate_entry, create_timetable_entry, update_timetable_entry,
  PeriodChange, requested, merged, names_times, names_required, change_error,
}

-- One resource in two periods: a teacher, a room, an arm, or a level taught as a whole.
abbrev pub shares : TimetableEntry → TimetableEntry → Bool
shares x y =
    same_key x.staff y.staff
    || same_key x.room y.room
    || same_key x.class_arm y.class_arm
    || (not (is_some x.class_arm) && not (is_some y.class_arm) && same_key x.level y.level)

-- There is a minute of the term's week in which both periods hold one resource.
abbrev pub collides : TimetableEntry → TimetableEntry → Bool
collides x y = (x.term == y.term) && (x.day == y.day) && overlaps x y && shares x y

-- A row's own rules, its key, and what sets it apart from the later rows.
abbrev pub Sound : ℕ → List TimetableEntry → Type 0
Sound n [] = Unit
Sound n (x ∷ xs) =
    (x.pk < n)
    × (is_valid x ≡ true)
    × All (λ y. (collides x y ≡ false) × ((y.pk == x.pk) ≡ false)) xs
    × Sound n xs

-- Every period ends after it starts, has its day and its class, and no two collide.
abbrev pub IsSound : Timetable → Type 0
IsSound t = Sound t.next_pk t.entries

same_key_comm : (a b : Option ℕ) → same_key a b ≡ same_key b a
same_key_comm none none = refl
same_key_comm none (some b) = refl
same_key_comm (some a) none = refl
same_key_comm (some a) (some b) = ground arith

eq_comm : (a b : ℕ) → (a == b) ≡ (b == a)
eq_comm a b = ground arith

and_comm : (a b : Bool) → (a && b) ≡ (b && a)
and_comm true true = refl
and_comm true false = refl
and_comm false true = refl
and_comm false false = refl

comm_bits :
    (t d o r s c n l t' d' o' r' s' c' n' l' : Bool)
    → t ≡ t'
    → d ≡ d'
    → o ≡ o'
    → r ≡ r'
    → s ≡ s'
    → c ≡ c'
    → n ≡ n'
    → l ≡ l'
    → (t && d && o && (r || s || c || (n && l)))
      ≡ (t' && d' && o' && (r' || s' || c' || (n' && l')))
comm_bits t d o r s c n l t' d' o' r' s' c' n' l' e1 e2 e3 e4 e5 e6 e7 e8 =
    rw (e1, e2, e3, e4, e5, e6, e7, e8) refl

collides_comm : (x y : TimetableEntry) → collides x y ≡ collides y x
collides_comm x y =
    comm_bits _ _ _ _ _ _ _ _ _ _ _ _ _ _ _ _ (eq_comm x.term y.term) (eq_comm x.day y.day)
      (and_comm (ltb y.start_time x.end_time) (ltb x.start_time y.end_time))
      (same_key_comm x.staff y.staff) (same_key_comm x.room y.room)
      (same_key_comm x.class_arm y.class_arm)
      (and_comm (not (is_some x.class_arm)) (not (is_some y.class_arm)))
      (same_key_comm x.level y.level)

or_class : (a b c d : Bool) → (a || b || c && d) ≡ (a || b || false || d && c)
or_class a b c d = ground arith

or_more : (a b c : Bool) → (a || b || c) ≡ (a || b || c || false)
or_more a b c = ground arith

class_lem : (x y : TimetableEntry) → conflicts x y ≡ shares x y
class_lem x y = elim (Option-cases x.class_arm) [
  | inl e ↦ rw e (
      or_class (same_key x.staff y.staff) (same_key x.room y.room) (same_key x.level y.level)
        (not (is_some y.class_arm)))
  | inr (a, e) ↦ rw e (or_more (same_key x.staff y.staff) (same_key x.room y.room) _)
]

clash_bits :
    (t d o t' d' k : Bool) {c s : Bool}
    → t ≡ t'
    → d ≡ d'
    → c ≡ s
    → k ≡ false
    → (t' && d' && o && c && not k) ≡ false
    → (t && d && o && s) ≡ false
clash_bits t d o t' d' k e1 e2 e3 f h = ground arith

some≢none : (x : TimetableError) → ◌≢◌ {A = Option TimetableError} (some x) none
some≢none x = λ h. cc

-- The code's test on other rows.
is_clash_lem :
    (x y : TimetableEntry) → is_clash x y ≡ false → (y.pk == x.pk) ≡ false → collides x y ≡ false
is_clash_lem x y h apart =
    clash_bits _ _ (overlaps x y) _ _ _ (eq_comm x.term y.term) (eq_comm x.day y.day)
      (class_lem x y) apart h

-- A period that is let through collides with no other row.
validate_entry-free :
    (e : TimetableEntry) (rows : List TimetableEntry)
    → validate_entry e rows ≡ none
    → (is_valid e ≡ true) × All (λ y. is_clash e y ≡ false) rows
unfolding validate_entry
validate_entry-free e rows h = elim (Bool-cases (is_valid e)) [
  | inr bad ↦ absurd (some≢none _ (rw bad at h))
  | inl good ↦ elim (list_cases (find_clashes e rows)) [
    | inl nothing ↦ (good, select_none (is_clash e) rows nothing)
    | inr (c, cs, found) ↦ absurd (some≢none _ (rw (good, assert_no_clash, found) at h))
  ]
]

Sound_grow : (n : ℕ) (rows : List TimetableEntry) → Sound n rows → Sound (n + 1) rows
Sound_grow n [] s = tt
Sound_grow n (x ∷ xs) s = (omega (arith, s.0), s.1, s.2, Sound_grow n xs s.3)

unequal : {a b : ℕ} → a < b → (a == b) ≡ false
unequal lt = ground arith

Sound_keys :
    (n : ℕ) (rows : List TimetableEntry)
    → Sound n rows
    → All (λ (y : TimetableEntry). (y.pk == n) ≡ false) rows
Sound_keys n [] s = tt
Sound_keys n (x ∷ xs) s = (unequal s.0, Sound_keys n xs s.3)

replaced :
    (e : TimetableEntry) (n : ℕ) (rows : List TimetableEntry)
    → is_valid e ≡ true
    → All (λ y. is_clash e y ≡ false) rows
    → Sound n rows
    → Sound n (map_if (λ r. r.pk == e.pk) (λ _. e) rows)
replaced e n [] good free s = tt
replaced e n (x ∷ xs) good free s = elim (Bool-cases (x.pk == e.pk)) [
  | inl hit ↦
      let same = (==_iff x.pk e.pk).0 hit in
      let others =
        subst (λ k. All (λ (y : TimetableEntry). (y.pk == k) ≡ false) xs) same
          (All_weaken _ _ xs (λ y h. h.1) s.2) in
      rw (hit, map_if-Others (λ (r : TimetableEntry). r.pk) e (λ _. e) xs others)
        (
          rw (← same) s.0,
          good,
          All_weaken _ _ xs (λ y h. (is_clash_lem e y h.0 h.1, h.1)) (All_and _ _ xs free.1 others),
          s.3,
        )
  | inr miss ↦ rw miss (
    s.0,
    s.1,
    All-map_if (λ (y : TimetableEntry). (collides x y ≡ false) × ((y.pk == x.pk) ≡ false))
        (λ (y : TimetableEntry). (collides x y ≡ false) × ((y.pk == x.pk) ≡ false))
        (λ r. r.pk == e.pk) (λ _. e) xs
        (λ y h hit. (collides_comm x e ∙ is_clash_lem e x free.0 miss, eq_comm e.pk x.pk ∙ miss))
        (λ y h other. h) s.2,
    replaced e n xs good free.1 s.3,
  )
]

-- A period that `create_timetable_entry` adds, or refuses, leaves a sound timetable.
pub create_timetable_entry-IsSound :
    (fields : TimetableEntry) (t : Timetable)
    → IsSound t
    → IsSound (create_timetable_entry fields t).1
unfolding create_timetable_entry
create_timetable_entry-IsSound fields t s =
    let e = record fields { pk = t.next_pk } in
    elim (Option-cases (validate_entry e t.entries)) [
      | inr (x, bad) ↦ rw (create_timetable_entry, bad) s
      | inl fine ↦
          let free = validate_entry-free e t.entries fine in
          rw (create_timetable_entry, fine)
            (
              omega arith,
              free.0,
              All_weaken _ _ t.entries (λ y h. (is_clash_lem e y h.0 h.1, h.1))
                  (All_and _ _ t.entries free.1 (Sound_keys t.next_pk t.entries s)),
              Sound_grow t.next_pk t.entries s,
            )
    ]

-- A request that names every column that may be empty.
abbrev pub is_whole : PeriodChange → Bool
is_whole c = is_some c.staff && is_some c.class_arm && is_some c.level && is_some c.room

or_else-some : {A : Type 0} (o : Option A) (a b : A) → is_some o ≡ true → or_else o a ≡ or_else o b
or_else-some none a b h = cc
or_else-some (some x) a b h = refl

whole_parts :
    (s a l r : Bool) → (s && a && l && r) ≡ true → (s ≡ true) × (a ≡ true) × (l ≡ true) × (r ≡ true)
whole_parts s a l r h = (ground arith, ground arith, ground arith, ground arith)

-- Of such a request, what is validated is what is saved.
merged_lem :
    (c : PeriodChange) (x : TimetableEntry)
    → is_whole c ≡ true
    → names_times c ≡ true
    → names_required c ≡ true
    → merged c x ≡ requested x.pk c
merged_lem c x whole times named =
    let w = whole_parts (is_some c.staff) _ _ _ whole in
    let t : (is_some c.start_time ≡ true) × (is_some c.end_time ≡ true) =
      (ground arith, ground arith) in
    let n : (is_some c.term ≡ true) × (is_some c.day ≡ true) × (is_some c.subject ≡ true) =
      (ground arith, ground arith, ground arith) in
    rw
      (
        or_else-some c.term x.term 0 n.0,
        or_else-some c.day x.day 0 n.1,
        or_else-some c.start_time x.start_time 0 t.0,
        or_else-some c.end_time x.end_time 0 t.1,
        or_else-some c.subject x.subject 0 n.2,
        or_else-some c.staff x.staff none w.0,
        or_else-some c.class_arm x.class_arm none w.1,
        or_else-some c.level x.level none w.2,
        or_else-some c.room x.room none w.3,
      )
      refl

-- What a change that is let through has passed.
change_error-free :
    (pk : ℕ) (c : PeriodChange) (rows : List TimetableEntry)
    → change_error pk c rows ≡ none
    → (names_times c ≡ true)
      × (names_required c ≡ true)
      × (validate_entry (requested pk c) rows ≡ none)
change_error-free pk c rows h = elim (Bool-cases (names_times c)) [
  | inr bad ↦ absurd (some≢none _ (rw bad at h))
  | inl times ↦ elim (Bool-cases (names_required c)) [
    | inr bad ↦ absurd (some≢none _ (rw (times, bad) at h))
    | inl named ↦ (times, named, rw (times, named) at h)
  ]
]

-- A change that names every column that may be empty, carried out or refused, leaves a sound
-- timetable.
pub update_timetable_entry-IsSound :
    (x : TimetableEntry) (c : PeriodChange) (t : Timetable)
    → is_whole c ≡ true
    → IsSound t
    → IsSound (update_timetable_entry x c t).1
unfolding update_timetable_entry
update_timetable_entry-IsSound x c t whole s = elim (Option-cases (change_error x.pk c t.entries)) [
  | inr (e, bad) ↦ rw (update_timetable_entry, bad) s
  | inl fine ↦
      let let_through = change_error-free x.pk c t.entries fine in
      let free = validate_entry-free (requested x.pk c) t.entries let_through.2 in
      rw (update_timetable_entry, fine, merged_lem c x whole let_through.0 let_through.1)
        (replaced (requested x.pk c) t.next_pk t.entries free.0 free.1 s)
]

-- What the office does to a timetable, one request after another; a change is of the period that
-- was read.
pub data Edit : Type 0 where
  create : TimetableEntry → Edit
  update : TimetableEntry → PeriodChange → Edit

abbrev pub edit : Edit → Timetable → Timetable
edit (create fields) t = (create_timetable_entry fields t).1
edit (update x c) t = (update_timetable_entry x c t).1

abbrev pub edits : List Edit → Timetable → Timetable
edits [] t = t
edits (x ∷ xs) t = edits xs (edit x t)

abbrev pub is_whole_edit : Edit → Bool
is_whole_edit (create fields) = true
is_whole_edit (update x c) = is_whole c

-- Any sequence of created and changed periods, refused ones among them, in which every change names
-- the teacher, the room, the arm and the level, if only as empty, leaves a sound timetable: every
-- period ends after it starts and has a day and an arm or a level, and no teacher, no room, no arm
-- and no level that is taught as a whole is in two periods at once. A period of an arm and one of
-- its whole level may overlap.
pub edits-IsSound :
    (xs : List Edit) (t : Timetable)
    → All (λ x. is_whole_edit x ≡ true) xs
    → IsSound t
    → IsSound (edits xs t)
edits-IsSound [] t whole s = s
edits-IsSound (create fields ∷ xs) t whole s =
    edits-IsSound xs (create_timetable_entry fields t).1 whole.1
      (create_timetable_entry-IsSound fields t s)
edits-IsSound (update x c ∷ xs) t whole s =
    edits-IsSound xs (update_timetable_entry x c t).1 whole.1
      (update_timetable_entry-IsSound x c t whole.0 s)
