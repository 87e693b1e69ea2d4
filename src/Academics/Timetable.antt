-- ===== src/Academics/Timetable.antt =====
-- apps/academics/models.py and services.py: the periods of a timetable. Times are minutes of the
-- day.
--
-- A period is given with its key: a new row's is the next one. That the rows a period names exist
-- is the database's to check, and is left out.
pub mod Clashes
use schapp.Base.{
  ℕ, Bool, true, false, ◌&&◌, ◌||◌, not, Option, none, some, List, [], ◌∷◌, ◌==◌, leb, ltb, ◌+◌,
  any, select, map_if, if◌then◌else◌, opt_eq, is_some, or_else,
}
use schapp.Db.{Result, ok, err, Action}

pub record TimetableEntry : Type 0 where
  pub pk : ℕ
  pub term : ℕ
  pub day : ℕ
  pub start_time : ℕ
  pub end_time : ℕ
  pub subject : ℕ
  pub staff : Option ℕ
  pub class_arm : Option ℕ
  pub level : Option ℕ
  pub room : Option ℕ

pub data ClashReason : Type 0 where
  teacher room class : ClashReason

-- `type_error` is Python's, from the comparison of a time with None.
pub data TimetableError : Type 0 where
  invalid_period : TimetableError
  type_error : TimetableError
  timetable_clash : List (ℕ × ClashReason) → TimetableError

pub record Timetable : Type 0 where
  pub entries : List TimetableEntry
  pub next_pk : ℕ

-- `Weekday`
abbrev pub is_weekday : ℕ → Bool
is_weekday day = leb 1 day && leb day 6

-- `TimetableEntry.clean`, with the choice of days.
abbrev pub is_valid : TimetableEntry → Bool
is_valid e =
    is_weekday e.day
    && not (leb e.end_time e.start_time)
    && (is_some e.class_arm || is_some e.level)

-- A filter on a column that is set.
abbrev pub same_key : Option ℕ → Option ℕ → Bool
same_key none b = false
same_key (some a) b = opt_eq b (some a)

abbrev class_conflict : Option ℕ → TimetableEntry → TimetableEntry → Bool
class_conflict (some arm) e other = opt_eq other.class_arm (some arm)
class_conflict none e other = same_key e.level other.level && not (is_some other.class_arm)

-- The disjunction `conflicts`: with none of its parts it selects nothing.
abbrev pub conflicts : TimetableEntry → TimetableEntry → Bool
conflicts e other =
    same_key e.staff other.staff || same_key e.room other.room || class_conflict e.class_arm e other

abbrev pub overlaps : TimetableEntry → TimetableEntry → Bool
overlaps e other = ltb other.start_time e.end_time && ltb e.start_time other.end_time

abbrev pub is_clash : TimetableEntry → TimetableEntry → Bool
is_clash e other =
    (other.term == e.term)
    && (other.day == e.day)
    && overlaps e other
    && conflicts e other
    && not (other.pk == e.pk)

abbrev pub find_clashes : TimetableEntry → List TimetableEntry → List TimetableEntry
find_clashes e entries = select (is_clash e) entries

-- `_clash_reason`
abbrev pub clash_reason : TimetableEntry → TimetableEntry → ClashReason
clash_reason e other =
    if same_key e.staff other.staff
    then teacher
    else if same_key e.room other.room
    then room
    else class

abbrev clash_rows : TimetableEntry → List TimetableEntry → List (ℕ × ClashReason)
clash_rows e [] = []
clash_rows e (c ∷ cs) = (c.pk, clash_reason e c) ∷ clash_rows e cs

abbrev pub assert_no_clash : TimetableEntry → List TimetableEntry → Option TimetableError
assert_no_clash e entries = elim (find_clashes e entries) [
  | [] ↦ none
  | c ∷ cs ↦ some (timetable_clash (clash_rows e (c ∷ cs)))
]

unfoldable pub validate_entry : TimetableEntry → List TimetableEntry → Option TimetableError
validate_entry e entries =
    if not (is_valid e) then some invalid_period else assert_no_clash e entries

unfoldable pub create_timetable_entry :
    TimetableEntry → Action Timetable TimetableError TimetableEntry
unfolding validate_entry
create_timetable_entry fields t =
    let e = record fields { pk = t.next_pk } in
    elim (validate_entry e t.entries) [
      | some x ↦ (err x, t)
      | none ↦ (ok e, record { entries = e ∷ t.entries; next_pk = t.next_pk + 1 })
    ]

-- The columns that a request to change a period names: `serializer.validated_data`.
pub record PeriodChange : Type 0 where
  pub term : Option ℕ
  pub day : Option ℕ
  pub start_time : Option ℕ
  pub end_time : Option ℕ
  pub subject : Option ℕ
  pub staff : Option (Option ℕ)
  pub class_arm : Option (Option ℕ)
  pub level : Option (Option ℕ)
  pub room : Option (Option ℕ)

-- A column that is not named is empty in the period that is validated. The zeros are never read:
-- without these columns the validation raises before.
abbrev pub requested : ℕ → PeriodChange → TimetableEntry
requested pk c = record {
  pk = pk;
  term = or_else c.term 0;
  day = or_else c.day 0;
  start_time = or_else c.start_time 0;
  end_time = or_else c.end_time 0;
  subject = or_else c.subject 0;
  staff = or_else c.staff none;
  class_arm = or_else c.class_arm none;
  level = or_else c.level none;
  room = or_else c.room none;
}

-- A column that is not named keeps its value in the period that is saved.
abbrev pub merged : PeriodChange → TimetableEntry → TimetableEntry
merged c old = record {
  pk = old.pk;
  term = or_else c.term old.term;
  day = or_else c.day old.day;
  start_time = or_else c.start_time old.start_time;
  end_time = or_else c.end_time old.end_time;
  subject = or_else c.subject old.subject;
  staff = or_else c.staff old.staff;
  class_arm = or_else c.class_arm old.class_arm;
  level = or_else c.level old.level;
  room = or_else c.room old.room;
}

abbrev pub names_times : PeriodChange → Bool
names_times c = is_some c.start_time && is_some c.end_time

abbrev pub names_required : PeriodChange → Bool
names_required c = is_some c.term && is_some c.day && is_some c.subject

-- `full_clean` runs `clean`, which compares the times, also where a column is missing.
abbrev pub change_error : ℕ → PeriodChange → List TimetableEntry → Option TimetableError
change_error pk c entries =
    if not (names_times c)
    then some type_error
    else if not (names_required c)
    then some invalid_period
    else validate_entry (requested pk c) entries

-- `TimetableEntryViewSet.perform_update`: what is validated is the request's columns, and what is
-- saved is the period that was read with those columns written.
unfoldable pub update_timetable_entry :
    TimetableEntry → PeriodChange → Action Timetable TimetableError TimetableEntry
unfolding validate_entry
update_timetable_entry old c t = elim (change_error old.pk c t.entries) [
  | some x ↦ (err x, t)
  | none ↦ (
    ok (merged c old),
    record t { entries = map_if (λ r. r.pk == old.pk) (λ _. merged c old) t.entries },
  )
]
