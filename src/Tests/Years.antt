-- ===== src/Tests/Years.antt =====
-- A school at the end of one year, with the terms of the next.
use schapp.Base.{ℕ, refl, none, some, [], ◌∷◌, true, false, ap, or_else, ◌==◌, if◌then◌else◌, ◌+◌}
use schapp.Academics.Calendar.{
  AcademicSession, Term, Calendar, term_for_today, set_current_session, set_current_term,
}
use schapp.Academics.Calendar.Current.{
  Shows, key_of, set_current_session-Shows, set_current_term-Shows,
}

abbrev old_year : AcademicSession
old_year = record { pk = 1; start_date = 0; end_date = 99; is_current = true }

abbrev new_year : AcademicSession
new_year = record { pk = 2; start_date = 100; end_date = 199; is_current = false }

abbrev pub term_of : ℕ → ℕ → ℕ → ℕ → Term
term_of pk session index start = record {
  pk = pk;
  session = session;
  index = index;
  start_date = start;
  end_date = start + 30;
  registration_opens_at = none;
  registration_closes_at = none;
  result_entry_opens_at = none;
  result_entry_closes_at = none;
  results_published_at = none;
  is_current = false;
}

abbrev last_term : Term
last_term = record (term_of 13 1 3 60) { is_current = true }

abbrev calendar : Calendar
calendar = record {
  sessions = old_year ∷ new_year ∷ [];
  terms = last_term ∷ term_of 22 2 2 140 ∷ term_of 21 2 1 100 ∷ [];
  audit = [];
}

abbrev year_of : ℕ → ℕ
year_of pk = if pk == 13 then 1 else 2

abbrev calendar-Shows : Shows calendar (record { session = some 1; term = some 13 })
calendar-Shows = record {
  owner = year_of;
  owned = (refl, (refl, (refl, tt)));
  sessions = (refl, (refl, tt));
  terms = (refl, (refl, (refl, tt)));
  inside = λ p h. ap (λ k. some (year_of (or_else k 13))) h;
}

set_current_session-Shows_example :
    Shows
      (set_current_session 145 new_year calendar)
      (record { session = some 2; term = key_of (term_for_today 145 2 calendar.terms) })
set_current_session-Shows_example =
    set_current_session-Shows 145 new_year calendar (record { session = some 1; term = some 13 })
      calendar-Shows

set_current_term-Shows_example :
    Shows
      (set_current_term (term_of 21 2 1 100) calendar)
      (record { session = some 2; term = some 21 })
set_current_term-Shows_example =
    set_current_term-Shows (term_of 21 2 1 100) calendar
      (record { session = some 1; term = some 13 }) calendar-Shows refl
