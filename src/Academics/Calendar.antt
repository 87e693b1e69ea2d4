-- ===== src/Academics/Calendar.antt =====
-- apps/academics/models.py and services.py: the current session and the current term.
--
-- A save of an object writes the row with its key; a term's `session` is the row with that key.
pub mod Current
pub mod Chosen
use schapp.Base.{
  ℕ, Bool, true, false, ◌&&◌, not, Option, none, some, List, [], ◌∷◌, ◌==◌, leb, ltb, any, find,
  map_if, select, if◌then◌else◌,
}

pub record AcademicSession : Type 0 where
  pub pk : ℕ
  pub start_date : ℕ
  pub end_date : ℕ
  pub is_current : Bool

pub record Term : Type 0 where
  pub pk : ℕ
  pub session : ℕ
  pub index : ℕ
  pub start_date : ℕ
  pub end_date : ℕ
  pub registration_opens_at : Option ℕ
  pub registration_closes_at : Option ℕ
  pub result_entry_opens_at : Option ℕ
  pub result_entry_closes_at : Option ℕ
  pub results_published_at : Option ℕ
  pub is_current : Bool

pub data CalendarAction : Type 0 where
  session_set_current : CalendarAction
  term_set_current : CalendarAction

pub record Calendar : Type 0 where
  pub sessions : List AcademicSession
  pub terms : List Term
  pub audit : List (CalendarAction × ℕ)

abbrev opens_later : ℕ → Option ℕ → Bool
opens_later now none = false
opens_later now (some at) = ltb now at

abbrev closed_before : ℕ → Option ℕ → Bool
closed_before now none = false
closed_before now (some at) = ltb at now

-- `_window_is_open`
abbrev pub window_is_open : ℕ → Option ℕ → Option ℕ → Bool
window_is_open now opens_at closes_at =
    not (opens_later now opens_at) && not (closed_before now closes_at)

abbrev pub accepts_registration : ℕ → Term → Bool
accepts_registration now t = window_is_open now t.registration_opens_at t.registration_closes_at

abbrev pub accepts_scores : ℕ → Term → Bool
accepts_scores now t = window_is_open now t.result_entry_opens_at t.result_entry_closes_at

abbrev pub set_session : Bool → AcademicSession → AcademicSession
set_session flag s = record s { is_current = flag }

abbrev pub set_term : Bool → Term → Term
set_term flag t = record t { is_current = flag }

-- `AcademicSession.save` of an object whose `is_current` has been set.
unfoldable pub save_current_session : ℕ → Calendar → Calendar
save_current_session pk c = record c {
  sessions =
      map_if (λ s. not (s.pk == pk) && s.is_current) (set_session false)
        (map_if (λ s. s.pk == pk) (set_session true) c.sessions);
  terms = map_if (λ t. t.is_current && not (t.session == pk)) (set_term false) c.terms;
}

abbrev pub session_is_current : ℕ → List AcademicSession → Bool
session_is_current pk = any (λ s. s.pk == pk && s.is_current)

-- `Term.save` of an object whose `is_current` has been set.
unfoldable pub save_current_term : Term → Calendar → Calendar
unfolding save_current_session
save_current_term self c =
    let saved = record c {
      terms =
          map_if (λ t. not (t.pk == self.pk) && t.is_current) (set_term false)
            (map_if (λ t. t.pk == self.pk) (set_term true) c.terms);
    } in
    if session_is_current self.session c.sessions
    then saved
    else save_current_session self.session saved

-- `order_by("index").first()`
unfoldable pub earliest : List Term → Option Term
earliest [] = none
earliest (t ∷ ts) = elim (earliest ts) [
  | none ↦ some t
  | some u ↦ some (if leb t.index u.index then t else u)
]

abbrev pub or_term : Option Term → Option Term → Option Term
or_term none u = u
or_term (some t) u = some t

-- `_term_for_today`
unfoldable pub term_for_today : ℕ → ℕ → List Term → Option Term
unfolding earliest
term_for_today today session terms =
    let own = select (λ t. t.session == session) terms in
    or_term (earliest (select (λ t. leb t.start_date today && leb today t.end_date) own))
      (earliest own)

abbrev pub record_calendar : CalendarAction → ℕ → Calendar → Calendar
record_calendar a pk c = record c { audit = (a, pk) ∷ c.audit }

abbrev pub promote : Option Term → Calendar → Calendar
promote none c = c
promote (some t) c = if t.is_current then c else save_current_term t c

unfoldable pub set_current_session : ℕ → AcademicSession → Calendar → Calendar
unfolding save_current_session term_for_today save_current_term
set_current_session today session c =
    let rolled = save_current_session session.pk c in
    record_calendar session_set_current session.pk
      (promote (term_for_today today session.pk rolled.terms) rolled)

unfoldable pub set_current_term : Term → Calendar → Calendar
unfolding save_current_term
set_current_term term c = record_calendar term_set_current term.pk (save_current_term term c)
