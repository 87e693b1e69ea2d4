-- ===== src/Academics/Calendar/Current.antt =====
-- The flags on the rows say one thing: which session and which term the school is in.
use schapp.Academics.Calendar.Chosen.{term_for_today-none, term_for_today_All}
use mathlib.Core.Path.{subst}
use schapp.Base.{
  ℕ, ◌≡◌, ◌≢◌, refl, sym, ap, ◌∙◌, true, false, ◌&&◌, not, Option, none, some, List, [], ◌∷◌, ◌==◌,
  ==_iff, map_if, select, opt_eq, if◌then◌else◌, arith, Bool-cases, Option-cases, inl, inr, All,
  All-map_if, All_trivial, All_weaken, All_and, ◌⊎◌, select-map_if,
}
use schapp.Academics.Calendar.{
  AcademicSession, Term, Calendar, set_session, set_term, save_current_session, save_current_term,
  session_is_current, earliest, term_for_today, promote, set_current_session, set_current_term,
  CalendarAction, or_term, session_set_current, term_set_current, leb, record_calendar,
}

-- Where a school is: its session and its term, if any.
pub record Now : Type 0 where
  pub session : Option ℕ
  pub term : Option ℕ

-- The flags of a calendar say `now`, and the term lies in the session. A term's key, under which
-- there is one row, determines its session.
pub record Shows (c : Calendar) (now : Now) : Type 0 where
  pub owner : ℕ → ℕ
  pub owned : All (λ (t : Term). t.session ≡ owner t.pk) c.terms
  pub sessions :
      All (λ (s : AcademicSession). s.is_current ≡ opt_eq (some s.pk) now.session) c.sessions
  pub terms : All (λ (t : Term). t.is_current ≡ opt_eq (some t.pk) now.term) c.terms
  pub inside : (p : ℕ) → now.term ≡ some p → now.session ≡ some (owner p)

-- The flags after a save.
roll_sessions :
    (k : ℕ) (ss : List AcademicSession)
    → All
        (λ (s : AcademicSession). s.is_current ≡ opt_eq (some s.pk) (some k))
        (map_if
          (λ s. not (s.pk == k) && s.is_current)
          (set_session false)
          (map_if (λ s. s.pk == k) (set_session true) ss))
roll_sessions k ss =
    All-map_if (λ (s : AcademicSession). (s.pk == k && not s.is_current) ≡ false)
      (λ (s : AcademicSession). s.is_current ≡ opt_eq (some s.pk) (some k))
      (λ s. not (s.pk == k) && s.is_current) (set_session false) _ (λ s h e. ground arith)
      (λ s h e. ground arith)
      (All-map_if (λ _. Unit {0}) (λ (s : AcademicSession). (s.pk == k && not s.is_current) ≡ false)
        (λ s. s.pk == k) (set_session true) ss (λ s h e. ground arith) (λ s h e. ground arith)
        (All_trivial ss))

roll_terms :
    (owner : ℕ → ℕ) (k : ℕ) (ts : List Term)
    → All (λ (t : Term). t.session ≡ owner t.pk) ts
    → All
        (λ (t : Term). (t.is_current ≡ opt_eq (some t.pk) (some k)) × (t.session ≡ owner t.pk))
        (map_if
          (λ t. not (t.pk == k) && t.is_current)
          (set_term false)
          (map_if (λ t. t.pk == k) (set_term true) ts))
roll_terms owner k ts h =
    All-map_if (λ (t : Term). ((t.pk == k && not t.is_current) ≡ false) × (t.session ≡ owner t.pk))
      (λ (t : Term). (t.is_current ≡ opt_eq (some t.pk) (some k)) × (t.session ≡ owner t.pk))
      (λ t. not (t.pk == k) && t.is_current) (set_term false) _ (λ t h e. (ground arith, h.1))
      (λ t h e. (ground arith, h.1))
      (All-map_if (λ (t : Term). t.session ≡ owner t.pk)
        (λ (t : Term). ((t.pk == k && not t.is_current) ≡ false) × (t.session ≡ owner t.pk))
        (λ t. t.pk == k) (set_term true) ts (λ t h e. (ground arith, h))
        (λ t h e. (ground arith, h)) h)

-- A session that is current by its row is the current one.
current_row :
    (k : ℕ) (now : Option ℕ) (s : AcademicSession)
    → s.is_current ≡ opt_eq (some s.pk) now
    → (s.pk == k && s.is_current) ≡ true
    → now ≡ some k
current_row k none s h e = ground arith
current_row k (some n) s h e = ground arith

current_session :
    (k : ℕ) (now : Option ℕ) (ss : List AcademicSession)
    → All (λ (s : AcademicSession). s.is_current ≡ opt_eq (some s.pk) now) ss
    → session_is_current k ss ≡ true
    → now ≡ some k
current_session k now [] h e = cc
current_session k now (s ∷ ss) h e = elim (Bool-cases (s.pk == k && s.is_current)) [
  | inl here ↦ current_row k now s h.0 here
  | inr other ↦ current_session k now ss h.1 (sym (rw other refl) ∙ e)
]

true≢false : true ≢ false
true≢false = λ e. cc

none≢some : (p : ℕ) → ◌≢◌ {A = Option ℕ} none (some p)
none≢some p = λ e. cc

opt_eq→eq : (a b : Option ℕ) → opt_eq a b ≡ true → a ≡ b
opt_eq→eq none none h = refl
opt_eq→eq none (some b) h = cc
opt_eq→eq (some a) none h = cc
opt_eq→eq (some a) (some b) h = ap some ((==_iff a b).0 h)

some-inj : {a b : ℕ} → some a ≡ some b → a ≡ b
some-inj h = cc

same_owner :
    (owner : ℕ → ℕ) (t u : Term)
    → t.session ≡ owner t.pk
    → (u.is_current ≡ opt_eq (some u.pk) (some t.pk)) × (u.session ≡ owner u.pk)
    → (u.is_current && not (u.session == t.session)) ≡ false
same_owner owner t u own h = elim (Bool-cases (u.pk == t.pk)) [
  | inl e ↦ let same = ap owner ((==_iff u.pk t.pk).0 e) in ground (arith)
  | inr e ↦ ground arith
]

-- Leaving the terms of other sessions writes nothing after a term's save.
left_terms :
    (owner : ℕ → ℕ) (t : Term)
    → t.session ≡ owner t.pk
    → (ts : List Term)
    → All
        (λ (u : Term). (u.is_current ≡ opt_eq (some u.pk) (some t.pk)) × (u.session ≡ owner u.pk))
        ts
    → All
        (λ (u : Term). (u.is_current ≡ opt_eq (some u.pk) (some t.pk)) × (u.session ≡ owner u.pk))
        (map_if (λ u. u.is_current && not (u.session == t.session)) (set_term false) ts)
left_terms owner t own ts h =
    All-map_if
      (λ (u : Term). (u.is_current ≡ opt_eq (some u.pk) (some t.pk)) × (u.session ≡ owner u.pk))
      (λ (u : Term). (u.is_current ≡ opt_eq (some u.pk) (some t.pk)) × (u.session ≡ owner u.pk))
      (λ (u : Term). u.is_current && not (u.session == t.session)) (set_term false) ts
      (λ u h e. absurd (true≢false (sym e ∙ same_owner owner t u own h))) (λ u h e. h) h

-- The state after a term's save.
save_current_term-Shows :
    (t : Term) (c : Calendar) (now : Now) (v : Shows c now)
    → t.session ≡ v.owner t.pk
    → Shows (save_current_term t c) (record { session = some t.session; term = some t.pk })
unfolding save_current_term save_current_session
save_current_term-Shows t c now v own =
    elim (Bool-cases (session_is_current t.session c.sessions)) [
      | inl e ↦
          let same = current_session t.session now.session c.sessions v.sessions e in
          let rolled = roll_terms v.owner t.pk c.terms v.owned in
          rw e (record {
            owner = v.owner;
            owned = All_weaken _ _ _ (λ t h. h.1) rolled;
            sessions =
                subst
                  (λ (n : Option ℕ).
                    All (λ (s : AcademicSession). s.is_current ≡ opt_eq (some s.pk) n) c.sessions)
                  same v.sessions;
            terms = All_weaken _ _ _ (λ t h. h.0) rolled;
            inside = λ p h. ap some (own ∙ ap v.owner (some-inj h));
          })
      | inr e ↦
          let rolled = roll_terms v.owner t.pk c.terms v.owned in
          rw e (record {
            owner = v.owner;
            owned = All_weaken _ _ _ (λ t h. h.1) (left_terms v.owner t own _ rolled);
            sessions = roll_sessions t.session c.sessions;
            terms = All_weaken _ _ _ (λ t h. h.0) (left_terms v.owner t own _ rolled);
            inside = λ p h. ap some (own ∙ ap v.owner (some-inj h));
          })
    ]

-- The term a calendar is left with when its session becomes the one with key `k`.
abbrev kept_term : ℕ → Now → Option ℕ
kept_term k now = if opt_eq now.session (some k) then now.term else none

away :
    (t : Term) (k : ℕ)
    → (t.is_current && not (t.session == k)) ≡ true
    → (t.is_current && (t.session == k)) ≡ false
away t k e = ground arith

stays :
    (t : Term) (k : ℕ)
    → (t.is_current && not (t.session == k)) ≡ false
    → (t.is_current && (t.session == k)) ≡ t.is_current
stays t k e = ground arith

kept_inside :
    (k : ℕ) (now : Now) (p o : ℕ)
    → (now.term ≡ some p → now.session ≡ some o)
    → kept_term k now ≡ some p
    → some k ≡ some o
kept_inside k now p o inside h = elim (Bool-cases (opt_eq now.session (some k))) [
  | inl e ↦ sym (opt_eq→eq now.session (some k) e) ∙ inside (sym (rw e refl) ∙ h)
  | inr e ↦ absurd (none≢some p (sym (rw e refl) ∙ h))
]

kept_none :
    (k : ℕ) (now : Now) (t : Term)
    → t.is_current ≡ opt_eq (some t.pk) none
    → now.term ≡ none
    → (t.is_current && (t.session == k)) ≡ opt_eq (some t.pk) (kept_term k now)
kept_none k now t flag e = ground arith

kept_test :
    (k : ℕ) (owner : ℕ → ℕ) (a p : ℕ)
    → ((a == p) ≡ true) ⊎ ((a == p) ≡ false)
    → ((a == p) && (owner a == k)) ≡ opt_eq (some a) (if owner p == k then some p else none)
kept_test k owner a p (inl h) = let same = ap owner ((==_iff a p).0 h) in ground arith
kept_test k owner a p (inr h) = ground arith

kept_some :
    (k : ℕ) (now : Now) (owner : ℕ → ℕ) (p : ℕ) (t : Term)
    → t.is_current ≡ opt_eq (some t.pk) (some p)
    → now.term ≡ some p
    → now.session ≡ some (owner p)
    → t.session ≡ owner t.pk
    → (t.is_current && (t.session == k)) ≡ opt_eq (some t.pk) (kept_term k now)
kept_some k now owner p t flag e where_ own =
    rw (flag, own, e, where_) (kept_test k owner t.pk p (Bool-cases (t.pk == p)))

kept_row :
    (k : ℕ) (now : Now) (owner : ℕ → ℕ)
    → ((p : ℕ) → now.term ≡ some p → now.session ≡ some (owner p))
    → (t : Term) → t.is_current ≡ opt_eq (some t.pk) now.term
    → t.session ≡ owner t.pk
    → (t.is_current && (t.session == k)) ≡ opt_eq (some t.pk) (kept_term k now)
kept_row k now owner inside t flag own = elim (Option-cases now.term) [
  | inl e ↦ kept_none k now t (flag ∙ ap (opt_eq (some t.pk)) e) e
  | inr (p, e) ↦ kept_some k now owner p t (flag ∙ ap (opt_eq (some t.pk)) e) e (inside p e) own
]

save_current_session-Shows :
    (k : ℕ) (c : Calendar) (now : Now)
    → Shows c now
    → Shows (save_current_session k c) (record { session = some k; term = kept_term k now })
unfolding save_current_session
save_current_session-Shows k c now v =
    let rolled =
      All-map_if
        (λ (t : Term). (t.is_current ≡ opt_eq (some t.pk) now.term) × (t.session ≡ v.owner t.pk))
        (λ (t : Term).
          (t.is_current ≡ opt_eq (some t.pk) (kept_term k now)) × (t.session ≡ v.owner t.pk))
        (λ (t : Term). t.is_current && not (t.session == k)) (set_term false) c.terms
        (λ t h e. (sym (away t k e) ∙ kept_row k now v.owner v.inside t h.0 h.1, h.1))
        (λ t h e. (sym (stays t k e) ∙ kept_row k now v.owner v.inside t h.0 h.1, h.1))
        (All_and _ _ c.terms v.terms v.owned) in
    record {
      owner = v.owner;
      owned = All_weaken _ _ _ (λ t h. h.1) rolled;
      sessions = roll_sessions k c.sessions;
      terms = All_weaken _ _ _ (λ t h. h.0) rolled;
      inside = λ p h. kept_inside k now p (v.owner p) (v.inside p) h;
    }

elsewhere :
    (k : ℕ) (t : Term) (owner : ℕ → ℕ)
    → some k ≡ some (owner t.pk)
    → t.session ≡ owner t.pk
    → (t.session == k) ≡ false
    → ⊥
elsewhere k t owner h own other =
    true≢false (sym ((==_iff t.session k).1 (own ∙ sym (some-inj h))) ∙ other)

own_none :
    (k : ℕ) (x : Option ℕ) (owner : ℕ → ℕ)
    → ((p : ℕ) → x ≡ some p → some k ≡ some (owner p))
    → (t : Term) → t.is_current ≡ opt_eq (some t.pk) x
    → t.session ≡ owner t.pk
    → (t.session == k) ≡ false
    → t.is_current ≡ false
own_none k x owner inside t flag own other = elim (Bool-cases t.is_current) [
  | inl on ↦
      absurd (
        elsewhere k t owner (inside t.pk (sym (opt_eq→eq (some t.pk) x (sym flag ∙ on)))) own other)
  | inr off ↦ off
]

-- No term is left current in a session that has none.
promote_none :
    (k : ℕ) (x : Option ℕ) (c : Calendar)
    → Shows c (record { session = some k; term = x })
    → All (λ (t : Term). (t.session == k) ≡ false) c.terms
    → Shows c (record { session = some k; term = none })
promote_none k x c v others = record {
  owner = v.owner;
  owned = v.owned;
  sessions = v.sessions;
  terms =
      All_weaken _ _ c.terms (λ t h. own_none k x v.owner v.inside t h.0 h.1.0 h.1.1)
        (All_and _ _ c.terms v.terms (All_and _ _ c.terms v.owned others));
  inside = λ p h. absurd (none≢some p h);
}

-- The chosen term of the current session is left current.
promote_some :
    (k : ℕ) (x : Option ℕ) (c : Calendar) (t : Term)
    → (v : Shows c (record { session = some k; term = x })) → t.is_current ≡ opt_eq (some t.pk) x
    → t.session ≡ v.owner t.pk
    → t.session ≡ k
    → Shows (promote (some t) c) (record { session = some k; term = some t.pk })
promote_some k x c t v flag own here = elim (Bool-cases t.is_current) [
  | inl on ↦ rw on (
      subst (λ (y : Option ℕ). Shows c (record { session = some k; term = y }))
        (sym (opt_eq→eq (some t.pk) x (sym flag ∙ on))) v)
  | inr off ↦ simp off (
      subst (λ n. Shows (save_current_term t c) (record { session = some n; term = some t.pk }))
        here (save_current_term-Shows t c _ v own))
]

abbrev pub key_of : Option Term → Option ℕ
key_of none = none
key_of (some t) = some t.pk

-- Closing the other sessions' terms leaves the calendar's choice as it was.
save_current_session-choice :
    (today k : ℕ) (c : Calendar)
    → term_for_today today k (save_current_session k c).terms ≡ term_for_today today k c.terms
unfolding save_current_session term_for_today
save_current_session-choice today k c =
    ap
      (λ own.
        or_term
          (earliest (select (λ (t : Term). leb t.start_date today && leb today t.end_date) own))
          (earliest own))
      (select-map_if (λ (t : Term). t.session == k)
        (λ (t : Term). t.is_current && not (t.session == k)) (set_term false) c.terms
        (λ t e. ground arith) (λ t. refl))

Shows_recorded :
    (a : CalendarAction) (pk : ℕ) (c : Calendar) (now : Now)
    → Shows c now
    → Shows (record_calendar a pk c) now
Shows_recorded a pk c now v = record {
  owner = v.owner;
  owned = v.owned;
  sessions = v.sessions;
  terms = v.terms;
  inside = v.inside;
}

promote-Shows :
    (today k : ℕ) (x : Option ℕ) (c : Calendar)
    → Shows c (record { session = some k; term = x })
    → Shows
        (promote (term_for_today today k c.terms) c)
        (record { session = some k; term = key_of (term_for_today today k c.terms) })
promote-Shows today k x c v = elim (Option-cases (term_for_today today k c.terms)) [
  | inl e ↦ rw e (promote_none k x c v (term_for_today-none today k c.terms e))
  | inr (t, e) ↦
      let row = term_for_today_All _ today k c.terms t (All_and _ _ c.terms v.terms v.owned) e in
      rw e (promote_some k x c t v row.0.0 row.0.1 row.1)
]

-- `set_current_session` on a calendar whose flags say one period: they then say the session it was
-- given, and the calendar's choice among its terms, or no term when it has none.
pub set_current_session-Shows :
    (today : ℕ) (s : AcademicSession) (c : Calendar) (now : Now)
    → Shows c now
    → Shows
        (set_current_session today s c)
        (record { session = some s.pk; term = key_of (term_for_today today s.pk c.terms) })
unfolding set_current_session
set_current_session-Shows today s c now v =
    let rolled = save_current_session s.pk c in
    let after = promote (term_for_today today s.pk rolled.terms) rolled in
    Shows_recorded session_set_current s.pk after _ (
      subst (λ n. Shows after (record { session = some s.pk; term = key_of n }))
        (save_current_session-choice today s.pk c)
        (promote-Shows today s.pk _ rolled (save_current_session-Shows s.pk c now v)))

-- `set_current_term` on a calendar whose flags say one period, for a term whose session is that of
-- the row with its key: they then say the term's session and the term.
pub set_current_term-Shows :
    (t : Term) (c : Calendar) (now : Now) (v : Shows c now)
    → t.session ≡ v.owner t.pk
    → Shows (set_current_term t c) (record { session = some t.session; term = some t.pk })
unfolding set_current_term
set_current_term-Shows t c now v own =
    Shows_recorded term_set_current t.pk _ _ (save_current_term-Shows t c now v own)
