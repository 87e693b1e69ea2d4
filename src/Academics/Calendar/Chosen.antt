-- ===== src/Academics/Calendar/Chosen.antt =====
-- apps/academics/services.py `_term_for_today`: what the chosen term is.
use mathlib.Core.Path.{subst}
use schapp.Base.{
  ℕ, ◌≡◌, ◌≢◌, refl, sym, ◌∙◌, All, inl, ◌⊎◌, inr, ◌&&◌, if◌then◌else◌, Option-cases, true, false,
  All-select, ◌==◌, ==_iff, select_none, ◌||◌,
}
use schapp.Academics.Calendar.{
  Term, earliest, term_for_today, or_term, Bool, List, Option, some, leb, none, [], ◌∷◌, not,
}

none≢some : (t : Term) → ◌≢◌ {A = Option Term} none (some t)
none≢some t = λ e. cc

some-inj : {t u : Term} → some t ≡ some u → t ≡ u
some-inj h = cc

abbrev pub covers : ℕ → Term → Bool
covers today t = leb t.start_date today && leb today t.end_date

earliest_cons :
    (t : Term) (ts : List Term)
    → ((earliest ts ≡ none) × (earliest (t ∷ ts) ≡ some t))
      ⊎ ((u : Term) × (earliest ts ≡ some u)
          × (earliest (t ∷ ts) ≡ some (if leb t.index u.index then t else u)))
unfolding earliest
earliest_cons t ts = elim (Option-cases (earliest ts)) [
  | inl e ↦ inl (e, rw e refl)
  | inr (u, e) ↦ inr (u, e, rw e refl)
]

earliest-none : (ts : List Term) → earliest ts ≡ none → ts ≡ []
unfolding earliest
earliest-none [] h = refl
earliest-none (t ∷ ts) h = elim (earliest_cons t ts) [
  | inl (e, r) ↦ absurd (none≢some t (sym h ∙ r))
  | inr (u, e, r) ↦ absurd (none≢some _ (sym h ∙ r))
]

earlier {ℓ} : (P : Term → Type ℓ) (u v : Term) (b : Bool) → P u → P v → P (if b then u else v)
earlier P u v true p q = p
earlier P u v false p q = q

or_term-none : (a b : Option Term) → or_term a b ≡ none → b ≡ none
or_term-none none b h = h
or_term-none (some u) b h = absurd (none≢some u (sym h))

earliest_All {ℓ} :
    (P : Term → Type ℓ) (ts : List Term) (t : Term) → All P ts → earliest ts ≡ some t → P t
unfolding earliest
earliest_All P [] t h e = absurd (none≢some t e)
earliest_All P (u ∷ ts) t h e = elim (earliest_cons u ts) [
  | inl (nothing, r) ↦ subst P (some-inj (sym r ∙ e)) h.0
  | inr (v, later, r) ↦
      subst P (some-inj (sym r ∙ e))
        (earlier P u v (leb u.index v.index) h.0 (earliest_All P ts v h.1 later))
]

or_term_cases :
    (a b : Option Term) (t : Term)
    → or_term a b ≡ some t
    → (a ≡ some t) ⊎ ((a ≡ none) × (b ≡ some t))
or_term_cases none b t h = inr (refl, h)
or_term_cases (some u) b t h = inl h

pub term_for_today-none :
    (today k : ℕ) (ts : List Term)
    → term_for_today today k ts ≡ none
    → All (λ (t : Term). (t.session == k) ≡ false) ts
unfolding term_for_today
term_for_today-none today k ts h =
    select_none (λ (t : Term). t.session == k) ts (earliest-none _ (or_term-none _ _ h))

pub term_for_today_All {ℓ} :
    (P : Term → Type ℓ) (today k : ℕ) (ts : List Term) (t : Term)
    → All P ts
    → term_for_today today k ts ≡ some t
    → P t × (t.session ≡ k)
unfolding term_for_today
term_for_today_All P today k ts t h e =
    let own = All-select P (λ (u : Term). u.session == k) ts h in
    let found : P t × ((t.session == k) ≡ true) = elim (or_term_cases _ _ t e) [
      | inl f ↦ (earliest_All _ _ t (All-select _ (covers today) _ own) f).0
      | inr (_, f) ↦ earliest_All _ _ t own f
    ] in
    (found.0, (==_iff t.session k).0 found.1)

-- Whether `t` is as good a choice as `u`: today first, then the index.
abbrev pub prefers : ℕ → Term → Term → Bool
prefers today t u =
    if covers today t
    then not (covers today u) || leb t.index u.index
    else not (covers today u) && leb t.index u.index
