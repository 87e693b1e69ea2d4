-- ===== src/Phone/Tokens/Reuse.antt =====
-- A refresh token works once; shown again, it ends its family.
use mathlib.Core.Path.{subst}
use schapp.Base.{
  ℕ, ◌≡◌, refl, true, not, ◌||◌, ◌==◌, is_some, All, All-map_if, All_trivial, Option, some, none,
  Text, arith, ◌≢◌, Bool, Bool-cases, Option-cases, inl, inr, sym, ap, ◌∙◌, ==_iff, ==_refl,
  All-find, List, false,
}
use schapp.Db.{Result, ok, err}
use schapp.Phone.Tokens.{
  Claims, JwtLibrary, TokenFamily, Sessions, TokenError, Pair, is_spent, revoke, revoke_family,
  find_family, refusal_of, renewed, rotate, session_revoked, reuse_detected, is_accepted,
  revoke_claimed, rotate_claims,
}

-- Every row of the family is revoked.
abbrev pub IsRevoked : ℕ → Sessions → Type 0
IsRevoked pk s =
    All (λ (f : TokenFamily). (not (f.pk == pk) || is_some f.revoked_at) ≡ true) s.families

err≢ok : {x : TokenError} {y : Pair} → ◌≢◌ {A = Result TokenError Pair} (err x) (ok y)
err≢ok = λ h. cc

ok-inj : {x y : Pair} → ◌≡◌ {A = Result TokenError Pair} (ok x) (ok y) → x ≡ y
ok-inj h = cc

none≢some : {f : TokenFamily} → ◌≢◌ {A = Option TokenFamily} none (some f)
none≢some = λ h. cc

or_true : (a : Bool) {b : Bool} → b ≡ true → (a || b) ≡ true
or_true a h = ground arith

revoked_lem : (now : ℕ) (f : TokenFamily) → is_some (revoke now f).revoked_at ≡ true
revoked_lem now f = elim (Option-cases f.revoked_at) [ inl e ↦ rw e refl | inr (at, e) ↦ rw e refl ]

find_family-pk :
    (o : Option ℕ) (fs : List TokenFamily) (f : TokenFamily)
    → find_family o fs ≡ some f
    → o ≡ some f.pk
find_family-pk none fs f h = absurd (none≢some h)
find_family-pk (some pk) fs f h = ap some (
    sym (
      (==_iff f.pk pk).0
        (All-find (λ _. Unit {0}) (λ (g : TokenFamily). g.pk == pk) fs f (All_trivial fs) h).1))

revoke_family-IsRevoked : (now pk : ℕ) (s : Sessions) → IsRevoked pk (revoke_family now pk s)
revoke_family-IsRevoked now pk s =
    All-map_if (λ _. Unit {0})
      (λ (f : TokenFamily). (not (f.pk == pk) || is_some f.revoked_at) ≡ true) (λ f. f.pk == pk)
      (revoke now) s.families (λ f h e. or_true (not ((revoke now f).pk == pk)) (revoked_lem now f))
      (λ f h e. rw e refl) (All_trivial s.families)

-- What a rotation that succeeded did.
claims_spends :
    (l : JwtLibrary) (now : ℕ) (o : Option Claims) (tenant : Option Text) (s : Sessions) (x : Pair)
    → (rotate_claims l now o tenant s).0 ≡ ok x
    → (t : Claims) × (o ≡ some t)
      × (t.family ≡ some x.family)
      × (is_spent t.jti (rotate_claims l now o tenant s).1.blacklist ≡ true)
unfolding rotate_claims
claims_spends l now none tenant s x h = absurd (err≢ok h)
claims_spends l now (some t) tenant s x h = elim (Bool-cases (is_accepted t s.blacklist)) [
  | inr bad ↦ absurd (err≢ok (rw (rotate_claims, bad) at h))
  | inl good ↦ elim (Option-cases (find_family t.family s.families)) [
    | inl lost ↦ absurd (err≢ok (rw (rotate_claims, good, lost) at h))
    | inr (f, found) ↦ elim (Option-cases (refusal_of f t tenant s)) [
      | inr (x', bar) ↦ absurd (err≢ok (rw (rotate_claims, good, found, renewed, bar) at h))
      | inl fine ↦
          let made = ok-inj (rw (rotate_claims, good, found, renewed, fine) at h) in
          (
            t,
            refl,
            find_family-pk t.family s.families f found ∙ ap (λ (y : Pair). some y.family) made,
            rw (rotate_claims, good, found, renewed, fine, ==_refl t.jti) refl,
          )
    ]
  ]
]

revoked_reason :
    (pk : ℕ) (f : TokenFamily)
    → (not (f.pk == pk) || is_some f.revoked_at) ≡ true
    → (f.pk == pk) ≡ true
    → is_some f.revoked_at ≡ true
revoked_reason pk f h e = ground arith

over :
    (l : JwtLibrary) (now : ℕ) (f : TokenFamily) (t : Claims) (tenant : Option Text) (s : Sessions)
    → is_some f.revoked_at ≡ true
    → (renewed l now (some f) t tenant s).0 ≡ err session_revoked
over l now f t tenant s h = rw (renewed, h) refl

unaccepted :
    (t : Claims) (spent : List ℕ) → is_spent t.jti spent ≡ true → is_accepted t spent ≡ false
unaccepted t spent h = ground arith

-- No token of a revoked family is renewed.
revoked_claims :
    (l : JwtLibrary) (now : ℕ) (tenant : Option Text) (s : Sessions) (t : Claims) (pk : ℕ)
    → t.family ≡ some pk
    → IsRevoked pk s
    → (x : TokenError) × ((rotate_claims l now (some t) tenant s).0 ≡ err x)
unfolding rotate_claims
revoked_claims l now tenant s t pk mine h = elim (Bool-cases (is_accepted t s.blacklist)) [
  | inr bad ↦ (reuse_detected, rw (rotate_claims, bad) refl)
  | inl good ↦ elim (Option-cases (find_family t.family s.families)) [
    | inl lost ↦ (session_revoked, rw (rotate_claims, good, lost) refl)
    | inr (f, found) ↦
        let named = subst (λ o. find_family o s.families ≡ some f) mine found in
        let here =
          All-find (λ (g : TokenFamily). (not (g.pk == pk) || is_some g.revoked_at) ≡ true)
            (λ (g : TokenFamily). g.pk == pk) s.families f h named in
        (
          session_revoked,
          rw (rotate_claims, good, found)
              (over l now f t tenant s (revoked_reason pk f here.0 here.1)),
        )
  ]
]

-- A token that is spent and still reads is a replay.
replay :
    (l : JwtLibrary) (now : ℕ) (tenant : Option Text) (s : Sessions) (t : Claims) (pk : ℕ)
    → t.family ≡ some pk
    → is_spent t.jti s.blacklist ≡ true
    → rotate_claims l now (some t) tenant s ≡ (err reuse_detected, revoke_family now pk s)
unfolding rotate_claims
replay l now tenant s t pk mine spent =
    rw (rotate_claims, unaccepted t s.blacklist spent)
      (ap (λ o. (err reuse_detected, revoke_claimed now o s)) mine)

-- A refresh token that was rotated and is shown again before it expires is refused as reuse; and
-- from then on no token of its family is renewed, the one that the first rotation gave among them.
pub rotate-reuse :
    (l : JwtLibrary) (first again after raw other : ℕ) (tenant tenant' tenant'' : Option Text)
    (s : Sessions) (x : Pair) (t : Claims)
    → (rotate l first raw tenant s).0 ≡ ok x
    → l.decode again raw ≡ l.decode first raw
    → l.decode after other ≡ some t
    → t.family ≡ some x.family
    → ((rotate l again raw tenant' (rotate l first raw tenant s).1).0 ≡ err reuse_detected)
      × ((e : TokenError) × ((rotate l after other tenant''
              (rotate l again raw tenant' (rotate l first raw tenant s).1).1).0
            ≡ err e))
unfolding rotate
rotate-reuse l first again after raw other tenant tenant' tenant'' s x t done same read mine =
    let once = (rotate l first raw tenant s).1 in
    let spent = claims_spends l first (l.decode first raw) tenant s x done in
    let shown =
      ap (λ o. rotate_claims l again o tenant' once) (same ∙ spent.1)
      ∙ replay l again tenant' once spent.0 x.family spent.2 spent.3 in
    let later =
      revoked_claims l after tenant'' (revoke_family again x.family once) t x.family mine
        (revoke_family-IsRevoked again x.family once) in
    (
      ap (λ r. r.0) shown,
      (
        later.0,
        ap
              (λ o.
                (rotate_claims l after o tenant''
                  (rotate_claims l again (l.decode again raw) tenant' once).1).0)
              read
            ∙ ap (λ r. (rotate_claims l after (some t) tenant'' r.1).0) shown
            ∙ later.1,
      ),
    )
