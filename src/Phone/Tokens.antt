-- ===== src/Phone/Tokens.antt =====
-- apps/auth_phone/tokens.py: rotation of refresh tokens, and the end of a family on reuse.
--
-- A token is a number that `JwtLibrary` signs and reads. Which database holds a family, and the
-- claims that only the screens read, are left out; a family's user exists, as its key cascades.
pub mod Reuse
use schapp.Base.{
  ℕ, Bool, true, false, ◌&&◌, not, Option, none, some, List, [], ◌∷◌, ◌==◌, ◌+◌, any, find, map_if,
  if◌then◌else◌, is_some, Text, text_eq,
}
use schapp.Db.{Result, ok, err, Action}

pub record Claims : Type 0 where
  pub jti : ℕ
  pub is_refresh : Bool
  pub family : Option ℕ
  pub tenant_slug : Text

-- simplejwt: reading checks the signature and, at the time given, the expiry.
pub record JwtLibrary : Type 0 where
  pub decode : ℕ → ℕ → Option Claims
  pub encode : Claims → ℕ

pub record TokenFamily : Type 0 where
  pub pk : ℕ
  pub user : ℕ
  pub last_used_at : Option ℕ
  pub revoked_at : Option ℕ

pub record User : Type 0 where
  pub pk : ℕ
  pub is_active : Bool

pub record Sessions : Type 0 where
  pub families : List TokenFamily
  pub users : List User
  pub blacklist : List ℕ
  pub next_jti : ℕ

pub data TokenError : Type 0 where
  invalid_token reuse_detected session_revoked account_inactive other_institution : TokenError

pub record Pair : Type 0 where
  pub access : ℕ
  pub refresh : ℕ
  pub family : ℕ

abbrev pub is_spent : ℕ → List ℕ → Bool
is_spent jti = any (λ j. j == jti)

-- What `RefreshToken(raw)` asks of a token that reads: the refresh type, and not on the blacklist.
abbrev pub is_accepted : Claims → List ℕ → Bool
is_accepted t spent = t.is_refresh && not (is_spent t.jti spent)

-- `TokenFamily.revoke`
abbrev pub revoke : ℕ → TokenFamily → TokenFamily
revoke now f = if is_some f.revoked_at then f else record f { revoked_at = some now }

-- `revoke_family`
abbrev pub revoke_family : ℕ → ℕ → Sessions → Sessions
revoke_family now pk s = record s { families = map_if (λ f. f.pk == pk) (revoke now) s.families }

abbrev pub revoke_claimed : ℕ → Option ℕ → Sessions → Sessions
revoke_claimed now none s = s
revoke_claimed now (some pk) s = revoke_family now pk s

abbrev pub find_family : Option ℕ → List TokenFamily → Option TokenFamily
find_family none families = none
find_family (some pk) families = find (λ f. f.pk == pk) families

abbrev is_other : Text → Option Text → Bool
is_other [] tenant = false
is_other (c ∷ claimed) none = false
is_other (c ∷ claimed) (some slug) = not (text_eq (c ∷ claimed) slug)

-- The reasons not to renew a family that was found.
abbrev pub refusal_of : TokenFamily → Claims → Option Text → Sessions → Option TokenError
refusal_of f t tenant s =
    if is_some f.revoked_at
    then some session_revoked
    else if not (any (λ (u : User). u.pk == f.user && u.is_active) s.users)
    then some account_inactive
    else if is_other t.tenant_slug tenant
    then some other_institution
    else none

abbrev slug_of : Option Text → Text
slug_of none = []
slug_of (some slug) = slug

abbrev new_token : ℕ → Bool → ℕ → Option Text → Claims
new_token jti is_refresh family tenant = record {
  jti = jti;
  is_refresh = is_refresh;
  family = some family;
  tenant_slug = slug_of tenant;
}

-- The old token is spent, and a new pair is signed for the family.
abbrev pub renew : JwtLibrary → ℕ → TokenFamily → Claims → Option Text → Sessions → Pair × Sessions
renew l now f t tenant s = (
  record {
    access = l.encode (new_token (s.next_jti + 1) false f.pk tenant);
    refresh = l.encode (new_token s.next_jti true f.pk tenant);
    family = f.pk;
  },
  record s {
    blacklist = t.jti ∷ s.blacklist;
    next_jti = s.next_jti + 2;
    families = map_if (λ g. g.pk == f.pk) (λ g. record g { last_used_at = some now }) s.families;
  },
)

abbrev pub renewed :
    JwtLibrary → ℕ → Option TokenFamily → Claims → Option Text → Action Sessions TokenError Pair
renewed l now none t tenant s = (err session_revoked, s)
renewed l now (some f) t tenant s = elim (refusal_of f t tenant s) [
  | some x ↦ (err x, s)
  | none ↦ (ok (renew l now f t tenant s).0, (renew l now f t tenant s).1)
]

-- `_rotate`, of what the token reads as: a token that reads and is not accepted is a replay.
unfoldable pub rotate_claims :
    JwtLibrary → ℕ → Option Claims → Option Text → Action Sessions TokenError Pair
rotate_claims l now none tenant s = (err invalid_token, s)
rotate_claims l now (some t) tenant s =
    if is_accepted t s.blacklist
    then renewed l now (find_family t.family s.families) t tenant s
    else (err reuse_detected, revoke_claimed now t.family s)

unfoldable pub rotate : JwtLibrary → ℕ → ℕ → Option Text → Action Sessions TokenError Pair
unfolding rotate_claims
rotate l now raw tenant = rotate_claims l now (l.decode now raw) tenant

-- `issue_for_user`
unfoldable pub issue_for_user : JwtLibrary → ℕ → ℕ → ℕ → Option Text → Sessions → Pair × Sessions
issue_for_user l now family user tenant s = (
  record {
    access = l.encode (new_token (s.next_jti + 1) false family tenant);
    refresh = l.encode (new_token s.next_jti true family tenant);
    family = family;
  },
  record s {
    families =
        record { pk = family; user = user; last_used_at = some now; revoked_at = none }
        ∷ s.families;
    next_jti = s.next_jti + 2;
  },
)
