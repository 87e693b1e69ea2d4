-- ===== src/Tests/Devices.antt =====
-- A login on one device, its refresh token rotated and then shown again.
use schapp.Base.{ℕ, ◌≡◌, refl, true, some, [], ◌∷◌, codes}
use schapp.Db.{ok, err}
use schapp.Phone.Tokens.{
  Claims, JwtLibrary, Sessions, TokenError, Pair, issue_for_user, rotate, rotate_claims,
}
use schapp.Phone.Tokens.Reuse.{rotate-reuse}

-- Refresh tokens have even identifiers here, and a token is its identifier.
abbrev issued_claims : ℕ → Claims
issued_claims jti = record {
  jti = jti;
  is_refresh = true;
  family = some 9;
  tenant_slug = codes "kano";
}

abbrev signed : JwtLibrary
signed = record { decode = λ now raw. some (issued_claims raw); encode = λ t. t.jti }

abbrev signed_in : Sessions
signed_in =
    (issue_for_user signed 5 9 4 (some (codes "kano")) (record {
      families = [];
      users = record { pk = 4; is_active = true } ∷ [];
      blacklist = [];
      next_jti = 2;
    })).1

abbrev second_pair : Pair
second_pair = record { access = 5; refresh = 4; family = 9 }

renewed_once : (rotate signed 6 2 (some (codes "kano")) signed_in).0 ≡ ok second_pair
unfolding rotate rotate_claims issue_for_user
renewed_once = refl

rotate-reuse_example :
    let tenant = some (codes "kano") in
    let once = (rotate signed 6 2 tenant signed_in).1 in
    ((rotate signed 7 2 tenant once).0 ≡ err TokenError.reuse_detected)
    × ((e : TokenError) × ((rotate signed 8 4 tenant (rotate signed 7 2 tenant once).1).0 ≡ err e))
rotate-reuse_example =
    rotate-reuse signed 6 7 8 2 4 (some (codes "kano")) (some (codes "kano")) (some (codes "kano"))
      signed_in second_pair (issued_claims 4) renewed_once refl refl refl
