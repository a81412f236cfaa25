-- ===== src/Sessions/Login.antt =====
-- The login and the user of a token: `login`, `resolveUser`, `requireRole` and `listDemoAccounts` of
-- apps/api/src/auth/auth.service.ts. What a user is called is left out.
pub mod Resolved
use fuel_chain.Base.{
  ℕ, ◌+◌, ◌≤◌, ◌≡◌, refl, sym, ap, ◌∙◌, ◌↔◌, String, Bool, true, false, not, ◌&&◌, Option, none,
  some, List, [], ◌∷◌, ◌==◌, leb, length, str_eq, eq_iff, is_some, if◌then◌else◌, find_first,
  filter, sort_by, Result, ok, err, refuse_if, or_throw, ◌>>=◌, ◌>>◌, >>=-eq-ok, or_throw-eq-ok,
  Bool-cases, inl, inr, count_where, count-le, find_first_unique, subst, arith,
}
use Prim.Native.Char.{Char}
use package.text.Mathlib.TextPositions.{eq_refl}
use fuel_chain.Base.Split.{
  part, joined, after, part_of, second_part, Unsplit, part-joined, part_self, after-joined,
}
use fuel_chain.Schema.{
  ActorRole, role_number, transporter, station_staff, verifier, citizen, same_role,
}
use fuel_chain.Store.{Db, Actor, Station, Cistern, station_by_id}
use fuel_chain.Access.{includes}
use fuel_chain.Custody.Issue.{is_driver}
use fuel_chain.Custody.Issue.Baton.{role_text}
use fuel_chain.Custody.Accept.{given}
use fuel_chain.Sessions.{
  Claims, Codec, Refusal, no_session, bad_credentials, unknown_user, role_refused, sign_token,
  secret_of, verify_token, sign_token-verify_token,
}
use fuel_chain.Sessions.Passwords.{Crypto, verify_password}

pub record User : Type 0 where
  pub id : ℕ
  pub email : String
  pub password_hash : Option String
  pub role : ActorRole
  pub is_demo : Bool
  pub station_id : Option ℕ

abbrev pub station_code_of : Option ℕ → Db → Option String
station_code_of none db = none
station_code_of (some k) db = elim (station_by_id k db) [ none ↦ none | some s ↦ some s.code ]

-- `drivenCisterns: { take: 1 }`
abbrev pub driven : ℕ → Db → Option Cistern
driven k db = find_first (λ (c : Cistern). is_driver c.driver_id k) db.cisterns

abbrev pub auth_user : User → Db → Actor
auth_user u db = record {
  id = u.id;
  role = u.role;
  station_id = u.station_id;
  station_code = station_code_of u.station_id db;
  cistern_id = elim (driven u.id db) [ none ↦ none | some c ↦ some c.id ];
  cistern_code = elim (driven u.id db) [ none ↦ none | some c ↦ some c.code ];
}

-- Twelve hours.
abbrev pub ttl_sec : ℕ
ttl_sec = 43200

abbrev pub with_email : String → List User → Option User
with_email email = find_first (λ (u : User). str_eq u.email email)

-- The text of a key is a parameter: tokens hold the keys of users as texts.
abbrev pub with_key : (ℕ → String) → String → List User → Option User
with_key key sub = find_first (λ (u : User). str_eq (key u.id) sub)

unfoldable pub login :
    Codec
    → Crypto
    → (ℕ → String)
    → String
    → String
    → ℕ
    → List User
    → Db
    → Result Refusal (String × Actor)
login c k key email password now users db = do
  user ← or_throw (with_email email users) bad_credentials
  stored ← or_throw (given user.password_hash) bad_credentials
  refuse_if (not (verify_password k password stored)) bad_credentials
  token ← sign_token c (key user.id) (role_text user.role) ttl_sec now
  ok (token, auth_user user db)

unfoldable pub resolve_user :
    Codec → (ℕ → String) → Option String → ℕ → List User → Db → Result Refusal Actor
resolve_user c key token now users db = do
  shown ← or_throw (given token) no_session
  claims ← verify_token c shown now
  user ← or_throw (with_key key claims.sub users) unknown_user
  ok (auth_user user db)

abbrev pub refuses : Option (List ActorRole) → ActorRole → Bool
refuses none r = false
refuses (some roles) r = not (includes roles r)

unfoldable pub require_role :
    Codec
    → (ℕ → String)
    → Option String
    → Option (List ActorRole)
    → ℕ
    → List User
    → Db
    → Result Refusal Actor
require_role c key token roles now users db = do
  user ← resolve_user c key token now users db
  refuse_if (refuses roles user.role) role_refused
  ok user

-- The four roles of the product.
abbrev pub product_roles : List ActorRole
product_roles = transporter ∷ station_staff ∷ verifier ∷ citizen ∷ []

abbrev pub is_promoted : User → Bool
is_promoted u = u.is_demo && (is_some u.password_hash && includes product_roles u.role)

unfoldable pub list_demo_accounts : List User → List User
list_demo_accounts users =
    sort_by (λ (u v : User). leb (role_number u.role) (role_number v.role))
      (filter is_promoted users)
