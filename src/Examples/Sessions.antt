-- ===== src/Examples/Sessions.antt =====
-- A login, its token, and the guards that read it.
use fuel_chain.Base.{ℕ, ◌+◌, ◌≤◌, ◌≡◌, ◌↔◌, refl, String, true, none, some, [], ◌∷◌, ok, arith}
use fuel_chain.Base.Text.{trim, trim_start, trim_end}
use fuel_chain.Base.Split.{joined, after, part, second_part}
use fuel_chain.Custody.Accept.{given}
use fuel_chain.Schema.{transporter, admin}
use fuel_chain.Access.{can_activate, includes}
use fuel_chain.Sessions.{Claims, Codec, sign_token, verify_token, secret_of}
use fuel_chain.Sessions.Passwords.{
  Crypto, hash_password, verify_password, hash_password-verify_password,
}
use fuel_chain.Sessions.Login.{User, auth_user, login, resolve_user, with_key}
use fuel_chain.Sessions.Login.Resolved.{login-resolve_user}
use fuel_chain.Sessions.Bearer.{
  authenticate, shown, strip_bearer, after_prefix, authenticate-can_activate,
}
use fuel_chain.Examples.{start}

abbrev key : ℕ → String
key n = "u"

abbrev claims : Claims
claims = record { sub = "u"; role = "TRANSPORTER"; exp = 100 + 43200 }

abbrev codec : Codec
codec = record {
  secret = some "key";
  encode = λ c. "body";
  decode = λ s. some claims;
  hmac = λ k b. "sig";
}

abbrev crypto : Crypto
crypto = record { scrypt = λ p s. 1 ∷ []; hex = λ b. "01"; unhex = λ s. 1 ∷ [] }

abbrev user : User
user = record {
  id = 11;
  email = "d@x";
  password_hash = some "s:01";
  role = transporter;
  is_demo = true;
  station_id = none;
}

plain_salt : after ":" "s" ≡ none
unfolding after
plain_salt = refl

plain_hash : after ":" "01" ≡ none
unfolding after
plain_hash = refl

hash_password-verify_password_example :
    (verify_password crypto "other" (hash_password crypto "demo" "s") ≡ true)
    ↔ (crypto.scrypt "other" "s" ≡ 1 ∷ [])
hash_password-verify_password_example =
    hash_password-verify_password crypto "demo" "other" "s" refl refl plain_salt refl plain_hash

plain_body : after "." "body" ≡ none
unfolding after
plain_body = refl

plain_sig : after "." "sig" ≡ none
unfolding after
plain_sig = refl

logged_in :
    login codec crypto key "d@x" "demo" 100 (user ∷ []) start
    ≡ ok ("body.sig", auth_user user start)
unfolding login verify_password sign_token secret_of joined after part
logged_in = refl

login-resolve_user_example :
    (stored : String) × (some "s:01" ≡ some stored)
    × (verify_password crypto "demo" stored ≡ true)
    × ((auth_user user start).id ≡ user.id)
    × ((auth_user user start).role ≡ user.role)
    × (resolve_user codec key (some "body.sig") 120 (user ∷ []) start ≡ ok (auth_user user start))
login-resolve_user_example =
    login-resolve_user codec crypto key "d@x" "demo" "body.sig" "key" 100 120 (user ∷ []) start user
      (auth_user user start) refl (omega arith) refl refl refl plain_body refl plain_sig
      (omega arith) (omega arith) logged_in

authenticated :
    authenticate codec key (some "bearer  body.sig") 120 (user ∷ []) start
    ≡ ok (auth_user user start)
unfolding authenticate strip_bearer after_prefix trim trim_start trim_end resolve_user verify_token
    part after
authenticated = refl

allowed : can_activate (some (admin ∷ transporter ∷ [])) (some (auth_user user start)) ≡ ok tt
unfolding can_activate
allowed = refl

authenticate-can_activate_example :
    (token : String) × (claims : Claims) × (u : User) × (secret : String) × (shown
        (some "bearer  body.sig")
      ≡ some token)
    × (given codec.secret ≡ some secret)
    × (second_part "." token ≡ some (codec.hmac secret (part "." token)))
    × (codec.decode (part "." token) ≡ some claims)
    × (120 ≤ claims.exp)
    × (with_key key claims.sub (user ∷ []) ≡ some u)
    × (auth_user u start ≡ auth_user user start)
    × (includes (admin ∷ transporter ∷ []) u.role ≡ true)
authenticate-can_activate_example =
    authenticate-can_activate codec key "bearer  body.sig" 120 (user ∷ []) start
      (auth_user user start) admin (transporter ∷ []) authenticated allowed
