-- ===== src/Sessions/Login/Resolved.antt =====
-- The token that `login` of auth.service.ts returns, and the user that `resolveUser` reads from it.
use fuel_chain.Base.{
  ℕ, ◌+◌, ◌≤◌, ◌≡◌, refl, sym, ap, ◌∙◌, String, Bool, true, false, not, some, List, str_eq, eq_iff,
  ok, refuse_if, or_throw, >>=-eq-ok, or_throw-eq-ok, Bool-cases, inl, inr, count_where,
  find_first_unique, subst, arith,
}
use Prim.Native.Char.{Char}
use package.text.Mathlib.TextPositions.{eq_refl}
use fuel_chain.Base.Split.{joined, Unsplit}
use fuel_chain.Store.{Db, Actor}
use fuel_chain.Custody.Issue.Baton.{role_text}
use fuel_chain.Custody.Accept.{given}
use fuel_chain.Sessions.{
  Claims, Codec, bad_credentials, sign_token, secret_of, verify_token, sign_token-verify_token,
}
use fuel_chain.Sessions.Passwords.{Crypto, verify_password}
use fuel_chain.Sessions.Login.{User, with_email, with_key, ttl_sec, auth_user, login, resolve_user}

abbrev is_cons : String → Bool
is_cons String.[] = false
is_cons (String.◌∷◌ c s) = true

full_cons : (c : Char) (s : String) → given (some (String.◌∷◌ c s)) ≡ some (String.◌∷◌ c s)
full_cons c s = elim (Bool-cases (str_eq (String.◌∷◌ c s) "")) [
  | inl e ↦ let same : true ≡ false = ap is_cons ((eq_iff (String.◌∷◌ c s) "").0 e) in absurd (cc)
  | inr e ↦ rw e refl
]

full_joined : (s t : String) → given (some (joined "." s t)) ≡ some (joined "." s t)
unfolding joined
full_joined String.[] t = full_cons "." t
full_joined (String.◌∷◌ c s) t = full_cons c (joined "." s t)

-- What a login that returned went through.
login-ok :
    (c : Codec) (k : Crypto) (key : ℕ → String) (email password token : String) (now : ℕ)
    → (users : List User) (db : Db) (actor : Actor)
    → login c k key email password now users db ≡ ok (token, actor)
    → (user : User) × (stored : String) × (with_email email users ≡ some user)
      × (given user.password_hash ≡ some stored)
      × (verify_password k password stored ≡ true)
      × (sign_token c (key user.id) (role_text user.role) ttl_sec now ≡ ok token)
      × (auth_user user db ≡ actor)
unfolding login
login-ok c k key email password token now users db actor h =
    let (user, found, a) = >>=-eq-ok (or_throw (with_email email users) bad_credentials) _ h in
    let (stored, has, b) = >>=-eq-ok (or_throw (given user.password_hash) bad_credentials) _ a in
    let (done, passed, e) =
      >>=-eq-ok (refuse_if (not (verify_password k password stored)) bad_credentials) _ b in
    let (signed, made, ends) =
      >>=-eq-ok (sign_token c (key user.id) (role_text user.role) ttl_sec now) _ e in
    let same : signed ≡ token = ground arith in
    (
      user,
      stored,
      or_throw-eq-ok (with_email email users) bad_credentials user found,
      or_throw-eq-ok (given user.password_hash) bad_credentials stored has,
      ground (arith, passed),
      made ∙ ap ok same,
      ground arith,
    )

resolved :
    (c : Codec) (key : ℕ → String) (token : String) (later : ℕ) (users : List User) (db : Db)
    → (claims : Claims) (user : User) → given (some token) ≡ some token
    → verify_token c token later ≡ ok claims
    → with_key key claims.sub users ≡ some user
    → resolve_user c key (some token) later users db ≡ ok (auth_user user db)
unfolding resolve_user
resolved c key token later users db claims user full live found = rw (full, live, found) refl

token_full :
    (c : Codec) (sub role token : String) (ttl now : ℕ)
    → sign_token c sub role ttl now ≡ ok token
    → given (some token) ≡ some token
unfolding sign_token
token_full c sub role token ttl now h =
    let (secret, set, rest) = >>=-eq-ok (secret_of c) _ h in
    let body = c.encode (record { sub = sub; role = role; exp = now + ttl }) in
    let made : joined "." body (c.hmac secret body) ≡ token = cc in
    subst (λ (t : String). given (some t) ≡ some t) made (full_joined body (c.hmac secret body))

-- The user who logs in is one with the email and the stored text of the password, and for twelve hours the
-- token that the login returns resolves to that user: where the secret is set, decoding undoes
-- encoding, neither the body nor the signature of the token is empty or holds a dot, and no other user
-- has the text of that user's key.
pub login-resolve_user :
    (c : Codec) (k : Crypto) (key : ℕ → String) (email password token secret : String)
    → (now later : ℕ) (users : List User) (db : Db) (user : User) (actor : Actor)
    → let claims : Claims = record {
      sub = key user.id;
      role = role_text user.role;
      exp = now + ttl_sec;
    } in
      let body = c.encode claims in
      with_email email users ≡ some user
      → count_where (λ (u : User). str_eq (key u.id) (key user.id)) users ≤ 1
      → given c.secret ≡ some secret
      → c.decode body ≡ some claims
      → given (some body) ≡ some body
      → Unsplit "." body
      → given (some (c.hmac secret body)) ≡ some (c.hmac secret body)
      → Unsplit "." (c.hmac secret body)
      → 1 ≤ later
      → later ≤ now + ttl_sec
      → login c k key email password now users db ≡ ok (token, actor)
      → (stored : String) × (given user.password_hash ≡ some stored)
        × (verify_password k password stored ≡ true)
        × (actor.id ≡ user.id)
        × (actor.role ≡ user.role)
        × (resolve_user c key (some token) later users db ≡ ok actor)
login-resolve_user c k key email password token secret now later users db user actor emailed one set
      decodes full plain full_sig plain_sig started live h =
    let (u, stored, found, has, passed, made, same) =
      login-ok c k key email password token now users db actor h in
    let same_user : u ≡ user = cc in
    let signed : sign_token c (key user.id) (role_text user.role) ttl_sec now ≡ ok token =
      subst (λ (v : User). sign_token c (key v.id) (role_text v.role) ttl_sec now ≡ ok token)
        same_user made in
    let accepted =
      sign_token-verify_token c (key user.id) (role_text user.role) ttl_sec now later token secret
        set decodes full plain full_sig plain_sig started live signed in
    let by_email = λ (v : User). str_eq v.email email in
    let by_key = λ (v : User). str_eq (key v.id) (key user.id) in
    let keyed : with_key key (key user.id) users ≡ some user =
      find_first_unique by_email by_key users user emailed (eq_refl (key user.id)) one in
    let actor_is : auth_user user db ≡ actor =
      subst (λ (v : User). auth_user v db ≡ actor) same_user same in
    let claims : Claims = record {
      sub = key user.id;
      role = role_text user.role;
      exp = now + ttl_sec;
    } in
    (
      stored,
      subst (λ (v : User). given v.password_hash ≡ some stored) same_user has,
      passed,
      sym (ap (λ (a : Actor). a.id) actor_is),
      sym (ap (λ (a : Actor). a.role) actor_is),
      resolved c key token later users db claims user
            (token_full c (key user.id) (role_text user.role) token ttl_sec now signed) accepted
            keyed
          ∙ ap ok actor_is,
    )
