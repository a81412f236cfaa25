-- ===== src/Sessions.antt =====
-- The tokens of a session: `signToken` and `verifyToken` of apps/api/src/auth/auth.service.ts. `Passwords`
-- and `Login` are how a user gets one, `Bearer` how a request shows it. The text
-- that JSON and base64url make of the claims, their inverse, and the HMAC are parameters. Times are
-- seconds.
pub mod Passwords
pub mod Login
pub mod Bearer
use fuel_chain.Base.{
  ℕ, ◌+◌, ◌≤◌, ◌≡◌, refl, sym, ap, ◌∙◌, String, Bool, true, false, not, ◌&&◌, Option, none, some,
  ◌==◌, ltb, str_eq, eq_iff, if◌then◌else◌, Result, ok, err, ◌>>=◌, or_throw, Bool-cases, inl, inr,
  arith,
}
use package.text.Mathlib.TextPositions.{eq_refl}
use fuel_chain.Base.Split.{
  part, joined, after, part_of, second_part, Unsplit, part-joined, part_self, after-joined,
}
use fuel_chain.Custody.Accept.{given, given-some}

pub record Claims : Type 0 where
  pub sub : String
  pub role : String
  pub exp : ℕ

pub data Refusal : Type 0 where
  secret_missing malformed bad_signature unreadable expired : Refusal
  no_session login_required bad_credentials unknown_user role_refused : Refusal

pub record Codec : Type 0 where
  pub secret : Option String
  pub encode : Claims → String
  pub decode : String → Option Claims
  pub hmac : String → String → String

unfoldable pub secret_of : Codec → Result Refusal String
secret_of c = or_throw (given c.secret) secret_missing

unfoldable pub sign_token : Codec → String → String → ℕ → ℕ → Result Refusal String
sign_token c sub role ttl now = do
  secret ← secret_of c
  let body = c.encode (record { sub = sub; role = role; exp = now + ttl })
  ok (joined "." body (c.hmac secret body))

abbrev is_live : ℕ → Claims → Bool
is_live now p = not (p.exp == 0) && not (ltb p.exp now)

abbrev pub read_claims : ℕ → Option Claims → Result Refusal Claims
read_claims now none = err unreadable
read_claims now (some p) = if is_live now p then ok p else err expired

-- The signature is checked before the body is read.
abbrev pub check_signed : Codec → ℕ → String → String → Option String → Result Refusal Claims
check_signed c now body sig none = err secret_missing
check_signed c now body sig (some secret) =
    if str_eq sig (c.hmac secret body) then read_claims now (c.decode body) else err bad_signature

abbrev pub verify_parts : Codec → ℕ → Option String → Option String → Result Refusal Claims
verify_parts c now (some body) (some sig) = check_signed c now body sig (given c.secret)
verify_parts c now _ _ = err malformed

unfoldable pub verify_token : Codec → String → ℕ → Result Refusal Claims
verify_token c token now =
    verify_parts c now (given (some (part "." token))) (given (second_part "." token))

signed_as :
    (secret : String) (o : Option String)
    → o ≡ some secret
    → {A : Type 0} (f : String → A) {out : A}
    → (or_throw o secret_missing >>= λ s. ok (f s)) ≡ ok out
    → f secret ≡ out
signed_as secret o e f h = cc

-- A token that was signed is accepted until it expires, and gives back the claims that were signed: where
-- the secret is set, decoding undoes encoding, and neither the body nor the signature is empty or
-- holds a dot.
pub sign_token-verify_token :
    (c : Codec) (sub role : String) (ttl now later : ℕ) (token secret : String)
    → let claims : Claims = record { sub = sub; role = role; exp = now + ttl } in
      let body = c.encode claims in
      given c.secret ≡ some secret
      → c.decode body ≡ some claims
      → given (some body) ≡ some body
      → Unsplit "." body
      → given (some (c.hmac secret body)) ≡ some (c.hmac secret body)
      → Unsplit "." (c.hmac secret body)
      → 1 ≤ later
      → later ≤ now + ttl
      → sign_token c sub role ttl now ≡ ok token
      → verify_token c token later ≡ ok claims
unfolding sign_token verify_token secret_of
sign_token-verify_token c sub role ttl now later token secret set decodes full_body plain_body
      full_sig plain_sig started live signed =
    let claims : Claims = record { sub = sub; role = role; exp = now + ttl } in
    let body = c.encode claims in
    let sig = c.hmac secret body in
    let made : joined "." body sig ≡ token = signed_as secret (given c.secret) set _ signed in
    let first : part "." token ≡ body =
      ap (part ".") (sym made) ∙ part-joined "." body sig plain_body in
    let rest : after "." token ≡ some sig =
      ap (after ".") (sym made) ∙ after-joined "." body sig plain_body in
    let both : second_part "." token ≡ some sig =
      ap (part_of ".") rest ∙ ap some (part_self "." sig plain_sig) in
    ap (λ b. verify_parts c later (given (some b)) (given (second_part "." token))) first
    ∙ ap (λ o. verify_parts c later (given (some body)) (given o)) both
    ∙ rw (full_body, full_sig, set, eq_refl sig, decodes) (ground (arith, started, live))

some_inj : (s t : String) → ◌≡◌ {A = Option String} (some s) (some t) → s ≡ t
some_inj s t h = cc

verify_parts-ok :
    (c : Codec) (now : ℕ) (b s : Option String) (claims : Claims)
    → verify_parts c now b s ≡ ok claims
    → (body : String) × (sig : String) × (b ≡ some body)
      × (s ≡ some sig)
      × (check_signed c now body sig (given c.secret) ≡ ok claims)
verify_parts-ok c now none s claims h = cc
verify_parts-ok c now (some b) none claims h = cc
verify_parts-ok c now (some b) (some s) claims h = (b, s, refl, refl, h)

check_signed-ok :
    (c : Codec) (now : ℕ) (body sig : String) (o : Option String) (claims : Claims)
    → check_signed c now body sig o ≡ ok claims
    → (secret : String) × (o ≡ some secret)
      × (sig ≡ c.hmac secret body)
      × (c.decode body ≡ some claims)
      × (now ≤ claims.exp)
check_signed-ok c now body sig none claims h = cc
check_signed-ok c now body sig (some secret) claims h =
    let (same, read) =
      signed (str_eq sig (c.hmac secret body)) (read_claims now (c.decode body)) h in
    let (decodes, live) = read_claims-ok now (c.decode body) claims read in
    (secret, refl, (eq_iff sig (c.hmac secret body)).0 same, decodes, live)
  where
    signed :
        (b : Bool) (r : Result Refusal Claims)
        → (if b then r else err bad_signature) ≡ ok claims
        → (b ≡ true) × (r ≡ ok claims)
    signed true r h = (refl, h)
    signed false r h = cc

    read_claims-ok :
        (now : ℕ) (o : Option Claims) (claims : Claims)
        → read_claims now o ≡ ok claims
        → (o ≡ some claims) × (now ≤ claims.exp)
    read_claims-ok now none claims h = cc
    read_claims-ok now (some p) claims h = ground (arith, h)

-- A token that is accepted carries the signature of its body under the secret, and claims that its body
-- decodes to and that have not expired.
pub verify_token-ok :
    (c : Codec) (token : String) (now : ℕ) (claims : Claims)
    → verify_token c token now ≡ ok claims
    → (secret : String) × (given c.secret ≡ some secret)
      × (second_part "." token ≡ some (c.hmac secret (part "." token)))
      × (c.decode (part "." token) ≡ some claims)
      × (now ≤ claims.exp)
unfolding verify_token
verify_token-ok c token now claims h =
    let (body, sig, b, s, r) =
      verify_parts-ok c now (given (some (part "." token))) (given (second_part "." token)) claims
        h in
    let same : part "." token ≡ body =
      some_inj (part "." token) body (given-some (some (part "." token)) body b) in
    let (secret, set, matches, decodes, live) =
      check_signed-ok c now body sig (given c.secret) claims r in
    (
      secret,
      set,
      given-some (second_part "." token) sig s ∙ ap some (matches ∙ ap (c.hmac secret) (sym same)),
      ap c.decode same ∙ decodes,
      live,
    )
