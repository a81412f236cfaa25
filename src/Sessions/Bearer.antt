-- ===== src/Sessions/Bearer.antt =====
-- How a request shows its token: the header that the guard of apps/api/src/auth/auth.guard.ts reads, and
-- the guard of the roles after it.
use fuel_chain.Base.{
  >>=-eq-ok, or_throw-eq-ok, arith, ◌≤◌, ◌∷◌, ℕ, ◌+◌, ◌≡◌, refl, ap, ◌∙◌, String, Bool, true, false,
  ◌&&◌, Option, none, some, List, ◌==◌, leb, if◌then◌else◌, Result, ok, or_throw, ◌>>=◌,
}
use Prim.Native.Char.{code}
use fuel_chain.Base.Text.{is_space, trim, trim_start, trim_end}
use fuel_chain.Base.Split.{joined, part, second_part}
use fuel_chain.Schema.{ActorRole}
use fuel_chain.Access.{includes, can_activate}
use fuel_chain.Store.{Db, Actor}
use fuel_chain.Custody.Accept.{given, given-some}
use fuel_chain.Sessions.{
  Codec, Claims, Refusal, login_required, no_session, unknown_user, verify_token, verify_token-ok,
}
use fuel_chain.Sessions.Login.{User, with_key, auth_user, resolve_user}

-- The code of a letter, with those of A to Z as those of a to z.
abbrev folded : ℕ → ℕ
folded c = if leb 65 c && leb c 90 then c + 32 else c

-- What follows a prefix, in letters of either case.
unfoldable pub after_prefix : String → String → Option String
after_prefix String.[] s = some s
after_prefix (String.◌∷◌ p ps) String.[] = none
after_prefix (String.◌∷◌ p ps) (String.◌∷◌ c s) =
    let rest = after_prefix ps s in if folded (code p) == folded (code c) then rest else none

abbrev starts_spaced : String → Bool
starts_spaced String.[] = false
starts_spaced (String.◌∷◌ c s) = is_space (code c)

abbrev pub strip_from : Option String → String → String
strip_from none header = header
strip_from (some rest) header = if starts_spaced rest then trim_start rest else header

-- `header.replace(/^Bearer\s+/i, '')`
unfoldable pub strip_bearer : String → String
strip_bearer header = strip_from (after_prefix "bearer" header) header

abbrev pub shown : Option String → Option String
shown none = none
shown (some header) = given (some (trim (strip_bearer header)))

-- `AuthGuard.canActivate`: the user that it puts into the request.
unfoldable pub authenticate :
    Codec → (ℕ → String) → Option String → ℕ → List User → Db → Result Refusal Actor
authenticate c key header now users db = do
  token ← or_throw (shown header) login_required
  resolve_user c key (some token) now users db

strip_bearer_lem :
    (token : String) → trim_start token ≡ token → strip_bearer (joined " " "Bearer" token) ≡ token
unfolding strip_bearer after_prefix joined trim_start
strip_bearer_lem token h = h

-- The header `Bearer`, a space and a token shows the token, where it neither is empty nor starts or
-- ends with white space.
authenticate-resolve_user :
    (c : Codec) (key : ℕ → String) (token : String) (now : ℕ) (users : List User) (db : Db)
    → trim_start token ≡ token
    → trim_end token ≡ token
    → given (some token) ≡ some token
    → authenticate c key (some (joined " " "Bearer" token)) now users db
      ≡ resolve_user c key (some token) now users db
unfolding authenticate trim
authenticate-resolve_user c key token now users db starts ends full =
    let same : shown (some (joined " " "Bearer" token)) ≡ some token =
      ap (λ s. given (some (trim_start (trim_end s)))) (strip_bearer_lem token starts)
      ∙ ap (λ s. given (some (trim_start s))) ends
      ∙ ap (λ s. given (some s)) starts
      ∙ full in
    rw same refl

resolve_user-ok :
    (c : Codec) (key : ℕ → String) (token : String) (now : ℕ) (users : List User) (db : Db)
    → (actor : Actor) → resolve_user c key (some token) now users db ≡ ok actor
    → (text : String) × (claims : Claims) × (user : User) × (given (some token) ≡ some text)
      × (verify_token c text now ≡ ok claims)
      × (with_key key claims.sub users ≡ some user)
      × (auth_user user db ≡ actor)
unfolding resolve_user
resolve_user-ok c key token now users db actor h =
    let (text, full, a) = >>=-eq-ok (or_throw (given (some token)) no_session) _ h in
    let (claims, live, b) = >>=-eq-ok (verify_token c text now) _ a in
    let (user, found, ends) =
      >>=-eq-ok (or_throw (with_key key claims.sub users) unknown_user) _ b in
    (
      text,
      claims,
      user,
      or_throw-eq-ok (given (some token)) no_session text full,
      live,
      or_throw-eq-ok (with_key key claims.sub users) unknown_user user found,
      ground arith,
    )

admitted :
    (r : ActorRole) (roles : List ActorRole) (actor : Actor)
    → can_activate (some (r ∷ roles)) (some actor) ≡ ok tt
    → includes (r ∷ roles) actor.role ≡ true
unfolding can_activate
admitted r roles actor h = ground (arith, h)

-- A request that passes both guards of a handler with roles shows a token with the signature of its body
-- under the secret of the server, which is set, not expired, that names a user of the database; and the role that this user has in the database,
-- whatever role the token names, is one of the handler's.
pub authenticate-can_activate :
    (c : Codec) (key : ℕ → String) (header : String) (now : ℕ) (users : List User) (db : Db)
    → (actor : Actor) (r : ActorRole) (roles : List ActorRole)
    → authenticate c key (some header) now users db ≡ ok actor
    → can_activate (some (r ∷ roles)) (some actor) ≡ ok tt
    → (token : String) × (claims : Claims) × (user : User) × (secret : String) × (shown
          (some header)
        ≡ some token)
      × (given c.secret ≡ some secret)
      × (second_part "." token ≡ some (c.hmac secret (part "." token)))
      × (c.decode (part "." token) ≡ some claims)
      × (now ≤ claims.exp)
      × (with_key key claims.sub users ≡ some user)
      × (auth_user user db ≡ actor)
      × (includes (r ∷ roles) user.role ≡ true)
unfolding authenticate
authenticate-can_activate c key header now users db actor r roles h allowed =
    let (token, found, rest) = >>=-eq-ok (or_throw (shown (some header)) login_required) _ h in
    let is_shown = or_throw-eq-ok (shown (some header)) login_required token found in
    let (text, claims, user, full, live, keyed, same) =
      resolve_user-ok c key token now users db actor rest in
    let same_text = given-some (some token) text full in
    let (secret, set, signed, decodes, alive) = verify_token-ok c text now claims live in
    (
      text,
      claims,
      user,
      secret,
      is_shown ∙ same_text,
      set,
      signed,
      decodes,
      alive,
      keyed,
      same,
      ap (λ (a : Actor). includes (r ∷ roles) a.role) same ∙ admitted r roles actor allowed,
    )
