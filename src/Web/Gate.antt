-- ===== src/Web/Gate.antt =====
-- The gate before every page, and the session that it reads: apps/web/src/components/auth-gate.tsx and
-- apps/web/src/components/auth-provider.tsx. The text of a parameter in a URL is a parameter.
use fuel_chain.Base.{
  ◌⊎◌, ◌≢◌, eq_iff, Bool-cases, inl, inr, subst, ◌≡◌, refl, sym, String, Bool, true, false, not,
  ◌&&◌, ◌||◌, Option, none, some, List, [], ◌∷◌, str_eq, if◌then◌else◌, arith,
}
use fuel_chain.Base.Text.{starts_with}
use fuel_chain.Base.Split.{joined}
use fuel_chain.Schema.{
  ActorRole, admin, importer, transporter, depot_operator, lab, auditor, station_staff, verifier,
  citizen,
}
use fuel_chain.Custody.Accept.{given}
use fuel_chain.Web.Paths.{safe_internal_path}
use fuel_chain.Web.Roles.{home_for_role, can_access_path, nav_for_role-can_access_path}
use Prim.Native.String.{◌++◌}

-- The role of a session, which the application may not know.
pub record Session : Type 0 where
  pub token : String
  pub role : Option ActorRole

-- What the provider keeps, and what stands in the storage of the browser under its key.
pub record AuthState : Type 0 where
  pub session : Option Session
  pub ready : Bool
  pub stored : Option String

-- Reading the storage when a page is mounted: `parse` reads a text, and one that is none is removed.
abbrev pub restored : Option String → Option Session → AuthState
restored raw (some s) = record { session = some s; ready = true; stored = raw }
restored raw none = record { session = none; ready = true; stored = none }

unfoldable pub mount : (String → Option Session) → AuthState → AuthState
mount parse a = elim (given a.stored) [
  | none ↦ record a { ready = true }
  | some raw ↦ restored (some raw) (parse raw)
]

-- A login that the API accepted.
unfoldable pub log_in : (Session → String) → Session → AuthState → AuthState
log_in print s a = record a { session = some s; stored = some (print s) }

unfoldable pub log_out : AuthState → AuthState
log_out a = record a { session = none; stored = none }

-- The header of a request, where there is a token: `Bearer`, a space and the token.
abbrev pub auth_header : AuthState → Option String
auth_header a = elim a.session [
  | none ↦ none
  | some s ↦ elim (given (some s.token)) [ none ↦ none | some t ↦ some (joined " " "Bearer" t) ]
]

-- `PUBLIC`
abbrev pub public_paths : List String
public_paths = "/login" ∷ "/mapa" ∷ "/cochabamba" ∷ "/q" ∷ "/acceso" ∷ []

abbrev pub is_under : String → List String → Bool
is_under pathname [] = false
is_under pathname (p ∷ ps) =
    (str_eq pathname p || starts_with (p ++ "/") pathname) || is_under pathname ps

abbrev pub is_public : String → Bool
is_public pathname = is_under pathname public_paths

-- `qs ? `${pathname}?${qs}` : pathname || '/'`
abbrev pub here : String → String → String
here pathname qs =
    if str_eq qs "" then (if str_eq pathname "" then "/" else pathname) else joined "?" pathname qs

abbrev pub role_blocked : Option ActorRole → String → Bool
role_blocked role pathname = not (str_eq pathname "/login") && not (can_access_path role pathname)

-- Where a user that is at the login goes.
unfoldable pub after_login : Option ActorRole → Option String → String
after_login role next =
    let requested = safe_internal_path next in
    if not (str_eq requested "")
      && (not (str_eq requested "/login")
          && (not (str_eq requested "/") && can_access_path role requested))
    then requested
    else home_for_role role

-- The text that the gate hands to `router.replace`, where it sends the user elsewhere. What path, query
-- and fragment the browser makes of it is no part of this.
unfoldable pub redirect :
    (String → String) → AuthState → String → String → Option String → Option String
redirect encode a pathname qs next =
    if a.ready
    then elim a.session [
      | none ↦
          if is_public pathname
          then none
          else some (joined "?" "/login" ("next=" ++ encode (here pathname qs)))
      | some s ↦
          if str_eq pathname "/login"
          then some (after_login s.role next)
          else (if role_blocked s.role pathname then some (home_for_role s.role) else none)
    ]
    else none

pub data Screen : Type 0 where
  loading blank redirecting page : Screen

unfoldable pub screen : AuthState → String → Screen
screen a pathname =
    if a.ready
    then elim a.session [
      | none ↦ if is_public pathname then page else blank
      | some s ↦
          if str_eq pathname "/login"
          then blank
          else (if role_blocked s.role pathname then redirecting else page)
    ]
    else loading

home-can_access_path : (r : ActorRole) → can_access_path (some r) (home_for_role (some r)) ≡ true
home-can_access_path r = (nav_for_role-can_access_path r).1

home-login : (r : ActorRole) → str_eq (home_for_role (some r)) "/login" ≡ false
unfolding home_for_role
home-login admin = refl
home-login importer = refl
home-login transporter = refl
home-login depot_operator = refl
home-login lab = refl
home-login auditor = refl
home-login station_staff = refl
home-login verifier = refl
home-login citizen = refl

-- A path that the role may open and that is not the login.
Open : ActorRole → String → Type 0
Open r path = (can_access_path (some r) path ≡ true) × (str_eq path "/login" ≡ false)

home-Open : (r : ActorRole) → Open r (home_for_role (some r))
unfolding Open
home-Open r = (home-can_access_path r, home-login r)

after_login-Open : (r : ActorRole) (next : Option String) → Open r (after_login (some r) next)
unfolding after_login Open
after_login-Open r next =
    let requested = safe_internal_path next in
    chosen (str_eq requested "") (str_eq requested "/login") (str_eq requested "/")
      (can_access_path (some r) requested) requested refl refl
  where
    chosen :
        (empty login root open_to : Bool) (requested : String)
        → str_eq requested "/login" ≡ login
        → can_access_path (some r) requested ≡ open_to
        → Open r (
            if not empty && (not login && (not root && open_to))
            then requested
            else home_for_role (some r))
    chosen false false false true requested e f = (f, e)
    chosen true login root open_to requested e f = home-Open r
    chosen false true root open_to requested e f = home-Open r
    chosen false false true open_to requested e f = home-Open r
    chosen false false false false requested e f = home-Open r

open_shown :
    (r : ActorRole) (token path : String) (stored : Option String) (encode : String → String)
    → Open r path
    → let a : AuthState = record {
      session = some (record { token = token; role = some r });
      ready = true;
      stored = stored;
    } in
      (redirect encode a path "" none ≡ none) × (screen a path ≡ page)
unfolding redirect screen Open
open_shown r token path stored encode h = (ground (arith, h), ground (arith, h))

-- Where the gate sends a user with a role.
sent :
    (r : ActorRole) (at_login blocked : Bool) (next : Option String) (dest : String)
    → (if at_login
        then some (after_login (some r) next)
        else (if blocked then some (home_for_role (some r)) else none))
      ≡ some dest
    → Open r dest
sent r true blocked next dest h = subst (Open r) (cc) (after_login-Open r next)
sent r false true next dest h = subst (Open r) (cc) (home-Open r)
sent r false false next dest h = absurd (cc)

-- Where a user with a role is on a page that is not the login: there the page is shown, or the user is sent
-- to the home of the role.
away_from_login :
    (encode : String → String) (r : ActorRole) (token path qs : String)
    (next stored : Option String)
    → let a : AuthState = record {
      session = some (record { token = token; role = some r });
      ready = true;
      stored = stored;
    } in
      path ≢ "/login"
      → ((redirect encode a path qs next ≡ none) × (screen a path ≡ page))
        ⊎ (redirect encode a path qs next ≡ some (home_for_role (some r)))
unfolding redirect screen
away_from_login encode r token path qs next stored elsewhere =
    elim (Bool-cases (str_eq path "/login")) [
      | inl e ↦ absurd (elsewhere ((eq_iff path "/login").0 e))
      | inr e ↦ elim (Bool-cases (can_access_path (some r) path)) [
        | inl b ↦ inl (rw (e, b) refl, rw (e, b) refl)
        | inr b ↦ inr (rw (e, b) refl)
      ]
    ]

-- Wherever the gate sends a user with a role, and whatever path the browser makes of that text, with whatever
-- query: unless that path is the login again, the user comes to rest there, or is sent to the home of the
-- role and comes to rest there, where the browser keeps the path of that home.
pub redirect-rests :
    (encode land : String → String) (r : ActorRole) (token pathname qs qs' dest : String)
    → (next next' stored : Option String)
    → let a : AuthState = record {
      session = some (record { token = token; role = some r });
      ready = true;
      stored = stored;
    } in
      let home = home_for_role (some r) in
      land home ≡ home
      → redirect encode a pathname qs next ≡ some dest
      → land dest ≢ "/login"
      → ((redirect encode a (land dest) qs' next' ≡ none) × (screen a (land dest) ≡ page))
        ⊎ ((redirect encode a (land dest) qs' next' ≡ some home)
            × (redirect encode a (land home) "" none ≡ none)
            × (screen a (land home) ≡ page))
redirect-rests encode land r token pathname qs qs' dest next next' stored keeps h elsewhere =
    let a : AuthState = record {
      session = some (record { token = token; role = some r });
      ready = true;
      stored = stored;
    } in
    elim (away_from_login encode r token (land dest) qs' next' stored elsewhere) [
      | inl rest ↦ inl rest
      | inr sent_home ↦
          let rest =
            subst (λ (p : String). (redirect encode a p "" none ≡ none) × (screen a p ≡ page))
              (sym keeps)
              (open_shown r token (home_for_role (some r)) stored encode (home-Open r)) in
          inr (sent_home, rest.0, rest.1)
    ]

-- Where the gate sends a user with a role to a text that the browser keeps as the path of the page (it has no
-- query, fragment or dot segment), it shows the page there and sends the user no further.
pub redirect-settled :
    (encode land : String → String) (r : ActorRole) (token pathname qs dest : String)
    → (next stored : Option String)
    → let a : AuthState = record {
      session = some (record { token = token; role = some r });
      ready = true;
      stored = stored;
    } in
      land dest ≡ dest
      → redirect encode a pathname qs next ≡ some dest
      → (redirect encode a (land dest) "" none ≡ none) × (screen a (land dest) ≡ page)
unfolding redirect
redirect-settled encode land r token pathname qs dest next stored keeps h =
    let a : AuthState = record {
      session = some (record { token = token; role = some r });
      ready = true;
      stored = stored;
    } in
    let opens = sent r (str_eq pathname "/login") (role_blocked (some r) pathname) next dest h in
    subst (λ (p : String). (redirect encode a p "" none ≡ none) × (screen a p ≡ page)) (sym keeps)
      (open_shown r token dest stored encode opens)
