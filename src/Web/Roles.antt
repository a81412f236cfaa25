-- ===== src/Web/Roles.antt =====
-- What the web application shows to whom: apps/web/src/lib/role-access.ts. A role that it does not
-- know, or that is missing, is `none`. Labels and blurbs, which are only shown, are left out.
use fuel_chain.Base.{
  ◌≡◌, String, Bool, true, false, ◌||◌, ◌&&◌, not, Option, none, some, List, [], ◌∷◌, str_eq,
  filter, All, arith, if◌then◌else◌,
}
use fuel_chain.Base.Text.{starts_with}
use fuel_chain.Schema.{
  ActorRole, admin, importer, transporter, depot_operator, lab, auditor, station_staff, verifier,
  citizen, same_role,
}
use fuel_chain.Access.{
  includes, roles_allowed, batch_create, qr_issue, qr_accept, checkpoint_write, checkpoint_read,
  audit_write, anomaly_status, blockchain_anchor,
}
use Prim.Native.String.{◌++◌}

-- `ALL_NAV`, by its `href`s
abbrev pub all_nav : List String
all_nav =
    "/supervision" ∷ "/acceso" ∷ "/estacion" ∷ "/escanear" ∷ "/mi-qr" ∷ "/qr-prueba" ∷ "/verify"
    ∷ "/tramos" ∷ "/simular" ∷ "/mapa" ∷ "/" ∷ "/batches" ∷ "/anomalies" ∷ "/audits" ∷ "/blockchain"
    ∷ []

abbrev pub nav_by_role : ActorRole → List String
nav_by_role admin = all_nav
nav_by_role station_staff = "/estacion" ∷ "/escanear" ∷ "/tramos" ∷ "/blockchain" ∷ []
nav_by_role transporter = "/verify" ∷ "/mi-qr" ∷ "/tramos" ∷ "/simular" ∷ []
nav_by_role verifier = "/supervision" ∷ "/tramos" ∷ "/blockchain" ∷ []
nav_by_role citizen = "/mapa" ∷ []
nav_by_role depot_operator = "/verify" ∷ "/mi-qr" ∷ "/tramos" ∷ "/simular" ∷ []
nav_by_role importer = "/batches" ∷ "/mapa" ∷ "/blockchain" ∷ []
nav_by_role lab = "/batches" ∷ []
nav_by_role auditor = "/supervision" ∷ "/tramos" ∷ "/blockchain" ∷ "/anomalies" ∷ "/audits" ∷ []

abbrev pub home_by_role : ActorRole → String
home_by_role admin = "/supervision"
home_by_role station_staff = "/estacion"
home_by_role transporter = "/verify"
home_by_role verifier = "/supervision"
home_by_role citizen = "/mapa"
home_by_role depot_operator = "/verify"
home_by_role importer = "/batches"
home_by_role lab = "/batches"
home_by_role auditor = "/supervision"

abbrev pub routes_by_role : ActorRole → List String
routes_by_role admin = "/" ∷ []
routes_by_role station_staff =
    "/estacion" ∷ "/escanear" ∷ "/tramos" ∷ "/blockchain" ∷ "/q" ∷ "/c" ∷ []
routes_by_role transporter = "/verify" ∷ "/simular" ∷ "/tramos" ∷ "/mi-qr" ∷ "/q" ∷ "/c" ∷ []
routes_by_role verifier = "/supervision" ∷ "/tramos" ∷ "/blockchain" ∷ "/acceso" ∷ []
routes_by_role citizen = "/mapa" ∷ "/acceso" ∷ []
routes_by_role depot_operator = "/verify" ∷ "/simular" ∷ "/tramos" ∷ "/mi-qr" ∷ "/q" ∷ "/c" ∷ []
routes_by_role importer = "/batches" ∷ "/mapa" ∷ "/blockchain" ∷ []
routes_by_role lab = "/batches" ∷ []
routes_by_role auditor =
    "/supervision" ∷ "/tramos" ∷ "/blockchain" ∷ "/acceso" ∷ "/anomalies" ∷ "/audits" ∷ "/mapa"
    ∷ "/batches" ∷ []

abbrev pub has : String → List String → Bool
has s [] = false
has s (x ∷ xs) = str_eq x s || has s xs

unfoldable pub nav_for_role : Option ActorRole → List String
nav_for_role none = "/mapa" ∷ []
nav_for_role (some r) = filter (λ href. has href (nav_by_role r)) all_nav

unfoldable pub home_for_role : Option ActorRole → String
home_for_role none = "/mapa"
home_for_role (some r) = home_by_role r

-- A route covers its own path and those below it; the root covers itself only.
abbrev pub covers : String → String → Bool
covers pathname p =
    str_eq pathname p
    || ((not (str_eq p "/") && starts_with (p ++ "/") pathname)
        || (str_eq p "/" && str_eq pathname "/"))

abbrev pub some_covers : String → List String → Bool
some_covers pathname [] = false
some_covers pathname (p ∷ ps) = covers pathname p || some_covers pathname ps

unfoldable pub can_access_path : Option ActorRole → String → Bool
can_access_path none pathname = false
can_access_path (some r) pathname =
    if same_role r admin then true else some_covers pathname (routes_by_role r)

-- `role === 'A' || role === 'B' || …`
abbrev pub one_of : List ActorRole → Option ActorRole → Bool
one_of roles none = false
one_of [] (some r) = false
one_of (x ∷ xs) (some r) = same_role r x || one_of xs (some r)

unfoldable pub can_dispatch_fuel : Option ActorRole → Bool
can_dispatch_fuel = one_of (admin ∷ transporter ∷ depot_operator ∷ [])

unfoldable pub can_accept_custody : Option ActorRole → Bool
can_accept_custody = one_of (admin ∷ station_staff ∷ [])

unfoldable pub can_write_checkpoint : Option ActorRole → Bool
can_write_checkpoint = one_of (admin ∷ transporter ∷ depot_operator ∷ [])

unfoldable pub can_read_checkpoint : Option ActorRole → Bool
can_read_checkpoint =
    one_of (admin ∷ transporter ∷ depot_operator ∷ station_staff ∷ verifier ∷ auditor ∷ [])

unfoldable pub can_create_batch : Option ActorRole → Bool
can_create_batch = one_of (admin ∷ importer ∷ [])

unfoldable pub can_write_audit : Option ActorRole → Bool
can_write_audit = one_of (admin ∷ auditor ∷ verifier ∷ [])

unfoldable pub can_resolve_anomaly : Option ActorRole → Bool
can_resolve_anomaly = one_of (admin ∷ auditor ∷ verifier ∷ [])

unfoldable pub can_anchor_evidence : Option ActorRole → Bool
can_anchor_evidence = one_of (admin ∷ auditor ∷ importer ∷ [])

-- For every role, the web application offers an action exactly where the guard of the API lets the role
-- through: dispatches, receptions, checkpoints written and read, new batches, audits, the status of
-- anomalies, and anchors.
pub can_dispatch_fuel-roles_allowed :
    (r : ActorRole)
    → (can_dispatch_fuel (some r) ≡ includes (roles_allowed qr_issue) r)
      × (can_accept_custody (some r) ≡ includes (roles_allowed qr_accept) r)
      × (can_write_checkpoint (some r) ≡ includes (roles_allowed checkpoint_write) r)
      × (can_read_checkpoint (some r) ≡ includes (roles_allowed checkpoint_read) r)
      × (can_create_batch (some r) ≡ includes (roles_allowed batch_create) r)
      × (can_write_audit (some r) ≡ includes (roles_allowed audit_write) r)
      × (can_resolve_anomaly (some r) ≡ includes (roles_allowed anomaly_status) r)
      × (can_anchor_evidence (some r) ≡ includes (roles_allowed blockchain_anchor) r)
unfolding can_dispatch_fuel can_accept_custody can_write_checkpoint can_read_checkpoint
    can_create_batch can_write_audit can_resolve_anomaly can_anchor_evidence roles_allowed
can_dispatch_fuel-roles_allowed r = ground arith

-- The menu of a role holds no page that the role may not open, and the page on which it starts is one
-- that it may open.
pub nav_for_role-can_access_path :
    (r : ActorRole)
    → All (λ href. can_access_path (some r) href ≡ true) (nav_for_role (some r))
      × (can_access_path (some r) (home_for_role (some r)) ≡ true)
unfolding nav_for_role can_access_path home_for_role starts_with
nav_for_role-can_access_path admin = ground arith
nav_for_role-can_access_path importer = ground arith
nav_for_role-can_access_path transporter = ground arith
nav_for_role-can_access_path depot_operator = ground arith
nav_for_role-can_access_path lab = ground arith
nav_for_role-can_access_path auditor = ground arith
nav_for_role-can_access_path station_staff = ground arith
nav_for_role-can_access_path verifier = ground arith
nav_for_role-can_access_path citizen = ground arith
