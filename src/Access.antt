-- ===== src/Access.antt =====
-- Who may call what: the sets of roles of apps/api/src/auth/permissions.ts and the guard of
-- apps/api/src/auth/roles.guard.ts that reads them.
use fuel_chain.Base.{
  ◌≡◌, Bool, false, not, ◌||◌, Option, none, some, List, [], ◌∷◌, Result, ok, err, refuse_if, arith,
}
use fuel_chain.Schema.{
  ActorRole, admin, importer, transporter, depot_operator, lab, auditor, station_staff, verifier,
  citizen, same_role, Exception, login_required, role_forbidden,
}
use fuel_chain.Store.{Actor}

-- The keys of `RolesAllowed`.
pub data Permission : Type 0 where
  batch_create batch_update batch_delete custody_write qr_issue qr_accept qr_sync : Permission
  blockchain_anchor vehicles_write documents_write quality_write tanks_write : Permission
  measurements_write anomaly_create anomaly_status audit_write authorization_write : Permission
  transport_write customs_write demo_simulate checkpoint_write checkpoint_read : Permission

unfoldable pub roles_allowed : Permission → List ActorRole
roles_allowed batch_create = admin ∷ importer ∷ []
roles_allowed batch_update = admin ∷ importer ∷ auditor ∷ []
roles_allowed batch_delete = admin ∷ []
roles_allowed custody_write = admin ∷ importer ∷ transporter ∷ depot_operator ∷ station_staff ∷ []
roles_allowed qr_issue = admin ∷ transporter ∷ depot_operator ∷ []
roles_allowed qr_accept = admin ∷ station_staff ∷ []
roles_allowed qr_sync = admin ∷ station_staff ∷ depot_operator ∷ transporter ∷ []
roles_allowed blockchain_anchor = admin ∷ auditor ∷ importer ∷ []
roles_allowed vehicles_write = admin ∷ transporter ∷ depot_operator ∷ importer ∷ []
roles_allowed documents_write = admin ∷ importer ∷ depot_operator ∷ lab ∷ auditor ∷ []
roles_allowed quality_write = admin ∷ lab ∷ []
roles_allowed tanks_write = admin ∷ depot_operator ∷ station_staff ∷ []
roles_allowed measurements_write = admin ∷ depot_operator ∷ station_staff ∷ lab ∷ []
roles_allowed anomaly_create = admin ∷ auditor ∷ depot_operator ∷ station_staff ∷ []
roles_allowed anomaly_status = admin ∷ auditor ∷ verifier ∷ []
roles_allowed audit_write = admin ∷ auditor ∷ verifier ∷ []
roles_allowed authorization_write = admin ∷ importer ∷ []
roles_allowed transport_write = admin ∷ importer ∷ transporter ∷ depot_operator ∷ []
roles_allowed customs_write = admin ∷ importer ∷ auditor ∷ []
roles_allowed demo_simulate = admin ∷ transporter ∷ depot_operator ∷ []
roles_allowed checkpoint_write = admin ∷ transporter ∷ depot_operator ∷ []
roles_allowed checkpoint_read =
    admin ∷ transporter ∷ depot_operator ∷ station_staff ∷ verifier ∷ auditor ∷ []

-- `roles.includes(role)`
abbrev pub includes : List ActorRole → ActorRole → Bool
includes [] r = false
includes (x ∷ xs) r = same_role x r || includes xs r

abbrev pub admit : List ActorRole → Option Actor → Result Exception (Unit {0})
admit roles none = err login_required
admit roles (some user) = refuse_if (not (includes roles user.role)) role_forbidden

-- A handler that no roles are named for is open to everybody.
unfoldable pub can_activate : Option (List ActorRole) → Option Actor → Result Exception (Unit {0})
can_activate none user = ok tt
can_activate (some []) user = ok tt
can_activate (some (r ∷ rs)) user = admit (r ∷ rs) user

-- The guard of the receptions lets a user through exactly where `accept` itself does not refuse the
-- role.
pub can_activate-accept :
    (user : Actor)
    → can_activate (some (roles_allowed qr_accept)) (some user)
      ≡ refuse_if
          (not (same_role user.role station_staff || same_role user.role admin))
          role_forbidden
unfolding can_activate roles_allowed
can_activate-accept user = by_role user.role
  where
    by_role :
        (r : ActorRole)
        → refuse_if (not (includes (admin ∷ station_staff ∷ []) r)) role_forbidden
          ≡ refuse_if (not (same_role r station_staff || same_role r admin)) role_forbidden
    by_role r = ground arith

-- Nobody but an administrator passes both the guard of the dispatches and that of the receptions: who
-- sends fuel cannot confirm that it arrived.
pub roles_allowed-separate :
    (user : Actor)
    → can_activate (some (roles_allowed qr_issue)) (some user) ≡ ok tt
    → can_activate (some (roles_allowed qr_accept)) (some user) ≡ ok tt
    → user.role ≡ admin
unfolding can_activate roles_allowed
roles_allowed-separate user issue accept = ground (arith, issue, accept)

-- A handler with one of these sets of roles refuses a request without a session and one of a
-- citizen, whichever set it is.
pub roles_allowed-citizen :
    (p : Permission) (user : Actor)
    → user.role ≡ citizen
    → (can_activate (some (roles_allowed p)) none ≡ err login_required)
      × (can_activate (some (roles_allowed p)) (some user) ≡ err role_forbidden)
unfolding can_activate roles_allowed
roles_allowed-citizen p user h = ground (arith, h)
