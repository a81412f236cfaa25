-- ===== src/Listings.antt =====
-- What a user sees of the settlements, the checkpoints and the delivery contracts: `listForActor` of
-- apps/api/src/settlements/settlements.service.ts and of apps/api/src/checkpoints/checkpoints.service.ts,
-- and `listContractsForActor` of apps/api/src/stations/stations.service.ts. Rows with one time are
-- taken in the order in which they were stored.
pub mod Seen
use fuel_chain.Base.{
  ℕ, String, Bool, true, false, not, ◌&&◌, ◌||◌, Option, none, some, List, ◌==◌, leb, str_eq,
  if◌then◌else◌, filter, sort_by, reverse, take, Result, ok, err,
}
use fuel_chain.Schema.{
  admin, transporter, auditor, station_staff, verifier, same_role, Exception, no_settlement_access,
}
use fuel_chain.Settlement.{Settlement}
use fuel_chain.Store.{Db, Actor, Delivery, Checkpoint, Cistern, cistern_by_id, delivery_by_id}
use fuel_chain.Custody.Accept.{given}
use fuel_chain.Custody.Issue.{is_driver}

abbrev pub code_of : Option Cistern → Option String
code_of none = none
code_of (some c) = some c.code

abbrev pub same_code : Option String → Option String → Bool
same_code (some a) (some b) = str_eq a b
same_code _ _ = false

-- `cistern: { code: user.cisternCode }`, where the user has a cistern
abbrev pub on_own_cistern : Actor → Db → ℕ → Bool
on_own_cistern user db k = same_code (code_of (cistern_by_id k db)) (given user.cistern_code)

abbrev pub at_station : Option ℕ → ℕ → Bool
at_station none k = false
at_station (some j) k = k == j

abbrev pub is_own : Actor → Db → Settlement → Bool
is_own user db s = is_driver s.driver_id user.id || on_own_cistern user db s.cistern_id

-- `orderBy: { createdAt: 'desc' }, take: 40`
abbrev pub newest_settlements : (Settlement → Bool) → Db → List Settlement
newest_settlements p db = take 40 (reverse (filter p db.settlements))

-- A member of a station that has no station is refused like the roles that have no access.
abbrev pub settlements_of_others : Actor → Db → Result Exception (List Settlement)
settlements_of_others user db =
    if same_role user.role transporter
    then ok (newest_settlements (is_own user db) db)
    else (if same_role user.role admin || same_role user.role verifier
        then ok (newest_settlements (λ s. true) db)
        else err no_settlement_access)

abbrev pub has_station : Actor → Bool
has_station user =
    same_role user.role station_staff && elim user.station_id [ none ↦ false | some k ↦ true ]

unfoldable pub list_settlements : Actor → Db → Result Exception (List Settlement)
list_settlements user db =
    if has_station user
    then ok (newest_settlements (λ (s : Settlement). at_station user.station_id s.station_id) db)
    else settlements_of_others user db

abbrev pub goes_to : Option ℕ → Option Delivery → Bool
goes_to station none = false
goes_to station (some d) = at_station station d.destination_station_id

abbrev pub trip_of : Checkpoint → Db → Option Delivery
trip_of c db = elim c.delivery_id [ none ↦ none | some k ↦ delivery_by_id k db ]

abbrev pub sees_points_of_all : Actor → Bool
sees_points_of_all user =
    same_role user.role verifier || (same_role user.role auditor || same_role user.role admin)

abbrev pub sees_point : Actor → Db → Checkpoint → Bool
sees_point user db c =
    if has_station user
    then goes_to user.station_id (trip_of c db)
    else (if sees_points_of_all user then true else elim (given user.cistern_code) [
      | none ↦ c.actor_id == user.id
      | some code ↦ on_own_cistern user db c.cistern_id
    ])

unfoldable pub list_checkpoints : Actor → Db → List Checkpoint
list_checkpoints user db = take 200 (
    sort_by (λ (c d : Checkpoint). leb d.captured_at c.captured_at)
      (filter (sees_point user db) db.checkpoints))

abbrev pub driver_of : Option Cistern → Option ℕ
driver_of none = none
driver_of (some c) = c.driver_id

abbrev pub sees_contract : Actor → Db → Delivery → Bool
sees_contract user db d =
    if has_station user
    then at_station user.station_id d.destination_station_id
    else elim (given user.cistern_code) [
      | some code ↦ on_own_cistern user db d.cistern_id
      | none ↦
          if same_role user.role admin
          then true
          else is_driver (driver_of (cistern_by_id d.cistern_id db)) user.id
    ]

unfoldable pub list_contracts : Actor → Db → List Delivery
list_contracts user db = take 20 (
    sort_by (λ (d e : Delivery). leb e.loaded_at d.loaded_at)
      (filter (sees_contract user db) db.deliveries))
