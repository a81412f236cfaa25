-- ===== src/Custody/Issue.antt =====
-- The dispatch of fuel under a new baton, `issue` of custody-qr.service.ts: what is read and checked
-- before its transaction. `Baton` builds the payload, `Dispatch` is the transaction, `Request` the
-- whole; `Frames`, `Sealed` and `Effects` are about what they do.
pub mod Baton
pub mod Dispatch
pub mod Frames
pub mod Sealed
pub mod Effects
pub mod Request
use fuel_chain.Base.{
  ℕ, ◌+◌, ◌/◌, String, Bool, true, false, not, ◌&&◌, ◌||◌, Option, none, some, List, [], ◌∷◌, ◌==◌,
  str_eq, get_or, or_else, is_some, if◌then◌else◌, find_first, filter, Result, ok, err, refuse_if,
  or_throw, rethrow, ◌>>=◌, ◌>>◌,
}
use fuel_chain.Base.Text.{trim}
use fuel_chain.Base.Int.{ℤ, pos, negsuc, ◌+ℤ◌, ltb_ℤ}
use fuel_chain.Base.Number.{finite}
use fuel_chain.Schema.{
  ActorRole, admin, importer, transporter, depot_operator, lab, auditor, station_staff, verifier,
  citizen, same_role, is_open, Exception, batch_not_found, not_issuable, volume_not_positive,
  station_code_missing, no_liters_left, station_not_found, cistern_missing, cistern_of_other_driver,
  trip_open,
}
use fuel_chain.BatchStatus.{can_issue_qr}
use fuel_chain.Accounting.{remaining_batch_liters, assert_cistern_can_load}
use fuel_chain.Store.{
  Db, Actor, Batch, Station, Delivery, Cistern, Transport, Vehicle, cistern_by_id,
}
use fuel_chain.Custody.Payload.{
  Payload, Config, Sample, text, num, flag, null, samples, secret, baton_ttl_sec,
}
use fuel_chain.Custody.Accept.{given}

-- `IssueBatonInput`. A number comes from JSON, so it is finite.
pub record IssueInput : Type 0 where
  pub batch_code : String
  pub event_type : String
  pub volume_liters : ℤ
  pub cistern_code : Option String
  pub station_code : Option String
  pub previous_hash : Option String
  pub load_density : Option ℤ
  pub load_temperature : Option ℤ
  pub load_water : Bool

-- `OR: [{ batchCode }, { id }]`
abbrev pub find_batch : Config → String → Db → Option Batch
find_batch c key db =
    find_first (λ (b : Batch). str_eq b.batch_code key || str_eq (c.key_text b.id) key) db.batches

abbrev last {ℓ} : {A : Type ℓ} → List A → Option A
last [] = none
last (x ∷ xs) = or_else (last xs) (some x)

abbrev transport_vehicle : Option Transport → Option ℕ
transport_vehicle none = none
transport_vehicle (some t) = t.vehicle_id

abbrev vehicle_named : Option String → Db → Option ℕ
vehicle_named none db = none
vehicle_named (some code) db =
    elim (find_first
      (λ (v : Vehicle).
        str_eq v.identifier code || elim v.plate [ none ↦ false | some q ↦ str_eq q code ])
      db.vehicles) [ none ↦ none | some v ↦ some v.id ]

-- The vehicle of the batch's latest transport, or the one that the cistern's code names.
unfoldable pub vehicle_of : IssueInput → Batch → Db → Option ℕ
vehicle_of input b db =
    or_else
      (transport_vehicle (last (filter (λ (t : Transport). t.batch_id == b.id) db.transports)))
      (vehicle_named (given input.cistern_code) db)

abbrev pub reserves : ℕ → Delivery → Bool
reserves k d = d.batch_id == k && is_open d.status

-- The litres of a batch that are on the road.
abbrev pub reserved : ℕ → List Delivery → ℤ
reserved k [] = pos 0
reserved k (d ∷ ds) =
    let rest = reserved k ds in if reserves k d then d.loaded_liters +ℤ rest else rest

unfoldable pub remaining_of : Batch → Db → ℤ
remaining_of b db =
    remaining_batch_liters (finite b.declared_volume) b.delivered_liters
      (reserved b.id db.deliveries)

abbrev pub chosen_cistern : Option String → Option ℕ → Db → Option Cistern
chosen_cistern (some code) own db = find_first (λ (c : Cistern). str_eq c.code code) db.cisterns
chosen_cistern none (some k) db = cistern_by_id k db
chosen_cistern none none db = none

abbrev pub is_driver : Option ℕ → ℕ → Bool
is_driver none actor = false
is_driver (some k) actor = k == actor

-- `cistern: { driverId: actor.id }` of the cistern that a delivery is on
abbrev driven_by : ℕ → Db → Delivery → Bool
driven_by actor db d = elim (cistern_by_id d.cistern_id db) [
  | none ↦ false
  | some c ↦ is_driver c.driver_id actor
]

abbrev pub is_open_trip : Actor → Cistern → Db → Delivery → Bool
is_open_trip actor c db d =
    is_open d.status
    && (d.cistern_id == c.id
        || ((same_role actor.role transporter || same_role actor.role depot_operator)
            && driven_by actor.id db d))

-- What the reads before the transaction hand to it: the rows are as they were read then.
pub record Plan : Type 0 where
  pub batch : Batch
  pub cistern : Cistern
  pub station_id : ℕ
  pub vehicle_id : Option ℕ

unfoldable pub plan_issue : Config → IssueInput → Actor → Db → Result Exception Plan
plan_issue c input actor db = do
  secret c
  b ← or_throw (find_batch c input.batch_code db) batch_not_found
  refuse_if (not (can_issue_qr b.status)) not_issuable
  refuse_if (not (ltb_ℤ (pos 0) input.volume_liters)) volume_not_positive
  code ←
      or_throw (given (elim input.station_code [ none ↦ none | some s ↦ some (trim s) ]))
        station_code_missing
  refuse_if (ltb_ℤ (remaining_of b db +ℤ pos 1) input.volume_liters) no_liters_left
  st ← or_throw (find_first (λ (s : Station). str_eq s.code code) db.stations) station_not_found
  cistern ← or_throw (chosen_cistern (given input.cistern_code) actor.cistern_id db) cistern_missing
  refuse_if
      (same_role actor.role transporter
        && (is_some cistern.driver_id && not (is_driver cistern.driver_id actor.id)))
      cistern_of_other_driver
  refuse_if (is_some (find_first (is_open_trip actor cistern db) db.deliveries)) trip_open
  rethrow
      (assert_cistern_can_load cistern.capacity cistern.current_load (finite input.volume_liters))
  ok (record {
    batch = b;
    cistern = cistern;
    station_id = st.id;
    vehicle_id = vehicle_of input b db;
  })

-- 0.745 and 22 degrees, where the request does not say
abbrev pub load_density_of : IssueInput → ℤ
load_density_of input = get_or input.load_density (pos 7450)

abbrev pub load_temperature_of : IssueInput → ℤ
load_temperature_of input = get_or input.load_temperature (pos 2200)
