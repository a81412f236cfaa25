-- ===== src/Custody/Accept.antt =====
-- The reception of a baton at a station, `accept` of custody-qr.service.ts: the checks before its
-- transaction. `Handover` and `Stocking` are the steps of the transaction, `Commit` puts them
-- together.
pub mod Handover
pub mod Stocking
pub mod Commit
pub mod Frames
pub mod Effects
pub mod Delivered
pub mod Settled
use fuel_chain.Base.{
  ◌≡◌, arith, ℕ, suc, ◌/◌, String, Bool, true, false, not, ◌&&◌, ◌||◌, Option, none, some, List, [],
  ◌∷◌, ◌==◌, str_eq, get_or, or_else, is_some, if◌then◌else◌, find_first, update_where, Result, ok,
  err, refuse_if, or_throw, ◌>>=◌, ◌>>◌,
}
use fuel_chain.Base.Int.{ℤ, pos, scale, ltb_ℤ, leb_ℤ}
use fuel_chain.Schema.{
  ActorRole, admin, station_staff, same_role, BatonStatus, active, expired, is_active, Exception,
  role_refused, token_required, baton_expired, baton_not_found, batch_not_found, baton_not_active,
  other_station, not_destined_here, station_not_found, destination_mismatch,
}
use fuel_chain.Store.{Db, Actor, Batch, Baton, Station, Delivery, delivery_by_id, append}
use fuel_chain.Custody.Payload.{
  Payload, Config, Value, text, num, flag, null, samples, field, string_or_empty,
  assert_embedded_signature, expires_unix,
}

-- What a station sends (`AcceptBatonInput`, as far as `accept` reads it). A number comes from JSON,
-- so it is finite.
pub record AcceptInput : Type 0 where
  pub token_id : Option String
  pub embedded : Option Payload
  pub station_code : Option String
  pub received_volume : Option ℤ
  pub received_density : Option ℤ
  pub received_temperature : Option ℤ
  pub received_water : Option Bool

-- A text that a test takes for true: present and not empty.
abbrev pub given : Option String → Option String
given none = none
given (some s) = if str_eq s "" then none else some s

pub given-some : (o : Option String) (s : String) → given o ≡ some s → o ≡ some s
given-some none s h = ground (arith, h)
given-some (some x) s h = ground (arith, h)

-- `typeof embedded.id === 'string'`
abbrev embedded_id : Option Payload → Option String
embedded_id none = none
embedded_id (some p) = elim (field "id" p) [
  | some v ↦ elim v [ text s ↦ some s | _ ↦ none ]
  | none ↦ none
]

unfoldable pub token_of : AcceptInput → Option String
token_of input = or_else (given input.token_id) (given (embedded_id input.embedded))

-- `Math.floor(Date.now() / 1000) > exp`
abbrev is_past : Option ℤ → ℕ → Bool
is_past none now = false
is_past (some exp) now = ltb_ℤ exp (pos (now / 1000))

unfoldable pub check_embedded : Config → Option Payload → ℕ → Result Exception (Unit {0})
check_embedded c none now = ok tt
check_embedded c (some p) now = do
  assert_embedded_signature c p
  refuse_if (is_past (expires_unix p) now) baton_expired

unfoldable pub check_request : Config → AcceptInput → Actor → ℕ → Result Exception String
check_request c input actor now = do
  refuse_if (not (same_role actor.role station_staff) && not (same_role actor.role admin))
      role_refused
  token ← or_throw (token_of input) token_required
  check_embedded c input.embedded now
  ok token

abbrev pub find_baton : String → Db → Option Baton
find_baton token db = find_first (λ (b : Baton). str_eq b.token_id token) db.batons

-- `embedded.x ? String(embedded.x) : null`
abbrev optional_text : Config → Option Value → Option String
optional_text c none = none
optional_text c (some null) = none
optional_text c (some (text s)) = given (some s)
optional_text c (some (num n)) =
    if leb_ℤ n (pos 0) && leb_ℤ (pos 0) n then none else some (c.string_of (num n))
optional_text c (some (flag b)) = if b then some (c.string_of (flag b)) else none
optional_text c (some (samples l)) = some (c.string_of (samples l))

-- `String(value)`, where a missing value reads `undefined`
abbrev string_value : Config → Option Value → String → String
string_value c none default = default
string_value c (some (text s)) default = s
string_value c (some v) default = c.string_of v

-- `String(value ?? default)`
abbrev string_or : Config → Option Value → String → String
string_or c (some null) default = default
string_or c v default = string_value c v default

-- `Number(value ?? 0)`
abbrev number_or_zero : Config → Option Value → ℤ
number_or_zero c none = pos 0
number_or_zero c (some null) = pos 0
number_or_zero c (some (num n)) = n
number_or_zero c (some v) = c.number_of v

unfoldable pub imported_baton : Config → Payload → String → ℕ → ℕ → Baton
imported_baton c p token id batch_id = record {
  id = id;
  token_id = token;
  batch_id = batch_id;
  vehicle_id = none;
  station_id = none;
  cistern_id = none;
  delivery_id = none;
  cistern_code = optional_text c (field "cistern" p);
  event_type = string_or c (field "ev" p) "IN_TRANSIT";
  volume_liters = number_or_zero c (field "vol" p);
  payload_hash = string_or_empty c (field "h" p);
  previous_hash = optional_text c (field "ph" p);
  signature = string_or_empty c (field "s" p);
  status = active;
  issued_by_role = string_or c (field "role" p) "UNKNOWN";
  consumed_by_role = none;
  consumed_at = none;
  expires_at = elim (expires_unix p) [ none ↦ none | some e ↦ some (scale 1000 e) ];
}

abbrev pub create_baton :
    Config → Payload → String → Db → Option Batch → Result Exception Baton × Db
create_baton c p token db none = (err batch_not_found, db)
create_baton c p token db (some batch) =
    let baton = imported_baton c p token db.next_id batch.id in
    (ok baton, record db { batons = append baton db.batons; next_id = suc db.next_id })

abbrev pub batch_of_payload : Config → Payload → Db → Option Batch
batch_of_payload c p db =
    find_first (λ (b : Batch). str_eq b.batch_code (string_value c (field "batch" p) "undefined"))
      db.batches

abbrev pub obtain_from :
    Config → Option Payload → String → Option Baton → Db → Result Exception Baton × Db
obtain_from c embedded token (some b) db = (ok b, db)
obtain_from c none token none db = (err baton_not_found, db)
obtain_from c (some p) token none db = create_baton c p token db (batch_of_payload c p db)

-- The row of the baton: the one with the token, or a new one from a payload that passed its check.
unfoldable pub obtain_baton : Config → Option Payload → String → Db → Result Exception Baton × Db
obtain_baton c embedded token db = obtain_from c embedded token (find_baton token db) db

abbrev pub expired_row : Baton → Baton
expired_row b = record b { status = expired }

-- `updateMany({ where: { id, status: 'ACTIVE' }, data: { status: 'EXPIRED' } })`
abbrev pub expire_baton : ℕ → Db → Db
expire_baton k db = record db {
  batons = update_where (λ (b : Baton). b.id == k && is_active b.status) expired_row db.batons;
}

abbrev pub has_expired : Option ℤ → ℕ → Bool
has_expired none now = false
has_expired (some t) now = leb_ℤ t (pos now)

abbrev refuse_status : BatonStatus → Result Exception (Unit {0})
refuse_status active = ok tt
refuse_status expired = err baton_expired
refuse_status s = err (baton_not_active s)

unfoldable pub check_status : Baton → ℕ → Db → Result Exception (Unit {0}) × Db
check_status baton now db =
    if has_expired baton.expires_at now
    then (err baton_expired, expire_baton baton.id db)
    else (refuse_status baton.status, db)

-- `a && b && a !== b` of two optional keys
abbrev pub differ : Option ℕ → Option ℕ → Bool
differ (some a) (some b) = not (a == b)
differ _ _ = false

abbrev texts_differ : Option String → Option String → Bool
texts_differ (some a) (some b) = not (str_eq a b)
texts_differ _ _ = false

-- The station that a member of its staff receives for: their own.
abbrev pub own_station : Option String → Actor → Option ℕ → Result Exception (Option ℕ)
own_station code actor destined = do
  refuse_if (texts_differ code (given actor.station_code)) other_station
  refuse_if (differ destined actor.station_id) not_destined_here
  ok actor.station_id

abbrev named_station : Option String → Option ℕ → Db → Result Exception (Option ℕ)
named_station none destined db = ok destined
named_station (some code) destined db = do
  st ← or_throw (find_first (λ (s : Station). str_eq s.code code) db.stations) station_not_found
  ok (some st.id)

abbrev pub destination_of : Option Delivery → Option ℕ
destination_of none = none
destination_of (some d) = some d.destination_station_id

unfoldable pub receiving_station :
    Option String → Actor → Baton → Option Delivery → Db → Result Exception (Option ℕ)
receiving_station code actor baton delivery db = do
  let destined = or_else baton.station_id (destination_of delivery)
  station ←
      (if same_role actor.role station_staff && is_some actor.station_id
        then own_station (given code) actor destined
        else named_station (given code) destined db)
  refuse_if (differ (destination_of delivery) station) destination_mismatch
  ok station

abbrev pub delivery_of : Baton → Db → Option Delivery
delivery_of b db = elim b.delivery_id [ none ↦ none | some k ↦ delivery_by_id k db ]
