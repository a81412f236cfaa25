-- ===== src/Custody/Sync.antt =====
-- The batch of events that a client captured offline, `syncOffline` of custody-qr.service.ts.
pub mod Idempotent
use fuel_chain.Base.{
  ℕ, String, ◌≡◌, ◌≢◌, refl, sym, ap, subst, ◌∙◌, Bool, true, false, ◌&&◌, Option, none, some, List,
  [], ◌∷◌, ◌++◌, str_eq, eq_iff, get_or, or_else, is_some, if◌then◌else◌, find_first, update_where,
  map_row, find-append_new, find-update_where, Result, ok, err, arith, Option-cases, inl, inr,
}
use package.text.Mathlib.TextPositions.{eq_refl}
use fuel_chain.Base.Int.{ℤ}
use fuel_chain.Schema.{Exception, is_conflict, SyncStatus, pending, applied, rejected}
use fuel_chain.Store.{Db, Actor, Batch, Baton, SyncEvent, append}
use fuel_chain.Custody.Payload.{Payload, Config, Value, num, flag, field}
use fuel_chain.Custody.Accept.{AcceptInput, given}
use fuel_chain.Custody.Reception.{accept}

-- `OfflineSyncItem`, as far as it is read.
pub record Item : Type 0 where
  pub client_event_id : String
  pub baton_token : Option String
  pub station_code : Option String
  pub event_type : String
  pub payload : Payload

pub record SyncResult : Type 0 where
  pub client_event_id : String
  pub status : SyncStatus
  pub reason : Option Exception

abbrev number_field : Option Value → Option ℤ
number_field (some (num z)) = some z
number_field _ = none

abbrev flag_field : Option Value → Option Bool
flag_field (some (flag b)) = some b
flag_field _ = none

-- The number under the first key, or else the one under the second.
abbrev number_under : String → String → Payload → Option ℤ
number_under k j p = or_else (number_field (field k p)) (number_field (field j p))

unfoldable pub accept_input_of : Item → AcceptInput
accept_input_of item = record {
  token_id = item.baton_token;
  embedded = some item.payload;
  station_code = item.station_code;
  received_volume = number_under "receivedVolumeLiters" "vol" item.payload;
  received_density = number_under "receivedDensity" "dens" item.payload;
  received_temperature = number_under "receivedTemperature" "temp" item.payload;
  received_water =
      or_else (flag_field (field "receivedWaterDetected" item.payload))
        (flag_field (field "water" item.payload));
}

-- An event that is no reception of a baton does nothing, and is taken as applied.
unfoldable pub perform : Config → Item → Actor → ℕ → Db → Result Exception (Unit {0}) × Db
perform c item actor now db =
    if str_eq item.event_type "ACCEPT_BATON" && is_some (given item.baton_token)
    then accept c (accept_input_of item) actor now db
    else (ok tt, db)

abbrev pub is_item : String → SyncEvent → Bool
is_item k e = str_eq e.client_event_id k

abbrev pub known : String → Db → Option SyncEvent
known k db = find_first (is_item k) db.sync_events

abbrev pub pending_event : Config → Item → Actor → SyncEvent
pending_event c item actor = record {
  client_event_id = item.client_event_id;
  baton_token = item.baton_token;
  actor_role = actor.role;
  event_type = item.event_type;
  payload_hash = c.hash_payload item.payload;
  status = pending;
  reject_reason = none;
}

unfoldable pub enter : Config → Item → Actor → Db → Db
enter c item actor db = record db {
  sync_events = append (pending_event c item actor) db.sync_events;
}

-- A conflict counts as applied: only such exceptions say that a baton is consumed already.
abbrev pub verdict : Result Exception (Unit {0}) → SyncStatus
verdict (ok u) = applied
verdict (err e) = if is_conflict e then applied else rejected

abbrev pub reason_of : Result Exception (Unit {0}) → Option Exception
reason_of (ok u) = none
reason_of (err e) = if is_conflict e then none else some e

abbrev pub close_row : Result Exception (Unit {0}) → SyncEvent → SyncEvent
close_row r e = record e {
  status = verdict r;
  reject_reason = or_else (reason_of r) e.reject_reason;
}

unfoldable pub close : Item → Result Exception (Unit {0}) × Db → SyncResult × Db
close item (r, db) = (
  record { client_event_id = item.client_event_id; status = verdict r; reason = reason_of r },
  record db {
    sync_events = update_where (is_item item.client_event_id) (close_row r) db.sync_events;
  },
)

abbrev pub sync_known : Config → Item → Actor → ℕ → Option SyncEvent → Db → SyncResult × Db
sync_known c item actor now (some e) db =
    (record { client_event_id = item.client_event_id; status = e.status; reason = none }, db)
sync_known c item actor now none db = close item (perform c item actor now (enter c item actor db))

unfoldable pub sync_one : Config → Item → Actor → ℕ → Db → SyncResult × Db
sync_one c item actor now db = sync_known c item actor now (known item.client_event_id db) db

-- The events in order, each on the database that the ones before it left.
unfoldable pub sync_offline : Config → List Item → Actor → ℕ → Db → List SyncResult × Db
unfolding sync_one
sync_offline c [] actor now db = ([], db)
sync_offline c (item ∷ items) actor now db =
    let (r, db') = sync_one c item actor now db in
    let (rs, db'') = sync_offline c items actor now db' in (r ∷ rs, db'')
