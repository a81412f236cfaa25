-- ===== src/Sticker.antt =====
-- The sticker of a cistern, by which a station uploads its route: `resolveCistern`, `activeDelivery`,
-- `scanAndIngest` and `demoTrailFromDelivery` of apps/api/src/cisterns/cisterns.service.ts. `Receive`
-- is the reception that follows a scan.
pub mod Again
pub mod Receive
use fuel_chain.Base.{
  ℕ, suc, ◌+◌, ◌*◌, ◌/◌, ◌≡◌, refl, String, Bool, true, false, not, ◌&&◌, ◌||◌, Option, none, some,
  List, [], ◌∷◌, ◌==◌, str_eq, get_or, or_else, is_some, if◌then◌else◌, find_first, Result, ok, err,
  refuse_if, or_throw, ◌>>=◌, ◌>>◌,
}
use fuel_chain.Base.Text.{trim}
use fuel_chain.Base.Int.{ℤ, pos, ◌+ℤ◌, ◌-ℤ◌}
use fuel_chain.Schema
use fuel_chain.Schema.{
  admin, station_staff, transporter, same_role, is_open, Exception, row_not_found, role_refused,
  no_active_trip,
}
use fuel_chain.Store.{
  Db, Actor, Cistern, Delivery, Checkpoint, CheckpointKind, update_cistern, append, delivery_key,
}
use fuel_chain.Journey.{normalize_checkpoint_kind}
use fuel_chain.Journey.Parse.{Platform, JourneySample}
use Prim.Native.String.{◌++◌}

-- `OR: [{ qrToken: key }, { code: key }, { deviceId: key }]`
abbrev pub is_keyed : String → Cistern → Bool
is_keyed key c = str_eq c.qr_token key || (str_eq c.code key || str_eq c.device_id key)

unfoldable pub resolve_cistern : String → Db → Option Cistern
resolve_cistern token db = find_first (is_keyed (trim token)) db.cisterns

-- `findFirst` in the order from the newest to the oldest
abbrev pub latest {ℓ} : {A : Type ℓ} → (A → Bool) → List A → Option A
latest p [] = none
latest p (x ∷ xs) = or_else (latest p xs) (if p x then some x else none)

abbrev pub is_active_of : ℕ → Delivery → Bool
is_active_of cistern d = d.cistern_id == cistern && is_open d.status

abbrev pub is_active_for : ℕ → ℕ → Delivery → Bool
is_active_for cistern station d =
    d.cistern_id == cistern && (d.destination_station_id == station && is_open d.status)

-- The open trip of a cistern, one to the preferred station before any other.
unfoldable pub active_delivery : ℕ → Option ℕ → List Delivery → Option Delivery
active_delivery cistern none deliveries = latest (is_active_of cistern) deliveries
active_delivery cistern (some station) deliveries =
    or_else (latest (is_active_for cistern station) deliveries)
      (latest (is_active_of cistern) deliveries)

-- `actor.role === STATION_STAFF ? actor.stationId : null`
abbrev pub preferred : Actor → Option ℕ
preferred actor = if same_role actor.role station_staff then actor.station_id else none

abbrev trip_id : Platform → Cistern → Delivery → String → String
trip_id w c d suffix = c.device_id ++ "-" ++ w.key_text d.id ++ suffix

-- The departure, and two samples of a simulated route: 1 L and 3 L less, after two and five hours.
unfoldable pub demo_trail : Platform → Cistern → Delivery → List JourneySample
demo_trail w c d =
    let density = get_or d.load_density (pos 7450) in
    let temperature = get_or d.load_temperature (pos 2200) in
    record {
      client_event_id = some (trip_id w c d "-load");
      kind = "LOAD_DEPARTURE";
      volume_liters = d.loaded_liters;
      density = some density;
      temperature = some temperature;
      water = d.load_water;
      captured_at = some d.loaded_at;
    }
    ∷ record {
      client_event_id = some (trip_id w c d "-wp1");
      kind = "ROUTE_WAYPOINT";
      volume_liters = d.loaded_liters -ℤ pos 1000;
      density = some density;
      temperature = some (temperature +ℤ pos 40);
      water = false;
      captured_at = some (d.loaded_at + 2 * 3600000);
    }
    ∷ record {
      client_event_id = some (trip_id w c d "-wp2");
      kind = "ROUTE_WAYPOINT";
      volume_liters = d.loaded_liters -ℤ pos 3000;
      density = some (density -ℤ pos 20);
      temperature = some (temperature +ℤ pos 120);
      water = false;
      captured_at = some (d.loaded_at + 5 * 3600000);
    }
    ∷ []

-- What the samples of one scan share.
pub record Scan : Type 0 where
  pub cistern_id : ℕ
  pub device_id : String
  pub delivery_id : Option ℕ
  pub batch_id : ℕ
  pub actor_id : ℕ
  pub now : ℕ

-- The id that the device gave a sample, or one from its time and kind.
abbrev pub event_id : Platform → Scan → JourneySample → String
event_id w scan s =
    get_or s.client_event_id
      (scan.device_id ++ "-" ++ w.decimal (get_or s.captured_at scan.now / 1000) ++ "-" ++ s.kind)

abbrev pub checkpoint_of : Platform → Scan → JourneySample → Checkpoint
checkpoint_of w scan s = record {
  kind = normalize_checkpoint_kind (some s.kind);
  delivery_id = scan.delivery_id;
  cistern_id = scan.cistern_id;
  batch_id = scan.batch_id;
  actor_id = scan.actor_id;
  volume_liters = s.volume_liters;
  density = s.density;
  temperature = s.temperature;
  water = s.water;
  client_event_id = some (event_id w scan s);
  captured_at = get_or s.captured_at scan.now;
}

abbrev pub has_event : String → Checkpoint → Bool
has_event k c = elim c.client_event_id [ none ↦ false | some j ↦ str_eq j k ]

-- `create`; a row with the id of another is refused by the unique index and skipped.
unfoldable pub ingest_one : Platform → Scan → JourneySample → List Checkpoint → List Checkpoint
ingest_one w scan s rows =
    if is_some (find_first (has_event (event_id w scan s)) rows)
    then rows
    else append (checkpoint_of w scan s) rows

abbrev pub ingest : Platform → Scan → List JourneySample → List Checkpoint → List Checkpoint
ingest w scan [] rows = rows
ingest w scan (s ∷ samples) rows = ingest w scan samples (ingest_one w scan s rows)

abbrev pub last_sample : List JourneySample → Option JourneySample
last_sample [] = none
last_sample (s ∷ samples) = or_else (last_sample samples) (some s)

abbrev pub on_route : ℤ → ℕ → Cistern → Cistern
on_route volume batch c = record c {
  current_load = volume;
  status = Schema.CisternStatus.in_transit;
  current_batch_id = some batch;
}

-- The cistern is taken to hold what the last sample says.
abbrev pub track : Scan → Option JourneySample → List Cistern → List Cistern
track scan none cisterns = cisterns
track scan (some s) cisterns =
    update_cistern scan.cistern_id (on_route s.volume_liters scan.batch_id) cisterns

abbrev pub store_scan : Platform → Scan → List JourneySample → Db → Db
store_scan w scan samples db = record db {
  checkpoints = ingest w scan samples db.checkpoints;
  cisterns = track scan (last_sample samples) db.cisterns;
}

-- A device that sent no sample has them made up from its trip.
abbrev pub samples_of :
    Platform → Cistern → Option Delivery → List JourneySample → List JourneySample
samples_of w c (some d) [] = demo_trail w c d
samples_of w c d samples = samples

abbrev pub batch_of : Option Delivery → Cistern → Option ℕ
batch_of none c = c.current_batch_id
batch_of (some d) c = some d.batch_id

abbrev pub scan_for : Cistern → Option Delivery → ℕ → Actor → ℕ → Scan
scan_for c d batch actor now = record {
  cistern_id = c.id;
  device_id = c.device_id;
  delivery_id = delivery_key d;
  batch_id = batch;
  actor_id = actor.id;
  now = now;
}

abbrev pub may_scan : Actor → Bool
may_scan actor =
    same_role actor.role station_staff
    || (same_role actor.role admin || same_role actor.role transporter)

abbrev pub scan_trip :
    Platform
    → Cistern
    → Actor
    → List JourneySample
    → ℕ
    → Option Delivery
    → Option ℕ
    → Db
    → Result Exception Db
scan_trip w c actor samples now d none db = err no_active_trip
scan_trip w c actor samples now d (some batch) db =
    ok (store_scan w (scan_for c d batch actor now) (samples_of w c d samples) db)

abbrev pub scan_cistern :
    Platform → Actor → List JourneySample → ℕ → Option Cistern → Db → Result Exception Db
scan_cistern w actor samples now none db = err row_not_found
scan_cistern w actor samples now (some c) db =
    let d = active_delivery c.id (preferred actor) db.deliveries in
    scan_trip w c actor samples now d (batch_of d c) db

-- `samples` is what the body of the request was parsed to.
unfoldable pub scan_and_ingest :
    Platform → String → Actor → List JourneySample → ℕ → Db → Result Exception Db
scan_and_ingest w token actor samples now db =
    if not (may_scan actor)
    then err role_refused
    else scan_cistern w actor samples now (resolve_cistern token db) db
