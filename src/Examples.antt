-- ===== src/Examples.antt =====
-- A small database, and what the library shows of it: one batch, one cistern, one depot, one station.
pub mod Numbers
pub mod Receptions
pub mod Dispatches
pub mod Stickers
pub mod Services
pub mod Sessions
pub mod Listings
pub mod Pages
use fuel_chain.Base.{ok, arith, ℕ, String, Bool, true, false, Option, none, some, List, [], ◌∷◌}
use fuel_chain.Base.Int.{ℤ, pos}
use fuel_chain.Schema
use fuel_chain.Schema.{admin, station_staff, transporter, Availability}
use fuel_chain.BatchStatus
use fuel_chain.Settlement.{Settlement}
use fuel_chain.Store.{Db, Actor, Batch, Baton, Cistern, Delivery, Station, StorageTank}
use fuel_chain.Custody.Payload.{Payload, Config}
use fuel_chain.Custody.Accept.Handover.{Ready}
use fuel_chain.Custody.Fuel.{IsIndexed}
use Prim.Native.String.{◌++◌}

-- Stand-ins for the hash and the HMAC.
abbrev pub keys_of : Payload → String
keys_of [] = ""
keys_of ((k, v) ∷ p) = k ++ keys_of p

abbrev pub config : Config
config = record {
  has_secret = true;
  hash_payload = keys_of;
  hmac = λ h. "mac-" ++ h;
  string_of = λ v. "?";
  number_of = λ v. pos 0;
  key_text = λ k. "key";
  follow_up = λ token now. ok tt;
}

abbrev pub batch : Batch
batch = record {
  id = 1;
  batch_code = "B-1";
  declared_volume = pos 9000000;
  delivered_liters = pos 0;
  status = BatchStatus.in_transit;
}

abbrev pub other_batch : Batch
other_batch = record {
  id = 8;
  batch_code = "B-8";
  declared_volume = pos 500000;
  delivered_liters = pos 0;
  status = BatchStatus.authorized;
}

abbrev pub cistern : Cistern
cistern = record {
  id = 2;
  code = "C-2";
  qr_token = "qr-2";
  device_id = "dev-2";
  capacity = pos 9000000;
  current_load = pos 4000000;
  status = Schema.CisternStatus.in_transit;
  driver_id = some 11;
  current_batch_id = some 1;
}

abbrev pub free_cistern : Cistern
free_cistern = record {
  id = 12;
  code = "C-12";
  qr_token = "qr-12";
  device_id = "dev-12";
  capacity = pos 5000000;
  current_load = pos 0;
  status = Schema.CisternStatus.available;
  driver_id = none;
  current_batch_id = none;
}

abbrev pub station : Station
station = record {
  id = 3;
  code = "EESS-3";
  availability = Availability.low;
  last_inventory_at = none;
}

abbrev pub tank : StorageTank
tank = record {
  id = 4;
  name = "T-4";
  station_id = some 3;
  cistern_code = none;
  capacity = pos 20000000;
  current_stock = pos 1000000;
}

abbrev pub depot : StorageTank
depot = record {
  id = 9;
  name = "D-9";
  station_id = none;
  cistern_code = none;
  capacity = pos 90000000;
  current_stock = pos 50000000;
}

abbrev pub delivery : Delivery
delivery = record {
  id = 5;
  batch_id = 1;
  cistern_id = 2;
  destination_station_id = 3;
  status = Schema.DeliveryStatus.in_transit;
  loaded_liters = pos 4000000;
  received_liters = none;
  load_density = some (pos 7450);
  load_temperature = some (pos 2200);
  load_water = false;
  loaded_at = 500;
  received_density = none;
  received_temperature = none;
  received_water = false;
  delivered_at = none;
  baton_token = some "tok";
}

abbrev pub baton : Baton
baton = record {
  id = 6;
  token_id = "tok";
  batch_id = 1;
  vehicle_id = none;
  station_id = some 3;
  cistern_id = some 2;
  delivery_id = some 5;
  cistern_code = some "C-2";
  event_type = "IN_TRANSIT";
  volume_liters = pos 4000000;
  payload_hash = "h";
  previous_hash = none;
  signature = "s";
  status = Schema.BatonStatus.active;
  issued_by_role = "TRANSPORTER";
  consumed_by_role = none;
  consumed_at = none;
  expires_at = some (pos 999999);
}

abbrev pub start : Db
start = record {
  batches = batch ∷ other_batch ∷ [];
  deliveries = delivery ∷ [];
  cisterns = cistern ∷ free_cistern ∷ [];
  tanks = tank ∷ depot ∷ [];
  stations = station ∷ [];
  batons = baton ∷ [];
  events = [];
  checkpoints = [];
  measurements = [];
  settlements = [];
  transports = [];
  vehicles = [];
  sync_events = [];
  next_id = 13;
}

abbrev pub staff : Actor
staff = record {
  id = 10;
  role = station_staff;
  station_id = some 3;
  station_code = some "EESS-3";
  cistern_id = none;
  cistern_code = none;
}

abbrev pub driver : Actor
driver = record {
  id = 11;
  role = transporter;
  station_id = none;
  station_code = none;
  cistern_id = none;
  cistern_code = none;
}

abbrev pub ready : Ready
ready = record {
  baton = baton;
  driver_id = some 11;
  station_id = some 3;
  received = pos 3990000;
  density = some (pos 7440);
  temperature = some (pos 2310);
  water = some false;
  actor = staff;
  now = 1000;
}

pub start-IsIndexed : IsIndexed start
start-IsIndexed = record { tanks = λ k. ground arith; cisterns = λ k. ground arith }
