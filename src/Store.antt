-- ===== src/Store.antt =====
-- The rows of the database (prisma/schema.prisma) that the custody services read and write, and
-- the database as a record of tables. A key is a number, since keys are only compared; volumes are
-- millilitres, densities 1/10000, temperatures 1/100 of a degree, times milliseconds. Columns that
-- hold only text to show (labels, notes, places) or coordinates are left out.
use fuel_chain.Base.{
  ℕ, String, Bool, Option, none, some, List, [], ◌∷◌, ◌++◌, ◌==◌, find_first, update_where,
}
use fuel_chain.Base.Int.{ℤ}
use fuel_chain.Schema.{
  ActorRole, DeliveryStatus, CisternStatus, BatonStatus, SyncStatus, Availability, Exception,
}
use fuel_chain.BatchStatus.{BatchStatus}
use fuel_chain.Movement.{CustodyEventType}
use fuel_chain.Settlement.{Settlement}

pub record Batch : Type 0 where
  pub id : ℕ
  pub batch_code : String
  pub declared_volume : ℤ
  pub delivered_liters : ℤ
  pub status : BatchStatus

pub record Delivery : Type 0 where
  pub id : ℕ
  pub batch_id : ℕ
  pub cistern_id : ℕ
  pub destination_station_id : ℕ
  pub status : DeliveryStatus
  pub loaded_liters : ℤ
  pub received_liters : Option ℤ
  pub load_density : Option ℤ
  pub load_temperature : Option ℤ
  pub load_water : Bool
  pub loaded_at : ℕ
  pub received_density : Option ℤ
  pub received_temperature : Option ℤ
  pub received_water : Bool
  pub delivered_at : Option ℕ
  pub baton_token : Option String

pub record Cistern : Type 0 where
  pub id : ℕ
  pub code : String
  pub qr_token : String
  pub device_id : String
  pub capacity : ℤ
  pub current_load : ℤ
  pub status : CisternStatus
  pub driver_id : Option ℕ
  pub current_batch_id : Option ℕ

pub record StorageTank : Type 0 where
  pub id : ℕ
  pub name : String
  pub station_id : Option ℕ
  pub cistern_code : Option String
  pub capacity : ℤ
  pub current_stock : ℤ

pub record Station : Type 0 where
  pub id : ℕ
  pub code : String
  pub availability : Availability
  pub last_inventory_at : Option ℕ

-- A time at which a baton expires comes from its payload, so it may be any integer.
pub record Baton : Type 0 where
  pub id : ℕ
  pub token_id : String
  pub batch_id : ℕ
  pub vehicle_id : Option ℕ
  pub station_id : Option ℕ
  pub cistern_id : Option ℕ
  pub delivery_id : Option ℕ
  pub cistern_code : Option String
  pub event_type : String
  pub volume_liters : ℤ
  pub payload_hash : String
  pub previous_hash : Option String
  pub signature : String
  pub status : BatonStatus
  pub issued_by_role : String
  pub consumed_by_role : Option ActorRole
  pub consumed_at : Option ℕ
  pub expires_at : Option ℤ

-- `baton_token` and `delivery_id` stand in the metadata.
pub record CustodyEvent : Type 0 where
  pub batch_id : ℕ
  pub event_type : CustodyEventType
  pub actor_id : Option ℕ
  pub declared_volume : Option ℤ
  pub measured_volume : Option ℤ
  pub baton_token : Option String
  pub delivery_id : Option ℕ

pub data CheckpointKind : Type 0 where
  load_departure route_waypoint arrival_station : CheckpointKind

pub record Checkpoint : Type 0 where
  pub kind : CheckpointKind
  pub delivery_id : Option ℕ
  pub cistern_id : ℕ
  pub batch_id : ℕ
  pub actor_id : ℕ
  pub volume_liters : ℤ
  pub density : Option ℤ
  pub temperature : Option ℤ
  pub water : Bool
  pub client_event_id : Option String
  pub captured_at : ℕ

pub record Measurement : Type 0 where
  pub batch_id : ℕ
  pub tank_id : ℕ
  pub volume_liters : ℤ
  pub density : ℤ
  pub temperature : ℤ
  pub water : Bool

pub record Transport : Type 0 where
  pub batch_id : ℕ
  pub vehicle_id : Option ℕ

pub record Vehicle : Type 0 where
  pub id : ℕ
  pub identifier : String
  pub plate : Option String

pub record SyncEvent : Type 0 where
  pub client_event_id : String
  pub baton_token : Option String
  pub actor_role : ActorRole
  pub event_type : String
  pub payload_hash : String
  pub status : SyncStatus
  pub reject_reason : Option Exception

-- Each table lists its rows from the oldest to the newest.
pub record Db : Type 0 where
  pub batches : List Batch
  pub deliveries : List Delivery
  pub cisterns : List Cistern
  pub tanks : List StorageTank
  pub stations : List Station
  pub batons : List Baton
  pub events : List CustodyEvent
  pub checkpoints : List Checkpoint
  pub measurements : List Measurement
  pub settlements : List Settlement
  pub transports : List Transport
  pub vehicles : List Vehicle
  pub sync_events : List SyncEvent
  pub next_id : ℕ

-- The user of the session (`AuthUser`).
pub record Actor : Type 0 where
  pub id : ℕ
  pub role : ActorRole
  pub station_id : Option ℕ
  pub station_code : Option String
  pub cistern_id : Option ℕ
  pub cistern_code : Option String

-- `findUnique({ where: { id } })` and `update({ where: { id }, data })`
abbrev pub batch_by_id : ℕ → Db → Option Batch
batch_by_id k db = find_first (λ (b : Batch). b.id == k) db.batches

abbrev pub delivery_by_id : ℕ → Db → Option Delivery
delivery_by_id k db = find_first (λ (d : Delivery). d.id == k) db.deliveries

abbrev pub cistern_by_id : ℕ → Db → Option Cistern
cistern_by_id k db = find_first (λ (c : Cistern). c.id == k) db.cisterns

abbrev pub station_by_id : ℕ → Db → Option Station
station_by_id k db = find_first (λ (s : Station). s.id == k) db.stations

abbrev pub update_batch : ℕ → (Batch → Batch) → List Batch → List Batch
update_batch k f = update_where (λ (b : Batch). b.id == k) f

abbrev pub update_delivery : ℕ → (Delivery → Delivery) → List Delivery → List Delivery
update_delivery k f = update_where (λ (d : Delivery). d.id == k) f

abbrev pub update_cistern : ℕ → (Cistern → Cistern) → List Cistern → List Cistern
update_cistern k f = update_where (λ (c : Cistern). c.id == k) f

abbrev pub update_tank : ℕ → (StorageTank → StorageTank) → List StorageTank → List StorageTank
update_tank k f = update_where (λ (t : StorageTank). t.id == k) f

abbrev pub update_station : ℕ → (Station → Station) → List Station → List Station
update_station k f = update_where (λ (s : Station). s.id == k) f

-- `create({ data })`
abbrev pub append {ℓ} : {A : Type ℓ} → A → List A → List A
append x xs = xs ++ x ∷ []

-- `delivery?.id`
abbrev pub delivery_key : Option Delivery → Option ℕ
delivery_key none = none
delivery_key (some d) = some d.id
