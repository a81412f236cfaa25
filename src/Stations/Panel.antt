-- ===== src/Stations/Panel.antt =====
-- One station as the public listing and the supervision panel show it: the rows that `listPublic` and
-- `listSupervision` of apps/api/src/stations/stations.service.ts read with a station, and what they make
-- of them. Names, places and other texts to show are left out.
use fuel_chain.Base.{
  ℕ, String, Bool, true, false, ◌&&◌, ◌||◌, Option, none, some, List, [], ◌∷◌, ◌==◌, ltb, leb,
  get_or, or_else, find_first, filter, map, sort_by, take,
}
use fuel_chain.Base.Int.{ℤ}
use fuel_chain.Base.Number.{Number, finite}
use fuel_chain.Base.Sums.{sum_by}
use fuel_chain.Schema.{DeliveryStatus, Availability}
use fuel_chain.Store.{CheckpointKind}
use fuel_chain.Tank.{availability_from_fill_ratio, fill_ratio_of}
use fuel_chain.Stations.{QualityTone, QualityAssessment, assess_station_quality}
use fuel_chain.Stations.Level.{fill_percent, public_percent, round_litres}

pub record Reading : Type 0 where
  pub volume_liters : ℤ
  pub density : Option ℤ
  pub temperature : Option ℤ
  pub water : Bool
  pub timestamp : ℕ

pub record PanelTank : Type 0 where
  pub id : ℕ
  pub cistern_code : Option String
  pub capacity : ℤ
  pub current_stock : ℤ
  pub readings : List Reading

pub record PanelPoint : Type 0 where
  pub kind : CheckpointKind
  pub volume_liters : ℤ
  pub captured_at : ℕ
  pub water : Bool

pub record PanelDelivery : Type 0 where
  pub id : ℕ
  pub status : DeliveryStatus
  pub batch_code : String
  pub batch_quality_status : Option String
  pub certificate_status : Option String
  pub cistern_code : String
  pub loaded_liters : ℤ
  pub received_liters : Option ℤ
  pub received_density : Option ℤ
  pub received_temperature : Option ℤ
  pub received_water : Bool
  pub loaded_at : ℕ
  pub delivered_at : Option ℕ
  pub baton_token : Option String
  pub checkpoints : List PanelPoint

-- A station with its tanks and deliveries.
pub record PanelStation : Type 0 where
  pub id : ℕ
  pub code : String
  pub name : String
  pub city : String
  pub public_visible : Bool
  pub availability : Availability
  pub tanks : List PanelTank
  pub deliveries : List PanelDelivery

abbrev pub first {ℓ} : {A : Type ℓ} → List A → Option A
first [] = none
first (x ∷ xs) = some x

-- `measurements: { orderBy: { timestamp: 'desc' }, take: 1 }` of a tank
abbrev pub last_reading : Option PanelTank → Option Reading
last_reading none = none
last_reading (some t) = first (sort_by (λ (r s : Reading). leb s.timestamp r.timestamp) t.readings)

-- `desc` puts the rows without a time first.
abbrev pub later_time : Option ℕ → Option ℕ → Bool
later_time none (some b) = true
later_time (some a) (some b) = ltb b a
later_time a none = false

abbrev pub same_time : Option ℕ → Option ℕ → Bool
same_time none none = true
same_time (some a) (some b) = a == b
same_time _ _ = false

-- `orderBy: [{ deliveredAt: 'desc' }, { loadedAt: 'desc' }]`
abbrev pub newest_first : PanelDelivery → PanelDelivery → Bool
newest_first d e =
    later_time d.delivered_at e.delivered_at
    || (same_time d.delivered_at e.delivered_at && leb e.loaded_at d.loaded_at)

abbrev pub is_delivered : PanelDelivery → Bool
is_delivered d = elim d.status [ DeliveryStatus.delivered ↦ true | other ↦ false ]

-- `where: { status: 'DELIVERED' }, orderBy: { deliveredAt: 'desc' }, take: 1`
abbrev pub last_delivery : PanelStation → Option PanelDelivery
last_delivery s = first (
    sort_by
      (λ (d e : PanelDelivery).
        later_time d.delivered_at e.delivered_at || same_time d.delivered_at e.delivered_at)
      (filter is_delivered s.deliveries))

abbrev pub recent : PanelStation → List PanelDelivery
recent s = take 8 (sort_by newest_first s.deliveries)

-- `deliveries.find((d) => d.status === 'DELIVERED') ?? deliveries[0]`
abbrev pub latest_delivery : PanelStation → Option PanelDelivery
latest_delivery s = or_else (find_first is_delivered (recent s)) (first (recent s))

-- `lastDelivery?.receivedDensity ?? last?.density`
abbrev pub seen {ℓ κ} : {A : Type ℓ} {B : Type κ} → (A → Option B) → Option A → Option B
seen f none = none
seen f (some a) = f a

abbrev pub as_number : Option ℤ → Option Number
as_number none = none
as_number (some v) = some (finite v)

unfoldable pub quality_of : Option PanelDelivery → Option Reading → QualityAssessment
quality_of d r = assess_station_quality (record {
  water_detected =
      or_else (seen (λ (d : PanelDelivery). some d.received_water) d)
        (seen (λ (r : Reading). some r.water) r);
  density = as_number (
      or_else (seen (λ (d : PanelDelivery). d.received_density) d)
        (seen (λ (r : Reading). r.density) r));
  temperature = as_number (
      or_else (seen (λ (d : PanelDelivery). d.received_temperature) d)
        (seen (λ (r : Reading). r.temperature) r));
  batch_quality_status = seen (λ (d : PanelDelivery). d.batch_quality_status) d;
  certificate_status = seen (λ (d : PanelDelivery). d.certificate_status) d;
  lab_result = none;
})

abbrev pub total_capacity : List PanelTank → ℤ
total_capacity = sum_by (λ (t : PanelTank). t.capacity)

abbrev pub total_stock : List PanelTank → ℤ
total_stock = sum_by (λ (t : PanelTank). t.current_stock)

-- What the supervision panel shows of a delivery to the station.
pub record Trip : Type 0 where
  pub cistern_code : String
  pub status : DeliveryStatus
  pub volume_liters : ℤ
  pub batch_code : String
  pub issued_at : ℕ
  pub consumed_at : Option ℕ
  pub checkpoints : List PanelPoint

abbrev trip_of : PanelDelivery → Trip
trip_of d = record {
  cistern_code = d.cistern_code;
  status = d.status;
  volume_liters = get_or d.received_liters d.loaded_liters;
  batch_code = d.batch_code;
  issued_at = d.loaded_at;
  consumed_at = d.delivered_at;
  checkpoints =
      take 6 (sort_by (λ (c e : PanelPoint). leb c.captured_at e.captured_at) d.checkpoints);
}

-- What it shows of a tank.
pub record TankView : Type 0 where
  pub id : ℕ
  pub capacity : ℤ
  pub current_stock : ℤ
  pub fill_percent : Option ℤ
  pub last_measurement : Option Reading

abbrev tank_view : PanelTank → TankView
tank_view t = record {
  id = t.id;
  capacity = t.capacity;
  current_stock = t.current_stock;
  fill_percent = fill_percent t.current_stock t.capacity;
  last_measurement = last_reading (some t);
}

pub record StationView : Type 0 where
  pub id : ℕ
  pub code : String
  pub availability : Availability
  pub stock_liters : ℤ
  pub capacity_liters : ℤ
  pub fill_percent : Option ℤ
  pub quality : QualityAssessment
  pub tanks : List TankView
  pub cisterns : List Trip

unfoldable pub supervised : PanelStation → StationView
supervised s =
    let capacity = total_capacity s.tanks in
    let stock = total_stock s.tanks in
    record {
      id = s.id;
      code = s.code;
      availability = availability_from_fill_ratio (fill_ratio_of capacity stock);
      stock_liters = stock;
      capacity_liters = capacity;
      fill_percent = fill_percent stock capacity;
      quality = quality_of (latest_delivery s) (last_reading (first s.tanks));
      tanks = map tank_view s.tanks;
      cisterns = map trip_of (recent s);
    }

-- What the public listing shows; volumes are whole litres.
pub record PublicView : Type 0 where
  pub code : String
  pub availability : Availability
  pub quality_tone : QualityTone
  pub fill_percent : Option ℤ
  pub stock_liters : Option ℤ
  pub capacity_liters : Option ℤ
  pub water_detected : Bool

abbrev is_wet : Option Reading → Bool
is_wet none = false
is_wet (some r) = r.water

-- A station without tanks shows no volumes, and the availability of its row.
abbrev pub published_tanks : PanelStation → List PanelTank → PublicView
published_tanks s [] = record {
  code = s.code;
  availability = s.availability;
  quality_tone = (quality_of (last_delivery s) none).tone;
  fill_percent = none;
  stock_liters = none;
  capacity_liters = none;
  water_detected = false;
}
published_tanks s (t ∷ tanks) =
    let capacity = total_capacity (t ∷ tanks) in
    let stock = total_stock (t ∷ tanks) in
    let last = last_reading (some t) in
    record {
      code = s.code;
      availability = availability_from_fill_ratio (fill_ratio_of capacity stock);
      quality_tone = (quality_of (last_delivery s) last).tone;
      fill_percent = public_percent stock capacity;
      stock_liters = some (round_litres stock);
      capacity_liters = some (round_litres capacity);
      water_detected = is_wet last;
    }

unfoldable pub published : PanelStation → PublicView
published s = published_tanks s s.tanks
