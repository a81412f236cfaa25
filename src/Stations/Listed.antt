-- ===== src/Stations/Listed.antt =====
-- The listings of the stations: `listPublic`, `listSupervision` and `listUnlockReport` of
-- apps/api/src/stations/stations.service.ts, and the handler `supervision` of
-- apps/api/src/stations/stations.controller.ts. Texts are ordered by their code points where the
-- database orders them.
pub mod Shown
use fuel_chain.Base.{
  ℕ, ◌+◌, ◌≡◌, String, Bool, true, false, not, ◌&&◌, ◌||◌, Option, none, some, List, [], ◌∷◌, ◌==◌,
  leb, length, str_eq, is_some, if◌then◌else◌, find_first, filter, count_where, map, sort_by, take,
  Result, ok, err,
}
use fuel_chain.Base.Int.{ℤ, pos, ltb_ℤ}
use fuel_chain.Base.Text.{text_le}
use fuel_chain.Schema.{
  DeliveryStatus, Availability, low, empty, station_staff, same_role, is_open, Exception,
  role_forbidden,
}
use fuel_chain.Store.{Actor, Cistern}
use fuel_chain.Stations.{QualityTone, alert, rejected}
use fuel_chain.Stations.Panel.{
  PanelStation, PanelDelivery, PanelPoint, StationView, PublicView, supervised, published,
  newest_first,
}

-- `normalizeCityFilter`
unfoldable pub normalize_city_filter : Option String → Option String
normalize_city_filter none = none
normalize_city_filter (some city) =
    if str_eq city "" || (str_eq city "all" || (str_eq city "Bolivia" || str_eq city "*"))
    then none
    else some city

abbrev pub in_city : Option String → PanelStation → Bool
in_city none s = true
in_city (some city) s = str_eq s.city city

-- `distinct: ['city']`
abbrev distinct : List String → List String
distinct [] = []
distinct (c ∷ cities) = let rest = distinct cities in c ∷ filter (λ d. not (str_eq d c)) rest

-- The order of `localeCompare` is a parameter.
unfoldable pub list_department_cities : (String → String → Bool) → List PanelStation → List String
list_department_cities le rows =
    sort_by le (sort_by text_le (distinct (map (λ (s : PanelStation). s.city) rows)))

-- `orderBy: [{ city: 'asc' }, …]`
abbrev pub by_city : (PanelStation → String) → PanelStation → PanelStation → Bool
by_city key s t = not (text_le t.city s.city) || (text_le s.city t.city && text_le (key s) (key t))

unfoldable pub list_public : Option String → List PanelStation → List PublicView
unfolding normalize_city_filter
list_public city rows = map published (
    sort_by (by_city (λ (s : PanelStation). s.name)) (
      filter (λ (s : PanelStation). s.public_visible && in_city (normalize_city_filter city) s)
        rows))

abbrev pub is_selected : Option ℕ → Option String → PanelStation → Bool
is_selected none city s = in_city city s
is_selected (some k) city s = s.id == k && in_city city s

-- A station is short of stock.
abbrev pub is_below : Option ℤ → Bool
is_below none = false
is_below (some p) = ltb_ℤ p (pos 25)

abbrev pub is_low_level : Availability → Bool
is_low_level low = true
is_low_level empty = true
is_low_level _ = false

abbrev pub is_low : StationView → Bool
is_low v = is_low_level v.availability || is_below v.fill_percent

abbrev pub is_alarming : QualityTone → Bool
is_alarming alert = true
is_alarming rejected = true
is_alarming _ = false

-- What the panel shows; the cisterns of the fleet are named by their codes.
pub record Supervision : Type 0 where
  pub stations : ℕ
  pub low_stock : ℕ
  pub quality_alerts : ℕ
  pub fleet_cisterns : ℕ
  pub shown : List StationView
  pub fleet : List Cistern

abbrev by_code : Cistern → Cistern → Bool
by_code c d = text_le c.code d.code

-- `opts?.includeFleet !== false && !opts?.stationId`
abbrev pub fleet_of : Option ℕ → Bool → List Cistern → List Cistern
fleet_of none true cisterns = sort_by by_code cisterns
fleet_of _ _ cisterns = []

unfoldable pub list_supervision :
    Option String → Option ℕ → Bool → List PanelStation → List Cistern → Supervision
unfolding normalize_city_filter
list_supervision city station include_fleet rows cisterns =
    let chosen =
      sort_by (by_city (λ (s : PanelStation). s.code))
        (filter (is_selected station (normalize_city_filter city)) rows) in
    let shown = map supervised chosen in
    let fleet = fleet_of station include_fleet cisterns in
    record {
      stations = length shown;
      low_stock = count_where is_low shown;
      quality_alerts = count_where (λ (v : StationView). is_alarming v.quality.tone) shown;
      fleet_cisterns = length fleet;
      shown = shown;
      fleet = fleet;
    }

-- `city || 'all'`
abbrev or_all : Option String → Option String
or_all none = some "all"
or_all (some city) = if str_eq city "" then some "all" else some city

-- A member of a station sees the own station.
abbrev pub own_panel :
    Option ℕ → Option String → List PanelStation → List Cistern → Result Exception Supervision
own_panel none city rows cisterns = err role_forbidden
own_panel (some k) city rows cisterns = ok (list_supervision city (some k) false rows cisterns)

-- The handler of the panel.
unfoldable pub supervision :
    Actor → Option String → List PanelStation → List Cistern → Result Exception Supervision
supervision user city rows cisterns =
    if same_role user.role station_staff
    then own_panel user.station_id (or_all city) rows cisterns
    else ok (list_supervision (or_all city) none true rows cisterns)

-- A delivery in the public report.
pub record Journey : Type 0 where
  pub delivery : PanelDelivery
  pub load_water : Bool

abbrev first_points : Journey → List PanelPoint
first_points j =
    take 8 (sort_by (λ (c d : PanelPoint). leb c.captured_at d.captured_at) j.delivery.checkpoints)

abbrev has_water : Journey → Bool
has_water j =
    j.load_water
    || (j.delivery.received_water
        || is_some (find_first (λ (c : PanelPoint). c.water) (first_points j)))

abbrev count_points : List Journey → ℕ
count_points [] = 0
count_points (j ∷ js) = length (first_points j) + count_points js

pub record Report : Type 0 where
  pub stations : ℕ
  pub open_deliveries : ℕ
  pub checkpoints : ℕ
  pub quality_alerts : ℕ
  pub journeys : List Journey

unfoldable pub list_unlock_report : List PanelStation → List Journey → Report
list_unlock_report stations rows =
    let journeys = take 24 (sort_by (λ (j k : Journey). newest_first j.delivery k.delivery) rows) in
    record {
      stations = length stations;
      open_deliveries = count_where (λ (j : Journey). is_open j.delivery.status) journeys;
      checkpoints = count_points journeys;
      quality_alerts = count_where has_water journeys;
      journeys = journeys;
    }
