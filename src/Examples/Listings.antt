-- ===== src/Examples/Listings.antt =====
-- Small listings: the panel of the stations, settlements, batches by pages, and the anchors of a station.
use fuel_chain.Base.{
  ℕ, ◌≤◌, ◌≡◌, refl, String, true, false, none, some, List, [], ◌∷◌, length, map, All, ok, arith,
}
use fuel_chain.Base.Text.{trim, trim_start, trim_end}
use fuel_chain.Base.Int.{pos, ◌+ℤ◌}
use fuel_chain.Schema
use fuel_chain.Schema.{Availability, admin, station_staff}
use fuel_chain.Settlement.{Settlement}
use fuel_chain.Store.{Db}
use fuel_chain.Stations.Panel.{PanelTank, PanelStation, StationView, supervised}
use fuel_chain.Stations.Listed.{Supervision, supervision, list_supervision, is_low}
use fuel_chain.Stations.Listed.Shown.{supervision-own, supervised-low, below_35}
use fuel_chain.Listings.{list_settlements}
use fuel_chain.Listings.Seen.{MaySee, list_settlements-MaySee}
use fuel_chain.Batches.Pages.{
  BatchRow, RiskLevel, Query, find_all, pages, listed, asked_rows, page_size_of, find_all-pages,
}
use fuel_chain.Anchors.{Anchor}
use fuel_chain.Anchors.Setup.{
  Environment, Node, Status, status_of, get_status, private_key, contract_address, chain_ready,
  is_prefixed_hex, is_hex, get_status-live,
}
use fuel_chain.Anchors.Live.{Reception, list_for}
use fuel_chain.Anchors.Own.{IsOwn, list_for-IsOwn}
use fuel_chain.Examples.{batch, other_batch, station, start, staff, delivery}

abbrev panel_tank : PanelTank
panel_tank = record {
  id = 4;
  cistern_code = none;
  capacity = pos 20000000;
  current_stock = pos 1000000;
  readings = [];
}

abbrev panel_station : ℕ → PanelStation
panel_station k = record {
  id = k;
  code = "EESS";
  name = "n";
  city = "La Paz";
  public_visible = true;
  availability = Availability.unknown;
  tanks = panel_tank ∷ [];
  deliveries = [];
}

abbrev shown : Supervision
shown = list_supervision (some "all") (some 3) false (panel_station 3 ∷ panel_station 7 ∷ []) []

supervised_staff : supervision staff none (panel_station 3 ∷ panel_station 7 ∷ []) [] ≡ ok shown
unfolding supervision
supervised_staff = refl

supervision-own_example :
    (k : ℕ) × (some 3 ≡ some k)
    × All (λ (v : StationView). v.id ≡ k) shown.shown
    × (shown.fleet ≡ [])
supervision-own_example =
    supervision-own staff none (panel_station 3 ∷ panel_station 7 ∷ []) [] shown refl
      supervised_staff

sums_stock : pos 1000000 +ℤ pos 0 ≡ pos 1000000
unfolding ◌+ℤ◌
sums_stock = refl

sums_capacity : pos 20000000 +ℤ pos 0 ≡ pos 20000000
unfolding ◌+ℤ◌
sums_capacity = refl

supervised-low_example : is_low (supervised (panel_station 3)) ≡ below_35 1000000 20000000
supervised-low_example =
    supervised-low (panel_station 3) 1000000 20000000 sums_stock sums_capacity (omega arith)

abbrev settlement : ℕ → Settlement
settlement station = record {
  id = 1;
  delivery_id = 5;
  driver_id = some 11;
  cistern_id = 2;
  station_id = station;
  batch_id = 1;
  liters = pos 1000;
  amount_cents = 35;
  status = Schema.SettlementStatus.pending;
  paid_at = none;
  paid_by_id = none;
}

abbrev settled : Db
settled = record start { settlements = settlement 3 ∷ settlement 7 ∷ settlement 3 ∷ [] }

own_settlements : list_settlements staff settled ≡ ok (settlement 3 ∷ settlement 3 ∷ [])
unfolding list_settlements
own_settlements = refl

list_settlements-MaySee_example :
    All (MaySee staff settled) (settlement 3 ∷ settlement 3 ∷ [])
    × (length (settlement 3 ∷ settlement 3 ∷ []) ≤ 40)
list_settlements-MaySee_example =
    list_settlements-MaySee staff settled (settlement 3 ∷ settlement 3 ∷ []) own_settlements

abbrev row : BatchRow
row = record {
  batch = batch;
  product = "D";
  origin_country = "AR";
  risk_level = RiskLevel.low;
  is_certified = false;
  updated_at = 5;
  event_times = 1 ∷ 3 ∷ [];
}

abbrev query : Query
query = record {
  page = none;
  page_size = some 1;
  status = none;
  risk = none;
  product = none;
  origin = none;
  q = none;
}

abbrev rows : List BatchRow
rows = row ∷ record row { batch = other_batch } ∷ []

find_all-pages_example :
    (pages (λ s t. true) query rows 1 (find_all (λ s t. true) query rows).page_count
      ≡ map listed (asked_rows (λ s t. true) query rows))
    × (page_size_of query ≤ 100)
    × ((find_all (λ s t. true) query rows).total ≡ length (asked_rows (λ s t. true) query rows))
find_all-pages_example = find_all-pages (λ s t. true) query rows (omega arith)

abbrev address : String
address = "0x00000000000000000000000000000000000000aB"

abbrev environment : Environment
environment = record {
  contract_address = some address;
  private_key = some "0x0000000000000000000000000000000000000000000000000000000000000001";
  chain_rpc_url = none;
  chain_id = none;
}

abbrev node : Node
node = record { chain = some (31337, 7); anchor_count = λ a. some 2 }

abbrev status : Status
status = status_of (some (31337, 7)) node (some address) true

status-ok : get_status environment none node ≡ ok status
unfolding get_status private_key contract_address is_prefixed_hex is_hex trim trim_start trim_end
status-ok = refl

get_status-live_example :
    (a : String) × (n : ℕ × ℕ) × (some address ≡ some a)
    × (is_prefixed_hex 40 a ≡ true)
    × (node.chain ≡ some n)
    × (chain_ready environment none ≡ ok none)
get_status-live_example = get_status-live environment none node status status-ok refl

abbrev anchor : Anchor
anchor = record {
  id = 1;
  batch_id = 1;
  event_kind = "CustodyEventRegistered";
  event_id = some 6;
  data_hash = "h";
  transaction_hash = none;
  block_number = none;
  chain_id = none;
  actor_wallet = none;
  timestamp = 5;
}

abbrev reception : Reception
reception = record { event_id = 6; station_code = none; delivery_id = some 5 }

list_for-IsOwn_example : All (IsOwn 3 (station ∷ []) (reception ∷ []) (delivery ∷ [])) (
    list_for
      (some staff)
      none
      (some "EESS-9")
      (station ∷ [])
      (reception ∷ [])
      (delivery ∷ [])
      (anchor ∷ []))
list_for-IsOwn_example =
    list_for-IsOwn staff 3 none (some "EESS-9") (station ∷ []) (reception ∷ []) (delivery ∷ [])
      (anchor ∷ []) refl refl
