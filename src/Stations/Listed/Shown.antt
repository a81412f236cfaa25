-- ===== src/Stations/Listed/Shown.antt =====
-- Which stations the panel and the public listing show, and which the panel counts as short of stock.
use fuel_chain.Base.{
  subst, ◌<◌, ℕ, ◌*◌, ◌+◌, ◌≤◌, ◌≡◌, refl, ◌∙◌, String, Bool, true, false, ◌||◌, Option, none, some,
  List, [], filter, sort_by, All, All-filter, All-sort_by, All-map, ok, ltb, Bool-cases, inl, inr,
  arith,
}
use native.Mathlib.Nat.{mul-le-mul_left}
use fuel_chain.Base.Int.{pos, ltb_ℤ, scale}
use fuel_chain.Schema.{station_staff}
use fuel_chain.Store.{Actor, Cistern}
use fuel_chain.Tank.{availability_from_fill_ratio, fill_ratio_of}
use fuel_chain.Stations.Level.{fill_percent, fill_percent-nearest, held}
use fuel_chain.Stations.Panel.{PanelStation, StationView, supervised, total_capacity, total_stock}
use fuel_chain.Stations.Listed.{
  Supervision, supervision, list_supervision, normalize_city_filter, is_selected, is_low, by_city,
  or_all, own_panel, is_low_level, is_below,
}

supervised_id : (s : PanelStation) → (supervised s).id ≡ s.id
unfolding supervised
supervised_id s = refl

selected_id :
    (k : ℕ) (city : Option String) (s : PanelStation)
    → is_selected (some k) city s ≡ true
    → s.id ≡ k
selected_id k city s h = ground (arith, h)

own_rows :
    (k : ℕ) (city : Option String) (rows : List PanelStation) (cisterns : List Cistern)
    → let s = list_supervision city (some k) false rows cisterns in
      All (λ (v : StationView). v.id ≡ k) s.shown × (s.fleet ≡ [])
unfolding list_supervision
own_rows k city rows cisterns =
    let filter_by = normalize_city_filter city in
    let own = λ (v : StationView). v.id ≡ k in
    (
      All-map own supervised
          (sort_by (by_city (λ (s : PanelStation). s.code))
            (filter (is_selected (some k) filter_by) rows))
          (All-sort_by (λ s. own (supervised s)) (by_city (λ (s : PanelStation). s.code))
            (filter (is_selected (some k) filter_by) rows)
            (All-filter (λ s. own (supervised s)) (is_selected (some k) filter_by)
              (λ s h. supervised_id s ∙ selected_id k filter_by s h) rows)),
      refl,
    )

panel_own :
    (o : Option ℕ) (city : Option String) (rows : List PanelStation) (cisterns : List Cistern)
    → (s : Supervision) → own_panel o city rows cisterns ≡ ok s
    → (k : ℕ) × (o ≡ some k) × All (λ (v : StationView). v.id ≡ k) s.shown × (s.fleet ≡ [])
panel_own none city rows cisterns s h = cc
panel_own (some k) city rows cisterns s h =
    let own = own_rows k city rows cisterns in
    let same : list_supervision city (some k) false rows cisterns ≡ s = cc in
    (
      k,
      refl,
      subst (λ (x : Supervision). All (λ (v : StationView). v.id ≡ k) x.shown) same own.0,
      subst (λ (x : Supervision). x.fleet ≡ []) same own.1,
    )

-- What the panel shows a member of a station: that station and no other, and nothing of the fleet.
pub supervision-own :
    (user : Actor) (city : Option String) (rows : List PanelStation) (cisterns : List Cistern)
    → (s : Supervision) → user.role ≡ station_staff
    → supervision user city rows cisterns ≡ ok s
    → (k : ℕ) × (user.station_id ≡ some k)
      × All (λ (v : StationView). v.id ≡ k) s.shown
      × (s.fleet ≡ [])
unfolding supervision
supervision-own user city rows cisterns s staff h =
    panel_own user.station_id (or_all city) rows cisterns s (ground (arith, h, staff))

-- Whether tanks are filled to less than 35 % of a capacity above 0.
abbrev pub below_35 : ℕ → ℕ → Bool
below_35 stock capacity = ltb (100 * stock) (35 * capacity)

percent_above :
    (stock capacity p : ℕ)
    → 1 ≤ capacity
    → 200 * held stock capacity + capacity < 2 * capacity * p + 2 * capacity
    → below_35 stock capacity ≡ false
    → ltb_ℤ (pos p) (pos 25) ≡ false
percent_above stock capacity p room near above = elim (Bool-cases (ltb_ℤ (pos p) (pos 25))) [
  | inr e ↦ e
  | inl e ↦
      let few : p ≤ 24 = ground (arith, e) in
      let most : 2 * capacity * p ≤ 2 * capacity * 24 = mul-le-mul_left (2 * capacity) few in
      let enough : 35 * capacity ≤ 100 * held stock capacity = ground (arith, above) in
      absurd (omega (arith, most, enough, near, room))
]

low_of :
    (stock capacity p : ℕ)
    → 1 ≤ capacity
    → fill_percent (pos stock) (pos capacity) ≡ some (pos p)
    → 200 * held stock capacity + capacity < 2 * capacity * p + 2 * capacity
    → (is_low_level (availability_from_fill_ratio (fill_ratio_of (pos capacity) (pos stock)))
        || is_below (fill_percent (pos stock) (pos capacity)))
      ≡ below_35 stock capacity
unfolding availability_from_fill_ratio fill_ratio_of scale
low_of stock capacity p room shown near =
    rw shown (ground (arith, room, percent_above stock capacity p room near))

-- The panel counts a station with a capacity above 0 as short of stock exactly where its tanks are filled
-- to less than 35 %: the test of the percentage against 25 adds none.
pub supervised-low :
    (s : PanelStation) (stock capacity : ℕ)
    → total_stock s.tanks ≡ pos stock
    → total_capacity s.tanks ≡ pos capacity
    → 1 ≤ capacity
    → is_low (supervised s) ≡ below_35 stock capacity
unfolding supervised
supervised-low s stock capacity stocked room some_room =
    let (p, shown, most, lower, upper) = fill_percent-nearest stock capacity some_room in
    rw (stocked, room) (low_of stock capacity p some_room shown upper)
