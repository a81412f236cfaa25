-- ===== src/Journey.antt =====
-- What changed along the route of a cistern: `computeVolumeDrops`, `computeQualityChanges` and
-- `normalizeCheckpointKind` of apps/api/src/common/journey-trail.ts. Labels, notes, coordinates
-- and the hours between two points, which are only shown, are left out. Volumes, densities and
-- temperatures are on the grid of their columns, so that rounding to 3, 4 and 2 places changes
-- nothing.
pub mod Parse
use fuel_chain.Base.{
  ℕ, ◌≤◌, ◌≡◌, refl, String, Bool, true, false, Option, none, some, List, [], ◌∷◌, ◌++◌, leb, ltb,
  str_eq, if◌then◌else◌, All, arith, Bool-cases, inl, inr,
}
use fuel_chain.Base.Int.{ℤ, pos, ◌+ℤ◌, ◌-ℤ◌, abs, int_laws}
use fuel_chain.Store.{CheckpointKind, load_departure, route_waypoint, arrival_station}

pub record Point : Type 0 where
  pub volume_liters : ℤ
  pub density : Option ℤ
  pub temperature : Option ℤ
  pub water : Bool
  pub captured_at : ℕ

-- `sort` is stable: a point goes before those captured no earlier, in the list that follows it.
abbrev pub insert : Point → List Point → List Point
insert x [] = x ∷ []
insert x (y ∷ ys) =
    let rest = insert x ys in if leb x.captured_at y.captured_at then x ∷ y ∷ ys else y ∷ rest

unfoldable pub ordered_points : List Point → List Point
ordered_points [] = []
ordered_points (x ∷ xs) = insert x (ordered_points xs)

pub record VolumeDrop : Type 0 where
  pub delta_liters : ℤ
  pub previous_liters : ℤ
  pub next_liters : ℤ
  pub from_at : ℕ
  pub to_at : ℕ

-- `Math.abs(deltaLiters) < 0.001` is less than one millilitre.
abbrev drop_between : Point → Point → List VolumeDrop → List VolumeDrop
drop_between p q rest =
    if ltb (abs (q.volume_liters -ℤ p.volume_liters)) 1
    then rest
    else record {
      delta_liters = q.volume_liters -ℤ p.volume_liters;
      previous_liters = p.volume_liters;
      next_liters = q.volume_liters;
      from_at = p.captured_at;
      to_at = q.captured_at;
    }
      ∷ rest

abbrev pub drops_from : Point → List Point → List VolumeDrop
drops_from p [] = []
drops_from p (q ∷ points) = drop_between p q (drops_from q points)

abbrev pub drops_of : List Point → List VolumeDrop
drops_of [] = []
drops_of (p ∷ points) = drops_from p points

unfoldable pub compute_volume_drops : List Point → List VolumeDrop
compute_volume_drops points = drops_of (ordered_points points)

-- The change of a metric, with its values where it is a number.
pub data QualityChange : Type 0 where
  density temperature : ℤ → ℤ → ℤ → ℕ → ℕ → QualityChange
  water : Bool → Bool → ℕ → ℕ → QualityChange

-- 0.0005 is 5 units of a density, 0.1 degrees are 10 of a temperature.
abbrev pub change_of : ℕ → (ℤ → ℤ → ℤ → QualityChange) → Option ℤ → Option ℤ → List QualityChange
change_of threshold make (some a) (some b) =
    if leb threshold (abs (b -ℤ a)) then make a b (b -ℤ a) ∷ [] else []
change_of threshold make _ _ = []

abbrev pub water_change : Bool → Bool → ℕ → ℕ → List QualityChange
water_change true true from to = []
water_change false false from to = []
water_change a b from to = water a b from to ∷ []

unfoldable pub changes_between : Point → Point → List QualityChange
changes_between p q =
    change_of 5 (λ a b d. density a b d p.captured_at q.captured_at) p.density q.density
    ++ change_of 10 (λ a b d. temperature a b d p.captured_at q.captured_at) p.temperature
        q.temperature
    ++ water_change p.water q.water p.captured_at q.captured_at

abbrev pub changes_from : Point → List Point → List QualityChange
changes_from p [] = []
changes_from p (q ∷ points) = changes_between p q ++ changes_from q points

abbrev pub changes_of : List Point → List QualityChange
changes_of [] = []
changes_of (p ∷ points) = changes_from p points

unfoldable pub compute_quality_changes : List Point → List QualityChange
compute_quality_changes points = changes_of (ordered_points points)

unfoldable pub normalize_checkpoint_kind : Option String → CheckpointKind
normalize_checkpoint_kind none = route_waypoint
normalize_checkpoint_kind (some kind) =
    if str_eq kind "LOAD_DEPARTURE"
    then load_departure
    else (if str_eq kind "ARRIVAL_STATION" then arrival_station else route_waypoint)

-- The volume at the last of the points.
abbrev pub last_volume : Point → List Point → ℤ
last_volume p [] = p.volume_liters
last_volume p (q ∷ points) = last_volume q points

abbrev pub sum_drops : List VolumeDrop → ℤ
sum_drops [] = pos 0
sum_drops (d ∷ ds) = d.delta_liters +ℤ sum_drops ds

abbrev pub Balanced : List VolumeDrop → List Point → Type 0
Balanced drops [] = drops ≡ []
Balanced drops (p ∷ points) = p.volume_liters +ℤ sum_drops drops ≡ last_volume p points

drops_from-sum :
    (p : Point) (points : List Point)
    → p.volume_liters +ℤ sum_drops (drops_from p points) ≡ last_volume p points
drops_from-sum p [] = omega int_laws
drops_from-sum p (q ∷ points) = grind (int_laws, drops_from-sum q points)

-- The changes of volume along a route, those that are reported, add up to what lies between the
-- earliest point and the latest: no litre that left a cistern on the way goes unreported.
pub compute_volume_drops-sum :
    (points : List Point) → Balanced (compute_volume_drops points) (ordered_points points)
unfolding compute_volume_drops
compute_volume_drops-sum points = balanced (ordered_points points)
  where
    balanced : (ps : List Point) → Balanced (drops_of ps) ps
    balanced [] = refl
    balanced (p ∷ ps) = drops_from-sum p ps

abbrev Later : ℕ → Point → Type 0
Later t p = t ≤ p.captured_at

-- In the order of their times.
abbrev pub IsOrdered : List Point → Type 0
IsOrdered [] = Unit
IsOrdered (p ∷ points) = All (Later p.captured_at) points × IsOrdered points

insert-All :
    (t : ℕ) (x : Point) (ys : List Point)
    → t ≤ x.captured_at
    → All (Later t) ys
    → All (Later t) (insert x ys)
insert-All t x [] h all = (h, tt)
insert-All t x (y ∷ ys) h all = elim (Bool-cases (leb x.captured_at y.captured_at)) [
  | inl e ↦ rw e (h, all)
  | inr e ↦ rw e (all.0, insert-All t x ys h all.1)
]

All-Later : (s t : ℕ) (ys : List Point) → s ≤ t → All (Later t) ys → All (Later s) ys
All-Later s t [] h all = tt
All-Later s t (y ∷ ys) h all = (omega (arith, all.0), All-Later s t ys h all.1)

insert-IsOrdered : (x : Point) (ys : List Point) → IsOrdered ys → IsOrdered (insert x ys)
insert-IsOrdered x [] h = (tt, tt)
insert-IsOrdered x (y ∷ ys) h = elim (Bool-cases (leb x.captured_at y.captured_at)) [
  | inl e ↦
      let below : x.captured_at ≤ y.captured_at = ground (arith, e) in
      rw e ((below, All-Later x.captured_at y.captured_at ys below h.0), h)
  | inr e ↦
      let above : y.captured_at ≤ x.captured_at = ground (arith, e) in
      rw e (insert-All y.captured_at x ys above h.0, insert-IsOrdered x ys h.1)
]

ordered_points-IsOrdered : (points : List Point) → IsOrdered (ordered_points points)
unfolding ordered_points
ordered_points-IsOrdered [] = tt
ordered_points-IsOrdered (p ∷ points) =
    insert-IsOrdered p (ordered_points points) (ordered_points-IsOrdered points)

-- A change of volume that is more than nothing, between two times in order.
abbrev pub IsDrop : VolumeDrop → Type 0
IsDrop d =
    (d.from_at ≤ d.to_at)
    × (d.previous_liters +ℤ d.delta_liters ≡ d.next_liters)
    × (1 ≤ abs d.delta_liters)

drops_from-IsDrop :
    (p : Point) (points : List Point) → IsOrdered (p ∷ points) → All IsDrop (drops_from p points)
drops_from-IsDrop p [] h = tt
drops_from-IsDrop p (q ∷ points) h =
    let rest = drops_from-IsDrop q points h.1 in
    let order = h.0.0 in
    let sum : p.volume_liters +ℤ (q.volume_liters -ℤ p.volume_liters) ≡ q.volume_liters =
      omega int_laws in
    elim (Bool-cases (ltb (abs (q.volume_liters -ℤ p.volume_liters)) 1)) [
      | inl e ↦ rw e rest
      | inr e ↦ rw e ((order, sum, ground (arith, e)), rest)
    ]

-- Each change that is reported is of a millilitre at least, leads from the volume before to the one
-- after, and never goes back in time, in whatever order the points arrived.
pub compute_volume_drops-IsDrop : (points : List Point) → All IsDrop (compute_volume_drops points)
unfolding compute_volume_drops
compute_volume_drops-IsDrop points =
    by_points (ordered_points points) (ordered_points-IsOrdered points)
  where
    by_points : (ps : List Point) → IsOrdered ps → All IsDrop (drops_of ps)
    by_points [] h = tt
    by_points (p ∷ ps) h = drops_from-IsDrop p ps h
