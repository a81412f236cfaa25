-- ===== src/Anchors/Own.antt =====
-- Whose evidence the list of the anchors shows a member of a station.
use fuel_chain.Base.{
  ℕ, ◌≡◌, refl, ap, sym, ◌∙◌, String, true, false, ◌&&◌, Option, none, some, List, ◌==◌, ==_iff,
  eq_iff, is_some, find_first, find_first-holds, filter, All, All-filter, All-sort_by, found_kept,
  Stored, find_first-Stored, Option-cases, Bool-cases, inl, inr, arith,
}
use fuel_chain.Schema.{station_staff}
use fuel_chain.Store.{Actor, Station, Delivery}
use fuel_chain.Anchors.{Anchor}
use fuel_chain.Anchors.Request.{is_newer}
use fuel_chain.Anchors.Live.{
  Reception, names_station, is_delivery_to, goes_to, is_of_station, is_received_at, of_batch,
  scoped, list_anchors, list_for,
}

-- A reception at a station: its metadata name the station, or a stored delivery to it.
pub data AtStation (deliveries : List Delivery) (s : Station) (r : Reception) : Type 0 where
  by_code : r.station_code ≡ some s.code → AtStation deliveries s r
  by_delivery :
      (d : Delivery)
      → Stored d deliveries
      → r.delivery_id ≡ some d.id
      → d.destination_station_id ≡ s.id
      → AtStation deliveries s r

named : (code : Option String) (s : Station) → names_station code s ≡ true → code ≡ some s.code
named none s h = absurd (cc)
named (some code) s h = ap some ((eq_iff code s.code).0 h)

going :
    (o : Option ℕ) (s : Station) (deliveries : List Delivery)
    → goes_to o s deliveries ≡ true
    → (d : Delivery) × Stored d deliveries × (o ≡ some d.id) × (d.destination_station_id ≡ s.id)
going none s deliveries h = absurd (cc)
going (some k) s deliveries h = elim (Option-cases (find_first (is_delivery_to k s) deliveries)) [
  | inl e ↦ absurd (ground (arith, e, h))
  | inr (d, e) ↦
      let on = find_first-holds (is_delivery_to k s) deliveries d e in
      (
        d,
        find_first-Stored (is_delivery_to k s) deliveries d e,
        ap some (ground (arith, on)),
        ground (arith, on),
      )
]

at_station :
    (s : Station) (deliveries : List Delivery) (r : Reception)
    → is_of_station s deliveries r ≡ true
    → AtStation deliveries s r
at_station s deliveries r h = elim (Bool-cases (names_station r.station_code s)) [
  | inl e ↦ by_code (named r.station_code s e)
  | inr e ↦
      let (d, kept, on, to) = going r.delivery_id s deliveries (ground (arith, h, e)) in
      by_delivery d kept on to
]

-- An anchor of a stored reception at the stored station of a key.
pub record IsOwn (k : ℕ) (stations : List Station) (receptions : List Reception)
    (deliveries : List Delivery) (a : Anchor) : Type 0 where
  pub station : Station
  pub known : find_first (λ (s : Station). s.id == k) stations ≡ some station
  pub reception : Reception
  pub kept : Stored reception receptions
  pub of_event : a.event_id ≡ some reception.event_id
  pub at : AtStation deliveries station reception

received_at :
    (k : ℕ) (stations : List Station) (s : Station) (deliveries : List Delivery)
    (receptions : List Reception) (a : Anchor) (event : Option ℕ)
    → find_first (λ (x : Station). x.id == k) stations ≡ some s
    → a.event_id ≡ event
    → elim event [
      | none ↦ false
      | some j ↦ is_some (
          find_first
            (λ (r : Reception). r.event_id == j)
            (filter (is_of_station s deliveries) receptions))
    ]
      ≡ true
    → IsOwn k stations receptions deliveries a
received_at k stations s deliveries receptions a none known e h = absurd (cc)
received_at k stations s deliveries receptions a (some j) known e h =
    let (r, on, of, kept) =
      found_kept (λ (r : Reception). r.event_id == j) (is_of_station s deliveries) receptions h in
    record {
      station = s;
      known = known;
      reception = r;
      kept = kept;
      of_event = e ∙ ap some (sym ((==_iff r.event_id j).0 on));
      at = at_station s deliveries r of;
    }

scoped-IsOwn :
    (k : ℕ) (stations : List Station) (o : Option Station) (batch : Option ℕ)
    (receptions : List Reception) (deliveries : List Delivery) (anchors : List Anchor)
    → find_first (λ (s : Station). s.id == k) stations ≡ o
    → All (IsOwn k stations receptions deliveries) (scoped o batch receptions deliveries anchors)
scoped-IsOwn k stations none batch receptions deliveries anchors known = tt
scoped-IsOwn k stations (some s) batch receptions deliveries anchors known =
    let own = filter (is_of_station s deliveries) receptions in
    let p = λ (a : Anchor). of_batch batch a && is_received_at own a in
    let mine = IsOwn k stations receptions deliveries in
    All-sort_by mine is_newer (filter p anchors) (
      All-filter mine p
        (λ a h.
          received_at k stations s deliveries receptions a a.event_id known refl
            (ground (arith, h)))
        anchors)

-- Every anchor that the list shows a member of a station is of a reception in the database, whose metadata
-- name the station with the key of that user, or a delivery in the database to it, whatever station the
-- request names.
pub list_for-IsOwn :
    (user : Actor) (k : ℕ) (batch : Option ℕ) (code : Option String) (stations : List Station)
    → (receptions : List Reception) (deliveries : List Delivery) (anchors : List Anchor)
    → user.role ≡ station_staff
    → user.station_id ≡ some k
    → All
        (IsOwn k stations receptions deliveries)
        (list_for (some user) batch code stations receptions deliveries anchors)
unfolding list_for list_anchors
list_for-IsOwn user k batch code stations receptions deliveries anchors staff at =
    rw (staff, at)
      (scoped-IsOwn k stations (find_first (λ (s : Station). s.id == k) stations) batch receptions
        deliveries anchors refl)
