-- ===== src/Custody/Fuel/Stickers.antt =====
-- What a reception by a sticker (`receiveAfterScan` of cisterns.service.ts) does to the fuel in the
-- tanks and the cisterns.
use fuel_chain.Base.{
  ◌≡◌, refl, sym, ap, ◌∙◌, Bool, true, false, Option, some, find_first, ok, arith, >>=-eq-ok, ◌>>=◌,
  or_throw,
}
use fuel_chain.Base.Int.{ℤ, pos, ◌+ℤ◌, ltb_ℤ, min_ℤ, max_ℤ, int_laws}
use fuel_chain.Base.Sums.{sum_by}
use fuel_chain.Base.Number.{finite}
use fuel_chain.Tank.Levels.{apply_stock_delta-ok, apply_stock_withdraw-ok}
use fuel_chain.Store.{Db, StorageTank, cistern_by_id, update_cistern, update_tank, station_by_id}
use fuel_chain.Custody.Accept.Handover.{add_event}
use fuel_chain.Custody.Accept.Stocking.{is_at}
use fuel_chain.Journey.Parse.{Platform}
use fuel_chain.Sticker.Receive.{
  Arrival, load_after, emptied, empty_cistern, fill_tank, settle_trip, received_event, deliver,
}
use fuel_chain.Sticker.Receive.Written.{
  Steps, deliver-Steps, close_trip_lem, settle_trip-frame, empty_cistern-frame, fill_tank-frame,
  record_point_lem, credit_trip_lem,
}
use fuel_chain.Tank.{Stock, apply_stock_delta, apply_stock_withdraw}
use fuel_chain.Schema.{row_not_found}
use fuel_chain.Custody.Fuel.{stock, load, fuel, IsIndexed, tank-stock, cistern-load}
use fuel_chain.Custody.Fuel.Receptions.{taken, tank-found}

-- The load that a reception by sticker leaves.
load_after_lem :
    (positive : Bool) (a : Arrival) (next : ℤ)
    → ltb_ℤ (pos 0) (min_ℤ a.received a.cistern.current_load) ≡ positive
    → load_after a ≡ ok next
    → next +ℤ taken a.received a.cistern ≡ a.cistern.current_load
unfolding load_after taken max_ℤ
load_after_lem true a next test h =
    let unload = min_ℤ a.received a.cistern.current_load in
    let load = a.cistern.current_load in
    let ran : (apply_stock_withdraw load (finite unload) a.cistern.capacity >>= λ s.
    ok s.next_stock)
        ≡ ok next =
      ground (arith, h, test) in
    let (s, applied, ends) =
      >>=-eq-ok (apply_stock_withdraw load (finite unload) a.cistern.capacity) _ ran in
    let (r, same_r, above, same_p, left, nonneg) =
      apply_stock_withdraw-ok load (finite unload) a.cistern.capacity s applied in
    let off : r ≡ unload = cc in
    let last : s.next_stock ≡ next = cc in grind (int_laws, left, off, last, test)
load_after_lem false a next test h =
    let same : next ≡ a.cistern.current_load = ground (arith, h, test) in
    grind (int_laws, same, test)

empty_cistern-rows :
    (a : Arrival) (db db' : Db)
    → empty_cistern a db ≡ ok db'
    → (next : ℤ) × (load_after a ≡ ok next)
      × (db'.cisterns ≡ update_cistern a.cistern.id (emptied a next) db.cisterns)
unfolding empty_cistern
empty_cistern-rows a db db' h =
    let (next, left, rest) = >>=-eq-ok (load_after a) _ h in
    let (row, known, ends) =
      >>=-eq-ok (or_throw (cistern_by_id a.cistern.id db) row_not_found) _ rest in
    (next, left, ground arith)

fill_tank-rows :
    (a : Arrival) (t : StorageTank) (db db' : Db)
    → fill_tank a (some t) db ≡ ok db'
    → (s : Stock) × (s.next_stock ≡ t.current_stock +ℤ a.received)
      × (db'.tanks
          ≡ update_tank t.id
              (λ (r : StorageTank). record r { current_stock = s.next_stock })
              db.tanks)
unfolding fill_tank
fill_tank-rows a t db db' h =
    let (s, applied, rest) =
      >>=-eq-ok (apply_stock_delta t.current_stock (finite a.received) t.capacity) _ h in
    let (row, known, ends) =
      >>=-eq-ok (or_throw (station_by_id a.delivery.destination_station_id db) row_not_found) _
        rest in
    let (r, same_r, above, same_p, sum_p, fits) =
      apply_stock_delta-ok t.current_stock (finite a.received) t.capacity s applied in
    let recv : r ≡ a.received = cc in (s, cc, ground arith)

-- The tables of the tanks and the cisterns in the steps of a reception by sticker.
record Untouched (w : Platform) (a : Arrival) {db db' : Db} (t : Steps w a db db') : Type 0 where
  pub tanks_before : t.unloaded.tanks ≡ db.tanks
  pub tanks_after : db'.tanks ≡ t.filled.tanks
  pub cisterns_before : (settle_trip a t.closed).cisterns ≡ db.cisterns
  pub cisterns_after : db'.cisterns ≡ t.unloaded.cisterns

deliver-Untouched :
    (w : Platform) (a : Arrival) {db db' : Db} (t : Steps w a db db') → Untouched w a t
unfolding add_event
deliver-Untouched w a {db} {db'} t =
    let (d, d_found, closed) = close_trip_lem a db t.closed t.closes in
    let settled = settle_trip-frame a t.closed in
    let unloaded = empty_cistern-frame a (settle_trip a t.closed) t.unloaded t.empties in
    let filled = fill_tank-frame a _ t.unloaded t.filled t.fills in
    let (new, pointed) = record_point_lem w a t.filled t.pointed t.points in
    let (b, b_found, credited) =
      credit_trip_lem a (add_event (received_event a) t.pointed) db' t.credits in
    record {
      tanks_before = ground arith;
      tanks_after = ground arith;
      cisterns_before = ground arith;
      cisterns_after = ground arith;
    }

deliver-tanks :
    (w : Platform) (a : Arrival) (db db' : Db) (tank : StorageTank)
    → IsIndexed db
    → deliver w a db ≡ ok db'
    → find_first (is_at a.delivery.destination_station_id) db.tanks ≡ some tank
    → sum_by stock db'.tanks ≡ sum_by stock db.tanks +ℤ a.received
deliver-tanks w a db db' tank keyed h found =
    let t = deliver-Steps w a db db' h in
    let u = deliver-Untouched w a t in
    let k = a.delivery.destination_station_id in
    let on_tank : fill_tank a (some tank) t.unloaded ≡ ok t.filled =
      ap (λ (o : Option StorageTank). fill_tank a o t.unloaded)
        (sym (ap (find_first (is_at k)) u.tanks_before ∙ found))
      ∙ t.fills in
    let (s, next, rows) = fill_tank-rows a tank t.unloaded t.filled on_tank in
    let sums =
      tank-stock db.tanks tank s.next_stock (tank-found k db tank keyed found)
        (keyed.tanks tank.id) in
    let update = λ (x : StorageTank). record x { current_stock = s.next_stock } in
    let tanks : db'.tanks ≡ update_tank tank.id update db.tanks =
      u.tanks_after ∙ rows ∙ ap (update_tank tank.id update) u.tanks_before in
    rw tanks (grind (int_laws, sums, next))

deliver-cisterns :
    (w : Platform) (a : Arrival) (db db' : Db)
    → IsIndexed db
    → deliver w a db ≡ ok db'
    → cistern_by_id a.cistern.id db ≡ some a.cistern
    → sum_by load db'.cisterns +ℤ taken a.received a.cistern ≡ sum_by load db.cisterns
deliver-cisterns w a db db' keyed h read =
    let t = deliver-Steps w a db db' h in
    let u = deliver-Untouched w a t in
    let (left, after, rows) = empty_cistern-rows a (settle_trip a t.closed) t.unloaded t.empties in
    let sums =
      cistern-load (emptied a left) db.cisterns a.cistern read (keyed.cisterns a.cistern.id) in
    let same =
      load_after_lem (ltb_ℤ (pos 0) (min_ℤ a.received a.cistern.current_load)) a left refl after in
    let cisterns : db'.cisterns ≡ update_cistern a.cistern.id (emptied a left) db.cisterns =
      u.cisterns_after
      ∙ rows
      ∙ ap (update_cistern a.cistern.id (emptied a left)) u.cisterns_before in
    rw cisterns (grind (int_laws, sums, same))

-- A reception by sticker that commits adds the received litres to the tank of the station and takes
-- them from the cistern as far as it holds them: what all tanks and cisterns hold after it, with what
-- was taken, is what they held before it, with what was received. The station has a tank, the cistern
-- is as it was read before the transaction, and the keys of the tanks and of the cisterns are unique.
pub deliver-fuel :
    (w : Platform) (a : Arrival) (db db' : Db) (tank : StorageTank)
    → IsIndexed db
    → deliver w a db ≡ ok db'
    → find_first (is_at a.delivery.destination_station_id) db.tanks ≡ some tank
    → cistern_by_id a.cistern.id db ≡ some a.cistern
    → fuel db' +ℤ taken a.received a.cistern ≡ fuel db +ℤ a.received
unfolding fuel
deliver-fuel w a db db' tank keyed h found read =
    let tanks = deliver-tanks w a db db' tank keyed h found in
    let cisterns = deliver-cisterns w a db db' keyed h read in grind (int_laws, tanks, cisterns)
