-- ===== src/Custody/Accept/Delivered.antt =====
-- What a reception that commits does to the tank of the station, to the delivery with its settlement
-- and to the record of custody.
use fuel_chain.Base.{
  ℕ, ◌≡◌, refl, sym, ap, ◌∙◌, Option, some, ◌==◌, ==_iff, find_first, find-update_where, map_row,
  ok, arith, if◌then◌else◌, >>=-eq-ok, or_throw,
}
use fuel_chain.Base.Int.{ℤ, pos, ◌+ℤ◌, ◌≤ℤ◌, ◌<ℤ◌}
use fuel_chain.Base.Number.{finite}
use fuel_chain.Movement.{CustodyEventType}
use fuel_chain.Schema.{row_not_found}
use fuel_chain.Tank.{Stock, apply_stock_delta}
use fuel_chain.Tank.Levels.{apply_stock_delta-ok}
use fuel_chain.Store.{Db, Delivery, StorageTank, append, update_tank, station_by_id, delivery_key}
use fuel_chain.Custody.Accept.Handover.{Ready, handover_event, add_event, fresh_delivery}
use fuel_chain.Custody.Accept.Stocking.{
  is_at, stock_found, stock_at, stock_tank, stock_station, cistern_key,
}
use fuel_chain.Custody.Accept.Commit.{commit, commit-Committed}
use fuel_chain.Custody.Accept.Frames.{commit-Untouched, record_arrival-frame}

-- A reception that commits adds two events to the record of custody and removes none: RECEIVED, with
-- the volume of the baton as declared and the received volume as measured, and DELIVERED.
pub commit-events :
    (p : Ready) (db db' : Db)
    → commit p db ≡ ok db'
    → (d : Option ℕ) × (db'.events
        ≡ append
            (handover_event CustodyEventType.delivered d p)
            (append (handover_event CustodyEventType.received p.baton.delivery_id p) db.events))
unfolding add_event
commit-events p db db' h =
    let t = commit-Committed p db db' h in
    let u = commit-Untouched p t in
    let between = u.events_between in
    let before = u.events_before in
    let ends = t.ends in (delivery_key (fresh_delivery p t.credited), ground arith)

pub stock_tank-row :
    (p : Ready) (d : Option Delivery) (k : ℕ) (db db' : Db) (tank : StorageTank)
    → stock_tank p d k db ≡ ok db'
    → find_first (is_at k) db.tanks ≡ some tank
    → (stock : Stock) × (apply_stock_delta tank.current_stock (finite p.received) tank.capacity
        ≡ ok stock)
      × (db'.tanks
          ≡ update_tank tank.id
              (λ (r : StorageTank). record r { current_stock = stock.next_stock })
              db.tanks)
unfolding stock_tank stock_found
stock_tank-row p d k db db' tank h found =
    let booked_on = ap (λ (o : Option StorageTank). stock_found p d k o db) (sym found) ∙ h in
    let (stock, applied, rest) =
      >>=-eq-ok (apply_stock_delta tank.current_stock (finite p.received) tank.capacity) _
        booked_on in
    let (station, known, ended) = >>=-eq-ok (or_throw (station_by_id k db) row_not_found) _ rest in
    (stock, applied, ground arith)

pub station-row :
    (p : Ready) (d : Option Delivery) (k : ℕ) (db db' : Db)
    → p.station_id ≡ some k
    → stock_station p d db ≡ ok db'
    → (m : Db) × (stock_tank p d k db ≡ ok m) × (db'.tanks ≡ m.tanks)
unfolding stock_station
station-row p d k db db' station h =
    let at_k = ap (λ (o : Option ℕ). stock_at p d o db) (sym station) ∙ h in
    let (m, stocked, ended) = >>=-eq-ok (stock_tank p d k db) _ at_k in
    (m, stocked, ground (arith, record_arrival-frame p d (cistern_key p d) (station_by_id k db) m))

-- Where the station has a tank, a reception that commits was of more than 0 litres and fits the tank,
-- and the tank holds what it held and what was received.
pub commit-stock :
    (p : Ready) (db db' : Db) (k : ℕ) (tank : StorageTank)
    → commit p db ≡ ok db'
    → p.station_id ≡ some k
    → find_first (is_at k) db.tanks ≡ some tank
    → (pos 0 <ℤ p.received)
      × (tank.current_stock +ℤ p.received ≤ℤ tank.capacity)
      × (find_first (is_at k) db'.tanks
          ≡ some (record tank { current_stock = tank.current_stock +ℤ p.received }))
commit-stock p db db' k tank h station found =
    let t = commit-Committed p db db' h in
    let u = commit-Untouched p t in
    let (m, stocked, same) =
      station-row p (fresh_delivery p t.credited) k t.emptied t.stocked station t.stocks in
    let (stock, applied, rows) =
      stock_tank-row p (fresh_delivery p t.credited) k t.emptied m tank stocked
        (ap (find_first (is_at k)) u.tanks_before ∙ found) in
    let (r, same_r, above, same_p, sum_p, fits) =
      apply_stock_delta-ok tank.current_stock (finite p.received) tank.capacity stock applied in
    let update = λ (x : StorageTank). record x { current_stock = stock.next_stock } in
    let recv : r ≡ p.received = cc in
    let next : stock.next_stock ≡ tank.current_stock +ℤ p.received =
      sum_p ∙ ap (λ (v : ℤ). tank.current_stock +ℤ v) recv in
    let is_tank = λ (x : StorageTank). x.id == tank.id in
    (
      ground arith,
      ground arith,
      ap (find_first (is_at k))
            (u.tanks_after ∙ same ∙ rows ∙ ap (update_tank tank.id update) u.tanks_before)
          ∙ find-update_where (is_at k) is_tank update (λ x e. refl) db.tanks
          ∙ ap (map_row (λ (x : StorageTank). if is_tank x then update x else x)) found
          ∙ rw ((==_iff tank.id tank.id).1 refl)
              (ap (λ (v : ℤ). some (record tank { current_stock = v })) next),
    )
