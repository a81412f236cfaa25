-- ===== src/Custody/Accept/Settled.antt =====
-- A reception that commits closes the delivery of its baton and leaves it exactly one settlement.
use fuel_chain.Base.Int.{pos}
use fuel_chain.Base.{
  get_or, or_else, ℕ, ◌≤◌, ◌≡◌, refl, sym, ap, subst, ◌∙◌, true, Option, some, List, ◌==◌, ==_iff,
  find_first, count_where, find_first-holds, find-update_where, map_row, ok, arith, Option-cases,
  inl, inr, if◌then◌else◌, count-append_row, count-find_none, count-find_some,
}
use fuel_chain.Settlement.{Settlement, settlement_create_data}
use fuel_chain.Schema.{DeliveryStatus}
use fuel_chain.Store.{Db, Delivery, delivery_by_id, update_delivery}
use fuel_chain.Custody.Accept.Handover.{
  Ready, delivery_keyed, fresh_delivery, close_delivery, is_for_delivery, ensure_settlement,
  received_by,
}
use fuel_chain.Custody.Accept.Commit.{commit, commit-Committed}
use fuel_chain.Custody.Accept.Frames.{commit-Untouched}

-- How many settlements a delivery has.
abbrev pub settled : ℕ → List Settlement → ℕ
settled k rows = count_where (is_for_delivery k) rows

new_is_for :
    (p : Ready) (d : Delivery) (key : ℕ)
    → is_for_delivery d.id (
        settlement_create_data key d.id p.driver_id d.cistern_id d.destination_station_id d.batch_id
          p.received)
      ≡ true
unfolding settlement_create_data
new_is_for p d key = (==_iff d.id d.id).1 refl

ensure_settlement-count :
    (p : Ready) (d : Delivery) (db : Db)
    → settled d.id db.settlements ≤ 1
    → settled d.id (ensure_settlement p d db).settlements ≡ 1
unfolding ensure_settlement
ensure_settlement-count p d db h =
    elim (Option-cases (find_first (is_for_delivery d.id) db.settlements)) [
      | inl e ↦
          let created =
            settlement_create_data db.next_id d.id p.driver_id d.cistern_id d.destination_station_id
              d.batch_id p.received in
          rw
            (
              e,
              count-append_row,
              new_is_for p d db.next_id,
              count-find_none (is_for_delivery d.id) db.settlements e,
            )
            (omega arith)
      | inr (s, e) ↦ rw e (omega (arith, count-find_some (is_for_delivery d.id) db.settlements s e))
    ]

ensure_settlement-deliveries :
    (p : Ready) (d : Delivery) (db : Db) → (ensure_settlement p d db).deliveries ≡ db.deliveries
unfolding ensure_settlement
ensure_settlement-deliveries p d db = ground arith

-- The state after the delivery is closed.
close_delivery_lem :
    (p : Ready) (d : Delivery) (db : Db)
    → settled d.id db.settlements ≤ 1
    → (settled d.id (close_delivery p (some d) db).settlements ≡ 1)
      × ((close_delivery p (some d) db).deliveries
          ≡ update_delivery d.id (received_by p (some d)) db.deliveries)
unfolding close_delivery
close_delivery_lem p d db once =
    let marked = record db {
      deliveries = update_delivery d.id (received_by p (some d)) db.deliveries;
    } in
    (ensure_settlement-count p d marked once, ensure_settlement-deliveries p d marked)

-- A reception of a baton with a delivery that has one settlement at most marks that delivery as
-- delivered, with the received volume, the time, and the density, temperature and water that were measured
-- (or else those of the loading, or else 0.745 and 22 degrees), and leaves it exactly one settlement.
pub commit-settlement :
    (p : Ready) (db db' : Db) (k : ℕ) (d : Delivery)
    → commit p db ≡ ok db'
    → p.baton.delivery_id ≡ some k
    → delivery_by_id k db ≡ some d
    → settled k db.settlements ≤ 1
    → (settled k db'.settlements ≡ 1)
      × (delivery_by_id k db'
          ≡ some (record d {
            status = DeliveryStatus.delivered;
            received_liters = some p.received;
            received_density = some (get_or (or_else p.density d.load_density) (pos 7450));
            received_temperature =
                some (get_or (or_else p.temperature d.load_temperature) (pos 2200));
            received_water = get_or p.water d.load_water;
            delivered_at = some p.now;
          }))
commit-settlement p db db' k d h keyed found once =
    let t = commit-Committed p db db' h in
    let u = commit-Untouched p t in
    let is_k = λ (r : Delivery). r.id == k in
    let is_d = λ (r : Delivery). r.id == d.id in
    let key : d.id ≡ k = (==_iff d.id k).0 (find_first-holds is_k db.deliveries d found) in
    let fresh : fresh_delivery p t.credited ≡ some d =
      ap (λ (o : Option ℕ). delivery_keyed o t.credited) keyed
      ∙ ap (find_first is_k) u.deliveries_before
      ∙ found in
    let closed = λ (o : Option Delivery). close_delivery p o t.credited in
    let (count, rows) = close_delivery_lem p d t.credited (
      subst (λ (s : List Settlement). settled d.id s ≤ 1) (sym u.settlements_before)
        (subst (λ (i : ℕ). settled i db.settlements ≤ 1) (sym key) once)) in
    (
      ap (settled k)
            (u.settlements_after ∙ ap (λ (o : Option Delivery). (closed o).settlements) fresh)
          ∙ subst (λ (i : ℕ). settled i (closed (some d)).settlements ≡ 1) key count,
      ap (find_first is_k) (
            u.deliveries_after
            ∙ ap (λ (o : Option Delivery). (closed o).deliveries) fresh
            ∙ rows
            ∙ ap (update_delivery d.id (received_by p (some d))) u.deliveries_before)
          ∙ find-update_where is_k is_d (received_by p (some d)) (λ r e. refl) db.deliveries
          ∙ ap (map_row (λ (r : Delivery). if is_d r then received_by p (some d) r else r)) found
          ∙ rw ((==_iff d.id d.id).1 refl) refl,
    )
