-- ===== src/Payments.antt =====
-- The settlements of the drivers: `ensureForDelivery` and `markPaid` of
-- apps/api/src/settlements/settlements.service.ts. The note of a settlement is left out.
use fuel_chain.Base.{
  ℕ, suc, ◌≤◌, ◌≡◌, refl, sym, ap, subst, ◌∙◌, ◌⊎◌, Bool, true, false, not, ◌&&◌, Option, none,
  some, ◌==◌, get_or, if◌then◌else◌, find_first, update_where, map_row, count_where,
  count-append_row, count-find_none, find-update_where, find_first-holds, Result, ok, err,
  refuse_if, or_throw, ◌>>=◌, ◌>>◌, arith,
}
use fuel_chain.Schema
use fuel_chain.Schema.{
  admin, station_staff, same_role, DeliveryStatus, SettlementStatus, paid, Exception, not_delivered,
  no_settlement_access, settlement_not_found, settlement_of_other_station, row_not_found,
}
use fuel_chain.Settlement.{Settlement, settlement_create_data}
use fuel_chain.Store.{Db, Actor, delivery_by_id, cistern_by_id, append}
use fuel_chain.Custody.Accept.Handover.{is_for_delivery}

abbrev is_delivered : DeliveryStatus → Bool
is_delivered Schema.delivered = true
is_delivered _ = false

abbrev pub settlement_of : ℕ → Db → Option Settlement
settlement_of k db = find_first (is_for_delivery k) db.settlements

-- What `create` is given, from the rows as they are read; `id` is the key that the row gets.
unfoldable pub settlement_data : ℕ → ℕ → Db → Result Exception Settlement
settlement_data id k db = do
  d ← or_throw (delivery_by_id k db) not_delivered
  refuse_if (not (is_delivered d.status)) not_delivered
  c ← or_throw (cistern_by_id d.cistern_id db) row_not_found
  ok (
      settlement_create_data id k c.driver_id d.cistern_id d.destination_station_id d.batch_id
        (get_or d.received_liters d.loaded_liters))

-- `create`; where another request was first, the unique index refuses the row, and its row is read.
abbrev pub insert_settlement :
    Option Settlement → Settlement → Db → Result Exception Settlement × Db
insert_settlement (some s) row db = (ok s, db)
insert_settlement none row db =
    (ok row, record db { settlements = append row db.settlements; next_id = suc db.next_id })

abbrev pub create_settlement :
    ℕ → Result Exception Settlement → Db → Result Exception Settlement × Db
create_settlement k (err e) db = (err e, db)
create_settlement k (ok row) db = insert_settlement (settlement_of k db) row db

abbrev pub ensure_from : ℕ → Option Settlement → Db → Db → Result Exception Settlement × Db
ensure_from k (some s) seen db = (ok s, db)
ensure_from k none seen db = create_settlement k (settlement_data db.next_id k seen) db

-- The reads see the database `seen`, the write finds it as `db`: requests may come in between.
unfoldable pub ensure_for_delivery : ℕ → Db → Db → Result Exception Settlement × Db
ensure_for_delivery k seen db = ensure_from k (settlement_of k seen) seen db

abbrev pub is_settlement : ℕ → Settlement → Bool
is_settlement k s = s.id == k

abbrev pub is_paid : SettlementStatus → Bool
is_paid paid = true
is_paid _ = false

abbrev pub of_other_station : Actor → Settlement → Bool
of_other_station actor s =
    same_role actor.role station_staff
    && elim actor.station_id [ none ↦ false | some k ↦ not (s.station_id == k) ]

abbrev pub paid_row : Actor → ℕ → Settlement → Settlement
paid_row actor now s = record s { status = paid; paid_at = some now; paid_by_id = some actor.id }

-- The row that was read is returned, with what the update changes.
abbrev pub pay_row : Actor → ℕ → Settlement → Db → Result Exception Settlement × Db
pay_row actor now s db = if is_paid s.status then (ok s, db) else (
  ok (paid_row actor now s),
  record db { settlements = update_where (is_settlement s.id) (paid_row actor now) db.settlements },
)

abbrev pub pay_found : Actor → ℕ → Option Settlement → Db → Result Exception Settlement × Db
pay_found actor now none db = (err settlement_not_found, db)
pay_found actor now (some s) db =
    if of_other_station actor s
    then (err settlement_of_other_station, db)
    else pay_row actor now s db

unfoldable pub mark_paid : ℕ → Actor → ℕ → Db → Result Exception Settlement × Db
mark_paid k actor now db =
    if not (same_role actor.role station_staff) && not (same_role actor.role admin)
    then (err no_settlement_access, db)
    else pay_found actor now (find_first (is_settlement k) db.settlements) db

insert-count :
    (k : ℕ) (o : Option Settlement) (row : Settlement) (db : Db)
    → settlement_of k db ≡ o
    → count_where (is_for_delivery k) db.settlements ≤ 1
    → count_where (is_for_delivery k) (insert_settlement o row db).1.settlements ≤ 1
insert-count k (some s) row db h one = one
insert-count k none row db h one = ground (
  arith,
  count-find_none (is_for_delivery k) db.settlements h,
  count-append_row (is_for_delivery k) db.settlements row,
)

create-count :
    (k : ℕ) (r : Result Exception Settlement) (db : Db)
    → count_where (is_for_delivery k) db.settlements ≤ 1
    → count_where (is_for_delivery k) (create_settlement k r db).1.settlements ≤ 1
create-count k (err e) db one = one
create-count k (ok row) db one = insert-count k (settlement_of k db) row db refl one

ensure-count :
    (k : ℕ) (o : Option Settlement) (seen db : Db)
    → count_where (is_for_delivery k) db.settlements ≤ 1
    → count_where (is_for_delivery k) (ensure_from k o seen db).1.settlements ≤ 1
ensure-count k (some s) seen db one = one
ensure-count k none seen db one = create-count k (settlement_data db.next_id k seen) db one

-- A delivery that has one settlement at most still has, whatever the request read and however old
-- that was: two requests at once do not owe a driver twice.
pub ensure_for_delivery-count :
    (k : ℕ) (seen db : Db)
    → count_where (is_for_delivery k) db.settlements ≤ 1
    → count_where (is_for_delivery k) (ensure_for_delivery k seen db).1.settlements ≤ 1
unfolding ensure_for_delivery
ensure_for_delivery-count k seen db one = ensure-count k (settlement_of k seen) seen db one

-- Who is a member of the staff of a station pays the settlements of that station alone, and only
-- its staff and administrators pay at all.
pub mark_paid-own :
    (k : ℕ) (actor : Actor) (now : ℕ) (db : Db) (s : Settlement)
    → (mark_paid k actor now db).0 ≡ ok s
    → (actor.role ≡ admin)
      ⊎ ((actor.role ≡ station_staff)
          × ((actor.station_id ≡ none) ⊎ (actor.station_id ≡ some s.station_id)))
unfolding mark_paid
mark_paid-own k actor now db s h = by_row (find_first (is_settlement k) db.settlements) h
  where
    by_row :
        (o : Option Settlement)
        → (if not (same_role actor.role station_staff) && not (same_role actor.role admin)
            then (err no_settlement_access, db)
            else pay_found actor now o db).0
          ≡ ok s
        → (actor.role ≡ admin)
          ⊎ ((actor.role ≡ station_staff)
              × ((actor.station_id ≡ none) ⊎ (actor.station_id ≡ some s.station_id)))
    by_row none e = ground arith
    by_row (some r) e = ground arith

-- A row that may be paid is paid after its payment, in the row that is returned too.
abbrev PaidOnce : ℕ → Actor → Result Exception Settlement × Db → Settlement → Type 0
PaidOnce k actor (r, db') s =
    (r ≡ ok s)
    × (find_first (is_settlement k) db'.settlements ≡ some s)
    × (is_paid s.status ≡ true)
    × (of_other_station actor s ≡ false)

pay_row-PaidOnce :
    (k : ℕ) (actor : Actor) (now : ℕ) (db : Db) (r s : Settlement)
    → find_first (is_settlement k) db.settlements ≡ some r
    → of_other_station actor r ≡ false
    → (pay_row actor now r db).0 ≡ ok s
    → PaidOnce k actor (pay_row actor now r db) s
pay_row-PaidOnce k actor now db r s found own h =
    let key = find_first-holds (is_settlement k) db.settlements r found in
    let f = paid_row actor now in
    let after =
      find-update_where (is_settlement k) (is_settlement r.id) f (λ x e. refl) db.settlements
      ∙ ap (map_row (λ (x : Settlement). if is_settlement r.id x then f x else x)) found in
    ground (arith, h, found, own, key, after)

pay_found-PaidOnce :
    (k : ℕ) (actor : Actor) (now : ℕ) (db : Db) (o : Option Settlement) (s : Settlement)
    → find_first (is_settlement k) db.settlements ≡ o
    → (pay_found actor now o db).0 ≡ ok s
    → PaidOnce k actor (pay_found actor now o db) s
pay_found-PaidOnce k actor now db none s found h = cc
pay_found-PaidOnce k actor now db (some r) s found h =
    ground (arith, h, pay_row-PaidOnce k actor now db r s found)

-- An actor who paid once is one whose role may pay.
mark_paid-found :
    (k : ℕ) (actor : Actor) (now now' : ℕ) (db db' : Db) (s : Settlement)
    → (mark_paid k actor now db).0 ≡ ok s
    → mark_paid k actor now' db'
      ≡ pay_found actor now' (find_first (is_settlement k) db'.settlements) db'
unfolding mark_paid
mark_paid-found k actor now now' db db' s h = ground (arith, h)

pay_found-again :
    (actor : Actor) (now : ℕ) (o : Option Settlement) (s : Settlement) (db : Db)
    → o ≡ some s
    → is_paid s.status ≡ true
    → of_other_station actor s ≡ false
    → pay_found actor now o db ≡ (ok s, db)
pay_found-again actor now o s db found is own = rw (found, own, is) refl

-- The second of two payments of a settlement by the same user, at any later time, is
-- answered with the row of the first and changes nothing: who paid it and when stays.
pub mark_paid-again :
    (k : ℕ) (actor : Actor) (now now' : ℕ) (db : Db) (s : Settlement)
    → (mark_paid k actor now db).0 ≡ ok s
    → mark_paid k actor now' (mark_paid k actor now db).1 ≡ (ok s, (mark_paid k actor now db).1)
mark_paid-again k actor now now' db s h =
    let first = find_first (is_settlement k) db.settlements in
    let step = mark_paid-found k actor now now db db s h in
    let db' = (mark_paid k actor now db).1 in
    let once =
      subst (λ out. PaidOnce k actor out s) (sym step)
        (pay_found-PaidOnce k actor now db first s refl
          (sym (ap (λ (out : Result Exception Settlement × Db). out.0) step) ∙ h)) in
    mark_paid-found k actor now now' db db' s h
    ∙ pay_found-again actor now' (find_first (is_settlement k) db'.settlements) s db' once.1 once.2
        once.3
