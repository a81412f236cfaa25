-- ===== src/Custody/Issue/Effects.antt =====
-- What a dispatch that commits leaves in the tables of the tanks, the cisterns and the batches.
use fuel_chain.Base.{
  ℕ, ◌≡◌, ◌⊎◌, inl, inr, refl, sym, ap, ◌∙◌, Bool, true, false, ◌==◌, some, Result, ok, err, arith,
  find_first, find_first-holds, find-update_where, map_row, if◌then◌else◌, >>=-eq-ok, or_throw,
  get_or,
}
use fuel_chain.Base.Int.{ℤ, pos, ◌+ℤ◌, ◌-ℤ◌, ◌≤ℤ◌, ◌<ℤ◌, -ℤ_parts}
use fuel_chain.Base.Number.{finite}
use fuel_chain.Schema
use fuel_chain.Schema.{Exception, no_depot_tank, transition_refused}
use fuel_chain.BatchStatus
use fuel_chain.BatchStatus.{
  BatchStatus, can_issue_qr, can_receive_batch, can_transition, authorized, in_transit,
}
use fuel_chain.Accounting.{next_cistern_load}
use fuel_chain.Tank.{Stock, apply_stock_withdraw}
use fuel_chain.Tank.Levels.{apply_stock_withdraw-ok}
use fuel_chain.Store.{
  Db, Batch, Cistern, StorageTank, batch_by_id, update_batch, update_tank, update_cistern,
}
use fuel_chain.Custody.Issue.Dispatch.{
  Order, open_delivery, load_cistern, draw_depot, record_dispatch, start_transit, dispatch,
  depot_tank,
}
use fuel_chain.Custody.Issue.Frames.{
  open_delivery-frame, load_cistern-frame, draw_depot-frame, create_baton_row-frame,
  record_dispatch-frame, start_transit-frame, dispatch-Dispatched,
}

-- The cistern of an order, once it carries `next`.
abbrev pub loaded_with : Order → ℤ → Cistern → Cistern
loaded_with o next c = record c {
  current_load = next;
  status = Schema.CisternStatus.in_transit;
  current_batch_id = some o.plan.batch.id;
  driver_id = some (get_or o.plan.cistern.driver_id o.actor.id);
}

draw_depot-row :
    (o : Order) (db db' : Db)
    → draw_depot o db ≡ ok db'
    → (t : StorageTank) × (stock : Stock) × (depot_tank db.tanks ≡ some t)
      × (apply_stock_withdraw t.current_stock (finite o.input.volume_liters) t.capacity ≡ ok stock)
      × (db'.tanks
          ≡ update_tank t.id
              (λ (r : StorageTank). record r { current_stock = stock.next_stock })
              db.tanks)
unfolding draw_depot
draw_depot-row o db db' h =
    let (t, found, rest) = >>=-eq-ok (or_throw (depot_tank db.tanks) no_depot_tank) _ h in
    let (stock, drawn, ends) =
      >>=-eq-ok (apply_stock_withdraw t.current_stock (finite o.input.volume_liters) t.capacity) _
        rest in
    (t, stock, ground (arith, found), drawn, ground arith)

pub load_cistern-row :
    (o : Order) (db db' : Db)
    → load_cistern o db ≡ ok db'
    → (next : ℤ) × (next_cistern_load o.plan.cistern.current_load o.input.volume_liters ≡ ok next)
      × (db'.cisterns ≡ update_cistern o.plan.cistern.id (loaded_with o next) db.cisterns)
unfolding load_cistern
load_cistern-row o db db' h =
    let (next, added, ends) =
      >>=-eq-ok (next_cistern_load o.plan.cistern.current_load o.input.volume_liters) _ h in
    (next, added, ground arith)

pub next_load :
    (current load next : ℤ)
    → next_cistern_load current load ≡ ok next
    → (next ≡ current +ℤ load) × (pos 0 ≤ℤ next)
unfolding next_cistern_load
next_load current load next h = ground arith

-- A dispatch that commits was of more than 0 litres that the depot's tank held, and takes them from
-- that tank and from no other.
pub dispatch-depot :
    (o : Order) (db db' : Db)
    → dispatch o db ≡ ok db'
    → (t : StorageTank) × (depot_tank db.tanks ≡ some t)
      × (pos 0 <ℤ o.input.volume_liters)
      × (o.input.volume_liters ≤ℤ t.current_stock)
      × (db'.tanks
          ≡ update_tank t.id
              (λ (r : StorageTank). record r {
                current_stock = t.current_stock -ℤ o.input.volume_liters;
              })
              db.tanks)
dispatch-depot o db db' h =
    let d = dispatch-Dispatched o db db' h in
    let tanks = λ (s : Db). s.tanks in
    let before : d.loaded.tanks ≡ db.tanks =
      ap tanks (load_cistern-frame o (open_delivery o db) d.loaded d.loads)
      ∙ ap tanks (open_delivery-frame o db) in
    let after : db'.tanks ≡ d.drawn.tanks =
      ap tanks (start_transit-frame o (record_dispatch o db.next_id d.issued) db' d.starts)
      ∙ ap tanks (record_dispatch-frame o db.next_id d.issued)
      ∙ ap tanks (create_baton_row-frame o db.next_id d.drawn d.issued d.issues) in
    let (t, stock, found, drawn, rows) = draw_depot-row o d.loaded d.drawn d.draws in
    let (w, same_w, above, same_p, left, nonneg) =
      apply_stock_withdraw-ok t.current_stock (finite o.input.volume_liters) t.capacity stock
        drawn in
    let taken : w ≡ o.input.volume_liters = cc in
    let next : stock.next_stock ≡ t.current_stock -ℤ o.input.volume_liters =
      left ∙ ap (λ (v : ℤ). t.current_stock -ℤ v) taken in
    (
      t,
      ap depot_tank (sym before) ∙ found,
      ground arith,
      ground (arith, -ℤ_parts t.current_stock o.input.volume_liters),
      after
          ∙ rows
          ∙ ap
              (λ (v : ℤ).
                update_tank t.id (λ (r : StorageTank). record r { current_stock = v })
                  d.loaded.tanks)
              next
          ∙ ap
              (update_tank t.id (λ (r : StorageTank). record r {
                current_stock = t.current_stock -ℤ o.input.volume_liters;
              }))
              before,
    )

issuable_receivable :
    (s : BatchStatus)
    → can_issue_qr s ≡ true
    → BatchStatus.same s authorized ≡ false
    → can_receive_batch s ≡ true
unfolding can_issue_qr can_receive_batch
issuable_receivable s issuable other = ground (arith, issuable, other)

started_row :
    (k : ℕ) (db : Db) (b : Batch)
    → batch_by_id k db ≡ some b
    → find_first
        (λ (r : Batch). r.id == k)
        (update_batch k (λ (r : Batch). record r { status = in_transit }) db.batches)
      ≡ some (record b { status = in_transit })
started_row k db b found =
    let is_k = λ (r : Batch). r.id == k in
    let start = λ (r : Batch). record r { status = in_transit } in
    find-update_where is_k is_k start (λ x e. refl) db.batches
    ∙ ap (map_row (λ (x : Batch). if is_k x then start x else x)) found
    ∙ rw (find_first-holds is_k db.batches b found) refl

-- The start of the transit, by whether the batch that was read was AUTHORIZED.
start_from : Order → Bool → Db → Result Exception Db
start_from o true db =
    if can_transition o.plan.batch.status in_transit
    then ok (record db {
      batches =
          update_batch o.plan.batch.id (λ (b : Batch). record b { status = in_transit }) db.batches;
    })
    else err transition_refused
start_from o false db = ok db

start_lem :
    (o : Order) (db : Db)
    → start_from o (BatchStatus.same o.plan.batch.status authorized) db ≡ start_transit o db
unfolding start_from start_transit
start_lem o db = by_test (BatchStatus.same o.plan.batch.status authorized)
  where
    by_test :
        (b : Bool)
        → start_from o b db ≡ (
            if b
            then (if can_transition o.plan.batch.status in_transit
                then ok (record db {
                  batches =
                      update_batch o.plan.batch.id
                        (λ (r : Batch). record r { status = in_transit })
                        db.batches;
                })
                else err transition_refused)
            else ok db)
    by_test true = refl
    by_test false = refl

start_from-receivable :
    (o : Order) (fresh : Bool) (db db' : Db)
    → BatchStatus.same o.plan.batch.status authorized ≡ fresh
    → can_issue_qr o.plan.batch.status ≡ true
    → batch_by_id o.plan.batch.id db ≡ some o.plan.batch
    → start_from o fresh db ≡ ok db'
    → (b : Batch) × (batch_by_id o.plan.batch.id db' ≡ some b) × (can_receive_batch b.status ≡ true)
unfolding start_from
start_from-receivable o false db db' kind issuable found h =
    (o.plan.batch, ground (arith, h, found), issuable_receivable o.plan.batch.status issuable kind)
start_from-receivable o true db db' kind issuable found h = (
  record o.plan.batch { status = in_transit },
  ground (arith, h, started_row o.plan.batch.id db o.plan.batch found),
  unfold can_receive_batch in refl,
)

start_from-batches :
    (o : Order) (fresh : Bool) (m db db' : Db)
    → BatchStatus.same o.plan.batch.status authorized ≡ fresh
    → m.batches ≡ db.batches
    → start_from o fresh m ≡ ok db'
    → (db'.batches ≡ db.batches)
      ⊎ ((o.plan.batch.status ≡ authorized)
          × (db'.batches
              ≡ update_batch o.plan.batch.id
                  (λ (b : Batch). record b { status = in_transit })
                  db.batches))
unfolding start_from
start_from-batches o false m db db' kind before h = inl (ground arith)
start_from-batches o true m db db' kind before h = inr (ground arith, ground arith)

-- A batch for which a QR may be issued is one that a station may receive of, once a dispatch for it
-- committed, where the row of the batch is as it was read.
pub dispatch-receivable :
    (o : Order) (db db' : Db)
    → can_issue_qr o.plan.batch.status ≡ true
    → batch_by_id o.plan.batch.id db ≡ some o.plan.batch
    → dispatch o db ≡ ok db'
    → (b : Batch) × (batch_by_id o.plan.batch.id db' ≡ some b) × (can_receive_batch b.status ≡ true)
dispatch-receivable o db db' issuable found h =
    let d = dispatch-Dispatched o db db' h in
    let m = record_dispatch o db.next_id d.issued in
    let rows = λ (s : Db). s.batches in
    let is_k = λ (r : Batch). r.id == o.plan.batch.id in
    let before : m.batches ≡ db.batches =
      ap rows (record_dispatch-frame o db.next_id d.issued)
      ∙ ap rows (create_baton_row-frame o db.next_id d.drawn d.issued d.issues)
      ∙ ap rows (draw_depot-frame o d.loaded d.drawn d.draws)
      ∙ ap rows (load_cistern-frame o (open_delivery o db) d.loaded d.loads)
      ∙ ap rows (open_delivery-frame o db) in
    start_from-receivable o (BatchStatus.same o.plan.batch.status authorized) m db' refl issuable
      (ap (find_first is_k) before ∙ found) (start_lem o m ∙ d.starts)

-- What a dispatch that commits writes to the batches: the status of an AUTHORIZED one.
pub dispatch-batches :
    (o : Order) (db db' : Db)
    → dispatch o db ≡ ok db'
    → (db'.batches ≡ db.batches)
      ⊎ ((o.plan.batch.status ≡ authorized)
          × (db'.batches
              ≡ update_batch o.plan.batch.id
                  (λ (b : Batch). record b { status = in_transit })
                  db.batches))
dispatch-batches o db db' h =
    let d = dispatch-Dispatched o db db' h in
    let m = record_dispatch o db.next_id d.issued in
    let rows = λ (s : Db). s.batches in
    let before : m.batches ≡ db.batches =
      ap rows (record_dispatch-frame o db.next_id d.issued)
      ∙ ap rows (create_baton_row-frame o db.next_id d.drawn d.issued d.issues)
      ∙ ap rows (draw_depot-frame o d.loaded d.drawn d.draws)
      ∙ ap rows (load_cistern-frame o (open_delivery o db) d.loaded d.loads)
      ∙ ap rows (open_delivery-frame o db) in
    start_from-batches o (BatchStatus.same o.plan.batch.status authorized) m db db' refl before
      (start_lem o m ∙ d.starts)
