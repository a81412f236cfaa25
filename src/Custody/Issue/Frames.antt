-- ===== src/Custody/Issue/Frames.antt =====
-- Which tables each step of the transaction of `issue` writes, and what a dispatch that commits went
-- through.
use fuel_chain.Base.{ℕ, suc, ◌≡◌, refl, ap, ◌∙◌, ok, arith, >>=-eq-ok}
use fuel_chain.Store.{Db, append}
use fuel_chain.Custody.Issue.Dispatch.{
  Order, open_delivery, load_cistern, draw_depot, create_baton_row, new_baton, record_dispatch,
  start_transit, dispatch,
}

pub open_delivery-frame :
    (o : Order) (db : Db)
    → (open_delivery o db
        ≡ record db { deliveries = (open_delivery o db).deliveries; next_id = suc db.next_id })
unfolding open_delivery
open_delivery-frame o db = refl

pub load_cistern-frame :
    (o : Order) (db db' : Db)
    → load_cistern o db ≡ ok db'
    → db' ≡ record db { cisterns = db'.cisterns }
unfolding load_cistern
load_cistern-frame o db db' h = ground arith

pub draw_depot-frame :
    (o : Order) (db db' : Db)
    → draw_depot o db ≡ ok db'
    → db' ≡ record db { tanks = db'.tanks; measurements = db'.measurements }
unfolding draw_depot
draw_depot-frame o db db' h = ground arith

pub create_baton_row-frame :
    (o : Order) (delivery : ℕ) (db db' : Db)
    → create_baton_row o delivery db ≡ ok db'
    → db' ≡ record db {
      batons = append (new_baton o db.next_id delivery) db.batons;
      deliveries = db'.deliveries;
      next_id = suc db.next_id;
    }
unfolding create_baton_row
create_baton_row-frame o delivery db db' h = ground arith

pub record_dispatch-frame :
    (o : Order) (delivery : ℕ) (db : Db)
    → let db' = record_dispatch o delivery db in
      db' ≡ record db { events = db'.events; checkpoints = db'.checkpoints }
unfolding record_dispatch
record_dispatch-frame o delivery db = refl

pub start_transit-frame :
    (o : Order) (db db' : Db)
    → start_transit o db ≡ ok db'
    → db' ≡ record db { batches = db'.batches }
unfolding start_transit
start_transit-frame o db db' h = ground arith

-- What happened in a dispatch that committed: the states between its steps.
pub record Dispatched (o : Order) (db db' : Db) : Type 0 where
  pub loaded : Db
  pub drawn : Db
  pub issued : Db
  pub loads : load_cistern o (open_delivery o db) ≡ ok loaded
  pub draws : draw_depot o loaded ≡ ok drawn
  pub issues : create_baton_row o db.next_id drawn ≡ ok issued
  pub starts : start_transit o (record_dispatch o db.next_id issued) ≡ ok db'

pub dispatch-Dispatched : (o : Order) (db db' : Db) → dispatch o db ≡ ok db' → Dispatched o db db'
unfolding dispatch
dispatch-Dispatched o db db' h =
    let (a, ea, ka) = >>=-eq-ok (load_cistern o (open_delivery o db)) _ h in
    let (b, eb, kb) = >>=-eq-ok (draw_depot o a) _ ka in
    let (c, ec, kc) = >>=-eq-ok (create_baton_row o db.next_id b) _ kb in
    record { loaded = a; drawn = b; issued = c; loads = ea; draws = eb; issues = ec; starts = kc }

-- A dispatch that commits adds one baton, under the second of the two keys that it takes.
pub dispatch-batons :
    (o : Order) (db db' : Db)
    → dispatch o db ≡ ok db'
    → (db'.batons ≡ append (new_baton o (suc db.next_id) db.next_id) db.batons)
      × (db'.next_id ≡ suc (suc db.next_id))
dispatch-batons o db db' h =
    let t = dispatch-Dispatched o db db' h in
    let e1 = open_delivery-frame o db in
    let e2 = load_cistern-frame o (open_delivery o db) t.loaded t.loads in
    let e3 = draw_depot-frame o t.loaded t.drawn t.draws in
    let e4 = create_baton_row-frame o db.next_id t.drawn t.issued t.issues in
    let e5 = record_dispatch-frame o db.next_id t.issued in
    let e6 = start_transit-frame o (record_dispatch o db.next_id t.issued) db' t.starts in
    let batons = λ (s : Db). s.batons in
    let keys : t.drawn.next_id ≡ suc db.next_id =
      ap (λ (s : Db). s.next_id) e3
      ∙ ap (λ (s : Db). s.next_id) e2
      ∙ ap (λ (s : Db). s.next_id) e1 in
    (
      ap batons e6
          ∙ ap batons e5
          ∙ ap batons e4
          ∙ ap (λ (n : ℕ). append (new_baton o n db.next_id) t.drawn.batons) keys
          ∙ ap (append (new_baton o (suc db.next_id) db.next_id))
              (ap batons e3 ∙ ap batons e2 ∙ ap batons e1),
      ap (λ (s : Db). s.next_id) e6
          ∙ ap (λ (s : Db). s.next_id) e5
          ∙ ap (λ (s : Db). s.next_id) e4
          ∙ ap suc keys,
    )
