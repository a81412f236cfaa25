-- ===== src/Custody/Accept/Commit.antt =====
-- The transaction of `accept` in custody-qr.service.ts, from its steps, and what a transaction that
-- commits went through.
use fuel_chain.Base.{◌≡◌, Option, none, some, Result, ok, ◌>>=◌, ◌>>◌, >>=-eq-ok, arith}
use fuel_chain.Schema.{Exception}
use fuel_chain.Movement.{CustodyEventType}
use fuel_chain.Store.{Db, Delivery, Cistern, cistern_by_id, delivery_key}
use fuel_chain.Custody.Accept.Handover.{
  Ready, consume, handover_event, add_event, credit_batch, fresh_delivery, require_quality,
  close_delivery,
}
use fuel_chain.Custody.Accept.Stocking.{cistern_key, unload_cistern, stock_station}

abbrev pub cistern_row : Ready → Option Delivery → Db → Option Cistern
cistern_row p d db = elim (cistern_key p d) [ none ↦ none | some k ↦ cistern_by_id k db ]

-- The whole transaction, on the database as it is when it runs.
unfoldable pub commit : Ready → Db → Result Exception Db
commit p db = do
  consumed ← consume p db
  let recorded = add_event (handover_event CustodyEventType.received p.baton.delivery_id p) consumed
  credited ← credit_batch p recorded
  let d = fresh_delivery p credited
  require_quality p
  let closed = close_delivery p d credited
  emptied ← unload_cistern p (cistern_row p d closed) closed
  stocked ← stock_station p d emptied
  ok (add_event (handover_event CustodyEventType.delivered (delivery_key d) p) stocked)

-- What happened in a transaction that committed: the states between its steps.
pub record Committed (p : Ready) (db db' : Db) : Type 0 where
  pub consumed : Db
  pub credited : Db
  pub emptied : Db
  pub stocked : Db
  pub consumes : consume p db ≡ ok consumed
  pub credits :
      credit_batch p
        (add_event (handover_event CustodyEventType.received p.baton.delivery_id p) consumed)
      ≡ ok credited
  pub quality : require_quality p ≡ ok tt
  pub empties :
      let d = fresh_delivery p credited in
      let closed = close_delivery p d credited in
      unload_cistern p (cistern_row p d closed) closed ≡ ok emptied
  pub stocks : stock_station p (fresh_delivery p credited) emptied ≡ ok stocked
  pub ends :
      db'
      ≡ add_event
          (handover_event CustodyEventType.delivered (delivery_key (fresh_delivery p credited)) p)
          stocked

pub commit-Committed : (p : Ready) (db db' : Db) → commit p db ≡ ok db' → Committed p db db'
unfolding commit
commit-Committed p db db' h =
    let (a, ea, ka) = >>=-eq-ok (consume p db) _ h in
    let (b, eb, kb) = >>=-eq-ok (credit_batch p (add_event _ a)) _ ka in
    let (q, eq, kq) = >>=-eq-ok (require_quality p) _ kb in
    let (c, ec, kc) = >>=-eq-ok (unload_cistern p _ _) _ kq in
    let (d, ed, kd) = >>=-eq-ok (stock_station p _ c) _ kc in
    record {
      consumed = a;
      credited = b;
      emptied = c;
      stocked = d;
      consumes = ea;
      credits = eb;
      quality = eq;
      empties = ec;
      stocks = ed;
      ends = ground arith;
    }
