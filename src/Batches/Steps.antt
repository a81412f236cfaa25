-- ===== src/Batches/Steps.antt =====
-- The operations that write batches, seen as transitions of `BatchStatus`.
use fuel_chain.Base.{ℕ, Option, ◌≤◌, ◌≡◌, String, some, ok}
use fuel_chain.Store.{Db, Actor, batch_by_id}
use fuel_chain.Custody.Payload.{Config}
use fuel_chain.Custody.Accept.Handover.{Ready}
use fuel_chain.Custody.Accept.Commit.{commit}
use fuel_chain.Custody.Issue.Dispatch.{Order, dispatch}
use fuel_chain.Journey.Parse.{Platform}
use fuel_chain.Sticker.Receive.{Arrival, deliver}
use fuel_chain.Inspections.{Docket, create_case}
use fuel_chain.Batches.{CreateBatch, UpdateBatch, CreateEvent, create, update, create_event}
use fuel_chain.Batches.Moves.{Moves}

-- The operations that write batches, but for the removal of a batch and the customs event, and any
-- that does not write them. A reception may carry data of any age, a
-- dispatch finds its batch as it was read.
pub data Step (db db' : Db) : Type 0 where
  creates :
      (decimal : ℕ → String) (dto : CreateBatch) (year : ℕ)
      → create decimal dto year db ≡ ok db'
      → Step db db'
  updates :
      (c : Config) (key : String) (dto : UpdateBatch) → update c key dto db ≡ ok db' → Step db db'
  records :
      (c : Config) (key : String) (dto : CreateEvent) (actor : Actor)
      → create_event c key dto actor db ≡ ok db'
      → Step db db'
  receives : (p : Ready) → commit p db ≡ ok db' → Step db db'
  delivers : (w : Platform) (a : Arrival) → deliver w a db ≡ ok db' → Step db db'
  audits :
      (key batch : ℕ) (anomaly : Option ℕ) (docket docket' : Docket)
      → create_case key batch anomaly docket db ≡ ok (docket', db')
      → Step db db'
  dispatches :
      (o : Order)
      → batch_by_id o.plan.batch.id db ≡ some o.plan.batch
      → dispatch o db ≡ ok db'
      → Step db db'
  others : db'.batches ≡ db.batches → db.next_id ≤ db'.next_id → Step db db'
