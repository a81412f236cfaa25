-- ===== src/Custody/Accept/Effects.antt =====
-- What a reception that commits does to the batch, to the tank of the station and to the delivery.
use fuel_chain.Base.{
  ℕ, ◌≡◌, ◌≢◌, refl, ap, ◌∙◌, true, Option, none, some, List, ◌==◌, ==_iff, find_first,
  find_first-holds, find-update_where, map_row, ok, arith, Option-cases, inl, inr, if◌then◌else◌,
}
use fuel_chain.Base.Int.{ℤ, ◌+ℤ◌}
use fuel_chain.BatchStatus.{BatchStatus, can_transition, can_receive_batch}
use fuel_chain.BatchStatus.Machine.{receivable-distributing}
use fuel_chain.Movement.{CustodyEventType}
use fuel_chain.Store.{Db, Batch, batch_by_id, update_batch}
use fuel_chain.Custody.Accept.Handover.{Ready, handover_event, add_event, credit_batch, next_status}
use fuel_chain.Custody.Accept.Commit.{commit, commit-Committed}
use fuel_chain.Custody.Accept.Frames.{commit-Untouched}

transition_refl : (s : BatchStatus) → can_transition s s ≡ true
unfolding can_transition
transition_refl s = ground arith

-- The status that a reception gives a batch is one that the batch may go to.
pub next_status-permitted :
    (b : Batch) (next : ℤ)
    → can_receive_batch b.status ≡ true
    → can_transition b.status (next_status b next) ≡ true
unfolding next_status
next_status-permitted b next h =
    ground (arith, receivable-distributing b.status h, transition_refl b.status)

-- The update of a batch row `r` by a reception that found the row `b`.
abbrev pub credit_row : Batch → ℤ → Batch → Batch
credit_row b volume r = record r {
  delivered_liters = b.delivered_liters +ℤ volume;
  status = next_status b (b.delivered_liters +ℤ volume);
}

-- A batch with the litres of a reception credited.
abbrev pub credited : Batch → ℤ → Batch
credited b volume = record b {
  delivered_liters = b.delivered_liters +ℤ volume;
  status = next_status b (b.delivered_liters +ℤ volume);
}

batch-update :
    (j k : ℕ) (f : Batch → Batch) (rows : List Batch)
    → ((r : Batch) → (f r).id ≡ r.id)
    → find_first (λ (b : Batch). b.id == j) (update_batch k f rows)
      ≡ map_row
          (λ (b : Batch). if b.id == k then f b else b)
          (find_first (λ (b : Batch). b.id == j) rows)
batch-update j k f rows keep =
    find-update_where (λ (b : Batch). b.id == j) (λ (b : Batch). b.id == k) f
      (λ r e. ap (λ (i : ℕ). i == j) (keep r)) rows

credit_batch-row :
    (p : Ready) (db db' : Db)
    → credit_batch p db ≡ ok db'
    → (b : Batch) × (batch_by_id p.baton.batch_id db ≡ some b)
      × (can_receive_batch b.status ≡ true)
      × (db'.batches
          ≡ update_batch b.id
              (λ (r : Batch). record r {
                delivered_liters = b.delivered_liters +ℤ p.received;
                status = next_status b (b.delivered_liters +ℤ p.received);
              })
              db.batches)
unfolding credit_batch
credit_batch-row p db db' h = elim (Option-cases (batch_by_id p.baton.batch_id db)) [
  | inl e ↦ absurd (ground arith)
  | inr (b, e) ↦ (b, e, ground arith, ground arith)
]

-- What a reception that commits writes to the batches.
pub commit-batches :
    (p : Ready) (db db' : Db)
    → commit p db ≡ ok db'
    → (b : Batch) × (batch_by_id p.baton.batch_id db ≡ some b)
      × (can_receive_batch b.status ≡ true)
      × (db'.batches
          ≡ update_batch b.id
              (λ (r : Batch). record r {
                delivered_liters = b.delivered_liters +ℤ p.received;
                status = next_status b (b.delivered_liters +ℤ p.received);
              })
              db.batches)
unfolding add_event
commit-batches p db db' h =
    let t = commit-Committed p db db' h in
    let recorded =
      add_event (handover_event CustodyEventType.received p.baton.delivery_id p) t.consumed in
    let (b, found, receivable, rows) = credit_batch-row p recorded t.credited t.credits in
    let u = commit-Untouched p t in
    let update = λ (r : Batch). record r {
      delivered_liters = b.delivered_liters +ℤ p.received;
      status = next_status b (b.delivered_liters +ℤ p.received);
    } in
    (
      b,
      rw (u.before) at found,
      receivable,
      u.batches ∙ rows ∙ ap (update_batch b.id update) u.before,
    )

batches_after :
    (p : Ready) (db db' : Db) (h : commit p db ≡ ok db') (j : ℕ)
    → (b : Batch) × (batch_by_id p.baton.batch_id db ≡ some b)
      × (can_receive_batch b.status ≡ true)
      × (batch_by_id j db'
          ≡ map_row
              (λ (r : Batch).
                if r.id == b.id
                then record r {
                  delivered_liters = b.delivered_liters +ℤ p.received;
                  status = next_status b (b.delivered_liters +ℤ p.received);
                }
                else r)
              (batch_by_id j db))
batches_after p db db' h j =
    let (b, found, receivable, rows) = commit-batches p db db' h in
    let update = λ (r : Batch). record r {
      delivered_liters = b.delivered_liters +ℤ p.received;
      status = next_status b (b.delivered_liters +ℤ p.received);
    } in
    (
      b,
      found,
      receivable,
      ap (find_first (λ (r : Batch). r.id == j)) rows
          ∙ batch-update j b.id update db.batches (λ r. refl),
    )

-- A reception that commits found the batch in a status in which deliveries may be received. It adds
-- exactly the received volume to what the batch has delivered, and gives it a status that the batch
-- may go to.
pub commit-credit :
    (p : Ready) (db db' : Db)
    → commit p db ≡ ok db'
    → (b : Batch) × (batch_by_id p.baton.batch_id db ≡ some b)
      × (can_receive_batch b.status ≡ true)
      × (batch_by_id p.baton.batch_id db' ≡ some (credited b p.received))
      × (can_transition b.status (credited b p.received).status ≡ true)
commit-credit p db db' h =
    let (b, found, receivable, after) = batches_after p db db' h p.baton.batch_id in
    (
      b,
      found,
      receivable,
      after ∙ rw (found, (==_iff b.id b.id).1 refl),
      next_status-permitted b (b.delivered_liters +ℤ p.received) receivable,
    )

-- A reception changes no other batch.
pub commit-other_batches :
    (p : Ready) (db db' : Db) (j : ℕ)
    → commit p db ≡ ok db'
    → j ≢ p.baton.batch_id
    → batch_by_id j db' ≡ batch_by_id j db
commit-other_batches p db db' j h other =
    let (b, found, receivable, after) = batches_after p db db' h j in
    let key = find_first-holds (λ (r : Batch). r.id == p.baton.batch_id) db.batches b found in
    after ∙ unchanged b key (batch_by_id j db) refl
  where
    unchanged :
        (b : Batch)
        → (b.id == p.baton.batch_id) ≡ true
        → (o : Option Batch) → batch_by_id j db ≡ o
        → map_row
            (λ (r : Batch).
              if r.id == b.id
              then record r {
                delivered_liters = b.delivered_liters +ℤ p.received;
                status = next_status b (b.delivered_liters +ℤ p.received);
              }
              else r)
            o
          ≡ o
    unchanged b key none e = refl
    unchanged b key (some r) e =
        let key_r = find_first-holds (λ (x : Batch). x.id == j) db.batches r e in
        ground (arith, other)
