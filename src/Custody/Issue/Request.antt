-- ===== src/Custody/Issue/Request.antt =====
-- The whole of `issue` in custody-qr.service.ts, where no other request writes between its reads and
-- its transaction, and the litres of a batch that it may commit to the road.
use fuel_chain.Base.{
  ℕ, ◌≡◌, refl, ap, ◌∙◌, Bool, true, false, some, List, [], ◌∷◌, ◌++◌, ◌==◌, ==_iff, ◌>>=◌,
  if◌then◌else◌, Result, ok, arith, >>=-eq-ok, subst, update_where,
}
use fuel_chain.Base.Int.{ℤ, pos, ◌+ℤ◌, ◌≤ℤ◌, ltb_ℤ, max_ℤ, int_laws, +ℤ_parts}
use fuel_chain.Base.Number.{finite}
use fuel_chain.Schema.{Exception}
use fuel_chain.BatchStatus.{can_issue_qr}
use fuel_chain.Accounting.{remaining_batch_liters, remaining_batch_liters_bounds}
use fuel_chain.Store.{Db, Actor, Batch, Delivery, append}
use fuel_chain.Custody.Payload.{Payload, Config}
use fuel_chain.Custody.Issue.{IssueInput, Plan, plan_issue, remaining_of, reserved, reserves}
use fuel_chain.Custody.Issue.Baton.{Draw, payload_of}
use fuel_chain.Custody.Issue.Dispatch.{
  Order, dispatch, new_delivery, open_delivery, create_baton_row, record_dispatch,
}
use fuel_chain.Custody.Issue.Frames.{
  load_cistern-frame, draw_depot-frame, record_dispatch-frame, start_transit-frame,
  dispatch-Dispatched,
}

abbrev pub order_of : Config → IssueInput → Actor → Draw → Plan → Order
order_of c input actor draw plan = record {
  config = c;
  input = input;
  actor = actor;
  draw = draw;
  plan = plan;
}

unfoldable pub issue : Config → IssueInput → Actor → Draw → Db → Result Exception (Payload × Db)
issue c input actor draw db = do
  plan ← plan_issue c input actor db
  db' ← dispatch (order_of c input actor draw plan) db
  ok (payload_of c input actor draw plan, db')

reserved-append :
    (k : ℕ) (ds : List Delivery) (d : Delivery)
    → reserved k (ds ++ d ∷ []) ≡ reserved k ds +ℤ (if reserves k d then d.loaded_liters else pos 0)
reserved-append k [] d = grind int_laws
reserved-append k (x ∷ ds) d = grind (int_laws, reserved-append k ds d)

-- An update that leaves the load, the batch and the status of a delivery alone.
reserved-update :
    (k : ℕ) (p : Delivery → Bool) (f : Delivery → Delivery)
    → ((d : Delivery) → reserves k (f d) ≡ reserves k d)
    → ((d : Delivery) → (f d).loaded_liters ≡ d.loaded_liters)
    → (ds : List Delivery) → reserved k (update_where p f ds) ≡ reserved k ds
reserved-update k p f same load [] = refl
reserved-update k p f same load (d ∷ ds) =
    ground (arith, same d, load d, reserved-update k p f same load ds)

create-reserved :
    (k : ℕ) (o : Order) (delivery : ℕ) (db db' : Db)
    → create_baton_row o delivery db ≡ ok db'
    → reserved k db'.deliveries ≡ reserved k db.deliveries
unfolding create_baton_row
create-reserved k o delivery db db' h =
    let mark = λ (d : Delivery). record d { baton_token = some o.draw.token } in
    let kept =
      reserved-update k (λ (d : Delivery). d.id == delivery) mark (λ d. refl) (λ d. refl)
        db.deliveries in
    ground (arith, h, kept)

opened_deliveries :
    (o : Order) (db : Db)
    → (open_delivery o db).deliveries ≡ append (new_delivery o db.next_id) db.deliveries
unfolding open_delivery
opened_deliveries o db = refl

new_reserves :
    (o : Order) (db : Db)
    → reserved o.plan.batch.id db.deliveries
        +ℤ (if reserves o.plan.batch.id (new_delivery o db.next_id)
            then o.input.volume_liters
            else pos 0)
      ≡ reserved o.plan.batch.id db.deliveries +ℤ o.input.volume_liters
new_reserves o db = rw ((==_iff o.plan.batch.id o.plan.batch.id).1 refl) refl

-- A dispatch that commits puts its volume on the road for its batch.
dispatch-reserved :
    (o : Order) (db db' : Db)
    → dispatch o db ≡ ok db'
    → reserved o.plan.batch.id db'.deliveries
      ≡ reserved o.plan.batch.id db.deliveries +ℤ o.input.volume_liters
dispatch-reserved o db db' h =
    let d = dispatch-Dispatched o db db' h in
    let k = o.plan.batch.id in
    let ds = λ (s : Db). s.deliveries in
    let after : db'.deliveries ≡ d.issued.deliveries =
      ap ds (start_transit-frame o (record_dispatch o db.next_id d.issued) db' d.starts)
      ∙ ap ds (record_dispatch-frame o db.next_id d.issued) in
    let before : d.drawn.deliveries ≡ append (new_delivery o db.next_id) db.deliveries =
      ap ds (draw_depot-frame o d.loaded d.drawn d.draws)
      ∙ ap ds (load_cistern-frame o (open_delivery o db) d.loaded d.loads)
      ∙ opened_deliveries o db in
    ap (reserved k) after
    ∙ create-reserved k o db.next_id d.drawn d.issued d.issues
    ∙ ap (reserved k) before
    ∙ reserved-append k db.deliveries (new_delivery o db.next_id)
    ∙ new_reserves o db

-- What the checks of `issue` leave of a request that they let through.
plan_issue-bounds :
    (c : Config) (input : IssueInput) (actor : Actor) (db : Db) (plan : Plan)
    → plan_issue c input actor db ≡ ok plan
    → (can_issue_qr plan.batch.status ≡ true)
      × (ltb_ℤ (remaining_of plan.batch db +ℤ pos 1) input.volume_liters ≡ false)
unfolding plan_issue
plan_issue-bounds c input actor db plan h = ground (arith, h)

leb_of_ltb : (a b : ℤ) → ltb_ℤ a b ≡ false → b ≤ℤ a
leb_of_ltb a b h = ground arith

committed_le :
    (b : Batch) (db : Db) (volume : ℤ)
    → ltb_ℤ (remaining_of b db +ℤ pos 1) volume ≡ false
    → b.delivered_liters +ℤ (reserved b.id db.deliveries +ℤ volume)
      ≤ℤ max_ℤ b.declared_volume (b.delivered_liters +ℤ reserved b.id db.deliveries) +ℤ pos 1
unfolding remaining_of
committed_le b db volume h =
    let res = reserved b.id db.deliveries in
    let left = remaining_batch_liters (finite b.declared_volume) b.delivered_liters res in
    let bound = remaining_batch_liters_bounds b.declared_volume b.delivered_liters res in
    let committed = b.delivered_liters +ℤ res in
    omega (
      int_laws,
      leb_of_ltb (left +ℤ pos 1) volume h,
      bound.1,
      +ℤ_parts left committed,
      +ℤ_parts left (pos 1),
      +ℤ_parts b.delivered_liters res,
      +ℤ_parts res volume,
      +ℤ_parts b.delivered_liters (res +ℤ volume),
      +ℤ_parts (max_ℤ b.declared_volume committed) (pos 1),
    )

-- What `issue` commits to the road for a batch, with what was delivered of it, is no more than the
-- declared volume and a millilitre, or than what it was before and a millilitre.
pub issue-bounds :
    (c : Config) (input : IssueInput) (actor : Actor) (draw : Draw) (db db' : Db) (p : Payload)
    → issue c input actor draw db ≡ ok (p, db')
    → (plan : Plan) × (plan_issue c input actor db ≡ ok plan)
      × (reserved plan.batch.id db'.deliveries
          ≡ reserved plan.batch.id db.deliveries +ℤ input.volume_liters)
      × (plan.batch.delivered_liters +ℤ reserved plan.batch.id db'.deliveries
          ≤ℤ max_ℤ plan.batch.declared_volume
              (plan.batch.delivered_liters +ℤ reserved plan.batch.id db.deliveries)
            +ℤ pos 1)
unfolding issue
issue-bounds c input actor draw db db' p h =
    let (plan, planned, rest) = >>=-eq-ok (plan_issue c input actor db) _ h in
    let order = order_of c input actor draw plan in
    let (next, sent, ends) = >>=-eq-ok (dispatch order db) _ rest in
    let same : next ≡ db' = ground arith in
    let total = dispatch-reserved order db next sent in
    let moved =
      subst
        (λ (s : Db).
          reserved plan.batch.id s.deliveries
          ≡ reserved plan.batch.id db.deliveries +ℤ input.volume_liters)
        same total in
    let bounds = plan_issue-bounds c input actor db plan planned in
    (plan, planned, moved, rw moved (committed_le plan.batch db input.volume_liters bounds.1))
