-- ===== src/Custody/Fuel.antt =====
-- The fuel in the tanks and the cisterns of the database, and what a dispatch does to it: `issue` of
-- custody-qr.service.ts. `Receptions` is what the two kinds of reception do to it.
pub mod Receptions
pub mod Stickers
use fuel_chain.Base.{
  ℕ, String, ◌≤◌, ◌≡◌, refl, sym, ap, ◌∙◌, Bool, true, Option, none, some, List, [], ◌∷◌, ◌==◌,
  ==_iff, find_first, find_first_unique, update_where, count_where, str_eq, ok, arith, >>=-eq-ok,
  or_throw-eq-ok,
}
use fuel_chain.Base.Int.{ℤ, pos, ◌+ℤ◌, ◌-ℤ◌, int_laws}
use fuel_chain.Base.Sums.{sum_by, sum-update}
use fuel_chain.Store.{Db, Actor, Cistern, StorageTank, cistern_by_id, update_tank, update_cistern}
use fuel_chain.Custody.Accept.{given}
use fuel_chain.Custody.Payload.{Payload, Config}
use fuel_chain.Custody.Issue.{IssueInput, Plan, plan_issue, chosen_cistern}
use fuel_chain.Custody.Issue.Baton.{Draw}
use fuel_chain.Custody.Issue.Dispatch.{Order, dispatch, depot_tank, open_delivery, record_dispatch}
use fuel_chain.Custody.Issue.Frames.{
  open_delivery-frame, draw_depot-frame, create_baton_row-frame, record_dispatch-frame,
  start_transit-frame, dispatch-Dispatched,
}
use fuel_chain.Custody.Issue.Effects.{load_cistern-row, next_load, loaded_with, dispatch-depot}
use fuel_chain.Custody.Issue.Request.{issue, order_of}

abbrev pub stock : StorageTank → ℤ
stock t = t.current_stock

abbrev pub load : Cistern → ℤ
load c = c.current_load

-- The litres in all tanks and all cisterns.
unfoldable pub fuel : Db → ℤ
fuel db = sum_by stock db.tanks +ℤ sum_by load db.cisterns

-- The keys of the tanks, and of the cisterns, are unique.
pub record IsIndexed (db : Db) : Type 0 where
  pub tanks : (k : ℕ) → count_where (λ (t : StorageTank). t.id == k) db.tanks ≤ 1
  pub cisterns : (k : ℕ) → count_where (λ (c : Cistern). c.id == k) db.cisterns ≤ 1

pub tank-stock :
    (rows : List StorageTank) (t : StorageTank) (v : ℤ)
    → find_first (λ (r : StorageTank). r.id == t.id) rows ≡ some t
    → count_where (λ (r : StorageTank). r.id == t.id) rows ≤ 1
    → sum_by stock (update_tank t.id (λ (r : StorageTank). record r { current_stock = v }) rows)
        +ℤ t.current_stock
      ≡ sum_by stock rows +ℤ v
tank-stock rows t v found one =
    sum-update stock (λ (r : StorageTank). r.id == t.id)
      (λ (r : StorageTank). record r { current_stock = v }) rows t found one

pub cistern-load :
    (f : Cistern → Cistern) (rows : List Cistern) (c : Cistern)
    → find_first (λ (r : Cistern). r.id == c.id) rows ≡ some c
    → count_where (λ (r : Cistern). r.id == c.id) rows ≤ 1
    → sum_by load (update_cistern c.id f rows) +ℤ c.current_load
      ≡ sum_by load rows +ℤ (f c).current_load
cistern-load f rows c found one = sum-update load (λ (r : Cistern). r.id == c.id) f rows c found one

depot_tank-counted :
    (q : StorageTank → Bool) (rows : List StorageTank) (t : StorageTank)
    → depot_tank rows ≡ some t
    → q t ≡ true
    → 1 ≤ count_where q rows
unfolding depot_tank
depot_tank-counted q [] t found on = ground arith
depot_tank-counted q (r ∷ rows) t found on = ground (arith, depot_tank-counted q rows t)

-- The depot's tank is the row under its key.
depot_tank-found :
    (rows : List StorageTank) (t : StorageTank)
    → depot_tank rows ≡ some t
    → count_where (λ (r : StorageTank). r.id == t.id) rows ≤ 1
    → find_first (λ (r : StorageTank). r.id == t.id) rows ≡ some t
unfolding depot_tank
depot_tank-found [] t found one = ground arith
depot_tank-found (r ∷ rows) t found one =
    ground (
      arith,
      depot_tank-found rows t,
      depot_tank-counted (λ (r : StorageTank). r.id == t.id) rows t,
    )

-- What a dispatch that commits writes to the cisterns, where the cistern is as it was read.
dispatch-cisterns :
    (o : Order) (db db' : Db)
    → dispatch o db ≡ ok db'
    → (next : ℤ) × (next ≡ o.plan.cistern.current_load +ℤ o.input.volume_liters)
      × (db'.cisterns ≡ update_cistern o.plan.cistern.id (loaded_with o next) db.cisterns)
dispatch-cisterns o db db' h =
    let d = dispatch-Dispatched o db db' h in
    let rows = λ (s : Db). s.cisterns in
    let (next, added, written) = load_cistern-row o (open_delivery o db) d.loaded d.loads in
    (
      next,
      (next_load o.plan.cistern.current_load o.input.volume_liters next added).0,
      ap rows (start_transit-frame o (record_dispatch o db.next_id d.issued) db' d.starts)
          ∙ ap rows (record_dispatch-frame o db.next_id d.issued)
          ∙ ap rows (create_baton_row-frame o db.next_id d.drawn d.issued d.issues)
          ∙ ap rows (draw_depot-frame o d.loaded d.drawn d.draws)
          ∙ written
          ∙ ap (update_cistern o.plan.cistern.id (loaded_with o next))
              (ap rows (open_delivery-frame o db)),
    )

dispatch-fuel :
    (o : Order) (db db' : Db)
    → IsIndexed db
    → cistern_by_id o.plan.cistern.id db ≡ some o.plan.cistern
    → dispatch o db ≡ ok db'
    → fuel db' ≡ fuel db
unfolding fuel
dispatch-fuel o db db' keyed read h =
    let (t, depot, above, held, tanks) = dispatch-depot o db db' h in
    let (next, added, cisterns) = dispatch-cisterns o db db' h in
    let one = keyed.tanks t.id in
    let drawn =
      tank-stock db.tanks t (t.current_stock -ℤ o.input.volume_liters)
        (depot_tank-found db.tanks t depot one) one in
    let loaded =
      cistern-load (loaded_with o next) db.cisterns o.plan.cistern read
        (keyed.cisterns o.plan.cistern.id) in
    rw (tanks, cisterns) (grind (int_laws, drawn, loaded, added))

chosen_cistern-found :
    (code : Option String) (own : Option ℕ) (db : Db) (c : Cistern)
    → IsIndexed db
    → chosen_cistern code own db ≡ some c
    → cistern_by_id c.id db ≡ some c
chosen_cistern-found (some code) own db c keyed h =
    find_first_unique (λ (r : Cistern). str_eq r.code code) (λ (r : Cistern). r.id == c.id)
      db.cisterns c h ((==_iff c.id c.id).1 refl) (keyed.cisterns c.id)
chosen_cistern-found none (some k) db c keyed h =
    find_first_unique (λ (r : Cistern). r.id == k) (λ (r : Cistern). r.id == c.id) db.cisterns c h
      ((==_iff c.id c.id).1 refl) (keyed.cisterns c.id)
chosen_cistern-found none none db c keyed h = cc

plan_issue-cistern :
    (c : Config) (input : IssueInput) (actor : Actor) (db : Db) (plan : Plan)
    → plan_issue c input actor db ≡ ok plan
    → chosen_cistern (given input.cistern_code) actor.cistern_id db ≡ some plan.cistern
unfolding plan_issue
plan_issue-cistern c input actor db plan h = ground (arith, h)

-- A dispatch that commits moves its litres from the depot's tank to the cistern: the litres in all
-- tanks and cisterns together stay the same, where the keys of each are unique.
pub issue-fuel :
    (c : Config) (input : IssueInput) (actor : Actor) (draw : Draw) (db db' : Db) (p : Payload)
    → IsIndexed db
    → issue c input actor draw db ≡ ok (p, db')
    → fuel db' ≡ fuel db
unfolding issue
issue-fuel c input actor draw db db' p keyed h =
    let (plan, planned, rest) = >>=-eq-ok (plan_issue c input actor db) _ h in
    let order = order_of c input actor draw plan in
    let (next, sent, ends) = >>=-eq-ok (dispatch order db) _ rest in
    let read =
      chosen_cistern-found (given input.cistern_code) actor.cistern_id db plan.cistern keyed
        (plan_issue-cistern c input actor db plan planned) in
    let same : next ≡ db' = ground arith in
    ap fuel (sym same) ∙ dispatch-fuel order db next keyed read sent
