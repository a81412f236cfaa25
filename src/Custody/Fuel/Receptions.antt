-- ===== src/Custody/Fuel/Receptions.antt =====
-- What a reception by a baton (`accept` of custody-qr.service.ts) does to the fuel in the tanks and
-- the cisterns.
use fuel_chain.Base.{
  ℕ, ◌≤◌, ◌≡◌, refl, sym, ap, ◌∙◌, Bool, true, false, Option, some, ◌==◌, ==_iff, find_first,
  find_first_unique, count_where, ok, arith, >>=-eq-ok, ◌>>=◌,
}
use fuel_chain.Base.Int.{ℤ, pos, ◌+ℤ◌, ◌-ℤ◌, ltb_ℤ, min_ℤ, max_ℤ, int_laws}
use fuel_chain.Base.Sums.{sum_by}
use fuel_chain.Base.Number.{finite}
use fuel_chain.Accounting.{next_cistern_load}
use fuel_chain.Tank.Levels.{apply_stock_delta-ok}
use fuel_chain.Store.{Db, Cistern, StorageTank, cistern_by_id, update_cistern, update_tank}
use fuel_chain.Custody.Accept.Handover.{Ready, fresh_delivery, close_delivery}
use fuel_chain.Custody.Accept.Stocking.{is_at, unload_cistern, unloaded}
use fuel_chain.Custody.Accept.Commit.{commit, commit-Committed, cistern_row}
use fuel_chain.Custody.Accept.Frames.{commit-Untouched}
use fuel_chain.Custody.Accept.Delivered.{stock_tank-row, station-row}
use fuel_chain.Custody.Fuel.{stock, load, fuel, IsIndexed, tank-stock, cistern-load}

-- What a reception takes out of a cistern: the received litres, as far as it holds them.
unfoldable pub taken : ℤ → Cistern → ℤ
taken received c = max_ℤ (pos 0) (min_ℤ received c.current_load)

next_load :
    (current unload next : ℤ)
    → next_cistern_load current (pos 0 -ℤ unload) ≡ ok next
    → next ≡ current -ℤ unload
unfolding next_cistern_load
next_load current unload next h = grind (int_laws, h)

-- The cistern is taken as `c` stands in the database.
unload_by :
    (positive : Bool) (p : Ready) (c : Cistern) (db db' : Db)
    → ltb_ℤ (pos 0) (min_ℤ p.received c.current_load) ≡ positive
    → unload_cistern p (some c) db ≡ ok db'
    → find_first (λ (r : Cistern). r.id == c.id) db.cisterns ≡ some c
    → count_where (λ (r : Cistern). r.id == c.id) db.cisterns ≤ 1
    → sum_by load db'.cisterns +ℤ taken p.received c ≡ sum_by load db.cisterns
unfolding unload_cistern taken max_ℤ
unload_by true p c db db' test h found one =
    let unload = min_ℤ p.received c.current_load in
    let ran : (next_cistern_load c.current_load (pos 0 -ℤ unload) >>= λ next.
    ok (record db { cisterns = update_cistern c.id (unloaded next) db.cisterns }))
        ≡ ok db' =
      ground (arith, h, test) in
    let (next, added, ends) =
      >>=-eq-ok (next_cistern_load c.current_load (pos 0 -ℤ unload)) _ ran in
    let sums = cistern-load (unloaded next) db.cisterns c found one in
    let rows : db'.cisterns ≡ update_cistern c.id (unloaded next) db.cisterns = ground arith in
    let left = next_load c.current_load unload next added in
    rw rows (grind (int_laws, sums, left, test))
unload_by false p c db db' test h found one =
    let rows : db'.cisterns ≡ db.cisterns = ground (arith, h, test) in
    rw rows (grind (int_laws, test))

-- The tank of a station, by its key.
pub tank-found :
    (k : ℕ) (db : Db) (tank : StorageTank)
    → IsIndexed db
    → find_first (is_at k) db.tanks ≡ some tank
    → find_first (λ (t : StorageTank). t.id == tank.id) db.tanks ≡ some tank
tank-found k db tank keyed found =
    find_first_unique (is_at k) (λ (t : StorageTank). t.id == tank.id) db.tanks tank found
      ((==_iff tank.id tank.id).1 refl) (keyed.tanks tank.id)

cistern-found :
    (k : ℕ) (db : Db) (c : Cistern)
    → IsIndexed db
    → cistern_by_id k db ≡ some c
    → cistern_by_id c.id db ≡ some c
cistern-found k db c keyed found =
    find_first_unique (λ (r : Cistern). r.id == k) (λ (r : Cistern). r.id == c.id) db.cisterns c
      found ((==_iff c.id c.id).1 refl) (keyed.cisterns c.id)

commit-tanks :
    (p : Ready) (db db' : Db) (k : ℕ) (tank : StorageTank)
    → IsIndexed db
    → commit p db ≡ ok db'
    → p.station_id ≡ some k
    → find_first (is_at k) db.tanks ≡ some tank
    → sum_by stock db'.tanks ≡ sum_by stock db.tanks +ℤ p.received
commit-tanks p db db' k tank keyed h station found =
    let t = commit-Committed p db db' h in
    let u = commit-Untouched p t in
    let d = fresh_delivery p t.credited in
    let (m, stocked, same) = station-row p d k t.emptied t.stocked station t.stocks in
    let (s, applied, rows) =
      stock_tank-row p d k t.emptied m tank stocked
        (ap (find_first (is_at k)) u.tanks_before ∙ found) in
    let (r, same_r, above, same_p, sum_p, fits) =
      apply_stock_delta-ok tank.current_stock (finite p.received) tank.capacity s applied in
    let recv : r ≡ p.received = cc in
    let sums =
      tank-stock db.tanks tank s.next_stock (tank-found k db tank keyed found)
        (keyed.tanks tank.id) in
    let written : db'.tanks
        ≡ update_tank tank.id (λ (x : StorageTank). record x { current_stock = s.next_stock })
            db.tanks =
      u.tanks_after
      ∙ same
      ∙ rows
      ∙ ap (update_tank tank.id (λ (x : StorageTank). record x { current_stock = s.next_stock }))
          u.tanks_before in
    rw written (grind (int_laws, sums, sum_p, recv))

commit-cisterns :
    (p : Ready) (db db' : Db) (k : ℕ) (c : Cistern)
    → IsIndexed db
    → commit p db ≡ ok db'
    → p.baton.cistern_id ≡ some k
    → cistern_by_id k db ≡ some c
    → sum_by load db'.cisterns +ℤ taken p.received c ≡ sum_by load db.cisterns
commit-cisterns p db db' k c keyed h on found =
    let t = commit-Committed p db db' h in
    let u = commit-Untouched p t in
    let d = fresh_delivery p t.credited in
    let closed = close_delivery p d t.credited in
    let row : cistern_row p d closed ≡ some c = ground (arith, on, found, u.cisterns_before) in
    let unloads : unload_cistern p (some c) closed ≡ ok t.emptied =
      ap (λ (o : Option Cistern). unload_cistern p o closed) (sym row) ∙ t.empties in
    let find_c = find_first (λ (r : Cistern). r.id == c.id) in
    let sums =
      unload_by (ltb_ℤ (pos 0) (min_ℤ p.received c.current_load)) p c closed t.emptied refl unloads
        (ap find_c u.cisterns_before ∙ cistern-found k db c keyed found)
        (rw u.cisterns_before (keyed.cisterns c.id)) in
    rw u.cisterns_after (sums ∙ ap (sum_by load) u.cisterns_before)

-- A reception by a baton that commits adds the received litres to the tank of the station and takes
-- them from the cistern as far as it holds them: what all tanks and cisterns hold after it, with what
-- was taken, is what they held before it, with what was received. The station has a tank, the cistern
-- of the baton is known, and the keys of the tanks and of the cisterns are unique.
pub commit-fuel :
    (p : Ready) (db db' : Db) (k j : ℕ) (tank : StorageTank) (c : Cistern)
    → IsIndexed db
    → commit p db ≡ ok db'
    → p.station_id ≡ some k
    → find_first (is_at k) db.tanks ≡ some tank
    → p.baton.cistern_id ≡ some j
    → cistern_by_id j db ≡ some c
    → fuel db' +ℤ taken p.received c ≡ fuel db +ℤ p.received
unfolding fuel
commit-fuel p db db' k j tank c keyed h station found on cistern =
    let tanks = commit-tanks p db db' k tank keyed h station found in
    let cisterns = commit-cisterns p db db' j c keyed h on cistern in
    grind (int_laws, tanks, cisterns)
