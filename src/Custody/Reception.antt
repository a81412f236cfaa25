-- ===== src/Custody/Reception.antt =====
-- The whole of `accept` in custody-qr.service.ts, and what a call leaves behind when it fails. What it
-- awaits after its transaction (the follow-up, and the read of the settlement) writes none of these
-- tables; how that ends is the parameter `follow_up`.
use fuel_chain.Base.{
  ℕ, String, ◌≡◌, ◌≢◌, ◌⊎◌, Option, none, some, get_or, Result, ok, err, ◌>>=◌, arith,
}
use fuel_chain.Schema.{admin, station_staff, Exception, role_refused}
use fuel_chain.Store.{Db, Actor, Baton, Delivery, Cistern, cistern_by_id}
use fuel_chain.Custody.Payload.{Config, Payload}
use fuel_chain.Custody.Accept.{
  AcceptInput, check_request, obtain_baton, check_status, receiving_station, delivery_of,
  destination_of,
}
use fuel_chain.Custody.Accept.Handover.{Ready}
use fuel_chain.Custody.Accept.Commit.{commit}

abbrev driver_of : Option Cistern → Option ℕ
driver_of none = none
driver_of (some c) = c.driver_id

abbrev cistern_of : Option ℕ → Db → Option Cistern
cistern_of none db = none
cistern_of (some k) db = cistern_by_id k db

-- The station, and with it all that the transaction needs; the volume is that of the baton where the
-- station sends none.
unfoldable pub ready_of : AcceptInput → Actor → ℕ → Baton → Db → Result Exception Ready
ready_of input actor now b db = do
  station ← receiving_station input.station_code actor b (delivery_of b db) db
  ok (record {
    baton = b;
    driver_id = driver_of (cistern_of b.cistern_id db);
    station_id = station;
    received = get_or input.received_volume b.volume_liters;
    density = input.received_density;
    temperature = input.received_temperature;
    water = input.received_water;
    actor = actor;
    now = now;
  })

-- The follow-up (a reading of the movement, an anomaly, an anchor) and the read of the settlement are
-- awaited after the transaction, in no `try`: where they fail, so does the call, and what was
-- committed stays.
abbrev pub committed_with :
    Result Exception (Unit {0}) → Db → Result Exception Db → Result Exception (Unit {0}) × Db
committed_with follow db (ok db') = (follow, db')
committed_with follow db (err e) = (err e, db)

abbrev pub run_ready : Config → Result Exception Ready → Db → Result Exception (Unit {0}) × Db
run_ready c (err e) db = (err e, db)
run_ready c (ok p) db = committed_with (c.follow_up p.baton.token_id p.now) db (commit p db)

abbrev pub run_checked :
    Config
    → AcceptInput
    → Actor
    → ℕ
    → Baton
    → Result Exception (Unit {0}) × Db
    → Result Exception (Unit {0}) × Db
run_checked c input actor now b (err e, db) = (err e, db)
run_checked c input actor now b (ok u, db) = run_ready c (ready_of input actor now b db) db

abbrev pub run_baton :
    Config
    → AcceptInput
    → Actor
    → ℕ
    → Result Exception Baton × Db
    → Result Exception (Unit {0}) × Db
run_baton c input actor now (err e, db) = (err e, db)
run_baton c input actor now (ok b, db) = run_checked c input actor now b (check_status b now db)

abbrev pub run_token :
    Config
    → AcceptInput
    → Actor
    → ℕ
    → Result Exception String
    → Db
    → Result Exception (Unit {0}) × Db
run_token c input actor now (err e) db = (err e, db)
run_token c input actor now (ok token) db =
    run_baton c input actor now (obtain_baton c input.embedded token db)

-- What was written before an exception stays written, but for the transaction, which is undone.
unfoldable pub accept : Config → AcceptInput → Actor → ℕ → Db → Result Exception (Unit {0}) × Db
accept c input actor now db = run_token c input actor now (check_request c input actor now) db

-- The tables that say what fuel is where, what was recorded of it and what is owed for it.
pub record SameGoods (db db' : Db) : Type 0 where
  pub batches : db'.batches ≡ db.batches
  pub deliveries : db'.deliveries ≡ db.deliveries
  pub cisterns : db'.cisterns ≡ db.cisterns
  pub tanks : db'.tanks ≡ db.tanks
  pub stations : db'.stations ≡ db.stations
  pub events : db'.events ≡ db.events
  pub checkpoints : db'.checkpoints ≡ db.checkpoints
  pub measurements : db'.measurements ≡ db.measurements
  pub settlements : db'.settlements ≡ db.settlements

pub SameGoods-trans : (a b c : Db) → SameGoods a b → SameGoods b c → SameGoods a c
SameGoods-trans a b c h k = ground arith

module _ (c : Config) (input : AcceptInput) (actor : Actor) (now : ℕ) where
  -- What a call that fails with an exception has done: nothing to the goods; or a transaction, where the
  -- exception is of what is awaited after it.
  pub data Failed (db : Db) (e : Exception) (db' : Db) : Type 0 where
    before_commit : SameGoods db db' → Failed db e db'
    after_commit :
        (b : Baton) (p : Ready) (mid done : Db)
        → SameGoods db mid
        → ready_of input actor now b mid ≡ ok p
        → commit p mid ≡ ok done
        → c.follow_up p.baton.token_id p.now ≡ err e
        → SameGoods done db'
        → Failed db e db'

  -- A call returns, or it failed in such a way.
  abbrev Ends : Db → Result Exception (Unit {0}) × Db → Type 0
  Ends db (ok u, db') = Unit
  Ends db (err e, db') = Failed db e db'

-- Only the staff of a station and administrators receive: anybody else is refused, and the database
-- is as it was.
pub accept-role :
    (c : Config) (input : AcceptInput) (actor : Actor) (now : ℕ) (db : Db)
    → actor.role ≢ station_staff
    → actor.role ≢ admin
    → accept c input actor now db ≡ (err role_refused, db)
unfolding accept check_request
accept-role c input actor now db staff adm = ground arith

-- A member of the staff of a station receives for that station alone: where the call gets so far, the
-- station is theirs, and the baton and its delivery name no other.
pub receiving_station-own :
    (code : Option String) (actor : Actor) (b : Baton) (d : Option Delivery) (db : Db) (k : ℕ)
    (s : Option ℕ)
    → actor.role ≡ station_staff
    → actor.station_id ≡ some k
    → receiving_station code actor b d db ≡ ok s
    → (s ≡ some k)
      × ((b.station_id ≡ none) ⊎ (b.station_id ≡ some k))
      × ((destination_of d ≡ none) ⊎ (destination_of d ≡ some k))
unfolding receiving_station
receiving_station-own code actor b d db k s staff own h = ground arith
