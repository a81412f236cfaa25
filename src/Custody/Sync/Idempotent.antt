-- ===== src/Custody/Sync/Idempotent.antt =====
-- What a client may rely on when it sends its events again.
use fuel_chain.Base.{
  ℕ, String, ◌≡◌, refl, ap, ◌∙◌, ◌&&◌, Option, none, some, str_eq, is_some, if◌then◌else◌,
  find_first, map_row, find-append_new, find-update_where, Result, ok, err, arith, Bool-cases, inl,
  inr,
}
use package.text.Mathlib.TextPositions.{eq_refl}
use fuel_chain.Schema.{Exception, is_conflict, SyncStatus, applied, rejected}
use fuel_chain.Store.{Db, Actor, Batch, Baton, SyncEvent}
use fuel_chain.Custody.Payload.{Payload, Config}
use fuel_chain.Custody.Accept.{
  AcceptInput, given, check_request, obtain_baton, obtain_from, find_baton, create_baton,
  batch_of_payload, check_status,
}
use fuel_chain.Custody.Accept.Handover.{Ready}
use fuel_chain.Custody.Accept.Commit.{commit, commit-Committed}
use fuel_chain.Custody.Accept.Frames.{commit-Untouched}
use fuel_chain.Custody.Reception.{
  accept, ready_of, committed_with, run_ready, run_checked, run_baton, run_token, Failed,
}
use fuel_chain.Custody.Sync.{
  Item, SyncResult, accept_input_of, perform, is_item, known, pending_event, enter, close_row,
  close, sync_known, sync_one,
}

-- No step of a reception writes the table of offline events.
abbrev SameSync : Db → Db → Type 0
SameSync db db' = db'.sync_events ≡ db.sync_events

commit-SameSync :
    (p : Ready) (follow : Result Exception (Unit {0})) (db : Db) (r : Result Exception Db)
    → commit p db ≡ r
    → SameSync db (committed_with follow db r).1
commit-SameSync p follow db (ok db') h = (commit-Untouched p (commit-Committed p db db' h)).tables.2
commit-SameSync p follow db (err e) h = refl

ready-SameSync :
    (c : Config) (r : Result Exception Ready) (db : Db) → SameSync db (run_ready c r db).1
ready-SameSync c (err e) db = refl
ready-SameSync c (ok p) db =
    commit-SameSync p (c.follow_up p.baton.token_id p.now) db (commit p db) refl

checked-SameSync :
    (c : Config) (input : AcceptInput) (actor : Actor) (now : ℕ) (b : Baton)
    (r : Result Exception (Unit {0})) (db : Db)
    → SameSync db (run_checked c input actor now b (r, db)).1
checked-SameSync c input actor now b (err e) db = refl
checked-SameSync c input actor now b (ok u) db = ready-SameSync c (ready_of input actor now b db) db

check_status-SameSync : (b : Baton) (now : ℕ) (db : Db) → SameSync db (check_status b now db).1
unfolding check_status
check_status-SameSync b now db = ground arith

baton-SameSync :
    (c : Config) (input : AcceptInput) (actor : Actor) (now : ℕ) (r : Result Exception Baton)
    (db : Db)
    → SameSync db (run_baton c input actor now (r, db)).1
baton-SameSync c input actor now (err e) db = refl
baton-SameSync c input actor now (ok b) db =
    checked-SameSync c input actor now b (check_status b now db).0 (check_status b now db).1
    ∙ check_status-SameSync b now db

create-SameSync :
    (c : Config) (p : Payload) (token : String) (db : Db) (o : Option Batch)
    → SameSync db (create_baton c p token db o).1
create-SameSync c p token db none = refl
create-SameSync c p token db (some b) = refl

obtain-SameSync :
    (c : Config) (embedded : Option Payload) (token : String) (o : Option Baton) (db : Db)
    → SameSync db (obtain_from c embedded token o db).1
obtain-SameSync c embedded token (some b) db = refl
obtain-SameSync c none token none db = refl
obtain-SameSync c (some p) token none db = create-SameSync c p token db (batch_of_payload c p db)

token-SameSync :
    (c : Config) (input : AcceptInput) (actor : Actor) (now : ℕ) (r : Result Exception String)
    (db : Db)
    → SameSync db (run_token c input actor now r db).1
unfolding obtain_baton
token-SameSync c input actor now (err e) db = refl
token-SameSync c input actor now (ok token) db =
    let got = obtain_from c input.embedded token (find_baton token db) db in
    baton-SameSync c input actor now got.0 got.1
    ∙ obtain-SameSync c input.embedded token (find_baton token db) db

perform-SameSync :
    (c : Config) (item : Item) (actor : Actor) (now : ℕ) (db : Db)
    → SameSync db (perform c item actor now db).1
unfolding perform accept
perform-SameSync c item actor now db =
    elim (Bool-cases (str_eq item.event_type "ACCEPT_BATON" && is_some (given item.baton_token))) [
      | inl e ↦ rw e (
          token-SameSync c (accept_input_of item) actor now
            (check_request c (accept_input_of item) actor now) db)
      | inr e ↦ rw e refl
    ]

-- After an event was taken in, its row stands with the status that was reported.
known-sync :
    (c : Config) (item : Item) (actor : Actor) (now : ℕ) (db : Db) (o : Option SyncEvent)
    → known item.client_event_id db ≡ o
    → let (r, db') = sync_known c item actor now o db in
      (e : SyncEvent) × (known item.client_event_id db' ≡ some e) × (e.status ≡ r.status)
unfolding close enter
known-sync c item actor now db (some e) h = (e, h, refl)
known-sync c item actor now db none h =
    let k = item.client_event_id in
    let row = pending_event c item actor in
    let out = perform c item actor now (enter c item actor db) in
    (
      close_row out.0 row,
      find-update_where (is_item k) (is_item k) (close_row out.0) (λ x e. refl) out.1.sync_events
          ∙ ap (map_row (λ (x : SyncEvent). if is_item k x then close_row out.0 x else x)) (
              ap (find_first (is_item k))
                (perform-SameSync c item actor now (enter c item actor db))
              ∙ find-append_new (is_item k) db.sync_events row h (eq_refl k))
          ∙ rw (eq_refl k) refl,
      refl,
    )

-- An event that is sent again, at any later time and by anybody, is reported with the status of the
-- first time, and changes nothing: a reception that a client repeats is not booked twice.
pub sync_one-again :
    (c : Config) (item : Item) (actor actor' : Actor) (now now' : ℕ) (db : Db)
    → let (r, db') = sync_one c item actor now db in
      sync_one c item actor' now' db'
      ≡ (record { client_event_id = item.client_event_id; status = r.status; reason = none }, db')
unfolding sync_one
sync_one-again c item actor actor' now now' db =
    let k = item.client_event_id in
    let db' = (sync_known c item actor now (known k db) db).1 in
    let (e, found, same) = known-sync c item actor now db (known k db) refl in
    ap (λ (o : Option SyncEvent). sync_known c item actor' now' o db') found
    ∙ ap {B = SyncResult × Db}
        (λ (st : SyncStatus). (record { client_event_id = k; status = st; reason = none }, db'))
        same

-- What is reported of a reception that failed, and what it did.
abbrev pub Reported : Config → Item → Actor → ℕ → Exception → Db → SyncResult × Db → Type 0
Reported c item actor now e db (r, db') =
    (r.status ≡ (if is_conflict e then applied else rejected))
    × (r.reason ≡ (if is_conflict e then none else some e))
    × Failed c (accept_input_of item) actor now db e db'
