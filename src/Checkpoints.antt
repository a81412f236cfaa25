-- ===== src/Checkpoints.antt =====
-- The checkpoints that a driver sends from the road: `create` of
-- apps/api/src/checkpoints/checkpoints.service.ts. Labels, notes and coordinates are left out.
use fuel_chain.Base.{
  ℕ, ◌≡◌, refl, sym, ap, ◌∙◌, String, Bool, true, false, not, ◌&&◌, Option, none, some, ◌==◌,
  str_eq, get_or, or_else, is_some, if◌then◌else◌, find_first, find-append_new, Result, ok, ◌>>=◌,
  ◌>>◌, refuse_if, or_throw, >>=-eq-ok, arith, Bool-cases, inl, inr,
}
use package.text.Mathlib.TextPositions.{eq_refl}
use fuel_chain.Base.Int.{ℤ}
use fuel_chain.Schema
use fuel_chain.Schema.{
  transporter, same_role, is_open, Exception, row_not_found, batch_not_found, no_cistern,
  cistern_not_yours, client_event_taken,
}
use fuel_chain.Store.{
  Db, Actor, Batch, Cistern, Delivery, Checkpoint, CheckpointKind, load_departure, route_waypoint,
  arrival_station, cistern_by_id, delivery_by_id, update_cistern, append,
}
use fuel_chain.Custody.Accept.{given, given-some}
use fuel_chain.Sticker.{has_event, latest}

pub record CreateCheckpoint : Type 0 where
  pub kind : CheckpointKind
  pub delivery_id : Option ℕ
  pub cistern_code : Option String
  pub batch_code : Option String
  pub volume_liters : ℤ
  pub density : Option ℤ
  pub temperature : Option ℤ
  pub water : Option Bool
  pub client_event_id : Option String

abbrev pub is_known : Option String → Db → Bool
is_known none db = false
is_known (some k) db = is_some (find_first (has_event k) db.checkpoints)

abbrev is_coded : String → Option Cistern → Bool
is_coded code none = false
is_coded code (some c) = str_eq c.code code

-- `cistern: { code }, status: { in: ['LOADED', 'IN_TRANSIT'] }`
abbrev is_open_of : String → Db → Delivery → Bool
is_open_of code db d = is_coded code (cistern_by_id d.cistern_id db) && is_open d.status

abbrev named : Option ℕ → Db → Option Delivery
named none db = none
named (some k) db = delivery_by_id k db

abbrev open_of : Option String → Db → Option Delivery
open_of none db = none
open_of (some code) db = latest (is_open_of code db) db.deliveries

unfoldable pub trip_of : CreateCheckpoint → Actor → Db → Option Delivery
trip_of dto actor db = or_else (named dto.delivery_id db) (open_of (given actor.cistern_code) db)

abbrev code_of_trip : Option Delivery → Db → Option String
code_of_trip none db = none
code_of_trip (some d) db = elim (cistern_by_id d.cistern_id db) [
  | none ↦ none
  | some c ↦ some c.code
]

-- `!cisternCode` holds of an empty code too.
abbrev cistern_code_of : CreateCheckpoint → Actor → Option Delivery → Db → Option String
cistern_code_of dto actor d db =
    given (or_else dto.cistern_code (or_else actor.cistern_code (code_of_trip d db)))

abbrev pub is_of_other : Actor → Cistern → Bool
is_of_other actor c =
    same_role actor.role transporter
    && elim c.driver_id [ none ↦ false | some k ↦ not (k == actor.id) ]

abbrev or_current : Cistern → Result Exception ℕ
or_current c = or_throw c.current_batch_id row_not_found

abbrev by_code : String → Db → Option Batch
by_code code db = find_first (λ (b : Batch). str_eq b.batch_code code) db.batches

abbrev named_batch : Cistern → Option String → Db → Result Exception ℕ
named_batch c none db = or_current c
named_batch c (some code) db = or_throw (by_code code db) batch_not_found >>= λ b. ok b.id

abbrev batch_for : CreateCheckpoint → Cistern → Option Delivery → Db → Result Exception ℕ
batch_for dto c (some d) db = ok d.batch_id
batch_for dto c none db = named_batch c (given dto.batch_code) db

abbrev trip_key : Option Delivery → Option ℕ
trip_key none = none
trip_key (some d) = some d.id

abbrev checkpoint_of : CreateCheckpoint → Actor → ℕ → Option Delivery → Cistern → ℕ → Checkpoint
checkpoint_of dto actor now d c batch = record {
  kind = dto.kind;
  delivery_id = trip_key d;
  cistern_id = c.id;
  batch_id = batch;
  actor_id = actor.id;
  volume_liters = dto.volume_liters;
  density = dto.density;
  temperature = dto.temperature;
  water = get_or dto.water false;
  client_event_id = dto.client_event_id;
  captured_at = now;
}

abbrev status_at : CheckpointKind → Schema.CisternStatus
status_at arrival_station = Schema.CisternStatus.in_transit
status_at load_departure = Schema.CisternStatus.loaded
status_at route_waypoint = Schema.CisternStatus.in_transit

abbrev moved : CreateCheckpoint → ℕ → Cistern → Cistern
moved dto batch c = record c {
  current_load = dto.volume_liters;
  status = status_at dto.kind;
  current_batch_id = some batch;
}

-- The unique index refuses an id that is taken, an empty one too.
unfoldable pub store_checkpoint :
    CreateCheckpoint → Actor → ℕ → Option Delivery → Cistern → ℕ → Db → Result Exception Db
store_checkpoint dto actor now d c batch db = do
  refuse_if (is_known dto.client_event_id db) client_event_taken
  ok (record db {
    checkpoints = append (checkpoint_of dto actor now d c batch) db.checkpoints;
    cisterns = update_cistern c.id (moved dto batch) db.cisterns;
  })

unfoldable pub write_checkpoint : CreateCheckpoint → Actor → ℕ → Db → Result Exception Db
write_checkpoint dto actor now db = do
  let d = trip_of dto actor db
  code ← or_throw (cistern_code_of dto actor d db) no_cistern
  c ← or_throw (find_first (λ (c : Cistern). str_eq c.code code) db.cisterns) row_not_found
  refuse_if (is_of_other actor c) cistern_not_yours
  batch ← batch_for dto c d db
  store_checkpoint dto actor now d c batch db

-- A checkpoint that is stored already is given back, and nothing is written.
unfoldable pub create : CreateCheckpoint → Actor → ℕ → Db → Result Exception Db
create dto actor now db =
    if is_known (given dto.client_event_id) db then ok db else write_checkpoint dto actor now db

stored-is_known :
    (dto : CreateCheckpoint) (actor : Actor) (now : ℕ) (d : Option Delivery) (c : Cistern)
    (batch : ℕ) (k : String) (db db' : Db)
    → dto.client_event_id ≡ some k
    → store_checkpoint dto actor now d c batch db ≡ ok db'
    → is_known (some k) db' ≡ true
unfolding store_checkpoint
stored-is_known dto actor now d c batch k db db' e h =
    let row = checkpoint_of dto actor now d c batch in
    let (u, free, stored) =
      >>=-eq-ok (refuse_if (is_known dto.client_event_id db) client_event_taken) _ h in
    let unknown : is_known (some k) db ≡ false =
      ap (λ o. is_known o db) (sym e) ∙ ground (arith, free) in
    let missing : find_first (has_event k) db.checkpoints ≡ none = ground (arith, unknown) in
    let rows : db'.checkpoints ≡ append row db.checkpoints = ground (arith, stored) in
    let found = find-append_new (has_event k) db.checkpoints row missing (rw e (eq_refl k)) in
    ap (λ xs. is_some (find_first (has_event k) xs)) rows ∙ rw found refl

write_checkpoint-stores :
    (dto : CreateCheckpoint) (actor : Actor) (now : ℕ) (db db' : Db)
    → write_checkpoint dto actor now db ≡ ok db'
    → (c : Cistern) × (batch : ℕ) × (is_of_other actor c ≡ false)
      × (store_checkpoint dto actor now (trip_of dto actor db) c batch db ≡ ok db')
unfolding write_checkpoint
write_checkpoint-stores dto actor now db db' h =
    let d = trip_of dto actor db in
    let (code, e1, k1) = >>=-eq-ok (or_throw (cistern_code_of dto actor d db) no_cistern) _ h in
    let (c, e2, k2) =
      >>=-eq-ok
        (or_throw (find_first (λ (c : Cistern). str_eq c.code code) db.cisterns) row_not_found) _
        k1 in
    let (u, e3, k3) = >>=-eq-ok (refuse_if (is_of_other actor c) cistern_not_yours) _ k2 in
    let (batch, e4, k4) = >>=-eq-ok (batch_for dto c d db) _ k3 in
    (c, batch, ground (arith, e3), k4)

ok_inj : (a b : Db) → ◌≡◌ {A = Result Exception Db} (ok a) (ok b) → a ≡ b
ok_inj a b h = cc

-- A checkpoint that was accepted and is sent again, with the same id that is not empty, by whomever,
-- whenever, and with whatever content, changes nothing.
pub create-again :
    (dto dto' : CreateCheckpoint) (actor actor' : Actor) (now now' : ℕ) (k : String) (db db' : Db)
    → given dto.client_event_id ≡ some k
    → dto'.client_event_id ≡ dto.client_event_id
    → create dto actor now db ≡ ok db'
    → create dto' actor' now' db' ≡ ok db'
unfolding create
create-again dto dto' actor actor' now now' k db db' e same h =
    let known : is_known (some k) db' ≡ true = elim (Bool-cases (is_known (some k) db)) [
      | inl old ↦
          let reuse : create dto actor now db ≡ ok db = rw (e, old) refl in
          let kept : db ≡ db' = ok_inj db db' (sym reuse ∙ h) in
          ap (λ x. is_known (some k) x) (sym kept) ∙ old
      | inr new ↦
          let fresh : create dto actor now db ≡ write_checkpoint dto actor now db =
            rw (e, new) refl in
          let (c, batch, own, stored) =
            write_checkpoint-stores dto actor now db db' (sym fresh ∙ h) in
          stored-is_known dto actor now (trip_of dto actor db) c batch k db db'
            (given-some dto.client_event_id k e) stored
    ] in
    rw (same, e, known) refl
