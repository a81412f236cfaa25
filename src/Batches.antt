-- ===== src/Batches.antt =====
-- The batches and their record of custody: apps/api/src/batches/batches.service.ts (create, update,
-- remove, findBatchOrThrow), apps/api/src/common/batch-code.ts and `create` of
-- apps/api/src/custody/custody.service.ts. Products, places, notes and risk are left out.
pub mod Keys
pub mod Moves
pub mod Steps
pub mod Pages
use fuel_chain.Base.{
  ℕ, zero, suc, ◌-◌, ◌+◌, ◌≡◌, refl, String, Bool, true, false, not, ◌&&◌, ◌||◌, Option, none, some,
  List, [], ◌∷◌, ◌==◌, str_eq, get_or, is_some, if◌then◌else◌, find_first, filter, count_where,
  Result, ok, err, refuse_if, or_throw, rethrow, ◌>>=◌, ◌>>◌,
}
use fuel_chain.Base.Text.{trim, starts_with}
use fuel_chain.Base.Int.{ℤ, pos}
use fuel_chain.Schema.{Exception, batch_not_found, batch_code_taken, reception_refused}
use fuel_chain.BatchStatus
use fuel_chain.BatchStatus.{BatchStatus, assert_can_transition, can_receive_batch}
use fuel_chain.Movement
use fuel_chain.Movement.{CustodyEventType}
use fuel_chain.Store.{Db, Actor, Batch, CustodyEvent, update_batch, append}
use fuel_chain.Custody.Payload.{Config}
use fuel_chain.Custody.Accept.{given}
use Prim.Native.String.{◌++◌}

-- As many zeros before a text: `padStart(6, '0')` puts the missing ones.
unfoldable pub zeros : ℕ → String → String
zeros zero s = s
zeros (suc n) s = "0" ++ zeros n s

unfoldable pub size : String → ℕ
size String.[] = 0
size (String.◌∷◌ c s) = suc (size s)

abbrev has_prefix : String → Batch → Bool
has_prefix prefix b = starts_with prefix b.batch_code

-- The number of the codes of a year, and one. `decimal` writes a number.
unfoldable pub generate_batch_code : (ℕ → String) → ℕ → Db → String
generate_batch_code decimal year db =
    let prefix = "FC-BO-" ++ decimal year ++ "-" in
    let seq = decimal (suc (count_where (has_prefix prefix) db.batches)) in
    prefix ++ zeros (6 - size seq) seq

pub record CreateBatch : Type 0 where
  pub batch_code : Option String
  pub declared_volume : ℤ
  pub status : Option BatchStatus

abbrev trimmed : Option String → Option String
trimmed none = none
trimmed (some s) = some (trim s)

abbrev pub code_of : (ℕ → String) → CreateBatch → ℕ → Db → String
code_of decimal dto year db =
    get_or (given (trimmed dto.batch_code)) (generate_batch_code decimal year db)

abbrev pub new_batch : ℕ → String → CreateBatch → Batch
new_batch key code dto = record {
  id = key;
  batch_code = code;
  declared_volume = dto.declared_volume;
  delivered_liters = pos 0;
  status = get_or dto.status BatchStatus.draft;
}

abbrev created_event : ℕ → CreateBatch → CustodyEvent
created_event key dto = record {
  batch_id = key;
  event_type = CustodyEventType.created;
  actor_id = none;
  declared_volume = some dto.declared_volume;
  measured_volume = none;
  baton_token = none;
  delivery_id = none;
}

unfoldable pub create : (ℕ → String) → CreateBatch → ℕ → Db → Result Exception Db
create decimal dto year db =
    let code = code_of decimal dto year db in
    if is_some (find_first (λ (b : Batch). str_eq b.batch_code code) db.batches)
    then err batch_code_taken
    else ok (record db {
      batches = append (new_batch db.next_id code dto) db.batches;
      events = append (created_event db.next_id dto) db.events;
      next_id = suc db.next_id;
    })

unfoldable pub find_batch_or_throw : Config → String → Db → Result Exception Batch
find_batch_or_throw c key db =
    or_throw
      (find_first (λ (b : Batch). str_eq (c.key_text b.id) key || str_eq b.batch_code key)
        db.batches)
      batch_not_found

pub record UpdateBatch : Type 0 where
  pub declared_volume : Option ℤ
  pub status : Option BatchStatus

abbrev pub check_move : BatchStatus → Option BatchStatus → Result Exception (Unit {0})
check_move from none = ok tt
check_move from (some to) = rethrow (assert_can_transition from to)

abbrev pub updated_batch : UpdateBatch → Batch → Batch
updated_batch dto b = record b {
  declared_volume = get_or dto.declared_volume b.declared_volume;
  status = get_or dto.status b.status;
}

unfoldable pub update : Config → String → UpdateBatch → Db → Result Exception Db
update c key dto db = do
  b ← find_batch_or_throw c key db
  check_move b.status dto.status
  ok (record db { batches = update_batch b.id (updated_batch dto) db.batches })

unfoldable pub remove : Config → String → Db → Result Exception Db
remove c key db = do
  b ← find_batch_or_throw c key db
  ok (record db { batches = filter (λ (r : Batch). not (r.id == b.id)) db.batches })

-- `EVENT_TO_STATUS`
unfoldable pub event_to_status : CustodyEventType → Option BatchStatus
event_to_status CustodyEventType.in_transit = some BatchStatus.in_transit
event_to_status CustodyEventType.entered_country = some BatchStatus.at_border
event_to_status CustodyEventType.customs = some BatchStatus.customs
event_to_status CustodyEventType.received = some BatchStatus.received
event_to_status CustodyEventType.sampled = some BatchStatus.sampling
event_to_status CustodyEventType.lab_analysis = some BatchStatus.lab_analysis
event_to_status CustodyEventType.certified = some BatchStatus.certified
event_to_status CustodyEventType.stored = some BatchStatus.stored
event_to_status CustodyEventType.dispatched = some BatchStatus.distributing
event_to_status CustodyEventType.delivered = some BatchStatus.delivered
event_to_status _ = none

pub record CreateEvent : Type 0 where
  pub event_type : CustodyEventType
  pub declared_volume : Option ℤ
  pub measured_volume : Option ℤ

abbrev custody_event : CreateEvent → Actor → ℕ → CustodyEvent
custody_event dto actor batch = record {
  batch_id = batch;
  event_type = dto.event_type;
  actor_id = some actor.id;
  declared_volume = dto.declared_volume;
  measured_volume = dto.measured_volume;
  baton_token = none;
  delivery_id = none;
}

abbrev pub with_status : Option BatchStatus → Batch → Batch
with_status next b = record b { status = get_or next b.status }

-- `CustodyService.create`, up to the follow-up of a reception. The metadata of the request, any JSON,
-- is left out.
unfoldable pub create_event : Config → String → CreateEvent → Actor → Db → Result Exception Db
create_event c key dto actor db = do
  b ← find_batch_or_throw c key db
  refuse_if (Movement.is_received dto.event_type && not (can_receive_batch b.status))
      reception_refused
  check_move b.status (event_to_status dto.event_type)
  ok (record db {
    events = append (custody_event dto actor b.id) db.events;
    batches = update_batch b.id (with_status (event_to_status dto.event_type)) db.batches;
  })
