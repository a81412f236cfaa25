-- ===== src/Journey/Parse.antt =====
-- The samples of a route as a device sends them: `parseJourneyTrail` of
-- apps/api/src/common/journey-trail.ts. What JavaScript makes of a value that is no number or of a
-- text that names a time are parameters. Labels, notes and the accuracy are left out; of a coordinate
-- only whether it is a number is read.
use fuel_chain.Base.{
  ℕ, String, Bool, true, false, not, ◌&&◌, Option, none, some, List, [], ◌∷◌, str_eq, get_or,
}
use fuel_chain.Base.Int.{ℤ, pos, leb_ℤ}
use fuel_chain.Base.Number.{Number, finite, nan, finite?}
use fuel_chain.Custody.Payload.{Payload, Value, text, num, flag, null, samples, field}

-- `Number(value)` of a text, a Boolean or an array; `new Date(text)` and `new Date(seconds * 1000)` in
-- milliseconds; a number written in decimal; a key as a
-- text.
pub record Platform : Type 0 where
  pub number_of : Value → Number
  pub time_of : String → ℕ
  pub time_of_sec : ℤ → ℕ
  pub decimal : ℕ → String
  pub key_text : ℕ → String

pub record JourneySample : Type 0 where
  pub client_event_id : Option String
  pub kind : String
  pub volume_liters : ℤ
  pub density : Option ℤ
  pub temperature : Option ℤ
  pub water : Bool
  pub captured_at : Option ℕ

-- An item of the array: an object, or anything else.
pub data Item : Type 0 where
  object : Payload → Item
  other : Item

-- `value ?? other`, where `none` is `undefined`
abbrev or_null : Option Value → Option Value → Option Value
or_null none v = v
or_null (some null) v = v
or_null u v = u

-- `Number(value)`
abbrev pub to_number : Platform → Option Value → Number
to_number w none = nan
to_number w (some null) = finite (pos 0)
to_number w (some (num z)) = finite z
to_number w (some v) = w.number_of v

-- `value != null && Number.isFinite(Number(value)) ? Number(value) : undefined`
abbrev number_if_finite : Platform → Option Value → Option ℤ
number_if_finite w none = none
number_if_finite w (some null) = none
number_if_finite w v = finite? (to_number w v)

-- `Boolean(value)`
abbrev truthy : Option Value → Bool
truthy none = false
truthy (some null) = false
truthy (some (flag b)) = b
truthy (some (num z)) = not (leb_ℤ z (pos 0) && leb_ℤ (pos 0) z)
truthy (some (text s)) = not (str_eq s "")
truthy (some (samples l)) = true

abbrev text_field : Option Value → Option String
text_field (some (text s)) = some s
text_field _ = none

abbrev captured : Platform → Option Value → Option Value → Option ℕ
captured w (some (text s)) ts = some (w.time_of s)
captured w at (some (num z)) = some (w.time_of_sec z)
captured w at ts = none

abbrev sample_of : Platform → Payload → ℤ → JourneySample
sample_of w row volume = record {
  client_event_id = text_field (field "clientEventId" row);
  kind = get_or (text_field (field "kind" row)) "ROUTE_WAYPOINT";
  volume_liters = volume;
  density = number_if_finite w (field "density" row);
  temperature = number_if_finite w (field "temperature" row);
  water = truthy (or_null (field "waterDetected" row) (field "water" row));
  captured_at = captured w (field "capturedAt" row) (field "ts" row);
}

-- A row counts where its volume and both coordinates are finite numbers.
abbrev parsed : Platform → Payload → Option ℤ → Option ℤ → Option ℤ → Option JourneySample
parsed w row (some volume) (some latitude) (some longitude) = some (sample_of w row volume)
parsed w row _ _ _ = none

abbrev pub parse_item : Platform → Item → Option JourneySample
parse_item w other = none
parse_item w (object row) =
    parsed w row (finite? (to_number w (or_null (field "volumeLiters" row) (field "vol" row))))
      (finite? (to_number w (or_null (field "latitude" row) (field "lat" row))))
      (finite? (to_number w (or_null (field "longitude" row) (field "lng" row))))

abbrev with_parsed : Option JourneySample → List JourneySample → List JourneySample
with_parsed none rest = rest
with_parsed (some s) rest = s ∷ rest

abbrev pub parse_items : Platform → List Item → List JourneySample
parse_items w [] = []
parse_items w (i ∷ items) = with_parsed (parse_item w i) (parse_items w items)

-- `none` where the input is no array.
unfoldable pub parse_journey_trail : Platform → Option (List Item) → List JourneySample
parse_journey_trail w none = []
parse_journey_trail w (some items) = parse_items w items
