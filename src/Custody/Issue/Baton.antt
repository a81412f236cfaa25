-- ===== src/Custody/Issue/Baton.antt =====
-- The route samples and the signed payload that `issue` of custody-qr.service.ts gives a baton, with
-- `compactTrailForQr` of apps/api/src/common/journey-trail.ts. Labels, notes and coordinates are
-- left out; volumes, densities and temperatures are on the grid of their columns, so that rounding
-- to 3, 4 and 2 places changes nothing.
use fuel_chain.Base.{ℕ, suc, ◌+◌, ◌*◌, ◌/◌, String, Bool, false, Option, none, some, List, [], ◌∷◌}
use fuel_chain.Base.Int.{ℤ, pos, ◌+ℤ◌, ◌-ℤ◌}
use fuel_chain.Schema.{
  ActorRole, admin, importer, transporter, depot_operator, lab, auditor, station_staff, verifier,
  citizen,
}
use fuel_chain.Store.{Actor, CheckpointKind, load_departure, route_waypoint, arrival_station}
use fuel_chain.Custody.Payload.{
  Payload, Config, Value, Sample, text, num, flag, null, samples, baton_ttl_sec, seal,
}
use fuel_chain.Custody.Issue.{IssueInput, Plan, load_density_of, load_temperature_of}
use Prim.Native.String.{◌++◌}

-- What the server draws for a baton: the token, the nonce and the time.
pub record Draw : Type 0 where
  pub token : String
  pub nonce : String
  pub now : ℕ

-- A sample of the route as it is planned.
pub record TrailSample : Type 0 where
  pub client_event_id : String
  pub kind : CheckpointKind
  pub volume_liters : ℤ
  pub density : ℤ
  pub temperature : ℤ
  pub water : Bool
  pub captured_at : ℕ

abbrev pub hour : ℕ
hour = 3600000

-- The departure, and two samples of a simulated route: 1 L and 3 L less, after two and five hours.
unfoldable pub trail_plan : IssueInput → Draw → List TrailSample
trail_plan input draw =
    record {
      client_event_id = draw.token ++ "-load";
      kind = load_departure;
      volume_liters = input.volume_liters;
      density = load_density_of input;
      temperature = load_temperature_of input;
      water = input.load_water;
      captured_at = draw.now;
    }
    ∷ record {
      client_event_id = draw.token ++ "-wp1";
      kind = route_waypoint;
      volume_liters = input.volume_liters -ℤ pos 1000;
      density = load_density_of input;
      temperature = load_temperature_of input +ℤ pos 30;
      water = false;
      captured_at = draw.now + 2 * hour;
    }
    ∷ record {
      client_event_id = draw.token ++ "-wp2";
      kind = route_waypoint;
      volume_liters = input.volume_liters -ℤ pos 3000;
      density = load_density_of input -ℤ pos 20;
      temperature = load_temperature_of input +ℤ pos 110;
      water = false;
      captured_at = draw.now + 5 * hour;
    }
    ∷ []

abbrev kind_text : CheckpointKind → String
kind_text load_departure = "LOAD_DEPARTURE"
kind_text route_waypoint = "ROUTE_WAYPOINT"
kind_text arrival_station = "ARRIVAL_STATION"

unfoldable pub compact_from : ℕ → List TrailSample → List Sample
compact_from i [] = []
compact_from i (s ∷ trail) =
    record {
      index = i;
      kind = kind_text s.kind;
      volume_liters = s.volume_liters;
      density = some s.density;
      temperature = some s.temperature;
      water = s.water;
      captured_at_sec = s.captured_at / 1000;
      client_event_id = some s.client_event_id;
    }
    ∷ compact_from (suc i) trail

unfoldable pub compact_trail_for_qr : List TrailSample → List Sample
unfolding compact_from
compact_trail_for_qr trail = compact_from 0 trail

abbrev pub role_text : ActorRole → String
role_text admin = "ADMIN"
role_text importer = "IMPORTER"
role_text transporter = "TRANSPORTER"
role_text depot_operator = "DEPOT_OPERATOR"
role_text lab = "LAB"
role_text auditor = "AUDITOR"
role_text station_staff = "STATION_STAFF"
role_text verifier = "VERIFIER"
role_text citizen = "CITIZEN"

-- Seconds since the epoch, and when the baton expires: 72 hours later.
abbrev pub issued_sec : Draw → ℕ
issued_sec draw = draw.now / 1000

abbrev pub expires_sec : Draw → ℕ
expires_sec draw = issued_sec draw + baton_ttl_sec

abbrev text_or_null : Option String → Value
text_or_null none = null
text_or_null (some s) = text s

unfoldable pub core_of : Config → IssueInput → Actor → Draw → Plan → Payload
core_of c input actor draw plan =
    ("v", num (pos 2))
    ∷ ("t", text "baton")
    ∷ ("id", text draw.token)
    ∷ ("batch", text plan.batch.batch_code)
    ∷ ("cistern", text plan.cistern.code)
    ∷ ("station", text_or_null input.station_code)
    ∷ ("vol", num input.volume_liters)
    ∷ ("dens", num (load_density_of input))
    ∷ ("temp", num (load_temperature_of input))
    ∷ ("water", flag input.load_water)
    ∷ ("ev", text input.event_type)
    ∷ ("ts", num (pos (issued_sec draw)))
    ∷ ("exp", num (pos (expires_sec draw)))
    ∷ ("n", text draw.nonce)
    ∷ ("iss", text (c.key_text actor.id))
    ∷ ("role", text (role_text actor.role))
    ∷ ("ph", text_or_null input.previous_hash)
    ∷ ("city", text "Cochabamba")
    ∷ ("label", text "DEMO")
    ∷ ("trail", samples (compact_trail_for_qr (trail_plan input draw)))
    ∷ []

-- `{ ...core, h, s }`
unfoldable pub payload_of : Config → IssueInput → Actor → Draw → Plan → Payload
unfolding core_of
payload_of c input actor draw plan = seal c (core_of c input actor draw plan)
