-- ===== src/Stations.antt =====
-- What a station shows of the quality of its fuel, and who acknowledges a delivery contract:
-- apps/api/src/stations/station-quality.ts and `ackContract` of
-- apps/api/src/stations/stations.service.ts. Labels and summaries, which are only shown, are left out.
pub mod Level
pub mod Panel
pub mod Listed
use fuel_chain.Base.{
  ℕ, ◌≡◌, ◌⊎◌, String, Bool, true, false, not, ◌||◌, Option, none, some, List, ◌==◌, str_eq, get_or,
  is_some, if◌then◌else◌, find_first, update_where, Result, ok, err, ◌>>=◌, ◌>>◌, refuse_if,
  or_throw, arith,
}
use fuel_chain.Base.Int.{pos, ltb_ℤ}
use fuel_chain.Base.Number.{Number, finite, infinity, neg_infinity, nan}
use fuel_chain.Schema.{
  admin, station_staff, transporter, depot_operator, same_role, Exception, contract_refused,
}
use fuel_chain.Store.{Actor}
use fuel_chain.Custody.Accept.{given}

pub data QualityTone : Type 0 where
  good alert rejected no_data : QualityTone

-- The densities are 1/10000: 0.72 and 0.78.
pub record Input : Type 0 where
  pub water_detected : Option Bool
  pub density : Option Number
  pub temperature : Option Number
  pub batch_quality_status : Option String
  pub certificate_status : Option String
  pub lab_result : Option String

pub record QualityAssessment : Type 0 where
  pub tone : QualityTone
  pub water_detected : Bool
  pub density : Option Number
  pub temperature : Option Number

-- `value != null && !Number.isNaN(value) ? value : null`
abbrev pub number_or_null : Option Number → Option Number
number_or_null (some nan) = none
number_or_null o = o

abbrev pub is_text : Option String → String → Bool
is_text none s = false
is_text (some t) s = str_eq t s

abbrev pub is_out_of_range : Option Number → Bool
is_out_of_range none = false
is_out_of_range (some (finite d)) = ltb_ℤ d (pos 7200) || ltb_ℤ (pos 7800) d
is_out_of_range (some infinity) = true
is_out_of_range (some neg_infinity) = true
is_out_of_range (some nan) = false

abbrev pub is_rejected : Input → Bool
is_rejected i = is_text i.batch_quality_status "REJECTED" || is_text i.lab_result "FAIL"

abbrev pub is_certified : Input → Bool
is_certified i =
    is_text i.batch_quality_status "CERTIFIED"
    || (is_text i.batch_quality_status "DEMO"
        || (is_text i.certificate_status "VALID"
            || (is_text i.certificate_status "DEMO"
                || (is_text i.lab_result "PASS" || is_text i.lab_result "PASS (DEMO)"))))

-- `density != null || temperature != null`
abbrev pub is_measured : Input → Bool
is_measured i = is_some (number_or_null i.density) || is_some (number_or_null i.temperature)

abbrev pub tone_of : Bool → Bool → Bool → Bool → Bool → QualityTone
tone_of negative wet out certified measured =
    if negative
    then rejected
    else (if wet
        then alert
        else (if out
            then alert
            else (if certified then good else (if measured then good else no_data))))

unfoldable pub assess_station_quality : Input → QualityAssessment
assess_station_quality i = record {
  tone =
      tone_of (is_rejected i) (get_or i.water_detected false)
        (is_out_of_range (number_or_null i.density)) (is_certified i) (is_measured i);
  water_detected = get_or i.water_detected false;
  density = number_or_null i.density;
  temperature = number_or_null i.temperature;
}

-- A delivery with the rows that a contract reads: its station, and the driver and code of its cistern.
pub record Contract : Type 0 where
  pub delivery_id : ℕ
  pub destination_station_id : ℕ
  pub driver_id : Option ℕ
  pub cistern_code : String
  pub station_ack_at : Option ℕ
  pub driver_ack_at : Option ℕ

abbrev pub is_station : Actor → Contract → Bool
is_station user c = elim user.station_id [ none ↦ false | some k ↦ c.destination_station_id == k ]

abbrev pub owns : Actor → Contract → Bool
owns user c =
    elim c.driver_id [ none ↦ false | some k ↦ k == user.id ]
    || elim (given user.cistern_code) [ none ↦ false | some code ↦ str_eq c.cistern_code code ]

abbrev pub is_driver : Actor → Bool
is_driver user = same_role user.role transporter || same_role user.role depot_operator

-- What the role of the user lets it write, and when; an administrator keeps what stands there.
unfoldable pub acknowledged : Actor → ℕ → Contract → Result Exception Contract
acknowledged user now c =
    if same_role user.role station_staff
    then (refuse_if (not (is_station user c)) contract_refused
        >> ok (record c { station_ack_at = some now }))
    else (if is_driver user
        then (refuse_if (not (owns user c)) contract_refused
            >> ok (record c { driver_ack_at = some now }))
        else (if same_role user.role admin
            then ok (record c {
              station_ack_at = some (get_or c.station_ack_at now);
              driver_ack_at = some (get_or c.driver_ack_at now);
            })
            else err contract_refused))

unfoldable pub ack_contract : ℕ → Actor → ℕ → List Contract → Result Exception (List Contract)
ack_contract k user now contracts = do
  c ← or_throw (find_first (λ (c : Contract). c.delivery_id == k) contracts) contract_refused
  acked ← acknowledged user now c
  ok (
      update_where (λ (r : Contract). r.delivery_id == k)
        (λ (r : Contract). record r {
          station_ack_at = acked.station_ack_at;
          driver_ack_at = acked.driver_ack_at;
        })
        contracts)

-- A station shows its fuel as good exactly where the batch was not rejected, no analysis failed, no water
-- was detected, the density is missing or between 0.72 and 0.78, and there is a certificate, an
-- analysis or a measurement.
pub assess_station_quality-good :
    (i : Input)
    → ((assess_station_quality i).tone ≡ good
        → (is_rejected i ≡ false)
          × (get_or i.water_detected false ≡ false)
          × (is_out_of_range (number_or_null i.density) ≡ false)
          × ((is_certified i || is_measured i) ≡ true))
      × ((is_rejected i ≡ false)
          → (get_or i.water_detected false ≡ false)
          → (is_out_of_range (number_or_null i.density) ≡ false)
          → ((is_certified i || is_measured i) ≡ true)
          → (assess_station_quality i).tone ≡ good)
unfolding assess_station_quality
assess_station_quality-good i =
    by_tests (is_rejected i) (get_or i.water_detected false)
      (is_out_of_range (number_or_null i.density)) (is_certified i) (is_measured i)
  where
    by_tests :
        (a b c d e : Bool)
        → (tone_of a b c d e ≡ good → (a ≡ false) × (b ≡ false) × (c ≡ false) × ((d || e) ≡ true))
          × (a ≡ false → b ≡ false → c ≡ false → (d || e) ≡ true → tone_of a b c d e ≡ good)
    by_tests a b c d e = (λ h. ground (arith, h), λ p q r s. ground (arith, p, q, r, s))

-- An acknowledgment that is accepted writes the time of the station only for the staff of the station
-- that the delivery goes to, or for an administrator, and the time of the driver only for the
-- driver or the operator of the cistern, or for an administrator, who replaces no time.
pub acknowledged-own :
    (user : Actor) (now : ℕ) (c c' : Contract)
    → acknowledged user now c ≡ ok c'
    → ((c'.station_ack_at ≡ c.station_ack_at)
        ⊎ (is_station user c ≡ true)
        ⊎ ((user.role ≡ admin) × (c.station_ack_at ≡ none)))
      × ((c'.driver_ack_at ≡ c.driver_ack_at)
          ⊎ (owns user c ≡ true)
          ⊎ ((user.role ≡ admin) × (c.driver_ack_at ≡ none)))
unfolding acknowledged
acknowledged-own user now c c' h = ground (arith, h)
