-- ===== src/Examples/Pages.antt =====
-- The web application at concrete sessions and wallets.
use fuel_chain.Base.{
  eq_iff, ◌⊎◌, ◌≡◌, refl, Bool, true, false, String, Option, none, some, [], subst, one_value, ◌∷◌,
  arith, str_eq, if◌then◌else◌,
}
use package.text.Mathlib.TextPositions.{eq_refl}
use fuel_chain.Schema.{station_staff, transporter, DeliveryStatus}
use fuel_chain.Web.Gate.{
  AuthState, redirect, screen, page, after_login, redirect-settled, redirect-rests,
}
use fuel_chain.Base.Text.{starts_with}
use fuel_chain.Web.Roles.{can_access_path, home_for_role}
use fuel_chain.Web.ActiveTrip.{
  effect, Fetch, TripPage, ShownCistern, open_trip, nothing_shown, changed, run_effect, replied,
  Run, begin, change, reply, IsOf, Run-IsOf,
}
use fuel_chain.Web.Membership.{
  Membership, check_of, initial, step, accounts_changed, answered, valid_key, Quiet, other, checked,
  Quiet-has_key,
}

abbrev staff_session : AuthState
staff_session = record {
  session = some (record { token = "t"; role = some station_staff });
  ready = true;
  stored = none;
}

abbrev holds_key : String → Bool
holds_key w = str_eq w "0xa"

abbrev lower_case : String → String
lower_case s = if str_eq s "0xA" then "0xa" else s

abbrev asked : Membership
asked = step lower_case true (accounts_changed ("0xA" ∷ [])) initial

abbrev told : Membership
told = step lower_case true (answered (check_of false "0xa") (valid_key true)) asked

told_key : (told.has_key ≡ true) × (told.address ≡ some "0xa") × (told.pending ≡ [])
unfolding step
told_key = (refl, refl, refl)

-- The answer to a check that a later account has overtaken.
abbrev overtaken : (String → String) → String → String → Membership
overtaken lower a b =
    let asked =
      step lower true (accounts_changed (b ∷ []))
        (step lower true (accounts_changed (a ∷ [])) initial) in
    let later = step lower true (answered (check_of false (lower b)) (valid_key false)) asked in
    step lower true (answered (check_of false (lower a)) (valid_key true)) later

-- Two accounts in a row: the answers come in the other order, and the second account is said to have the
-- key of the first.
overtaken_key :
    ((overtaken lower_case "0xA" "0xb").has_key ≡ true)
    × ((overtaken lower_case "0xA" "0xb").address ≡ some "0xb")
    × ((overtaken lower_case "0xA" "0xb").pending ≡ [])
    × (holds_key "0xb" ≡ false)
unfolding step
overtaken_key = (refl, refl, refl, refl)

Quiet-has_key_example : holds_key "0xa" ≡ true
unfolding step
Quiet-has_key_example =
    Quiet-has_key lower_case true holds_key told "0xa"
      (checked (check_of false "0xa") (other (accounts_changed ("0xA" ∷ [])) Quiet.begin refl)) refl
      refl refl

redirect-settled_example :
    (redirect (λ s. s) staff_session "/estacion" "" none ≡ none)
    × (screen staff_session "/estacion" ≡ page)
unfolding redirect can_access_path starts_with home_for_role
redirect-settled_example =
    redirect-settled (λ s. s) (λ s. s) station_staff "t" "/batches" "" "/estacion" none none refl
      refl

abbrev driver_session : AuthState
driver_session = record {
  session = some (record { token = "t"; role = some transporter });
  ready = true;
  stored = none;
}

-- The browser takes the dot segment out of this path.
abbrev landed : String → String
landed s = if str_eq s "/tramos/../audits" then "/audits" else s

-- The login lets a driver go to a text whose path leads to a page of others; the gate sends the driver home.
sent_home :
    ((redirect (λ s. s) driver_session "/audits" "" none ≡ none)
      × (screen driver_session "/audits" ≡ page))
    ⊎ ((redirect (λ s. s) driver_session "/audits" "" none ≡ some "/verify")
        × (redirect (λ s. s) driver_session "/verify" "" none ≡ none)
        × (screen driver_session "/verify" ≡ page))
unfolding redirect can_access_path starts_with home_for_role after_login
    fuel_chain.Web.Paths.safe_internal_path
sent_home =
    redirect-rests (λ s. s) landed transporter "t" "/login" "" "" "/tramos/../audits"
      (some "/tramos/../audits") none none refl refl
      (λ e. ground (arith, (eq_iff "/audits" "/login").1 e))

-- The page that asked for the login has a query: its path is open to the role, the whole text is not.
next_with_query :
    (can_access_path (some transporter) "/tramos" ≡ true)
    × (after_login (some transporter) (some "/tramos") ≡ "/tramos")
    × (after_login (some transporter) (some "/tramos?cistern=2") ≡ home_for_role (some transporter))
unfolding after_login can_access_path starts_with home_for_role
    fuel_chain.Web.Paths.safe_internal_path
next_with_query = (ground arith, ground arith, ground arith)

abbrev asked_cistern : String → ShownCistern
asked_cistern code = record {
  code = code;
  qr_token = "qr";
  deep_link_path = "/c/qr";
  delivery = some (record {
    status = DeliveryStatus.in_transit;
    batch_code = "B-1";
    station_code = "ST-CBB-01";
    station_name = "Cala Cala";
  });
}

abbrev names_it : String → Option ShownCistern → Bool
names_it code none = true
names_it code (some c) = str_eq c.code code

-- The page turns from one cistern to another, and the answer for the first comes last.
abbrev turned : TripPage
turned = run_effect (changed (some "C-2") (changed (some "C-1") nothing_shown))

abbrev late : TripPage
late = replied 0 (some (asked_cistern "C-1")) (replied 1 (some (asked_cistern "C-2")) turned)

-- The request that was found is the one that was sent.
truly :
    (o : Option Fetch) (sent f : Fetch)
    → o ≡ some sent
    → o ≡ some f
    → names_it f.code (some (asked_cistern sent.code)) ≡ true
truly o sent f h k =
    subst (λ (g : Fetch). names_it g.code (some (asked_cistern sent.code)) ≡ true)
      (one_value o sent f h k) (eq_refl sent.code)

late-Run : Run names_it late
unfolding changed run_effect replied
late-Run =
    reply 0 (some (asked_cistern "C-1"))
      (λ f e. truly _ (record { number = 0; code = "C-1"; cancelled = true }) f refl e)
      (reply 1 (some (asked_cistern "C-2"))
        (λ f e. truly _ (record { number = 1; code = "C-2"; cancelled = false }) f refl e)
        (effect (change (some "C-2") (change (some "C-1") begin))))

late_trip :
    (late.ready ≡ true) × (late.pending ≡ []) × (late.trip ≡ open_trip (asked_cistern "C-2"))
unfolding changed run_effect replied
late_trip = (refl, refl, refl)

Run-IsOf_example : IsOf names_it "C-2" late.trip
unfolding changed run_effect replied
Run-IsOf_example = Run-IsOf names_it late "C-2" late-Run refl refl refl

-- The page turns to another cistern after an answer: until the effect has run, it shows the trip of the
-- cistern before, and is ready.
abbrev turning : TripPage
turning =
    changed (some "C-2")
      (replied 0 (some (asked_cistern "C-1")) (run_effect (changed (some "C-1") nothing_shown)))

turning_trip :
    (turning.cistern ≡ some "C-2")
    × (turning.ready ≡ true)
    × (turning.trip ≡ open_trip (asked_cistern "C-1"))
unfolding changed run_effect replied
turning_trip = (refl, refl, refl)
