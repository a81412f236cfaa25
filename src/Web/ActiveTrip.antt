-- ===== src/Web/ActiveTrip.antt =====
-- The trip of a driver's cistern that a page shows: `useActiveDriverTrip` in
-- apps/web/src/lib/use-active-driver-trip.ts. What runs between two waits is one step, and the answers to
-- the requests come in any order. A render and its effect are two steps.
use fuel_chain.Base.{
  ap, ◌∙◌, ◌≡◌, refl, subst, ℕ, suc, ◌==◌, String, Bool, true, false, Option, none, some, List, [],
  ◌∷◌, ◌++◌, map, find_first, remove_first, one_value, All, All-remove_first, All-find_first,
  All-append_row, if◌then◌else◌,
}
use fuel_chain.Schema.{DeliveryStatus, is_open}
use fuel_chain.Custody.Accept.{given}

pub record ActiveTrip : Type 0 where
  pub cistern_code : String
  pub qr_token : String
  pub station_code : String
  pub station_name : String
  pub batch_code : String
  pub status : DeliveryStatus
  pub deep_link_path : String

-- What the API answers of a cistern.
pub record ShownDelivery : Type 0 where
  pub status : DeliveryStatus
  pub batch_code : String
  pub station_code : String
  pub station_name : String

pub record ShownCistern : Type 0 where
  pub code : String
  pub qr_token : String
  pub deep_link_path : String
  pub delivery : Option ShownDelivery

-- `const open = …`
abbrev pub open_trip : ShownCistern → Option ActiveTrip
open_trip c = elim c.delivery [
  | none ↦ none
  | some d ↦
      if is_open d.status
      then some (record {
        cistern_code = c.code;
        qr_token = c.qr_token;
        station_code = d.station_code;
        station_name = d.station_name;
        batch_code = d.batch_code;
        status = d.status;
        deep_link_path = c.deep_link_path;
      })
      else none
]

-- A request that failed, in whatever way, has no answer.
abbrev pub trip_of : Option ShownCistern → Option ActiveTrip
trip_of none = none
trip_of (some c) = open_trip c

-- A request that is under way, with the variable `cancelled` of its effect.
pub record Fetch : Type 0 where
  pub number : ℕ
  pub code : String
  pub cancelled : Bool

-- `cistern` is that of the last render and `served` that of the last effect; an effect is due between a
-- render with another cistern and its effect.
pub record TripPage : Type 0 where
  pub cistern : Option String
  pub served : Option String
  pub due : Bool
  pub trip : Option ActiveTrip
  pub ready : Bool
  pub pending : List Fetch
  pub next : ℕ

abbrev pub nothing_shown : TripPage
nothing_shown = record {
  cistern = none;
  served = none;
  due = false;
  trip = none;
  ready = false;
  pending = [];
  next = 0;
}

-- The clean-up of the effects before.
abbrev pub cancel : Fetch → Fetch
cancel f = record f { cancelled = true }

abbrev pub is_number : ℕ → Fetch → Bool
is_number n f = f.number == n

abbrev pub new_fetch : String → TripPage → Fetch
new_fetch code s = record { number = s.next; code = code; cancelled = false }

-- The effect, for a cistern that is given or not.
abbrev pub begin_fetch : Option String → TripPage → TripPage
begin_fetch none s = record s { trip = none; ready = true }
begin_fetch (some code) s = record s {
  ready = false;
  pending = s.pending ++ new_fetch code s ∷ [];
  next = suc s.next;
}

-- What stands until then is the state of the effect before: the page that a render shows is that of the
-- cistern before.
unfoldable pub run_effect : TripPage → TripPage
run_effect s =
    if s.due
    then begin_fetch (given s.cistern)
        (record s { served = s.cistern; due = false; pending = map cancel s.pending })
    else s

-- A render for another cistern, or the first; an effect that is still due runs before it.
unfoldable pub changed : Option String → TripPage → TripPage
changed code s = record (run_effect s) { cistern = code; due = true }

abbrev pub settle : Fetch → Option ShownCistern → TripPage → TripPage
settle f reply s = if f.cancelled then s else record s { trip = trip_of reply; ready = true }

unfoldable pub replied : ℕ → Option ShownCistern → TripPage → TripPage
replied n reply s = elim (find_first (is_number n) s.pending) [
  | none ↦ s
  | some f ↦ settle f reply (record s { pending = remove_first (is_number n) s.pending })
]

module _ (told : String → Option ShownCistern → Bool) where
  -- The runs in which the answer to a request, or its failure, is one that `told` allows for the cistern
  -- that the request names.
  pub data Run : TripPage → Type 0 where
    begin : Run nothing_shown
    change : {s : TripPage} (code : Option String) → Run s → Run (changed code s)
    effect : {s : TripPage} → Run s → Run (run_effect s)
    reply :
        {s : TripPage} (n : ℕ) (answer : Option ShownCistern)
        → ((f : Fetch) → find_first (is_number n) s.pending ≡ some f → told f.code answer ≡ true)
        → Run s
        → Run (replied n answer s)

  -- What is shown of a cistern was answered for it.
  pub IsOf : String → Option ActiveTrip → Type 0
  IsOf code trip =
      (answer : Option ShownCistern) × (told code answer ≡ true) × (trip ≡ trip_of answer)

  Own : Option String → Fetch → Type 0
  Own cistern f = f.cancelled ≡ false → given cistern ≡ some f.code

  Answered : TripPage → Type 0
  Answered s = (code : String) → given s.served ≡ some code → s.ready ≡ true → IsOf code s.trip

  Sound : TripPage → Type 0
  Sound s = All (Own s.served) s.pending × Answered s × (s.due ≡ false → s.served ≡ s.cistern)

  cancelled-Own : (cistern : Option String) (fs : List Fetch) → All (Own cistern) (map cancel fs)
  unfolding Own
  cancelled-Own cistern [] = tt
  cancelled-Own cistern (f ∷ fs) = (λ h. absurd (cc), cancelled-Own cistern fs)

  begin_fetch-Sound :
      (o : Option String) (s : TripPage)
      → given s.served ≡ o
      → s.served ≡ s.cistern
      → All (Own s.served) s.pending
      → Sound (begin_fetch o s)
  unfolding Sound Answered Own
  begin_fetch-Sound none s e at own = (own, λ code h r. absurd (cc), λ d. at)
  begin_fetch-Sound (some code) s e at own = (
    All-append_row (Own s.served) s.pending (new_fetch code s) own (λ h. e),
    λ c h r. absurd (cc),
    λ d. at,
  )

  run_effect-Sound : (s : TripPage) → Sound s → Sound (run_effect s)
  unfolding run_effect
  run_effect-Sound s w = by_due s.due
    where
      started : TripPage
      started = record s { served = s.cistern; due = false; pending = map cancel s.pending }

      by_due : (b : Bool) → Sound (if b then begin_fetch (given s.cistern) started else s)
      by_due false = w
      by_due true =
          begin_fetch-Sound (given s.cistern) started refl refl (cancelled-Own s.cistern s.pending)

  changed-Sound : (code : Option String) (s : TripPage) → Sound s → Sound (changed code s)
  unfolding changed Sound Answered
  changed-Sound code s w =
      let (own, answered, at) = run_effect-Sound s w in (own, answered, λ d. absurd (cc))

  settle-Sound :
      (f : Fetch) (answer : Option ShownCistern) (s : TripPage)
      → told f.code answer ≡ true
      → Own s.served f
      → Sound s
      → Sound (settle f answer s)
  unfolding Sound Answered Own IsOf
  settle-Sound f answer s truly own (all, answered, at) = by_flag f.cancelled own
    where
      by_flag :
          (b : Bool)
          → (b ≡ false → given s.served ≡ some f.code)
          → Sound (if b then s else record s { trip = trip_of answer; ready = true })
      by_flag true o = (all, answered, at)
      by_flag false o = (
        all,
        λ code h r. (
          answer,
          subst (λ (c : String). told c answer ≡ true)
              (one_value (given s.served) f.code code (o refl) h) truly,
          refl,
        ),
        at,
      )

  replied-Sound :
      (n : ℕ) (answer : Option ShownCistern) (s : TripPage)
      → ((f : Fetch) → find_first (is_number n) s.pending ≡ some f → told f.code answer ≡ true)
      → Sound s
      → Sound (replied n answer s)
  unfolding replied Sound Answered
  replied-Sound n answer s truly (all, answered, at) =
      by_fetch (find_first (is_number n) s.pending) refl
    where
      less : TripPage
      less = record s { pending = remove_first (is_number n) s.pending }

      by_fetch :
          (o : Option Fetch)
          → find_first (is_number n) s.pending ≡ o
          → Sound (elim o [ none ↦ s | some f ↦ settle f answer less ])
      by_fetch none e = (all, answered, at)
      by_fetch (some f) e =
          settle-Sound f answer less (truly f e)
            (All-find_first (Own s.served) (is_number n) s.pending f all e)
            (All-remove_first (Own s.served) (is_number n) s.pending all, answered, at)

  Run-Sound : {s : TripPage} → Run s → Sound s
  unfolding Sound Answered
  Run-Sound begin = (tt, λ code h r. absurd (cc), λ d. refl)
  Run-Sound (change code r) = changed-Sound code _ (Run-Sound r)
  Run-Sound (effect r) = run_effect-Sound _ (Run-Sound r)
  Run-Sound (reply n answer truly r) = replied-Sound n answer _ truly (Run-Sound r)

-- In every run, whatever the order of the answers: where no effect is due, what a page that is ready shows of
-- a cistern that is given is the trip in an answer for that very cistern (or none, where the answer has no
-- open trip or the request failed), never that of a cistern shown before.
pub Run-IsOf :
    (told : String → Option ShownCistern → Bool) (s : TripPage) (code : String)
    → Run told s
    → s.due ≡ false
    → given s.cistern ≡ some code
    → s.ready ≡ true
    → IsOf told code s.trip
unfolding Sound Answered
Run-IsOf told s code r calm named ready =
    let (own, answered, at) = Run-Sound told r in answered code (ap given (at calm) ∙ named) ready
