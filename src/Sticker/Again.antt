-- ===== src/Sticker/Again.antt =====
-- A scan that is repeated: what it uploads is in the database once.
use fuel_chain.Base.{
  ℕ, ◌≡◌, refl, sym, ap, subst, ◌∙◌, String, true, Option, none, some, List, [], ◌∷◌, ◌==◌, ==_iff,
  is_some, if◌then◌else◌, find_first, map_row, find-append_row, find-append_new, find-update_where,
  ok, arith, All, Option-cases, Bool-cases, inl, inr,
}
use package.text.Mathlib.TextPositions.{eq_refl}
use fuel_chain.Base.Int.{ℤ}
use fuel_chain.Store.{Db, Actor, Cistern, Delivery, Checkpoint, update_cistern}
use fuel_chain.Journey.Parse.{Platform, JourneySample}
use fuel_chain.Sticker.{
  resolve_cistern, is_keyed, active_delivery, preferred, demo_trail, Scan, event_id, checkpoint_of,
  has_event, ingest_one, ingest, last_sample, on_route, track, store_scan, samples_of, batch_of,
  scan_for, may_scan, scan_trip, scan_cistern, scan_and_ingest,
}
use fuel_chain.Base.Text.{trim}

-- The sample with the id `k` is in the database.
abbrev Known : String → List Checkpoint → Type 0
Known k rows = is_some (find_first (has_event k) rows) ≡ true

ingest_one-Known :
    (w : Platform) (scan : Scan) (s : JourneySample) (k : String) (rows : List Checkpoint)
    → Known k rows
    → Known k (ingest_one w scan s rows)
unfolding ingest_one
ingest_one-Known w scan s k rows h = elim (Option-cases (find_first (has_event k) rows)) [
  | inl e ↦ absurd (ground arith)
  | inr (c, e) ↦ ground (arith, find-append_row (has_event k) rows c (checkpoint_of w scan s) e)
]

ingest_one_self :
    (w : Platform) (scan : Scan) (s : JourneySample) (rows : List Checkpoint)
    → Known (event_id w scan s) (ingest_one w scan s rows)
unfolding ingest_one
ingest_one_self w scan s rows =
    let k = event_id w scan s in
    elim (Option-cases (find_first (has_event k) rows)) [
      | inl e ↦
          let new = find-append_new (has_event k) rows (checkpoint_of w scan s) e (eq_refl k) in
          ground (arith, e, new)
      | inr (c, e) ↦ ground (arith, e)
    ]

ingest-Known :
    (w : Platform) (scan : Scan) (samples : List JourneySample) (k : String)
    (rows : List Checkpoint)
    → Known k rows
    → Known k (ingest w scan samples rows)
ingest-Known w scan [] k rows h = h
ingest-Known w scan (s ∷ samples) k rows h =
    ingest-Known w scan samples k (ingest_one w scan s rows) (ingest_one-Known w scan s k rows h)

ingest-All :
    (w : Platform) (scan : Scan) (samples : List JourneySample) (rows : List Checkpoint)
    → All (λ s. Known (event_id w scan s) (ingest w scan samples rows)) samples
ingest-All w scan [] rows = tt
ingest-All w scan (s ∷ samples) rows =
    let rows' = ingest_one w scan s rows in
    (
      ingest-Known w scan samples (event_id w scan s) rows' (ingest_one_self w scan s rows),
      ingest-All w scan samples rows',
    )

ingest_one_stays :
    (w : Platform) (scan : Scan) (s : JourneySample) (rows : List Checkpoint)
    → Known (event_id w scan s) rows
    → ingest_one w scan s rows ≡ rows
unfolding ingest_one
ingest_one_stays w scan s rows h = rw h refl

ingest_stays :
    (w : Platform) (scan : Scan) (samples : List JourneySample) (rows : List Checkpoint)
    → All (λ s. Known (event_id w scan s) rows) samples
    → ingest w scan samples rows ≡ rows
ingest_stays w scan [] rows h = refl
ingest_stays w scan (s ∷ samples) rows h =
    ap (ingest w scan samples) (ingest_one_stays w scan s rows h.0)
    ∙ ingest_stays w scan samples rows h.1

ingest_again :
    (w : Platform) (scan : Scan) (samples : List JourneySample) (rows : List Checkpoint)
    → ingest w scan samples (ingest w scan samples rows) ≡ ingest w scan samples rows
ingest_again w scan samples rows =
    ingest_stays w scan samples (ingest w scan samples rows) (ingest-All w scan samples rows)

update_again :
    (k : ℕ) (volume : ℤ) (batch : ℕ) (rows : List Cistern)
    → update_cistern k (on_route volume batch) (update_cistern k (on_route volume batch) rows)
      ≡ update_cistern k (on_route volume batch) rows
update_again k volume batch [] = refl
update_again k volume batch (c ∷ rows) = ground (arith, update_again k volume batch rows)

track_again :
    (scan : Scan) (o : Option JourneySample) (rows : List Cistern)
    → track scan o (track scan o rows) ≡ track scan o rows
track_again scan none rows = refl
track_again scan (some s) rows = update_again scan.cistern_id s.volume_liters scan.batch_id rows

store_again :
    (w : Platform) (scan : Scan) (samples : List JourneySample) (db : Db)
    → store_scan w scan samples (store_scan w scan samples db) ≡ store_scan w scan samples db
store_again w scan samples db =
    let rows = ingest_again w scan samples db.checkpoints in
    let cisterns = track_again scan (last_sample samples) db.cisterns in rw (rows, cisterns) refl

-- The cistern of a scan, as the next scan finds it.
abbrev scanned : Scan → Option JourneySample → Cistern → Cistern
scanned scan none c = c
scanned scan (some s) c = on_route s.volume_liters scan.batch_id c

track-resolve :
    (key : String) (scan : Scan) (o : Option JourneySample) (rows : List Cistern) (c : Cistern)
    → scan.cistern_id ≡ c.id
    → find_first (is_keyed key) rows ≡ some c
    → find_first (is_keyed key) (track scan o rows) ≡ some (scanned scan o c)
track-resolve key scan none rows c same found = found
track-resolve key scan (some s) rows c same found =
    let is_it = λ (x : Cistern). x.id == scan.cistern_id in
    let f = on_route s.volume_liters scan.batch_id in
    find-update_where (is_keyed key) is_it f (λ x e. refl) rows
    ∙ ap (map_row (λ (x : Cistern). if is_it x then f x else x)) found
    ∙ rw ((==_iff c.id scan.cistern_id).1 (sym same)) refl

-- What a scan does with the cistern that an earlier one left is what that one did.
scan_trip-scanned :
    (w : Platform) (c : Cistern) (actor : Actor) (samples : List JourneySample) (now : ℕ)
    (d : Option Delivery) (batch : ℕ) (o : Option JourneySample) (db : Db)
    → batch_of d c ≡ some batch
    → let c' = scanned (scan_for c d batch actor now) o c in
      scan_trip w c' actor samples now d (batch_of d c') db
      ≡ ok (store_scan w (scan_for c d batch actor now) (samples_of w c d samples) db)
unfolding demo_trail
scan_trip-scanned w c actor samples now d batch none db h = rw h refl
scan_trip-scanned w c actor samples now none batch (some s) db h = refl
scan_trip-scanned w c actor [] now (some d) batch (some s) db h =
    let e : d.batch_id ≡ batch = cc in rw e refl
scan_trip-scanned w c actor (x ∷ xs) now (some d) batch (some s) db h =
    let e : d.batch_id ≡ batch = cc in rw e refl

scan_cistern-scanned :
    (w : Platform) (c : Cistern) (actor : Actor) (samples : List JourneySample) (now : ℕ)
    (d : Option Delivery) (batch : ℕ) (o : Option JourneySample) (found : Option Cistern) (db : Db)
    → batch_of d c ≡ some batch
    → d ≡ active_delivery c.id (preferred actor) db.deliveries
    → found ≡ some (scanned (scan_for c d batch actor now) o c)
    → scan_cistern w actor samples now found db
      ≡ ok (store_scan w (scan_for c d batch actor now) (samples_of w c d samples) db)
scan_cistern-scanned w c actor samples now d batch none found db trip active e =
    rw (e, sym active) (scan_trip-scanned w c actor samples now d batch none db trip)
scan_cistern-scanned w c actor samples now d batch (some s) found db trip active e =
    rw (e, sym active) (scan_trip-scanned w c actor samples now d batch (some s) db trip)

scan_trip_again :
    (w : Platform) (key : String) (c : Cistern) (actor : Actor) (samples : List JourneySample)
    (now : ℕ) (d : Option Delivery) (o : Option ℕ) (db db' : Db)
    → batch_of d c ≡ o
    → find_first (is_keyed key) db.cisterns ≡ some c
    → d ≡ active_delivery c.id (preferred actor) db.deliveries
    → scan_trip w c actor samples now d o db ≡ ok db'
    → scan_cistern w actor samples now (find_first (is_keyed key) db'.cisterns) db' ≡ ok db'
scan_trip_again w key c actor samples now d none db db' trip found active h = cc
scan_trip_again w key c actor samples now d (some batch) db db' trip found active h =
    let sc = scan_for c d batch actor now in
    let all = samples_of w c d samples in
    let o = last_sample all in
    let e : store_scan w sc all db ≡ db' = cc in
    subst (λ x. scan_cistern w actor samples now (find_first (is_keyed key) x.cisterns) x ≡ ok x) e
      (scan_cistern-scanned w c actor samples now d batch o
          (find_first (is_keyed key) (track sc o db.cisterns)) (store_scan w sc all db) trip active
          (track-resolve key sc o db.cisterns c refl found)
        ∙ ap ok (store_again w sc all db))

-- A scan that was uploaded and is uploaded again, with the same samples and clock, changes nothing, also
-- where the server makes the samples up.
pub scan_and_ingest-again :
    (w : Platform) (token : String) (actor : Actor) (samples : List JourneySample) (now : ℕ)
    (db db' : Db)
    → scan_and_ingest w token actor samples now db ≡ ok db'
    → scan_and_ingest w token actor samples now db' ≡ ok db'
unfolding scan_and_ingest resolve_cistern
scan_and_ingest-again w token actor samples now db db' h = elim (Bool-cases (may_scan actor)) [
  | inl e ↦
      let rest : scan_cistern w actor samples now (find_first (is_keyed (trim token)) db.cisterns)
            db
          ≡ ok db' =
        sym (rw e refl) ∙ h in
      rw e (by_cistern (find_first (is_keyed (trim token)) db.cisterns) refl rest)
  | inr e ↦ absurd (ground (arith, h, e))
]
  where
    by_cistern :
        (o : Option Cistern)
        → find_first (is_keyed (trim token)) db.cisterns ≡ o
        → scan_cistern w actor samples now o db ≡ ok db'
        → scan_cistern w actor samples now (find_first (is_keyed (trim token)) db'.cisterns) db'
          ≡ ok db'
    by_cistern none found scan = cc
    by_cistern (some c) found scan =
        let d = active_delivery c.id (preferred actor) db.deliveries in
        scan_trip_again w (trim token) c actor samples now d (batch_of d c) db db' refl found refl
          scan
