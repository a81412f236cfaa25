-- ===== src/Custody/Once.antt =====
-- A baton is consumed at most once, however the operations of the service interleave. A reception
-- reads before its transaction, so the data that its transaction runs on may be of any age.
use fuel_chain.Base.{
  ◌⊎◌, inl, inr, String, ℕ, suc, ◌+◌, ◌≤◌, ◌<◌, ◌≡◌, ◌≢◌, refl, sym, ap, ◌∙◌, subst, Option, none,
  some, List, [], ◌∷◌, ◌==◌, ltb, count_where, update_where, count-le, count-update_turns,
  count-update_le, count-update_keep, Result, ok, err, arith, if◌then◌else◌,
}
use fuel_chain.Schema.{Exception}
use fuel_chain.Store.{Db, Batch, Baton, append}
use fuel_chain.Custody.Payload.{Config, Payload}
use fuel_chain.Custody.Keys.{
  has_id, is_live, live, IsKeyed, live-le, live_below, update-IsKeyed, append-IsKeyed, live-append,
}
use fuel_chain.Custody.Accept.{
  find_baton, create_baton, obtain_from, batch_of_payload, obtain_baton, imported_baton,
  expired_row, expire_baton,
}
use fuel_chain.Custody.Accept.Handover.{Ready, is_consumable, consumed_by}
use fuel_chain.Custody.Accept.Commit.{commit, commit-Committed}
use fuel_chain.Custody.Accept.Frames.{commit-Untouched, consume-batons, consume-count}
use fuel_chain.Custody.Issue.Dispatch.{Order, dispatch, new_baton}
use fuel_chain.Custody.Issue.Frames.{dispatch-batons}

module _ (p : Ready) (db db' : Db) (h : commit p db ≡ ok db') where
  commit-batons :
      db'.batons ≡ update_where (is_consumable p.baton.id p.now) (consumed_by p) db.batons
  commit-batons =
      let t = commit-Committed p db db' h in
      (commit-Untouched p t).batons ∙ consume-batons p db t.consumed t.consumes

  pub commit-next_id : db.next_id ≤ db'.next_id
  commit-next_id = (commit-Untouched p (commit-Committed p db db' h)).keys

  -- Of the baton of a reception that commits, a row was live, and none is afterwards.
  commit-live : IsKeyed db → (live p.baton.id db ≡ 1) × (live p.baton.id db' ≡ 0)
  commit-live w =
      let t = commit-Committed p db db' h in
      let one = consume-count p db t.consumed t.consumes in
      let k = p.baton.id in
      let now = p.now in
      let still =
        count-update_turns (is_live k) (is_consumable k now) (has_id k) (consumed_by p)
          (λ b on. ground arith) (λ b on. ground arith) db.batons in
      let before = count-le (is_consumable k now) (is_live k) (λ b on. ground arith) db.batons in
      (
        omega (arith, one, before, live-le k db w),
        subst (λ (xs : List Baton). count_where (is_live k) xs ≡ 0) (sym commit-batons)
            (omega (arith, one, still, w.unique k)),
      )

  commit-others : (k : ℕ) → k ≢ p.baton.id → live k db' ≡ live k db
  commit-others k other =
      ap (count_where (is_live k)) commit-batons
      ∙ count-update_keep (is_live k) (is_consumable p.baton.id p.now) (consumed_by p)
          (λ b on. ground (arith, other)) db.batons

  commit-IsKeyed : IsKeyed db → IsKeyed db'
  commit-IsKeyed w =
      update-IsKeyed (is_consumable p.baton.id p.now) (consumed_by p) db db' (λ b. refl)
        commit-batons commit-next_id w

-- The operations that write batons. Each may carry data of any age.
pub data Op : Type 0 where
  receive : Ready → Op
  send : Order → Op
  import : Config → Option Payload → String → Op
  expire : ℕ → Op

-- A transaction that fails leaves the database as it was.
abbrev pub kept : Db → Result Exception Db → Db
kept db (ok db') = db'
kept db (err e) = db

abbrev pub succeeded : Result Exception Db → ℕ
succeeded (ok db') = 1
succeeded (err e) = 0

abbrev pub after : Op → Db → Db
after (receive p) db = kept db (commit p db)
after (send o) db = kept db (dispatch o db)
after (import c p token) db = (obtain_baton c p token db).1
after (expire k) db = expire_baton k db

-- Whether the operation received the baton `k`.
abbrev pub receives : ℕ → Op → Db → ℕ
receives k (receive p) db = if p.baton.id == k then succeeded (commit p db) else 0
receives k _ db = 0

-- How often the operations, one after another, received the baton `k`.
pub receptions : ℕ → List Op → Db → ℕ
receptions k [] db = 0
receptions k (op ∷ ops) db = receives k op db + receptions k ops (after op db)

-- What one operation does to the keys and to the baton `k`.
record Tracks (k : ℕ) (hit : ℕ) (db db' : Db) : Type 0 where
  keyed : IsKeyed db'
  grows : db.next_id ≤ db'.next_id
  falls : k < db.next_id → hit + live k db' ≤ live k db
  unknown : db.next_id ≤ k → hit ≡ 0

unchanged : (k : ℕ) (db : Db) → IsKeyed db → Tracks k 0 db db
unchanged k db w = record {
  keyed = w;
  grows = omega arith;
  falls = λ h. omega arith;
  unknown = λ h. refl;
}

append-Tracks :
    (k : ℕ) (b : Baton) (db db' : Db)
    → db'.batons ≡ append b db.batons
    → db.next_id ≤ b.id
    → b.id < db'.next_id
    → IsKeyed db
    → Tracks k 0 db db'
append-Tracks k b db db' rows fresh grows w = record {
  keyed = append-IsKeyed b db db' rows fresh grows w;
  grows = omega arith;
  falls = λ h. omega (arith, live-append b k db db' rows fresh h);
  unknown = λ h. refl;
}

receive-Tracks :
    (k : ℕ) (p : Ready) (db : Db)
    → IsKeyed db
    → Tracks k (receives k (receive p) db) db (after (receive p) db)
receive-Tracks k p db w = by_outcome (commit p db) refl
  where
    by_outcome :
        (r : Result Exception Db)
        → commit p db ≡ r
        → Tracks k (if p.baton.id == k then succeeded r else 0) db (kept db r)
    by_outcome (err e) h = record {
      keyed = w;
      grows = omega arith;
      falls = λ i. ground arith;
      unknown = λ i. ground arith;
    }
    by_outcome (ok db') h = record {
      keyed = commit-IsKeyed p db db' h w;
      grows = commit-next_id p db db' h;
      falls = λ i. ground (arith, commit-live p db db' h w, commit-others p db db' h k);
      unknown = λ i. ground (arith, commit-live p db db' h w, live_below p.baton.id db w);
    }

send-Tracks : (k : ℕ) (o : Order) (db : Db) → IsKeyed db → Tracks k 0 db (after (send o) db)
send-Tracks k o db w = by_outcome (dispatch o db) refl
  where
    by_outcome : (r : Result Exception Db) → dispatch o db ≡ r → Tracks k 0 db (kept db r)
    by_outcome (err e) h = unchanged k db w
    by_outcome (ok db') h =
        let (rows, keys) = dispatch-batons o db db' h in
        append-Tracks k (new_baton o (suc db.next_id) db.next_id) db db' rows (omega arith)
          (omega (arith, keys)) w

expire-Tracks : (k j : ℕ) (db : Db) → IsKeyed db → Tracks k 0 db (after (expire j) db)
expire-Tracks k j db w = record {
  keyed =
      update-IsKeyed (is_live j) expired_row db (expire_baton j db) (λ b. refl) refl (omega arith)
        w;
  grows = omega arith;
  falls = λ i.
      omega (
        arith,
        count-update_le (is_live k) (is_live j) expired_row (λ b on. ground arith) db.batons,
      );
  unknown = λ i. refl;
}

-- An import adds a row or changes nothing.
abbrev Imports : Db → Db → Type 0
Imports db db' =
    (db' ≡ db)
    ⊎ ((b : Baton) × (b.id ≡ db.next_id)
        × (db' ≡ record db { batons = append b db.batons; next_id = suc db.next_id }))

create-Imports :
    (c : Config) (p : Payload) (token : String) (db : Db) (o : Option Batch)
    → Imports db (create_baton c p token db o).1
unfolding imported_baton
create-Imports c p token db none = inl refl
create-Imports c p token db (some batch) =
    inr (imported_baton c p token db.next_id batch.id, refl, refl)

obtain-Imports :
    (c : Config) (embedded : Option Payload) (token : String) (o : Option Baton) (db : Db)
    → Imports db (obtain_from c embedded token o db).1
obtain-Imports c embedded token (some b) db = inl refl
obtain-Imports c none token none db = inl refl
obtain-Imports c (some p) token none db = create-Imports c p token db (batch_of_payload c p db)

import-Tracks :
    (k : ℕ) (c : Config) (p : Option Payload) (token : String) (db : Db)
    → IsKeyed db
    → Tracks k 0 db (after (import c p token) db)
unfolding obtain_baton
import-Tracks k c p token db w =
    by_case (after (import c p token) db) (obtain-Imports c p token (find_baton token db) db)
  where
    by_case : (db' : Db) → Imports db db' → Tracks k 0 db db'
    by_case db' (inl e) = subst (Tracks k 0 db) (sym e) (unchanged k db w)
    by_case db' (inr (b, key, e)) = subst (Tracks k 0 db) (sym e) (
        append-Tracks k b db (record db { batons = append b db.batons; next_id = suc db.next_id })
          refl (omega (arith, key)) (omega (arith, key)) w)

op-Tracks : (k : ℕ) (op : Op) (db : Db) → IsKeyed db → Tracks k (receives k op db) db (after op db)
op-Tracks k (receive p) db w = receive-Tracks k p db w
op-Tracks k (send o) db w = send-Tracks k o db w
op-Tracks k (import c p token) db w = import-Tracks k c p token db w
op-Tracks k (expire j) db w = expire-Tracks k j db w

-- What is left of the baton `k`: one reception, while it is live or not yet issued.
abbrev left : ℕ → Db → ℕ
left k db = if ltb k db.next_id then live k db else 1

left-step :
    (k hit : ℕ) (db db' : Db) → IsKeyed db → Tracks k hit db db' → hit + left k db' ≤ left k db
left-step k hit db db' w t = ground (arith, t.falls, t.unknown, live-le k db' t.keyed)

receptions-left : (k : ℕ) (ops : List Op) (db : Db) → IsKeyed db → receptions k ops db ≤ left k db
unfolding receptions
receptions-left k [] db w = omega arith
receptions-left k (op ∷ ops) db w =
    let t = op-Tracks k op db w in
    omega (
      arith,
      left-step k (receives k op db) db (after op db) w t,
      receptions-left k ops (after op db) t.keyed,
    )

-- Where the keys of the batons are unique and were all given out, whatever receptions, dispatches,
-- imports and expirations follow one another, each with data of any age, no baton is received more
-- than once.
pub receptions-le : (k : ℕ) (ops : List Op) (db : Db) → IsKeyed db → receptions k ops db ≤ 1
receptions-le k ops db w = ground (arith, receptions-left k ops db w, live-le k db w)
