-- ===== src/Custody/Keys.antt =====
-- The keys of the batons: each below the next key, and no two alike. Every operation that writes
-- batons keeps this.
use fuel_chain.Base.{
  Bool-cases, inl, inr, ltb, ltb→lt, ℕ, ◌≤◌, ◌<◌, ◌≡◌, sym, ap, ◌∙◌, subst, Bool, ◌&&◌, List, ◌==◌,
  count_where, update_where, All, All-update, All-append_row, All-mono, count-All, count-le,
  count-update_keep, count-append_row, arith,
}
use fuel_chain.Schema.{is_active}
use fuel_chain.Store.{Db, Baton, append}

abbrev pub has_id : ℕ → Baton → Bool
has_id k b = b.id == k

-- The baton `k` can still be consumed.
abbrev pub is_live : ℕ → Baton → Bool
is_live k b = b.id == k && is_active b.status

abbrev pub live : ℕ → Db → ℕ
live k db = count_where (is_live k) db.batons

abbrev pub Below : ℕ → Baton → Type 0
Below n b = b.id < n

pub record IsKeyed (db : Db) : Type 0 where
  pub below : All (Below db.next_id) db.batons
  pub unique : (k : ℕ) → count_where (has_id k) db.batons ≤ 1

pub live-le : (k : ℕ) (db : Db) → IsKeyed db → live k db ≤ 1
live-le k db w =
    omega (arith, count-le (is_live k) (has_id k) (λ b h. ground arith) db.batons, w.unique k)

-- A key that was not given yet is on no baton.
pub absent : (k : ℕ) (db : Db) → IsKeyed db → db.next_id ≤ k → count_where (has_id k) db.batons ≡ 0
absent k db w h =
    count-All (Below db.next_id) (has_id k) (λ b below. ground arith) db.batons w.below

pub live_below : (k : ℕ) (db : Db) → IsKeyed db → 1 ≤ live k db → k < db.next_id
live_below k db w h = elim (Bool-cases (ltb k db.next_id)) [
  | inl e ↦ ltb→lt k db.next_id e
  | inr e ↦ absurd (
      omega (
        arith,
        absent k db w (ground arith),
        count-le (is_live k) (has_id k) (λ b on. ground arith) db.batons,
      ))
]

-- An update that leaves the keys of its rows alone.
pub update-IsKeyed :
    (p : Baton → Bool) (f : Baton → Baton) (db db' : Db)
    → ((b : Baton) → (f b).id ≡ b.id)
    → db'.batons ≡ update_where p f db.batons
    → db.next_id ≤ db'.next_id
    → IsKeyed db
    → IsKeyed db'
update-IsKeyed p f db db' keep rows grows w = record {
  below = subst (All (Below db'.next_id)) (sym rows) (
      All-update (Below db'.next_id) p f (λ b e h. rw (keep b) h) db.batons
        (All-mono (Below db.next_id) (Below db'.next_id) (λ b h. omega arith) db.batons w.below));
  unique = λ k.
      subst (λ (xs : List Baton). count_where (has_id k) xs ≤ 1) (sym rows)
        (rw (count-update_keep (has_id k) p f (λ b e. ap (λ (i : ℕ). i == k) (keep b)) db.batons)
          (w.unique k));
}

-- A new row under a key that was not given yet.
pub append-IsKeyed :
    (b : Baton) (db db' : Db)
    → db'.batons ≡ append b db.batons
    → db.next_id ≤ b.id
    → b.id < db'.next_id
    → IsKeyed db
    → IsKeyed db'
append-IsKeyed b db db' rows fresh grows w = record {
  below = subst (All (Below db'.next_id)) (sym rows) (
      All-append_row (Below db'.next_id) db.batons b
        (All-mono (Below db.next_id) (Below db'.next_id) (λ x h. omega arith) db.batons w.below)
        grows);
  unique = λ k.
      subst (λ (xs : List Baton). count_where (has_id k) xs ≤ 1) (sym rows)
        (rw (count-append_row (has_id k) db.batons b) (elim (Bool-cases (b.id == k)) [
          | inl e ↦ ground (arith, absent k db w)
          | inr e ↦ ground (arith, w.unique k)
        ]));
}

-- A row that the new one is not alike leaves the count of the live ones alone.
pub live-append :
    (b : Baton) (k : ℕ) (db db' : Db)
    → db'.batons ≡ append b db.batons
    → db.next_id ≤ b.id
    → k < db.next_id
    → live k db' ≡ live k db
live-append b k db db' rows fresh old =
    ap (count_where (is_live k)) rows ∙ count-append_row (is_live k) db.batons b ∙ ground arith
