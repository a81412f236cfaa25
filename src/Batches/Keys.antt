-- ===== src/Batches/Keys.antt =====
-- The keys of the batches: each below the next key, and no two alike.
use fuel_chain.Base.{
  ℕ, suc, ◌≤◌, ◌<◌, ◌≡◌, refl, sym, ap, subst, Bool, inl, inr, some, List, ◌==◌, ==_iff, Bool-cases,
  count_where, find_first, find_first_unique, All, All-update, All-append_row, All-mono, count-All,
  count-update_keep, count-append_row, arith,
}
use fuel_chain.Store.{Db, Batch, batch_by_id, update_batch, append}

abbrev pub has_key : ℕ → Batch → Bool
has_key k b = b.id == k

abbrev Below : ℕ → Batch → Type 0
Below n b = b.id < n

pub record BatchKeyed (db : Db) : Type 0 where
  pub below : All (Below db.next_id) db.batches
  pub unique : (k : ℕ) → count_where (has_key k) db.batches ≤ 1

-- The row of a batch that any query found is the one that its key finds.
pub found_by_key :
    (p : Batch → Bool) (db : Db) (b : Batch)
    → BatchKeyed db
    → find_first p db.batches ≡ some b
    → batch_by_id b.id db ≡ some b
found_by_key p db b w found =
    find_first_unique p (has_key b.id) db.batches b found ((==_iff b.id b.id).1 refl)
      (w.unique b.id)

pub update-BatchKeyed :
    (j : ℕ) (f : Batch → Batch) (db db' : Db)
    → ((b : Batch) → (f b).id ≡ b.id)
    → db'.batches ≡ update_batch j f db.batches
    → db.next_id ≤ db'.next_id
    → BatchKeyed db
    → BatchKeyed db'
update-BatchKeyed j f db db' keep rows grows w = record {
  below = subst (All (Below db'.next_id)) (sym rows) (
      All-update (Below db'.next_id) (has_key j) f (λ b e h. rw (keep b) h) db.batches
        (All-mono (Below db.next_id) (Below db'.next_id) (λ b h. omega arith) db.batches w.below));
  unique = λ k.
      subst (λ (xs : List Batch). count_where (has_key k) xs ≤ 1) (sym rows)
        (rw
          (count-update_keep (has_key k) (has_key j) f (λ b e. ap (λ (i : ℕ). i == k) (keep b))
            db.batches)
          (w.unique k));
}

pub same-BatchKeyed :
    (db db' : Db)
    → db'.batches ≡ db.batches
    → db.next_id ≤ db'.next_id
    → BatchKeyed db
    → BatchKeyed db'
same-BatchKeyed db db' rows grows w = record {
  below =
      subst (All (Below db'.next_id)) (sym rows)
        (All-mono (Below db.next_id) (Below db'.next_id) (λ b h. omega arith) db.batches w.below);
  unique = λ k. subst (λ (xs : List Batch). count_where (has_key k) xs ≤ 1) (sym rows) (w.unique k);
}

pub append-BatchKeyed :
    (b : Batch) (db db' : Db)
    → db'.batches ≡ append b db.batches
    → b.id ≡ db.next_id
    → db'.next_id ≡ suc db.next_id
    → BatchKeyed db
    → BatchKeyed db'
append-BatchKeyed b db db' rows fresh grows w = record {
  below = subst (All (Below db'.next_id)) (sym rows) (
      All-append_row (Below db'.next_id) db.batches b
        (All-mono (Below db.next_id) (Below db'.next_id) (λ x h. omega (arith, grows)) db.batches
          w.below)
        (omega (arith, fresh, grows)));
  unique = λ k.
      subst (λ (xs : List Batch). count_where (has_key k) xs ≤ 1) (sym rows)
        (rw (count-append_row (has_key k) db.batches b) (elim (Bool-cases (b.id == k)) [
          | inl e ↦ ground (
            arith,
            fresh,
            count-All (Below db.next_id) (has_key k) (λ x below. ground (arith, fresh)) db.batches
                w.below,
          )
          | inr e ↦ ground (arith, w.unique k)
        ]));
}
