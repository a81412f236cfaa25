-- ===== src/Base/Tables.antt =====
-- A database table as the list of its rows, in the order in which a query returns them, and the
-- operations of the database client that the services call.
use Prim.Native.Nat.{ℕ, zero, suc, ◌+◌, ◌≤◌}
use mathlib.Core.Path.{subst, ◌≡◌, refl, ap, ◌∙◌}
use mathlib.Core.Bool.{Bool, true, false}
use mathlib.Core.Option.{Option, none, some}
use mathlib.Core.List.{List, [], ◌∷◌, ◌++◌, map}
use native.Mathlib.Omega.{arith}
use fuel_chain.Base.Tests.{is_some, if◌then◌else◌, length, All}

module _ {ℓ} {A : Type ℓ} where
  -- `findFirst({ where })`, `findUnique` on a unique column, `Array.find`
  abbrev pub find_first : (A → Bool) → List A → Option A
  find_first p [] = none
  find_first p (x ∷ xs) = if p x then some x else find_first p xs

  -- The row of a number, from 0
  abbrev pub row_at : ℕ → List A → Option A
  row_at n [] = none
  row_at zero (x ∷ xs) = some x
  row_at (suc n) (x ∷ xs) = row_at n xs

  -- `updateMany({ where, data })`
  abbrev pub update_where : (A → Bool) → (A → A) → List A → List A
  update_where p f [] = []
  update_where p f (x ∷ xs) = (if p x then f x else x) ∷ update_where p f xs

  -- `count({ where })`
  abbrev pub count_where : (A → Bool) → List A → ℕ
  count_where p [] = 0
  count_where p (x ∷ xs) = let rest = count_where p xs in if p x then suc rest else rest

  abbrev pub filter : (A → Bool) → List A → List A
  filter p [] = []
  filter p (x ∷ xs) = let rest = filter p xs in if p x then x ∷ rest else rest

  -- `Array.slice(0, n)`, `take`
  abbrev pub take : ℕ → List A → List A
  take zero xs = []
  take (suc n) [] = []
  take (suc n) (x ∷ xs) = x ∷ take n xs

  abbrev pub drop : ℕ → List A → List A
  drop zero xs = xs
  drop (suc n) [] = []
  drop (suc n) (x ∷ xs) = drop n xs

  -- `xs[xs.length - 1]`
  abbrev pub last : List A → Option A
  last [] = none
  last (x ∷ []) = some x
  last (x ∷ y ∷ xs) = last (y ∷ xs)

  -- A stable sort: `le x y` puts `x` before a later `y`.
  abbrev pub insert_by : (A → A → Bool) → A → List A → List A
  insert_by le x [] = x ∷ []
  insert_by le x (y ∷ ys) = let rest = insert_by le x ys in if le x y then x ∷ y ∷ ys else y ∷ rest

  abbrev pub sort_by : (A → A → Bool) → List A → List A
  sort_by le [] = []
  sort_by le (x ∷ xs) = insert_by le x (sort_by le xs)

  pub one_value : (o : Option A) (v w : A) → o ≡ some v → o ≡ some w → v ≡ w
  one_value o v w h k = cc

  -- The list less the first of such rows.
  abbrev pub remove_first : (A → Bool) → List A → List A
  remove_first p [] = []
  remove_first p (x ∷ xs) = let rest = remove_first p xs in if p x then xs else x ∷ rest

  pub find_first-holds :
      (p : A → Bool) (xs : List A) (x : A) → find_first p xs ≡ some x → p x ≡ true
  find_first-holds p [] x h = ground arith
  find_first-holds p (y ∷ xs) x h = ground (arith, find_first-holds p xs x)

  -- Rows that the update leaves alone, or that the count does not see, leave the count alone.
  pub count-update_keep :
      (q p : A → Bool) (f : A → A)
      → ((x : A) → p x ≡ true → q (f x) ≡ q x)
      → (xs : List A) → count_where q (update_where p f xs) ≡ count_where q xs
  count-update_keep q p f keep [] = refl
  count-update_keep q p f keep (x ∷ xs) = ground (arith, keep x, count-update_keep q p f keep xs)

  -- A count of rows that each change turns off falls by the number of rows changed.
  pub count-update_off :
      (p : A → Bool) (f : A → A)
      → ((x : A) → p x ≡ true → p (f x) ≡ false)
      → (xs : List A) → count_where p (update_where p f xs) ≡ 0
  count-update_off p f off [] = refl
  count-update_off p f off (x ∷ xs) = ground (arith, off x, count-update_off p f off xs)

  pub All-update :
      (P : A → Type 0) (p : A → Bool) (f : A → A)
      → ((x : A) → p x ≡ true → P x → P (f x))
      → (xs : List A) → All P xs
      → All P (update_where p f xs)
  All-update P p f keep [] h = tt
  All-update P p f keep (x ∷ xs) h = (row (p x) refl, All-update P p f keep xs h.1)
    where
      row : (b : Bool) → p x ≡ b → P (if b then f x else x)
      row true e = keep x e h.0
      row false e = h.0

  abbrev pub map_row : (A → A) → Option A → Option A
  map_row f none = none
  map_row f (some x) = some (f x)

  -- The first row that a query finds is still the first after an update that the query cannot see.
  pub find-update_where :
      (q p : A → Bool) (f : A → A)
      → ((x : A) → p x ≡ true → q (f x) ≡ q x)
      → (xs : List A)
      → find_first q (update_where p f xs) ≡ map_row (λ x. if p x then f x else x) (find_first q xs)
  find-update_where q p f keep [] = refl
  find-update_where q p f keep (x ∷ xs) = ground (arith, keep x, find-update_where q p f keep xs)

  pub count-append_row :
      (p : A → Bool) (xs : List A) (x : A)
      → count_where p (xs ++ x ∷ []) ≡ count_where p xs + (if p x then 1 else 0)
  count-append_row p [] x = ground arith
  count-append_row p (y ∷ xs) x = ground (arith, count-append_row p xs x)

  pub count-find_none : (p : A → Bool) (xs : List A) → find_first p xs ≡ none → count_where p xs ≡ 0
  count-find_none p [] h = refl
  count-find_none p (x ∷ xs) h = ground (arith, count-find_none p xs)

  pub count-find_some :
      (p : A → Bool) (xs : List A) (x : A) → find_first p xs ≡ some x → 1 ≤ count_where p xs
  count-find_some p [] x h = ground arith
  count-find_some p (y ∷ xs) x h = ground (arith, count-find_some p xs x)

  pub find-append_row :
      (p : A → Bool) (xs : List A) (x y : A)
      → find_first p xs ≡ some x
      → find_first p (xs ++ y ∷ []) ≡ some x
  find-append_row p [] x y h = ground arith
  find-append_row p (z ∷ xs) x y h = ground (arith, find-append_row p xs x y)

  pub All-append_row :
      (P : A → Type 0) (xs : List A) (x : A) → All P xs → P x → All P (xs ++ x ∷ [])
  All-append_row P [] x h px = (px, tt)
  All-append_row P (y ∷ xs) x h px = (h.0, All-append_row P xs x h.1 px)

  pub All-remove_first :
      (P : A → Type 0) (p : A → Bool) (xs : List A) → All P xs → All P (remove_first p xs)
  All-remove_first P p [] h = tt
  All-remove_first P p (x ∷ xs) h = less (p x) (All-remove_first P p xs h.1)
    where
      less :
          (b : Bool) → All P (remove_first p xs) → All P (if b then xs else x ∷ remove_first p xs)
      less true rest = h.1
      less false rest = (h.0, rest)

  pub All-find_first :
      (P : A → Type 0) (p : A → Bool) (xs : List A) (x : A)
      → All P xs
      → find_first p xs ≡ some x
      → P x
  All-find_first P p [] x h found = absurd (cc)
  All-find_first P p (y ∷ xs) x h found = first (p y) (All-find_first P p xs x h.1) found
    where
      first :
          (b : Bool)
          → (find_first p xs ≡ some x → P x)
          → (if b then some y else find_first p xs) ≡ some x
          → P x
      first true rest e = subst P (cc) h.0
      first false rest e = rest e

  pub All-mono : (P Q : A → Type 0) → ((x : A) → P x → Q x) → (xs : List A) → All P xs → All Q xs
  All-mono P Q f [] h = tt
  All-mono P Q f (x ∷ xs) h = (f x h.0, All-mono P Q f xs h.1)

  -- A count of what no row satisfies.
  pub count-All :
      (P : A → Type 0) (q : A → Bool)
      → ((x : A) → P x → q x ≡ false)
      → (xs : List A) → All P xs
      → count_where q xs ≡ 0
  count-All P q off [] h = refl
  count-All P q off (x ∷ xs) h = rw (off x h.0) (count-All P q off xs h.1)

  pub count-le :
      (p q : A → Bool)
      → ((x : A) → p x ≡ true → q x ≡ true)
      → (xs : List A) → count_where p xs ≤ count_where q xs
  count-le p q h [] = omega arith
  count-le p q h (x ∷ xs) = ground (arith, h x, count-le p q h xs)

  -- Rows that an update turns off: those that it changes no longer count, and were counted by `q`.
  pub count-update_turns :
      (r p q : A → Bool) (f : A → A)
      → ((x : A) → p x ≡ true → (q x ≡ true) × (r (f x) ≡ false))
      → ((x : A) → r x ≡ true → q x ≡ true)
      → (xs : List A) → count_where r (update_where p f xs) + count_where p xs ≤ count_where q xs
  count-update_turns r p q f turned counted [] = omega arith
  count-update_turns r p q f turned counted (x ∷ xs) =
      ground (arith, turned x, counted x, count-update_turns r p q f turned counted xs)

  pub count-update_le :
      (r p : A → Bool) (f : A → A)
      → ((x : A) → p x ≡ true → r (f x) ≡ false)
      → (xs : List A) → count_where r (update_where p f xs) ≤ count_where r xs
  count-update_le r p f off [] = omega arith
  count-update_le r p f off (x ∷ xs) = ground (arith, off x, count-update_le r p f off xs)

  pub find-append_new :
      (p : A → Bool) (xs : List A) (y : A)
      → find_first p xs ≡ none
      → p y ≡ true
      → find_first p (xs ++ y ∷ []) ≡ some y
  find-append_new p [] y h e = ground arith
  find-append_new p (z ∷ xs) y h e = ground (arith, find-append_new p xs y)

  -- Where `q` holds of one row at most, the row that another query finds is the one that `q` finds.
  pub count-find_other :
      (p q : A → Bool) (xs : List A) (x : A)
      → find_first p xs ≡ some x
      → q x ≡ true
      → 1 ≤ count_where q xs
  count-find_other p q [] x h e = ground arith
  count-find_other p q (y ∷ xs) x h e = ground (arith, count-find_other p q xs x)

  pub find_first_unique :
      (p q : A → Bool) (xs : List A) (x : A)
      → find_first p xs ≡ some x
      → q x ≡ true
      → count_where q xs ≤ 1
      → find_first q xs ≡ some x
  find_first_unique p q [] x h e one = ground arith
  find_first_unique p q (y ∷ xs) x h e one =
      ground (arith, find_first_unique p q xs x, count-find_other p q xs x)

  -- Whether a row is found, in a list that is sorted, filtered, updated or grown.
  found-insert_by :
      (p : A → Bool) (le : A → A → Bool) (x : A) (xs : List A)
      → is_some (find_first p (insert_by le x xs)) ≡ is_some (find_first p (x ∷ xs))
  found-insert_by p le x [] = refl
  found-insert_by p le x (y ∷ xs) = ground (arith, found-insert_by p le x xs)

  pub found-sort_by :
      (p : A → Bool) (le : A → A → Bool) (xs : List A)
      → is_some (find_first p (sort_by le xs)) ≡ is_some (find_first p xs)
  found-sort_by p le [] = refl
  found-sort_by p le (x ∷ xs) =
      found-insert_by p le x (sort_by le xs) ∙ ground (arith, found-sort_by p le xs)

  pub found-filter :
      (p q : A → Bool)
      → ((x : A) → p x ≡ true → q x ≡ true)
      → (xs : List A) → is_some (find_first p (filter q xs)) ≡ is_some (find_first p xs)
  found-filter p q h [] = refl
  found-filter p q h (x ∷ xs) = ground (arith, h x, found-filter p q h xs)

  pub found-update :
      (p q : A → Bool) (f : A → A)
      → ((x : A) → q x ≡ true → p (f x) ≡ true)
      → (xs : List A) → is_some (find_first q xs) ≡ true
      → is_some (find_first p (update_where q f xs)) ≡ true
  found-update p q f h [] e = e
  found-update p q f h (x ∷ xs) e = ground (arith, h x, found-update p q f h xs)

  -- A property of the rows, in a list that is filtered, sorted or cut.
  pub All-filter :
      (P : A → Type 0) (p : A → Bool)
      → ((x : A) → p x ≡ true → P x)
      → (xs : List A) → All P (filter p xs)
  All-filter P p h [] = tt
  All-filter P p h (x ∷ xs) = kept (p x) refl (All-filter P p h xs)
    where
      kept :
          (b : Bool)
          → p x ≡ b
          → All P (filter p xs)
          → All P (if b then x ∷ filter p xs else filter p xs)
      kept true e rest = (h x e, rest)
      kept false e rest = rest

  All-insert_by :
      (P : A → Type 0) (le : A → A → Bool) (x : A) (xs : List A)
      → P x
      → All P xs
      → All P (insert_by le x xs)
  All-insert_by P le x [] px h = (px, tt)
  All-insert_by P le x (y ∷ ys) px h = placed (le x y) (All-insert_by P le x ys px h.1)
    where
      placed :
          (b : Bool)
          → All P (insert_by le x ys)
          → All P (if b then x ∷ y ∷ ys else y ∷ insert_by le x ys)
      placed true rest = (px, h)
      placed false rest = (h.0, rest)

  pub All-sort_by :
      (P : A → Type 0) (le : A → A → Bool) (xs : List A) → All P xs → All P (sort_by le xs)
  All-sort_by P le [] h = tt
  All-sort_by P le (x ∷ xs) h = All-insert_by P le x (sort_by le xs) h.0 (All-sort_by P le xs h.1)

  pub All-take : (P : A → Type 0) (n : ℕ) (xs : List A) → All P xs → All P (take n xs)
  All-take P zero xs h = tt
  All-take P (suc n) [] h = tt
  All-take P (suc n) (x ∷ xs) h = (h.0, All-take P n xs h.1)

  -- The rows from the newest to the oldest.
  abbrev pub reverse : List A → List A
  reverse [] = []
  reverse (x ∷ xs) = reverse xs ++ x ∷ []

  pub All-reverse : (P : A → Type 0) (xs : List A) → All P xs → All P (reverse xs)
  All-reverse P [] h = tt
  All-reverse P (x ∷ xs) h = All-append_row P (reverse xs) x (All-reverse P xs h.1) h.0

  -- A row is in the table.
  abbrev pub Stored : A → List A → Type ℓ
  Stored y xs = (n : ℕ) × (row_at n xs ≡ some y)

  pub find_first-Stored :
      (p : A → Bool) (xs : List A) (y : A) → find_first p xs ≡ some y → Stored y xs
  find_first-Stored p [] y h = absurd (cc)
  find_first-Stored p (x ∷ xs) y h = at (p x) h (find_first-Stored p xs y)
    where
      at :
          (b : Bool)
          → (if b then some x else find_first p xs) ≡ some y
          → (find_first p xs ≡ some y → Stored y xs)
          → Stored y (x ∷ xs)
      at true e rest = (0, e)
      at false e rest = let (n, s) = rest e in (suc n, s)

  -- A row that is found among those kept.
  pub found_kept :
      (p q : A → Bool) (xs : List A)
      → is_some (find_first p (filter q xs)) ≡ true
      → (x : A) × (p x ≡ true) × (q x ≡ true) × Stored x xs
  found_kept p q [] h = absurd (ground (arith, h))
  found_kept p q (x ∷ xs) h = kept (q x) refl (p x) refl (λ k. later (found_kept p q xs k)) h
    where
      Kept : List A → Type ℓ
      Kept ys = (y : A) × (p y ≡ true) × (q y ≡ true) × Stored y ys

      later : Kept xs → Kept (x ∷ xs)
      later (y, on, of, (n, s)) = (y, on, of, (suc n, s))

      kept :
          (b : Bool)
          → q x ≡ b
          → (c : Bool) → p x ≡ c
          → (is_some (find_first p (filter q xs)) ≡ true → Kept (x ∷ xs))
          → is_some (find_first p (if b then x ∷ filter q xs else filter q xs)) ≡ true
          → Kept (x ∷ xs)
      kept true e true f rest k = (x, f, e, (0, refl))
      kept true e false f rest k = rest (ground (arith, k, f))
      kept false e c f rest k = rest k

  pub take-drop : (n : ℕ) (xs : List A) → take n xs ++ drop n xs ≡ xs
  take-drop zero xs = refl
  take-drop (suc n) [] = refl
  take-drop (suc n) (x ∷ xs) = ap (λ ys. x ∷ ys) (take-drop n xs)

  drop_nil : (n : ℕ) → drop n [] ≡ []
  drop_nil zero = refl
  drop_nil (suc n) = refl

  pub drop-drop : (m n : ℕ) (xs : List A) → drop n (drop m xs) ≡ drop (m + n) xs
  drop-drop zero n xs = ground arith
  drop-drop (suc m) n [] = ground (arith, drop_nil n, drop_nil (suc m + n))
  drop-drop (suc m) n (x ∷ xs) =
      let sums : suc (m + n) ≡ suc m + n = omega arith in
      drop-drop m n xs ∙ ap (λ k. drop k (x ∷ xs)) sums

  pub drop_all : (n : ℕ) (xs : List A) → length xs ≤ n → drop n xs ≡ []
  drop_all zero [] h = refl
  drop_all (suc n) [] h = refl
  drop_all zero (x ∷ xs) h = absurd (omega arith)
  drop_all (suc n) (x ∷ xs) h = drop_all n xs (omega arith)

  length-append_row : (xs : List A) (x : A) → length (xs ++ x ∷ []) ≡ suc (length xs)
  length-append_row [] x = refl
  length-append_row (y ∷ xs) x = ap suc (length-append_row xs x)

  pub length-reverse : (xs : List A) → length (reverse xs) ≡ length xs
  length-reverse [] = refl
  length-reverse (x ∷ xs) = length-append_row (reverse xs) x ∙ ap suc (length-reverse xs)

  pub length-filter : (p : A → Bool) (xs : List A) → length (filter p xs) ≡ count_where p xs
  length-filter p [] = refl
  length-filter p (x ∷ xs) = ground (arith, length-filter p xs)

  pub length-take : (n : ℕ) (xs : List A) → length (take n xs) ≤ n
  length-take zero xs = omega arith
  length-take (suc n) [] = omega arith
  length-take (suc n) (x ∷ xs) = ground (arith, length-take n xs)

pub All-map {ℓ κ} :
    {A : Type ℓ} {B : Type κ} (P : B → Type 0) (f : A → B) (xs : List A)
    → All (λ x. P (f x)) xs
    → All P (map f xs)
All-map P f [] h = tt
All-map P f (x ∷ xs) h = (h.0, All-map P f xs h.1)
