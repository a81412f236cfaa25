-- ===== src/Web/History.antt =====
-- The last codes that a station scanned: apps/web/src/lib/station-scan-history.ts. The storage of the
-- browser holds a list, or nothing that can be read as one.
use fuel_chain.Base.{
  ℕ, zero, suc, ◌≤◌, ◌≡◌, refl, String, Bool, true, false, not, Option, none, some, List, [], ◌∷◌,
  str_eq, filter, take, count_where, length, if◌then◌else◌, arith, sym, Bool-cases, inl, inr,
  eq_iff,
}

pub record StationScanEntry : Type 0 where
  pub token : String
  pub path : String
  pub cistern_code : Option String
  pub device_id : Option String
  pub batch_code : Option String
  pub product : Option String
  pub status : Option String
  pub scanned_at : String

abbrev pub load_station_scan_history : Option (List StationScanEntry) → List StationScanEntry
load_station_scan_history none = []
load_station_scan_history (some entries) = entries

abbrev pub has_token : String → StationScanEntry → Bool
has_token k e = str_eq e.token k

-- The list that is shown, and what is then stored; a storage that is full keeps what it has.
unfoldable pub remember_station_scan :
    StationScanEntry
    → (is_full : Bool) → Option (List StationScanEntry)
    → List StationScanEntry × Option (List StationScanEntry)
remember_station_scan entry is_full stored =
    let prev =
      filter (λ (e : StationScanEntry). not (str_eq e.token entry.token))
        (load_station_scan_history stored) in
    let list = take 40 (entry ∷ prev) in (list, if is_full then stored else some list)

length-take {ℓ} : {A : Type ℓ} (n : ℕ) (xs : List A) → length (take n xs) ≤ n
length-take zero xs = omega arith
length-take (suc n) [] = omega arith
length-take (suc n) (x ∷ xs) = omega (arith, length-take n xs)

count-take {ℓ} :
    {A : Type ℓ} (p : A → Bool) (n : ℕ) (xs : List A) → count_where p (take n xs) ≤ count_where p xs
count-take p zero xs = omega arith
count-take p (suc n) [] = omega arith
count-take p (suc n) (x ∷ xs) = ground (arith, count-take p n xs)

count-filter {ℓ} :
    {A : Type ℓ} (p q : A → Bool) (xs : List A) → count_where p (filter q xs) ≤ count_where p xs
count-filter p q [] = omega arith
count-filter p q (x ∷ xs) = ground (arith, count-filter p q xs)

count-filter_off {ℓ} :
    {A : Type ℓ} (p q : A → Bool)
    → ((x : A) → q x ≡ true → p x ≡ false)
    → (xs : List A) → count_where p (filter q xs) ≡ 0
count-filter_off p q off [] = refl
count-filter_off p q off (x ∷ xs) = ground (arith, off x, count-filter_off p q off xs)

eq_iff_is : (s k : String) → str_eq s k ≡ true → s ≡ k
eq_iff_is s k h = (eq_iff s k).0 h

off : (x s k : String) → s ≡ k → not (str_eq x s) ≡ true → str_eq x k ≡ false
off x s k e h = rw (sym e) (ground (arith, h))

-- No token is twice in the list.
unfoldable pub Distinct : List StationScanEntry → Type 0
Distinct entries = (k : String) → count_where (has_token k) entries ≤ 1

-- A scan is the first of the list that is shown, no token is twice in the list where none was before, and
-- there are 40 entries at most, however many were stored.
pub remember_station_scan-Distinct :
    (entry : StationScanEntry) (is_full : Bool) (entries : List StationScanEntry)
    → Distinct entries
    → let list = (remember_station_scan entry is_full (some entries)).0 in
      (length list ≤ 40) × ((rest : List StationScanEntry) × (list ≡ entry ∷ rest)) × Distinct list
unfolding remember_station_scan Distinct
remember_station_scan-Distinct entry is_full entries w =
    let other = λ (e : StationScanEntry). not (str_eq e.token entry.token) in
    let prev = filter other entries in
    (
      omega (arith, length-take 39 prev),
      (take 39 prev, refl),
      λ k.
          let kept = count-take (has_token k) 39 prev in
          let fewer = count-filter (has_token k) other entries in
          elim (Bool-cases (str_eq entry.token k)) [
            | inl e ↦
                let gone =
                  count-filter_off (has_token k) other
                    (λ x h. off x.token entry.token k (eq_iff_is entry.token k e) h) entries in
                rw e (omega (arith, kept, gone))
            | inr e ↦ rw e (omega (arith, kept, fewer, w k))
          ],
    )
