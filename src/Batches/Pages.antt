-- ===== src/Batches/Pages.antt =====
-- The list of the batches, page by page: `findAll` of apps/api/src/batches/batches.service.ts, and the
-- figures of `getKpis` of apps/api/src/dashboard/dashboard.service.ts.
use fuel_chain.Base.{
  ℕ, zero, suc, ◌+◌, ◌-◌, ◌*◌, ◌/◌, ◌≤◌, ◌<◌, ◌≡◌, refl, sym, ap, ◌∙◌, String, Bool, true, ◌&&◌,
  Option, none, some, List, [], ◌∷◌, ◌++◌, ◌==◌, leb, str_eq, get_or, length-reverse, length-filter,
  length, if◌then◌else◌, filter, count_where, map, sort_by, reverse, take, drop, take-drop,
  drop-drop, drop_all, arith,
}
use native.Mathlib.Nat.{lt-mul-div-succ, mul-add, mul_comm}
use fuel_chain.BatchStatus
use fuel_chain.BatchStatus.{BatchStatus}
use fuel_chain.Store.{Batch}

pub data RiskLevel : Type 0 where
  low medium high : RiskLevel

abbrev risk_number : RiskLevel → ℕ
risk_number low = 0
risk_number medium = 1
risk_number high = 2

-- The row of a batch with the columns that the list filters by, and the times of its events.
pub record BatchRow : Type 0 where
  pub batch : Batch
  pub product : String
  pub origin_country : String
  pub risk_level : RiskLevel
  pub is_certified : Bool
  pub updated_at : ℕ
  pub event_times : List ℕ

pub record Query : Type 0 where
  pub page : Option ℕ
  pub page_size : Option ℕ
  pub status : Option BatchStatus
  pub risk : Option RiskLevel
  pub product : Option String
  pub origin : Option String
  pub q : Option String

-- `query.page ?? 1`
abbrev pub page_of : Query → ℕ
page_of query = get_or query.page 1

-- `Math.min(query.pageSize ?? 20, 100)`
abbrev pub page_size_of : Query → ℕ
page_size_of query = let asked = get_or query.page_size 20 in if leb asked 100 then asked else 100

abbrev fits {ℓ} : {A : Type ℓ} → Option A → (A → Bool) → Bool
fits none p = true
fits (some a) p = p a

-- `contains` is the search of the database in texts of any case, a parameter; an empty text is no filter.
abbrev given_text : Option String → (String → Bool) → Bool
given_text none p = true
given_text (some s) p = if str_eq s "" then true else p s

abbrev pub is_asked : (String → String → Bool) → Query → BatchRow → Bool
is_asked contains query r =
    fits query.status (BatchStatus.same r.batch.status)
    && (fits query.risk (λ k. risk_number r.risk_level == risk_number k)
        && (given_text query.product (contains r.product)
            && (given_text query.origin (contains r.origin_country)
                && given_text query.q (contains r.batch.batch_code))))

-- A batch of the list with the time of its last event.
pub record Listed : Type 0 where
  pub row : BatchRow
  pub last_event : Option ℕ

abbrev latest_of : List ℕ → Option ℕ
latest_of times = elim (sort_by (λ (a b : ℕ). leb b a) times) [ [] ↦ none | t ∷ ts ↦ some t ]

abbrev pub listed : BatchRow → Listed
listed r = record { row = r; last_event = latest_of r.event_times }

pub record Page : Type 0 where
  pub shown : List Listed
  pub total : ℕ
  pub page : ℕ
  pub page_size : ℕ
  pub page_count : ℕ

-- The batches that are asked for, from the newest.
abbrev pub asked_rows : (String → String → Bool) → Query → List BatchRow → List BatchRow
asked_rows contains query rows = reverse (filter (is_asked contains query) rows)

-- `Math.ceil(total / pageSize)`, for a size above 0
abbrev pub ceil_div : ℕ → ℕ → ℕ
ceil_div total size = (total + (size - 1)) / size

unfoldable pub find_all : (String → String → Bool) → Query → List BatchRow → Page
find_all contains query rows =
    let asked = asked_rows contains query rows in
    let size = page_size_of query in
    record {
      shown = map listed (take size (drop ((page_of query - 1) * size) asked));
      total = count_where (is_asked contains query) rows;
      page = page_of query;
      page_size = size;
      page_count = ceil_div (count_where (is_asked contains query) rows) size;
    }

-- The pages from one on, put together.
abbrev pub pages : (String → String → Bool) → Query → List BatchRow → ℕ → ℕ → List Listed
pages contains query rows k zero = []
pages contains query rows k (suc n) =
    (find_all contains (record query { page = some k }) rows).shown
    ++ pages contains query rows (suc k) n

map-append {ℓ κ} :
    {A : Type ℓ} {B : Type κ} (f : A → B) (xs ys : List A) → map f (xs ++ ys) ≡ map f xs ++ map f ys
map-append f [] ys = refl
map-append f (x ∷ xs) ys = ap (λ zs. f x ∷ zs) (map-append f xs ys)

pages_from :
    (contains : String → String → Bool) (query : Query) (rows : List BatchRow) (k n : ℕ)
    → length (asked_rows contains query rows) ≤ (k + n) * page_size_of query
    → pages contains query rows (suc k) n
      ≡ map listed (drop (k * page_size_of query) (asked_rows contains query rows))
unfolding find_all
pages_from contains query rows k zero h =
    ap (map listed)
      (sym (drop_all (k * page_size_of query) (asked_rows contains query rows) (omega arith)))
pages_from contains query rows k (suc n) h =
    let xs = asked_rows contains query rows in
    let size = page_size_of query in
    let next : drop (suc k * size) xs ≡ drop size (drop (k * size) xs) =
      ap (λ m. drop m xs) (ground arith) ∙ sym (drop-drop (k * size) size xs) in
    let rest = pages_from contains query rows (suc k) n (omega (arith, h)) in
    ap
      (λ m.
        map listed (take size (drop (m * size) xs)) ++ pages contains query rows (suc (suc k)) n)
      (ground arith)
    ∙ ap (λ ys. map listed (take size (drop (k * size) xs)) ++ ys) (rest ∙ ap (map listed) next)
    ∙ sym (map-append listed (take size (drop (k * size) xs)) (drop size (drop (k * size) xs)))
    ∙ ap (map listed) (take-drop size (drop (k * size) xs))

le-ceil_div : (total size : ℕ) → 1 ≤ size → total ≤ ceil_div total size * size
le-ceil_div total size h =
    let n = total + (size - 1) in
    let above : n < size * (n / size + 1) = lt-mul-div-succ n {b = size} (omega arith) in
    omega (arith, above, mul-add size (n / size) 1, mul_comm size (n / size), h)

-- The pages of a query, from the first to the last that the answer counts, put together, show every
-- batch that is asked for, once and from the newest, where a page holds at least one row; it holds 100
-- at most, and the total is their number.
pub find_all-pages :
    (contains : String → String → Bool) (query : Query) (rows : List BatchRow)
    → 1 ≤ page_size_of query
    → (pages contains query rows 1 (find_all contains query rows).page_count
        ≡ map listed (asked_rows contains query rows))
      × (page_size_of query ≤ 100)
      × ((find_all contains query rows).total ≡ length (asked_rows contains query rows))
unfolding find_all
find_all-pages contains query rows some_size =
    let p = is_asked contains query in
    let size = page_size_of query in
    let count = count_where p rows in
    let total : length (asked_rows contains query rows) ≡ count =
      length-reverse (filter p rows) ∙ length-filter p rows in
    let none_before : 0 * size ≡ 0 = omega arith in
    (
      pages_from contains query rows 0 (ceil_div count size)
            (omega (arith, total, le-ceil_div count size some_size))
          ∙ ap (λ m. map listed (drop m (asked_rows contains query rows))) none_before,
      ground arith,
      sym total,
    )
