-- ===== src/Listings/Seen.antt =====
-- Whose settlements, checkpoints and contracts a listing shows.
use fuel_chain.Base.{
  ℕ, ◌≤◌, ◌≡◌, inl, inr, refl, ap, sym, ◌∙◌, String, Bool, true, false, Option, none, some, List,
  length, eq_iff, All, All-filter, All-reverse, All-take, length-take, filter, reverse, subst, ◌||◌,
  Result, ok, Bool-cases, arith,
}
use fuel_chain.Schema.{ActorRole, Exception, admin, transporter, station_staff, verifier, same_role}
use fuel_chain.Settlement.{Settlement}
use fuel_chain.Store.{Db, Actor, Cistern, cistern_by_id}
use fuel_chain.Custody.Accept.{given, given-some}
use fuel_chain.Custody.Issue.{is_driver}
use fuel_chain.Listings.{
  list_settlements, newest_settlements, settlements_of_others, is_own, at_station, has_station,
  same_code, code_of,
}

-- The cistern of a row is the one that the user drives by its code.
pub record OwnCistern (user : Actor) (db : Db) (k : ℕ) : Type 0 where
  pub cistern : Cistern
  pub known : cistern_by_id k db ≡ some cistern
  pub named : user.cistern_code ≡ some cistern.code

-- Who may see a settlement.
pub data MaySee (user : Actor) (db : Db) (s : Settlement) : Type 0 where
  as_admin : user.role ≡ admin → MaySee user db s
  as_verifier : user.role ≡ verifier → MaySee user db s
  of_station : user.role ≡ station_staff → user.station_id ≡ some s.station_id → MaySee user db s
  of_driver : user.role ≡ transporter → s.driver_id ≡ some user.id → MaySee user db s
  of_cistern : user.role ≡ transporter → OwnCistern user db s.cistern_id → MaySee user db s

own_cistern :
    (user : Actor) (db : Db) (k : ℕ) (c : Option Cistern) (code : Option String)
    → cistern_by_id k db ≡ c
    → given user.cistern_code ≡ code
    → same_code (code_of c) code ≡ true
    → OwnCistern user db k
own_cistern user db k none code found named h = absurd (ground (arith, h))
own_cistern user db k (some c) none found named h = absurd (ground (arith, h))
own_cistern user db k (some c) (some code) found named h = record {
  cistern = c;
  known = found;
  named = given-some user.cistern_code code named ∙ ap some (sym ((eq_iff c.code code).0 h));
}

drives : (o : Option ℕ) (k : ℕ) → is_driver o k ≡ true → o ≡ some k
drives none k h = absurd (ground (arith, h))
drives (some j) k h = ap some (ground (arith, h))

station_own : (o : Option ℕ) (k : ℕ) → at_station o k ≡ true → o ≡ some k
station_own none k h = absurd (ground (arith, h))
station_own (some j) k h = ap some (ground (arith, h))

is_own_may :
    (user : Actor) (db : Db) (s : Settlement)
    → user.role ≡ transporter
    → is_own user db s ≡ true
    → MaySee user db s
is_own_may user db s role h = elim (Bool-cases (is_driver s.driver_id user.id)) [
  | inl e ↦ of_driver role (drives s.driver_id user.id e)
  | inr e ↦ of_cistern role (
      own_cistern user db s.cistern_id (cistern_by_id s.cistern_id db) (given user.cistern_code)
        refl refl (ground (arith, h, e)))
]

same_role_iff : (r t : ActorRole) → same_role r t ≡ true → r ≡ t
same_role_iff r t h = ground (arith, h)

newest-All :
    (P : Settlement → Type 0) (p : Settlement → Bool) (db : Db)
    → ((s : Settlement) → p s ≡ true → P s)
    → All P (newest_settlements p db) × (length (newest_settlements p db) ≤ 40)
newest-All P p db h = (
  All-take P 40 (reverse (filter p db.settlements))
      (All-reverse P (filter p db.settlements) (All-filter P p h db.settlements)),
  length-take 40 (reverse (filter p db.settlements)),
)

Shown : Actor → Db → List Settlement → Type 0
Shown user db rows = All (MaySee user db) rows × (length rows ≤ 40)

shown :
    (user : Actor) (db : Db) (p : Settlement → Bool) (rows : List Settlement)
    → ((s : Settlement) → p s ≡ true → MaySee user db s)
    → ◌≡◌ {A = Result Exception (List Settlement)} (ok (newest_settlements p db)) (ok rows)
    → Shown user db rows
unfolding Shown
shown user db p rows may h =
    let same : newest_settlements p db ≡ rows = cc in
    subst (λ (xs : List Settlement). All (MaySee user db) xs × (length xs ≤ 40)) same
      (newest-All (MaySee user db) p db may)

others_may :
    (drives all : Bool) (user : Actor) (db : Db) (rows : List Settlement)
    → same_role user.role transporter ≡ drives
    → (same_role user.role admin || same_role user.role verifier) ≡ all
    → settlements_of_others user db ≡ ok rows
    → Shown user db rows
others_may true all user db rows role other h =
    shown user db (is_own user db) rows
      (λ s own. is_own_may user db s (same_role_iff user.role transporter role) own)
      (ground (arith, h, role))
others_may false true user db rows role other h =
    shown user db (λ s. true) rows
      (λ s e. elim (Bool-cases (same_role user.role admin)) [
        | inl r ↦ as_admin (same_role_iff user.role admin r)
        | inr r ↦ as_verifier (same_role_iff user.role verifier (ground (arith, other, r)))
      ])
      (ground (arith, h, role, other))
others_may false false user db rows role other h = absurd (ground (arith, h, role, other))

-- Every settlement that a listing shows is one that the user may see: any for an administrator or a
-- verifier, those of the own station for a member of it, and for a transporter those as the driver or
-- of the cistern that the user drives; it shows 40 at most, and nothing to anybody else.
pub list_settlements-MaySee :
    (user : Actor) (db : Db) (rows : List Settlement)
    → list_settlements user db ≡ ok rows
    → All (MaySee user db) rows × (length rows ≤ 40)
unfolding list_settlements Shown
list_settlements-MaySee user db rows h = elim (Bool-cases (has_station user)) [
  | inl e ↦
      shown user db (λ (s : Settlement). at_station user.station_id s.station_id) rows
        (λ s own. of_station (ground (arith, e)) (station_own user.station_id s.station_id own))
        (ground (arith, h, e))
  | inr e ↦
      others_may (same_role user.role transporter)
        (same_role user.role admin || same_role user.role verifier) user db rows refl refl
        (ground (arith, h, e))
]
