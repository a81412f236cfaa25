-- ===== src/Web/Paths.antt =====
-- Where a login may lead: apps/web/src/lib/safe-next.ts.
use fuel_chain.Base.{
  ◌≡◌, ◌⊎◌, String, Bool, true, false, not, ◌&&◌, ◌||◌, Option, none, some, str_eq, if◌then◌else◌,
  arith, Bool-cases, inl, inr, refl,
}
use fuel_chain.Base.Text.{starts_with}

-- `next` that is null or empty does not start with a slash either.
unfoldable pub safe_internal_path : Option String → String
safe_internal_path none = "/"
safe_internal_path (some next) =
    if not (starts_with "/" next) || starts_with "//" next
    then "/"
    else (if str_eq next "/login" || starts_with "/login?" next then "/" else next)

-- A path of this application, and not that of the login.
abbrev pub is_internal : String → Bool
is_internal s =
    (starts_with "/" s && not (starts_with "//" s))
    && not (str_eq s "/login" || starts_with "/login?" s)

root-is_internal : is_internal "/" ≡ true
unfolding starts_with
root-is_internal = refl

inside :
    (next : String)
    → (not (starts_with "/" next) || starts_with "//" next) ≡ false
    → (str_eq next "/login" || starts_with "/login?" next) ≡ false
    → is_internal next ≡ true
inside next e f = both (starts_with "/" next) (starts_with "//" next) _ e f
  where
    both : (a b c : Bool) → (not a || b) ≡ false → c ≡ false → ((a && not b) && not c) ≡ true
    both a b c e f = ground (arith, e, f)

-- Whatever a request asks for, a login leads to a path of this application other than the login; what is
-- such a path already is followed as it is, and all else leads to the root.
pub safe_internal_path-is_internal :
    (next : Option String)
    → (is_internal (safe_internal_path next) ≡ true)
      × ((safe_internal_path next ≡ "/") ⊎ (next ≡ some (safe_internal_path next)))
unfolding safe_internal_path
safe_internal_path-is_internal none = (root-is_internal, inl refl)
safe_internal_path-is_internal (some next) =
    let outside = not (starts_with "/" next) || starts_with "//" next in
    let login = str_eq next "/login" || starts_with "/login?" next in
    elim (Bool-cases outside) [
      | inl e ↦ rw e (root-is_internal, inl refl)
      | inr e ↦ elim (Bool-cases login) [
        | inl f ↦ rw (e, f) (root-is_internal, inl refl)
        | inr f ↦ rw (e, f) (inside next e f, inr refl)
      ]
    ]
