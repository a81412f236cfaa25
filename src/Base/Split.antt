-- ===== src/Base/Split.antt =====
-- Texts of two parts: `split` at a character, its first two parts, and the text that joins two.
use Prim.Native.Char.{Char}
use Prim.Native.String.{String}
use text.Mathlib.Text.{◌==◌ as str_eq}
use text.Mathlib.TextPositions.{eq_refl}
use mathlib.Core.Path.{◌≡◌, refl, sym, ap, ◌∙◌}
use mathlib.Core.Bool.{Bool, true, false}
use mathlib.Core.Option.{Option, none, some}
use mathlib.Core.Logic.{inl, inr}
use native.Mathlib.Omega.{arith}
use fuel_chain.Base.Tests.{if◌then◌else◌, Bool-cases}

module _ (sep : Char) where
  abbrev is_sep : Char → Bool
  is_sep c = str_eq (String.◌∷◌ c String.[]) (String.◌∷◌ sep String.[])

  -- The first part of `text.split(sep)`
  unfoldable pub part : String → String
  part String.[] = String.[]
  part (String.◌∷◌ c s) = let rest = part s in if is_sep c then String.[] else String.◌∷◌ c rest

  -- `${s}${sep}${t}`
  unfoldable pub joined : String → String → String
  joined String.[] t = String.◌∷◌ sep t
  joined (String.◌∷◌ c s) t = String.◌∷◌ c (joined s t)

  -- What follows the first separator; nothing where there is none.
  unfoldable pub after : String → Option String
  after String.[] = none
  after (String.◌∷◌ c s) = let rest = after s in if is_sep c then some s else rest

  abbrev pub part_of : Option String → Option String
  part_of none = none
  part_of (some s) = some (part s)

  abbrev pub second_part : String → Option String
  second_part token = part_of (after token)

  -- A text without the separator.
  abbrev pub Unsplit : String → Type 0
  Unsplit s = after s ≡ none

  split_at :
      (b : Bool) (s : String) (o : Option String) → b ≡ true → (if b then some s else o) ≡ none → ⊥
  split_at b s o e h = ground (arith, e, h)

  chosen : (b : Bool) (s : String) (o : Option String) → b ≡ false → (if b then some s else o) ≡ o
  chosen b s o e = rw e refl

  pub part-joined : (s t : String) → Unsplit s → part (joined s t) ≡ s
  unfolding part after joined
  part-joined String.[] t h = rw (eq_refl (String.◌∷◌ sep String.[])) refl
  part-joined (String.◌∷◌ c s) t h = elim (Bool-cases (is_sep c)) [
    | inl e ↦ absurd (split_at (is_sep c) s (after s) e h)
    | inr e ↦ rw e (ap (String.◌∷◌ c) (part-joined s t (sym (chosen (is_sep c) s (after s) e) ∙ h)))
  ]

  pub part_self : (s : String) → Unsplit s → part s ≡ s
  unfolding part after
  part_self String.[] h = refl
  part_self (String.◌∷◌ c s) h = elim (Bool-cases (is_sep c)) [
    | inl e ↦ absurd (split_at (is_sep c) s (after s) e h)
    | inr e ↦ rw e (ap (String.◌∷◌ c) (part_self s (sym (chosen (is_sep c) s (after s) e) ∙ h)))
  ]

  pub after-joined : (s t : String) → Unsplit s → after (joined s t) ≡ some t
  unfolding after joined
  after-joined String.[] t h = rw (eq_refl (String.◌∷◌ sep String.[])) refl
  after-joined (String.◌∷◌ c s) t h = elim (Bool-cases (is_sep c)) [
    | inl e ↦ absurd (split_at (is_sep c) s (after s) e h)
    | inr e ↦ rw e (after-joined s t (sym (chosen (is_sep c) s (after s) e) ∙ h))
  ]
