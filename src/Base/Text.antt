-- ===== src/Base/Text.antt =====
-- Texts of JavaScript: `trim`, which cuts white space from both ends, and `startsWith`.
use Prim.Native.Char.{Char, code}
use Prim.Native.String.{String}
use text.Mathlib.Text.{◌==◌ as str_eq}
use mathlib.Core.Bool.{Bool, true, false, ◌&&◌, ◌||◌}
use mathlib.Core.Path.{◌≡◌, refl}
use native.Mathlib.Omega.{arith}
use text.Mathlib.TextEquality.{codes_equal}
use fuel_chain.Base.Tests.{ltb, leb, ◌==◌, if◌then◌else◌}
use Prim.Native.Nat.{ℕ, compare, Ordering}

-- The code points that ECMAScript counts as white space or line terminators.
abbrev pub is_space : ℕ → Bool
is_space c =
    (leb 9 c && leb c 13)
    || c == 32
    || c == 160
    || c == 5760
    || (leb 8192 c && leb c 8202)
    || c == 8232
    || c == 8233
    || c == 8239
    || c == 8287
    || c == 12288
    || c == 65279

unfoldable pub trim_start : String → String
trim_start String.[] = String.[]
trim_start (String.◌∷◌ c s) =
    let rest = trim_start s in if is_space (code c) then rest else String.◌∷◌ c s

abbrev trimmed_cons : Char → String → String
trimmed_cons c String.[] = if is_space (code c) then String.[] else String.◌∷◌ c String.[]
trimmed_cons c (String.◌∷◌ d s) = String.◌∷◌ c (String.◌∷◌ d s)

unfoldable pub trim_end : String → String
trim_end String.[] = String.[]
trim_end (String.◌∷◌ c s) = trimmed_cons c (trim_end s)

unfoldable pub trim : String → String
unfolding trim_start trim_end
trim s = trim_start (trim_end s)

-- `text.startsWith(prefix)`
unfoldable pub starts_with : String → String → Bool
starts_with String.[] s = true
starts_with (String.◌∷◌ c p) String.[] = false
starts_with (String.◌∷◌ c p) (String.◌∷◌ d s) =
    let rest = starts_with p s in str_eq (String.◌∷◌ c String.[]) (String.◌∷◌ d String.[]) && rest

-- The order of texts by the code points of their characters.
abbrev pub text_le : String → String → Bool
text_le String.[] t = true
text_le (String.◌∷◌ c s) String.[] = false
text_le (String.◌∷◌ c s) (String.◌∷◌ d t) =
    let rest = text_le s t in
    if ltb (code c) (code d) then true else (if code c == code d then rest else false)

pub text_le_total : (s t : String) → text_le s t ≡ false → text_le t s ≡ true
text_le_total String.[] t h = ground (arith, h)
text_le_total (String.◌∷◌ c s) String.[] h = refl
text_le_total (String.◌∷◌ c s) (String.◌∷◌ d t) h = ground (arith, h, text_le_total s t)

pub text_le_antisym : (s t : String) → text_le s t ≡ true → text_le t s ≡ true → s ≡ t
text_le_antisym String.[] String.[] h k = refl
text_le_antisym String.[] (String.◌∷◌ d t) h k = absurd (ground (arith, k))
text_le_antisym (String.◌∷◌ c s) String.[] h k = absurd (ground (arith, h))
text_le_antisym (String.◌∷◌ c s) (String.◌∷◌ d t) h k =
    let both : (compare (code c) (code d) ≡ Ordering.eq)
        × (text_le s t ≡ true)
        × (text_le t s ≡ true) =
      ground (arith, h, k) in
    let rest = text_le_antisym s t both.1 both.2 in
    λ i. String.◌∷◌ (codes_equal c d both.0 i) (rest i)

pub text_le_trans : (s t u : String) → text_le s t ≡ true → text_le t u ≡ true → text_le s u ≡ true
text_le_trans String.[] t u h k = refl
text_le_trans (String.◌∷◌ c s) String.[] u h k = absurd (ground (arith, h))
text_le_trans (String.◌∷◌ c s) (String.◌∷◌ d t) String.[] h k = absurd (ground (arith, k))
text_le_trans (String.◌∷◌ c s) (String.◌∷◌ d t) (String.◌∷◌ e u) h k =
    ground (arith, h, k, text_le_trans s t u)
