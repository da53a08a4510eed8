-- ===== src/Prelude/TextOrder.antt =====
-- Texts in the order of their characters' codes, as Python and SQLite's BINARY collation compare them.
use Prim.Native.Char.{code}
use Prim.Native.String.{String}
use mathlib.Core.Path.{◌≡◌, refl, ap₂}
use mathlib.Core.Logic.{◌⊎◌, inl, inr}
use mathlib.Core.Bool.{Bool, true, false}
use native.Mathlib.Omega.{arith}
use text.Mathlib.TextEquality.{Char-path}
use teldrive_lab.Prelude.Tests.{ltb, if◌then◌else◌}

unfoldable pub text_le : String → String → Bool
text_le String.[] t = true
text_le (String.◌∷◌ c s) String.[] = false
text_le (String.◌∷◌ c s) (String.◌∷◌ d t) =
    if ltb (code c) (code d) then true else if ltb (code d) (code c) then false else text_le s t

pub text_le_total : (s t : String) → (text_le s t ≡ true) ⊎ (text_le t s ≡ true)
unfolding text_le
text_le_total String.[] t = inl refl
text_le_total (String.◌∷◌ c s) String.[] = inr refl
text_le_total (String.◌∷◌ c s) (String.◌∷◌ d t) = ground (arith, text_le_total s t)

pub text_le_trans : (s t u : String) → text_le s t ≡ true → text_le t u ≡ true → text_le s u ≡ true
unfolding text_le
text_le_trans String.[] t u h g = refl
text_le_trans (String.◌∷◌ c s) String.[] u h g = cc
text_le_trans (String.◌∷◌ c s) (String.◌∷◌ d t) String.[] h g = cc
text_le_trans (String.◌∷◌ c s) (String.◌∷◌ d t) (String.◌∷◌ e u) h g =
    ground (arith, text_le_trans s t u)

pub text_le_antisym : (s t : String) → text_le s t ≡ true → text_le t s ≡ true → s ≡ t
unfolding text_le
text_le_antisym String.[] String.[] h g = refl
text_le_antisym String.[] (String.◌∷◌ d t) h g = cc
text_le_antisym (String.◌∷◌ c s) String.[] h g = cc
text_le_antisym (String.◌∷◌ c s) (String.◌∷◌ d t) h g =
    ap₂ (λ x y. String.◌∷◌ x y) (Char-path c d (ground arith))
      (text_le_antisym s t (ground arith) (ground arith))
